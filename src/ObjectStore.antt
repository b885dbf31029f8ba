-- ===== src/ObjectStore.antt =====
-- src/ccc_storage_cold/object_store.py: the protocol that cold storage uses, and LocalObjectStore.
use ccc_storage.Base.{
  String, ◌≡◌, refl, Bool, false, ◌||◌, Option, none, some, List, [], ◌∷◌, Result, raised, ok,
  object_store_error, str_eq, str_eq_iff, if◌then◌else◌, arith,
}
use ccc_storage.Base.Text.{is_empty, is_slash, strip}
use ccc_storage.Base.Dict.{Dict, lookup, assign, lookup-assign}
use ccc_storage.Paths.{split, kept_parts, normalize}

-- Two keys name one object.
abbrev pub same_place : Option String → Option String → Bool
same_place none other = false
same_place (some p) none = false
same_place (some p) (some q) = str_eq p q

-- `put_file` and `get_file` of a store, on the bytes of the file. A key that is refused has no place.
pub record ObjectStore (Blob : Type 0) : Type 1 where
  pub Objects : Type 0
  pub place : String → Option String
  pub put : String → Blob → Objects → Result Objects
  pub fetch : String → Objects → Result Blob
  -- What was put is fetched, and an object of another place stays.
  pub fetch-put :
      (key : String) (blob : Blob) (before after : Objects)
      → put key blob before ≡ ok after
      → fetch key after ≡ ok blob
  pub fetch-put_other :
      (key other : String) (blob : Blob) (before after : Objects)
      → put key blob before ≡ ok after
      → same_place (place key) (place other) ≡ false
      → fetch other after ≡ fetch other before

abbrev contains_dots : List String → Bool
contains_dots [] = false
contains_dots (part ∷ rest) = str_eq part ".." || contains_dots rest

-- `_clean_key`, and the path of the object below the root.
unfoldable pub clean_place : String → Option String
unfolding split kept_parts
clean_place key =
    let clean = strip is_slash key in
    if is_empty clean || contains_dots (kept_parts (split clean))
    then none
    else some (normalize clean)

module _ {Blob : Type 0} where
  abbrev pub put_at : Option String → Blob → Dict Blob → Result (Dict Blob)
  put_at none blob objects = raised object_store_error
  put_at (some p) blob objects = ok (assign objects p blob)

  abbrev pub found : Option Blob → Result Blob
  found none = raised object_store_error
  found (some blob) = ok blob

  abbrev pub fetch_at : Option String → Dict Blob → Result Blob
  fetch_at none objects = raised object_store_error
  fetch_at (some p) objects = found (lookup objects p)

  pub fetch_at-put_at :
      (p : Option String) (blob : Blob) (before after : Dict Blob)
      → put_at p blob before ≡ ok after
      → fetch_at p after ≡ ok blob
  fetch_at-put_at none blob before after h = cc
  fetch_at-put_at (some p) blob before after h =
      ground (arith, h, lookup-assign before p blob p, str_eq_iff p p)

  pub fetch_at-put_at_other :
      (p q : Option String) (blob : Blob) (before after : Dict Blob)
      → put_at p blob before ≡ ok after
      → same_place p q ≡ false
      → fetch_at q after ≡ fetch_at q before
  fetch_at-put_at_other none q blob before after h apart = cc
  fetch_at-put_at_other (some p) none blob before after h apart = refl
  fetch_at-put_at_other (some p) (some q) blob before after h apart =
      ground (arith, h, apart, lookup-assign before p blob q)

-- LocalObjectStore, whose files are the objects.
abbrev pub local_store : (Blob : Type 0) → ObjectStore Blob
local_store Blob = record {
  Objects = Dict Blob;
  place = clean_place;
  put = λ key blob objects. put_at (clean_place key) blob objects;
  fetch = λ key objects. fetch_at (clean_place key) objects;
  fetch-put = λ key blob before after h. fetch_at-put_at (clean_place key) blob before after h;
  fetch-put_other = λ key other blob before after h apart.
      fetch_at-put_at_other (clean_place key) (clean_place other) blob before after h apart;
}
