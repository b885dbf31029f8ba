-- ===== src/Cold/Upload.antt =====
-- What uploads, documents and evictions leave behind on a machine (archive.py).
use ccc_storage.Base.{String, ◌≡◌, refl, Option, none, some, List, [], ◌∷◌, Result, raised, ok}
use ccc_storage.Base.Action.{go_on}
use ccc_storage.Base.Dict.{lookup}
use ccc_storage.Manifest.{PackInfo}
use ccc_storage.Manifest.Value.{Fields}
use ccc_storage.ObjectStore.{ObjectStore}
use ccc_storage.Cold.{pack_key, Machine, stored, put_found, put_file, upload_all, put_document}

module _ {S A B : Type 0} where
  -- A call that returned has returned from its first part.
  pub go_on-ok :
      (r : S × Result A) (next : A → S → S × Result B) (s : S) (b : B)
      → go_on r next ≡ (s, ok b)
      → (a : A) × (mid : S) × (r ≡ (mid, ok a)) × (next a mid ≡ (s, ok b))
  go_on-ok (t, raised e) next s b h = cc
  go_on-ok (t, ok a) next s b h = (a, t, refl, h)

module _ (Blob : Type 0) (store : ObjectStore Blob) where
  -- The files and the manifests on disk are the same.
  abbrev pub IsSame : Machine Blob store → Machine Blob store → Type 0
  IsSame m n = (n.files ≡ m.files) × (n.documents ≡ m.documents)

  stored-IsSame :
      (m n : Machine Blob store) (r : Result store.Objects)
      → IsSame m n
      → IsSame m (stored Blob store n r).0
  stored-IsSame m n (raised e) h = h
  stored-IsSame m n (ok objects) h = h

  put_found-IsSame :
      (key : String) (m n : Machine Blob store) (o : Option Blob)
      → IsSame m n
      → IsSame m (put_found Blob store key n o).0
  put_found-IsSame key m n none h = h
  put_found-IsSame key m n (some b) h = stored-IsSame m n (store.put key b n.objects) h

  go_on-IsSame :
      {A B : Type 0} (m : Machine Blob store) (r : Machine Blob store × Result A)
      (next : A → Machine Blob store → Machine Blob store × Result B)
      → IsSame m r.0
      → ((a : A) (n : Machine Blob store) → IsSame m n → IsSame m (next a n).0)
      → IsSame m (go_on r next).0
  go_on-IsSame m (n, raised e) next h k = h
  go_on-IsSame m (n, ok a) next h k = k a n h

  pub upload_all-IsSame :
      (prefix : String) (packs : List PackInfo) (m n : Machine Blob store)
      → IsSame m n
      → IsSame m (upload_all Blob store prefix packs n).0
  unfolding upload_all
  upload_all-IsSame prefix [] m n h = h
  upload_all-IsSame prefix (p ∷ rest) m n h =
      go_on-IsSame m (put_file Blob store (pack_key prefix p) p.path n) _
        (put_found-IsSame (pack_key prefix p) m n (lookup n.files p.path) h)
        (λ u k s.
          go_on-IsSame m (upload_all Blob store prefix rest k) _
            (upload_all-IsSame prefix rest m k s) (λ keys l t. t))

  pub put_document-IsSame :
      (document : Fields → Blob) (key : String) (m n : Machine Blob store) (r : Result Fields)
      → IsSame m n
      → IsSame m (put_document Blob store document key n r).0
  put_document-IsSame document key m n (raised e) h = h
  put_document-IsSame document key m n (ok d) h =
      stored-IsSame m n (store.put key (document d) n.objects) h
