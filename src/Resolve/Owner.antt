-- ===== src/Resolve/Owner.antt =====
-- `_longest_prefix` and `resolve_owner_path`: the owner of a path.
use Prim.Native.String.{◌++◌ as ◌<>◌}
use text.Mathlib.TextLemmas.{append_assoc, append-nil}
use ccc_storage.Base.{
  String, ℕ, suc, ◌≤◌, ◌<◌, ◌≡◌, refl, sym, ap, ◌∙◌, true, false, ◌&&◌, Option, none, some, List,
  [], ◌∷◌, ◌++◌, str_eq, str_eq_iff, ltb, All, All-mono, ◌⊎◌, inl, inr, Bool-cases, Option-cases,
  arith,
}
use ccc_storage.Base.Text.{is_slash, lstrip}
use ccc_storage.Manifest.{ChildBoundary}
use ccc_storage.Paths.{count, drop_text, normalize, after_prefix}
use ccc_storage.Paths.Laws.{after_prefix-eq, lstrip-normalize, drop_text-append, slash-append}
use ccc_storage.Resolve.{
  OwningBoundary, boundary_path, covers, longest_loop, longest_prefix, owned_by, resolve_owner_path,
}

abbrev pub size : ChildBoundary → ℕ
size b = count (boundary_path b)

-- The boundary is the first of the longest that cover the path; there is none if none covers it.
abbrev pub IsFirstLongest : String → List ChildBoundary → Option ChildBoundary → Type 0
IsFirstLongest clean bs none = All (λ b. covers b clean ≡ false) bs
IsFirstLongest clean bs (some b) =
    (before : List ChildBoundary) × (after : List ChildBoundary) × (bs ≡ before ++ b ∷ after)
    × (covers b clean ≡ true)
    × All (λ a. covers a clean ≡ true → size a < size b) before
    × All (λ a. covers a clean ≡ true → size a ≤ size b) after

-- A boundary that the loop takes from `bs`, over what it held.
abbrev Improves : String → List ChildBoundary → ℕ → ChildBoundary → Type 0
Improves clean bs past b = (past < suc (size b)) × IsFirstLongest clean bs (some b)

abbrev LoopResult :
    String → List ChildBoundary → Option ChildBoundary → ℕ → Option ChildBoundary → Type 0
LoopResult clean bs best past r =
    ((r ≡ best) × All (λ a. covers a clean ≡ true → suc (size a) ≤ past) bs)
    ⊎ ((b : ChildBoundary) × (r ≡ some b) × Improves clean bs past b)

Improves-cons :
    (clean : String) (b a : ChildBoundary) (rest : List ChildBoundary) (past later : ℕ)
    → past ≤ later
    → (covers b clean ≡ true → suc (size b) ≤ later)
    → Improves clean rest later a
    → Improves clean (b ∷ rest) past a
Improves-cons clean b a rest past later le small (gt, (before, after, e, hit, shorter, no_longer)) =
    (
      omega (arith, le, gt),
      (
        b ∷ before,
        after,
        ap (λ l. b ∷ l) e,
        hit,
        ((λ c. let d = small c in omega (arith, d, gt)), shorter),
        no_longer,
      ),
    )

longest_loop_lem :
    (clean : String) (bs : List ChildBoundary) (best : Option ChildBoundary) (past : ℕ)
    → LoopResult clean bs best past (longest_loop clean bs best past)
unfolding longest_loop
longest_loop_lem clean [] best past = inl (refl, tt)
longest_loop_lem clean (b ∷ rest) best past =
    elim (Bool-cases (covers b clean && ltb past (suc (size b)))) [
      | inl e ↦
          let hit : covers b clean ≡ true = ground (arith, e) in
          let gt : past < suc (size b) = ground (arith, e) in
          rw e (elim (longest_loop_lem clean rest (some b) (suc (size b))) [
            | inl h ↦ inr (
              b,
              h.0,
              (
                gt,
                (
                  [],
                  rest,
                  refl,
                  hit,
                  tt,
                  All-mono (λ a. covers a clean ≡ true → suc (size a) ≤ suc (size b))
                      (λ a. covers a clean ≡ true → size a ≤ size b)
                      (λ a f c. let d = f c in omega (arith, d)) rest h.1,
                ),
              ),
            )
            | inr (a, r, h) ↦ inr (
              a,
              r,
              Improves-cons clean b a rest past (suc (size b)) (omega (arith, gt))
                  (λ c. omega arith) h,
            )
          ])
      | inr e ↦
          let small : covers b clean ≡ true → suc (size b) ≤ past = λ c. ground (arith, e, c) in
          rw e (elim (longest_loop_lem clean rest best past) [
            | inl h ↦ inl (h.0, (small, h.1))
            | inr (a, r, h) ↦
                inr (a, r, Improves-cons clean b a rest past past (omega arith) small h)
          ])
    ]

pub longest_prefix-IsFirstLongest :
    (bs : List ChildBoundary) (clean : String) → IsFirstLongest clean bs (longest_prefix bs clean)
unfolding longest_prefix
longest_prefix-IsFirstLongest bs clean = elim (longest_loop_lem clean bs none 0) [
  | inl h ↦ rw h.0 (
      All-mono (λ a. covers a clean ≡ true → suc (size a) ≤ 0) (λ a. covers a clean ≡ false)
        (λ a f. elim (Bool-cases (covers a clean)) [
          | inl c ↦ let d = f c in ground (arith, d)
          | inr c ↦ c
        ])
        bs h.1)
  | inr (b, r, h) ↦ rw r h.1
]

covers-split :
    (b : ChildBoundary) (clean : String)
    → covers b clean ≡ true
    → (clean ≡ boundary_path b) ⊎ ((rest : String) × (clean ≡ boundary_path b <> ("/" <> rest)))
covers-split b clean c = elim (Bool-cases (str_eq clean (boundary_path b))) [
  | inl e ↦ inl ((str_eq_iff clean (boundary_path b)).0 e)
  | inr e ↦ elim (Option-cases (after_prefix clean (boundary_path b <> "/"))) [
    | inl o ↦ ground (arith, c, e, o)
    | inr (rest, o) ↦ inr (
      rest,
      after_prefix-eq clean (boundary_path b <> "/") rest o
          ∙ append_assoc (boundary_path b) "/" rest,
    )
  ]
]

-- The path inside the boundary: what stands below it.
abbrev pub Splits : String → String → String → Type 0
Splits clean prefix inner = ((clean ≡ prefix) × (inner ≡ "")) ⊎ (clean ≡ prefix <> ("/" <> inner))

inner_self : (p : String) → lstrip is_slash (drop_text (count p) p) ≡ ""
inner_self p =
    ap (λ t. lstrip is_slash (drop_text (count p) t)) (sym (append-nil p))
    ∙ ap (lstrip is_slash) (drop_text-append p "")

inner_below :
    (p rest : String)
    → lstrip is_slash (drop_text (count p) (p <> ("/" <> rest))) ≡ lstrip is_slash rest
inner_below p rest = ap (lstrip is_slash) (drop_text-append p ("/" <> rest) ∙ slash-append rest)

inner_path-Splits :
    (b : ChildBoundary) (path : String)
    → covers b (normalize path) ≡ true
    → Splits
        (normalize path)
        (boundary_path b)
        (lstrip is_slash (drop_text (size b) (normalize path)))
inner_path-Splits b path c = elim (covers-split b (normalize path) c) [
  | inl e ↦ inl (e, rw (e, inner_self (boundary_path b)) refl)
  | inr (rest, e) ↦ inr (
      e
      ∙ ap (λ t. boundary_path b <> ("/" <> t))
          (sym (
            ap (λ t. lstrip is_slash (drop_text (size b) t)) e
            ∙ inner_below (boundary_path b) rest
            ∙ lstrip-normalize path (boundary_path b) rest e)))
]

abbrev pub IsOwner : List ChildBoundary → String → String → OwningBoundary → Type 0
IsOwner bs clean parent_id o =
    (o.relative_path ≡ clean) × IsFirstLongest clean bs (o.boundary) × elim (o.boundary) [
      | none ↦ (o.owner_id ≡ parent_id) × (o.inner_path ≡ clean)
      | some b ↦ (o.owner_id ≡ b.child_id) × Splits clean (boundary_path b) (o.inner_path)
    ]

owned_by-IsOwner :
    (bs : List ChildBoundary) (path parent_id : String) (best : Option ChildBoundary)
    → IsFirstLongest (normalize path) bs best
    → IsOwner bs (normalize path) parent_id (owned_by best (normalize path) parent_id)
owned_by-IsOwner bs path parent_id none h = (refl, h, (refl, refl))
owned_by-IsOwner bs path parent_id (some b) h = (refl, h, (refl, inner_path-Splits b path h.3))

pub resolve_owner_path-IsOwner :
    (bs : List ChildBoundary) (rel_path parent_id : String)
    → IsOwner bs (normalize rel_path) parent_id (resolve_owner_path bs rel_path parent_id)
unfolding resolve_owner_path
resolve_owner_path-IsOwner bs rel_path parent_id =
    owned_by-IsOwner bs rel_path parent_id (longest_prefix bs (normalize rel_path))
      (longest_prefix-IsFirstLongest bs (normalize rel_path))
