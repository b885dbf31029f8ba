-- ===== src/Compaction/Ranges.antt =====
-- The generations of a pack stack, and the range that a merged pack is given (compaction.py).
use ccc_storage.Base.{ℕ, ◌+◌, ◌≤◌, ◌≡◌, refl, List, [], ◌∷◌, ◌++◌, arith}
use ccc_storage.Manifest.{PackInfo}
use ccc_storage.Compaction.{
  generation_mins, generation_maxes, min_or, max_or, generation_min, generation_max,
}

-- The packs hold the generations after `from` up to `to`, each once and in order.
abbrev pub IsChain : ℕ → List PackInfo → ℕ → Type 0
IsChain from [] to = from ≡ to
IsChain from (pack ∷ rest) to =
    (pack.generation_min ≡ from + 1)
    × (pack.generation_min ≤ pack.generation_max)
    × IsChain pack.generation_max rest to

pub IsChain-le : (from to : ℕ) (packs : List PackInfo) → IsChain from packs to → from ≤ to
IsChain-le from to [] h = omega arith
IsChain-le from to (pack ∷ rest) h = omega (arith, IsChain-le pack.generation_max to rest h.2)

-- The generation at which a chain passes from `xs` to `ys`.
pub IsChain-append :
    (from mid to : ℕ) (xs ys : List PackInfo)
    → IsChain from xs mid
    → IsChain mid ys to
    → IsChain from (xs ++ ys) to
IsChain-append from mid to [] ys h k = rw h k
IsChain-append from mid to (pack ∷ xs) ys h k =
    (h.0, h.1, IsChain-append pack.generation_max mid to xs ys h.2 k)

pub IsChain-split :
    (from to : ℕ) (xs ys : List PackInfo)
    → IsChain from (xs ++ ys) to
    → (mid : ℕ) × IsChain from xs mid × IsChain mid ys to
IsChain-split from to [] ys h = (from, refl, h)
IsChain-split from to (pack ∷ xs) ys h =
    let (mid, p, q) = IsChain-split pack.generation_max to xs ys h.2 in (mid, (h.0, h.1, p), q)

generation_min_chain :
    (from to : ℕ) (pack : PackInfo) (rest : List PackInfo)
    → IsChain from (pack ∷ rest) to
    → min_or 0 (generation_mins (pack ∷ rest)) ≡ from + 1
unfolding generation_min
generation_min_chain from to pack [] h = ground arith
generation_min_chain from to pack (next ∷ rest) h =
    ground (arith, generation_min_chain pack.generation_max to next rest h.2)

generation_max_chain :
    (from to : ℕ) (pack : PackInfo) (rest : List PackInfo)
    → IsChain from (pack ∷ rest) to
    → max_or 0 (generation_maxes (pack ∷ rest)) ≡ to
unfolding generation_max
generation_max_chain from to pack [] h = ground arith
generation_max_chain from to pack (next ∷ rest) h = ground (
  arith,
  generation_max_chain pack.generation_max to next rest h.2,
  IsChain-le pack.generation_max to (next ∷ rest) h.2,
)

pub generation_min-IsChain :
    (from to : ℕ) (pack : PackInfo) (rest : List PackInfo)
    → IsChain from (pack ∷ rest) to
    → generation_min (pack ∷ rest) ≡ from + 1
unfolding generation_min
generation_min-IsChain = generation_min_chain

pub generation_max-IsChain :
    (from to : ℕ) (pack : PackInfo) (rest : List PackInfo)
    → IsChain from (pack ∷ rest) to
    → generation_max (pack ∷ rest) ≡ to
unfolding generation_max
generation_max-IsChain = generation_max_chain
