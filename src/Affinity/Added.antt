-- ===== src/Affinity/Added.antt =====
-- `Affinity_add` writes inside its array.
use htop.Prelude.{
  ℕ, ◌+◌, ◌≤◌, ◌<◌, ◌≡◌, List, ◌++◌, arith, ◌==◌, length, length-set, length-append, Bool-cases,
  inl, inr,
}
use htop.Affinity.{Affinity, add}

-- The array has its size, and no more than that is used.
abbrev IsSized : Affinity → Type 0
IsSized a = (length a.cpus ≡ a.size) × (a.used ≤ a.size) × (0 < a.size)

-- If realloc gives as many elements as asked for, an added CPU has its place in the array, which
-- stays sized.
add-IsSized :
    (fresh : ℕ → List ℕ) (a : Affinity) (id : ℕ)
    → length (fresh a.size) ≡ a.size
    → IsSized a
    → IsSized (add fresh a id) × ((add fresh a id).used ≡ a.used + 1)
unfolding add
add-IsSized fresh a id f h = elim (Bool-cases (a.used == a.size)) [
  | inl full ↦ rw full (
      ground (
        arith,
        length-set (a.cpus ++ fresh a.size) a.used id,
        length-append a.cpus (fresh a.size),
        f,
      ))
  | inr room ↦ rw room (ground (arith, length-set a.cpus a.used id))
]
