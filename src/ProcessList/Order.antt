-- ===== src/ProcessList/Order.antt =====
-- What is left of a list when some of its processes are taken out: the others, in their order.
use htop.Prelude.{
  ℕ, zero, suc, ◌≤◌, ◌<◌, ◌≡◌, refl, subst, Bool, true, List, [], ◌∷◌, arith, length, get_or, ◌==◌,
  Bool-cases, inl, inr,
}
use htop.Prelude.Count.{count}

pub data Sub : List ℕ → List ℕ → Type 0 where
  done : Sub [] []
  keep : {p : ℕ} {xs ys : List ℕ} → Sub xs ys → Sub (p ∷ xs) (p ∷ ys)
  skip : {p : ℕ} {xs ys : List ℕ} → Sub xs ys → Sub xs (p ∷ ys)

pub Sub-refl : (ps : List ℕ) → Sub ps ps
Sub-refl [] = done
Sub-refl (p ∷ ps) = keep (Sub-refl ps)

pub Sub-trans : {xs ys zs : List ℕ} → Sub xs ys → Sub ys zs → Sub xs zs
Sub-trans s done = s
Sub-trans s (skip t) = skip (Sub-trans s t)
Sub-trans (keep s) (keep t) = keep (Sub-trans s t)
Sub-trans (skip s) (keep t) = skip (Sub-trans s t)

pub count-Sub : (q : ℕ → Bool) {xs ys : List ℕ} → Sub xs ys → count q xs ≤ count q ys
count-Sub q done = omega arith
count-Sub q (keep s) = omega (arith, count-Sub q s)
count-Sub q (skip s) = omega (arith, count-Sub q s)

-- Sorted by a number of each process.
abbrev pub Ascends : (ℕ → ℕ) → List ℕ → Type 0
Ascends at [] = true ≡ true
Ascends at (p ∷ ps) = ((q : ℕ) → 1 ≤ count (λ x. x == q) ps → at p ≤ at q) × Ascends at ps

pub Ascends-Sub : (at : ℕ → ℕ) {xs ys : List ℕ} → Sub xs ys → Ascends at ys → Ascends at xs
Ascends-Sub at done a = a
Ascends-Sub at (keep s) (first, later) =
    (λ q here. first q (omega (arith, here, count-Sub (λ x. x == q) s)), Ascends-Sub at s later)
Ascends-Sub at (skip s) (first, later) = Ascends-Sub at s later

pub Ascends-frame :
    (at new : ℕ → ℕ) (ps : List ℕ)
    → ((p : ℕ) → 1 ≤ count (λ x. x == p) ps → new p ≡ at p)
    → Ascends at ps
    → Ascends new ps
Ascends-frame at new [] same a = a
Ascends-frame at new (p ∷ ps) same (first, later) = (
  λ q here. omega (arith, first q here, same p (ground arith), same q (ground (arith, here))),
  Ascends-frame at new ps (λ q here. same q (ground (arith, here))) later,
)

occurs_at : (ps : List ℕ) (i : ℕ) → i < length ps → 1 ≤ count (λ x. x == get_or ps i 0) ps
occurs_at [] i h = absurd (omega arith)
occurs_at (p ∷ ps) zero h = ground arith
occurs_at (p ∷ ps) (suc i) h = omega (arith, occurs_at ps i (omega arith))

pub index_of_one :
    (ps : List ℕ) (q : ℕ)
    → 1 ≤ count (λ x. x == q) ps
    → (i : ℕ) × (i < length ps) × (get_or ps i 0 ≡ q)
index_of_one [] q here = absurd (omega arith)
index_of_one (p ∷ ps) q here = elim (Bool-cases (p == q)) [
  | inl this ↦ (0, omega arith, ground (arith, this))
  | inr other ↦
      let (i, inside, e) = index_of_one ps q (ground (arith, here, other)) in
      (suc i, omega (arith, inside), e)
]

pub Ascends-at :
    (at : ℕ → ℕ) (ps : List ℕ)
    → Ascends at ps
    → (i j : ℕ) → i < j
    → j < length ps
    → at (get_or ps i 0) ≤ at (get_or ps j 0)
Ascends-at at [] a i j less inside = absurd (omega arith)
Ascends-at at (p ∷ ps) a i zero less inside = absurd (omega arith)
Ascends-at at (p ∷ ps) (first, later) zero (suc j) less inside =
    first (get_or ps j 0) (occurs_at ps j (omega arith))
Ascends-at at (p ∷ ps) (first, later) (suc i) (suc j) less inside =
    Ascends-at at ps later i j (omega arith) (omega arith)

pub at-Ascends :
    (at : ℕ → ℕ) (ps : List ℕ)
    → ((i j : ℕ) → i < j → j < length ps → at (get_or ps i 0) ≤ at (get_or ps j 0))
    → Ascends at ps
at-Ascends at [] sorted = refl
at-Ascends at (p ∷ ps) sorted = (
  λ q here.
      let (j, inside, e) = index_of_one ps q here in
      subst (λ x. at p ≤ at x) e (sorted 0 (suc j) (omega arith) (omega (arith, inside))),
  at-Ascends at ps (λ i j less inside. sorted (suc i) (suc j) (omega arith) (omega arith)),
)
