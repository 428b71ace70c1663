-- ===== src/Hashtable/Primes.antt =====
-- `nextPrime` and its table.
use htop.Prelude.{
  ℕ, zero, suc, ◌≤◌, ◌≡◌, refl, inl, inr, Bool, true, ◌&&◌, some, List, [], ◌∷◌, arith, ltb, leb,
  Bool-cases, get_elem?,
}
use htop.Hashtable.{primes, size_max, first_at_least, next_prime}

first_at_least-le : (n : ℕ) (ps : List ℕ) (p : ℕ) → first_at_least n ps ≡ some p → n ≤ p
unfolding first_at_least
first_at_least-le n [] p h = cc
first_at_least-le n (q ∷ qs) p h = ground (arith, first_at_least-le n qs p)

all_small : List ℕ → Bool
all_small [] = true
all_small (p ∷ ps) = ltb p size_max && all_small ps

first_at_least-some :
    (n i q : ℕ) (ps : List ℕ)
    → all_small ps ≡ true
    → get_elem? ps i ≡ some q
    → n ≤ q
    → (p : ℕ) × (first_at_least n ps ≡ some p)
unfolding first_at_least all_small
first_at_least-some n i q [] s e h = cc
first_at_least-some n zero q (x ∷ ps) s e h = (x, ground arith)
first_at_least-some n (suc i) q (x ∷ ps) s e h =
    let (p, f) = first_at_least-some n i q ps (ground arith) e h in
    elim (Bool-cases (leb n x)) [ inl here ↦ (x, ground arith) | inr later ↦ (p, ground arith) ]

abbrev pub max_prime : ℕ
max_prime = 137438953447

primes_small : all_small primes ≡ true
unfolding all_small
primes_small = refl

-- Up to the greatest entry of the table of primes, a prime that is large enough is found.
pub next_prime-some : (n : ℕ) → n ≤ max_prime → (p : ℕ) × (next_prime n ≡ some p) × (n ≤ p)
unfolding next_prime
next_prime-some n h =
    let (p, e) = first_at_least-some n 36 max_prime primes primes_small refl h in
    (p, e, first_at_least-le n primes p e)
