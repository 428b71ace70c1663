-- ===== src/Prelude/Count.antt =====
-- How many items of a list pass a test. Two lists with the same counts for every test hold the
-- same items, as often.
use Prim.Native.Nat.{ℕ, zero, suc, ◌+◌, ◌<◌}
use mathlib.Core.Path.{◌≡◌, refl}
use mathlib.Core.Bool.{Bool, true, false}
use mathlib.Core.List.{List, [], ◌∷◌, ◌++◌}
use native.Mathlib.Omega.{arith}
use htop.Prelude.Lists.{length, get_or, set, insert_at, remove_at}

abbrev pub to_nat : Bool → ℕ
to_nat true = 1
to_nat false = 0

module _ {ℓ} {A : Type ℓ} where
  abbrev pub count : (A → Bool) → List A → ℕ
  count p [] = 0
  count p (x ∷ xs) = to_nat (p x) + count p xs

  abbrev pub SameItems : List A → List A → Type ℓ
  SameItems xs ys = (p : A → Bool) → count p xs ≡ count p ys

  pub count-append : (p : A → Bool) (xs ys : List A) → count p (xs ++ ys) ≡ count p xs + count p ys
  count-append p [] ys = omega arith
  count-append p (x ∷ xs) ys = omega (arith, count-append p xs ys)

  pub count-set :
      (p : A → Bool) (xs : List A) (i : ℕ) (v d : A)
      → i < length xs
      → count p (set xs i v) + to_nat (p (get_or xs i d)) ≡ count p xs + to_nat (p v)
  count-set p [] i v d h = absurd (omega arith)
  count-set p (x ∷ xs) zero v d h = omega arith
  count-set p (x ∷ xs) (suc i) v d h = omega (arith, count-set p xs i v d)

  pub count-insert_at :
      (p : A → Bool) (i : ℕ) (a : A) (xs : List A)
      → count p (insert_at i a xs) ≡ to_nat (p a) + count p xs
  count-insert_at p zero a xs = refl
  count-insert_at p (suc i) a [] = refl
  count-insert_at p (suc i) a (x ∷ xs) = omega (arith, count-insert_at p i a xs)

  pub count-remove_at :
      (p : A → Bool) (i : ℕ) (xs : List A) (d : A)
      → i < length xs
      → to_nat (p (get_or xs i d)) + count p (remove_at i xs) ≡ count p xs
  count-remove_at p i [] d h = absurd (omega arith)
  count-remove_at p zero (x ∷ xs) d h = refl
  count-remove_at p (suc i) (x ∷ xs) d h = omega (arith, count-remove_at p i xs d)
