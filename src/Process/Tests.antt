-- ===== src/Process/Tests.antt =====
-- Comparisons and names of small processes, and the theorems at them.
use htop.Prelude.{
  ℕ, ◌≤◌, ◌≡◌, ◌≢◌, refl, true, some, List, [], ◌∷◌, arith, ltb, ◌==◌, if◌then◌else◌,
}
use htop.Prelude.Int.{ℤ, pos, negsuc, leb_ℤ}
use htop.Vector.Sort.Quick.{IsPreorder}
use htop.Process.{Process}
use htop.Process.Field.{ProcessField}
use htop.Process.Sample.{process, by_user}
use htop.Process.Compare.{spaceship, compare_by_key, compare, get_active_sort_key}
use htop.Process.Order.{
  IsComparison, compare_by_key-IsComparison, compare-IsPreorder, compare-tells_apart,
}
use htop.Process.Update.{skip_potential_path}
use htop.Process.Update.Basename.{IsBehindSlash, skip_potential_path-IsBehindSlash}

-- The order of strings by their characters.
abbrev pub strcmp : List ℕ → List ℕ → ℤ
strcmp [] [] = pos 0
strcmp [] (d ∷ ds) = negsuc 0
strcmp (c ∷ cs) [] = pos 1
strcmp (c ∷ cs) (d ∷ ds) = if c == d then strcmp cs ds else if ltb c d then negsuc 0 else pos 1

strcmp-flip : (s t : List ℕ) → leb_ℤ (strcmp s t) (pos 0) ≡ leb_ℤ (pos 0) (strcmp t s)
strcmp-flip [] [] = refl
strcmp-flip [] (d ∷ ds) = refl
strcmp-flip (c ∷ cs) [] = refl
strcmp-flip (c ∷ cs) (d ∷ ds) = let ih = strcmp-flip cs ds in ground arith

strcmp_trans :
    (s t u : List ℕ)
    → leb_ℤ (strcmp s t) (pos 0) ≡ true
    → leb_ℤ (strcmp t u) (pos 0) ≡ true
    → leb_ℤ (strcmp s u) (pos 0) ≡ true
strcmp_trans [] [] u h k = k
strcmp_trans [] (d ∷ ds) [] h k = refl
strcmp_trans [] (d ∷ ds) (e ∷ es) h k = refl
strcmp_trans (c ∷ cs) [] u h k = cc
strcmp_trans (c ∷ cs) (d ∷ ds) [] h k = cc
strcmp_trans (c ∷ cs) (d ∷ ds) (e ∷ es) h k = let ih = strcmp_trans cs ds es in ground (arith, ih)

pub strcmp-IsComparison : IsComparison strcmp
strcmp-IsComparison = record { flip = strcmp-flip; trans = strcmp_trans }

-- A platform with one key of its own, by the threads of a process; the other keys are Process.c's.
abbrev platform_key : ProcessField → Process → Process → ℤ
platform_key (ProcessField.other n) p q = spaceship p.nlwp q.nlwp
platform_key key p q = compare_by_key strcmp by_user key p q

platform_key-IsComparison : IsComparison (platform_key ProcessField.user)
platform_key-IsComparison =
    compare_by_key-IsComparison strcmp strcmp-IsComparison by_user ProcessField.user

compare-IsPreorder_example :
    IsPreorder (λ p q. leb_ℤ (compare strcmp (some platform_key) by_user p q) (pos 0))
unfolding get_active_sort_key compare_by_key
compare-IsPreorder_example =
    compare-IsPreorder strcmp strcmp-IsComparison (some platform_key) by_user
      platform_key-IsComparison

compare-tells_apart_example :
    compare strcmp (some platform_key) by_user (process 3 1) (process 4 1) ≢ pos 0
compare-tells_apart_example =
    compare-tells_apart strcmp strcmp-IsComparison (some platform_key) by_user (process 3 1)
      (process 4 1) (λ e. omega arith)

abbrev path : List ℕ
path = b'/' ∷ b'b' ∷ b'/' ∷ b's' ∷ b'h' ∷ []

skip_run : skip_potential_path path 5 ≡ 3
unfolding skip_potential_path
skip_run = refl

skip_potential_path-IsBehindSlash_example :
    IsBehindSlash path (skip_potential_path path 5) × (skip_potential_path path 5 ≤ 5)
skip_potential_path-IsBehindSlash_example = skip_potential_path-IsBehindSlash path 5 (omega arith)
