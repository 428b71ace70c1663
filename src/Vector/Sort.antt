-- ===== src/Vector/Sort.antt =====
-- The sorting routines of Vector.c, on a plain array. `compare_le a b` is `compare(a, b) <= 0`,
-- and `null` is what a read past the end would give.
pub mod Swap
pub mod Partition
pub mod Quick
pub mod Insertion
pub mod OfVector
use htop.Prelude.{
  ℕ, zero, suc, ◌+◌, ◌-◌, ◌/◌, Bool, true, false, Option, none, some, List, ltb, leb, get_or, set,
}
use htop.Vector.{Vector}

module _ {ℓ} {A : Type ℓ} (compare_le : A → A → Bool) (null : A) where
  unfoldable pub swap : List A → ℕ → ℕ → List A
  swap xs i j = set (set xs i (get_or xs j null)) j (get_or xs i null)

  -- The loop of `partition`: `n` rounds are left, the next one at index `i`.
  unfoldable pub partition_loop : ℕ → A → ℕ → ℕ → List A → ℕ × List A
  unfolding swap
  partition_loop zero pivot i store xs = (store, xs)
  partition_loop (suc n) pivot i store xs = elim (compare_le (get_or xs i null) pivot) [
    | true ↦ partition_loop n pivot (i + 1) (store + 1) (swap xs i store)
    | false ↦ partition_loop n pivot (i + 1) store xs
  ]

  -- `right` is inclusive, as in the source.
  unfoldable pub partition : List A → ℕ → ℕ → ℕ → ℕ × List A
  unfolding partition_loop
  partition xs left right pivot_index =
      let pivot = get_or xs pivot_index null in
      let (store, ys) = partition_loop (right - left) pivot left left (swap xs pivot_index right) in
      (store, swap ys store right)

  -- `stop` is the source's `right + 1`, so that `right` may be -1. Each call uses one unit of fuel.
  unfoldable pub quick_sort : ℕ → List A → ℕ → ℕ → List A
  quick_sort zero xs left stop = xs
  quick_sort (suc fuel) xs left stop = elim (leb stop (left + 1)) [
    | true ↦ xs
    | false ↦
        let (p, ys) = partition xs left (stop - 1) ((left + (stop - 1)) / 2) in
        quick_sort fuel (quick_sort fuel ys left p) (p + 1) stop
  ]

  -- The inner loop of `insertionSort`: `j` is the source's `j + 1`, so that it may end at `left`.
  unfoldable pub shift_loop : ℕ → A → ℕ → List A → ℕ × List A
  shift_loop left t zero xs = (0, xs)
  shift_loop left t (suc j) xs = elim (ltb j left) [
    | true ↦ (suc j, xs)
    | false ↦ elim (compare_le (get_or xs j null) t) [
      | true ↦ (suc j, xs)
      | false ↦ shift_loop left t j (set xs (suc j) (get_or xs j null))
    ]
  ]

  unfoldable pub insert_step : ℕ → ℕ → List A → List A
  unfolding shift_loop
  insert_step left i xs =
      let t = get_or xs i null in let (at, ys) = shift_loop left t i xs in set ys at t

  -- `n` rounds are left, the next one at index `i`.
  unfoldable pub insertion_loop : ℕ → ℕ → ℕ → List A → List A
  unfolding insert_step
  insertion_loop left zero i xs = xs
  insertion_loop left (suc n) i xs = insertion_loop left n (i + 1) (insert_step left i xs)

  unfoldable pub insertion_sort : List A → ℕ → ℕ → List A
  unfolding insertion_loop
  insertion_sort xs left stop = insertion_loop left (stop - (left + 1)) (left + 1) xs

-- A comparison of the slots of a vector. NULL pointers, which the consistency of a vector rules
-- out, are put last.
module _ {ℓ} {A : Type ℓ} (compare_le : A → A → Bool) where
  unfoldable pub slot_le : Option A → Option A → Bool
  slot_le a none = true
  slot_le none (some b) = false
  slot_le (some a) (some b) = compare_le a b

  -- `Vector_quickSortCustomCompare`, with as much fuel as the range needs.
  unfoldable pub quick_sort_custom_compare : Vector A → Vector A
  quick_sort_custom_compare v = record v {
    array = quick_sort slot_le none (v.items + 1) v.array 0 v.items;
  }

  -- `Vector_insertionSort`
  unfoldable pub insertion_sort_vector : Vector A → Vector A
  insertion_sort_vector v = record v { array = insertion_sort slot_le none v.array 0 v.items }
