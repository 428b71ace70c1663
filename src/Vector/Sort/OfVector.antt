-- ===== src/Vector/Sort/OfVector.antt =====
-- The two sorts as a vector offers them.
use htop.Prelude.{
  ℕ, zero, suc, ◌+◌, ◌≤◌, ◌<◌, ◌≡◌, refl, sym, ap, ◌∙◌, inr, Bool, true, false, Option, none, some,
  List, [], ◌∷◌, map, arith, length, get_elem?, get_elem?-lt, get_elem?-some, get_or, take, drop,
  take-append-drop,
}
use htop.Prelude.Count.{SameItems, count, count-append}
use htop.Vector.{Vector, non_null, all_set}
use htop.Vector.Contents.{slots, Holds, all_set-map}
use htop.Vector.Refine.{length-Holds, slot-Holds}
use htop.Vector.Sort.{slot_le, quick_sort_custom_compare, insertion_sort_vector}
use htop.Vector.Sort.Quick.{IsPreorder, Sorts, quick_sort-Sorts}
use htop.Vector.Sort.Insertion.{insertion_sort-Sorts}

module _ {ℓ} {A : Type ℓ} {le : A → A → Bool} (order : IsPreorder le) where
  pub slot_le-IsPreorder : IsPreorder (slot_le le)
  unfolding slot_le
  slot_le-IsPreorder = record { total = total; trans = trans }
    where
      total : (a b : Option A) → slot_le le a b ≡ false → slot_le le b a ≡ true
      total a none h = cc
      total none (some b) h = refl
      total (some a) (some b) h = order.total a b h

      trans :
          (a b c : Option A) → slot_le le a b ≡ true → slot_le le b c ≡ true → slot_le le a c ≡ true
      trans a b none h k = refl
      trans a none (some c) h k = cc
      trans none (some b) (some c) h k = cc
      trans (some a) (some b) (some c) h k = order.trans a b c h k

  -- The vector `w` is `v` with its objects `xs` in the order `ys`: sorted, and the same ones.
  pub record SortsTo (xs : List A) (v w : Vector A) (ys : List A) : Type ℓ where
    pub held : Holds ys w
    pub same : SameItems ys xs
    pub sorted :
        (i j : ℕ) (x y : A)
        → i < j
        → get_elem? ys i ≡ some x
        → get_elem? ys j ≡ some y
        → le x y ≡ true

  all_set_of_slots :
      (n : ℕ) (ws : List (Option A))
      → n ≤ length ws
      → ((k : ℕ) → k < n → (x : A) × (get_or ws k none ≡ some x))
      → all_set (take n ws) ≡ true
  unfolding all_set
  all_set_of_slots zero ws h f = refl
  all_set_of_slots (suc n) [] h f = absurd (omega arith)
  all_set_of_slots (suc n) (none ∷ ws) h f = cc ((f 0 (omega arith)).1)
  all_set_of_slots (suc n) (some w ∷ ws) h f =
      all_set_of_slots n ws (omega arith) (λ k lt. f (suc k) (omega arith))

  drop-eq :
      (n : ℕ) (ws vs : List (Option A))
      → length ws ≡ length vs
      → ((k : ℕ) → n ≤ k → get_or ws k none ≡ get_or vs k none)
      → drop n ws ≡ drop n vs
  drop-eq zero [] [] e f = refl
  drop-eq zero [] (v ∷ vs) e f = absurd (omega arith)
  drop-eq zero (w ∷ ws) [] e f = absurd (omega arith)
  drop-eq zero (w ∷ ws) (v ∷ vs) e f =
      cc (f 0 (omega arith), drop-eq zero ws vs (omega arith) (λ k _. f (suc k) (omega arith)))
  drop-eq (suc n) [] [] e f = refl
  drop-eq (suc n) [] (v ∷ vs) e f = absurd (omega arith)
  drop-eq (suc n) (w ∷ ws) [] e f = absurd (omega arith)
  drop-eq (suc n) (w ∷ ws) (v ∷ vs) e f =
      drop-eq n ws vs (omega arith) (λ k h. f (suc k) (omega arith))

  count-take-drop :
      (q : Option A → Bool) (n : ℕ) (ws : List (Option A))
      → count q (take n ws) + count q (drop n ws) ≡ count q ws
  count-take-drop q n ws =
      sym (count-append q (take n ws) (drop n ws)) ∙ ap (count q) (take-append-drop n ws)

  of_object : (A → Bool) → Option A → Bool
  of_object p none = false
  of_object p (some x) = p x

  count-map-some : (p : A → Bool) (xs : List A) → count (of_object p) (map some xs) ≡ count p xs
  unfolding of_object
  count-map-some p [] = refl
  count-map-some p (x ∷ xs) = omega (arith, count-map-some p xs)

  -- Sorting the slots in use sorts the objects.
  sorted_vector :
      {xs : List A} {v : Vector A} (ws : List (Option A))
      → Holds xs v
      → Sorts slot_le-IsPreorder none 0 v.items v.array ws
      → SortsTo xs v (record v { array = ws }) (non_null (take v.items ws))
  unfolding slot_le
  sorted_vector {xs} {v} ws h s =
      let n = v.items in
      let ys = non_null (take n ws) in
      let full : all_set (take n ws) ≡ true =
        all_set_of_slots n ws (omega (arith, s.moved.size, h.sized, h.fits)) (λ k lt.
          let (j, _, j2, e) = s.moved.inside k (omega arith) lt in
          let (x, ex) = get_elem?-some xs j (omega (arith, length-Holds h)) in
          (x, e ∙ slot-Holds j h j2 ∙ ex)) in
      let held : Holds ys (record v { array = ws }) = record {
        sized = s.moved.size ∙ h.sized;
        fits = h.fits;
        grows = h.grows;
        held = sym (all_set-map (take n ws) full);
      } in
      let rest : drop n ws ≡ drop n v.array =
        drop-eq n ws v.array s.moved.size (λ k le. s.moved.outside k (inr le)) in
      record {
        held = held;
        same = λ p.
            let q = of_object p in
            omega (
              arith,
              s.moved.same q,
              count-take-drop q n ws,
              count-take-drop q n v.array,
              ap (count q) rest,
              ap (count q) (held.held),
              ap (count q) (h.held),
              count-map-some p ys,
              count-map-some p xs,
            );
        sorted = λ i j x y lt ex ey.
            let long = length-Holds held in
            let jn : j < n = omega (arith, get_elem?-lt ys j ey) in
            rw (slot-Holds i held (omega arith) ∙ ex, slot-Holds j held jn ∙ ey) at
              (s.sorted i j (omega arith) lt jn);
      }

  -- For a total and transitive comparison `Vector_quickSortCustomCompare` leaves a well-formed
  -- vector with the same objects in order.
  pub quick_sort_custom_compare-SortsTo :
      {xs : List A} {v : Vector A}
      → Holds xs v
      → let w = quick_sort_custom_compare le v in SortsTo xs v w (non_null (slots w))
  unfolding quick_sort_custom_compare
  quick_sort_custom_compare-SortsTo {xs} {v} h = sorted_vector _ h (
      quick_sort-Sorts slot_le-IsPreorder none (v.items + 1) v.array 0 v.items (omega arith)
        (omega (arith, h.sized, h.fits)))

  -- For a total and transitive comparison `Vector_insertionSort` leaves a well-formed vector with
  -- the same objects in order.
  pub insertion_sort_vector-SortsTo :
      {xs : List A} {v : Vector A}
      → Holds xs v
      → let w = insertion_sort_vector le v in SortsTo xs v w (non_null (slots w))
  unfolding insertion_sort_vector
  insertion_sort_vector-SortsTo {xs} {v} h = sorted_vector _ h (
      insertion_sort-Sorts slot_le-IsPreorder none v.array 0 v.items
        (omega (arith, h.sized, h.fits)))
