-- ===== src/Vector/Splice.antt =====
-- `Vector_splice` appends the objects of another vector.
use htop.Prelude.{
  ℕ, ◌+◌, ◌-◌, ◌≤◌, ◌<◌, ◌≡◌, refl, sym, ap, ◌∙◌, true, false, leb, Option, none, some, Bool-cases,
  inl, inr, ◌&&◌, List, [], ◌∷◌, ◌++◌, arith, length, set, take, replicate, length-set,
  length-replicate, length-append, length-take, take-append,
}
use mathlib.Core.List.{append-nil, append_assoc}
use native.Mathlib.Numerals.{add-one}
use htop.Vector.{Vector, all_set, is_consistent, check_array_size, copy_into, splice}
use htop.Vector.Contents.{slots, Holds, append-map, set-end}
use htop.Vector.Refine.{length-Holds}
use htop.Vector.Access.{is_consistent-Holds}

module _ {ℓ} {A : Type ℓ} where
  length-copy_into :
      (xs : List (Option A)) (at : ℕ) (ys : List (Option A))
      → length (copy_into xs at ys) ≡ length xs
  unfolding copy_into
  length-copy_into xs at [] = refl
  length-copy_into xs at (y ∷ ys) = length-copy_into (set xs at y) (at + 1) ys ∙ length-set xs at y

  take-copy_into :
      (xs : List (Option A)) (at n : ℕ) (ys : List (Option A))
      → n ≡ at + length ys
      → n ≤ length xs
      → take n (copy_into xs at ys) ≡ take at xs ++ ys
  unfolding copy_into
  take-copy_into xs at n [] e h =
      let e' : n ≡ at = omega arith in rw e' (sym (append-nil (take at xs)))
  take-copy_into xs at n (y ∷ ys) e h =
      take-copy_into (set xs at y) (at + 1) n ys (omega arith) (rw length-set h)
      ∙ rw (add-one, set-end at y xs (omega arith)) (append_assoc (take at xs) (y ∷ []) ys)

  -- What growing the array does when `items` may already be past its end.
  grown :
      (u : Vector A) (n : ℕ)
      → length u.array ≡ u.array_size
      → n ≤ u.array_size
      → 0 < u.growth_rate
      → let w = check_array_size u in
        (length w.array ≡ w.array_size)
        × (u.items ≤ w.array_size)
        × (0 < w.growth_rate)
        × (w.items ≡ u.items)
        × (take n w.array ≡ take n u.array)
        × (w.owner ≡ u.owner)
  unfolding check_array_size
  grown u n sized le grows =
      let more : List (Option A) = replicate (u.items + u.growth_rate - u.array_size) none in
      ground (
        arith,
        length-append u.array more,
        length-replicate {A = Option A} (u.items + u.growth_rate - u.array_size) none,
        take-append n u.array more,
      )

  consistent_from :
      (v : Vector A)
      → v.items ≤ v.array_size
      → (v.owner ≡ true → all_set (take v.items v.array) ≡ true)
      → is_consistent v ≡ true
  unfolding is_consistent
  consistent_from v fits full = elim (Bool-cases v.owner) [
    | inl owner ↦ rw (owner, full owner) (ground (arith, fits))
    | inr shared ↦ rw shared (ground (arith, fits))
  ]

  -- Where the objects of two vectors fit the first one's array, at most one of the two is an owner,
  -- and an owner has objects in the slots that it gets as well, `Vector_splice` passes its
  -- assertions, and leaves a well-formed vector of its own objects followed by those of the other.
  pub splice-Holds :
      {xs ys : List A} {v from : Vector A}
      → Holds xs v
      → Holds ys from
      → length xs + length ys ≤ v.array_size
      → (v.owner && from.owner) ≡ false
      → (v.owner ≡ true → all_set (take (length xs + length ys) v.array) ≡ true)
      → (w : Vector A) × (splice v from ≡ some w) × Holds (xs ++ ys) w
  unfolding splice
  splice-Holds {xs} {ys} {v} {from} h k fit owners full =
      let n : length xs + length ys ≡ v.items + from.items =
        omega (arith, length-Holds h, length-Holds k) in
      let u : Vector A = record v { items = v.items + from.items } in
      let (sized, room, grows, same, all_kept, owner) =
        grown u (v.items + from.items) h.sized (omega (arith, fit, n)) h.grows in
      let own_kept = (grown u v.items h.sized h.fits h.grows).4 in
      let w = check_array_size u in
      let few : length (slots from) ≡ from.items =
        omega (arith, length-take from.items from.array, k.sized, k.fits) in
      let full' : (v.owner ≡ true → all_set (take (v.items + from.items) v.array) ≡ true) =
        λ o. ap (λ m. all_set (take m v.array)) (sym n) ∙ full o in
      let u_holds : is_consistent u ≡ true = consistent_from u (omega (arith, fit, n)) full' in
      let w_holds : is_consistent w ≡ true = consistent_from w (omega (arith, room, same)) (λ o.
        ap (λ m. all_set (take m w.array)) same ∙ ap all_set all_kept ∙ full' (sym owner ∙ o)) in
      (
        record w { array = copy_into w.array v.items (slots from) },
        rw (splice, (is_consistent-Holds h).0, (is_consistent-Holds k).0, owners, u_holds, w_holds)
            refl,
        record {
          sized = length-copy_into w.array v.items (slots from) ∙ sized;
          fits = omega (arith, room, same);
          grows = grows;
          held =
              ap (λ n. take n (copy_into w.array v.items (slots from))) same
              ∙ take-copy_into w.array v.items (v.items + from.items) (slots from) (omega arith)
                  (omega arith)
              ∙ rw (own_kept, h.held, k.held) (append-map xs ys);
        },
      )

  -- Where the objects of both do not fit the array of the first one, `Vector_splice` fails an
  -- assertion: `items` is raised before the array grows.
  pub splice_breaks_assertion :
      {xs ys : List A} {v from : Vector A}
      → Holds xs v
      → Holds ys from
      → v.array_size < length xs + length ys
      → splice v from ≡ none
  unfolding splice is_consistent
  splice_breaks_assertion {v} {from} h k more =
      let low : leb (v.items + from.items) v.array_size ≡ false =
        ground (arith, more, length-Holds h, length-Holds k) in
      rw (low, (is_consistent-Holds h).0, (is_consistent-Holds k).0)
        (elim (Bool-cases (v.owner && from.owner)) [
          | inl both ↦ rw both refl
          | inr one ↦ rw one refl
        ])
