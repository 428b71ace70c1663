-- ===== src/Panel/Selection.antt =====
-- The selection of a panel when its items change.
use htop.Prelude.{
  ℕ, ◌+◌, ◌-◌, min, ◌<◌, ◌≡◌, refl, sym, ap, subst, ◌∙◌, true, false, none, some, List, [], ◌∷◌,
  arith, ◌==◌, if◌then◌else◌, ==_refl, length, get_elem?, get_elem?-lt, set, remove_at,
  length-remove_at, length-set,
}
use htop.Prelude.Int.{ℤ, pos, pos_part, ltb_ℤ}
use htop.Vector
use htop.Vector.{Vector}
use htop.Vector.Contents.{Holds}
use htop.Vector.Refine.{length-Holds, remove-Holds}
use htop.Vector.Access.{get-Holds, move_up-Holds, move_down-Holds}
use htop.Panel.{
  Panel, size, set_selected, remove, get_selected, move_selected_up, move_selected_down,
}
use htop.Panel.Keys.Bounds.{InBounds}

module _ {ℓ} {A : Type ℓ} where
  -- Where the class has no event handler, `Panel_setSelected` leaves the selection within bounds
  -- and the items untouched, whatever index it is given; an index that is not negative gives that
  -- line if there is one, else the last.
  pub set_selected-InBounds :
      (p : Panel A) (i : ℤ) (n : ℕ)
      → let q = set_selected none p i in
        InBounds q
        × (q.items ≡ p.items)
        × ((set_selected none p (pos n)).selected ≡ pos (min n (p.items.items - 1)))
  unfolding set_selected
  set_selected-InBounds p i n = (bounds, refl, exact)
    where
      bounds : InBounds (set_selected none p i)
      bounds = ground arith

      exact : (set_selected none p (pos n)).selected ≡ pos (min n (p.items.items - 1))
      exact = ground arith

  -- Removing a line of a panel that holds `xs` leaves the others in order and the selection within
  -- bounds.
  pub remove-InBounds :
      (p : Panel A) (xs : List A) (i : ℕ) (x : A)
      → Holds xs p.items
      → get_elem? xs i ≡ some x
      → InBounds p
      → Holds (remove_at i xs) (remove p i).1.items × InBounds (remove p i).1
  unfolding remove
  remove-InBounds p xs i x h e b =
      let (held, _, _) = remove-Holds i x h e in
      let fewer = length-remove_at i xs (get_elem?-lt xs i e) in
      let before = length-Holds h in
      let after = length-Holds held in (held, ground (arith, fewer, before, after))

  get_elem?-set :
      (xs : List A) (i j : ℕ) (v : A)
      → i < length xs
      → get_elem? (set xs i v) j ≡ (if i == j then some v else get_elem? xs j)
  get_elem?-set [] i j v h = absurd (omega arith)
  get_elem?-set (x ∷ xs) ℕ.zero ℕ.zero v h = refl
  get_elem?-set (x ∷ xs) ℕ.zero (ℕ.suc j) v h = ground arith
  get_elem?-set (x ∷ xs) (ℕ.suc i) ℕ.zero v h = ground arith
  get_elem?-set (x ∷ xs) (ℕ.suc i) (ℕ.suc j) v h = ground (arith, get_elem?-set xs i j v)

  -- What `Panel_getSelected` returns.
  selected-Holds :
      (q : Panel A) (zs : List A) (m : ℕ) (x : A)
      → Holds zs q.items
      → q.selected ≡ pos m
      → get_elem? zs m ≡ some x
      → get_selected q ≡ some x
  unfolding get_selected
  selected-Holds q zs m x h e ex =
      let some_lines : ltb_ℤ (pos 0) (size q) ≡ true =
        ground (arith, get_elem?-lt zs m ex, length-Holds h) in
      rw some_lines (ap (λ i. Vector.get q.items (pos_part i)) e ∙ get-Holds m h ∙ ex)

  -- Moving the selected line up, where there is one above, exchanges the two lines, and the
  -- selection follows the moved one.
  pub move_selected_up-follows :
      (p : Panel A) (xs : List A) (n : ℕ) (x y : A)
      → Holds xs p.items
      → p.selected ≡ pos (n + 1)
      → get_elem? xs (n + 1) ≡ some x
      → get_elem? xs n ≡ some y
      → let q = move_selected_up p in
        Holds (set (set xs (n + 1) y) n x) q.items
        × (q.selected ≡ pos n)
        × (get_selected q ≡ some x)
  unfolding move_selected_up
  move_selected_up-follows p xs n x y h e ex ey =
      let zs = set (set xs (n + 1) y) n x in
      let back : n + 1 - 1 ≡ n = omega arith in
      let not_top : n + 1 == 0 ≡ false = ground arith in
      let moved : Holds zs (Vector.move_up p.items (n + 1)) =
        rw (not_top, back) at (move_up-Holds (n + 1) x y h ex (ap (get_elem? xs) back ∙ ey)) in
      let held : Holds zs (move_selected_up p).items =
        subst (λ i. Holds zs (Vector.move_up p.items (pos_part i))) (sym e) moved in
      let sel : (move_selected_up p).selected ≡ pos n = ground arith in
      (
        held,
        sel,
        selected-Holds (move_selected_up p) zs n x held sel (
            get_elem?-set (set xs (n + 1) y) n n x
              (rw length-set (omega (arith, get_elem?-lt xs n ey)))
            ∙ rw (==_refl n)),
      )

  -- Moving it down does the same with the line below.
  pub move_selected_down-follows :
      (p : Panel A) (xs : List A) (n : ℕ) (x y : A)
      → Holds xs p.items
      → p.selected ≡ pos n
      → get_elem? xs n ≡ some x
      → get_elem? xs (n + 1) ≡ some y
      → let q = move_selected_down p in
        Holds (set (set xs n y) (n + 1) x) q.items
        × (q.selected ≡ pos (n + 1))
        × (get_selected q ≡ some x)
  unfolding move_selected_down
  move_selected_down-follows p xs n x y h e ex ey =
      let zs = set (set xs n y) (n + 1) x in
      let more : n + 1 < p.items.items =
        omega (arith, get_elem?-lt xs (n + 1) ey, length-Holds h) in
      let moved : Holds zs (Vector.move_down p.items n) = move_down-Holds n x y h ex ey in
      let held : Holds zs (move_selected_down p).items =
        subst (λ i. Holds zs (Vector.move_down p.items (pos_part i))) (sym e) moved in
      let sel : (move_selected_down p).selected ≡ pos (n + 1) = ground arith in
      (
        held,
        sel,
        selected-Holds (move_selected_down p) zs (n + 1) x held sel (
            get_elem?-set (set xs n y) (n + 1) (n + 1) x
              (rw length-set (omega (arith, get_elem?-lt xs (n + 1) ey)))
            ∙ rw (==_refl (n + 1))),
      )
