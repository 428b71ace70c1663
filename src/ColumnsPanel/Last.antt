-- ===== src/ColumnsPanel/Last.antt =====
-- The moves keep the last column in its place, and the fields of the settings are those of the lines.
use htop.Prelude.{
  ℕ, zero, suc, ◌+◌, ◌-◌, ◌≤◌, ◌<◌, ◌≡◌, ◌≢◌, refl, sym, ap, subst, ◌∙◌, Option, none, some, List,
  [], ◌∷◌, map, arith, length, length-set, length-remove_at, get_elem?, get_elem?-some, set, drop,
  remove_at, Bool-cases, inl, inr,
}
use htop.Prelude.Int.{pos, ltb_ℤ, ◌-ℤ◌, pos_part}
use htop.Vector.Contents.{Holds}
use htop.Vector.Refine.{length-Holds}
use htop.Vector.Access.{get-Holds}
use htop.Panel
use htop.Panel.{Panel}
use htop.Panel.Keys.Bounds.{InBounds}
use htop.Panel.Selection.{move_selected_up-follows, move_selected_down-follows, remove-InBounds}
use htop.ColumnsPanel.{ColumnsPanel, keys_from, update, raise, lower, take_out}

drop-next : (xs : List ℕ) (i x : ℕ) → get_elem? xs i ≡ some x → drop i xs ≡ x ∷ drop (i + 1) xs
drop-next [] i x h = cc
drop-next (y ∷ xs) zero x h = ap (λ z. z ∷ xs) (ap or_zero h)
  where
    or_zero : Option ℕ → ℕ
    or_zero none = 0
    or_zero (some z) = z
drop-next (y ∷ xs) (suc i) x h =
    let e : suc (i + 1) ≡ suc i + 1 = omega arith in
    drop-next xs i x h ∙ ap (λ n. x ∷ drop n (y ∷ xs)) e

drop-end : (xs : List ℕ) (i : ℕ) → length xs ≤ i → drop i xs ≡ []
drop-end [] zero h = refl
drop-end [] (suc i) h = refl
drop-end (x ∷ xs) zero h = absurd (omega arith)
drop-end (x ∷ xs) (suc i) h = drop-end xs i (omega (arith, h))

keys_from-map :
    (key : ℕ → ℕ) (p : Panel ℕ) (xs : List ℕ) (n i : ℕ)
    → Holds xs p.items
    → i + n ≡ length xs
    → keys_from key p n i ≡ map key (drop i xs)
unfolding keys_from Panel.get
keys_from-map key p xs zero i h e = ap (map key) (sym (drop-end xs i (omega (arith, e))))
keys_from-map key p xs (suc n) i h e =
    let (x, at) = get_elem?-some xs i (omega (arith, e)) in
    rw (keys_from, get-Holds i h ∙ at)
      (ap (λ ks. key x ∷ ks) (keys_from-map key p xs n (i + 1) h (omega (arith, e)))
        ∙ ap (map key) (sym (drop-next xs i x at)))

-- The fields after an update are the keys of the lines, in order.
pub update-fields :
    (flags_of : ℕ → ℕ) (t : ColumnsPanel) (xs : List ℕ)
    → Holds xs t.panel.items
    → (update flags_of t).fields ≡ map t.key xs
unfolding update
update-fields flags_of t xs h =
    keys_from-map t.key t.panel xs t.panel.items.items 0 h (omega (arith, length-Holds h))

get_elem?-set_other : (xs : List ℕ) (i j v : ℕ) → i ≢ j → get_elem? (set xs i v) j ≡ get_elem? xs j
get_elem?-set_other [] i j v ne = refl
get_elem?-set_other (x ∷ xs) zero zero v ne = absurd (ne refl)
get_elem?-set_other (x ∷ xs) zero (suc j) v ne = refl
get_elem?-set_other (x ∷ xs) (suc i) zero v ne = refl
get_elem?-set_other (x ∷ xs) (suc i) (suc j) v ne =
    get_elem?-set_other xs i j v (λ e. ne (ap suc e))

remove_at-past :
    (xs : List ℕ) (i j : ℕ) → i ≤ j → get_elem? (remove_at i xs) j ≡ get_elem? xs (suc j)
remove_at-past [] i j h = refl
remove_at-past (x ∷ xs) zero j h = refl
remove_at-past (x ∷ xs) (suc i) zero h = absurd (omega (arith, h))
remove_at-past (x ∷ xs) (suc i) (suc j) h = remove_at-past xs i j (omega (arith, h))

-- The panel holds `ys` now, whose last line is that of `xs`.
abbrev pub LastStays : List ℕ → List ℕ → ColumnsPanel → Type 0
LastStays xs ys t =
    Holds ys t.panel.items × (get_elem? ys (length ys - 1) ≡ get_elem? xs (length xs - 1))

-- Two lines in front of the last one are exchanged.
exchanged-last :
    (xs : List ℕ) (i j x y : ℕ)
    → i + 1 < length xs
    → j + 1 < length xs
    → (let ys = set (set xs i y) j x in get_elem? ys (length ys - 1) ≡ get_elem? xs (length xs - 1))
exchanged-last xs i j x y h k =
    let sized : length (set (set xs i y) j x) ≡ length xs =
      length-set (set xs i y) j x ∙ length-set xs i y in
    ap (λ n. get_elem? (set (set xs i y) j x) (n - 1)) sized
    ∙ get_elem?-set_other (set xs i y) j (length xs - 1) x (λ e. omega (arith, e, k))
    ∙ get_elem?-set_other xs i (length xs - 1) y (λ e. omega (arith, e, h))

raised :
    (p : Panel ℕ) (xs : List ℕ) (n : ℕ)
    → Holds xs p.items
    → p.selected ≡ pos n
    → n + 1 < length xs
    → (ys : List ℕ) × Holds ys (Panel.move_selected_up p).items
      × (get_elem? ys (length ys - 1) ≡ get_elem? xs (length xs - 1))
unfolding Panel.move_selected_up htop.Vector.move_up
raised p xs zero h e low =
    (xs, subst (λ i. Holds xs (htop.Vector.move_up p.items (pos_part i))) (sym e) h, refl)
raised p xs (suc m) h e low =
    let (x, ex) = get_elem?-some xs (m + 1) (omega (arith, low)) in
    let (y, ey) = get_elem?-some xs m (omega (arith, low)) in
    let at : suc m ≡ m + 1 = omega arith in
    (
      set (set xs (m + 1) y) m x,
      (move_selected_up-follows p xs m x y h (e ∙ ap pos at) ex ey).0,
      exchanged-last xs (m + 1) m x y (omega (arith, low)) (omega (arith, low)),
    )

module _ (t : ColumnsPanel) (xs : List ℕ) (n : ℕ) (h : Holds xs t.panel.items)
    (e : t.panel.selected ≡ pos n) where
  pub raise-LastStays : (ys : List ℕ) × LastStays xs ys (raise t)
  unfolding raise
  raise-LastStays = elim (Bool-cases (ltb_ℤ t.panel.selected (Panel.size t.panel -ℤ pos 1))) [
    | inr at_end ↦ (xs, rw (raise, at_end) (h, refl))
    | inl above ↦
        let (ys, held, last) = raised t.panel xs n h e (ground (arith, above, e, length-Holds h)) in
        (ys, rw (raise, above) (held, last))
  ]

  pub lower-LastStays : (ys : List ℕ) × LastStays xs ys (lower t)
  unfolding lower
  lower-LastStays = elim (Bool-cases (ltb_ℤ t.panel.selected (Panel.size t.panel -ℤ pos 2))) [
    | inr at_end ↦ (xs, rw (lower, at_end) (h, refl))
    | inl above ↦
        let low : n + 2 < length xs = ground (arith, above, e, length-Holds h) in
        let (x, ex) = get_elem?-some xs n (omega (arith, low)) in
        let (y, ey) = get_elem?-some xs (n + 1) (omega (arith, low)) in
        (
          set (set xs n y) (n + 1) x,
          rw (lower, above)
              (
                (move_selected_down-follows t.panel xs n x y h e ex ey).0,
                exchanged-last xs n (n + 1) x y (omega (arith, low)) (omega (arith, low)),
              ),
        )
  ]

  pub take_out-LastStays : (ys : List ℕ) × LastStays xs ys (take_out t)
  unfolding take_out
  take_out-LastStays = elim (Bool-cases (ltb_ℤ t.panel.selected (Panel.size t.panel -ℤ pos 1))) [
    | inr at_end ↦ (xs, rw (take_out, at_end) (h, refl))
    | inl above ↦
        let low : n + 1 < length xs = ground (arith, above, e, length-Holds h) in
        let (x, ex) = get_elem?-some xs n (omega (arith, low)) in
        let at : pos_part t.panel.selected ≡ n = ap pos_part e in
        let bounds : InBounds t.panel = ground (arith, e, low, length-Holds h) in
        let fewer = length-remove_at n xs (omega (arith, low)) in
        let two : length (remove_at n xs) - 1 ≡ length xs - 2 = omega (arith, fewer) in
        let one : suc (length xs - 2) ≡ length xs - 1 = omega (arith, low) in
        (
          remove_at n xs,
          rw (take_out, above)
              (
                subst (λ i. Holds (remove_at n xs) (Panel.remove t.panel i).1.items) (sym at)
                    (remove-InBounds t.panel xs n x h ex bounds).0,
                ap (get_elem? (remove_at n xs)) two
                    ∙ remove_at-past xs n (length xs - 2) (omega (arith, low))
                    ∙ ap (get_elem? xs) one,
              ),
        )
  ]
