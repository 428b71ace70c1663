-- ===== src/IncSet/Find.antt =====
-- `IncMode_find` ends, and finds a line if there is one.
use htop.Prelude.{
  ℕ, zero, suc, ◌+◌, ◌-◌, ◌≤◌, ◌<◌, ◌≡◌, ◌≢◌, refl, ap, ◌∙◌, ◌⊎◌, inl, inr, Bool, true, false,
  Option, some, List, arith, leb, ◌==◌, if◌then◌else◌, Bool-cases,
}
use htop.Prelude.Int.{pos, pos_part}
use htop.Panel.{Panel, set_selected}
use htop.IncSet.{IncMode, step_index, find_loop, find}

-- The lines that have been looked at on the way from `here` to `i`.
abbrev Seen : Bool → ℕ → ℕ → ℕ → Type 0
Seen true here i j = ((here < j) × (j ≤ i)) ⊎ ((i < here) × ((here < j) ⊎ (j ≤ i)))
Seen false here i j = ((j < here) × (i ≤ j)) ⊎ ((here < i) × ((j < here) ⊎ (i ≤ j)))

-- How many rounds are left until the loop is back at `here`.
abbrev rounds_left : Bool → ℕ → ℕ → ℕ → ℕ
rounds_left true size here i = if leb here i then size - i + here else here - i
rounds_left false size here i = if leb i here then i + (size - here) else i - here

step_inside : (ahead : Bool) (size i : ℕ) → i < size → step_index ahead size i < size
unfolding step_index
step_inside true size i h = ground arith
step_inside false size i h = ground arith

rounds_left-step :
    (ahead : Bool) (size here i : ℕ)
    → i < size
    → here < size
    → step_index ahead size i ≢ here
    → rounds_left ahead size here (step_index ahead size i) < rounds_left ahead size here i
unfolding step_index
rounds_left-step true size here i h h' ne = ground arith
rounds_left-step false size here i h h' ne = ground arith

-- One more line has been looked at after a step …
Seen-step :
    (ahead : Bool) (size here i j : ℕ)
    → i < size
    → here < size
    → j < size
    → step_index ahead size i ≢ here
    → Seen ahead here (step_index ahead size i) j
    → Seen ahead here i j ⊎ (j ≡ step_index ahead size i)
unfolding step_index
Seen-step true size here i j hi hh hj ne s = ground arith
Seen-step false size here i j hi hh hj ne s = ground arith

-- … and all of them when the step leads back.
Seen-all :
    (ahead : Bool) (size here i j : ℕ)
    → i < size
    → here < size
    → j < size
    → j ≢ here
    → step_index ahead size i ≡ here
    → Seen ahead here i j
unfolding step_index
Seen-all true size here i j hi hh hj ne s = ground arith
Seen-all false size here i j hi hh hj ne s = ground arith

some_round :
    (ahead : Bool) (size here i : ℕ) → i < size → here < size → 0 < rounds_left ahead size here i
some_round true size here i hi hh = ground arith
some_round false size here i hi hh = ground arith

-- At the start nothing has been looked at, and every line is still to come.
Seen-start : (ahead : Bool) (here j : ℕ) → Seen ahead here here j → here < here
Seen-start true here j s = ground arith
Seen-start false here j s = ground arith

rounds_left-start :
    (ahead : Bool) (size here : ℕ) → here < size → rounds_left ahead size here here ≡ size
rounds_left-start true size here h = ground arith
rounds_left-start false size here h = ground arith

module _ {ℓ} {A : Type ℓ} (contains : List ℕ → List ℕ → Bool) (value : Panel A → ℕ → List ℕ)
    (on_select : Option (Panel A → Panel A)) where
  -- What the search for the next line ends with: a line that contains the text and is selected, or
  -- the panel as it was, of which no other line contains the text.
  abbrev pub Found : List ℕ → Panel A → ℕ → Option (Bool × Panel A) → Type ℓ
  Found text p here o =
      ((j : ℕ) × (j < p.items.items)
        × (j ≢ here)
        × (contains (value p j) text ≡ true)
        × (o ≡ some (true, set_selected on_select p (pos j))))
      ⊎ ((o ≡ some (false, p))
          × ((j : ℕ) → j < p.items.items → j ≢ here → contains (value p j) text ≡ false))

  find_loop-Found :
      (fuel : ℕ) (ahead : Bool) (text : List ℕ) (p : Panel A) (here i : ℕ)
      → here < p.items.items
      → i < p.items.items
      → rounds_left ahead p.items.items here i ≤ fuel
      → ((j : ℕ) → j < p.items.items → Seen ahead here i j → contains (value p j) text ≡ false)
      → Found text p here (find_loop contains value on_select fuel ahead text p here i)
  unfolding find_loop
  find_loop-Found zero ahead text p here i hh hi le seen =
      absurd (omega (arith, some_round ahead p.items.items here i hi hh, le))
  find_loop-Found (suc fuel) ahead text p here i hh hi le seen =
      let n = p.items.items in
      let k = step_index ahead n i in
      elim (Bool-cases (k == here)) [
        | inl back ↦
            let e : k ≡ here = ground arith in
            inr (
              rw (find_loop, back) refl,
              λ j hj ne. seen j hj (Seen-all ahead n here i j hi hh hj ne e),
            )
        | inr on ↦
            let ne : k ≢ here = ground arith in
            elim (Bool-cases (contains (value p k) text)) [
              | inl hit ↦ inl (k, step_inside ahead n i hi, ne, hit, rw (find_loop, on, hit) refl)
              | inr miss ↦
                  rw (find_loop, on, miss)
                    (find_loop-Found fuel ahead text p here k hh (step_inside ahead n i hi)
                      (omega (arith, rounds_left-step ahead n here i hi hh ne, le))
                      (λ j hj s. elim (Seen-step ahead n here i j hi hh hj ne s) [
                        | inl before ↦ seen j hj before
                        | inr now ↦ ap (λ l. contains (value p l) text) now ∙ miss
                      ]))
            ]
      ]

  -- From a selected line of the panel `IncMode_find` ends, in either direction: another line that
  -- contains the text is selected, or no other line contains it and the panel is as it was.
  pub find-Found :
      (m : IncMode) (p : Panel A) (ahead : Bool) (here : ℕ)
      → p.selected ≡ pos here
      → here < p.items.items
      → Found m.buffer p here (find contains value on_select m p ahead)
  unfolding find
  find-Found m p ahead here e h =
      let from = ap pos_part e in
      rw from (
        find_loop-Found p.items.items ahead m.buffer p here here h h
          (omega (arith, rounds_left-start ahead p.items.items here h))
          (λ j hj s. absurd (omega (arith, Seen-start ahead here j s))))
