-- ===== src/Panel/Keys/Bounds.antt =====
-- What `Panel_onKey` keeps.
use htop.Prelude.{
  ℕ, ◌+◌, ◌-◌, ◌<◌, ◌≡◌, refl, ◌∙◌, true, false, none, ◌⊎◌, inl, inr, arith, ltb, if◌then◌else◌,
  Option-cases,
}
use htop.Prelude.Int.{ℤ, pos, pos_part, neg_part, ◌+ℤ◌, ◌-ℤ◌, ◌≤ℤ◌, max_ℤ, max_nonneg, clamp_bounds}
use htop.Panel.{Panel, size, header_height}
use htop.Panel.Keys.{Key, Command, command, perform, settle, scroll, on_key}

module _ {ℓ} {A : Type ℓ} where
  -- The selected line exists, or the panel is empty and the selection is at its start.
  abbrev pub InBounds : Panel A → Type 0
  InBounds p =
      (neg_part p.selected ≡ 0)
      × ((pos_part p.selected < p.items.items) ⊎ ((p.items.items ≡ 0) × (pos_part p.selected ≡ 0)))

  settle-InBounds : (p : Panel A) → InBounds (settle p) × ((settle p).items ≡ p.items)
  unfolding settle
  settle-InBounds p = ground arith

  items-perform :
      (amount_h amount_v : ℤ) (p : Panel A) (c : Command)
      → (perform amount_h amount_v p c).items ≡ p.items
  unfolding perform
  items-perform amount_h amount_v p Command.next = refl
  items-perform amount_h amount_v p Command.scroll_left = ground arith
  items-perform amount_h amount_v p _ = refl

  -- After a key that `Panel_onKey` handles the selection lies within the panel, wherever it was
  -- before, and the items are untouched.
  pub on_key-InBounds :
      (amount_h amount_v : ℤ) (p : Panel A) (key : Key)
      → (on_key amount_h amount_v p key).0 ≡ true
      → InBounds (on_key amount_h amount_v p key).1
        × ((on_key amount_h amount_v p key).1.items ≡ p.items)
  unfolding on_key
  on_key-InBounds amount_h amount_v p key h = elim (Option-cases (command key)) [
    | inl none_of_them ↦ cc (rw (on_key, none_of_them) at h)
    | inr (c, e) ↦
        let q = perform amount_h amount_v p c in
        let (bounds, same) = settle-InBounds q in
        rw (on_key, e) (bounds, same ∙ items-perform amount_h amount_v p c)
  ]

  -- A key outside of the switch is reported as not handled and changes nothing.
  pub on_key-ignored :
      (amount_h amount_v : ℤ) (p : Panel A) (key : Key)
      → command key ≡ none
      → on_key amount_h amount_v p key ≡ (false, p)
  unfolding on_key
  on_key-ignored amount_h amount_v p key e = rw (on_key, e)

  -- Where the page and wheel keys leave the first visible line: not before the first line, and not
  -- past the last full page, if there is one.
  pub scroll_bounds :
      (p : Panel A) (amount : ℤ)
      → (pos 0 ≤ℤ (scroll p amount).scroll_v)
        × ((scroll p amount).scroll_v ≤ℤ max_ℤ (pos 0) (size p -ℤ p.h -ℤ header_height p))
  unfolding scroll
  scroll_bounds p amount =
      clamp_bounds (p.scroll_v +ℤ amount) (pos 0) (max_ℤ (pos 0) (size p -ℤ p.h -ℤ header_height p))
        (max_nonneg (size p -ℤ p.h -ℤ header_height p))

  -- In a panel whose selection is within bounds, the arrow keys move it by one line and stop at the
  -- two ends.
  pub on_key-arrows :
      (amount_h amount_v : ℤ) (p : Panel A) (n : ℕ)
      → p.selected ≡ pos n
      → n < p.items.items
      → ((on_key amount_h amount_v p Key.down).1.selected
          ≡ pos (if ltb (n + 1) p.items.items then n + 1 else n))
        × ((on_key amount_h amount_v p Key.up).1.selected ≡ pos (n - 1))
  unfolding on_key
  on_key-arrows amount_h amount_v p n e lt = ground arith
