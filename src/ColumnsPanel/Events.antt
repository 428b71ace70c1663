-- ===== src/ColumnsPanel/Events.antt =====
-- Every key of the columns panel keeps its last line, and the settings follow the lines.
use htop.Prelude.{
  ℕ, ◌≡◌, ◌≢◌, refl, sym, ap, subst, ◌∙◌, Bool, true, false, not, List, map, if◌then◌else◌,
  Bool-cases, Option-cases, inl, inr,
}
use htop.Prelude.Int.{ℤ, pos, ltb_ℤ, ◌-ℤ◌}
use htop.Vector.Contents.{Holds}
use htop.Panel
use htop.Panel.{Panel}
use htop.Panel.Typing.{HandlerResult, handled, ignored}
use htop.ColumnsPanel.{
  ColumnsPanel, Key, update, raise, lower, take_out, switch, mark_selected, perform, finish,
  handle_event,
}
use htop.ColumnsPanel.Last.{
  update-fields, LastStays, raise-LastStays, lower-LastStays, take_out-LastStays,
}

raise-key : (t : ColumnsPanel) → (raise t).key ≡ t.key
unfolding raise
raise-key t = elim (Bool-cases (ltb_ℤ t.panel.selected (Panel.size t.panel -ℤ pos 1))) [
  | inl above ↦ rw (raise, above) refl
  | inr at_end ↦ rw (raise, at_end) refl
]

lower-key : (t : ColumnsPanel) → (lower t).key ≡ t.key
unfolding lower
lower-key t = elim (Bool-cases (ltb_ℤ t.panel.selected (Panel.size t.panel -ℤ pos 2))) [
  | inl above ↦ rw (lower, above) refl
  | inr at_end ↦ rw (lower, at_end) refl
]

take_out-key : (t : ColumnsPanel) → (take_out t).key ≡ t.key
unfolding take_out
take_out-key t = elim (Bool-cases (ltb_ℤ t.panel.selected (Panel.size t.panel -ℤ pos 1))) [
  | inl above ↦ rw (take_out, above) refl
  | inr at_end ↦ rw (take_out, at_end) refl
]

mark_selected-lines :
    (t : ColumnsPanel) (moving : Bool)
    → ((mark_selected t moving).panel ≡ t.panel) × ((mark_selected t moving).key ≡ t.key)
unfolding mark_selected
mark_selected-lines t moving = elim (Option-cases (Panel.get_selected t.panel)) [
  | inl nothing ↦ rw (mark_selected, nothing) (refl, refl)
  | inr (item, found) ↦ rw (mark_selected, found) (refl, refl)
]

-- What the handler of a key should leave: the lines `ys`, with the last one as it was, and where the
-- key was handled the settings follow.
abbrev pub Kept : List ℕ → ColumnsPanel → HandlerResult × ColumnsPanel → Type 0
Kept xs t r = (ys : List ℕ) × LastStays xs ys r.1 × (r.0 ≡ handled → r.1.fields ≡ map t.key ys)

module _ (is_graph : ℕ → Bool) (begins : List ℕ → List ℕ → Bool) (value : ℕ → List ℕ)
    (flags_of : ℕ → ℕ) (t : ColumnsPanel) (xs : List ℕ) (n : ℕ) (h : Holds xs t.panel.items)
    (e : t.panel.selected ≡ pos n) where
  updated :
      (u : ColumnsPanel) (ys : List ℕ)
      → LastStays xs ys u
      → u.key ≡ t.key
      → Kept xs t (handled, update flags_of u)
  unfolding update
  updated u ys (held, last) same =
      (ys, (held, last), λ _. update-fields flags_of u ys held ∙ ap (λ key. map key ys) same)

  untouched : Kept xs t (ignored, t)
  untouched = (xs, (h, refl), λ never. cc)

  only_if :
      (handles : Bool) (u : ColumnsPanel)
      → Kept xs t (finish flags_of (handled, u))
      → Kept xs t (finish flags_of (if handles then (handled, u) else (ignored, t)))
  unfolding finish
  only_if true u k = k
  only_if false u k = untouched

  raised-Kept : Kept xs t (finish flags_of (handled, raise t))
  unfolding finish
  raised-Kept = let (ys, k) = raise-LastStays t xs n h e in updated (raise t) ys k (raise-key t)

  lowered-Kept : Kept xs t (finish flags_of (handled, lower t))
  unfolding finish
  lowered-Kept = let (ys, k) = lower-LastStays t xs n h e in updated (lower t) ys k (lower-key t)

  taken-Kept : Kept xs t (finish flags_of (handled, take_out t))
  unfolding finish
  taken-Kept =
      let (ys, k) = take_out-LastStays t xs n h e in updated (take_out t) ys k (take_out-key t)

  switched-Kept :
      Kept xs t (
        finish flags_of
          (handled, mark_selected (record t { moving = not t.moving }) (not t.moving)))
  unfolding finish
  switched-Kept =
      let u : ColumnsPanel = record t { moving = not t.moving } in
      let (panel, key) = mark_selected-lines u (not t.moving) in
      updated (mark_selected u (not t.moving)) xs
        (subst (λ (p : Panel ℕ). Holds xs p.items) (sym panel) h, refl) key

  -- With a line selected, every key that the handler names, that is all but those of its default case,
  -- leaves the last column in its place; where it is handled, the settings have the fields of the
  -- lines.
  pub handle_event-Kept :
      (k : Key)
      → ((ch : ℤ) → k ≢ Key.other ch)
      → Kept xs t (handle_event is_graph begins value flags_of t k)
  unfolding handle_event perform switch
  handle_event-Kept Key.enter ne =
      only_if (ltb_ℤ t.panel.selected (Panel.size t.panel -ℤ pos 1)) _ switched-Kept
  handle_event-Kept Key.up ne = only_if t.moving (raise t) raised-Kept
  handle_event-Kept Key.down ne = only_if t.moving (lower t) lowered-Kept
  handle_event-Kept Key.move_up ne = raised-Kept
  handle_event-Kept Key.move_down ne = lowered-Kept
  handle_event-Kept Key.remove ne = taken-Kept
  handle_event-Kept (Key.other ch) ne = absurd (ne ch refl)
