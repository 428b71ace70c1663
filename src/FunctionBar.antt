-- ===== src/FunctionBar.antt =====
-- FunctionBar.c: the row of keys and labels at the bottom of a screen. Of the drawing only the
-- columns are modelled. `key_f` is KEY_F of curses. Each entry below `size` has a key, a label and
-- an event: the callers give as many keys and events as labels, and ten labels with the default keys.
pub mod Events
mod Tests
use htop.Prelude.{
  ℕ, zero, suc, ◌+◌, ◌-◌, Bool, true, false, Option, none, some, List, [], ◌∷◌, map, ltb, ◌==◌,
  if◌then◌else◌, length, take, get_or, set, replicate,
}
use htop.Prelude.Int.{ℤ, pos, negsuc, eqb_ℤ}

pub record FunctionBar : Type 0 where
  pub functions : List (List ℕ)
  pub keys : List (List ℕ)
  pub events : List ℤ
  pub size : ℕ

-- ERR of curses.
abbrev pub err : ℤ
err = negsuc 0

abbrev pub f_keys : List (List ℕ)
f_keys =
    (b'F' ∷ b'1' ∷ [])
    ∷ (b'F' ∷ b'2' ∷ [])
    ∷ (b'F' ∷ b'3' ∷ [])
    ∷ (b'F' ∷ b'4' ∷ [])
    ∷ (b'F' ∷ b'5' ∷ [])
    ∷ (b'F' ∷ b'6' ∷ [])
    ∷ (b'F' ∷ b'7' ∷ [])
    ∷ (b'F' ∷ b'8' ∷ [])
    ∷ (b'F' ∷ b'9' ∷ [])
    ∷ (b'F' ∷ b'1' ∷ b'0' ∷ [])
    ∷ []

abbrev pub f_labels : List (List ℕ)
f_labels = replicate 10 (replicate 6 b' ')

abbrev pub f_events : (ℕ → ℤ) → List ℤ
f_events key_f = map key_f (1 ∷ 2 ∷ 3 ∷ 4 ∷ 5 ∷ 6 ∷ 7 ∷ 8 ∷ 9 ∷ 10 ∷ [])

-- `functions` is `none` for NULL, as is the pair of keys and events.
unfoldable pub new :
    (ℕ → ℤ) → Option (List (List ℕ)) → Option (List (List ℕ) × List ℤ) → FunctionBar
new key_f functions given =
    let labels : List (List ℕ) = elim functions [ none ↦ f_labels | some fs ↦ fs ] in
    let kept = take 15 labels in
    elim given [
      | none ↦ record { functions = kept; keys = f_keys; events = f_events key_f; size = 10 }
      | some ks_es ↦ record {
        functions = kept;
        keys = take (length kept) ks_es.0;
        events = take (length kept) ks_es.1;
        size = length kept;
      }
    ]

unfoldable pub new_enter_esc : (ℕ → ℤ) → List ℕ → List ℕ → FunctionBar
unfolding new
new_enter_esc key_f enter esc = new key_f (some (enter ∷ esc ∷ [])) (
    some (
      (b'E' ∷ b'n' ∷ b't' ∷ b'e' ∷ b'r' ∷ []) ∷ (b'E' ∷ b's' ∷ b'c' ∷ []) ∷ [],
      pos 13 ∷ pos 27 ∷ [],
    ))

-- The loop: `n` entries are left, the next one at index `i`.
unfoldable pub set_label_loop : ℕ → ℕ → List ℤ → ℤ → List ℕ → List (List ℕ) → List (List ℕ)
set_label_loop zero i events event text functions = functions
set_label_loop (suc n) i events event text functions =
    if eqb_ℤ (get_or events i err) event
    then set functions i text
    else set_label_loop n (i + 1) events event text functions

unfoldable pub set_label : FunctionBar → ℤ → List ℕ → FunctionBar
unfolding set_label_loop
set_label b event text = record b {
  functions = set_label_loop b.size 0 b.events event text b.functions;
}

-- The columns of an entry.
abbrev pub width : FunctionBar → ℕ → ℕ
width b i = length (get_or b.keys i []) + length (get_or b.functions i [])

-- The column behind the entries, from the one at index `i` on.
unfoldable pub draw_loop : FunctionBar → ℕ → ℕ → ℕ → ℕ
draw_loop b zero i x = x
draw_loop b (suc n) i x = draw_loop b n (i + 1) (x + width b i)

-- The column in which the drawing ends, with the text behind the entries.
unfoldable pub draw_extra : FunctionBar → Option (List ℕ) → ℕ
unfolding draw_loop
draw_extra b buffer =
    let x = draw_loop b b.size 0 0 in elim buffer [ none ↦ x | some text ↦ x + length text ]

unfoldable pub synthesize_loop : FunctionBar → ℕ → ℕ → ℕ → ℕ → ℤ
synthesize_loop b zero i x column = err
synthesize_loop b (suc n) i x column =
    let x' = x + width b i in
    if ltb column x' then get_or b.events i err else synthesize_loop b n (i + 1) x' column

unfoldable pub synthesize_event : FunctionBar → ℕ → ℤ
unfolding synthesize_loop
synthesize_event b column = synthesize_loop b b.size 0 0 column
