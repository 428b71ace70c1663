-- ===== src/Panel/Typing.antt =====
-- `Panel_selectByTyping`: what is typed selects the first line that begins with it.
pub mod Found
use htop.Prelude.{
  ℕ, zero, suc, ◌+◌, ◌-◌, Bool, true, false, Option, none, some, List, [], ◌∷◌, ◌++◌, ltb, leb,
  ◌==◌, ◌&&◌, if◌then◌else◌, length, take, get_or,
}
use htop.Prelude.Int.{ℤ, pos, negsuc, pos_part, ltb_ℤ, eqb_ℤ}
use htop.Vector.{Vector}
use htop.Panel.{Panel, set_selected}

-- The results of event handlers, of which this one returns the first three.
pub data HandlerResult : Type 0 where
  handled ignored break_loop refresh redraw rescan resize synth_key : HandlerResult

-- The part of the handler's buffer before its NUL.
abbrev pub buffer_max : ℕ
buffer_max = 99

-- `while (*cur == ' ') cur++`
unfoldable pub skip_spaces : List ℕ → List ℕ
skip_spaces [] = []
skip_spaces (c ∷ cs) = if c == b' ' then skip_spaces cs else c ∷ cs

-- ERR of curses.
abbrev pub err : ℤ
err = negsuc 0

-- The character as it is put into the buffer; `none` is the return on a leading `q`.
unfoldable pub typed_char : List ℕ → ℕ → Option ℕ
typed_char [] ch = if ch == b'/' then some 1 else if ch == b'q' then none else some ch
typed_char (c ∷ cs) ch = some ch

-- Where it is put.
unfoldable pub typed_at : List ℕ → ℕ
typed_at buffer = if length buffer == 1 && get_or buffer 0 0 == 1 then 0 else length buffer

unfoldable pub type_char : List ℕ → ℕ → List ℕ
unfolding typed_at
type_char buffer ch =
    let len = typed_at buffer in if ltb len buffer_max then take len buffer ++ ch ∷ [] else buffer

-- `is_graph` is isgraph of the C library; `begins cur buffer` is
-- `strncasecmp(cur, buffer, strlen(buffer)) == 0`; `value` is the text of a line.
module _ {ℓ} {A : Type ℓ} (is_graph : ℕ → Bool) (begins : List ℕ → List ℕ → Bool)
    (value : A → List ℕ) where
  -- The loop over the lines, from index `i` on.
  unfoldable pub find_line : List ℕ → List (Option A) → ℕ → Option ℕ
  unfolding skip_spaces
  find_line buffer [] i = none
  find_line buffer (none ∷ xs) i = find_line buffer xs (i + 1)
  find_line buffer (some x ∷ xs) i =
      if begins (skip_spaces (value x)) buffer then some i else find_line buffer xs (i + 1)

  -- The two tries, with the buffer and then with the character alone.
  unfoldable pub try_twice : Option (Panel A → Panel A) → Panel A → ℕ → Panel A
  try_twice on_select p ch =
      let lines = take p.items.items p.items.array in
      elim (find_line p.typed lines 0) [
        | some i ↦ set_selected on_select p (pos i)
        | none ↦ elim (find_line (ch ∷ []) lines 0) [
          | some i ↦ set_selected on_select (record p { typed = ch ∷ [] }) (pos i)
          | none ↦ record p { typed = ch ∷ [] }
        ]
      ]

  unfoldable pub select_by_typing :
      Option (Panel A → Panel A) → Panel A → ℤ → HandlerResult × Panel A
  unfolding typed_char
  select_by_typing on_select p ch =
      if ltb_ℤ (pos 0) ch && ltb_ℤ ch (pos 255) && is_graph (pos_part ch)
      then elim (typed_char p.typed (pos_part ch)) [
        | none ↦ (break_loop, p)
        | some c ↦ (handled, try_twice on_select (record p { typed = type_char p.typed c }) c)
      ]
      else let q : Panel A = if eqb_ℤ ch err then p else record p { typed = [] } in
        (if eqb_ℤ ch (pos 13) then break_loop else ignored, q)
