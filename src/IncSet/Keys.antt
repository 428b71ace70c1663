-- ===== src/IncSet/Keys.antt =====
-- `IncSet_handleKey`. Its result, the set and the panel are returned together; `none` stands for a
-- NULL `active`, with which the function is not called.
pub mod Buffer
use htop.Prelude.{
  ℕ, zero, suc, ◌+◌, ◌-◌, Bool, true, false, not, Option, none, some, List, [], ◌∷◌, ◌++◌, ltb, leb,
  ◌==◌, ◌&&◌, ◌||◌, if◌then◌else◌, length, take,
}
use htop.Vector.{Vector}
use htop.Panel.{Panel}
use htop.IncSet.{
  IncMode, IncSet, IncType, Key, inc_mode_max, mode_of, set_mode, mode_reset, search, find,
  update_weak_panel,
}

-- What a key does to the set, before the search: the set, then `filterChanged` and `doSearch`.
pub record Change : Type 0 where
  pub set : IncSet
  pub filter_changed : Bool
  pub do_search : Bool

-- The printable characters.
unfoldable pub append_char : IncSet → IncType → ℕ → Change
append_char s type ch =
    let m = mode_of s type in
    if ltb m.index inc_mode_max
    then (let m' : IncMode = record m {
      buffer = take m.index m.buffer ++ ch ∷ [];
      index = m.index + 1;
    } in
        let s' = set_mode s type m' in
        record {
          set = if m.is_filter && m'.index == 1 then record s' { filtering = true } else s';
          filter_changed = m.is_filter;
          do_search = true;
        })
    else record { set = s; filter_changed = false; do_search = true }

-- KEY_BACKSPACE and 127.
unfoldable pub erase_char : IncSet → IncType → Change
unfolding mode_reset
erase_char s type =
    let m = mode_of s type in
    if ltb 0 m.index
    then (let m' : IncMode = record m {
      buffer = take (m.index - 1) m.buffer;
      index = m.index - 1;
    } in
        let s' = set_mode s type m' in
        record {
          set =
              if m.is_filter && m'.index == 0
              then set_mode (record s' { filtering = false }) type (mode_reset m')
              else s';
          filter_changed = m.is_filter;
          do_search = true;
        })
    else record { set = s; filter_changed = false; do_search = false }

-- Every key that is not handled: the mode is left, by Escape with its text deleted.
unfoldable pub leave : IncSet → IncType → Bool → Change
unfolding mode_reset
leave s type escape =
    let m = mode_of s type in
    let s' =
      if escape
      then set_mode (if m.is_filter then record s { filtering = false } else s) type (mode_reset m)
      else s in
    record { set = record s' { active = none }; filter_changed = m.is_filter; do_search = false }

-- `is_print` is isprint of the C library.
unfoldable pub change : (ℕ → Bool) → IncSet → IncType → Key → Change
unfolding append_char erase_char leave
change is_print s type (Key.char c) =
    if ltb 0 c && ltb c 255 && is_print c
    then append_char s type c
    else if c == 127
    then erase_char s type
    else leave s type (c == 27)
change is_print s type Key.backspace = erase_char s type
change is_print s type Key.resize = record {
  set = s;
  filter_changed = false;
  do_search = ltb 0 (mode_of s type).index;
}
change is_print s type (Key.other n) = leave s type false
change is_print s type Key.err = record { set = s; filter_changed = true; do_search = false }
change is_print s type Key.f3 = record { set = s; filter_changed = false; do_search = false }
change is_print s type Key.shift_f3 = record { set = s; filter_changed = false; do_search = false }

module _ {ℓ} {A : Type ℓ} (is_print : ℕ → Bool) (contains : List ℕ → List ℕ → Bool)
    (value : Panel A → ℕ → List ℕ) (text : A → List ℕ) (same : A → A → Bool)
    (on_select : Option (Panel A → Panel A)) where
  -- The end of the function: the search, then the new contents of the panel.
  unfoldable pub finish :
      IncSet → IncType → Change → Panel A → Option (Vector A) → Bool × IncSet × Panel A
  finish s type c p lines =
      let (found, q) =
        if c.do_search
        then search contains value on_select (mode_of c.set type) p
        else (c.set.found, p) in
      let s' : IncSet = record c.set { found = found } in
      let r : Panel A = elim lines [
        | none ↦ q
        | some v ↦
            if c.filter_changed then update_weak_panel contains text same on_select s' q v else q
      ] in
      (c.filter_changed, s', r)

  -- F3 and Shift-F3.
  unfoldable pub find_key : IncSet → IncType → Bool → Panel A → Option (Bool × IncSet × Panel A)
  find_key s type ahead p =
      if p.items.items == 0
      then some (true, s, p)
      else elim (find contains value on_select (mode_of s type) p ahead) [
        | none ↦ none
        | some (found, q) ↦ some (false, s, q)
      ]

  unfoldable pub handle_active :
      IncSet → IncType → Key → Panel A → Option (Vector A) → Option (Bool × IncSet × Panel A)
  unfolding change finish find_key
  handle_active s type Key.err p lines = some (true, s, p)
  handle_active s type Key.f3 p lines = find_key s type true p
  handle_active s type Key.shift_f3 p lines = find_key s type false p
  handle_active s type (Key.char c) p lines =
      some (finish s type (change is_print s type (Key.char c)) p lines)
  handle_active s type Key.backspace p lines =
      some (finish s type (change is_print s type Key.backspace) p lines)
  handle_active s type Key.resize p lines =
      some (finish s type (change is_print s type Key.resize) p lines)
  handle_active s type (Key.other n) p lines =
      some (finish s type (change is_print s type (Key.other n)) p lines)

  unfoldable pub handle_key :
      IncSet → Key → Panel A → Option (Vector A) → Option (Bool × IncSet × Panel A)
  unfolding handle_active
  handle_key s key p lines = elim s.active [
    | none ↦ none
    | some type ↦ handle_active s type key p lines
  ]
