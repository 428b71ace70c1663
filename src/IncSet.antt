-- ===== src/IncSet.antt =====
-- IncSet.c: the incremental search and the filter of a panel. The function bars of the two modes
-- are not modelled.
pub mod Find
pub mod Keys
pub mod Weak
mod Tests
use htop.Prelude.{
  ℕ, zero, suc, ◌+◌, ◌-◌, Bool, true, false, Option, none, some, List, [], ◌∷◌, ◌++◌, ltb, leb,
  ◌==◌, ◌&&◌, ◌||◌, if◌then◌else◌, length, take,
}
use htop.Prelude.Int.{ℤ, pos, pos_part}
use htop.Vector.{Vector}
use htop.Panel
use htop.Panel.{Panel, set_selected, get_selected}

abbrev pub inc_mode_max : ℕ
inc_mode_max = 40

pub data IncType : Type 0 where
  inc_search inc_filter : IncType

-- `buffer` is the text before the NUL.
pub record IncMode : Type 0 where
  pub buffer : List ℕ
  pub index : ℕ
  pub is_filter : Bool

-- `active` is the pointer to one of the modes, or NULL.
pub record IncSet : Type 0 where
  pub search : IncMode
  pub filter : IncMode
  pub active : Option IncType
  pub filtering : Bool
  pub found : Bool

abbrev pub mode_of : IncSet → IncType → IncMode
mode_of s inc_search = s.search
mode_of s inc_filter = s.filter

abbrev pub set_mode : IncSet → IncType → IncMode → IncSet
set_mode s inc_search m = record s { search = m }
set_mode s inc_filter m = record s { filter = m }

unfoldable pub mode_reset : IncMode → IncMode
mode_reset m = record m { index = 0; buffer = [] }

unfoldable pub reset : IncSet → IncType → IncSet
unfolding mode_reset
reset s type = set_mode s type (mode_reset (mode_of s type))

-- `String_safeStrncpy` keeps as many characters as fit in front of the NUL.
unfoldable pub set_filter : IncSet → List ℕ → IncSet
set_filter s text =
    let kept = take inc_mode_max text in
    record s { filter = record s.filter { buffer = kept; index = length kept }; filtering = true }

unfoldable pub new : IncSet
new = record {
  search = record { buffer = []; index = 0; is_filter = false };
  filter = record { buffer = []; index = 0; is_filter = true };
  active = none;
  filtering = false;
  found = false;
}

unfoldable pub activate : IncSet → IncType → IncSet
activate s type = record s { active = some type }

-- The keys that `IncSet_handleKey` tells apart: curses' own, and characters by their code.
pub data Key : Type 0 where
  err f3 shift_f3 backspace resize : Key
  char : ℕ → Key
  other : ℕ → Key

-- The index after `i += step` and its two corrections; `ahead` is the step 1, else it is -1.
unfoldable pub step_index : Bool → ℕ → ℕ → ℕ
step_index true size i = if i + 1 == size then 0 else i + 1
step_index false size i = if i == 0 then size - 1 else i - 1

-- `contains text part` is strcasestr; `value` is the text of a line that `getPanelValue` gives;
-- `on_select` is the panel's event handler, as in Panel.
module _ {ℓ} {A : Type ℓ} (contains : List ℕ → List ℕ → Bool) (value : Panel A → ℕ → List ℕ)
    (on_select : Option (Panel A → Panel A)) where
  -- The loop of `search`: `n` lines are left, the next one at index `i`.
  unfoldable pub search_loop : List ℕ → Panel A → ℕ → ℕ → Bool × Panel A
  search_loop text p zero i = (false, p)
  search_loop text p (suc n) i =
      if contains (value p i) text
      then (true, set_selected on_select p (pos i))
      else search_loop text p n (i + 1)

  unfoldable pub search : IncMode → Panel A → Bool × Panel A
  unfolding search_loop
  search m p = search_loop m.buffer p p.items.items 0

  -- The loop of `IncMode_find` from index `i`; `none` where the fuel runs out.
  unfoldable pub find_loop : ℕ → Bool → List ℕ → Panel A → ℕ → ℕ → Option (Bool × Panel A)
  find_loop zero ahead text p here i = none
  find_loop (suc fuel) ahead text p here i =
      let j = step_index ahead p.items.items i in
      elim (j == here) [
        | true ↦ some (false, p)
        | false ↦ elim (contains (value p j) text) [
          | true ↦ some (true, set_selected on_select p (pos j))
          | false ↦ find_loop fuel ahead text p here j
        ]
      ]

  unfoldable pub find : IncMode → Panel A → Bool → Option (Bool × Panel A)
  unfolding find_loop
  find m p ahead =
      let here = pos_part p.selected in find_loop p.items.items ahead m.buffer p here here

-- `text` is the value of a list item, `same` the equality of pointers.
module _ {ℓ} {A : Type ℓ} (contains : List ℕ → List ℕ → Bool) (text : A → List ℕ)
    (same : A → A → Bool) (on_select : Option (Panel A → Panel A)) where
  -- Both loops of `updateWeakPanel`, which differ in the test: `n` lines have been added.
  unfoldable pub weak_loop : (A → Bool) → Option A → ℕ → List (Option A) → Panel A → Panel A
  weak_loop keep selected n [] p = p
  weak_loop keep selected n (none ∷ lines) p = weak_loop keep selected n lines p
  weak_loop keep selected n (some x ∷ lines) p = elim (keep x) [
    | true ↦
        let q = Panel.add p x in
        let chosen : Bool = elim selected [ none ↦ false | some o ↦ same o x ] in
        let r = if chosen then set_selected on_select q (pos n) else q in
        weak_loop keep selected (n + 1) lines r
    | false ↦ weak_loop keep selected n lines p
  ]

  unfoldable pub update_weak_panel : IncSet → Panel A → Vector A → Panel A
  unfolding weak_loop
  update_weak_panel s p lines =
      weak_loop (λ x. if s.filtering then contains (text x) s.filter.buffer else true)
        (get_selected p) 0 (take lines.items lines.array) (Panel.prune p).0
