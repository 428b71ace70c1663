-- ===== src/IncSet/Keys/Buffer.antt =====
-- The buffers of the two modes: their bounds, and the flag `filtering`.
use htop.Prelude.{
  ℕ, ◌-◌, ◌≤◌, ◌<◌, ◌≡◌, refl, sym, subst, ◌⊎◌, inl, inr, Bool, true, false, List, [], ◌∷◌, ltb,
  ◌==◌, ◌&&◌, arith, Bool-cases, Option, none, some, length, take, length-take, length-append,
}
use htop.IncSet.{IncMode, IncSet, IncType, Key, inc_search, inc_filter, mode_of}
use htop.IncSet.Keys.{
  append_char, erase_char, leave, change, finish, find_key, handle_active, handle_key,
}
use htop.Prelude.Int.{pos}
use htop.Vector.{Vector}
use htop.Panel.{Panel, set_selected}
use htop.IncSet.Find.{find-Found}

-- The index of a mode is the length of its text, which leaves room for the NUL.
abbrev pub Fits : IncMode → Type 0
Fits m = (m.index ≡ length m.buffer) × (m.index ≤ 40)

-- Both modes fit, each knows its kind, and the filter is on whenever it has a text.
abbrev pub IsValid : IncSet → Type 0
IsValid s =
    Fits s.search
    × Fits s.filter
    × (s.search.is_filter ≡ false)
    × (s.filter.is_filter ≡ true)
    × ((s.filter.index ≡ 0) ⊎ (s.filtering ≡ true))

append_char-IsValid :
    (s : IncSet) (type : IncType) (c : ℕ) → IsValid s → IsValid (append_char s type c).set
unfolding append_char
append_char-IsValid s inc_search c v = ground (
  arith,
  length-append (take s.search.index s.search.buffer) (c ∷ []),
  length-take s.search.index s.search.buffer,
)
append_char-IsValid s inc_filter c v = ground (
  arith,
  length-append (take s.filter.index s.filter.buffer) (c ∷ []),
  length-take s.filter.index s.filter.buffer,
)

erase_char-IsValid : (s : IncSet) (type : IncType) → IsValid s → IsValid (erase_char s type).set
unfolding erase_char
erase_char-IsValid s inc_search v = ground (arith, length-take (s.search.index - 1) s.search.buffer)
erase_char-IsValid s inc_filter v = ground (arith, length-take (s.filter.index - 1) s.filter.buffer)

leave-IsValid :
    (s : IncSet) (type : IncType) (escape : Bool) → IsValid s → IsValid (leave s type escape).set
unfolding leave
leave-IsValid s inc_search escape v = ground arith
leave-IsValid s inc_filter escape v = ground arith

change-IsValid :
    (is_print : ℕ → Bool) (s : IncSet) (type : IncType) (key : Key)
    → IsValid s
    → IsValid (change is_print s type key).set
unfolding change
change-IsValid is_print s type Key.err v = v
change-IsValid is_print s type Key.f3 v = v
change-IsValid is_print s type Key.shift_f3 v = v
change-IsValid is_print s type Key.backspace v = erase_char-IsValid s type v
change-IsValid is_print s type Key.resize v = v
change-IsValid is_print s type (Key.other n) v = leave-IsValid s type false v
change-IsValid is_print s type (Key.char c) v =
    elim (Bool-cases (ltb 0 c && ltb c 255 && is_print c)) [
      | inl printable ↦ rw printable (append_char-IsValid s type c v)
      | inr control ↦ elim (Bool-cases (c == 127)) [
        | inl del ↦ rw (control, del) (erase_char-IsValid s type v)
        | inr other ↦ rw (control, other) (leave-IsValid s type (c == 27) v)
      ]
    ]

module _ {ℓ} {A : Type ℓ} (is_print : ℕ → Bool) (contains : List ℕ → List ℕ → Bool)
    (value : Panel A → ℕ → List ℕ) (text : A → List ℕ) (same : A → A → Bool)
    (on_select : Option (Panel A → Panel A)) where
  -- The result of a key is there, and leaves a valid set.
  abbrev pub Keeps : Option (Bool × IncSet × Panel A) → Type ℓ
  Keeps o = (r : Bool × IncSet × Panel A) × (o ≡ some r) × IsValid r.1

  finish-IsValid :
      (s : IncSet) (type : IncType) (key : Key) (p : Panel A) (lines : Option (Vector A))
      → IsValid s
      → Keeps (
          some (
            finish is_print contains value text same on_select s type
              (change is_print s type key)
              p
              lines))
  unfolding finish
  finish-IsValid s type key p lines v = (_, refl, change-IsValid is_print s type key v)

  find_key-IsValid :
      (s : IncSet) (type : IncType) (ahead : Bool) (p : Panel A) (here : ℕ)
      → IsValid s
      → p.selected ≡ pos here
      → (here < p.items.items) ⊎ (p.items.items ≡ 0)
      → Keeps (find_key is_print contains value text same on_select s type ahead p)
  unfolding find_key
  find_key-IsValid s type ahead p here v e b = elim b [
    | inr empty ↦ ((true, s, p), ground arith, v)
    | inl inside ↦
        let some_lines : (p.items.items == 0) ≡ false = ground arith in
        elim (find-Found contains value on_select (mode_of s type) p ahead here e inside) [
          | inl (j, _, _, _, run) ↦
              ((false, s, set_selected on_select p (pos j)), rw (some_lines, run) refl, v)
          | inr (run, _) ↦ ((false, s, p), rw (some_lines, run) refl, v)
        ]
  ]

  -- Whatever the key, `IncSet_handleKey` ends while a mode is active and the selection of the panel
  -- is within bounds, and leaves buffers that fit and a filter that is on whenever it has a text.
  pub handle_key-IsValid :
      (s : IncSet) (type : IncType) (key : Key) (p : Panel A) (lines : Option (Vector A)) (here : ℕ)
      → s.active ≡ some type
      → IsValid s
      → p.selected ≡ pos here
      → (here < p.items.items) ⊎ (p.items.items ≡ 0)
      → Keeps (handle_key is_print contains value text same on_select s key p lines)
  unfolding handle_key handle_active
  handle_key-IsValid s type key p lines here a v e b =
      subst
        (λ o. Keeps (elim o as (λ o. Option (Bool × IncSet × Panel A)) [
          | none ↦ none
          | some t ↦ handle_active is_print contains value text same on_select s t key p lines
        ]))
        (sym a) (by_key key)
    where
      by_key :
          (key : Key)
          → Keeps (handle_active is_print contains value text same on_select s type key p lines)
      by_key Key.err = ((true, s, p), refl, v)
      by_key Key.f3 = find_key-IsValid s type true p here v e b
      by_key Key.shift_f3 = find_key-IsValid s type false p here v e b
      by_key Key.backspace = finish-IsValid s type Key.backspace p lines v
      by_key Key.resize = finish-IsValid s type Key.resize p lines v
      by_key (Key.other n) = finish-IsValid s type (Key.other n) p lines v
      by_key (Key.char c) = finish-IsValid s type (Key.char c) p lines v
