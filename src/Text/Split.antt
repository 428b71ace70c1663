-- ===== src/Text/Split.antt =====
-- `String_split` takes a string apart at a separator.
use htop.Prelude.{
  ℕ, zero, suc, ◌+◌, ◌<◌, ◌≡◌, refl, sym, ap, ◌∙◌, ◌⊎◌, inl, inr, Bool, true, false, not, Option,
  none, some, List, [], ◌∷◌, ◌++◌, arith, ◌==◌, if◌then◌else◌, Bool-cases, length,
}
use mathlib.Core.List.{append_assoc}
use htop.Text.{until, split_loop, split}

-- A separator behind every field.
abbrev pub terminated : ℕ → List (List ℕ) → List ℕ
terminated sep [] = []
terminated sep (f ∷ fs) = f ++ sep ∷ terminated sep fs

-- The character does not occur.
abbrev pub lacks : ℕ → List ℕ → Bool
lacks sep [] = true
lacks sep (c ∷ cs) = if c == sep then false else lacks sep cs

abbrev pub all_lack : ℕ → List (List ℕ) → Bool
all_lack sep [] = true
all_lack sep (f ∷ fs) = if lacks sep f then all_lack sep fs else false

-- The first separator, and the text on both sides of it.
abbrev Cut : ℕ → List ℕ → Option (List ℕ × List ℕ) → Type 0
Cut sep s o =
    ((o ≡ none) × (lacks sep s ≡ true))
    ⊎ ((field : List ℕ) × (rest : List ℕ) × (o ≡ some (field, rest))
        × (s ≡ field ++ sep ∷ rest)
        × (lacks sep field ≡ true)
        × (length rest < length s))

until-Cut : (sep : ℕ) (s : List ℕ) → Cut sep s (until sep s)
unfolding until
until-Cut sep [] = inl (refl, refl)
until-Cut sep (c ∷ cs) = elim (Bool-cases (c == sep)) [
  | inl here ↦
      let e : c ≡ sep = ground arith in
      inr ([], cs, rw (until, here) refl, ap (λ x. x ∷ cs) e, refl, omega arith)
  | inr later ↦ elim (until-Cut sep cs) [
    | inl (run, lack) ↦ inl (rw (until, later, run) refl, rw later lack)
    | inr (field, rest, run, parts, lack, shorter) ↦ inr (
      c ∷ field,
      rest,
      rw (until, later, run) refl,
      ap (λ x. c ∷ x) parts,
      rw later lack,
      omega (arith, shorter),
    )
  ]
]

-- The string's last character is there and is not the separator.
abbrev pub is_open : ℕ → List ℕ → Bool
is_open sep [] = false
is_open sep (c ∷ []) = not (c == sep)
is_open sep (c ∷ d ∷ cs) = is_open sep (d ∷ cs)

-- The fields have no separator; with one behind each they are the string, closed by a separator
-- where it ends in another character.
abbrev pub IsSplit : ℕ → List ℕ → Option (List (List ℕ)) → Type 0
IsSplit sep s o =
    (fields : List (List ℕ)) × (o ≡ some fields)
    × (all_lack sep fields ≡ true)
    × (terminated sep fields ≡ (if is_open sep s then s ++ sep ∷ [] else s))

lacks-is_open : (sep c : ℕ) (cs : List ℕ) → lacks sep (c ∷ cs) ≡ true → is_open sep (c ∷ cs) ≡ true
lacks-is_open sep c [] lack = ground arith
lacks-is_open sep c (d ∷ cs) lack = elim (Bool-cases (c == sep)) [
  | inl same ↦ let no : lacks sep (c ∷ d ∷ cs) ≡ false = rw same refl in cc
  | inr other ↦
      let below : lacks sep (c ∷ d ∷ cs) ≡ lacks sep (d ∷ cs) = rw other refl in
      lacks-is_open sep d cs (sym below ∙ lack)
]

-- Whether the string is open is seen behind any separator.
is_open_behind :
    (sep : ℕ) (field rest : List ℕ) → is_open sep (field ++ sep ∷ rest) ≡ is_open sep rest
is_open_behind sep [] [] = ground arith
is_open_behind sep [] (r ∷ rest) = refl
is_open_behind sep (c ∷ []) [] = ground arith
is_open_behind sep (c ∷ []) (r ∷ rest) = refl
is_open_behind sep (c ∷ d ∷ cs) rest = is_open_behind sep (d ∷ cs) rest

last-IsSplit :
    (fuel sep : ℕ) (s : List ℕ)
    → until sep s ≡ none
    → lacks sep s ≡ true
    → IsSplit sep s (split_loop (suc fuel) sep s)
unfolding split_loop
last-IsSplit fuel sep [] e lack = ([], refl, refl, refl)
last-IsSplit fuel sep (c ∷ cs) e lack =
    ((c ∷ cs) ∷ [], rw (split_loop, e) refl, rw lack refl, rw (lacks-is_open sep c cs lack) refl)

split_loop-IsSplit :
    (fuel sep : ℕ) (s : List ℕ) → length s < fuel → IsSplit sep s (split_loop fuel sep s)
unfolding split_loop
split_loop-IsSplit zero sep s h = absurd (omega arith)
split_loop-IsSplit (suc fuel) sep s h = elim (until-Cut sep s) [
  | inl (e, lack) ↦ last-IsSplit fuel sep s e lack
  | inr (field, rest, e, parts, lack, shorter) ↦
      let (fields, run, all, ends) = split_loop-IsSplit fuel sep rest (omega (arith, shorter, h)) in
      let same : is_open sep s ≡ is_open sep rest =
        ap (is_open sep) parts ∙ is_open_behind sep field rest in
      (
        field ∷ fields,
        rw (split_loop, e, run) refl,
        rw lack all,
        elim (Bool-cases (is_open sep rest)) [
          | inl opened ↦
              rw (same, opened)
                (ap (λ x. field ++ sep ∷ x) (ends ∙ rw opened refl)
                  ∙ sym (append_assoc field (sep ∷ rest) (sep ∷ []))
                  ∙ ap (λ x. x ++ sep ∷ []) (sym parts))
          | inr closed ↦
              rw (same, closed) (ap (λ x. field ++ sep ∷ x) (ends ∙ rw closed refl) ∙ sym parts)
        ],
      )
]

-- `String_split` ends. Its fields have no separator in them, and with one behind each they make up
-- the string, or the string and a separator where its last character is there and is not one.
pub split-IsSplit : (sep : ℕ) (s : List ℕ) → IsSplit sep s (split sep s)
unfolding split
split-IsSplit sep s = split_loop-IsSplit (length s + 1) sep s (omega arith)
