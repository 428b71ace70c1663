-- ===== src/Text/Trim.antt =====
-- `String_trim` drops the blanks at both ends and nothing else.
use htop.Prelude.{
  ℕ, zero, suc, ◌+◌, ◌-◌, ◌≤◌, ◌<◌, ◌≡◌, refl, sym, ap, ◌∙◌, ◌⊎◌, inl, inr, Bool, true, false, List,
  [], ◌∷◌, ◌++◌, arith, if◌then◌else◌, Bool-cases, length, take, drop, get_or, length-take,
  take-append-drop,
}
use htop.Text.{is_blank, skip_blanks, trim_length, trim}

-- Nothing but blanks.
abbrev pub all_blank : List ℕ → Bool
all_blank [] = true
all_blank (c ∷ cs) = if is_blank c then all_blank cs else false

-- Neither the first nor the last character is a blank.
abbrev pub Trimmed : List ℕ → Type 0
Trimmed t =
    (t ≡ []) ⊎ ((is_blank (get_or t 0 0) ≡ false) × (is_blank (get_or t (length t - 1) 0) ≡ false))

skip_blanks-parts :
    (s : List ℕ)
    → (pre : List ℕ) × (s ≡ pre ++ skip_blanks s)
      × (all_blank pre ≡ true)
      × ((skip_blanks s ≡ []) ⊎ (is_blank (get_or (skip_blanks s) 0 0) ≡ false))
unfolding skip_blanks
skip_blanks-parts [] = ([], refl, refl, inl refl)
skip_blanks-parts (c ∷ cs) = elim (Bool-cases (is_blank c)) [
  | inl blank ↦
      let (pre, parts, all, first) = skip_blanks-parts cs in
      (
        c ∷ pre,
        rw (skip_blanks, blank) (ap (λ x. c ∷ x) parts),
        rw blank all,
        rw (skip_blanks, blank) first,
      )
  | inr kept ↦ ([], rw (skip_blanks, kept) refl, refl, inr (rw (skip_blanks, kept) kept))
]

drop-cons : (s : List ℕ) (n : ℕ) → n < length s → drop n s ≡ get_or s n 0 ∷ drop (suc n) s
drop-cons [] n h = absurd (omega arith)
drop-cons (c ∷ cs) zero h = refl
drop-cons (c ∷ cs) (suc n) h = drop-cons cs n (omega arith)

-- Where the second loop stops, with only blanks behind.
trim_length-parts :
    (s : List ℕ) (n : ℕ)
    → n ≤ length s
    → all_blank (drop n s) ≡ true
    → let k = trim_length s n in
      (k ≤ n)
      × (all_blank (drop k s) ≡ true)
      × ((k ≡ 0) ⊎ ((i : ℕ) × (k ≡ i + 1) × (is_blank (get_or s i 0) ≡ false)))
unfolding trim_length
trim_length-parts s zero h all = (omega arith, all, inl refl)
trim_length-parts s (suc n) h all = elim (Bool-cases (is_blank (get_or s n 0))) [
  | inl blank ↦
      let more : all_blank (drop n s) ≡ true = rw (drop-cons s n (omega arith), blank) all in
      let (le, behind, last) = trim_length-parts s n (omega arith) more in
      rw (trim_length, blank) (omega (arith, le), behind, last)
  | inr kept ↦ rw (trim_length, kept) (omega arith, all, inr (n, omega arith, kept))
]

get_or-take_lt : (s : List ℕ) (k i : ℕ) → i < k → get_or (take k s) i 0 ≡ get_or s i 0
get_or-take_lt s zero i h = absurd (omega arith)
get_or-take_lt [] (suc k) i h = refl
get_or-take_lt (c ∷ cs) (suc k) zero h = refl
get_or-take_lt (c ∷ cs) (suc k) (suc i) h = get_or-take_lt cs k i (omega arith)

drop_all : (s : List ℕ) → all_blank (drop (length s) s) ≡ true
drop_all [] = refl
drop_all (c ∷ cs) = drop_all cs

take-Trimmed :
    (s : List ℕ) (k i : ℕ)
    → k ≡ i + 1
    → k ≤ length s
    → (s ≡ []) ⊎ (is_blank (get_or s 0 0) ≡ false)
    → is_blank (get_or s i 0) ≡ false
    → Trimmed (take k s)
take-Trimmed s k i e le first kept =
    let at_end : length (take k s) - 1 ≡ i = omega (arith, length-take k s, e, le) in
    inr (
      elim first [
        | inl empty ↦ absurd (omega (arith, ap length empty, e, le))
        | inr start ↦ ap is_blank (get_or-take_lt s k 0 (omega (arith, e))) ∙ start
      ],
      ap (λ j. is_blank (get_or (take k s) j 0)) at_end
          ∙ ap is_blank (get_or-take_lt s k i (omega (arith, e)))
          ∙ kept,
    )

-- The string is the result with blanks in front and behind, and the result has a blank at neither
-- end.
pub trim-parts :
    (s : List ℕ)
    → (pre : List ℕ) × (post : List ℕ) × (s ≡ pre ++ (trim s ++ post))
      × (all_blank pre ≡ true)
      × (all_blank post ≡ true)
      × Trimmed (trim s)
unfolding trim
trim-parts s =
    let rest = skip_blanks s in
    let k = trim_length rest (length rest) in
    let (pre, parts, blank_pre, first) = skip_blanks-parts s in
    let nothing : all_blank (drop (length rest) rest) ≡ true = drop_all rest in
    let (le, blank_post, last) = trim_length-parts rest (length rest) (omega arith) nothing in
    (
      pre,
      drop k rest,
      parts ∙ ap (λ x. pre ++ x) (sym (take-append-drop k rest)),
      blank_pre,
      blank_post,
      elim last [
        | inl zero_left ↦ inl (ap (λ m. take m rest) zero_left)
        | inr (i, e, kept) ↦ take-Trimmed rest k i e le first kept
      ],
    )
