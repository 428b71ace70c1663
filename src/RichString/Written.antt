-- ===== src/RichString/Written.antt =====
-- What is written is read, behind what stood in front of it.
use htop.Prelude.{
  ℕ, zero, suc, ◌+◌, ◌-◌, ◌≤◌, ◌<◌, ◌≡◌, refl, sym, ap, ◌∙◌, true, leb, some, List, [], ◌∷◌, ◌++◌,
  map, arith, length, length-take, length-set, length-replicate, length-map, take, take_all, set,
  replicate,
}
use mathlib.Core.List.{append_assoc, append-nil}
use htop.RichString.{
  Cell, RichString, nul, buffer, put_buffer, set_len, rewind, fill, shown_as, write_from, append,
  append_chr,
}
use htop.RichString.Length.{
  IsValid, take-take, take-set_past, buffer-put_buffer, put_buffer-chlen, put_buffer-IsValid,
  set_len-lem,
}

-- The characters of a string.
abbrev pub cells : RichString → List Cell
cells s = take s.chlen (buffer s)

length-fill : (b : List Cell) (i : ℕ) (cs : List Cell) → length (fill b i cs) ≡ length b
unfolding fill
length-fill b i [] = refl
length-fill b i (c ∷ cs) = length-fill (set b i c) (i + 1) cs ∙ length-set b i c

take-set_next :
    (i : ℕ) (b : List Cell) (c : Cell)
    → i < length b
    → take (i + 1) (set b i c) ≡ take i b ++ c ∷ []
take-set_next i [] c h = absurd (omega arith)
take-set_next zero (x ∷ b) c h = refl
take-set_next (suc i) (x ∷ b) c h =
    let e : suc i + 1 ≡ suc (i + 1) = omega arith in
    ap (λ n. take n (x ∷ set b i c)) e ∙ ap (λ l. x ∷ l) (take-set_next i b c (omega (arith, h)))

take-fill :
    (b : List Cell) (i : ℕ) (cs : List Cell)
    → i + length cs ≤ length b
    → take (i + length cs) (fill b i cs) ≡ take i b ++ cs
unfolding fill
take-fill b i [] h = ap (λ n. take n b) (omega arith) ∙ sym (append-nil (take i b))
take-fill b i (c ∷ cs) h =
    ap (λ n. take n (fill (set b i c) (i + 1) cs)) (omega arith)
    ∙ take-fill (set b i c) (i + 1) cs (omega (arith, h, length-set b i c))
    ∙ ap (λ xs. xs ++ cs) (take-set_next i b c (omega (arith, h)))
    ∙ append_assoc (take i b) (c ∷ []) cs

-- A write that starts within a valid string leaves what is in front of it, and ends with the text;
-- the string stays valid.
pub write_from-cells :
    (unset : Cell) (s : RichString) (attrs : ℕ) (text : List ℕ) (from : ℕ)
    → IsValid s
    → from ≤ s.chlen
    → IsValid (write_from unset s attrs text from)
      × (cells (write_from unset s attrs text from)
          ≡ take from (cells s) ++ map (shown_as attrs) text)
unfolding write_from
write_from-cells unset s attrs text from v inside =
    let len = from + length text in
    let t = set_len unset s len in
    let (valid, sized, begins) = set_len-lem unset s len v in
    let written = map (shown_as attrs) text in
    let filled = fill (buffer t) from written in
    let b = set filled len nul in
    let long = length-map (shown_as attrs) text in
    let size : length b ≡ length (buffer t) =
      length-set filled len nul ∙ length-fill (buffer t) from written in
    (
      put_buffer-IsValid t b valid size,
      ap (λ n. take n (buffer (put_buffer t b))) (put_buffer-chlen t b ∙ sized)
          ∙ ap (take len) (buffer-put_buffer t b)
          ∙ take-set_past len len filled nul (omega arith)
          ∙ ap (λ n. take n filled) (omega (arith, long))
          ∙ take-fill (buffer t) from written (omega (arith, long, sized, valid.fits))
          ∙ ap (λ xs. xs ++ written)
              (begins from inside (omega arith) ∙ sym (take-take from s.chlen (buffer s) inside)),
    )

length-cells : (s : RichString) → IsValid s → length (cells s) ≡ s.chlen
length-cells s v = omega (arith, v.fits, length-take s.chlen (buffer s))

-- `RichString_appendAscii` puts the text behind the string.
pub append-cells :
    (unset : Cell) (s : RichString) (attrs : ℕ) (text : List ℕ)
    → IsValid s
    → IsValid (append unset s attrs text)
      × (cells (append unset s attrs text) ≡ cells s ++ map (shown_as attrs) text)
unfolding append
append-cells unset s attrs text v =
    let (valid, e) = write_from-cells unset s attrs text s.chlen v (omega arith) in
    (
      valid,
      e
          ∙ ap (λ xs. xs ++ map (shown_as attrs) text)
              (take_all s.chlen (cells s) (omega (arith, length-cells s v))),
    )

-- `RichString_rewind` by no more than the length of a valid string takes as many characters off its
-- end, and leaves a valid string.
pub rewind-cells :
    (unset : Cell) (s : RichString) (count : ℕ)
    → IsValid s
    → count ≤ s.chlen
    → (t : RichString) × (rewind unset s count ≡ some t)
      × IsValid t
      × (t.chlen + count ≡ s.chlen)
      × (cells t ≡ take t.chlen (cells s))
unfolding rewind
rewind-cells unset s count v h =
    let len = s.chlen - count in
    let within : leb count s.chlen ≡ true = ground (arith, h) in
    let (valid, sized, begins) = set_len-lem unset s len v in
    (
      set_len unset s len,
      rw (rewind, within) refl,
      valid,
      omega (arith, sized, h),
      ap (λ n. take n (buffer (set_len unset s len))) sized
          ∙ begins len (omega arith) (omega arith)
          ∙ sym (take-take len s.chlen (buffer s) (omega arith))
          ∙ ap (λ n. take n (cells s)) (sym sized),
    )

-- `RichString_appendChr` puts a character behind a valid string, as often as asked for, and leaves a
-- valid string.
pub append_chr-cells :
    (unset : Cell) (s : RichString) (attrs c count : ℕ)
    → IsValid s
    → IsValid (append_chr unset s attrs c count)
      × (cells (append_chr unset s attrs c count)
          ≡ cells s ++ replicate count (record { attr = attrs; ch = c }))
unfolding append_chr
append_chr-cells unset s attrs c count v =
    let len = s.chlen + count in
    let t = set_len unset s len in
    let (valid, sized, begins) = set_len-lem unset s len v in
    let written : List Cell = replicate count (record { attr = attrs; ch = c }) in
    let b = fill (buffer t) s.chlen written in
    let long : length written ≡ count = length-replicate count _ in
    (
      put_buffer-IsValid t b valid (length-fill (buffer t) s.chlen written),
      ap (λ n. take n (buffer (put_buffer t b))) (put_buffer-chlen t b ∙ sized)
          ∙ ap (take len) (buffer-put_buffer t b)
          ∙ ap (λ n. take n b) (omega (arith, long))
          ∙ take-fill (buffer t) s.chlen written (omega (arith, long, sized, valid.fits))
          ∙ ap (λ xs. xs ++ written) (begins s.chlen (omega arith) (omega arith)),
    )
