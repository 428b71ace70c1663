-- ===== src/RichString/Length.antt =====
-- A change of the length: the memory is large enough, and the characters in front stay.
use htop.Prelude.{
  ℕ, zero, suc, ◌+◌, ◌-◌, ◌≤◌, ◌<◌, ◌≡◌, refl, sym, ap, ◌∙◌, Bool, true, false, Option, none, some,
  List, [], ◌∷◌, arith, length, length-append, length-take, length-drop, length-set,
  length-replicate, take, take-append, drop, set, replicate, ltb, leb, ◌&&◌, Bool-cases,
  Option-cases, inl, inr,
}
use htop.RichString.{
  Cell, RichString, max_len, nul, buffer, buffer_of, put_buffer, resized, end_at, extend_len,
  set_len,
}

abbrev is_heap : Option (List Cell) → Bool
is_heap none = false
is_heap (some h) = true

-- The string has memory of its own exactly when it is long, and the NUL fits.
pub record IsValid (s : RichString) : Type 0 where
  pub inline : length s.chstr ≡ max_len + 1
  pub fits : s.chlen < length (buffer s)
  pub place : is_heap s.heap ≡ ltb max_len s.chlen

pub take-take : (n m : ℕ) (xs : List Cell) → n ≤ m → take n (take m xs) ≡ take n xs
take-take zero m xs h = refl
take-take (suc n) zero xs h = absurd (omega arith)
take-take (suc n) (suc m) [] h = refl
take-take (suc n) (suc m) (x ∷ xs) h = ap (λ ys. x ∷ ys) (take-take n m xs (omega (arith, h)))

pub take-set_past : (n i : ℕ) (xs : List Cell) (v : Cell) → n ≤ i → take n (set xs i v) ≡ take n xs
take-set_past zero i xs v h = refl
take-set_past (suc n) i [] v h = refl
take-set_past (suc n) zero (x ∷ xs) v h = absurd (omega arith)
take-set_past (suc n) (suc i) (x ∷ xs) v h =
    ap (λ ys. x ∷ ys) (take-set_past n i xs v (omega (arith, h)))

pub buffer-put_buffer : (s : RichString) (cells : List Cell) → buffer (put_buffer s cells) ≡ cells
unfolding put_buffer
buffer-put_buffer s cells = elim (Option-cases s.heap) [
  | inl here ↦ rw (put_buffer, here) (ap (λ o. buffer_of cells o) here)
  | inr (h, own) ↦ rw (put_buffer, own) refl
]

-- `t` has room for `len` characters, in the right place, and begins as `s` does.
record HasRoom (s t : RichString) (len : ℕ) : Type 0 where
  inline : length t.chstr ≡ max_len + 1
  room : len < length (buffer t)
  place : is_heap t.heap ≡ ltb max_len len
  begins : (n : ℕ) → n ≤ s.chlen → n ≤ len → take n (buffer t) ≡ take n (buffer s)

put_buffer-place :
    (s : RichString) (cells : List Cell) → is_heap (put_buffer s cells).heap ≡ is_heap s.heap
unfolding put_buffer
put_buffer-place s cells = elim (Option-cases s.heap) [
  | inl here ↦ rw (put_buffer, here) (ap is_heap here)
  | inr (h, own) ↦ rw (put_buffer, own) refl
]

put_buffer-inline :
    (s : RichString) (cells : List Cell)
    → length s.chstr ≡ max_len + 1
    → length cells ≡ length (buffer s)
    → length (put_buffer s cells).chstr ≡ max_len + 1
unfolding put_buffer
put_buffer-inline s cells h e = elim (Option-cases s.heap) [
  | inl here ↦ rw (put_buffer, here) (e ∙ ap (λ o. length (buffer_of s.chstr o)) here ∙ h)
  | inr (own, there) ↦ rw (put_buffer, there) h
]

pub put_buffer-chlen : (s : RichString) (cells : List Cell) → (put_buffer s cells).chlen ≡ s.chlen
unfolding put_buffer
put_buffer-chlen s cells = elim (Option-cases s.heap) [
  | inl here ↦ rw (put_buffer, here) refl
  | inr (h, own) ↦ rw (put_buffer, own) refl
]

-- A write of the buffer that keeps its size.
pub put_buffer-IsValid :
    (s : RichString) (cells : List Cell)
    → IsValid s
    → length cells ≡ length (buffer s)
    → IsValid (put_buffer s cells)
put_buffer-IsValid s cells v e =
    let same = put_buffer-chlen s cells in
    record {
      inline = put_buffer-inline s cells v.inline e;
      fits = omega (arith, v.fits, e, same, ap length (buffer-put_buffer s cells));
      place = put_buffer-place s cells ∙ v.place ∙ ap (λ n. ltb max_len n) (sym same);
    }

-- Only the last character is written then.
end_at-lem :
    (unset : Cell) (s t : RichString) (len : ℕ)
    → HasRoom s t len
    → IsValid (end_at unset t len)
      × ((n : ℕ) → n ≤ s.chlen → n ≤ len → take n (buffer (end_at unset t len)) ≡ take n (buffer s))
unfolding end_at
end_at-lem unset s t len r =
    let cells = set (buffer t) len nul in
    let back = buffer-put_buffer t cells in
    let size : length (buffer (put_buffer t cells)) ≡ length (buffer t) =
      ap length back ∙ length-set (buffer t) len nul in
    (
      record {
        inline = put_buffer-inline t cells r.inline (length-set (buffer t) len nul);
        fits = omega (arith, size, r.room);
        place = put_buffer-place t cells ∙ r.place;
      },
      λ n h k. ap (take n) back ∙ take-set_past n len (buffer t) nul k ∙ r.begins n h k,
    )

buffer_of-inline :
    (chstr : List Cell) (heap : Option (List Cell))
    → is_heap heap ≡ false
    → buffer_of chstr heap ≡ chstr
buffer_of-inline chstr none h = refl
buffer_of-inline chstr (some own) h = cc

resized-HasRoom :
    (unset : Cell) (s : RichString) (len : ℕ) → IsValid s → HasRoom s (resized unset s len) len
unfolding resized
resized-HasRoom unset s len v =
    let b = buffer s in
    elim (Bool-cases (leb s.chlen max_len)) [
      | inl short ↦
          let here : is_heap s.heap ≡ false = v.place ∙ ground (arith, short) in
          let same = buffer_of-inline s.chstr s.heap here in
          elim (Bool-cases (ltb max_len len)) [
            | inl long ↦
                rw (resized, short, long)
                  (record {
                    inline = v.inline;
                    room = omega (
                      arith,
                      v.fits,
                      length-append (take s.chlen b) (replicate (len + 1 - s.chlen) unset),
                      length-take s.chlen b,
                      length-replicate (len + 1 - s.chlen) unset,
                    );
                    place = sym long;
                    begins = λ n h k.
                        take-append n (take s.chlen b) _
                          (omega (arith, h, v.fits, length-take s.chlen b))
                        ∙ take-take n s.chlen b h;
                  })
            | inr still ↦
                rw (resized, short, still)
                  (record {
                    inline = v.inline;
                    room = ground (arith, ap length same, v.inline, still);
                    place = here ∙ sym still;
                    begins = λ n h k. refl;
                  })
          ]
      | inr own ↦ elim (Bool-cases (leb len max_len)) [
        | inl short ↦
            rw (resized, own, short)
              (record {
                inline = ground (
                  arith,
                  own,
                  short,
                  v.fits,
                  v.inline,
                  length-append (take len b) (drop len s.chstr),
                  length-take len b,
                  length-drop len s.chstr,
                );
                room = ground (
                  arith,
                  own,
                  short,
                  v.fits,
                  v.inline,
                  length-append (take len b) (drop len s.chstr),
                  length-take len b,
                  length-drop len s.chstr,
                );
                place = ground (arith, short);
                begins = λ n h k.
                    take-append n (take len b) _
                      (ground (arith, own, short, k, v.fits, length-take len b))
                    ∙ take-take n len b k;
              })
        | inr still ↦
            rw (resized, own, still)
              (record {
                inline = v.inline;
                room = omega (
                  arith,
                  length-append (take (len + 1) b) (replicate (len + 1 - length b) unset),
                  length-take (len + 1) b,
                  length-replicate (len + 1 - length b) unset,
                );
                place = ground (arith, still);
                begins = λ n h k.
                    take-append n (take (len + 1) b) _
                      (omega (arith, h, k, v.fits, length-take (len + 1) b))
                    ∙ take-take n (len + 1) b (omega (arith, k));
              })
      ]
    ]

-- The string after a change of the length.
pub set_len-lem :
    (unset : Cell) (s : RichString) (len : ℕ)
    → IsValid s
    → IsValid (set_len unset s len)
      × ((set_len unset s len).chlen ≡ len)
      × ((n : ℕ)
          → n ≤ s.chlen
          → n ≤ len
          → take n (buffer (set_len unset s len)) ≡ take n (buffer s))
unfolding set_len extend_len end_at
set_len-lem unset s len v = elim (Bool-cases (ltb len max_len && ltb s.chlen max_len)) [
  | inl quick ↦
      let here : is_heap s.heap ≡ false = v.place ∙ ground (arith, quick) in
      let same = buffer_of-inline s.chstr s.heap here in
      let r : HasRoom s s len = record {
        inline = v.inline;
        room = ground (arith, ap length same, v.inline, quick);
        place = here ∙ ground (arith, quick);
        begins = λ n h k. refl;
      } in
      let (valid, begins) = end_at-lem unset s s len r in rw (set_len, quick) (valid, refl, begins)
  | inr slow ↦
      let (valid, begins) =
        end_at-lem unset s (resized unset s len) len (resized-HasRoom unset s len v) in
      rw (set_len, slow) (valid, refl, begins)
]
