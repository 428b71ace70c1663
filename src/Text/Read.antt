-- ===== src/Text/Read.antt =====
-- `readfd_internal` reads the first bytes of a file, as many as its buffer has room for.
use htop.Prelude.{
  ℕ, zero, suc, ◌+◌, ◌-◌, ◌≤◌, ◌<◌, ◌≡◌, refl, sym, ap, subst, ◌∙◌, ◌⊎◌, inl, inr, true, Option,
  some, List, [], ◌∷◌, ◌++◌, arith, ◌==◌, ◌||◌, Bool-cases, length, length-append, take,
}
use mathlib.Core.List.{append_assoc, append-nil}
use htop.Text.{
  ReadResult, bytes, interrupted, failed, ReadEnd, read_bytes, read_error, read_loop, read_fd,
}

-- What read(2) promises of a file that is not written meanwhile: `left` are the bytes behind its
-- position, `patience` bounds the signals that still come. A call that asks for room gives no bytes
-- only at the end.
pub record IsRead {ℓ} {S : Type ℓ} (read : S → ℕ → ReadResult × S) (left : S → List ℕ)
    (patience : S → ℕ) : Type ℓ where
  pub given :
      (s : S) (n : ℕ) (bs : List ℕ)
      → (read s n).0 ≡ bytes bs
      → (left s ≡ bs ++ left (read s n).1) × (length bs ≤ n) × (patience (read s n).1 ≤ patience s)
  pub at_end : (s : S) (n : ℕ) → (read s (suc n)).0 ≡ bytes [] → left s ≡ []
  pub signal :
      (s : S) (n : ℕ)
      → (read s n).0 ≡ interrupted
      → (left (read s n).1 ≡ left s) × (patience (read s n).1 < patience s)

ReadResult-cases :
    (r : ReadResult)
    → ((bs : List ℕ) × (r ≡ bytes bs)) ⊎ (r ≡ interrupted) ⊎ ((e : ℕ) × (r ≡ failed e))
ReadResult-cases (bytes bs) = inl (bs, refl)
ReadResult-cases interrupted = inr (inl refl)
ReadResult-cases (failed e) = inr (inr (e, refl))

take_over :
    (n : ℕ) (xs ys : List ℕ) → length xs ≤ n → take n (xs ++ ys) ≡ xs ++ take (n - length xs) ys
take_over n [] ys h = ap (λ m. take m ys) (omega arith)
take_over zero (x ∷ xs) ys h = absurd (omega arith)
take_over (suc n) (x ∷ xs) ys h =
    ap (λ l. x ∷ l) (take_over n xs ys (omega arith) ∙ ap (λ m. xs ++ take m ys) (omega arith))

take_none : (n : ℕ) (l : List ℕ) → (n ≡ 0) ⊎ (l ≡ []) → take n l ≡ []
take_none n l (inl zeroth) = rw zeroth refl
take_none zero l (inr empty) = refl
take_none (suc n) l (inr empty) = rw empty refl

module _ {ℓ} {S : Type ℓ} (read : S → ℕ → ReadResult × S) (left : S → List ℕ) (patience : S → ℕ)
    (ok : IsRead read left patience) where
  -- The text, or an error with the number that some call gives.
  abbrev pub Ends : List ℕ → Option ReadEnd → Type ℓ
  Ends text o =
      (o ≡ some (read_bytes (length text) text))
      ⊎ ((s : S) × (n : ℕ) × (e : ℕ) × ((read s n).0 ≡ failed e) × (o ≡ some (read_error e)))

  -- The loop stops where the buffer is full or the file has ended.
  ended :
      (s : S) (n : ℕ) (bs : List ℕ)
      → (read s n).0 ≡ bytes bs
      → (n - length bs == 0 || length bs == 0) ≡ true
      → (n - length bs ≡ 0) ⊎ (left (read s n).1 ≡ [])
  ended s n (b ∷ bs) gives stop = inl (ground (arith, stop))
  ended s zero [] gives stop = inl refl
  ended s (suc n) [] gives stop = inr (sym (ok.given s (suc n) [] gives).0 ∙ ok.at_end s n gives)

  read_loop-Ends :
      (fuel : ℕ) (s : S) (count : ℕ) (done : List ℕ)
      → patience s + length (left s) < fuel
      → Ends (done ++ take count (left s)) (read_loop read fuel s count done)
  unfolding read_loop
  read_loop-Ends zero s count done h = absurd (omega arith)
  read_loop-Ends (suc fuel) s count done h =
      let t = (read s count).1 in
      elim (ReadResult-cases (read s count).0) [
        | inr (inl sig) ↦
            let (same, sooner) = ok.signal s count sig in
            subst (λ l. Ends (done ++ take count l) (read_loop read (suc fuel) s count done)) same
              (rw (read_loop, sig)
                (read_loop-Ends fuel t count done (omega (arith, sooner, h, ap length same))))
        | inr (inr (e, fails)) ↦ inr (s, count, e, fails, rw (read_loop, fails) refl)
        | inl (bs, gives) ↦
            let (parts, within, calm) = ok.given s count bs gives in
            let n = length bs in
            let text : done ++ take count (left s) ≡ (done ++ bs) ++ take (count - n) (left t) =
              rw parts (
                ap (λ x. done ++ x) (take_over count bs (left t) within)
                ∙ sym (append_assoc done bs (take (count - n) (left t)))) in
            elim (Bool-cases (count - n == 0 || n == 0)) [
              | inl stop ↦
                  let last : take (count - n) (left t) ≡ [] =
                    take_none (count - n) (left t) (ended s count bs gives stop) in
                  let all : done ++ take count (left s) ≡ done ++ bs =
                    text ∙ ap (λ x. (done ++ bs) ++ x) last ∙ append-nil (done ++ bs) in
                  rw all (inl (rw (read_loop, gives, stop) refl))
              | inr go ↦
                  let rest : Ends ((done ++ bs) ++ take (count - n) (left t))
                      (read_loop read fuel t (count - n) (done ++ bs)) =
                    read_loop-Ends fuel t (count - n) (done ++ bs)
                      (ground (arith, go, ap length parts, length-append bs (left t), calm, h)) in
                  rw (text, read_loop, gives, go) rest
            ]
      ]

  -- Into a buffer of a positive size `readfd_internal` reads the bytes of the file up to its end, at
  -- most one less than the size, and returns their number; it fails only with the error of a call
  -- that fails otherwise than by a signal. Its fuel is the bytes left and the signals that come.
  pub read_fd-Ends :
      (einval fuel : ℕ) (s : S) (size : ℕ)
      → 0 < size
      → patience s + length (left s) < fuel
      → Ends (take (size - 1) (left s)) (read_fd read einval fuel s size)
  unfolding read_fd
  read_fd-Ends einval fuel s zero h f = absurd (omega arith)
  read_fd-Ends einval fuel s (suc count) h f =
      let room : count ≡ suc count - 1 = omega arith in
      subst (λ n. Ends (take n (left s)) (read_loop read fuel s count [])) room
        (read_loop-Ends fuel s count [] f)
