-- ===== src/Text/Tests.antt =====
-- Runs of the string helpers, and their theorems at small strings.
use htop.Prelude.{
  zero, suc, ◌≤◌, ◌<◌, ap, ◌∙◌, length, length-take, take-append-drop, sym, take, drop, ℕ, ◌≡◌,
  refl, true, some, List, [], ◌∷◌, ◌++◌, arith,
}
use htop.Text.{
  trim, split, get_token, safe_strncpy, ReadResult, bytes, interrupted, failed, read_bytes, read_fd,
}
use htop.Text.Trim.{all_blank, Trimmed, trim-parts}
use htop.Text.Split.{IsSplit, split-IsSplit}
use htop.Text.Read.{IsRead, Ends, read_fd-Ends}

abbrev padded : List ℕ
padded = b' ' ∷ b'a' ∷ b' ' ∷ b'b' ∷ 10 ∷ []

trim_run : trim padded ≡ b'a' ∷ b' ' ∷ b'b' ∷ []
unfolding trim
trim_run = refl

split_run : split b' ' padded ≡ some ([] ∷ (b'a' ∷ []) ∷ (b'b' ∷ 10 ∷ []) ∷ [])
unfolding split
split_run = refl

get_token_run : get_token 255 padded 2 ≡ b'b' ∷ []
unfolding get_token
get_token_run = refl

safe_strncpy_run : safe_strncpy padded 3 ≡ b' ' ∷ b'a' ∷ []
unfolding safe_strncpy
safe_strncpy_run = refl

trim-parts_example :
    (pre : List ℕ) × (post : List ℕ) × (padded ≡ pre ++ (trim padded ++ post))
    × (all_blank pre ≡ true)
    × (all_blank post ≡ true)
    × Trimmed (trim padded)
trim-parts_example = trim-parts padded

split-IsSplit_example : IsSplit b' ' padded (split b' ' padded)
split-IsSplit_example = split-IsSplit b' ' padded

-- A file that is read behind some signals: how many still come, and the bytes that are left.
abbrev calls : ℕ × List ℕ → ℕ → ReadResult × (ℕ × List ℕ)
calls (zero, file) n = (bytes (take n file), (0, drop n file))
calls (suc k, file) n = (interrupted, (k, file))

abbrev contents : ReadResult → List ℕ
contents (bytes bs) = bs
contents interrupted = []
contents (failed e) = []

calls-given :
    (s : ℕ × List ℕ) (n : ℕ) (bs : List ℕ)
    → (calls s n).0 ≡ bytes bs
    → (s.1 ≡ bs ++ (calls s n).1.1) × (length bs ≤ n) × ((calls s n).1.0 ≤ s.0)
calls-given (zero, file) n bs gives =
    let got : take n file ≡ bs = ap contents gives in
    (
      sym (take-append-drop n file) ∙ ap (λ l. l ++ drop n file) got,
      omega (arith, ap length got, length-take n file),
      omega arith,
    )
calls-given (suc k, file) n bs gives = cc

calls-at_end : (s : ℕ × List ℕ) (n : ℕ) → (calls s (suc n)).0 ≡ bytes [] → s.1 ≡ []
calls-at_end (zero, []) n gives = refl
calls-at_end (zero, b ∷ file) n gives = cc (ap contents gives)
calls-at_end (suc k, file) n gives = cc

calls-signal :
    (s : ℕ × List ℕ) (n : ℕ)
    → (calls s n).0 ≡ interrupted
    → ((calls s n).1.1 ≡ s.1) × ((calls s n).1.0 < s.0)
calls-signal (zero, file) n sig = cc
calls-signal (suc k, file) n sig = (refl, omega arith)

calls-IsRead : IsRead calls (λ s. s.1) (λ s. s.0)
calls-IsRead = record { given = calls-given; at_end = calls-at_end; signal = calls-signal }

read_run :
    read_fd calls 22 9 (2, b'a' ∷ b'b' ∷ b'c' ∷ []) 3 ≡ some (read_bytes 2 (b'a' ∷ b'b' ∷ []))
unfolding read_fd
read_run = refl

read_fd-Ends_example :
    Ends calls
      (λ s. s.1)
      (λ s. s.0)
      calls-IsRead
      (b'a' ∷ b'b' ∷ [])
      (read_fd calls 22 9 (2, b'a' ∷ b'b' ∷ b'c' ∷ []) 3)
read_fd-Ends_example =
    read_fd-Ends calls (λ s. s.1) (λ s. s.0) calls-IsRead 22 9 (2, b'a' ∷ b'b' ∷ b'c' ∷ []) 3
      (omega arith) (omega arith)
