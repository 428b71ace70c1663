-- ===== src/Text.antt =====
-- XUtils.c: the helpers on strings. A string is the list of its characters before the NUL; a result
-- of NULL or a fatal error of the allocator is not modelled.
pub mod Trim
pub mod Split
pub mod Read
mod Tests
use htop.Prelude.{
  ℕ, zero, suc, ◌+◌, ◌-◌, Bool, true, false, not, Option, none, some, List, [], ◌∷◌, ◌++◌, ltb, leb,
  ◌==◌, ◌&&◌, ◌||◌, ◌⊎◌, inl, inr, if◌then◌else◌, length, take, drop, get_or, replicate,
}

unfoldable pub cat : List ℕ → List ℕ → List ℕ
cat s1 s2 = s1 ++ s2

-- The characters that `String_trim` drops.
abbrev pub is_blank : ℕ → Bool
is_blank c = c == b' ' || c == 9 || c == 10

-- `while (in[0] == …) in++`
unfoldable pub skip_blanks : List ℕ → List ℕ
skip_blanks [] = []
skip_blanks (c ∷ cs) = if is_blank c then skip_blanks cs else c ∷ cs

-- The second loop: the length that is left when it stops at `len` or below.
unfoldable pub trim_length : List ℕ → ℕ → ℕ
trim_length s zero = 0
trim_length s (suc len) = if is_blank (get_or s len 0) then trim_length s len else suc len

unfoldable pub trim : List ℕ → List ℕ
unfolding skip_blanks trim_length
trim s = let rest = skip_blanks s in take (trim_length rest (length rest)) rest

-- The text in front of the first `sep`, and what is behind it: `strchr` and the step past it.
unfoldable pub until : ℕ → List ℕ → Option (List ℕ × List ℕ)
until sep [] = none
until sep (c ∷ cs) =
    if c == sep
    then some ([], cs)
    else elim (until sep cs) [ none ↦ none | some (field, rest) ↦ some (c ∷ field, rest) ]

-- Each round of the loop takes at least one character; `none` where the fuel runs out.
unfoldable pub split_loop : ℕ → ℕ → List ℕ → Option (List (List ℕ))
unfolding until
split_loop zero sep s = none
split_loop (suc fuel) sep s = elim (until sep s) [
  | none ↦ elim s [ [] ↦ some [] | c ∷ cs ↦ some ((c ∷ cs) ∷ []) ]
  | some (field, rest) ↦ elim (split_loop fuel sep rest) [
    | none ↦ none
    | some fields ↦ some (field ∷ fields)
  ]
]

unfoldable pub split : ℕ → List ℕ → Option (List (List ℕ))
unfolding split_loop
split sep s = split_loop (length s + 1) sep s

-- The loop of `String_getToken`: what is matched of the word number `want`, with the state before the
-- next character. The source's buffer has 50 characters and is not checked. `eof` is (char)EOF.
unfoldable pub token_loop : ℕ → ℕ → Bool → ℕ → List ℕ → List ℕ
token_loop eof want in_word count [] = []
token_loop eof want in_word count (c ∷ cs) =
    let now = not (c == b' ') in
    let count' = if not in_word && now then count + 1 else count in
    let rest = token_loop eof want now count' cs in
    if now && count' == want && not (c == 10) && not (c == eof) then c ∷ rest else rest

unfoldable pub get_token : ℕ → List ℕ → ℕ → List ℕ
unfolding token_loop
get_token eof line want = token_loop eof want false 0 line

-- The characters copied; their number is what is returned, and a NUL follows them.
unfoldable pub copy_loop : ℕ → List ℕ → List ℕ
copy_loop zero src = []
copy_loop (suc n) [] = []
copy_loop (suc n) (c ∷ cs) = c ∷ copy_loop n cs

unfoldable pub safe_strncpy : List ℕ → ℕ → List ℕ
unfolding copy_loop
safe_strncpy src size = copy_loop (size - 1) src

-- The array after `xReallocArrayZero`; `fresh` is what realloc leaves in new elements.
unfoldable pub realloc_array_zero : (ℕ → List ℕ) → List ℕ → ℕ → List ℕ
realloc_array_zero fresh old new_members =
    let previous = length old in
    if previous == new_members
    then old
    else (let grown = take new_members (old ++ fresh (new_members - previous)) in
        if ltb previous new_members
        then take previous grown ++ replicate (new_members - previous) 0
        else grown)

-- What a call of `read` gives: some bytes (none at the end of the file), or an error.
pub data ReadResult : Type 0 where
  bytes : List ℕ → ReadResult
  interrupted : ReadResult
  failed : ℕ → ReadResult

-- What `readfd_internal` ends with: the number of bytes and the buffer's contents before the NUL, or
-- the error number that is returned negated.
pub data ReadEnd : Type 0 where
  read_bytes : ℕ → List ℕ → ReadEnd
  read_error : ℕ → ReadEnd

-- read(2) is the kernel's: `S` is what it knows of the open file, `read` a call that asks for a number
-- of bytes.
module _ {ℓ} {S : Type ℓ} (read : S → ℕ → ReadResult × S) where
  -- The loop; `count` bytes have room, `done` are read. `none` where the fuel runs out.
  unfoldable pub read_loop : ℕ → S → ℕ → List ℕ → Option ReadEnd
  read_loop zero s count done = none
  read_loop (suc fuel) s count done =
      let (res, t) = read s count in
      elim res [
        | interrupted ↦ read_loop fuel t count done
        | failed e ↦ some (read_error e)
        | bytes bs ↦
            let count' = count - length bs in
            let done' = done ++ bs in
            let rest = read_loop fuel t count' done' in
            if count' == 0 || length bs == 0 then some (read_bytes (length done') done') else rest
      ]

  -- `einval` is EINVAL.
  unfoldable pub read_fd : ℕ → ℕ → S → ℕ → Option ReadEnd
  unfolding read_loop
  read_fd einval fuel s zero = some (read_error einval)
  read_fd einval fuel s (suc count) = read_loop fuel s count []

  -- `xReadfile` and `xReadfileat`: `opened` is the errno of a failed open, or the open file.
  unfoldable pub read_file : ℕ → ℕ → ℕ ⊎ S → ℕ → Option ReadEnd
  unfolding read_fd
  read_file einval fuel opened size = elim opened [
    | inl e ↦ some (read_error e)
    | inr s ↦ read_fd einval fuel s size
  ]
