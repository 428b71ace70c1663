-- ===== src/RichString.antt =====
-- RichString.c: strings with attributes, kept in the object itself while they are short, else in
-- memory of their own. This is the variant without wide characters. A cell has an attribute and a
-- character of eight bits; `unset` is what memory holds that was not written yet.
pub mod Length
pub mod Written
mod Tests
use htop.Prelude.{
  ℕ, zero, suc, ◌+◌, ◌-◌, ◌<◌, ◌≡◌, min, Bool, true, false, Option, none, some, List, [], ◌∷◌, ◌++◌,
  length, take, drop, set, replicate, get_or, map, ltb, leb, ◌==◌, ◌&&◌, if◌then◌else◌,
}

pub record Cell : Type 0 where
  pub attr : ℕ
  pub ch : ℕ

-- `heap` is `none` while `chptr` points to `chstr`.
pub record RichString : Type 0 where
  pub chlen : ℕ
  pub chstr : List Cell
  pub heap : Option (List Cell)
  pub highlight_attr : ℕ

-- RICHSTRING_MAXLEN
abbrev pub max_len : ℕ
max_len = 350

abbrev pub nul : Cell
nul = record { attr = 0; ch = 0 }

-- What `chptr` points to, and a write of it.
abbrev pub buffer_of : List Cell → Option (List Cell) → List Cell
buffer_of chstr none = chstr
buffer_of chstr (some h) = h

abbrev pub buffer : RichString → List Cell
buffer s = buffer_of s.chstr s.heap

unfoldable pub put_buffer : RichString → List Cell → RichString
put_buffer s cells = elim s.heap [
  | none ↦ record s { chstr = cells }
  | some h ↦ record s { heap = some cells }
]

-- The loops that write cells one after the other.
unfoldable pub fill : List Cell → ℕ → List Cell → List Cell
fill cells i [] = cells
fill cells i (c ∷ cs) = fill (set cells i c) (i + 1) cs

abbrev pub shown_as : ℕ → ℕ → Cell
shown_as attrs c = record { attr = attrs; ch = if leb 32 c then c else b'?' }

module _ (unset : Cell) where
  -- The memory after `RichString_extendLen` has moved or resized it.
  unfoldable pub resized : RichString → ℕ → RichString
  resized s len =
      if leb s.chlen max_len
      then if ltb max_len len
        then record s {
          heap = some (take s.chlen (buffer s) ++ replicate (len + 1 - s.chlen) unset);
        }
        else s
      else if leb len max_len
      then record s { chstr = take len (buffer s) ++ drop len s.chstr; heap = none }
      else record s {
        heap = some (take (len + 1) (buffer s) ++ replicate (len + 1 - length (buffer s)) unset);
      }

  -- `RichString_setChar` of the NUL, and the new length.
  unfoldable pub end_at : RichString → ℕ → RichString
  unfolding put_buffer
  end_at s len = record (put_buffer s (set (buffer s) len nul)) { chlen = len }

  unfoldable pub extend_len : RichString → ℕ → RichString
  unfolding resized end_at
  extend_len s len = end_at (resized s len) len

  unfoldable pub set_len : RichString → ℕ → RichString
  unfolding extend_len end_at
  set_len s len = if ltb len max_len && ltb s.chlen max_len then end_at s len else extend_len s len

  -- `none` where the new length is negative, so that the NUL is written in front of the buffer.
  unfoldable pub rewind : RichString → ℕ → Option RichString
  unfolding set_len
  rewind s count = if leb count s.chlen then some (set_len s (s.chlen - count)) else none

  -- `RichString_writeFromWide`, of the first characters of a string.
  unfoldable pub write_from : RichString → ℕ → List ℕ → ℕ → RichString
  unfolding set_len fill put_buffer
  write_from s attrs text from =
      let t = set_len s (from + length text) in
      put_buffer t (set (fill (buffer t) from (map (shown_as attrs) text)) (from + length text) nul)

  unfoldable pub append : RichString → ℕ → List ℕ → RichString
  unfolding write_from
  append s attrs text = write_from s attrs text s.chlen

  unfoldable pub appendn : RichString → ℕ → List ℕ → ℕ → RichString
  unfolding write_from
  appendn s attrs text len = write_from s attrs (take len text) s.chlen

  unfoldable pub write : RichString → ℕ → List ℕ → RichString
  unfolding write_from
  write s attrs text = write_from s attrs text 0

  -- The string, and the columns that are written, which are also the characters.
  unfoldable pub appendn_columns : RichString → ℕ → List ℕ → ℕ → ℕ → RichString × ℕ
  unfolding write_from
  appendn_columns s attrs text len columns =
      (write_from s attrs (take (min len columns) text) s.chlen, min len columns)

  unfoldable pub append_chr : RichString → ℕ → ℕ → ℕ → RichString
  unfolding set_len fill put_buffer
  append_chr s attrs c count =
      let t = set_len s (s.chlen + count) in
      put_buffer t (fill (buffer t) s.chlen (replicate count (record { attr = attrs; ch = c })))

-- The loop of `RichString_findChar` over the characters that are left, the first one at index `i`.
unfoldable pub find_loop : ℕ → List Cell → ℕ → Option ℕ
find_loop c [] i = none
find_loop c (x ∷ xs) i = if x.ch == c then some i else find_loop c xs (i + 1)

unfoldable pub find_char : RichString → ℕ → ℕ → Option ℕ
unfolding find_loop
find_char s c start = find_loop c (drop start (take s.chlen (buffer s))) start

unfoldable pub delete : RichString → RichString
delete s = if ltb max_len s.chlen then record s { heap = none } else s
