-- ===== src/RichString/Tests.antt =====
-- A short string, and one that gets memory of its own.
use htop.Prelude.{
  ◌+◌, some, ℕ, ◌+◌, ◌≡◌, refl, none, List, [], ◌∷◌, ◌++◌, map, arith, take, replicate,
}
use htop.RichString.{
  Cell, RichString, nul, max_len, buffer, shown_as, write_from, append_chr, rewind,
}
use htop.RichString.Length.{IsValid}
use htop.RichString.Written.{cells, write_from-cells, rewind-cells, append_chr-cells}

abbrev blank : RichString
blank = record { chlen = 0; chstr = replicate (max_len + 1) nul; heap = none; highlight_attr = 0 }

blank-IsValid : IsValid blank
blank-IsValid = record { inline = refl; fits = omega arith; place = refl }

abbrev word : List ℕ
word = b'h' ∷ b't' ∷ 9 ∷ b'p' ∷ []

write_run :
    cells (write_from nul blank 7 word 0) ≡ map (shown_as 7) (b'h' ∷ b't' ∷ b'?' ∷ b'p' ∷ [])
unfolding write_from htop.RichString.set_len htop.RichString.extend_len htop.RichString.resized
    htop.RichString.end_at htop.RichString.put_buffer
write_run = refl

write_from-cells_example :
    IsValid (write_from nul blank 7 word 0)
    × (cells (write_from nul blank 7 word 0) ≡ take 0 (cells blank) ++ map (shown_as 7) word)
write_from-cells_example = write_from-cells nul blank 7 word 0 blank-IsValid (omega arith)

append_chr-cells_example :
    IsValid (append_chr nul blank 7 32 400)
    × (cells (append_chr nul blank 7 32 400)
        ≡ cells blank ++ replicate 400 (record { attr = 7; ch = 32 }))
append_chr-cells_example = append_chr-cells nul blank 7 32 400 blank-IsValid

abbrev line : RichString
line = append_chr nul blank 7 32 400

line-IsValid : IsValid line
line-IsValid = (append_chr-cells nul blank 7 32 400 blank-IsValid).0

line-chlen : line.chlen ≡ 400
unfolding append_chr
line-chlen = refl

rewind-cells_example :
    (t : RichString) × (rewind nul line 100 ≡ some t)
    × IsValid t
    × (t.chlen + 100 ≡ line.chlen)
    × (cells t ≡ take t.chlen (cells line))
rewind-cells_example = rewind-cells nul line 100 line-IsValid (omega (arith, line-chlen))
