-- ===== src/OptionItem/Number.antt =====
-- The numbers of OptionItem.c. `int`s are ℤ, far from the limits of C's type.
use htop.Prelude.{ℕ, ◌≡◌, ◌∙◌, Option, none, some, List, if◌then◌else◌, arith}
use htop.Prelude.Int.{ℤ, pos, ◌+ℤ◌, ◌-ℤ◌, ◌≤ℤ◌, leb_ℤ, clamp_ℤ, clamp_bounds}
use htop.OptionItem.{Store, write}

pub record NumberItem : Type 0 where
  pub text : List ℕ
  pub value : ℤ
  pub ref : Option ℕ
  pub scale : ℤ
  pub low : ℤ
  pub high : ℤ

unfoldable pub new_by_ref : List ℕ → ℕ → ℤ → ℤ → ℤ → NumberItem
new_by_ref text a scale low high = record {
  text = text;
  value = pos 0;
  ref = some a;
  scale = scale;
  low = low;
  high = high;
}

unfoldable pub new_by_val : List ℕ → ℤ → ℤ → ℤ → ℤ → NumberItem
new_by_val text value scale low high = record {
  text = text;
  value = clamp_ℤ value low high;
  ref = none;
  scale = scale;
  low = low;
  high = high;
}

unfoldable pub get : Store ℤ → NumberItem → ℤ
get s n = elim n.ref [ some a ↦ s a | none ↦ n.value ]

-- The write that each operation ends in, through the reference or to the item.
unfoldable pub put : Store ℤ → NumberItem → ℤ → Store ℤ × NumberItem
put s n v = elim n.ref [ some a ↦ (write s a v, n) | none ↦ (s, record n { value = v }) ]

unfoldable pub decrease : Store ℤ → NumberItem → Store ℤ × NumberItem
decrease s n = put s n (clamp_ℤ (get s n -ℤ pos 1) n.low n.high)

unfoldable pub increase : Store ℤ → NumberItem → Store ℤ × NumberItem
increase s n = put s n (clamp_ℤ (get s n +ℤ pos 1) n.low n.high)

unfoldable pub toggle : Store ℤ → NumberItem → Store ℤ × NumberItem
toggle s n = put s n (if leb_ℤ n.high (get s n) then n.low else get s n +ℤ pos 1)

abbrev pub InRange : Store ℤ → NumberItem → Type 0
InRange s n = (n.low ≤ℤ get s n) × (get s n ≤ℤ n.high)

get-put :
    (s : Store ℤ) (n : NumberItem) (v : ℤ)
    → let (s', n') = put s n v in (get s' n' ≡ v) × (n'.low ≡ n.low) × (n'.high ≡ n.high)
unfolding get put
get-put s n v = ground arith

-- Whatever the value was, `NumberItem_decrease` and `NumberItem_increase` leave one within the
-- item's limits.
pub step-InRange :
    (s : Store ℤ) (n : NumberItem)
    → n.low ≤ℤ n.high
    → InRange (decrease s n).0 (decrease s n).1 × InRange (increase s n).0 (increase s n).1
unfolding decrease increase
step-InRange s n h =
    let down = clamp_ℤ (get s n -ℤ pos 1) n.low n.high in
    let up = clamp_ℤ (get s n +ℤ pos 1) n.low n.high in
    (
      in_range s n down (clamp_bounds _ n.low n.high h),
      in_range s n up (clamp_bounds _ n.low n.high h),
    )
  where
    in_range :
        (s : Store ℤ) (n : NumberItem) (v : ℤ)
        → (n.low ≤ℤ v) × (v ≤ℤ n.high)
        → InRange (put s n v).0 (put s n v).1
    in_range s n v h = let (e, l, u) = get-put s n v in rw (e, l, u) h

-- Within the limits the two move the value by one, and stop at the limits.
pub steps_by_one :
    (s : Store ℤ) (n : NumberItem) (v : ℤ)
    → get s n ≡ v
    → n.low ≤ℤ v
    → v ≤ℤ n.high
    → (get (increase s n).0 (increase s n).1 ≡ (if leb_ℤ n.high v then n.high else v +ℤ pos 1))
      × (get (decrease s n).0 (decrease s n).1 ≡ (if leb_ℤ v n.low then n.low else v -ℤ pos 1))
unfolding decrease increase
steps_by_one s n v e lo hi = (
  (get-put s n _).0 ∙ above n.low n.high v _ lo hi e,
  (get-put s n _).0 ∙ below n.low n.high v _ lo hi e,
)
  where
    above :
        (low high v w : ℤ)
        → low ≤ℤ v
        → v ≤ℤ high
        → w ≡ v
        → clamp_ℤ (w +ℤ pos 1) low high ≡ (if leb_ℤ high v then high else v +ℤ pos 1)
    above low high v w lo hi e = rw e (ground arith)

    below :
        (low high v w : ℤ)
        → low ≤ℤ v
        → v ≤ℤ high
        → w ≡ v
        → clamp_ℤ (w -ℤ pos 1) low high ≡ (if leb_ℤ v low then low else v -ℤ pos 1)
    below low high v w lo hi e = rw e (ground arith)

-- `NumberItem_toggle` keeps a value within the limits there: one more, or the lower limit from the
-- upper one on.
pub toggle-InRange :
    (s : Store ℤ) (n : NumberItem)
    → InRange s n
    → InRange (toggle s n).0 (toggle s n).1
      × (get (toggle s n).0 (toggle s n).1
          ≡ (if leb_ℤ n.high (get s n) then n.low else get s n +ℤ pos 1))
unfolding toggle
toggle-InRange s n h =
    let v = if leb_ℤ n.high (get s n) then n.low else get s n +ℤ pos 1 in
    let (e, l, u) = get-put s n v in (rw (e, l, u) (in_limits n.low n.high (get s n) h.0 h.1), e)
  where
    in_limits :
        (low high v : ℤ)
        → low ≤ℤ v
        → v ≤ℤ high
        → let w = if leb_ℤ high v then low else v +ℤ pos 1 in (low ≤ℤ w) × (w ≤ℤ high)
    in_limits low high v lo hi = ground arith
