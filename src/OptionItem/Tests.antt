-- ===== src/OptionItem/Tests.antt =====
-- The theorems on OptionItem.c at an item by reference and at one by value.
use htop.Prelude.{◌≡◌, refl, Bool, true, false, not, some, [], ◌∷◌, arith}
use htop.Prelude.Int.{ℤ, pos, negsuc}
use htop.OptionItem.{Store}
use htop.OptionItem.Check.{CheckItem, Untouched, set_and_toggle_lem}
use htop.OptionItem.Check
use htop.OptionItem.Number.{NumberItem, InRange, step-InRange, steps_by_one, toggle-InRange}
use htop.OptionItem.Number

abbrev flags : Store Bool
flags a = false

abbrev check_item : CheckItem
check_item = record { text = b'c' ∷ []; value = false; ref = some 3 }

set_and_toggle_lem_example :
    let (s', c') = Check.set flags check_item true in
    let (t, d) = Check.toggle flags check_item in
    let (u, e) = Check.toggle t d in
    (Check.get s' c' ≡ true)
    × (Check.get t d ≡ not (Check.get flags check_item))
    × (Check.get u e ≡ Check.get flags check_item)
    × Untouched flags check_item s'
    × Untouched flags check_item t
    × (c'.ref ≡ check_item.ref)
    × (d.ref ≡ check_item.ref)
set_and_toggle_lem_example = set_and_toggle_lem flags check_item true

abbrev numbers : Store ℤ
numbers a = pos 7

abbrev number_item : NumberItem
number_item = record {
  text = b'n' ∷ [];
  value = pos 0;
  ref = some 3;
  scale = pos 0;
  low = negsuc 0;
  high = pos 7;
}

number_item-InRange : InRange numbers number_item
unfolding Number.get
number_item-InRange = (omega arith, omega arith)

get_run : Number.get numbers number_item ≡ pos 7
unfolding Number.get
get_run = refl
