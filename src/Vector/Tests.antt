-- ===== src/Vector/Tests.antt =====
-- Runs of Vector.c on small vectors, and its theorems at them.
use htop.Prelude.{ℕ, ◌≡◌, refl, true, false, none, some, List, [], ◌∷◌, arith, leb, ◌==◌, insert_at}
use htop.Vector.{Vector, all_set, non_null, check_array_size, insert, take_item, index_of, splice}
use htop.Vector.Contents.{Holds, slots}
use htop.Vector.Refine.{insert-Holds}
use htop.Vector.Splice.{splice-Holds, splice_breaks_assertion}
use htop.Vector.Sort.{
  partition, quick_sort, slot_le, quick_sort_custom_compare, insertion_sort_vector,
}
use htop.Vector.Sort.Quick.{IsPreorder}
use htop.Vector.Sort.OfVector.{
  SortsTo, quick_sort_custom_compare-SortsTo, insertion_sort_vector-SortsTo,
}

abbrev two : List ℕ
two = 7 ∷ 5 ∷ []

abbrev two_items : Vector ℕ
two_items = record {
  array = some 7 ∷ some 5 ∷ some 9 ∷ [];
  array_size = 3;
  growth_rate = 3;
  items = 2;
  owner = true;
}

abbrev shared_items : Vector ℕ
shared_items = record two_items { owner = false }

two_items-Holds : Holds two two_items
two_items-Holds = record { sized = refl; fits = omega arith; grows = omega arith; held = refl }

shared_items-Holds : Holds two shared_items
shared_items-Holds = record { sized = refl; fits = omega arith; grows = omega arith; held = refl }

-- An insertion in front of the last item; what a search finds; the slots after the sort.
insert_run : (insert two_items 1 8).array ≡ some 7 ∷ some 8 ∷ some 5 ∷ []
unfolding insert check_array_size
insert_run = refl

take_run :
    take_item two_items 0
    ≡ (some 7, record two_items { array = some 5 ∷ some 5 ∷ some 9 ∷ []; items = 1 })
unfolding take_item
take_run = refl

sort_run : (quick_sort_custom_compare leb two_items).array ≡ some 5 ∷ some 7 ∷ some 9 ∷ []
unfolding quick_sort_custom_compare quick_sort partition slot_le
sort_run = refl

insert-Holds_example : Holds (insert_at 1 8 two) (insert two_items 1 8)
insert-Holds_example = insert-Holds 1 8 two_items-Holds

index_of_run : index_of (λ x. x == 5) two_items ≡ some 1
unfolding index_of
index_of_run = refl

index_of_run_none : index_of (λ x. x == 6) two_items ≡ none
unfolding index_of
index_of_run_none = refl

abbrev one_item : Vector ℕ
one_item = record shared_items { items = 1 }

one_item-Holds : Holds (7 ∷ []) one_item
one_item-Holds = record { sized = refl; fits = omega arith; grows = omega arith; held = refl }

splice-Holds_example :
    (w : Vector ℕ) × (splice two_items one_item ≡ some w) × Holds (7 ∷ 5 ∷ 7 ∷ []) w
unfolding all_set
splice-Holds_example =
    splice-Holds two_items-Holds one_item-Holds (omega arith) refl (λ owner. refl)

splice_breaks_assertion_example : splice two_items shared_items ≡ none
splice_breaks_assertion_example =
    splice_breaks_assertion two_items-Holds shared_items-Holds (omega arith)

leb-IsPreorder : IsPreorder leb
leb-IsPreorder = record { total = λ a b h. ground arith; trans = λ a b c h k. ground arith }

abbrev three : List ℕ
three = 3 ∷ 1 ∷ 2 ∷ []

quick_sort_custom_compare-SortsTo_example :
    let w = quick_sort_custom_compare leb two_items in
    SortsTo leb-IsPreorder two two_items w (non_null (slots w))
quick_sort_custom_compare-SortsTo_example =
    quick_sort_custom_compare-SortsTo leb-IsPreorder two_items-Holds

insertion_sort_vector-SortsTo_example :
    let w = insertion_sort_vector leb two_items in
    SortsTo leb-IsPreorder two two_items w (non_null (slots w))
insertion_sort_vector-SortsTo_example = insertion_sort_vector-SortsTo leb-IsPreorder two_items-Holds
