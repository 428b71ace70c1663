-- ===== src/Hashtable/Tests.antt =====
-- Runs of Hashtable.c on a table of thirteen buckets with two keys of the same home, and its
-- theorems at them.
use htop.Prelude.{
  ℕ, ◌++◌, if◌then◌else◌, ◌≡◌, ◌⊎◌, ◌↔◌, ◌≤◌, ◌<◌, refl, subst, true, none, some, List, [], ◌∷◌,
  arith, ◌==◌,
}
use htop.Hashtable.{
  Table, make, get, insert, put, set_size, remove, grow, shrink, next_mod, next_prime, empty_item,
}
use htop.Hashtable.Invariant.{Has, IsValid, make-IsValid}
use htop.Hashtable.Get.{get-Has}
use htop.Hashtable.Insert.{Inserted}
use htop.Hashtable.Insert.Loop.{insert-Inserted}
use htop.Hashtable.Resize.{Resized, set_size-Resized}
use htop.Hashtable.Remove.{Dropped, given_up, remove-Dropped}
use htop.Hashtable.Put.{Stored, put-Stored}

abbrev fresh : Table ℕ
fresh = record {
  size = 13;
  buckets =
      empty_item ∷ empty_item ∷ empty_item ∷ empty_item ∷ empty_item ∷ empty_item ∷ empty_item
      ∷ empty_item ∷ empty_item ∷ empty_item ∷ empty_item ∷ empty_item ∷ empty_item ∷ [];
  items = 0;
  owner = true;
}

-- 18 has the home of 5 and goes to the bucket behind it.
abbrev one_key : Table ℕ
one_key = record fresh {
  buckets =
      empty_item
      ∷ empty_item
      ∷ empty_item
      ∷ empty_item
      ∷ empty_item
      ∷ record { key = 5; probe = 0; value = some 50 }
      ∷ empty_item
      ∷ empty_item
      ∷ empty_item
      ∷ empty_item
      ∷ empty_item
      ∷ empty_item
      ∷ empty_item
      ∷ [];
  items = 1;
}

abbrev two_keys : Table ℕ
two_keys = record fresh {
  buckets =
      empty_item
      ∷ empty_item
      ∷ empty_item
      ∷ empty_item
      ∷ empty_item
      ∷ record { key = 5; probe = 0; value = some 50 }
      ∷ record { key = 18; probe = 1; value = some 180 }
      ∷ empty_item
      ∷ empty_item
      ∷ empty_item
      ∷ empty_item
      ∷ empty_item
      ∷ empty_item
      ∷ [];
  items = 2;
}

make_run : make 13 true ≡ fresh
unfolding make
make_run = refl

put_run : put ◌==◌ fresh 5 50 ≡ some (one_key, [])
unfolding put grow insert
put_run = refl

put_again_run : put ◌==◌ one_key 18 180 ≡ some (two_keys, [])
unfolding put grow insert next_mod
put_again_run = refl

put-IsValid :
    (t r : Table ℕ) (key v : ℕ)
    → t.size ≡ 13
    → put ◌==◌ t key v ≡ some (r, [])
    → IsValid t
    → IsValid r
put-IsValid t r key v e run valid =
    let (r', freed, run', stored) =
      put-Stored ◌==◌ t key v valid (omega (arith, e)) (omega (arith, e)) in
    let same : r' ≡ r = cc in subst IsValid same stored.valid

fresh-IsValid : IsValid fresh
fresh-IsValid = subst IsValid make_run (make-IsValid 13 true (omega arith)).0

one_key-IsValid : IsValid one_key
one_key-IsValid = put-IsValid fresh one_key 5 50 refl put_run fresh-IsValid

two_keys-IsValid : IsValid two_keys
two_keys-IsValid = put-IsValid one_key two_keys 18 180 refl put_again_run one_key-IsValid

-- The removal of 5 shifts 18 back to its home; what is left is so little that the table shrinks.
remove_run :
    remove ◌==◌ two_keys 5
    ≡ some (
      record {
        size = 7;
        buckets =
            empty_item
            ∷ empty_item
            ∷ empty_item
            ∷ empty_item
            ∷ record { key = 18; probe = 0; value = some 180 }
            ∷ empty_item
            ∷ empty_item
            ∷ [];
        items = 1;
        owner = true;
      },
      none,
      50 ∷ [],
    )
unfolding remove shrink set_size next_prime insert
remove_run = refl

put-Stored_example :
    (r : Table ℕ) × (freed : List ℕ) × (put ◌==◌ one_key 18 180 ≡ some (r, freed))
    × Stored ◌==◌ one_key 18 180 r
put-Stored_example = put-Stored ◌==◌ one_key 18 180 one_key-IsValid (omega arith) (omega arith)

get-Has_example : (get two_keys 18 ≡ some 180) ↔ Has two_keys.buckets 18 180
get-Has_example = get-Has two_keys-IsValid 18 180

insert-Inserted_example :
    (r : Table ℕ) × (freed : List ℕ) × (insert ◌==◌ one_key 18 180 ≡ some (r, freed))
    × Inserted one_key 18 180 r
insert-Inserted_example = insert-Inserted ◌==◌ one_key 18 180 one_key-IsValid

set_size-Resized_example :
    (r : Table ℕ) × (freed : List ℕ) × (set_size ◌==◌ two_keys 26 ≡ some (r, freed))
    × Resized two_keys r
    × (((2 < 26) × (26 ≤ r.size)) ⊎ ((26 ≤ 2) × (r ≡ two_keys)))
set_size-Resized_example = set_size-Resized ◌==◌ two_keys 26 two_keys-IsValid (omega arith)

remove-Dropped_example :
    (r : Table ℕ) × (freed : List ℕ) × (remove ◌==◌ two_keys 5
      ≡ some
          (r, if true then none else get two_keys 5, given_up two_keys (get two_keys 5) ++ freed))
    × Dropped ◌==◌ two_keys 5 r
remove-Dropped_example = remove-Dropped ◌==◌ two_keys 5 two_keys-IsValid (omega arith)
