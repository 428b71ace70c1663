-- ===== src/Hashtable.antt =====
-- Hashtable.c: the open-addressing table with Robin Hood insertion and backward-shift deletion.
-- A bucket whose `value` pointer is NULL is free, whatever its key and probe still say. Values are
-- pointers, so they have an equality test of their own, `same`, and what an owning table frees is
-- returned in a list. Loops that the source bounds by its assertion `index != origIndex` take fuel.
pub mod Walk
pub mod Invariant
mod Write
pub mod Get
pub mod Insert
pub mod Primes
pub mod Resize
pub mod Put
pub mod Remove
mod Tests
use htop.Prelude.{
  ℕ, zero, suc, ◌+◌, ◌-◌, ◌*◌, ◌/◌, ◌%◌, ◌^◌, Bool, true, false, not, Option, none, some, List, [],
  ◌∷◌, ◌++◌, ltb, leb, ◌==◌, ◌&&◌, if◌then◌else◌, length, get_or, set, replicate,
}

pub record Item {ℓ} (V : Type ℓ) : Type ℓ where
  pub key : ℕ
  pub probe : ℕ
  pub value : Option V

pub record Table {ℓ} (V : Type ℓ) : Type ℓ where
  pub size : ℕ
  pub buckets : List (Item V)
  pub items : ℕ
  pub owner : Bool

-- Each entry is the greatest prime below a power of two.
abbrev pub primes : List ℕ
primes =
    2 ∷ 3 ∷ 7 ∷ 13 ∷ 31 ∷ 61 ∷ 127 ∷ 251 ∷ 509 ∷ 1021 ∷ 2039 ∷ 4093 ∷ 8191 ∷ 16381 ∷ 32749 ∷ 65521
    ∷ 131071 ∷ 262139 ∷ 524287 ∷ 1048573 ∷ 2097143 ∷ 4194301 ∷ 8388593 ∷ 16777213 ∷ 33554393
    ∷ 67108859 ∷ 134217689 ∷ 268435399 ∷ 536870909 ∷ 1073741789 ∷ 2147483647 ∷ 4294967291
    ∷ 8589934583 ∷ 17179869143 ∷ 34359738337 ∷ 68719476731 ∷ 137438953447 ∷ []

abbrev pub size_max : ℕ
size_max = 2 ^ 64 - 1

unfoldable pub first_at_least : ℕ → List ℕ → Option ℕ
first_at_least n [] = none
first_at_least n (p ∷ ps) =
    if ltb p size_max then (if leb n p then some p else first_at_least n ps) else none

-- `none` is the fatal error.
unfoldable pub next_prime : ℕ → Option ℕ
unfolding first_at_least
next_prime n = first_at_least n primes

-- The index behind `i` in `insert` and in `Hashtable_remove`.
unfoldable pub next_mod : ℕ → ℕ → ℕ
next_mod size i = (i + 1) % size

-- The index behind `i` in `Hashtable_get`.
unfoldable pub next : ℕ → ℕ → ℕ
next size i = if not (i + 1 == size) then i + 1 else 0

module _ {ℓ} {V : Type ℓ} where
  abbrev pub empty_item : Item V
  empty_item = record { key = 0; probe = 0; value = none }

  unfoldable pub make : ℕ → Bool → Table V
  make size owner = record {
    size = size;
    buckets = replicate size empty_item;
    items = 0;
    owner = owner;
  }

  unfoldable pub new : ℕ → Bool → Option (Table V)
  unfolding make
  new zero owner = some (make 13 owner)
  new (suc n) owner = elim (next_prime (suc n)) [ none ↦ none | some p ↦ some (make p owner) ]

  unfoldable pub occupied : Item V → Bool
  occupied b = elim b.value [ none ↦ false | some v ↦ true ]

  abbrev pub bucket : List (Item V) → ℕ → Item V
  bucket bs i = get_or bs i empty_item

  unfoldable pub values : List (Item V) → List V
  values [] = []
  values (b ∷ bs) = elim b.value [ none ↦ values bs | some v ↦ v ∷ values bs ]

  -- The cleared table, and what its owner frees.
  unfoldable pub clear : Table V → Table V × List V
  unfolding values
  clear t = (
    record t { buckets = replicate t.size empty_item; items = 0 },
    if t.owner then values t.buckets else [],
  )

  -- What is freed with the table.
  unfoldable pub delete : Table V → List V
  unfolding clear
  delete t = (clear t).1

  unfoldable pub get_loop : ℕ → List (Item V) → ℕ → ℕ → ℕ → ℕ → Option V
  get_loop zero bs size index key probe = none
  get_loop (suc fuel) bs size index key probe =
      let b = bucket bs index in
      elim b.value [
        | none ↦ none
        | some v ↦ elim (b.key == key) [
          | true ↦ some v
          | false ↦ elim (ltb b.probe probe) [
            | true ↦ none
            | false ↦ get_loop fuel bs size (next size index) key (probe + 1)
          ]
        ]
      ]

  unfoldable pub get : Table V → ℕ → Option V
  unfolding get_loop
  get t key = get_loop (t.size + 1) t.buckets t.size (key % t.size) key 0

module _ {ℓ} {V : Type ℓ} (same : V → V → Bool) where
  -- `none` where the fuel runs out; else the table and what was freed.
  unfoldable pub insert_loop : ℕ → Table V → ℕ → ℕ → ℕ → V → Option (Table V × List V)
  insert_loop zero t index key probe v = none
  insert_loop (suc fuel) t index key probe v =
      let b = bucket t.buckets index in
      let item : Item V = record { key = key; probe = probe; value = some v } in
      elim b.value [
        | none ↦ some (record t { items = t.items + 1; buckets = set t.buckets index item }, [])
        | some old ↦ elim (b.key == key) [
          | true ↦ some (
            record t { buckets = set t.buckets index (record b { value = some v }) },
            if t.owner && not (same old v) then old ∷ [] else [],
          )
          | false ↦ elim (ltb b.probe probe) [
            | true ↦
                insert_loop fuel (record t { buckets = set t.buckets index item })
                  (next_mod t.size index) b.key (b.probe + 1) old
            | false ↦ insert_loop fuel t (next_mod t.size index) key (probe + 1) v
          ]
        ]
      ]

  unfoldable pub insert : Table V → ℕ → V → Option (Table V × List V)
  unfolding insert_loop
  insert t key v = insert_loop (t.size + 1) t (key % t.size) key 0 v

  -- The loop over the old buckets.
  unfoldable pub rehash : List (Item V) → Table V → List V → Option (Table V × List V)
  rehash [] t freed = some (t, freed)
  rehash (b ∷ bs) t freed = elim b.value [
    | none ↦ rehash bs t freed
    | some v ↦ elim (insert t b.key v) [
      | none ↦ none
      | some (t', more) ↦ rehash bs t' (freed ++ more)
    ]
  ]

  unfoldable pub set_size : Table V → ℕ → Option (Table V × List V)
  unfolding rehash make
  set_size t size =
      if leb size t.items
      then some (t, [])
      else elim (next_prime size) [ none ↦ none | some p ↦ rehash t.buckets (make p t.owner) [] ]

  -- The growth test and its fatal error.
  unfoldable pub grow : Table V → Option (Table V × List V)
  grow t =
      if ltb (7 * t.size) (10 * t.items)
      then if ltb (size_max / 2) t.size then none else set_size t (2 * t.size)
      else some (t, [])

  unfoldable pub put : Table V → ℕ → V → Option (Table V × List V)
  put t key v = elim (grow t) [
    | none ↦ none
    | some (t', freed) ↦ elim (insert t' key v) [
      | none ↦ none
      | some (t'', more) ↦ some (t'', freed ++ more)
    ]
  ]

module _ {ℓ} {V : Type ℓ} where
  -- The backward shift: the entry at `index` is overwritten by its successor, while that has left
  -- its home; then the last one is emptied.
  unfoldable pub shift_loop : ℕ → List (Item V) → ℕ → ℕ → Option (List (Item V))
  unfolding occupied next_mod
  shift_loop zero bs size index = none
  shift_loop (suc fuel) bs size index =
      let after = next_mod size index in
      let b = bucket bs after in
      elim (occupied b && ltb 0 b.probe) [
        | true ↦ shift_loop fuel (set bs index (record b { probe = b.probe - 1 })) size after
        | false ↦ some (set bs index (record (bucket bs index) { value = none }))
      ]

  -- The table without the key, the value that it had, and whether it was found.
  unfoldable pub remove_loop : ℕ → Table V → ℕ → ℕ → ℕ → Option (Table V × Option V)
  unfolding shift_loop
  remove_loop zero t index key probe = none
  remove_loop (suc fuel) t index key probe =
      let b = bucket t.buckets index in
      if not (occupied b) then some (t, none) else elim (b.key == key) [
        | true ↦ elim (shift_loop (t.size + 1) t.buckets t.size index) [
          | none ↦ none
          | some bs ↦ some (record t { buckets = bs; items = t.items - 1 }, b.value)
        ]
        | false ↦ elim (ltb b.probe probe) [
          | true ↦ some (t, none)
          | false ↦ remove_loop fuel t (next_mod t.size index) key (probe + 1)
        ]
      ]

  -- The values of the buckets in use, in order: what `Hashtable_foreach` calls its function on.
  unfoldable pub entries : List (Item V) → List (ℕ × V)
  entries [] = []
  entries (b ∷ bs) = elim b.value [ none ↦ entries bs | some v ↦ (b.key, v) ∷ entries bs ]

module _ {ℓ} {V : Type ℓ} (same : V → V → Bool) where
  -- The test on the load factor at the end.
  unfoldable pub shrink : Table V → Option (Table V × List V)
  shrink t = if ltb (8 * t.items) t.size then set_size same t (t.size / 2) else some (t, [])

  -- The table, what is returned (NULL from an owner), and what is freed.
  unfoldable pub remove : Table V → ℕ → Option (Table V × Option V × List V)
  unfolding remove_loop
  remove t key = elim (remove_loop (t.size + 1) t (key % t.size) key 0) [
    | none ↦ none
    | some (t', found) ↦
        let gone : List V = elim found [ none ↦ [] | some v ↦ if t.owner then v ∷ [] else [] ] in
        elim (shrink t') [
          | none ↦ none
          | some (t'', more) ↦ some (t'', if t.owner then none else found, gone ++ more)
        ]
  ]
