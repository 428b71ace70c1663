-- ===== src/Vector.antt =====
-- Vector.c: the growable array of object pointers that panels, process lists and screens share.
-- A slot of the array is `none` until something is stored in it (the pointer is NULL there, or
-- what realloc left); slots at and past `items` keep stale pointers, as in the source.
-- An operation that deletes objects of an owning vector returns them in a list, in order.
pub mod Contents
pub mod Refine
pub mod Access
pub mod Splice
pub mod Sort
mod Tests
use htop.Prelude.{
  ℕ, zero, suc, ◌+◌, ◌-◌, ◌*◌, ◌/◌, Bool, true, false, not, Option, none, some, List, [], ◌∷◌, ◌++◌,
  ltb, leb, ◌==◌, ◌&&◌, if◌then◌else◌, length, get_or, set, take, drop, replicate,
}

pub record Vector {ℓ} (A : Type ℓ) : Type ℓ where
  pub array : List (Option A)
  pub array_size : ℕ
  pub growth_rate : ℕ
  pub items : ℕ
  pub owner : Bool

abbrev pub default_size : ℕ
default_size = 10

module _ {ℓ} {A : Type ℓ} where
  -- `size` is `none` for DEFAULT_SIZE.
  unfoldable pub new : Option ℕ → Bool → Vector A
  new none owner = record {
    array = replicate default_size none;
    array_size = default_size;
    growth_rate = default_size;
    items = 0;
    owner = owner;
  }
  new (some size) owner = record {
    array = replicate size none;
    array_size = size;
    growth_rate = size;
    items = 0;
    owner = owner;
  }

  -- The pointers of a run of slots that are not NULL.
  unfoldable pub non_null : List (Option A) → List A
  non_null [] = []
  non_null (none ∷ xs) = non_null xs
  non_null (some x ∷ xs) = x ∷ non_null xs

  -- `Vector_delete` frees the vector: what is left of it is the list of objects that it deletes.
  unfoldable pub delete : Vector A → List A
  unfolding non_null
  delete v = if v.owner then non_null (take v.items v.array) else []

  unfoldable pub all_set : List (Option A) → Bool
  all_set [] = true
  all_set (none ∷ xs) = false
  all_set (some x ∷ xs) = all_set xs

  -- The assertion on `items` is the first half, the loop over an owner's slots the second.
  unfoldable pub is_consistent : Vector A → Bool
  unfolding all_set
  is_consistent v =
      leb v.items v.array_size && (if v.owner then all_set (take v.items v.array) else true)

  unfoldable pub count_set : List (Option A) → ℕ
  count_set [] = 0
  count_set (none ∷ xs) = count_set xs
  count_set (some x ∷ xs) = count_set xs + 1

  unfoldable pub count : Vector A → ℕ
  unfolding count_set
  count v = count_set (take v.items v.array)

  -- `none` where an assertion of the source fails.
  unfoldable pub get : Vector A → ℕ → Option A
  get v idx = if ltb idx v.items then get_or v.array idx none else none

  unfoldable pub size : Vector A → ℕ
  size v = v.items

  unfoldable pub prune : Vector A → Vector A × List A
  unfolding delete
  prune v = (record v { items = 0 }, delete v)

  -- memmove of `n` slots from index `src` to index `dst` of one array.
  unfoldable pub memmove : List (Option A) → ℕ → ℕ → ℕ → List (Option A)
  memmove xs dst src n = take dst xs ++ (take n (drop src xs) ++ drop (dst + n) xs)

  -- xRealloc keeps the slots and adds fresh ones. Of a well-formed vector the assertions at both ends
  -- hold; `splice` calls it with `items` raised, and has its assertions written out.
  unfoldable pub check_array_size : Vector A → Vector A
  check_array_size v =
      if leb v.array_size v.items
      then record v {
        array = v.array ++ replicate (v.items + v.growth_rate - v.array_size) none;
        array_size = v.items + v.growth_rate;
      }
      else v

  unfoldable pub insert : Vector A → ℕ → A → Vector A
  unfolding memmove
  insert v idx a =
      let i = if ltb v.items idx then v.items else idx in
      let w = check_array_size v in
      let moved = if ltb i w.items then memmove w.array (i + 1) i (w.items - i) else w.array in
      record w { array = set moved i (some a); items = w.items + 1 }

  -- The source asserts `idx < items` and that the slot is not NULL.
  unfoldable pub take_item : Vector A → ℕ → Option A × Vector A
  unfolding memmove
  take_item v idx =
      let n = v.items - 1 in
      let moved = if ltb idx n then memmove v.array idx (idx + 1) (n - idx) else v.array in
      (get_or v.array idx none, record v { array = moved; items = n })

  -- The pointer that is returned, the vector, and what was deleted.
  unfoldable pub remove : Vector A → ℕ → Option A × Vector A × List A
  unfolding non_null
  remove v idx =
      let (removed, w) = take_item v idx in
      if v.owner then (none, w, non_null (removed ∷ [])) else (removed, w, [])

  -- Both moves exchange two neighbouring slots.
  unfoldable pub exchange : List (Option A) → ℕ → ℕ → List (Option A)
  exchange xs i j = set (set xs i (get_or xs j none)) j (get_or xs i none)

  unfoldable pub move_up : Vector A → ℕ → Vector A
  unfolding exchange
  move_up v idx = if idx == 0 then v else record v { array = exchange v.array idx (idx - 1) }

  unfoldable pub move_down : Vector A → ℕ → Vector A
  unfolding exchange
  move_down v idx =
      if idx + 1 == v.items then v else record v { array = exchange v.array idx (idx + 1) }

  unfoldable pub set_item : Vector A → ℕ → A → Vector A × List A
  unfolding non_null
  set_item v idx a =
      let w = check_array_size v in
      if leb w.items idx
      then (record w { array = set w.array idx (some a); items = idx + 1 }, [])
      else (
        record w { array = set w.array idx (some a) },
        if w.owner then non_null (get_or w.array idx none ∷ []) else [],
      )

  unfoldable pub add : Vector A → A → Vector A
  unfolding set_item
  add v a = (set_item v v.items a).0

  -- The loop from index `i` over the slots that are left; `none` is the result -1.
  unfoldable pub index_from : (A → Bool) → List (Option A) → ℕ → Option ℕ
  index_from same [] i = none
  index_from same (none ∷ xs) i = index_from same xs (i + 1)
  index_from same (some x ∷ xs) i = if same x then some i else index_from same xs (i + 1)

  -- `same o` is `compare(search, o) == 0`.
  unfoldable pub index_of : (A → Bool) → Vector A → Option ℕ
  unfolding index_from
  index_of same v = index_from same (take v.items v.array) 0

  -- for (j …) array[at + j] = from[j]
  unfoldable pub copy_into : List (Option A) → ℕ → List (Option A) → List (Option A)
  copy_into xs at [] = xs
  copy_into xs at (y ∷ ys) = copy_into (set xs at y) (at + 1) ys

  -- `none` where an assertion fails. The function raises `items` first: the consistency that
  -- `Vector_checkArraySize` asserts on entry is that of the raised vector `u`.
  unfoldable pub splice : Vector A → Vector A → Option (Vector A)
  unfolding copy_into is_consistent
  splice v from =
      let u : Vector A = record v { items = v.items + from.items } in
      let w = check_array_size u in
      if is_consistent v
        && (is_consistent from
            && (not (v.owner && from.owner) && (is_consistent u && is_consistent w)))
      then some (record w { array = copy_into w.array v.items (take from.items from.array) })
      else none
