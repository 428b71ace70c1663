-- ===== src/Vector/Refine.antt =====
-- The operations of a vector that change it, against the operations on the list that it holds.
use htop.Prelude.{
  ℕ, suc, ◌+◌, ◌-◌, ◌≤◌, ◌<◌, ◌≡◌, refl, sym, ap, ◌∙◌, inl, inr, false, Option, none, some, List,
  [], ◌∷◌, ◌++◌, map, arith, ltb, leb, if◌then◌else◌, Bool-cases, length, get_elem?, get_elem?-lt,
  get_or, set, take, drop, replicate, insert_at, remove_at, length-take, length-drop, length-append,
  length-replicate, length-set, length-map, take-append, take-set,
}
use native.Mathlib.Numerals.{add-one}
use htop.Vector.{
  Vector, non_null, memmove, check_array_size, insert, take_item, remove, set_item, add,
}
use htop.Vector.Contents.{
  Holds, insert_at-map, remove_at-map, set-map, append-map, open_gap, close_gap, remove_at-last,
  set-end, insert_at-end, get_or-take,
}

module _ {ℓ} {A : Type ℓ} where
  pub length-Holds : {xs : List A} {v : Vector A} → Holds xs v → length xs ≡ v.items
  length-Holds {xs} {v} h =
      omega
        (arith, ap length h.held, length-map some xs, length-take v.items v.array, h.sized, h.fits)

  pub get_or-map-some : (xs : List A) (i : ℕ) → get_or (map some xs) i none ≡ get_elem? xs i
  get_or-map-some [] i = refl
  get_or-map-some (x ∷ xs) ℕ.zero = refl
  get_or-map-some (x ∷ xs) (suc i) = get_or-map-some xs i

  -- A read of a slot in use.
  pub slot-Holds :
      {xs : List A} {v : Vector A} (i : ℕ)
      → Holds xs v
      → i < v.items
      → get_or v.array i none ≡ get_elem? xs i
  slot-Holds {xs} {v} i h lt =
      sym (get_or-take v.items i v.array none lt)
      ∙ ap (λ l. get_or l i none) h.held
      ∙ get_or-map-some xs i

  -- After `Vector_checkArraySize` the same objects are held, and one more fits.
  pub check_array_size-Holds :
      {xs : List A} {v : Vector A}
      → Holds xs v
      → Holds xs (check_array_size v)
        × (v.items < (check_array_size v).array_size)
        × ((check_array_size v).items ≡ v.items)
        × ((check_array_size v).owner ≡ v.owner)
  unfolding check_array_size
  check_array_size-Holds {xs} {v} h =
      let more : List (Option A) = replicate (v.items + v.growth_rate - v.array_size) none in
      ground (
        arith,
        h.sized,
        h.held,
        length-append v.array more,
        length-replicate {A = Option A} (v.items + v.growth_rate - v.array_size) none,
        take-append v.items v.array more,
      )

  length-memmove :
      (xs : List (Option A)) (dst src n : ℕ)
      → dst + n ≤ length xs
      → src + n ≤ length xs
      → length (memmove xs dst src n) ≡ length xs
  unfolding memmove
  length-memmove xs dst src n h k = omega (
    arith,
    length-append (take dst xs) (take n (drop src xs) ++ drop (dst + n) xs),
    length-append (take n (drop src xs)) (drop (dst + n) xs),
    length-take dst xs,
    length-take n (drop src xs),
    length-drop src xs,
    length-drop (dst + n) xs,
  )

  -- The write of `Vector_insert` once there is room.
  insert_room :
      {xs : List A} {w : Vector A} (idx i : ℕ) (a : A)
      → Holds xs w
      → w.items < w.array_size
      → i ≡ (if ltb w.items idx then w.items else idx)
      → Holds (insert_at idx a xs) (record w {
        array =
            set
              (if ltb i w.items then memmove w.array (i + 1) i (w.items - i) else w.array)
              i
              (some a);
        items = w.items + 1;
      })
  unfolding memmove
  insert_room {xs} {w} idx i a h room e = elim (Bool-cases (ltb i w.items)) [
    | inl below ↦
        let same : i ≡ idx = ground arith in
        record {
          sized =
              rw (below, length-set)
                (length-memmove w.array (i + 1) i (w.items - i) (ground (arith, h.sized))
                    (ground (arith, h.sized))
                  ∙ h.sized);
          fits = omega arith;
          grows = h.grows;
          held =
              rw (below, add-one, add-one)
                (open_gap i (w.items - i) w.items (some a) w.array _ (ground arith)
                    (omega (arith, h.sized))
                  ∙ rw (h.held, same) (insert_at-map idx a xs));
        }
    | inr above ↦ record {
      sized = rw (above, length-set) h.sized;
      fits = omega arith;
      grows = h.grows;
      held =
          let last : i ≡ w.items = ground arith in
          let past : w.items ≤ idx = ground arith in
          rw (above, add-one, last)
            (set-end w.items (some a) w.array (omega (arith, h.sized))
              ∙ rw h.held (append-map xs (a ∷ []))
              ∙ ap (map some) (sym (insert_at-end idx a xs (omega (arith, length-Holds h)))));
    }
  ]

  -- `Vector_insert` puts the object in front of index `idx` of the list, or at its end where
  -- `idx` is past it, and keeps the vector well formed.
  pub insert-Holds :
      {xs : List A} {v : Vector A} (idx : ℕ) (a : A)
      → Holds xs v
      → Holds (insert_at idx a xs) (insert v idx a)
  unfolding insert
  insert-Holds {xs} {v} idx a h =
      let (held, room, same, _) = check_array_size-Holds h in
      insert_room idx _ a held (rw same room) (rw same refl)

  -- The array after the shift of `Vector_take`, where `n` objects are left.
  take_shift :
      {xs : List A} {v : Vector A} (idx n : ℕ)
      → Holds xs v
      → v.items ≡ suc n
      → idx ≤ n
      → Holds (remove_at idx xs) (record v {
        array = if ltb idx n then memmove v.array idx (idx + 1) (n - idx) else v.array;
        items = n;
      })
  unfolding memmove
  take_shift {xs} {v} idx n h e le =
      let held : take (suc n) v.array ≡ map some xs = rw e at h.held in
      let inside : n < length v.array = omega (arith, h.sized, h.fits) in
      elim (Bool-cases (ltb idx n)) [
        | inl below ↦ record {
          sized = rw below (
              length-memmove v.array idx (idx + 1) (n - idx) (ground arith) (ground arith)
              ∙ h.sized);
          fits = omega (arith, h.fits);
          grows = h.grows;
          held =
              rw (below, add-one)
                (close_gap idx (n - idx) n v.array _ (ground arith) inside
                  ∙ rw held (remove_at-map idx xs));
        }
        | inr above ↦ record {
          sized = rw above h.sized;
          fits = omega (arith, h.fits);
          grows = h.grows;
          held =
              let last : idx ≡ n = ground arith in
              rw above
                (sym (remove_at-last n v.array inside) ∙ rw (held, ← last) (remove_at-map idx xs));
        }
      ]

  -- `Vector_take` returns the object at index `idx`, and what is left is the list without it.
  pub take_item-Holds :
      {xs : List A} {v : Vector A} (idx : ℕ)
      → Holds xs v
      → idx < v.items
      → ((take_item v idx).0 ≡ get_elem? xs idx) × Holds (remove_at idx xs) (take_item v idx).1
  unfolding take_item
  take_item-Holds {xs} {v} idx h lt =
      (slot-Holds idx h lt, take_shift idx (v.items - 1) h (omega arith) (omega arith))

  -- `Vector_remove` takes the object at `idx` out of the list. An owner deletes it and returns
  -- NULL; any other vector returns it and deletes nothing.
  pub remove-Holds :
      {xs : List A} {v : Vector A} (idx : ℕ) (x : A)
      → Holds xs v
      → get_elem? xs idx ≡ some x
      → let (result, w, deleted) = remove v idx in
        Holds (remove_at idx xs) w
        × (result ≡ (if v.owner then none else some x))
        × (deleted ≡ (if v.owner then x ∷ [] else []))
  unfolding remove non_null
  remove-Holds {xs} {v} idx x h e =
      let lt : idx < v.items = omega (arith, get_elem?-lt xs idx e, length-Holds h) in
      let (found, rest) = take_item-Holds idx h lt in
      elim (Bool-cases v.owner) [
        | inl own ↦ simp own (rest, refl, ap (λ o. non_null (o ∷ [])) (found ∙ e))
        | inr other ↦ simp other (rest, found ∙ e, refl)
      ]

  -- `Vector_set` at an index in use replaces the object there, which an owner deletes.
  pub set_item-Holds :
      {xs : List A} {v : Vector A} (idx : ℕ) (a x : A)
      → Holds xs v
      → get_elem? xs idx ≡ some x
      → let (w, deleted) = set_item v idx a in
        Holds (set xs idx a) w × (deleted ≡ (if v.owner then x ∷ [] else []))
  unfolding set_item non_null
  set_item-Holds {xs} {v} idx a x h e =
      let lt : idx < v.items = omega (arith, get_elem?-lt xs idx e, length-Holds h) in
      let (k, room, same, own) = check_array_size-Holds h in
      let w = check_array_size v in
      let inside : leb w.items idx ≡ false = rw same (ground arith) in
      let found : get_or w.array idx none ≡ some x = slot-Holds idx k (rw same lt) ∙ e in
      rw (inside, found, own)
        (
          record {
            sized = length-set w.array idx (some a) ∙ k.sized;
            fits = k.fits;
            grows = k.grows;
            held = take-set w.array w.items idx (some a) ∙ rw k.held (set-map xs idx a);
          },
          refl,
        )

  set_item-past :
      (v : Vector A) (a : A)
      → (check_array_size v).items ≡ v.items
      → set_item v v.items a ≡ (
        record (check_array_size v) {
          array = set (check_array_size v).array v.items (some a);
          items = v.items + 1;
        },
        [],
      )
  unfolding set_item
  set_item-past v a e = ground arith

  -- `Vector_add` appends: the vector grows by exactly the new object, and nothing is deleted.
  pub add-Holds :
      {xs : List A} {v : Vector A} (a : A)
      → Holds xs v
      → Holds (xs ++ a ∷ []) (add v a) × ((set_item v v.items a).1 ≡ [])
  unfolding add
  add-Holds {xs} {v} a h =
      let (k, room, same, _) = check_array_size-Holds h in
      let w = check_array_size v in
      rw (add, set_item-past v a same)
        (
          record {
            sized = length-set w.array v.items (some a) ∙ k.sized;
            fits = omega (arith, room);
            grows = k.grows;
            held = rw add-one (
                set-end v.items (some a) w.array (omega (arith, k.sized, room, same))
                ∙ ap (λ n. take n w.array ++ some a ∷ []) (sym same)
                ∙ rw k.held (append-map xs (a ∷ [])));
          },
          refl,
        )
