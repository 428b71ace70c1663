-- ===== src/Hashtable/Put.antt =====
-- `Hashtable_put` against the map that the table stands for.
use htop.Prelude.{
  ℕ, ◌+◌, ◌*◌, ◌/◌, ◌≤◌, ◌<◌, ◌≡◌, ◌≢◌, refl, sym, ap, ◌∙◌, inl, inr, Bool, false, some, List, [],
  ◌++◌, arith, ltb, ◌==◌, if◌then◌else◌, Bool-cases, Option-cases,
}
use htop.Hashtable.{Table, size_max, get, grow, put}
use htop.Hashtable.Primes.{max_prime}
use htop.Hashtable.Invariant.{Has, IsValid}
use htop.Hashtable.Get.{get_sound, get_complete}
use htop.Hashtable.Insert.Loop.{insert-Inserted}
use htop.Hashtable.Resize.{Resized, set_size-Resized, Inserted-IsValid}

module _ {ℓ} {V : Type ℓ} where
  -- Tables with the same entries answer alike.
  pub get-eq-get :
      (t r : Table V) (k : ℕ)
      → IsValid t
      → IsValid r
      → ((v : V) → Has t.buckets k v → Has r.buckets k v)
      → ((v : V) → Has r.buckets k v → Has t.buckets k v)
      → get r k ≡ get t k
  get-eq-get t r k vt vr to from = elim (Option-cases (get t k)) [
    | inr (v, e) ↦ get_complete vr k v (to v (get_sound vt k v e)) ∙ sym e
    | inl e ↦ elim (Option-cases (get r k)) [
      | inl e' ↦ e' ∙ sym e
      | inr (v, e') ↦ let there = get_complete vt k v (from v (get_sound vr k v e')) in cc
    ]
  ]

module _ {ℓ} {V : Type ℓ} (same : V → V → Bool) where
  -- The growth in front of an insertion ends, keeps the entries, and leaves room for one more.
  grow-Resized :
      (t : Table V)
      → IsValid t
      → 4 ≤ t.size
      → 2 * t.size ≤ max_prime
      → (r : Table V) × (freed : List V) × (grow same t ≡ some (r, freed))
        × Resized t r
        × (r.items + 1 < r.size)
  unfolding grow
  grow-Resized t valid big small = elim (Bool-cases (ltb (7 * t.size) (10 * t.items))) [
    | inr light ↦ (
      t,
      [],
      rw light,
      record { valid = valid; owner = refl; entries = λ k v. (λ x. x, λ x. x); few = omega arith },
      ground (arith, valid.room),
    )
    | inl heavy ↦
        let (r, freed, run, resized, larger) = set_size-Resized same t (2 * t.size) valid small in
        let room = valid.room in
        let fits : ltb (size_max / 2) t.size ≡ false = ground arith in
        let room' : r.items + 1 < r.size = elim larger [
          | inl (_, le) ↦ omega (arith, le, resized.few)
          | inr (few, _) ↦ absurd (omega (arith, few, room))
        ] in
        (r, freed, rw (heavy, fits) run, resized, room')
  ]

  -- What `Hashtable_put` makes of a table.
  pub record Stored (t : Table V) (key : ℕ) (v : V) (r : Table V) : Type ℓ where
    pub valid : IsValid r
    pub owner : r.owner ≡ t.owner
    pub reads : (k : ℕ) → get r k ≡ (if k == key then some v else get t k)

  -- `Hashtable_put` on a valid table of at least four buckets, twice which is at most the last prime,
  -- ends without a fatal error, in a valid table in which the key reads as the new value and every
  -- other key reads as before.
  pub put-Stored :
      (t : Table V) (key : ℕ) (v : V)
      → IsValid t
      → 4 ≤ t.size
      → 2 * t.size ≤ max_prime
      → (r : Table V) × (freed : List V) × (put same t key v ≡ some (r, freed)) × Stored t key v r
  unfolding put
  put-Stored t key v valid big small =
      let (g, freed, run, resized, room) = grow-Resized t valid big small in
      let (r, more, run', f) = insert-Inserted same g key v resized.valid in
      let valid' = Inserted-IsValid g r key v resized.valid room f in
      (
        r,
        freed ++ more,
        rw (put, run, run'),
        record {
          valid = valid';
          owner = f.owner ∙ resized.owner;
          reads = λ k. elim (Bool-cases (k == key)) [
            | inl hit ↦
                let e : k ≡ key = ground arith in
                rw hit (ap (get r) e ∙ get_complete valid' key v f.has)
            | inr miss ↦
                let ne : k ≢ key = ground arith in
                rw miss (
                  get-eq-get t r k valid valid' (λ w h. f.keeps k w ne ((resized.entries k w).0 h))
                    (λ w h. (resized.entries k w).1 (f.only k w ne h)))
          ];
        },
      )
