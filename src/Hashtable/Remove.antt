-- ===== src/Hashtable/Remove.antt =====
-- `Hashtable_remove`: the search for the key, the backward shift and the shrinking of the table.
pub mod Gap
pub mod Shift
pub mod Close
pub mod Loop
pub mod Search
use htop.Prelude.{
  ℕ, zero, suc, ◌+◌, ◌-◌, ◌*◌, ◌/◌, ◌%◌, ◌≤◌, ◌<◌, ◌≡◌, ◌≢◌, refl, sym, ap, subst, ◌∙◌, ◌⊎◌, ◌↔◌,
  inl, inr, Bool, true, false, Option, none, some, List, [], ◌∷◌, ◌++◌, arith, ltb, ◌==◌,
  Bool-cases, Option-cases, if◌then◌else◌,
}
use htop.Hashtable.{Table, bucket, get, remove_loop, shrink, set_size, remove}
use htop.Hashtable.Walk.{walk, walk_reaches}
use htop.Hashtable.Invariant.{Has, IsValid, free_bucket}
use htop.Hashtable.Primes.{max_prime}
use htop.Hashtable.Get.{get_complete, get_sound}
use htop.Hashtable.Resize.{Resized, set_size-Resized}
use htop.Hashtable.Put.{get-eq-get}
use htop.Hashtable.Remove.Search.{Removed, remove_loop-Removed}

module _ {ℓ} {V : Type ℓ} where
  -- What an owner frees of the value that was found.
  abbrev pub given_up : Table V → Option V → List V
  given_up t none = []
  given_up t (some v) = if t.owner then v ∷ [] else []

module _ {ℓ} {V : Type ℓ} (same : V → V → Bool) where
  shrink-Resized :
      (t : Table V)
      → IsValid t
      → t.size ≤ max_prime
      → (r : Table V) × (freed : List V) × (shrink same t ≡ some (r, freed)) × Resized t r
  unfolding shrink
  shrink-Resized t valid small = elim (Bool-cases (ltb (8 * t.items) t.size)) [
    | inr loaded ↦ (
      t,
      [],
      rw loaded refl,
      record { valid = valid; owner = refl; entries = λ k v. (λ x. x, λ x. x); few = omega arith },
    )
    | inl light ↦
        let (r, freed, run, resized, larger) =
          set_size-Resized same t (t.size / 2) valid (omega arith) in
        (r, freed, rw light run, resized)
  ]

  -- What `Hashtable_remove` leaves: a table that has the key no more and answers as before for all
  -- others.
  pub record Dropped (t : Table V) (key : ℕ) (r : Table V) : Type ℓ where
    pub valid : IsValid r
    pub owner : r.owner ≡ t.owner
    pub reads : (k : ℕ) → get r k ≡ (if k == key then none else get t k)

  search-Removed :
      (t : Table V) (key : ℕ)
      → IsValid t
      → (r : Table V) × (found : Option V) × (remove_loop (t.size + 1) t (key % t.size) key 0
          ≡ some (r, found))
        × Removed t key r found
  unfolding walk
  search-Removed t key valid =
      let r = valid.layout in
      let (e, inside, free) =
        free_bucket t.buckets (omega (arith, valid.counted, valid.room, r.sized)) in
      let start : key % t.size < t.size = omega (arith, r.pos) in
      let (d, few, reached) = walk_reaches t.size (key % t.size) e start (omega (arith, r.sized)) in
      remove_loop-Removed (t.size + 1) (key % t.size) key 0 d t valid refl start
        (λ j v a. omega arith) (ap (λ i. (bucket t.buckets i).value) reached ∙ free) (omega arith)

  Removed-Dropped :
      (t m r : Table V) (key : ℕ) (found : Option V)
      → IsValid t
      → Removed t key m found
      → Resized m r
      → Dropped t key r
  Removed-Dropped t m r key found valid f g = record {
    valid = g.valid;
    owner = g.owner ∙ f.owner;
    reads = λ k. elim (Bool-cases (k == key)) [
      | inl hit ↦ elim (Option-cases (get r k)) [
        | inl e ↦ rw hit e
        | inr (v, e) ↦
            let kept = (f.keeps k v).0 ((g.entries k v).1 (get_sound g.valid k v e)) in
            absurd (kept.0 (ground (arith, hit)))
      ]
      | inr miss ↦
          let ne : k ≢ key = ground arith in
          rw miss (
            get-eq-get t r k valid g.valid (λ v h. (g.entries k v).0 ((f.keeps k v).1 (ne, h)))
              (λ v h. ((f.keeps k v).0 ((g.entries k v).1 h)).1))
    ];
  }

  -- `Hashtable_remove` on a valid table, no larger than the last prime, ends without a fatal error.
  -- The key is gone from the table, which is valid, and every other key reads as before; what is
  -- returned is the key's value, or NULL from an owner, and what is freed
  -- begins with the owner's value.
  pub remove-Dropped :
      (t : Table V) (key : ℕ)
      → IsValid t
      → t.size ≤ max_prime
      → (r : Table V) × (freed : List V) × (remove same t key
          ≡ some (r, if t.owner then none else get t key, given_up t (get t key) ++ freed))
        × Dropped t key r
  unfolding remove
  remove-Dropped t key valid small =
      let (m, found, run, f) = search-Removed t key valid in
      let (r, freed, run', g) = shrink-Resized m f.valid (omega (arith, f.size)) in
      (
        r,
        freed,
        rw (remove, run, run')
            (ap (λ o. some (r, if t.owner then none else o, given_up t o ++ freed)) f.found_was),
        Removed-Dropped t m r key found valid f g,
      )
