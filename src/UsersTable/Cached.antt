-- ===== src/UsersTable/Cached.antt =====
-- The table in front of getpwuid answers as getpwuid does.
use htop.Prelude.{
  ℕ, ◌*◌, ◌≤◌, ◌≡◌, refl, sym, ap, ◌∙◌, inl, inr, Bool, Option, some, arith, ◌==◌, Bool-cases,
  Option-cases,
}
use htop.Hashtable.{Table, get}
use htop.Hashtable.Invariant.{IsValid}
use htop.Hashtable.Primes.{max_prime}
use htop.Hashtable.Put.{put-Stored}
use htop.UsersTable.{get_ref}

module _ {ℓ} {V : Type ℓ} (same : V → V → Bool) (lookup : ℕ → Option V) where
  -- The table is valid, and what it holds is what the lookup gives.
  pub record IsCache (t : Table V) : Type ℓ where
    pub valid : IsValid t
    pub agrees : (uid : ℕ) (name : V) → get t uid ≡ some name → lookup uid ≡ some name

  -- Over a valid table of at least four buckets, and not too large to double, that agrees with the
  -- lookup, `UsersTable_getRef` answers as the lookup does, whether the name is in the table or not,
  -- and leaves a table that agrees again.
  pub get_ref-IsCache :
      (t : Table V) (uid : ℕ)
      → IsCache t
      → 4 ≤ t.size
      → 2 * t.size ≤ max_prime
      → (r : Table V) × (get_ref same lookup t uid ≡ some (lookup uid, r)) × IsCache r
  unfolding get_ref
  get_ref-IsCache t uid c big small = elim (Option-cases (get t uid)) [
    | inr (name, e) ↦ (t, rw (get_ref, e, c.agrees uid name e) refl, c)
    | inl e ↦ elim (Option-cases (lookup uid)) [
      | inl l ↦ (t, rw (get_ref, e, l) refl, c)
      | inr (name, l) ↦
          let (r, freed, run, stored) = put-Stored same t uid name c.valid big small in
          (
            r,
            rw (get_ref, e, l, run) refl,
            record {
              valid = stored.valid;
              agrees = λ k other h. elim (Bool-cases (k == uid)) [
                | inl hit ↦
                    let at : k ≡ uid = ground arith in
                    let reads : get r k ≡ some name = rw hit at (stored.reads k) in
                    ap lookup at ∙ l ∙ sym reads ∙ h
                | inr miss ↦
                    let reads : get r k ≡ get t k = rw miss at (stored.reads k) in
                    c.agrees k other (sym reads ∙ h)
              ];
            },
          )
    ]
  ]
