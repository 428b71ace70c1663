-- ===== src/Hashtable/Insert/Loop.antt =====
-- `insert` ends, keeps the invariant, and changes the entry of its key alone.
use htop.Prelude.{
  ℕ, zero, suc, ◌+◌, ◌%◌, ◌<◌, ◌≡◌, ◌≢◌, refl, sym, ap, ◌∙◌, inl, inr, Bool, true, false, Option,
  none, some, List, [], ◌∷◌, ◌&&◌, not, if◌then◌else◌, arith, ltb, ◌==◌, Bool-cases, Option-cases,
  set,
}
use htop.Hashtable.{Item, Table, bucket, next, next_mod, insert_loop, insert}
use htop.Hashtable.Walk.{walk, next_mod-eq-next, walk_reaches}
use htop.Hashtable.Invariant.{IsValid, free_bucket}
use htop.Hashtable.Write.{written_other}
use htop.Hashtable.Insert.{Inserted, Carries, item_of, free-Inserted, match-Inserted}
use htop.Hashtable.Insert.Carry.{swapped, swapped-Carries, swapped-Inserted, past-Carries}

module _ {ℓ} {V : Type ℓ} (same : V → V → Bool) where
  -- The loop ends in a table that has the entry inserted.
  abbrev Ends : Table V → ℕ → V → Option (Table V × List V) → Type ℓ
  Ends t key v o = (r : Table V) × (freed : List V) × (o ≡ some (r, freed)) × Inserted t key v r

  module _ (fuel : ℕ) (t : Table V) (index key probe : ℕ) (v : V) where
    abbrev b : Item V
    b = bucket t.buckets index

    abbrev result : Option (Table V × List V)
    result = insert_loop same (suc fuel) t index key probe v

    free_round :
        b.value ≡ none
        → result
          ≡ some (
            record t { items = t.items + 1; buckets = set t.buckets index (item_of key probe v) },
            [],
          )
    unfolding insert_loop
    free_round e = rw (insert_loop, e)

    match_round :
        (old : V)
        → b.value ≡ some old
        → b.key == key ≡ true
        → (freed : List V) × (result
            ≡ some
                (record t { buckets = set t.buckets index (record b { value = some v }) }, freed))
    unfolding insert_loop
    match_round old e k =
        (if t.owner && not (same old v) then old ∷ [] else [], rw (insert_loop, e, k))

    swap_round :
        (old : V)
        → b.value ≡ some old
        → b.key == key ≡ false
        → ltb b.probe probe ≡ true
        → result
          ≡ insert_loop same fuel
              (swapped t index key probe v)
              (next_mod t.size index)
              b.key
              (b.probe + 1)
              old
    unfolding insert_loop swapped
    swap_round old e k p = rw (insert_loop, e, k, p)

    go_round :
        (old : V)
        → b.value ≡ some old
        → b.key == key ≡ false
        → ltb b.probe probe ≡ false
        → result ≡ insert_loop same fuel t (next_mod t.size index) key (probe + 1) v
    unfolding insert_loop
    go_round old e k p = rw (insert_loop, e, k, p)

  -- A free bucket `d` steps on bounds the rounds that are left.
  insert_loop-Ends :
      (fuel : ℕ) (t : Table V) (index key probe d : ℕ) (v : V)
      → Carries t index key probe
      → (bucket t.buckets (walk t.size index d)).value ≡ none
      → d < fuel
      → Ends t key v (insert_loop same fuel t index key probe v)
  unfolding walk swapped
  insert_loop-Ends zero t index key probe d v c free h = absurd (omega arith)
  insert_loop-Ends (suc fuel) t index key probe zero v c free h =
      (_, _, free_round fuel t index key probe v free, free-Inserted t index key probe v c free)
  insert_loop-Ends (suc fuel) t index key probe (suc d) v c free h =
      let item = item_of key probe v in
      let step = next_mod-eq-next t.size index c.inside in
      elim (Option-cases (bucket t.buckets index).value) [
        | inl here ↦ (
          _,
          _,
          free_round fuel t index key probe v here,
          free-Inserted t index key probe v c here,
        )
        | inr (old, used) ↦ elim (Bool-cases ((bucket t.buckets index).key == key)) [
          | inl hit ↦
              let (freed, run) = match_round fuel t index key probe v old used hit in
              (
                _,
                freed,
                run,
                match-Inserted t index key v old c.layout c.inside used (ground arith),
              )
          | inr miss ↦
              let other : (bucket t.buckets index).key ≢ key = ground arith in
              elim (Bool-cases (ltb (bucket t.buckets index).probe probe)) [
                | inl poor ↦
                    let poorer : (bucket t.buckets index).probe < probe = ground arith in
                    let apart : walk t.size (next t.size index) d ≢ index =
                      λ e. let at = sym (ap (λ i. (bucket t.buckets i).value) e) ∙ free in cc in
                    let free' =
                      ap (λ (x : Item V). x.value)
                        (written_other t.buckets index item (walk t.size (next t.size index) d)
                          apart)
                      ∙ free in
                    let (r, freed, run, f) =
                      insert_loop-Ends fuel (swapped t index key probe v) (next t.size index)
                        (bucket t.buckets index).key ((bucket t.buckets index).probe + 1) d old
                        (swapped-Carries t index key probe v old c used other poorer) free'
                        (omega arith) in
                    (
                      r,
                      freed,
                      swap_round fuel t index key probe v old used miss poor ∙ rw step run,
                      swapped-Inserted t index key probe v old c used other poorer r f,
                    )
                | inr rich ↦
                    let (r, freed, run, f) =
                      insert_loop-Ends fuel t (next t.size index) key (probe + 1) d v
                        (past-Carries t index key probe old c used other (ground arith)) free
                        (omega arith) in
                    (
                      r,
                      freed,
                      go_round fuel t index key probe v old used miss rich ∙ rw step run,
                      f,
                    )
              ]
        ]
      ]

  -- In a table with a free bucket `insert` ends. The result holds the new value under the key,
  -- keeps every other entry and has no further one, and its layout is that of a Robin Hood table.
  pub insert-Inserted :
      (t : Table V) (key : ℕ) (v : V) → IsValid t → Ends t key v (insert same t key v)
  unfolding insert walk
  insert-Inserted t key v valid =
      let r = valid.layout in
      let (e, inside, free) =
        free_bucket t.buckets (omega (arith, valid.counted, valid.room, r.sized)) in
      let start : key % t.size < t.size = omega (arith, r.pos) in
      let (d, few, reached) = walk_reaches t.size (key % t.size) e start (omega (arith, r.sized)) in
      insert_loop-Ends (t.size + 1) t (key % t.size) key 0 d v
        (record {
          layout = r;
          there = refl;
          inside = start;
          path = λ q lt. absurd (omega arith);
          ahead = λ j w lt e' k. omega arith;
        })
        (ap (λ i. (bucket t.buckets i).value) reached ∙ free) (omega arith)
