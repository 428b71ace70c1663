-- ===== src/Hashtable/Remove/Search.antt =====
-- The loop of `Hashtable_remove` that looks for the key.
use htop.Prelude.{
  ℕ, zero, suc, ◌+◌, ◌-◌, ◌%◌, ◌≤◌, ◌<◌, ◌≡◌, ◌≢◌, refl, sym, ap, subst, ◌∙◌, ◌↔◌, inl, inr, true,
  false, Option, none, some, List, arith, ltb, ◌==◌, Bool-cases, Option-cases,
}
use native.Mathlib.Numerals.{add-one}
use htop.Hashtable.{Item, Table, bucket, occupied, next, shift_loop, remove_loop, get}
use htop.Hashtable.Walk.{walk, walk-suc, next-lt, next_mod-eq-next, walk_reaches}
use htop.Hashtable.Invariant.{At, Has, Full, PathFull, IsValid, free_bucket}
use htop.Hashtable.Get.{get_complete, get_sound}
use htop.Hashtable.Write.{same_or_not}
use htop.Hashtable.Remove.Gap.{robin_hood-HasGap}
use htop.Hashtable.Remove.Loop.{shift_loop-Cleared}

module _ {ℓ} {V : Type ℓ} where
  -- The table without the key, and the value that it had.
  pub record Removed (t : Table V) (key : ℕ) (r : Table V) (found : Option V) : Type ℓ where
    pub valid : IsValid r
    pub size : r.size ≡ t.size
    pub owner : r.owner ≡ t.owner
    pub keeps : (k : ℕ) (w : V) → Has r.buckets k w ↔ ((k ≢ key) × Has t.buckets k w)
    pub found_was : found ≡ get t key

  -- A bucket in use with another key is not the last on the path of the key's entry.
  further :
      (t : Table V) (index key probe j : ℕ) (v : V)
      → IsValid t
      → index ≡ walk t.size (key % t.size) probe
      → At t.buckets key v j
      → probe ≤ (bucket t.buckets j).probe
      → j ≢ index
      → (probe + 1 ≤ (bucket t.buckets j).probe) × Full t.buckets index probe
  further t index key probe j v valid e a le ne =
      let r = valid.layout in
      let inside : j < t.size = omega (arith, a.inside, r.sized) in
      let home : walk t.size (key % t.size) (bucket t.buckets j).probe ≡ j =
        subst (λ k. walk t.size (k % t.size) (bucket t.buckets j).probe ≡ j) a.key
          (r.home j v inside a.value) in
      let path : PathFull t.buckets t.size (key % t.size) (bucket t.buckets j).probe =
        subst (λ k. PathFull t.buckets t.size (k % t.size) (bucket t.buckets j).probe) a.key
          (r.path j v inside a.value) in
      elim (same_or_not probe (bucket t.buckets j).probe) [
        | inl last ↦ absurd (ne (sym (e ∙ ap (walk t.size (key % t.size)) last ∙ home)))
        | inr before ↦
            (omega arith, subst (λ i. Full t.buckets i probe) (sym e) (path probe (omega arith)))
      ]

  -- Where the search stops without the key, the table does not have it.
  absent-Removed :
      (t : Table V) (key : ℕ) → IsValid t → ((v : V) → ¬ Has t.buckets key v) → Removed t key t none
  absent-Removed t key valid nothing = record {
    valid = valid;
    size = refl;
    owner = refl;
    keeps = λ k w. (λ h. (λ e. nothing w (subst (λ n. Has t.buckets n w) e h), h), λ h. h.1);
    found_was = elim (Option-cases (get t key)) [
      | inl e ↦ sym e
      | inr (v, e) ↦ absurd (nothing v (get_sound valid key v e))
    ];
  }

  -- The bucket that holds the key is emptied by the shift.
  pub hit-Removed :
      (t : Table V) (index key : ℕ) (v : V)
      → IsValid t
      → At t.buckets key v index
      → (bs : List (Item V)) × (shift_loop (t.size + 1) t.buckets t.size index ≡ some bs)
        × Removed t key (record t { buckets = bs; items = t.items - 1 }) (some v)
  hit-Removed t index key v valid a =
      let r = valid.layout in
      let inside : index < t.size = omega (arith, a.inside, r.sized) in
      let (e, lt, free) =
        free_bucket t.buckets (omega (arith, valid.counted, valid.room, r.sized)) in
      let apart : e ≢ index =
        λ same. let at = ap (λ n. (bucket t.buckets n).value) same in let used = a.value in cc in
      let (d, few, reached) = walk_reaches t.size index e inside (omega (arith, r.sized)) in
      let big : 1 < t.size = omega (arith, lt, r.sized) in
      let (bs, run, c) =
        shift_loop-Cleared (t.size + 1) t.size index d t.buckets v
          (robin_hood-HasGap t.size t.buckets index r inside) big a.value
          (ap (λ i. (bucket t.buckets i).value) reached ∙ free) (omega arith) in
      (
        bs,
        run,
        record {
          valid = record {
            layout = c.layout;
            counted = omega (arith, c.fewer, valid.counted);
            room = omega (arith, valid.room);
          };
          size = refl;
          owner = refl;
          keeps = λ k w. (
            λ h.
                let (i, ne, at) = (c.keeps k w).0 h in
                (
                  λ same. ne (
                      r.unique i index w v (omega (arith, at.inside, r.sized)) inside at.value
                        a.value (at.key ∙ same ∙ sym a.key)),
                  (i, at),
                ),
            λ h.
                let (i, at) = h.1 in
                (c.keeps k w).1 (
                  i,
                  λ same. h.0 (sym at.key ∙ ap (λ n. (bucket t.buckets n).key) same ∙ a.key),
                  at,
                ),
          );
          found_was = sym (get_complete valid key v (index, a));
        },
      )

  module _ (fuel : ℕ) (t : Table V) (index key probe : ℕ) where
    free_round :
        occupied (bucket t.buckets index) ≡ false
        → remove_loop (suc fuel) t index key probe ≡ some (t, none)
    unfolding remove_loop
    free_round e = rw (remove_loop, e) refl

    hit_round :
        (bs : List (Item V))
        → occupied (bucket t.buckets index) ≡ true
        → ((bucket t.buckets index).key == key) ≡ true
        → shift_loop (t.size + 1) t.buckets t.size index ≡ some bs
        → remove_loop (suc fuel) t index key probe
          ≡ some (record t { buckets = bs; items = t.items - 1 }, (bucket t.buckets index).value)
    unfolding remove_loop
    hit_round bs e k run = rw (remove_loop, e, k, run) refl

    stop_round :
        occupied (bucket t.buckets index) ≡ true
        → ((bucket t.buckets index).key == key) ≡ false
        → ltb (bucket t.buckets index).probe probe ≡ true
        → remove_loop (suc fuel) t index key probe ≡ some (t, none)
    unfolding remove_loop
    stop_round e k p = rw (remove_loop, e, k, p) refl

    go_round :
        occupied (bucket t.buckets index) ≡ true
        → ((bucket t.buckets index).key == key) ≡ false
        → ltb (bucket t.buckets index).probe probe ≡ false
        → index < t.size
        → remove_loop (suc fuel) t index key probe
          ≡ remove_loop fuel t (next t.size index) key (probe + 1)
    unfolding remove_loop
    go_round e k p inside =
        rw (remove_loop, e, k, p)
          (ap (λ n. remove_loop fuel t n key (probe + 1)) (next_mod-eq-next t.size index inside))

  -- The loop ends in front of the free bucket that stands `d` steps on, if the entry of the key is
  -- not behind.
  pub remove_loop-Removed :
      (fuel index key probe d : ℕ) (t : Table V)
      → IsValid t
      → index ≡ walk t.size (key % t.size) probe
      → index < t.size
      → ((j : ℕ) (v : V) → At t.buckets key v j → probe ≤ (bucket t.buckets j).probe)
      → (bucket t.buckets (walk t.size index d)).value ≡ none
      → d < fuel
      → (r : Table V) × (found : Option V) × (remove_loop fuel t index key probe ≡ some (r, found))
        × Removed t key r found
  unfolding walk occupied
  remove_loop-Removed zero index key probe d t valid e lt ahead free h = absurd (omega arith)
  remove_loop-Removed (suc fuel) index key probe d t valid e lt ahead free h =
      let b = bucket t.buckets index in
      elim (Option-cases b.value) [
        | inl none_here ↦
            let unused : occupied b ≡ false = rw (occupied, none_here) refl in
            (
              t,
              none,
              free_round fuel t index key probe unused,
              absent-Removed t key valid (λ v m.
                  let apart : m.0 ≢ index = λ same.
                    let at = ap (λ n. (bucket t.buckets n).value) same in
                    let there = m.1.value in cc in
                  let (_, f) =
                    further t index key probe m.0 v valid e m.1 (ahead m.0 v m.1) apart in
                  let full = f.value in cc),
            )
        | inr (w, used) ↦
            let in_use : occupied b ≡ true = rw (occupied, used) refl in
            elim (Bool-cases (b.key == key)) [
              | inl hit ↦
                  let a : At t.buckets key w index = record {
                    inside = omega (arith, lt, valid.layout.sized);
                    key = ground (arith, hit);
                    value = used;
                  } in
                  let (bs, run, removed) = hit-Removed t index key w valid a in
                  (
                    record t { buckets = bs; items = t.items - 1 },
                    some w,
                    hit_round fuel t index key probe bs in_use hit run
                        ∙ ap (λ o. some (record t { buckets = bs; items = t.items - 1 }, o)) used,
                    removed,
                  )
              | inr miss ↦
                  let apart : (j : ℕ) (v : V) → At t.buckets key v j → j ≢ index = λ j v a same.
                    let at = ap (λ n. (bucket t.buckets n).key) same in
                    let there = a.key in ground (arith, miss) in
                  elim (Bool-cases (ltb b.probe probe)) [
                    | inl stop ↦ (
                      t,
                      none,
                      stop_round fuel t index key probe in_use miss stop,
                      absent-Removed t key valid (λ v m.
                          let (_, f) =
                            further t index key probe m.0 v valid e m.1 (ahead m.0 v m.1)
                              (apart m.0 v m.1) in
                          let far = f.far in ground (arith, stop)),
                    )
                    | inr go ↦ elim (same_or_not d 0) [
                      | inl at_once ↦
                          let free_here =
                            subst (λ n. (bucket t.buckets (walk t.size index n)).value ≡ none)
                              at_once free in
                          cc
                      | inr later ↦
                          let ahead_of : d ≡ suc (d - 1) = omega (arith, later) in
                          let (r, found, run, removed) =
                            remove_loop-Removed fuel (next t.size index) key (probe + 1) (d - 1) t
                              valid
                              (ap (next t.size) e
                                ∙ sym (walk-suc t.size (key % t.size) probe)
                                ∙ rw add-one refl)
                              (next-lt t.size index lt)
                              (λ j v a.
                                (further t index key probe j v valid e a (ahead j v a)
                                  (apart j v a)).0)
                              (subst (λ n. (bucket t.buckets (walk t.size index n)).value ≡ none)
                                ahead_of free)
                              (omega arith) in
                          (
                            r,
                            found,
                            go_round fuel t index key probe in_use miss go lt ∙ run,
                            removed,
                          )
                    ]
                  ]
            ]
      ]
