-- ===== src/Hashtable/Remove/Loop.antt =====
-- The backward shift as a whole.
use htop.Prelude.{
  ℕ, zero, suc, ◌+◌, ◌-◌, ◌≤◌, ◌<◌, ◌≡◌, ◌≢◌, refl, ap, ◌∙◌, ◌↔◌, inl, inr, true, false, Option,
  none, some, List, arith, ltb, ◌&&◌, Bool-cases, Option-cases, length, set,
}
use htop.Prelude.Count.{count, count-set, to_nat}
use htop.Hashtable.{Item, bucket, occupied, next, next_mod, empty_item, shift_loop}
use htop.Hashtable.Walk.{walk, next_mod-eq-next}
use htop.Hashtable.Invariant.{Has, IsRobinHood, one_if_some, zero_if_none}
use htop.Hashtable.Write.{written_other}
use htop.Hashtable.Remove.Gap.{HasGap, HasBut, next-ne}
use htop.Hashtable.Remove.Shift.{Moves, moved, shifted, shifted-HasGap, shifted-HasBut}
use htop.Hashtable.Remove.Close.{Stops, emptied, closed, closed-IsRobinHood, closed-HasBut}

module _ {ℓ} {V : Type ℓ} where
  -- What the shift makes of the buckets: the entries but the one at the gap, in a table without it.
  pub record Cleared (size : ℕ) (bs : List (Item V)) (gap : ℕ) (r : List (Item V)) : Type ℓ where
    pub layout : IsRobinHood size r
    pub keeps : (k : ℕ) (w : V) → Has r k w ↔ HasBut bs gap k w
    pub fewer : count occupied r + 1 ≡ count occupied bs

  module _ (fuel size gap : ℕ) (bs : List (Item V)) (inside : gap < size) where
    abbrev b : Item V
    b = bucket bs (next size gap)

    stop_round :
        (occupied b && ltb 0 b.probe) ≡ false
        → shift_loop (suc fuel) bs size gap ≡ some (closed size bs gap)
    unfolding shift_loop
    stop_round e = rw (next_mod-eq-next size gap inside, shift_loop, e) refl

    go_round :
        (v : V)
        → (occupied b && ltb 0 b.probe) ≡ true
        → shift_loop (suc fuel) bs size gap
          ≡ shift_loop fuel (shifted size bs gap v) size (next size gap)
    unfolding shift_loop
    go_round v e =
        let at = next_mod-eq-next size gap inside in
        let go : (occupied (bucket bs (next_mod size gap))
              && ltb 0 (bucket bs (next_mod size gap)).probe)
            ≡ true =
          ap (λ n. occupied (bucket bs n) && ltb 0 (bucket bs n).probe) at ∙ e in
        rw (shift_loop, go) (ap one_on at)
      where
        one_on : ℕ → Option (List (Item V))
        one_on n =
            shift_loop fuel (set bs gap (record (bucket bs n) { probe = (bucket bs n).probe - 1 }))
              size n

  occupied-some : (b : Item V) → occupied b ≡ true → (v : V) × (b.value ≡ some v)
  unfolding occupied
  occupied-some b e = elim (Option-cases b.value) [ inl free ↦ cc (rw free at e) | inr used ↦ used ]

  to_nat-occupied : (b : Item V) (v : V) → b.value ≡ some v → to_nat (occupied b) ≡ 1
  to_nat-occupied = one_if_some

  -- The loop ends in front of the free bucket that stands `d` steps on.
  pub shift_loop-Cleared :
      (fuel size gap d : ℕ) (bs : List (Item V)) (old : V)
      → HasGap size bs gap
      → 1 < size
      → (bucket bs gap).value ≡ some old
      → (bucket bs (walk size gap d)).value ≡ none
      → d ≤ fuel
      → (r : List (Item V)) × (shift_loop fuel bs size gap ≡ some r) × Cleared size bs gap r
  unfolding walk
  shift_loop-Cleared fuel size gap zero bs old g big used free h = cc
  shift_loop-Cleared zero size gap (suc d) bs old g big used free h = absurd (omega arith)
  shift_loop-Cleared (suc fuel) size gap (suc d) bs old g big used free h =
      let b = bucket bs (next size gap) in
      let inside_bs : gap < length bs = omega (arith, g.inside, g.sized) in
      elim (Bool-cases (occupied b && ltb 0 b.probe)) [
        | inr stop ↦
            let s : Stops size bs gap = record {
              big = big;
              gapped = g;
              still = λ v e. let full = one_if_some b v e in ground (arith, full, stop);
            } in
            (
              closed size bs gap,
              stop_round fuel size gap bs g.inside stop,
              record {
                layout = closed-IsRobinHood size bs gap s;
                keeps = closed-HasBut size bs gap s;
                fewer = omega (
                  arith,
                  count-set occupied bs gap (emptied size bs gap) empty_item inside_bs,
                  one_if_some (bucket bs gap) old used,
                  zero_if_none (emptied size bs gap) refl,
                );
              },
            )
        | inl go ↦
            let (v, e) = occupied-some b (ground (arith, go)) in
            let m : Moves size bs gap v = record {
              big = big;
              gapped = g;
              value = e;
              away = ground (arith, go);
            } in
            let bs' = shifted size bs gap v in
            let other = λ (i : ℕ) (ne : i ≢ gap).
              ap (λ (x : Item V). x.value) (written_other bs gap (moved size bs gap v) i ne) in
            let used' : (bucket bs' (next size gap)).value ≡ some v =
              other (next size gap) (next-ne size gap big g.inside) ∙ e in
            let free' : (bucket bs' (walk size (next size gap) d)).value ≡ none =
              other (walk size (next size gap) d)
                (λ back. let there = ap (λ n. (bucket bs n).value) back in cc)
              ∙ free in
            let (r, run, c) =
              shift_loop-Cleared fuel size (next size gap) d bs' v (shifted-HasGap size bs gap v m)
                big used' free' (omega arith) in
            (
              r,
              go_round fuel size gap bs g.inside v go ∙ run,
              record {
                layout = c.layout;
                keeps = λ k w.
                    let a = c.keeps k w in
                    let z = shifted-HasBut size bs gap v m k w in
                    (λ x. z.0 (a.0 x), λ x. a.1 (z.1 x));
                fewer = omega (
                  arith,
                  c.fewer,
                  count-set occupied bs gap (moved size bs gap v) empty_item inside_bs,
                  one_if_some (bucket bs gap) old used,
                  one_if_some (moved size bs gap v) v e,
                );
              },
            )
      ]
