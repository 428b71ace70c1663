-- ===== src/ProcessList/Sweep/Loop.antt =====
-- The loop behind a scan keeps exactly the processes that should stay, and marks those that are gone.
use htop.Prelude.{
  ℕ, suc, ◌+◌, ◌≤◌, ◌≡◌, refl, sym, ap, subst, ◌∙◌, Bool, true, List, [], ◌∷◌, ◌++◌, arith, length,
  get_or, ltb, ◌==◌, ◌&&◌, if◌then◌else◌, Bool-cases, inl, inr,
}
use htop.Prelude.Count.{count, to_nat}
use htop.Process.{Process}
use htop.ProcessList.Forest.{occurs, count-every}
use htop.ProcessList.Opened.{occurs-here, occurs-ne}
use htop.ProcessList.Scan.{ProcessList, sweep_one, sweep}
use htop.ProcessList.Table.{IsConsistent, with_pid, member-with_pid}
use htop.ProcessList.Sweep.{stays, settled}
use htop.ProcessList.Sweep.Round.{
  rev_onto, get_or-rev_onto, count-rev_onto, here_stays, here_settled, Next, alone, one_round,
}

both_same {ℓ} :
    {B : Type ℓ} (g : Process → ℕ → B) {h h' : Process} {t t' : ℕ}
    → h ≡ h'
    → t ≡ t'
    → g h t ≡ g h' t'
both_same g a b = λ i. g (a i) (b i)

count-ext :
    (ps : List ℕ) (f g : ℕ → Bool)
    → ((x : ℕ) → 1 ≤ occurs x ps → f x ≡ g x)
    → count f ps ≡ count g ps
count-ext [] f g h = refl
count-ext (p ∷ ps) f g h =
    let one = ap to_nat (h p (omega (arith, occurs-here p ps))) in
    omega (arith, one, count-ext ps f g (λ x i. h x (omega (arith, i))))

rev_onto_twice : (ps zs ys : List ℕ) → rev_onto (rev_onto ps zs) ys ≡ rev_onto zs (ps ++ ys)
rev_onto_twice [] zs ys = refl
rev_onto_twice (p ∷ ps) zs ys = rev_onto_twice ps (p ∷ zs) ys

append-nil : (ps : List ℕ) → ps ++ [] ≡ ps
append-nil [] = refl
append-nil (p ∷ ps) = ap (λ qs. p ∷ qs) (append-nil ps)

module _ (changes : Bool) (secs : ℕ) where
  -- The state behind the loop over `zs`, which stand in front of `ys`.
  record Cleaned (m : ℕ) (s : ProcessList) (zs ys : List ℕ) (r : ℕ × ProcessList) : Type 0 where
    consistent : IsConsistent r.1
    counts :
        (q : ℕ → Bool)
        → count q r.1.processes ≡ count (λ p. q p && here_stays changes secs s p) zs + count q ys
    settles : (p : ℕ) → 1 ≤ occurs p zs → r.1.heap p ≡ here_settled changes secs s p
    others : (p : ℕ) → occurs p zs ≡ 0 → r.1.heap p ≡ s.heap p
    above : (p : ℕ) → 1 ≤ occurs p zs → (s.heap p).st_uid ≤ r.0
    starts : m ≤ r.0

  no_more :
      (s : ProcessList) (p : ℕ) (zs : List ℕ)
      → with_pid s.heap (s.heap p).pid zs ≡ 0
      → occurs p zs ≡ 0
  no_more s p zs h = elim (Bool-cases (ltb 0 (occurs p zs))) [
    | inl some_there ↦
        absurd (omega (arith, h, member-with_pid s.heap p zs (ground (arith, some_there))))
    | inr none_there ↦ ground (arith, none_there)
  ]

  sweep_step :
      (m : ℕ) (s : ProcessList) (p : ℕ) (zs ys ws : List ℕ) (u : ProcessList)
      → s.processes ≡ rev_onto zs (p ∷ ys)
      → sweep_one changes secs s p ≡ u
      → sweep changes secs (suc (length zs)) m s
        ≡ sweep changes secs
            (length zs)
            (if ltb m (s.heap p).st_uid then (s.heap p).st_uid else m)
            u
  unfolding sweep
  sweep_step m s p zs ys ws u e run =
      let at : get_or s.processes (length zs) 0 ≡ p =
        ap (λ ps. get_or ps (length zs) 0) e
        ∙ ap (λ n. get_or (rev_onto zs (p ∷ ys)) n 0) (omega arith)
        ∙ get_or-rev_onto zs (p ∷ ys) 0 in
      rw (sweep, at, run) refl

  sweep-Cleaned :
      (m : ℕ) (s : ProcessList) (zs ys : List ℕ)
      → IsConsistent s
      → s.processes ≡ rev_onto zs ys
      → Cleaned m s zs ys (sweep changes secs (length zs) m s)
  unfolding sweep Next
  sweep-Cleaned m s [] ys k e = record {
    consistent = k;
    counts = λ q. ap (count q) e ∙ omega arith;
    settles = λ p h. absurd (omega arith);
    others = λ p h. refl;
    above = λ p h. absurd (omega arith);
    starts = omega arith;
  }
  sweep-Cleaned m s (p ∷ zs) ys k e =
      let (ws, u, w) = one_round changes secs s p zs ys k e in
      let m' = if ltb m (s.heap p).st_uid then (s.heap p).st_uid else m in
      let c = sweep-Cleaned m' u zs ws w.consistent w.list in
      let apart_p : occurs p zs ≡ 0 = no_more s p zs (alone changes secs s p zs ys k e).0 in
      let same = λ (x : ℕ) (i : 1 ≤ occurs x zs). w.there x (occurs-ne p x zs apart_p i) in
      let start : (m ≤ m') × ((s.heap p).st_uid ≤ m') = (ground arith, ground arith) in
      subst (Cleaned m s (p ∷ zs) ys) (sym (sweep_step m s p zs ys ws u e w.run)) (record {
        consistent = c.consistent;
        counts = λ q.
            let f =
              count-ext zs (λ x. q x && here_stays changes secs u x)
                (λ x. q x && here_stays changes secs s x)
                (λ x i.
                  both_same (λ (h : Process) (t : ℕ). q x && stays changes secs t h) (same x i)
                    w.time) in
            omega (arith, c.counts q, f, w.counts q);
        settles = λ x i. elim (Bool-cases (p == x)) [
          | inl here ↦
              let at : p ≡ x = ground (arith, here) in
              subst
                (λ y.
                  (sweep changes secs (length zs) m' u).1.heap y ≡ here_settled changes secs s y)
                at (c.others p apart_p ∙ w.here)
          | inr other ↦
              let j : 1 ≤ occurs x zs = ground (arith, i, other) in
              c.settles x j
              ∙ both_same (λ (h : Process) (t : ℕ). settled changes secs t h) (same x j) w.time
        ];
        others = λ x out.
            c.others x (omega (arith, out))
            ∙ w.there x (λ same_x.
              let twice = ap (λ y. occurs y (p ∷ zs)) same_x in
              omega (arith, out, twice, occurs-here p zs));
        above = λ x i. elim (Bool-cases (p == x)) [
          | inl here ↦
              let at : p ≡ x = ground (arith, here) in
              omega (arith, ap (λ y. (s.heap y).st_uid) at, start, c.starts)
          | inr other ↦
              let j : 1 ≤ occurs x zs = ground (arith, i, other) in
              omega (arith, c.above x j, ap (λ (h : Process). h.st_uid) (same x j))
        ];
        starts = omega (arith, start, c.starts);
      })

  -- `s` is the list before the loop, `r` the highest user id and the list behind it.
  pub record Settled (s : ProcessList) (r : ℕ × ProcessList) : Type 0 where
    pub consistent : IsConsistent r.1
    pub counts :
        (q : ℕ → Bool)
        → count q r.1.processes
          ≡ count (λ p. q p && stays changes secs s.monotonic_ms (s.heap p)) s.processes
    pub settles :
        (p : ℕ)
        → 1 ≤ occurs p s.processes
        → r.1.heap p ≡ settled changes secs s.monotonic_ms (s.heap p)
    pub above : (p : ℕ) → 1 ≤ occurs p s.processes → (s.heap p).st_uid ≤ r.0

  -- Where the table and the list hold the same processes, the loop behind a scan keeps in the list
  -- exactly the processes that stay, gives each of the old ones its mark, keeps the table and the list
  -- together, and returns a user id that none of theirs exceeds.
  pub sweep-Settled :
      (s : ProcessList) → IsConsistent s → Settled s (sweep changes secs (length s.processes) 0 s)
  sweep-Settled s k =
      let zs = rev_onto s.processes [] in
      let same = λ (q : ℕ → Bool). count-rev_onto q s.processes [] in
      let sized : length zs ≡ length s.processes =
        omega (arith, same (λ x. true), count-every zs, count-every s.processes) in
      let c =
        sweep-Cleaned 0 s zs [] k
          (sym (rev_onto_twice s.processes [] [] ∙ append-nil s.processes)) in
      subst (λ n. Settled s (sweep changes secs n 0 s)) sized
        (record {
          consistent = c.consistent;
          counts = λ q. omega (arith, c.counts q, same (λ p. q p && here_stays changes secs s p));
          settles = λ p i. c.settles p (omega (arith, same (λ x. x == p), i));
          above = λ p i. c.above p (omega (arith, same (λ x. x == p), i));
        })
