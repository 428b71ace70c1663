-- ===== src/ProcessList/Sweep/Round.antt =====
-- One round of the loop behind a scan: the process is removed, kept, or marked.
use htop.Prelude.{
  ℕ, suc, ◌+◌, ◌≡◌, ◌≢◌, refl, sym, ap, ◌∙◌, Bool, true, false, not, List, [], ◌∷◌, arith, length,
  get_or, ltb, leb, ◌==◌, ◌&&◌, Bool-cases, ==_refl, ◌⊎◌, inl, inr,
}
use htop.Prelude.Count.{count, to_nat}
use htop.Process.{Process}
use htop.ProcessList.{write}
use htop.ProcessList.Opened.{write-other, write-same}
use htop.ProcessList.Scan.{ProcessList, remove, sweep_one}
use htop.ProcessList.Table.{
  IsConsistent, with_pid, others, others-none, index_of-removes, remove-IsConsistent,
  heap-IsConsistent, write-pid,
}
use htop.ProcessList.Sweep.{stays, settled}

-- The list in reverse in front of another: the loop goes from its end.
abbrev pub rev_onto : List ℕ → List ℕ → List ℕ
rev_onto [] ys = ys
rev_onto (z ∷ zs) ys = rev_onto zs (z ∷ ys)

pub get_or-rev_onto :
    (zs ys : List ℕ) (j : ℕ) → get_or (rev_onto zs ys) (length zs + j) 0 ≡ get_or ys j 0
get_or-rev_onto [] ys j = ap (λ n. get_or ys n 0) (omega arith)
get_or-rev_onto (z ∷ zs) ys j =
    ap (λ n. get_or (rev_onto zs (z ∷ ys)) n 0) (omega arith) ∙ get_or-rev_onto zs (z ∷ ys) (suc j)

pub count-rev_onto :
    (q : ℕ → Bool) (zs ys : List ℕ) → count q (rev_onto zs ys) ≡ count q zs + count q ys
count-rev_onto q [] ys = omega arith
count-rev_onto q (z ∷ zs) ys = omega (arith, count-rev_onto q zs (z ∷ ys))

others-rev_onto :
    (heap : ℕ → Process) (pid : ℕ) (zs ys : List ℕ)
    → others heap pid (rev_onto zs ys) ≡ rev_onto (others heap pid zs) (others heap pid ys)
others-rev_onto heap pid [] ys = refl
others-rev_onto heap pid (z ∷ zs) ys = elim (Bool-cases ((heap z).pid == pid)) [
  | inl here ↦
      rw here
        (others-rev_onto heap pid zs (z ∷ ys) ∙ ap (rev_onto (others heap pid zs)) (rw here refl))
  | inr other ↦
      rw other
        (others-rev_onto heap pid zs (z ∷ ys) ∙ ap (rev_onto (others heap pid zs)) (rw other refl))
]

and_false : (b : Bool) → to_nat (b && false) ≡ 0
and_false true = refl
and_false false = refl

and_true : (b : Bool) → to_nat (b && true) ≡ to_nat b
and_true true = refl
and_true false = refl

module _ (changes : Bool) (secs : ℕ) where
  abbrev pub here_stays : ProcessList → ℕ → Bool
  here_stays s p = stays changes secs s.monotonic_ms (s.heap p)

  abbrev pub here_settled : ProcessList → ℕ → Process
  here_settled s p = settled changes secs s.monotonic_ms (s.heap p)

  round_tombed :
      (s : ProcessList) (p : ℕ)
      → ltb 0 (s.heap p).tomb_stamp_ms ≡ true
      → ((sweep_one changes secs s p ≡ remove s p)
          × (here_stays s p ≡ false)
          × (here_settled s p ≡ s.heap p))
        ⊎ ((sweep_one changes secs s p ≡ s)
            × (here_stays s p ≡ true)
            × (here_settled s p ≡ s.heap p))
  unfolding sweep_one stays settled
  round_tombed s p tomb =
      let nonzero : ((s.heap p).tomb_stamp_ms == 0) ≡ false = ground (arith, tomb) in
      elim (Bool-cases (leb (s.heap p).tomb_stamp_ms s.monotonic_ms)) [
        | inl over ↦ inl (
          rw (sweep_one, tomb, over) refl,
          rw (stays, tomb) (ground (arith, over)),
          rw (settled, nonzero) refl,
        )
        | inr not_over ↦ inr (
          rw (sweep_one, tomb, not_over) refl,
          rw (stays, tomb) (ground (arith, not_over)),
          rw (settled, nonzero) refl,
        )
      ]

  round_alive :
      (s : ProcessList) (p : ℕ)
      → ltb 0 (s.heap p).tomb_stamp_ms ≡ false
      → ((sweep_one changes secs s p ≡ remove s p)
          × (here_stays s p ≡ false)
          × (here_settled s p ≡ s.heap p))
        ⊎ ((sweep_one changes secs s p ≡ s)
            × (here_stays s p ≡ true)
            × (here_settled s p ≡ s.heap p))
        ⊎ ((sweep_one changes secs s p ≡ record s { heap = write s.heap p (here_settled s p) })
            × (here_stays s p ≡ true))
  unfolding sweep_one stays settled
  round_alive s p tomb =
      let zero_stamp : ((s.heap p).tomb_stamp_ms == 0) ≡ true = ground (arith, tomb) in
      elim (Bool-cases (s.heap p).updated) [
        | inl fresh ↦ inr (
            inl (
              rw (sweep_one, tomb, fresh) refl,
              rw (stays, tomb, fresh) refl,
              rw (settled, zero_stamp, fresh) refl,
            ))
        | inr stale ↦ elim (Bool-cases (changes && (s.heap p).was_shown)) [
          | inl shown ↦ inr (
              inr (
                rw (sweep_one, tomb, stale, shown, settled, zero_stamp) refl,
                rw (stays, tomb, stale, shown) refl,
              ))
          | inr hidden ↦ inl (
            rw (sweep_one, tomb, stale, hidden) refl,
            rw (stays, tomb, stale, hidden) refl,
            rw (settled, zero_stamp, stale, hidden) refl,
          )
        ]
      ]

  settled-pid : (s : ProcessList) (p : ℕ) → (here_settled s p).pid ≡ (s.heap p).pid
  unfolding settled
  settled-pid s p =
      elim (Bool-cases (
        ((s.heap p).tomb_stamp_ms == 0)
        && (not (s.heap p).updated && (changes && (s.heap p).was_shown)))) [
          | inl mark ↦ rw mark refl
          | inr no_mark ↦ rw no_mark refl
        ]

  -- The state behind a round for `p`, with `zs` in front of it and `ys` behind: `ws` is the new end.
  pub record Swept (s : ProcessList) (p : ℕ) (zs ys ws : List ℕ) (u : ProcessList) : Type 0 where
    pub run : sweep_one changes secs s p ≡ u
    pub list : u.processes ≡ rev_onto zs ws
    pub counts : (q : ℕ → Bool) → count q ws ≡ to_nat (q p && here_stays s p) + count q ys
    pub here : u.heap p ≡ here_settled s p
    pub there : (x : ℕ) → x ≢ p → u.heap x ≡ s.heap x
    pub time : u.monotonic_ms ≡ s.monotonic_ms
    pub consistent : IsConsistent u

  module _ (s : ProcessList) (p : ℕ) (zs ys : List ℕ) (k : IsConsistent s)
      (e : s.processes ≡ rev_onto zs (p ∷ ys)) where
    unfoldable pub Next : Type 0
    Next = (ws : List ℕ) × (u : ProcessList) × Swept s p zs ys ws u

    pub alone : (with_pid s.heap (s.heap p).pid zs ≡ 0) × (with_pid s.heap (s.heap p).pid ys ≡ 0)
    alone =
        let n = (s.heap p).pid in
        let c = ap (λ ps. with_pid s.heap n ps) e in
        let two = count-rev_onto (λ x. (s.heap x).pid == n) zs (p ∷ ys) in
        let one : with_pid s.heap n (p ∷ ys) ≡ 1 + with_pid s.heap n ys = ground arith in
        (omega (arith, k.apart n, c, two, one), omega (arith, k.apart n, c, two, one))

    rest_stays :
        rev_onto (others s.heap (s.heap p).pid zs) (others s.heap (s.heap p).pid (p ∷ ys))
        ≡ rev_onto zs ys
    rest_stays =
        let n = (s.heap p).pid in
        let a = others-none s.heap n zs alone.0 in
        let b = others-none s.heap n ys alone.1 in
        let here : others s.heap n (p ∷ ys) ≡ others s.heap n ys = rw (==_refl n) refl in
        ap (λ xs. rev_onto xs (others s.heap n (p ∷ ys))) a ∙ ap (rev_onto zs) (here ∙ b)

    removed :
        sweep_one changes secs s p ≡ remove s p
        → here_stays s p ≡ false
        → here_settled s p ≡ s.heap p
        → Next
    unfolding Next remove
    removed run gone same =
        let pid = (s.heap p).pid in
        (
          ys,
          remove s p,
          record {
            run = run;
            list =
                index_of-removes s.heap pid s.processes (k.apart pid)
                ∙ ap (others s.heap pid) e
                ∙ others-rev_onto s.heap pid zs (p ∷ ys)
                ∙ rest_stays;
            counts = λ q. rw gone (omega (arith, and_false (q p)));
            here = sym same;
            there = λ x ne. refl;
            time = refl;
            consistent = remove-IsConsistent s p k;
          },
        )

    kept :
        sweep_one changes secs s p ≡ s → here_stays s p ≡ true → here_settled s p ≡ s.heap p → Next
    unfolding Next
    kept run stay same = (
      p ∷ ys,
      s,
      record {
        run = run;
        list = e;
        counts = λ q. rw stay (omega (arith, and_true (q p)));
        here = sym same;
        there = λ x ne. refl;
        time = refl;
        consistent = k;
      },
    )

    marked :
        sweep_one changes secs s p ≡ record s { heap = write s.heap p (here_settled s p) }
        → here_stays s p ≡ true
        → Next
    unfolding Next settled
    marked run stay = (
      p ∷ ys,
      record s { heap = write s.heap p (here_settled s p) },
      record {
        run = run;
        list = e;
        counts = λ q. rw stay (omega (arith, and_true (q p)));
        here = write-same s.heap p (here_settled s p);
        there = λ x ne. write-other s.heap p x (here_settled s p) ne;
        time = refl;
        consistent =
            heap-IsConsistent s (write s.heap p (here_settled s p))
              (λ x _. write-pid s.heap p (here_settled s p) (settled-pid s p) x) k;
      },
    )

    pub one_round : Next
    one_round = elim (Bool-cases (ltb 0 (s.heap p).tomb_stamp_ms)) [
      | inl tomb ↦ elim (round_tombed s p tomb) [
        | inl (run, gone, same) ↦ removed run gone same
        | inr (run, stay, same) ↦ kept run stay same
      ]
      | inr alive ↦ elim (round_alive s p alive) [
        | inl (run, gone, same) ↦ removed run gone same
        | inr (inl (run, stay, same)) ↦ kept run stay same
        | inr (inr (run, stay)) ↦ marked run stay
      ]
    ]
