-- ===== src/ProcessList/Table.antt =====
-- The process table and the list of processes hold the same processes.
use htop.Prelude.{
  ℕ, suc, ◌+◌, ◌≤◌, ◌≡◌, refl, sym, ap, subst, ◌∙◌, Bool, not, Option, none, some, List, [], ◌∷◌,
  ◌++◌, map, arith, ◌==◌, ◌&&◌, if◌then◌else◌, Bool-cases, Option-cases, inl, inr,
}
use htop.Prelude.Count.{count, to_nat, count-append}
use htop.Process.{Process}
use htop.ProcessList.{write}
use htop.ProcessList.Forest.{occurs}
use htop.ProcessList.Opened.{occurs-here, occurs-ne, write-other, write-same}
use htop.ProcessList.Scan.{ProcessList, get, erase, index_of, add, without, remove, get_process}

module _ (heap : ℕ → Process) where
  abbrev pub entry : ℕ → ℕ × ℕ
  entry p = ((heap p).pid, p)

  -- How many processes of a list have this pid.
  abbrev pub with_pid : ℕ → List ℕ → ℕ
  with_pid pid ps = count (λ p. (heap p).pid == pid) ps

  -- The processes with other pids.
  abbrev pub others : ℕ → List ℕ → List ℕ
  others pid [] = []
  others pid (p ∷ ps) = if (heap p).pid == pid then others pid ps else p ∷ others pid ps

  pub others-none : (pid : ℕ) (ps : List ℕ) → with_pid pid ps ≡ 0 → others pid ps ≡ ps
  others-none pid [] h = refl
  others-none pid (p ∷ ps) h = elim (Bool-cases ((heap p).pid == pid)) [
    | inl here ↦ absurd (ground (arith, h, here))
    | inr other ↦ rw other (ap (λ qs. p ∷ qs) (others-none pid ps (ground (arith, h, other))))
  ]

  -- The removal at the index that is found takes all processes with the pid, where there is one.
  pub index_of-removes :
      (pid : ℕ) (ps : List ℕ)
      → with_pid pid ps ≤ 1
      → without (index_of heap pid ps) ps ≡ others pid ps
  unfolding index_of
  index_of-removes pid [] h = refl
  index_of-removes pid (p ∷ ps) h = elim (Bool-cases ((heap p).pid == pid)) [
    | inl here ↦ rw (index_of, here) (sym (others-none pid ps (ground (arith, h, here))))
    | inr other ↦
        rw (index_of, other)
          (behind (index_of heap pid ps) (index_of-removes pid ps (ground (arith, h, other))))
  ]
    where
      next : Option ℕ → Option ℕ
      next o = elim o [ none ↦ none | some i ↦ some (suc i) ]

      behind :
          (o : Option ℕ)
          → without o ps ≡ others pid ps
          → without (next o) (p ∷ ps) ≡ p ∷ others pid ps
      behind none e = ap (λ qs. p ∷ qs) e
      behind (some i) e = ap (λ qs. p ∷ qs) e

  count-others :
      (q : ℕ × ℕ → Bool) (pid : ℕ) (ps : List ℕ)
      → count q (map entry (others pid ps)) ≡ count (λ e. q e && not (e.0 == pid)) (map entry ps)
  count-others q pid [] = refl
  count-others q pid (p ∷ ps) = let ih = count-others q pid ps in ground (arith, ih)

count-erase :
    (q : ℕ × ℕ → Bool) (k : ℕ) (es : List (ℕ × ℕ))
    → count q (erase k es) ≡ count (λ e. q e && not (e.0 == k)) es
count-erase q k [] = refl
count-erase q k ((n, p) ∷ es) = let ih = count-erase q k es in ground (arith, ih)

erase-none : (k : ℕ) (es : List (ℕ × ℕ)) → count (λ e. e.0 == k) es ≡ 0 → erase k es ≡ es
erase-none k [] h = refl
erase-none k ((n, p) ∷ es) h = elim (Bool-cases (n == k)) [
  | inl here ↦ absurd (ground (arith, h, here))
  | inr other ↦ rw other (ap (λ fs. (n, p) ∷ fs) (erase-none k es (ground (arith, h, other))))
]

others-le :
    (heap : ℕ → Process) (n pid : ℕ) (ps : List ℕ)
    → with_pid heap n (others heap pid ps) ≤ with_pid heap n ps
others-le heap n pid [] = omega arith
others-le heap n pid (p ∷ ps) = let ih = others-le heap n pid ps in ground (arith, ih)

count-entries :
    (heap : ℕ → Process) (pid : ℕ) (ps : List ℕ)
    → count (λ e. e.0 == pid) (map (entry heap) ps) ≡ with_pid heap pid ps
count-entries heap pid [] = refl
count-entries heap pid (p ∷ ps) = omega (arith, count-entries heap pid ps)

-- The table has one entry per process of the list, and no two processes share a pid.
pub record IsConsistent (s : ProcessList) : Type 0 where
  pub same : (q : ℕ × ℕ → Bool) → count q s.process_table ≡ count q (map (entry s.heap) s.processes)
  pub apart : (pid : ℕ) → with_pid s.heap pid s.processes ≤ 1

-- Only the pids of the processes in the list matter.
pub same_pids :
    (heap heap' : ℕ → Process) (ps : List ℕ)
    → ((p : ℕ) → 1 ≤ occurs p ps → (heap' p).pid ≡ (heap p).pid)
    → (q : ℕ × ℕ → Bool) → count q (map (entry heap') ps) ≡ count q (map (entry heap) ps)
same_pids heap heap' [] e q = refl
same_pids heap heap' (p ∷ ps) e q =
    let one = ap (λ n. to_nat (q (n, p))) (e p (omega (arith, occurs-here p ps))) in
    omega (arith, one, same_pids heap heap' ps (λ x here. e x (omega (arith, here))) q)

same_with_pid :
    (heap heap' : ℕ → Process) (ps : List ℕ)
    → ((p : ℕ) → 1 ≤ occurs p ps → (heap' p).pid ≡ (heap p).pid)
    → (n : ℕ) → with_pid heap' n ps ≡ with_pid heap n ps
same_with_pid heap heap' ps e n = omega (
  arith,
  same_pids heap heap' ps e (λ e. e.0 == n),
  count-entries heap n ps,
  count-entries heap' n ps,
)

-- A write that leaves the pids of the list alone.
pub heap-IsConsistent :
    (s : ProcessList) (heap' : ℕ → Process)
    → ((p : ℕ) → 1 ≤ occurs p s.processes → (heap' p).pid ≡ (s.heap p).pid)
    → IsConsistent s
    → IsConsistent (record s { heap = heap' })
heap-IsConsistent s heap' e k = record {
  same = λ q. omega (arith, k.same q, same_pids s.heap heap' s.processes e q);
  apart = λ n. omega (arith, k.apart n, same_with_pid s.heap heap' s.processes e n);
}

pub member-with_pid :
    (heap : ℕ → Process) (p : ℕ) (ps : List ℕ) → 1 ≤ occurs p ps → 1 ≤ with_pid heap (heap p).pid ps
member-with_pid heap p [] h = absurd (omega arith)
member-with_pid heap p (r ∷ ps) h = elim (Bool-cases (r == p)) [
  | inl here ↦
      let e : r ≡ p = ground (arith, here) in let f = ap (λ x. (heap x).pid) e in ground (arith, f)
  | inr other ↦ omega (arith, member-with_pid heap p ps (ground (arith, other, h)))
]

map-snoc :
    (heap : ℕ → Process) (q : ℕ × ℕ → Bool) (ps : List ℕ) (p : ℕ)
    → count q (map (entry heap) (ps ++ p ∷ []))
      ≡ count q (map (entry heap) ps) + to_nat (q (entry heap p))
map-snoc heap q [] p = omega arith
map-snoc heap q (r ∷ ps) p = omega (arith, map-snoc heap q ps p)

-- A new write that keeps the pid.
pub write-pid :
    (heap : ℕ → Process) (p : ℕ) (new : Process)
    → new.pid ≡ (heap p).pid
    → (x : ℕ) → (write heap p new x).pid ≡ (heap x).pid
write-pid heap p new e x = elim (Bool-cases (x == p)) [
  | inl here ↦
      let same : x ≡ p = ground (arith, here) in rw here (e ∙ ap (λ y. (heap y).pid) (sym same))
  | inr other ↦ rw other refl
]

-- Adding a process whose pid is new keeps the table and the list together.
pub add-IsConsistent :
    (s : ProcessList) (p : ℕ)
    → IsConsistent s
    → with_pid s.heap (s.heap p).pid s.processes ≡ 0
    → IsConsistent (add s p)
unfolding add
add-IsConsistent s p k new =
    let pid = (s.heap p).pid in
    let heap' = write s.heap p (record (s.heap p) { seen_stamp_ms = s.monotonic_ms }) in
    let kept = write-pid s.heap p (record (s.heap p) { seen_stamp_ms = s.monotonic_ms }) refl in
    let no_key = ap count_of (
      erase-none pid s.process_table
        (omega (arith, k.same (λ e. e.0 == pid), count-entries s.heap pid s.processes, new))) in
    record {
      same = λ q. omega (
        arith,
        same_pids s.heap heap' (s.processes ++ p ∷ []) (λ x _. kept x) q,
        map-snoc s.heap q s.processes p,
        k.same q,
        ap (λ f. f q) no_key,
      );
      apart = λ n. omega (
        arith,
        same_with_pid s.heap heap' (s.processes ++ p ∷ []) (λ x _. kept x) n,
        count-append (λ x. (s.heap x).pid == n) s.processes (p ∷ []),
        one_more n,
      );
    }
  where
    count_of : List (ℕ × ℕ) → (ℕ × ℕ → Bool) → ℕ
    count_of es q = count q es

    one_more : (n : ℕ) → with_pid s.heap n s.processes + to_nat ((s.heap p).pid == n) ≤ 1
    one_more n = elim (Bool-cases ((s.heap p).pid == n)) [
      | inl here ↦
          let e : (s.heap p).pid ≡ n = ground (arith, here) in
          let none_there = ap (λ m. with_pid s.heap m s.processes) e in
          rw here (omega (arith, none_there, new))
      | inr other ↦ rw other (omega (arith, k.apart n))
    ]

add-with_pid :
    (s : ProcessList) (p : ℕ)
    → with_pid s.heap (s.heap p).pid s.processes ≡ 0
    → with_pid (add s p).heap (s.heap p).pid (add s p).processes ≡ 1
unfolding add
add-with_pid s p new =
    let heap' = write s.heap p (record (s.heap p) { seen_stamp_ms = s.monotonic_ms }) in
    let kept = write-pid s.heap p (record (s.heap p) { seen_stamp_ms = s.monotonic_ms }) refl in
    let n = (s.heap p).pid in
    let one : with_pid s.heap n (p ∷ []) ≡ 1 = ground arith in
    omega (
      arith,
      same_with_pid s.heap heap' (s.processes ++ p ∷ []) (λ x _. kept x) n,
      count-append (λ x. (s.heap x).pid == n) s.processes (p ∷ []),
      one,
      new,
    )

-- `ProcessList_remove` keeps the table and the list on the same processes, with no pid twice.
pub remove-IsConsistent : (s : ProcessList) (p : ℕ) → IsConsistent s → IsConsistent (remove s p)
unfolding remove
remove-IsConsistent s p k =
    let pid = (s.heap p).pid in
    let gone = index_of-removes s.heap pid s.processes (k.apart pid) in
    record {
      same = λ q.
          let e = ap (λ ps. count q (map (entry s.heap) ps)) gone in
          omega (
            arith,
            e,
            count-others s.heap q pid s.processes,
            count-erase q pid s.process_table,
            k.same (λ e. q e && not (e.0 == pid)),
          );
      apart = λ n.
          let e = ap (λ ps. with_pid s.heap n ps) gone in
          omega (arith, e, others-le s.heap n pid s.processes, k.apart n);
    }

-- The lookup of a pid.
get-finds :
    (s : ProcessList) (pid p : ℕ)
    → IsConsistent s
    → get pid s.process_table ≡ some p
    → (1 ≤ occurs p s.processes) × ((s.heap p).pid ≡ pid)
get-finds s pid p k e = listed s.processes (omega (arith, k.same is_it, entered s.process_table e))
  where
    or_zero : Option ℕ → ℕ
    or_zero none = 0
    or_zero (some x) = x

    is_it : ℕ × ℕ → Bool
    is_it e = e.0 == pid && e.1 == p

    entered : (es : List (ℕ × ℕ)) → get pid es ≡ some p → 1 ≤ count is_it es
    entered [] h = cc
    entered ((n, r) ∷ es) h = elim (Bool-cases (n == pid)) [
      | inl here ↦ let same : r ≡ p = ap or_zero (rw here at h) in ground (arith, here, same)
      | inr other ↦ let ih = entered es (rw other at h) in ground (arith, ih)
    ]

    listed :
        (ps : List ℕ)
        → 1 ≤ count is_it (map (entry s.heap) ps)
        → (1 ≤ occurs p ps) × ((s.heap p).pid ≡ pid)
    listed [] h = absurd (omega arith)
    listed (r ∷ ps) h = elim (Bool-cases (is_it (entry s.heap r))) [
      | inl here ↦
          let same : r ≡ p = ground (arith, here) in
          let at : (s.heap r).pid ≡ pid = ground (arith, here) in
          (ground (arith, same), ap (λ x. (s.heap x).pid) (sym same) ∙ at)
      | inr other ↦ let (i, e) = listed ps (ground (arith, other, h)) in (ground (arith, i), e)
    ]

get-misses :
    (s : ProcessList) (pid : ℕ)
    → IsConsistent s
    → get pid s.process_table ≡ none
    → with_pid s.heap pid s.processes ≡ 0
get-misses s pid k e = omega (
  arith,
  k.same (λ e. e.0 == pid),
  count-entries s.heap pid s.processes,
  absent s.process_table e,
)
  where
    absent : (es : List (ℕ × ℕ)) → get pid es ≡ none → count (λ e. e.0 == pid) es ≡ 0
    absent [] h = refl
    absent ((n, r) ∷ es) h = elim (Bool-cases (n == pid)) [
      | inl here ↦ cc (rw here at h)
      | inr other ↦ let ih = absent es (rw other at h) in ground (arith, ih, other)
    ]

-- What a platform does for a pid that it sees: the process is added where it is new.
unfoldable pub see : ProcessList → ℕ → ℕ → Process → ProcessList
unfolding get_process add
see s pid cell fresh =
    let ((existing, p), found) = get_process s pid cell fresh in
    if existing then found else add found p

-- The process of a pid that is seen, in a cell of its own where it is new, is in the list exactly
-- once, and the table and the list stay together.
pub see-IsConsistent :
    (s : ProcessList) (pid cell : ℕ) (fresh : Process)
    → IsConsistent s
    → occurs cell s.processes ≡ 0
    → IsConsistent (see s pid cell fresh)
      × (with_pid (see s pid cell fresh).heap pid (see s pid cell fresh).processes ≡ 1)
unfolding see get_process
see-IsConsistent s pid cell fresh k out = elim (Option-cases (get pid s.process_table)) [
  | inr (p, found) ↦
      let (here, e) = get-finds s pid p k found in
      rw (see, get_process, found)
        (
          k,
          omega (
            arith,
            k.apart pid,
            member-with_pid s.heap p s.processes here,
            ap (λ n. with_pid s.heap n s.processes) e,
          ),
        )
  | inl missing ↦
      let heap' = write s.heap cell (record fresh { pid = pid }) in
      let kept : (p : ℕ) → 1 ≤ occurs p s.processes → (heap' p).pid ≡ (s.heap p).pid = λ p here.
        ap (λ (x : Process). x.pid)
          (write-other s.heap cell p (record fresh { pid = pid })
            (occurs-ne cell p s.processes out here)) in
      let new : (heap' cell).pid ≡ pid =
        ap (λ (x : Process). x.pid) (write-same s.heap cell (record fresh { pid = pid })) in
      let absent : with_pid heap' pid s.processes ≡ 0 =
        omega
          (arith, same_with_pid s.heap heap' s.processes kept pid, get-misses s pid k missing) in
      let t : ProcessList = record s { heap = heap' } in
      let here = ap (λ n. with_pid heap' n s.processes) new in
      rw (see, get_process, missing)
        (
          add-IsConsistent t cell (heap-IsConsistent s heap' kept k) (omega (arith, here, absent)),
          subst (λ n. with_pid (add t cell).heap n (add t cell).processes ≡ 1) new
              (add-with_pid t cell (omega (arith, here, absent))),
        )
]
