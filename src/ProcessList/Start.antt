-- ===== src/ProcessList/Start.antt =====
-- Where the tree starts: the bisection finds the parent, and a list without a loop has a root.
use htop.Prelude.{
  ℕ, zero, suc, ◌+◌, ◌/◌, ◌≤◌, ◌<◌, ◌≡◌, ◌≢◌, refl, sym, subst, ap, ◌∙◌, Bool, true, false, not,
  some, List, [], ◌∷◌, arith, length, get_or, ltb, ◌==◌, ◌||◌, ◌&&◌, Bool-cases, ◌⊎◌, ◌↔◌, inl, inr,
}
use htop.Prelude.Count.{count, to_nat}
use htop.Process.{Process, get_parent_pid}
use htop.ProcessList.Forest.{occurs}
use htop.ProcessList.Opened.{occurs-here}
use htop.ProcessList.Order.{Sub, keep, skip, Sub-refl, Ascends, Ascends-at, index_of_one}
use htop.ProcessList.Roots.{Orphan}
use htop.ProcessList.Build.{bisect, has_parent, take_start}

occurs-get_or : (ps : List ℕ) (i : ℕ) → i < length ps → 1 ≤ occurs (get_or ps i 0) ps
occurs-get_or [] i h = absurd (omega arith)
occurs-get_or (p ∷ ps) zero h = omega (arith, occurs-here p ps)
occurs-get_or (p ∷ ps) (suc i) h = omega (arith, occurs-get_or ps i (omega arith))

module _ (heap : ℕ → Process) (ps : List ℕ) where
  abbrev pid_at : ℕ → ℕ
  pid_at i = (heap (get_or ps i 0)).pid

  -- The list is sorted by pid.
  abbrev pub ByPid : Type 0
  ByPid = (i j : ℕ) → i < j → j < length ps → pid_at i ≤ pid_at j

  in_order : ByPid → (i j : ℕ) → i < length ps → pid_at i < pid_at j → i < j
  in_order sorted i j inside small = elim (Bool-cases (ltb i j)) [
    | inl less ↦ ground (arith, less)
    | inr not_less ↦ elim (Bool-cases (i == j)) [
      | inl same ↦
          let e : i ≡ j = ground (arith, same) in let f = ap pid_at e in absurd (omega arith)
      | inr other ↦
          let swapped = sorted j i (ground (arith, not_less, other)) inside in absurd (omega arith)
    ]
  ]

  bisect-finds :
      (fuel ppid l r : ℕ)
      → bisect heap fuel ps ppid l r ≡ true
      → (c : ℕ) × (c < r) × (pid_at c ≡ ppid)
  unfolding bisect
  bisect-finds zero ppid l r h = cc
  bisect-finds (suc fuel) ppid l r h =
      let c = (l + r) / 2 in
      elim (Bool-cases (ltb l r)) [
        | inr stop ↦ cc (rw (bisect, stop) at h)
        | inl go ↦ elim (Bool-cases (ppid == pid_at c)) [
          | inl here ↦ (c, ground (arith, go), ground (arith, here))
          | inr other ↦ elim (Bool-cases (ltb ppid (pid_at c))) [
            | inl below ↦
                let (k, inside, e) =
                  bisect-finds fuel ppid l c (rw (bisect, go, other, below) at h) in
                (k, ground (arith, go), e)
            | inr above ↦ bisect-finds fuel ppid (c + 1) r (rw (bisect, go, other, above) at h)
          ]
        ]
      ]

  bisect_complete :
      (fuel ppid l r k : ℕ)
      → ByPid
      → r ≤ length ps
      → r ≤ l + fuel
      → l ≤ k
      → k < r
      → pid_at k ≡ ppid
      → bisect heap fuel ps ppid l r ≡ true
  unfolding bisect
  bisect_complete zero ppid l r k sorted inside enough low high e = absurd (omega arith)
  bisect_complete (suc fuel) ppid l r k sorted inside enough low high e =
      let c = (l + r) / 2 in
      let go : ltb l r ≡ true = ground arith in
      let half : (l ≤ c) × (c < r) = (omega arith, omega arith) in
      elim (Bool-cases (ppid == pid_at c)) [
        | inl here ↦ rw (bisect, go, here) refl
        | inr other ↦ elim (Bool-cases (ltb ppid (pid_at c))) [
          | inl below ↦
              let left : k < c =
                in_order sorted k c (omega (arith, half, inside)) (ground (arith, below, e)) in
              rw (bisect, go, other, below)
                (bisect_complete fuel ppid l c k sorted (omega (arith, half)) (omega (arith, half))
                  low left e)
          | inr above ↦
              let right : c < k =
                in_order sorted c k (omega (arith, high, inside))
                  (ground (arith, other, above, e)) in
              rw (bisect, go, other, above)
                (bisect_complete fuel ppid (c + 1) r k sorted inside (omega (arith, half))
                  (omega (arith, right)) high e)
        ]
      ]

-- A process with the pid of the parent, which is neither 0 nor that of the process itself.
abbrev pub ParentIn : (ℕ → Process) → List ℕ → ℕ → Type 0
ParentIn heap ps p =
    (get_parent_pid (heap p) ≢ 0)
    × ((heap p).pid ≢ get_parent_pid (heap p))
    × ((c : ℕ) × (c < length ps) × ((heap (get_or ps c 0)).pid ≡ get_parent_pid (heap p)))

has_parent-ParentIn :
    (heap : ℕ → Process) (ps : List ℕ) (p : ℕ) → has_parent heap ps p ≡ true → ParentIn heap ps p
unfolding has_parent
has_parent-ParentIn heap ps p h =
    elim (Bool-cases ((heap p).pid == get_parent_pid (heap p) || get_parent_pid (heap p) == 0)) [
      | inl none_there ↦ cc (rw (has_parent, none_there) at h)
      | inr there ↦ (
        ground (arith, there),
        ground (arith, there),
        bisect-finds heap ps (length ps + 1) (get_parent_pid (heap p)) 0 (length ps)
            (rw (has_parent, there) at h),
      )
    ]

-- In a list sorted by pid, the bisection finds a parent exactly when one is there.
pub has_parent-ParentIn_iff :
    (heap : ℕ → Process) (ps : List ℕ) (p : ℕ)
    → ByPid heap ps
    → (has_parent heap ps p ≡ true) ↔ ParentIn heap ps p
unfolding has_parent
has_parent-ParentIn_iff heap ps p sorted = (
  has_parent-ParentIn heap ps p,
  λ (nonzero, other, (c, inside, e)).
      let there : ((heap p).pid == get_parent_pid (heap p) || get_parent_pid (heap p) == 0)
          ≡ false =
        ground (arith, nonzero, other) in
      rw (has_parent, there)
        (bisect_complete heap ps (length ps + 1) (get_parent_pid (heap p)) 0 (length ps) c sorted
          (omega arith) (omega arith) (omega arith) inside e),
)

-- In a list sorted by pid, the test for a start is not passed by a shown process with a parent there.
pub start-Orphan :
    (heap : ℕ → Process) (ps : List ℕ) (p : ℕ)
    → Ascends (λ q. (heap q).pid) ps
    → (not (heap p).show || not (has_parent heap ps p)) ≡ true
    → Orphan heap ps p
start-Orphan heap ps p sorted begins q here shown nonzero other up =
    let (i, inside, e) = index_of_one ps q here in
    let found : has_parent heap ps p ≡ true =
      (has_parent-ParentIn_iff heap ps p (Ascends-at (λ x. (heap x).pid) ps sorted)).1
        (nonzero, other, (i, inside, ap (λ x. (heap x).pid) e ∙ up)) in
    ground (arith, begins, shown, found)

-- The parents of the shown processes of a list have a lower rank: there is no loop.
abbrev pub Founded : (ℕ → ℕ) → (ℕ → Process) → List ℕ → Type 0
Founded rank heap ps =
    (p : ℕ)
    → 1 ≤ occurs p ps
    → (heap p).show ≡ true
    → get_parent_pid (heap p) ≢ 0
    → get_parent_pid (heap p) ≢ (heap p).pid
    → rank (get_parent_pid (heap p)) < rank (heap p).pid

module _ (heap : ℕ → Process) (all : List ℕ) where
  -- What take_start finds.
  abbrev pub Found : List ℕ → Type 0
  Found ps =
      (p : ℕ) × (rest : List ℕ) × (take_start heap all ps ≡ some (p, rest))
      × ((q : ℕ → Bool) → count q ps ≡ to_nat (q p) + count q rest)
      × Sub rest ps
      × ((not (heap p).show || not (has_parent heap all p)) ≡ true)

  Stuck : List ℕ → Type 0
  Stuck ps = (p : ℕ) → 1 ≤ occurs p ps → ((heap p).show && has_parent heap all p) ≡ true

  take_start-cases : (ps : List ℕ) → Stuck ps ⊎ Found ps
  unfolding take_start Stuck
  take_start-cases [] = inl (λ p h. absurd (omega arith))
  take_start-cases (p ∷ ps) = elim (Bool-cases (not (heap p).show || not (has_parent heap all p))) [
    | inl start ↦ inr (p, ps, rw (take_start, start) refl, λ q. refl, skip (Sub-refl ps), start)
    | inr not_start ↦ elim (take_start-cases ps) [
      | inl stuck ↦ inl (λ q h. elim (Bool-cases (p == q)) [
        | inl here ↦
            let e : p ≡ q = ground (arith, here) in
            let found : ((heap p).show && has_parent heap all p) ≡ true =
              ground (arith, not_start) in
            subst (λ x. ((heap x).show && has_parent heap all x) ≡ true) e found
        | inr other ↦ stuck q (ground (arith, other, h))
      ])
      | inr (r, rest, run, counts, left, begins) ↦ inr (
        r,
        p ∷ rest,
        rw (take_start, not_start, run) refl,
        λ q. omega (arith, counts q),
        keep left,
        begins,
      )
    ]
  ]

  descends :
      (rank : ℕ → ℕ) (n p : ℕ)
      → Founded rank heap all
      → Stuck all
      → 1 ≤ occurs p all
      → rank (heap p).pid < n
      → ⊥
  unfolding Stuck
  descends rank zero p founded stuck here below = omega arith
  descends rank (suc n) p founded stuck here below =
      let stays = stuck p here in
      let (nonzero, other, (c, inside, e)) =
        has_parent-ParentIn heap all p (ground (arith, stays)) in
      let less = founded p here (ground (arith, stays)) nonzero (λ same. other (sym same)) in
      descends rank n (get_or all c 0) founded stuck (occurs-get_or all c inside)
        (omega (arith, less, below, ap rank e))

  -- Without a loop a list that is not empty has a start.
  pub take_start-finds :
      (rank : ℕ → ℕ) (p : ℕ) (ps : List ℕ) → all ≡ p ∷ ps → Founded rank heap all → Found all
  take_start-finds rank p ps e founded = elim (take_start-cases all) [
    | inl stuck ↦ absurd (
        descends rank (rank (heap p).pid + 1) p founded stuck
          (subst (λ qs. 1 ≤ occurs p qs) (sym e) (omega (arith, occurs-here p ps))) (omega arith))
    | inr found ↦ found
  ]
