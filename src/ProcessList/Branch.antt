-- ===== src/ProcessList/Branch.antt =====
-- The branch below a process: the recursion ends, and draws a forest.
use htop.Prelude.{
  ℕ, zero, suc, ◌+◌, ◌≤◌, ◌<◌, ◌≡◌, refl, sym, ap, subst, ◌∙◌, Bool, true, false, Option, some,
  List, [], ◌∷◌, ◌++◌, arith, length, ◌==◌, if◌then◌else◌, Bool-cases, inl, inr,
}
use htop.Prelude.Int.{pos}
use htop.Prelude.Count.{count, count-append}
use htop.Process.{Process, get_parent_pid}
use htop.ProcessList.{
  Tree, take_children, next_indent, negative, none_left, open_child, close_child, children_loop,
  build_tree_branch,
}
use htop.ProcessList.Opened.{opened-processes, opened-Grown, occurs-here, occurs-ne, round-other}
use htop.ProcessList.Node.{node-Grown}
use htop.ProcessList.Order.{Sub-refl, Sub-trans}
use htop.ProcessList.Forest.{
  Forest, tip, node, occurs, Distinct, place, Grown, Childless, Childless-frame, count-every,
}
use htop.ProcessList.Taken.{taken-count, taken-under, taken-Childless, taken-Sub}

-- Nothing is added.
tip-Grown :
    (pool : List ℕ) (parent depth : ℕ) (ascending shown : Bool) (t : Tree)
    → ((q : ℕ → Bool) → count q pool ≡ count q t.processes)
    → Childless t.heap t.processes parent
    → Grown pool parent depth ascending shown t tip t
unfolding place
tip-Grown pool parent depth ascending shown t e childless = record {
  same = λ q. omega (arith, e q);
  listed = refl;
  entered = λ q. omega arith;
  counted = omega arith;
  indexed = omega arith;
  drawn = refl;
  frame = λ p _. refl;
  remains = Sub-refl t.processes;
  childless = childless;
  complete = λ p here. absurd (omega arith);
}

present : (p : ℕ) (ps : List ℕ) → 1 ≤ occurs p (p ∷ ps)
present p ps = omega (arith, occurs-here p ps)

module _ (level indent n : ℕ) (ascending shown : Bool) (branch : ℕ → ℕ → Bool → Tree → Option Tree)
    (parent : ℕ) where
  Runs : Type 0
  Runs =
      (pid deeper : ℕ) (show : Bool) (t : Tree)
      → length t.processes < n
      → Distinct t.processes
      → (t' : Tree) × (f : Forest) × (branch pid deeper show t ≡ some t')
        × Grown t.processes pid (level + 1 + 1) ascending show t f t'

  Draws : List ℕ → Tree → Type 0
  Draws ps t =
      (t' : Tree) × (f : Forest) × (children_loop level indent ascending shown branch ps t
        ≡ some t')
      × Grown (ps ++ t.processes) parent (level + 1) ascending shown t f t'

  loop_step :
      (p : ℕ) (ps : List ℕ) (t deep t' : Tree)
      → (let u = open_child ascending shown p t in
          branch
            (u.heap p).pid
            (if none_left ps then indent else next_indent indent level)
            (if shown then (u.heap p).show_children else false)
            u
          ≡ some deep)
      → children_loop level indent ascending shown branch ps (
          close_child level
            (if none_left ps
              then negative (next_indent indent level)
              else pos (next_indent indent level))
            t.node_counter
            t.node_index
            p
            deep)
        ≡ some t'
      → children_loop level indent ascending shown branch (p ∷ ps) t ≡ some t'
  unfolding children_loop
  loop_step p ps t deep t' run rest = rw (children_loop, run) rest

  opened_small :
      (p : ℕ) (t : Tree)
      → length t.processes < n
      → length (open_child ascending shown p t).processes < n
  opened_small p t h = subst (λ ps. length ps < n) (sym (opened-processes ascending shown p t)) h

  opened_apart :
      (p : ℕ) (ps : List ℕ) (t : Tree)
      → Distinct (p ∷ (ps ++ t.processes))
      → Distinct (open_child ascending shown p t).processes
  opened_apart p ps t h =
      subst Distinct (sym (opened-processes ascending shown p t))
        (λ q. omega (arith, h q, count-append (λ x. x == q) ps t.processes))

  children_loop-Grown :
      Runs
      → (ps : List ℕ) (t : Tree) → length ps + length t.processes ≤ n
      → Distinct (ps ++ t.processes)
      → ((p : ℕ)
          → 1 ≤ occurs p ps
          → (parent ≡ get_parent_pid (t.heap p)) × ((t.heap p).show ≡ true))
      → Childless t.heap t.processes parent
      → Draws ps t
  unfolding children_loop close_child Draws Runs
  children_loop-Grown runs [] t small apart under childless =
      (t, tip, refl, tip-Grown t.processes _ _ _ _ t (λ q. refl) childless)
  children_loop-Grown runs (p ∷ ps) t small apart under childless =
      let u = open_child ascending shown p t in
      let (deep, kids, run, g0) =
        runs (u.heap p).pid (if none_left ps then indent else next_indent indent level)
          (if shown then (u.heap p).show_children else false) u
          (opened_small p t (omega (arith, small))) (opened_apart p ps t apart) in
      let g = opened-Grown ascending shown p t (level + 1 + 1) kids deep g0 in
      let i =
        if none_left ps
        then negative (next_indent indent level)
        else pos (next_indent indent level) in
      let c = close_child level i t.node_counter t.node_index p deep in
      let untouched =
        round-other level t.node_counter t.node_index i ascending shown p t deep kids g.frame in
      let (t', rest, run', g') =
        children_loop-Grown runs ps c
          (omega
            (arith, small, g.same (λ q. true), count-every t.processes, count-every deep.processes))
          (λ q. omega (
            arith,
            g.same (λ x. x == q),
            apart q,
            count-append (λ x. x == q) ps t.processes,
            count-append (λ x. x == q) ps deep.processes,
          ))
          (λ q here.
            let same =
              untouched q
                (occurs-ne p q ps
                  (omega (
                    arith,
                    apart p,
                    occurs-here p (ps ++ t.processes),
                    count-append (λ x. x == p) ps t.processes,
                  ))
                  here)
                (omega (
                  arith,
                  g.same (λ x. x == q),
                  apart q,
                  here,
                  count-append (λ x. x == q) ps t.processes,
                )) in
            (
              (under q (omega (arith, here))).0 ∙ ap get_parent_pid (sym same),
              ap (λ (x : Process). x.show) same ∙ (under q (omega (arith, here))).1,
            ))
          (Childless-frame t.heap c.heap t.processes deep.processes parent
            (λ q here.
              let there : 1 ≤ occurs q t.processes = omega (arith, here, g.same (λ x. x == q)) in
              (
                there,
                untouched q
                    (occurs-ne p q t.processes
                      (omega (
                        arith,
                        apart p,
                        occurs-here p (ps ++ t.processes),
                        count-append (λ x. x == p) ps t.processes,
                      ))
                      there)
                    (omega (
                      arith,
                      here,
                      g.same (λ x. x == q),
                      apart q,
                      count-append (λ x. x == q) ps t.processes,
                    )),
              ))
            childless) in
      (
        t',
        node p kids rest,
        loop_step p ps t deep t' run run',
        node-Grown level ascending shown parent p ps t i deep kids t' rest apart
            (under p (present p ps)).0 (under p (present p ps)).1 g g',
      )

pub build_tree_branch-Grown :
    (fuel pid level indent : ℕ) (ascending shown : Bool) (t : Tree)
    → length t.processes < fuel
    → Distinct t.processes
    → (t' : Tree) × (f : Forest) × (build_tree_branch fuel pid level indent ascending shown t
        ≡ some t')
      × Grown t.processes pid (level + 1) ascending shown t f t'
unfolding build_tree_branch Runs Draws
build_tree_branch-Grown zero pid level indent ascending shown t enough apart = absurd (omega arith)
build_tree_branch-Grown (suc fuel) pid level indent ascending shown t enough apart =
    elim (Bool-cases (pid == 0)) [
      | inl nought ↦ (
        t,
        tip,
        rw (build_tree_branch, nought) refl,
        tip-Grown t.processes _ _ _ _ t (λ q. refl)
            (λ p here shown some_pid. absurd (some_pid (ground (arith, nought)))),
      )
      | inr some_pid ↦
          let taken = take_children t.heap pid t.processes in
          let counts = λ (q : ℕ → Bool). taken-count t.heap pid q t.processes in
          let (t', f, run, g) =
            children_loop-Grown level indent fuel ascending shown _ pid
              (λ next_pid deeper show u small.
                build_tree_branch-Grown fuel next_pid (level + 1) deeper ascending show u small)
              taken.0 (record t { processes = taken.1 })
              (omega (
                arith,
                enough,
                counts (λ q. true),
                count-every t.processes,
                count-every taken.0,
                count-every taken.1,
              ))
              (λ q.
                omega (
                  arith,
                  apart q,
                  counts (λ x. x == q),
                  count-append (λ x. x == q) taken.0 taken.1,
                ))
              (λ q. taken-under t.heap pid q t.processes)
              (λ p here shown _. taken-Childless t.heap pid t.processes p here shown) in
          (
            t',
            f,
            rw (build_tree_branch, some_pid) run,
            record {
              same = λ q. omega (arith, counts q, g.same q, count-append q taken.0 taken.1);
              listed = g.listed;
              entered = g.entered;
              counted = g.counted;
              indexed = g.indexed;
              drawn = g.drawn;
              frame = g.frame;
              remains = Sub-trans g.remains (taken-Sub t.heap pid t.processes);
              childless = g.childless;
              complete = g.complete;
            },
          )
    ]
