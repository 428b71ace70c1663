-- ===== src/ProcessList/Opened.antt =====
-- What opening and closing a process change, and small facts on writes and occurrences.
use htop.Prelude.{
  ℕ, ◌+◌, ◌≤◌, ◌≡◌, ◌≢◌, refl, ap, subst, ◌∙◌, Bool, false, List, ◌∷◌, arith, if◌then◌else◌,
  Bool-cases, inl, inr,
}
use htop.Prelude.Int.{ℤ}
use htop.Process.{Process}
use htop.ProcessList.{Tree, write, open_child, close_child}
use htop.ProcessList.Forest.{Forest, preorder, occurs, Grown}

pub write-other :
    (heap : ℕ → Process) (p q : ℕ) (new : Process) → q ≢ p → write heap p new q ≡ heap q
write-other heap p q new ne = ground arith

pub write-same : (heap : ℕ → Process) (p : ℕ) (new : Process) → write heap p new p ≡ new
write-same heap p new = ground arith

pub occurs-ne : (p q : ℕ) (ps : List ℕ) → occurs p ps ≡ 0 → 1 ≤ occurs q ps → q ≢ p
occurs-ne p q ps h k e = let same = ap (λ x. occurs x ps) e in omega arith

pub occurs-here : (p : ℕ) (ps : List ℕ) → occurs p (p ∷ ps) ≡ 1 + occurs p ps
occurs-here p ps = ground arith

occurs-there : (p q : ℕ) (ps : List ℕ) → q ≢ p → occurs q (p ∷ ps) ≡ occurs q ps
occurs-there p q ps ne = ground arith

module _ (ascending shown : Bool) (p : ℕ) (t : Tree) where
  abbrev pub opened : Tree
  opened = open_child ascending shown p t

  opened-here : opened.heap p ≡ (if shown then t.heap p else record (t.heap p) { show = false })
  unfolding open_child
  opened-here = write-same t.heap p _

  pub opened-pid : (opened.heap p).pid ≡ (t.heap p).pid
  opened-pid =
      ap (λ (x : Process). x.pid) opened-here
      ∙ elim (Bool-cases shown) [ inl on ↦ rw on refl | inr off ↦ rw off refl ]

  pub opened-children : (opened.heap p).show_children ≡ (t.heap p).show_children
  opened-children =
      ap (λ (x : Process). x.show_children) opened-here
      ∙ elim (Bool-cases shown) [ inl on ↦ rw on refl | inr off ↦ rw off refl ]

  pub opened-shows : (opened.heap p).show ≡ (if shown then (t.heap p).show else false)
  opened-shows =
      ap (λ (x : Process). x.show) opened-here
      ∙ elim (Bool-cases shown) [ inl on ↦ rw on refl | inr off ↦ rw off refl ]

  pub opened-other : (q : ℕ) → q ≢ p → opened.heap q ≡ t.heap q
  unfolding open_child
  opened-other q ne = write-other t.heap p q _ ne

  pub opened-processes : opened.processes ≡ t.processes
  unfolding open_child
  opened-processes = refl

  -- What the recursive call gives, in terms of the state before the round.
  pub opened-Grown :
      (depth : ℕ) (kids : Forest) (deep : Tree)
      → Grown opened.processes
          (opened.heap p).pid
          depth
          ascending
          (if shown then (opened.heap p).show_children else false)
          opened
          kids
          deep
      → Grown t.processes
          (t.heap p).pid
          depth
          ascending
          (if shown then (t.heap p).show_children else false)
          opened
          kids
          deep
  opened-Grown depth kids deep g =
      subst
        (λ n.
          Grown t.processes n depth ascending (if shown then (t.heap p).show_children else false)
            opened kids deep)
        opened-pid
        (subst
          (λ b.
            Grown t.processes (opened.heap p).pid depth ascending (if shown then b else false)
              opened kids deep)
          opened-children
          (subst
            (λ ps.
              Grown ps (opened.heap p).pid depth ascending
                (if shown then (opened.heap p).show_children else false) opened kids deep)
            opened-processes g))

-- A round leaves the processes alone that are neither its own nor below it.
pub round-other :
    (level lft index : ℕ) (indent : ℤ) (ascending shown : Bool) (p : ℕ) (t deep : Tree)
    (kids : Forest)
    → ((q : ℕ)
        → occurs q (preorder kids) ≡ 0
        → deep.heap q ≡ (open_child ascending shown p t).heap q)
    → (q : ℕ) → q ≢ p
    → occurs q (preorder kids) ≡ 0
    → (close_child level indent lft index p deep).heap q ≡ t.heap q
unfolding close_child
round-other level lft index indent ascending shown p t deep kids frame q ne out =
    write-other deep.heap p q _ ne ∙ frame q out ∙ opened-other ascending shown p t q ne
