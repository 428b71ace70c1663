-- ===== src/ProcessList/Taken.antt =====
-- The children that a branch takes out of the list: shown, of the pid, and all of them.
use htop.Prelude.{
  ℕ, ◌+◌, ◌≤◌, ◌≡◌, ◌≢◌, refl, sym, ap, subst, ◌∙◌, Bool, true, false, List, [], ◌∷◌, ◌++◌, arith,
  ◌==◌, ◌&&◌, if◌then◌else◌, Bool-cases, inl, inr,
}
use htop.Prelude.Count.{count, count-append}
use htop.Process.{Process, get_parent_pid, is_child_of}
use htop.ProcessList.{take_children}
use htop.ProcessList.Order.{Sub, done, keep, skip}
use htop.ProcessList.Forest.{occurs}

pub taken-count :
    (heap : ℕ → Process) (pid : ℕ) (q : ℕ → Bool) (ps : List ℕ)
    → (let (children, rest) = take_children heap pid ps in
        count q ps ≡ count q children + count q rest)
unfolding take_children
taken-count heap pid q [] = refl
taken-count heap pid q (p ∷ ps) =
    let ih = taken-count heap pid q ps in
    let both = count-append q (take_children heap pid ps).0 (p ∷ []) in ground (arith, ih, both)

pub taken-under :
    (heap : ℕ → Process) (pid : ℕ) (p : ℕ) (ps : List ℕ)
    → 1 ≤ occurs p (take_children heap pid ps).0
    → (pid ≡ get_parent_pid (heap p)) × ((heap p).show ≡ true)
unfolding take_children
taken-under heap pid p [] h = absurd (omega arith)
taken-under heap pid p (q ∷ ps) h =
    let ih = taken-under heap pid p ps in
    let both = count-append (λ x. x == p) (take_children heap pid ps).0 (q ∷ []) in
    let down = (take_children heap pid ps).0 in
    let h' = λ (b : Bool) (e : ((heap q).show && is_child_of (heap q) pid) ≡ b).
      subst (λ b. 1 ≤ occurs p (pick b)) e h in
    elim (Bool-cases ((heap q).show && is_child_of (heap q) pid)) [
      | inl child ↦
          let here = h' true child in
          elim (Bool-cases (q == p)) [
            | inl this ↦
                let e : q ≡ p = ground (arith, this) in
                let up : pid ≡ get_parent_pid (heap q) = ground (arith, child) in
                let visible : (heap q).show ≡ true = ground (arith, child) in
                (
                  up ∙ ap (λ x. get_parent_pid (heap x)) e,
                  ap (λ x. (heap x).show) (sym e) ∙ visible,
                )
            | inr that ↦ ih (ground (arith, that, here, both))
          ]
      | inr other ↦ ih (h' false other)
    ]
  where
    pick : Bool → List ℕ
    pick b =
        let r : List ℕ × List ℕ =
          if b
          then ((take_children heap pid ps).0 ++ q ∷ [], (take_children heap pid ps).1)
          else ((take_children heap pid ps).0, q ∷ (take_children heap pid ps).1) in
        r.0

-- No shown child is left.
pub taken-Childless :
    (heap : ℕ → Process) (pid : ℕ) (ps : List ℕ) (p : ℕ)
    → 1 ≤ occurs p (take_children heap pid ps).1
    → (heap p).show ≡ true
    → get_parent_pid (heap p) ≢ pid
unfolding take_children
taken-Childless heap pid [] p here shown e = omega arith
taken-Childless heap pid (q ∷ ps) p here shown e =
    let ih =
      λ (i : 1 ≤ occurs p (take_children heap pid ps).1). taken-Childless heap pid ps p i shown e in
    elim (Bool-cases ((heap q).show && is_child_of (heap q) pid)) [
      | inl child ↦ ih (rw (take_children, child) at here)
      | inr other ↦ elim (Bool-cases (q == p)) [
        | inl this ↦
            let same : q ≡ p = ground (arith, this) in
            let up : get_parent_pid (heap q) ≡ pid = ap (λ x. get_parent_pid (heap x)) same ∙ e in
            let visible : (heap q).show ≡ true = ap (λ x. (heap x).show) same ∙ shown in
            ground (arith, other, up, visible)
        | inr that ↦
            let there : 1 ≤ occurs p (q ∷ (take_children heap pid ps).1) =
              rw (take_children, other) at here in
            ih (ground (arith, that, there))
      ]
    ]

pub taken-Sub : (heap : ℕ → Process) (pid : ℕ) (ps : List ℕ) → Sub (take_children heap pid ps).1 ps
unfolding take_children
taken-Sub heap pid [] = done
taken-Sub heap pid (q ∷ ps) = elim (Bool-cases ((heap q).show && is_child_of (heap q) pid)) [
  | inl child ↦ rw (take_children, child) (skip (taken-Sub heap pid ps))
  | inr other ↦ rw (take_children, other) (keep (taken-Sub heap pid ps))
]
