-- ===== src/ProcessList/Roots.antt =====
-- The whole tree: every process gets its place, and the loop over the roots ends.
use htop.Prelude.{
  ℕ, ◌+◌, ◌*◌, ◌≤◌, ◌≡◌, ◌≢◌, Bool, true, false, List, [], ◌∷◌, ◌++◌, arith, ◌==◌, if◌then◌else◌,
}
use htop.Prelude.Count.{count, count-append}
use htop.Process.{Process, get_parent_pid}
use htop.ProcessList.{Tree}
use htop.ProcessList.Forest.{
  Forest, tip, node, preorder, size, occurs, place, entries, Placed, Drawn, Drawn-frame,
}
use htop.ProcessList.Opened.{occurs-here}

-- A forest of roots, each at depth 0 with its branch at depth 1. Below a hidden root all is hidden.
abbrev pub Rooted : (ℕ → Process) → (ℕ → Process) → ℕ → ℕ → Forest → Type 0
Rooted old new left index tip = true ≡ true
Rooted old new left index (node p kids rest) =
    Placed (old p) (new p) (get_parent_pid (old p)) 0 true left (size kids) index
    × Drawn old new (old p).pid 1 (if (old p).show then (old p).show_children else false) (left + 1)
        (index + 1) kids
    × Rooted old new (left + 2 * size kids + 2) (index + size kids + 1) rest

-- The first processes of a forest of trees: those that stand below none.
abbrev pub roots : Forest → List ℕ
roots tip = []
roots (node p kids rest) = p ∷ roots rest

pub occurs-roots : (p : ℕ) (f : Forest) → occurs p (roots f) ≤ occurs p (preorder f)
occurs-roots p tip = omega arith
occurs-roots p (node q kids rest) =
    let ih = occurs-roots p rest in
    let both = count-append (λ x. x == p) (preorder kids) (preorder rest) in
    ground (arith, ih, both)

-- The process is hidden, or its parent is not in the list: no process there has the pid, or the pid
-- is 0 or that of the process itself.
abbrev pub Orphan : (ℕ → Process) → List ℕ → ℕ → Type 0
Orphan heap ps p =
    (q : ℕ)
    → 1 ≤ occurs q ps
    → (heap p).show ≡ true
    → get_parent_pid (heap p) ≢ 0
    → (heap p).pid ≢ get_parent_pid (heap p)
    → (heap q).pid ≢ get_parent_pid (heap p)

-- What the loop makes of `t`, when no process is left.
pub record Built (t : Tree) (f : Forest) (t' : Tree) : Type 0 where
  pub emptied : t'.processes ≡ []
  pub same : (q : ℕ → Bool) → count q t.processes ≡ count q (preorder f)
  pub listed : (q : ℕ → Bool) → count q t'.processes2 ≡ count q (preorder f) + count q t.processes2
  pub entered :
      (q : ℕ × ℕ → Bool)
      → count q t'.display_tree_set
        ≡ count q (entries t.node_index (preorder f)) + count q t.display_tree_set
  pub counted : t'.node_counter ≡ t.node_counter + 2 * size f
  pub indexed : t'.node_index ≡ t.node_index + size f
  pub rooted : Rooted t.heap t'.heap t.node_counter t.node_index f
  pub orphans : (p : ℕ) → 1 ≤ occurs p (roots f) → Orphan t.heap t.processes p
  pub frame : (p : ℕ) → occurs p (preorder f) ≡ 0 → t'.heap p ≡ t.heap p

pub count-place :
    (q : ℕ → Bool) (ascending : Bool) (ps list : List ℕ)
    → count q (place ascending ps list) ≡ count q ps + count q list
unfolding place
count-place q ascending [] list = omega arith
count-place q true (p ∷ ps) list =
    omega (arith, count-place q true ps (list ++ p ∷ []), count-append q list (p ∷ []))
count-place q false (p ∷ ps) list = omega (arith, count-place q false ps (p ∷ list))

pub Rooted-frame :
    (old new old' new' : ℕ → Process) (left index : ℕ) (f : Forest)
    → ((p : ℕ) → 1 ≤ occurs p (preorder f) → old' p ≡ old p)
    → ((p : ℕ) → 1 ≤ occurs p (preorder f) → new' p ≡ new p)
    → Rooted old new left index f
    → Rooted old' new' left index f
Rooted-frame old new old' new' left index tip h k d = d
Rooted-frame old new old' new' left index (node p kids rest) h k (here, below, behind) =
    let both = λ (q : ℕ). count-append (λ x. x == q) (preorder kids) (preorder rest) in
    let in_kids =
      λ (q : ℕ) (i : 1 ≤ occurs q (preorder kids)). in_all q (omega (arith, both q, i)) in
    let in_rest =
      λ (q : ℕ) (i : 1 ≤ occurs q (preorder rest)). in_all q (omega (arith, both q, i)) in
    let at : 1 ≤ occurs p (preorder (node p kids rest)) =
      omega (arith, occurs-here p (preorder kids ++ preorder rest)) in
    let eo : old' p ≡ old p = h p at in
    let en : new' p ≡ new p = k p at in
    (
      rw (eo, en) here,
      rw eo (
          Drawn-frame old new old' new' (old p).pid 1
            (if (old p).show then (old p).show_children else false) (left + 1) (index + 1) kids
            (λ q i. h q (in_kids q i)) (λ q i. k q (in_kids q i)) below),
      Rooted-frame old new old' new' (left + 2 * size kids + 2) (index + size kids + 1) rest
          (λ q i. h q (in_rest q i)) (λ q i. k q (in_rest q i)) behind,
    )
  where
    in_all :
        (q : ℕ)
        → 1 ≤ occurs q (preorder kids ++ preorder rest)
        → 1 ≤ occurs q (preorder (node p kids rest))
    in_all q i = omega (arith, i)
