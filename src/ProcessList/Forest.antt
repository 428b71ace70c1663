-- ===== src/ProcessList/Forest.antt =====
-- What a built tree is: a forest of processes, numbered as a nested set.
use htop.Prelude.{
  ℕ, suc, ◌+◌, ◌*◌, ◌≤◌, ◌≡◌, ◌≢◌, refl, sym, ap, ◌∙◌, subst, Bool, true, false, List, [], ◌∷◌,
  ◌++◌, arith, length, ◌==◌, if◌then◌else◌,
}
use htop.Prelude.Count.{count, count-append}
use htop.Process.{Process, get_parent_pid}
use htop.ProcessList.{Tree}
use htop.ProcessList.Order.{Sub}

-- A first process, the forest of its children and the forest of its siblings behind it.
pub data Forest : Type 0 where
  tip : Forest
  node : ℕ → Forest → Forest → Forest

abbrev pub preorder : Forest → List ℕ
preorder tip = []
preorder (node p kids rest) = p ∷ (preorder kids ++ preorder rest)

abbrev pub size : Forest → ℕ
size f = length (preorder f)

abbrev pub occurs : ℕ → List ℕ → ℕ
occurs p ps = count (λ q. q == p) ps

abbrev pub Distinct : List ℕ → Type 0
Distinct ps = (p : ℕ) → occurs p ps ≤ 1

-- One after the other, behind the list or in front of it.
unfoldable pub place : Bool → List ℕ → List ℕ → List ℕ
place ascending [] list = list
place ascending (p ∷ ps) list = place ascending ps (if ascending then list ++ p ∷ [] else p ∷ list)

-- The processes of a list with their indices.
abbrev pub entries : ℕ → List ℕ → List (ℕ × ℕ)
entries i [] = []
entries i (p ∷ ps) = (i, p) ∷ entries (suc i) ps

-- What a process has in a tree: `old` is the process before, `new` the one in the tree, below the
-- process `parent` and with `below` descendants. `shown` says that no process above is collapsed.
pub record Placed (old new : Process) (parent depth : ℕ) (shown : Bool) (left below index : ℕ)
    : Type 0 where
  pub under : get_parent_pid old ≡ parent
  pub showing : new.show ≡ (if shown then old.show else false)
  pub tree_depth : new.tree_depth ≡ depth
  pub tree_left : new.tree_left ≡ left
  pub tree_right : new.tree_right ≡ left + 2 * below + 1
  pub tree_index : new.tree_index ≡ index

-- A forest of shown children of one process, which are numbered from `left` and `index` on.
abbrev pub Drawn : (ℕ → Process) → (ℕ → Process) → ℕ → ℕ → Bool → ℕ → ℕ → Forest → Type 0
Drawn old new parent depth shown left index tip = true ≡ true
Drawn old new parent depth shown left index (node p kids rest) =
    ((old p).show ≡ true)
    × Placed (old p) (new p) parent depth shown left (size kids) index
    × Drawn old new (old p).pid (depth + 1) (if shown then (old p).show_children else false)
        (left + 1) (index + 1) kids
    × Drawn old new parent depth shown (left + 2 * size kids + 2) (index + size kids + 1) rest

-- No shown process of the list has the pid as its parent's; the pid 0 is nobody's.
abbrev pub Childless : (ℕ → Process) → List ℕ → ℕ → Type 0
Childless heap ps pid =
    (p : ℕ) → 1 ≤ occurs p ps → (heap p).show ≡ true → pid ≢ 0 → get_parent_pid (heap p) ≢ pid

-- The state `t'` behind a call is `t` with the forest taken out of the processes of `pool` and drawn.
-- What stays in the list stays in order, and none of it belongs below the parent or below a process
-- of the forest.
pub record Grown (pool : List ℕ) (parent depth : ℕ) (ascending shown : Bool) (t : Tree) (f : Forest)
    (t' : Tree) : Type 0 where
  pub same : (q : ℕ → Bool) → count q pool ≡ count q (preorder f) + count q t'.processes
  pub listed : t'.processes2 ≡ place ascending (preorder f) t.processes2
  pub entered :
      (q : ℕ × ℕ → Bool)
      → count q t'.display_tree_set
        ≡ count q (entries t.node_index (preorder f)) + count q t.display_tree_set
  pub counted : t'.node_counter ≡ t.node_counter + 2 * size f
  pub indexed : t'.node_index ≡ t.node_index + size f
  pub drawn : Drawn t.heap t'.heap parent depth shown t.node_counter t.node_index f
  pub frame : (p : ℕ) → occurs p (preorder f) ≡ 0 → t'.heap p ≡ t.heap p
  pub remains : Sub t'.processes t.processes
  pub childless : Childless t.heap t'.processes parent
  pub complete : (p : ℕ) → 1 ≤ occurs p (preorder f) → Childless t.heap t'.processes (t.heap p).pid

-- Fewer processes, and changes to other ones.
pub Childless-frame :
    (heap heap' : ℕ → Process) (ps qs : List ℕ) (pid : ℕ)
    → ((p : ℕ) → 1 ≤ occurs p qs → (1 ≤ occurs p ps) × (heap' p ≡ heap p))
    → Childless heap ps pid
    → Childless heap' qs pid
Childless-frame heap heap' ps qs pid kept none p here shown =
    let (there, e) = kept p here in
    rw e (none p there (sym (ap (λ (x : Process). x.show) e) ∙ shown))

pub place-append :
    (ascending : Bool) (ps qs list : List ℕ)
    → place ascending (ps ++ qs) list ≡ place ascending qs (place ascending ps list)
unfolding place
place-append ascending [] qs list = refl
place-append ascending (p ∷ ps) qs list =
    place-append ascending ps qs (if ascending then list ++ p ∷ [] else p ∷ list)

pub entries-append :
    (q : ℕ × ℕ → Bool) (i : ℕ) (ps qs : List ℕ)
    → count q (entries i (ps ++ qs)) ≡ count q (entries i ps) + count q (entries (i + length ps) qs)
entries-append q i [] qs = let at = from_here (i + 0) i (omega arith) in omega (arith, at)
  where
    from_here : (m n : ℕ) → m ≡ n → count q (entries m qs) ≡ count q (entries n qs)
    from_here m n e = ap (λ k. count q (entries k qs)) e
entries-append q i (p ∷ ps) qs =
    let at = from_here (i + suc (length ps)) (suc i + length ps) (omega arith) in
    omega (arith, at, entries-append q (suc i) ps qs)
  where
    from_here : (m n : ℕ) → m ≡ n → count q (entries m qs) ≡ count q (entries n qs)
    from_here m n e = ap (λ k. count q (entries k qs)) e

pub count-every : (ps : List ℕ) → count (λ q. true) ps ≡ length ps
count-every [] = refl
count-every (p ∷ ps) = omega (arith, count-every ps)

-- Only the processes of the forest matter.
pub Drawn-frame :
    (old new old' new' : ℕ → Process) (parent depth : ℕ) (shown : Bool) (left index : ℕ)
    (f : Forest)
    → ((p : ℕ) → 1 ≤ occurs p (preorder f) → old' p ≡ old p)
    → ((p : ℕ) → 1 ≤ occurs p (preorder f) → new' p ≡ new p)
    → Drawn old new parent depth shown left index f
    → Drawn old' new' parent depth shown left index f
Drawn-frame old new old' new' parent depth shown left index tip h k d = d
Drawn-frame old new old' new' parent depth shown left index (node p kids rest) h k
      (visible, here, below, behind) =
    let at = present p (preorder kids ++ preorder rest) in
    let eo : old' p ≡ old p = h p at in
    let en : new' p ≡ new p = k p at in
    let in_kids = λ (q : ℕ) (i : 1 ≤ occurs q (preorder kids)). in_first q i in
    let in_rest = λ (q : ℕ) (i : 1 ≤ occurs q (preorder rest)). in_second q i in
    (
      rw eo visible,
      rw (eo, en) here,
      rw eo (
          Drawn-frame old new old' new' (old p).pid (depth + 1)
            (if shown then (old p).show_children else false) (left + 1) (index + 1) kids
            (λ q i. h q (in_kids q i)) (λ q i. k q (in_kids q i)) below),
      Drawn-frame old new old' new' parent depth shown (left + 2 * size kids + 2)
          (index + size kids + 1) rest (λ q i. h q (in_rest q i)) (λ q i. k q (in_rest q i)) behind,
    )
  where
    present : (q : ℕ) (qs : List ℕ) → 1 ≤ occurs q (q ∷ qs)
    present q qs = ground arith

    in_first :
        (q : ℕ) → 1 ≤ occurs q (preorder kids) → 1 ≤ occurs q (p ∷ (preorder kids ++ preorder rest))
    in_first q i = omega (arith, count-append (λ x. x == q) (preorder kids) (preorder rest))

    in_second :
        (q : ℕ) → 1 ≤ occurs q (preorder rest) → 1 ≤ occurs q (p ∷ (preorder kids ++ preorder rest))
    in_second q i = omega (arith, count-append (λ x. x == q) (preorder kids) (preorder rest))

-- The place in the numbering may be given by other expressions.
pub Drawn-at :
    (old new : ℕ → Process) (parent depth : ℕ) (shown : Bool) (left index left' index' : ℕ)
    (f : Forest)
    → left ≡ left'
    → index ≡ index'
    → Drawn old new parent depth shown left index f
    → Drawn old new parent depth shown left' index' f
Drawn-at old new parent depth shown left index left' index' f el ei d =
    subst (λ n. Drawn old new parent depth shown left' n f) ei
      (subst (λ n. Drawn old new parent depth shown n index f) el d)
