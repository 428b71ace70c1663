-- ===== src/ProcessList/Whole.antt =====
-- The loop over the roots ends, and the whole tree is built.
use htop.Prelude.{ℕ, ◌+◌, ◌*◌, ◌≤◌, ◌≡◌, ◌≢◌, Bool, true, List, [], length}
use htop.Prelude.Count.{count}
use htop.Process.{Process, get_parent_pid}
use htop.ProcessList.{Tree}
use htop.ProcessList.Forest.{Forest, preorder, occurs, entries}
use htop.ProcessList.Roots.{Rooted, Orphan, roots}
use htop.ProcessList.Below.{Child}

-- The state behind buildTree: the processes that were there are a forest, whose numbers are those of
-- a nested set, and the tree set gives each index its process. A root is hidden, or its parent is not
-- among them; every other shown process stands directly below one with its parent's pid.
pub record BuiltTree (heap : ℕ → Process) (ps : List ℕ) (f : Forest) (t : Tree) : Type 0 where
  pub same : (q : ℕ → Bool) → count q (preorder f) ≡ count q ps
  pub listed : (q : ℕ → Bool) → count q t.processes ≡ count q ps
  pub emptied : t.processes2 ≡ []
  pub rooted : Rooted heap t.heap 1 0 f
  pub orphans : (p : ℕ) → 1 ≤ occurs p (roots f) → Orphan heap ps p
  pub below :
      (q r : ℕ)
      → 1 ≤ occurs q ps
      → (heap q).show ≡ true
      → get_parent_pid (heap q) ≢ 0
      → (heap q).pid ≢ get_parent_pid (heap q)
      → 1 ≤ occurs r ps
      → (heap r).pid ≡ get_parent_pid (heap q)
      → (p : ℕ) × Child f p q × (get_parent_pid (heap q) ≡ (heap p).pid)
  pub entered : (q : ℕ × ℕ → Bool) → count q t.display_tree_set ≡ count q (entries 0 (preorder f))
  pub indexed : t.node_index ≡ length ps
  pub counted : t.node_counter ≡ 2 * length ps + 1
