-- ===== src/ProcessList.antt =====
-- ProcessList.c: the processes of the last scan, and the tree that is built of them. A pointer to a
-- process is a number, and `heap` gives what it points to, since the lists and the tables share the
-- processes. A Vector is the list of the pointers in it, a Hashtable the list of its entries.

pub mod Order
pub mod Forest
pub mod Opened
pub mod Node
pub mod Taken
pub mod Branch
pub mod Build
pub mod Start
pub mod Roots
pub mod Below
pub mod Root
pub mod Whole
pub mod Scan
pub mod Table
pub mod Sweep
pub mod Panel
mod Tests
use htop.Prelude.{
  ℕ, zero, suc, ◌+◌, ◌*◌, ◌/◌, ◌^◌, Bool, true, false, Option, none, some, List, [], ◌∷◌, ◌++◌,
  length, ltb, leb, ◌==◌, ◌&&◌, if◌then◌else◌,
}
use Prim.Native.Nat.{bit_or}
use htop.Prelude.Int.{ℤ, pos, negsuc, eqb_ℤ}
use htop.Process.{Process, get_parent_pid, is_child_of}

-- The lists and tables while a tree is built, with the counters that buildTree passes by reference.
pub record Tree : Type 0 where
  pub heap : ℕ → Process
  pub processes : List ℕ
  pub processes2 : List ℕ
  pub display_tree_set : List (ℕ × ℕ)
  pub node_counter : ℕ
  pub node_index : ℕ

-- A write through a pointer.
abbrev pub write : (ℕ → Process) → ℕ → Process → ℕ → Process
write heap p new q = if q == p then new else heap q

module _ (heap : ℕ → Process) (pid : ℕ) where
  -- The loop that takes the children out, from the end: the children as they are added, and what
  -- stays.
  unfoldable pub take_children : List ℕ → List ℕ × List ℕ
  take_children [] = ([], [])
  take_children (p ∷ ps) =
      let (children, rest) = take_children ps in
      if (heap p).show && is_child_of (heap p) pid
      then (children ++ p ∷ [], rest)
      else (children, p ∷ rest)

-- `indent | (1 << level)`, for the levels that fit in an int.
abbrev pub next_indent : ℕ → ℕ → ℕ
next_indent indent level = bit_or indent (2 ^ level)

-- The part of a round in front of the recursive call.
unfoldable pub open_child : Bool → Bool → ℕ → Tree → Tree
open_child ascending shown p t =
    let process = t.heap p in
    record t {
      heap = write t.heap p (if shown then process else record process { show = false });
      processes2 = if ascending then t.processes2 ++ p ∷ [] else p ∷ t.processes2;
      node_counter = t.node_counter + 1;
      node_index = t.node_index + 1;
    }

-- The part behind it: `lft` and `index` are the counters at the start of the round.
unfoldable pub close_child : ℕ → ℤ → ℕ → ℕ → ℕ → Tree → Tree
close_child level indent lft index p t = record t {
  heap = write t.heap p (record (t.heap p) {
    indent = indent;
    tree_left = lft;
    tree_right = t.node_counter;
    tree_depth = level + 1;
    tree_index = index;
  });
  display_tree_set = (index, p) ∷ t.display_tree_set;
  node_counter = t.node_counter + 1;
}

abbrev pub negative : ℕ → ℤ
negative zero = pos 0
negative (suc n) = negsuc n

abbrev pub none_left : List ℕ → Bool
none_left [] = true
none_left (p ∷ ps) = false

module _ (level indent : ℕ) (ascending shown : Bool)
    (branch : ℕ → ℕ → Bool → Tree → Option Tree) where
  -- The loop over the children; `branch` is the recursive call at the next level, of a pid, an
  -- indent and the flag `show`.
  unfoldable pub children_loop : List ℕ → Tree → Option Tree
  children_loop [] t = some t
  children_loop (p ∷ ps) t =
      let u = open_child ascending shown p t in
      let next = next_indent indent level in
      elim (branch (u.heap p).pid (if none_left ps then indent else next)
        (if shown then (u.heap p).show_children else false) u) [
          | none ↦ none
          | some deep ↦ children_loop ps (
              close_child level (if none_left ps then negative next else pos next) t.node_counter
                t.node_index p deep)
        ]

-- `ProcessList_buildTreeBranch`: each call uses one unit of fuel.
unfoldable pub build_tree_branch : ℕ → ℕ → ℕ → ℕ → Bool → Bool → Tree → Option Tree
unfolding take_children children_loop
build_tree_branch zero pid level indent ascending shown t = none
build_tree_branch (suc fuel) pid level indent ascending shown t = elim (pid == 0) [
  | true ↦ some t
  | false ↦
      let (children, rest) = take_children t.heap pid t.processes in
      children_loop level indent ascending shown
        (λ next_pid deeper show. build_tree_branch fuel next_pid (level + 1) deeper ascending show)
        children (record t { processes = rest })
]
