-- ===== src/ProcessList/Build.antt =====
-- `ProcessList_buildTree`: the roots of the tree one after the other, with the branches below them.
use htop.Prelude.{
  ℕ, zero, suc, ◌+◌, ◌/◌, Bool, true, false, not, Option, none, some, List, [], ◌∷◌, ◌++◌, length,
  get_or, ltb, leb, ◌==◌, ◌||◌, if◌then◌else◌,
}
use htop.Prelude.Int.{pos, eqb_ℤ}
use htop.Vector.Sort.{quick_sort}
use htop.Process.{Process, get_parent_pid}
use htop.Process.Compare.{SortSettings, get_active_direction}
use htop.ProcessList.{Tree, write, build_tree_branch}

module _ (heap : ℕ → Process) where
  -- The bisection for the parent, between `l` and `r`: whether it stops with `l < r`. A round uses
  -- one unit of fuel.
  unfoldable pub bisect : ℕ → List ℕ → ℕ → ℕ → ℕ → Bool
  bisect zero ps ppid l r = false
  bisect (suc fuel) ps ppid l r = elim (ltb l r) [
    | false ↦ false
    | true ↦
        let c = (l + r) / 2 in
        let pid = (heap (get_or ps c 0)).pid in
        if ppid == pid then true else elim (ltb ppid pid) [
          | true ↦ bisect fuel ps ppid l c
          | false ↦ bisect fuel ps ppid (c + 1) r
        ]
  ]

  -- Whether the parent is found in the list.
  unfoldable pub has_parent : List ℕ → ℕ → Bool
  unfolding bisect
  has_parent ps p =
      let process = heap p in
      let ppid = get_parent_pid process in
      let r = if process.pid == ppid || ppid == 0 then 0 else length ps in
      bisect (r + 1) ps ppid 0 r

  -- The first process of the list that is hidden or has no parent in `all`, and the others. There is
  -- none when the parents form a loop.
  unfoldable pub take_start : List ℕ → List ℕ → Option (ℕ × List ℕ)
  unfolding has_parent
  take_start all [] = none
  take_start all (p ∷ ps) =
      if not (heap p).show || not (has_parent all p)
      then some (p, ps)
      else elim (take_start all ps) [ none ↦ none | some found ↦ some (found.0, p ∷ found.1) ]

-- The part of a round in front of the call: the process is a root now.
unfoldable pub open_root : ℕ → Tree → Tree
open_root p t = record t {
  heap = write t.heap p (record (t.heap p) {
    indent = pos 0;
    tree_depth = 0;
    tree_left = t.node_counter;
    tree_index = t.node_index;
  });
  processes2 = t.processes2 ++ p ∷ [];
  display_tree_set =
      if (t.heap p).show then (t.node_index, p) ∷ t.display_tree_set else t.display_tree_set;
  node_counter = t.node_counter + 1;
  node_index = t.node_index + 1;
}

-- The part behind it. A hidden process is entered here.
unfoldable pub close_root : ℕ → Tree → Tree
close_root p t = record t {
  heap = write t.heap p (record (t.heap p) { tree_right = t.node_counter });
  display_tree_set =
      if (t.heap p).show
      then t.display_tree_set
      else ((t.heap p).tree_index, p) ∷ t.display_tree_set;
  node_counter = t.node_counter + 1;
}

-- `p` is taken out of the processes already.
unfoldable pub build_root : Bool → ℕ → Tree → Option Tree
build_root ascending p t =
    let u = open_root p t in
    elim (build_tree_branch (length t.processes + 1) (u.heap p).pid 0 0 ascending
      (if (t.heap p).show then (u.heap p).show_children else false) u) [
        | none ↦ none
        | some deep ↦ some (close_root p deep)
      ]

-- A round per root. `none` is the failure of the assertion that there is no loop, and the end of the
-- fuel, which is enough with more than one unit per process.
unfoldable pub build_loop : ℕ → Bool → Tree → Option Tree
unfolding take_start
build_loop zero ascending t = none
build_loop (suc fuel) ascending t = elim t.processes [
  | [] ↦ some t
  | p ∷ ps ↦ elim (take_start t.heap t.processes t.processes) [
    | none ↦ none
    | some found ↦ elim (build_root ascending found.0 (record t { processes = found.1 })) [
      | none ↦ none
      | some u ↦ build_loop fuel ascending u
    ]
  ]
]

-- `ProcessList_treeProcessCompareByPID`, as "not behind".
abbrev pub by_pid_le : (ℕ → Process) → ℕ → ℕ → Bool
by_pid_le heap p q = leb (heap p).pid (heap q).pid

abbrev pub sorted_by : (ℕ → ℕ → Bool) → List ℕ → List ℕ
sorted_by le ps = quick_sort le 0 (length ps + 1) ps 0 (length ps)

-- `ProcessList_buildTree`, from the heap, the processes and the cleared tree set.
unfoldable pub build_tree : SortSettings → (ℕ → Process) → List ℕ → Option Tree
unfolding build_loop
build_tree settings heap ps =
    elim (build_loop (length ps + 1) (eqb_ℤ (get_active_direction settings) (pos 1)) (record {
      heap = heap;
      processes = sorted_by (by_pid_le heap) ps;
      processes2 = [];
      display_tree_set = [];
      node_counter = 1;
      node_index = 0;
    })) [ none ↦ none | some t ↦ some (record t { processes = t.processes2; processes2 = [] }) ]
