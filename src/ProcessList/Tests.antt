-- ===== src/ProcessList/Tests.antt =====
-- A small system: process 1, its children 2 and 3, and 4 below 3. The pointer to a process is its pid.
use htop.Prelude.{
  ℕ, zero, suc, ◌+◌, ◌<◌, ◌≡◌, ◌↔◌, refl, true, false, Option, none, some, List, [], ◌∷◌, arith,
  length, get_or, ◌==◌, ◌||◌, if◌then◌else◌,
}
use htop.Process.{Process}
use htop.Process.Sample.{process, by_user}
use htop.Process.Compare.{SortSettings}
use htop.ProcessList.{Tree, build_tree_branch}
use htop.ProcessList.Forest.{Forest}
use htop.ProcessList.Build.{build_tree, has_parent}
use htop.ProcessList.Start.{ByPid, ParentIn, has_parent-ParentIn_iff}
use htop.ProcessList.Scan.{ProcessList, remove, sweep}
use htop.ProcessList.Table.{IsConsistent, see, with_pid, see-IsConsistent, remove-IsConsistent}
use htop.Prelude.Int.{pos}
use htop.Panel
use htop.Panel.{Panel}
use htop.Vector.Contents.{Holds}
use htop.ProcessList.Panel.{Shows, rebuild_panel}
use htop.ProcessList.Panel.Shown.{Rebuilt, rebuild_panel-Rebuilt}
use htop.ProcessList.Sweep.Loop.{Settled, sweep-Settled}

abbrev parent : ℕ → ℕ
parent n = if n == 4 then 3 else if n == 2 || n == 3 then 1 else 0

abbrev system : ℕ → Process
system n = process n (parent n)

abbrev pids : List ℕ
pids = 4 ∷ 2 ∷ 1 ∷ 3 ∷ []

abbrev in_order : List ℕ
in_order = 1 ∷ 2 ∷ 3 ∷ 4 ∷ []

abbrev as_tree : SortSettings
as_tree = record by_user { tree_view = true; tree_view_always_by_pid = true }

-- The order of the display: each process in front of its children.
abbrev shown_order : Option Tree → List ℕ
shown_order none = []
shown_order (some t) = t.processes

build_run : shown_order (build_tree as_tree system pids) ≡ 1 ∷ 3 ∷ 4 ∷ 2 ∷ []
unfolding build_tree htop.Vector.Sort.quick_sort htop.Vector.Sort.partition
    htop.ProcessList.Build.build_root build_tree_branch htop.ProcessList.Build.open_root
    htop.ProcessList.open_child htop.ProcessList.close_child htop.ProcessList.Build.close_root
    htop.Process.Compare.get_active_direction
build_run = refl

abbrev unbuilt : Tree
unbuilt = record {
  heap = system;
  processes = in_order;
  processes2 = [];
  display_tree_set = [];
  node_counter = 1;
  node_index = 0;
}

in_order-at : (i : ℕ) → i < length in_order → get_or in_order i 0 ≡ i + 1
in_order-at zero h = refl
in_order-at (suc zero) h = refl
in_order-at (suc (suc zero)) h = refl
in_order-at (suc (suc (suc zero))) h = refl
in_order-at (suc (suc (suc (suc i)))) h = absurd (omega (arith, h))

in_order-ByPid : ByPid system in_order
in_order-ByPid i j h k = omega (arith, h, k, in_order-at i (omega (arith, h, k)), in_order-at j k)

has_parent-ParentIn_iff_example : (has_parent system in_order 4 ≡ true) ↔ ParentIn system in_order 4
has_parent-ParentIn_iff_example = has_parent-ParentIn_iff system in_order 4 in_order-ByPid

abbrev listed : ProcessList
listed = record {
  heap = system;
  processes = in_order;
  process_table = (4, 4) ∷ (2, 2) ∷ (1, 1) ∷ (3, 3) ∷ [];
  display_tree_set = [];
  following = some 3;
  selection_focus = false;
  monotonic_ms = 500;
  total_tasks = 4;
  userland_threads = 0;
  kernel_threads = 0;
  running_tasks = 1;
}

listed-IsConsistent : IsConsistent listed
listed-IsConsistent = record { same = λ q. omega arith; apart = λ n. ground arith }

see-IsConsistent_example :
    IsConsistent (see listed 7 7 (process 0 1))
    × (with_pid (see listed 7 7 (process 0 1)).heap 7 (see listed 7 7 (process 0 1)).processes ≡ 1)
see-IsConsistent_example = see-IsConsistent listed 7 7 (process 0 1) listed-IsConsistent refl

remove-IsConsistent_example : IsConsistent (remove listed 3)
remove-IsConsistent_example = remove-IsConsistent listed 3 listed-IsConsistent

sweep-Settled_example : Settled true 5 listed (sweep true 5 4 0 listed)
sweep-Settled_example = sweep-Settled true 5 listed listed-IsConsistent

abbrev all_of_them : Shows
all_of_them = record {
  user_id = none;
  inc_filter = none;
  pid_match_list = none;
  hide_userland_threads = true;
  show_thread_names = false;
}

abbrev main_panel : Panel ℕ
main_panel = Panel.add (Panel.init (pos 0) (pos 5) (pos 80) (pos 20) false) 2

main_panel-Holds : Holds (2 ∷ []) main_panel.items
unfolding Panel.add Panel.init htop.Vector.new htop.Vector.add htop.Vector.set_item
    htop.Vector.check_array_size
main_panel-Holds = record { sized = refl; fits = omega arith; grows = omega arith; held = refl }

rebuild_panel-Rebuilt_example :
    Rebuilt
      (λ c t. true)
      all_of_them
      system
      listed.process_table
      in_order
      (some 3)
      (rebuild_panel
        (λ c t. true)
        all_of_them
        system
        listed.process_table
        in_order
        (some 3)
        main_panel)
rebuild_panel-Rebuilt_example =
    rebuild_panel-Rebuilt (λ c t. true) all_of_them system listed.process_table in_order (some 3)
      main_panel (2 ∷ []) main_panel-Holds
