-- ===== src/ProcessList/Scan.antt =====
-- The process table beside the list of processes, and what a scan does to both. A Hashtable is the
-- list of its entries (`Hashtable.Put` and `Hashtable.Remove` say that it holds one per key).
use htop.Prelude.{
  ℕ, zero, suc, ◌+◌, ◌*◌, Bool, true, false, not, Option, none, some, List, [], ◌∷◌, ◌++◌, length,
  get_or, remove_at, ltb, leb, ◌==◌, ◌&&◌, if◌then◌else◌,
}
use htop.Process.{Process}
use htop.Process.Compare.{SortSettings}
use htop.ProcessList.{write}
use htop.ProcessList.Build.{build_tree}

pub record ProcessList : Type 0 where
  pub heap : ℕ → Process
  pub processes : List ℕ
  pub process_table : List (ℕ × ℕ)
  pub display_tree_set : List (ℕ × ℕ)
  -- `none` is -1.
  pub following : Option ℕ
  -- Whether the selection of the panel has its usual colour again.
  pub selection_focus : Bool
  pub monotonic_ms : ℕ
  pub total_tasks : ℕ
  pub userland_threads : ℕ
  pub kernel_threads : ℕ
  pub running_tasks : ℕ

-- Hashtable_get, Hashtable_remove and Hashtable_put.
abbrev pub get : ℕ → List (ℕ × ℕ) → Option ℕ
get k [] = none
get k ((n, p) ∷ es) = if n == k then some p else get k es

abbrev pub erase : ℕ → List (ℕ × ℕ) → List (ℕ × ℕ)
erase k [] = []
erase k ((n, p) ∷ es) = if n == k then erase k es else (n, p) ∷ erase k es

abbrev pub put : ℕ → ℕ → List (ℕ × ℕ) → List (ℕ × ℕ)
put k p es = (k, p) ∷ erase k es

-- Vector_indexOf with Process_pidCompare.
unfoldable pub index_of : (ℕ → Process) → ℕ → List ℕ → Option ℕ
index_of heap pid [] = none
index_of heap pid (p ∷ ps) =
    if (heap p).pid == pid
    then some 0
    else elim (index_of heap pid ps) [ none ↦ none | some i ↦ some (suc i) ]

unfoldable pub add : ProcessList → ℕ → ProcessList
add s p = record s {
  heap = write s.heap p (record (s.heap p) { seen_stamp_ms = s.monotonic_ms });
  processes = s.processes ++ p ∷ [];
  process_table = put (s.heap p).pid p s.process_table;
}

-- Whether a followed process is the one with this pid.
abbrev pub follows : Option ℕ → ℕ → Bool
follows none pid = false
follows (some n) pid = n == pid

-- Vector_remove, where an index was found.
abbrev pub without : Option ℕ → List ℕ → List ℕ
without none ps = ps
without (some i) ps = remove_at i ps

unfoldable pub remove : ProcessList → ℕ → ProcessList
unfolding index_of
remove s p =
    let pid = (s.heap p).pid in
    record s {
      processes = without (index_of s.heap pid s.processes) s.processes;
      process_table = erase pid s.process_table;
      following = if follows s.following pid then none else s.following;
      selection_focus = if follows s.following pid then true else s.selection_focus;
    }

-- The process with a pid and whether it was there already. `fresh` is the new one of the
-- constructor, in a cell of its own; its pid is set.
unfoldable pub get_process : ProcessList → ℕ → ℕ → Process → (Bool × ℕ) × ProcessList
get_process s pid cell fresh = elim (get pid s.process_table) [
  | some p ↦ ((true, p), s)
  | none ↦ ((false, cell), record s { heap = write s.heap cell (record fresh { pid = pid }) })
]

-- The start of a scan: every process is "dirty", and the counters are 0.
abbrev pub dirty : Process → Process
dirty p = record p { updated = false; was_shown = p.show; show = true }

unfoldable pub mark_dirty : List ℕ → (ℕ → Process) → ℕ → Process
mark_dirty [] heap = heap
mark_dirty (p ∷ ps) heap = mark_dirty ps (write heap p (dirty (heap p)))

module _ (highlight_changes : Bool) (highlight_delay_secs : ℕ) where
  -- A round of the loop behind the scan, for the process `p`. The string of `makeCommandStr`, which
  -- nothing reads here, is left out.
  unfoldable pub sweep_one : ProcessList → ℕ → ProcessList
  unfolding remove
  sweep_one s p =
      let process = s.heap p in
      if ltb 0 process.tomb_stamp_ms
      then if leb process.tomb_stamp_ms s.monotonic_ms then remove s p else s
      else if not process.updated
      then if highlight_changes && process.was_shown
        then record s {
          heap =
              write s.heap p
                (record process { tomb_stamp_ms = s.monotonic_ms + 1000 * highlight_delay_secs });
        }
        else remove s p
      else s

  -- The loop from the end: `n` processes are left in front. With the highest user id so far.
  unfoldable pub sweep : ℕ → ℕ → ProcessList → ℕ × ProcessList
  unfolding sweep_one
  sweep zero max_uid s = (max_uid, s)
  sweep (suc i) max_uid s =
      let p = get_or s.processes i 0 in
      let uid = (s.heap p).st_uid in
      sweep i (if ltb max_uid uid then uid else max_uid) (sweep_one s p)

  -- `ProcessList_scan`: the highest user id and the list. `go_through_entries` is the platform's,
  -- `now` what the clock gives, 0 in the first scan. In pause there is no user id. `none` when the tree cannot be built.
  unfoldable pub scan :
      (Bool → ProcessList → ProcessList)
      → SortSettings
      → ℕ
      → Bool
      → ProcessList
      → Option (Option ℕ × ProcessList)
  unfolding sweep mark_dirty
  scan go_through_entries settings now pause s =
      if pause
      then some (none, go_through_entries true s)
      else (let found = go_through_entries false (record s {
        heap = mark_dirty s.processes s.heap;
        total_tasks = 0;
        userland_threads = 0;
        kernel_threads = 0;
        running_tasks = 0;
        monotonic_ms = now;
      }) in
          let (max_uid, swept) = sweep (length found.processes) 0 found in
          if settings.tree_view
          then elim (build_tree settings swept.heap swept.processes) [
            | none ↦ none
            | some t ↦ some (
              some max_uid,
              record swept {
                heap = t.heap;
                processes = t.processes;
                display_tree_set = t.display_tree_set;
              },
            )
          ]
          else some (some max_uid, swept))

unfoldable pub expand_tree : List ℕ → (ℕ → Process) → ℕ → Process
expand_tree [] heap = heap
expand_tree (p ∷ ps) heap = expand_tree ps (write heap p (record (heap p) { show_children = true }))

unfoldable pub collapse_all_branches : List ℕ → (ℕ → Process) → ℕ → Process
collapse_all_branches [] heap = heap
collapse_all_branches (p ∷ ps) heap =
    let process = heap p in
    collapse_all_branches ps (
      if ltb 0 process.tree_depth && ltb 1 process.pid
      then write heap p (record process { show_children = false })
      else heap)
