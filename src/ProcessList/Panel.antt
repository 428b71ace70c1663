-- ===== src/ProcessList/Panel.antt =====
-- `ProcessList_rebuildPanel`: the processes that the main panel shows, and the one that is followed.
-- `contains_i` is String_contains_i, that is strcasestr. The event handler of the main panel leaves
-- the panel alone at EVENT_SET_SELECTED.
pub mod Wanted
pub mod Shown
use htop.Prelude.{
  ℕ, ◌+◌, ◌-◌, Bool, true, false, not, Option, none, some, List, [], ◌∷◌, ◌==◌, ◌&&◌, if◌then◌else◌,
}
use htop.Prelude.Int.{ℤ, pos, ltb_ℤ, eqb_ℤ, ◌-ℤ◌}
use htop.Panel
use htop.Panel.{Panel}
use htop.Process.{Process, is_thread, get_command_str}
use htop.Process.Compare.{text_or}
use htop.ProcessList.Scan.{get, follows}

pub record Shows : Type 0 where
  -- `none` where all users, all commands or all processes are shown.
  pub user_id : Option ℕ
  pub inc_filter : Option (List ℕ)
  pub pid_match_list : Option (List (ℕ × ℕ))
  pub hide_userland_threads : Bool
  pub show_thread_names : Bool

abbrev pub is_some : Option ℕ → Bool
is_some none = false
is_some (some n) = true

module _ (contains_i : List ℕ → List ℕ → Bool) (s : Shows) (heap : ℕ → Process) where
  -- The test of the loop, negated.
  unfoldable pub is_wanted : ℕ → Bool
  is_wanted p =
      let process = heap p in
      process.show
      && elim s.user_id as (λ _. Bool) [ none ↦ true | some id ↦ process.st_uid == id ]
      && elim s.inc_filter as (λ _. Bool) [
        | none ↦ true
        | some text ↦ contains_i (text_or [] (get_command_str s.show_thread_names process)) text
      ]
      && elim s.pid_match_list as (λ _. Bool) [
        | none ↦ true
        | some list ↦ is_some (get process.tgid list)
      ]

  -- The process that is followed from now on: the main process of a hidden thread.
  unfoldable pub followed : List (ℕ × ℕ) → Option ℕ → Option ℕ
  followed table none = none
  followed table (some pid) =
      if s.hide_userland_threads
      then elim (get pid table) as (λ _. Option ℕ) [
        | none ↦ some pid
        | some p ↦
            if is_thread (heap p) && is_some (get (heap p).tgid table)
            then some (heap p).tgid
            else some pid
      ]
      else some pid

  -- The loop over the processes, with `idx` lines in the panel: the panel, and whether the process
  -- that is followed was found.
  unfoldable pub fill_loop : Option ℕ → ℤ → List ℕ → ℕ → Panel ℕ × Bool → Panel ℕ × Bool
  unfolding is_wanted Panel.set Panel.set_selected
  fill_loop following scroll [] idx (q, found) = (q, found)
  fill_loop following scroll (p ∷ ps) idx (q, found) =
      if is_wanted p
      then (let next = (Panel.set q idx p).0 in
          if follows following (heap p).pid
          then fill_loop following scroll ps (idx + 1)
              (record (Panel.set_selected none next (pos idx)) { scroll_v = scroll }, true)
          else fill_loop following scroll ps (idx + 1) (next, found))
      else fill_loop following scroll ps idx (q, found)

  -- What follows the loop: the panel, the pid that is followed, and whether the colour of the
  -- selection is reset.
  unfoldable pub finish : Option ℕ → ℤ → ℤ → ℤ → Panel ℕ × Bool → (Panel ℕ × Option ℕ) × Bool
  unfolding Panel.set_selected
  finish following curr_pos curr_scroll curr_size (q, found) =
      let lost = is_some following && not found in
      let now = if lost then none else following in
      (
        (
          if is_some now
              then q
              else record (Panel.set_selected none q (
                  if ltb_ℤ (pos 0) curr_pos && eqb_ℤ curr_pos (curr_size -ℤ pos 1)
                  then Panel.size q -ℤ pos 1
                  else curr_pos)) { scroll_v = curr_scroll },
          now,
        ),
        lost,
      )

  unfoldable pub rebuild_panel :
      List (ℕ × ℕ) → List ℕ → Option ℕ → Panel ℕ → (Panel ℕ × Option ℕ) × Bool
  unfolding fill_loop followed Panel.prune finish
  rebuild_panel table processes before panel =
      let following = followed table before in
      finish following panel.selected panel.scroll_v (Panel.size panel)
        (fill_loop following panel.scroll_v processes 0 ((Panel.prune panel).0, false))
