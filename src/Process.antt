-- ===== src/Process.antt =====
-- Process.c and Process.h: what is known of one process. Numbers of a signed type are ℤ, of an
-- unsigned one ℕ; `percent_cpu`, a float, is a number of the same order. A string is `none` while its
-- pointer is NULL. Process ids are not negative.
pub mod Field
pub mod Compare
pub mod Update
pub mod Order
pub mod Sample
mod Tests
use htop.Prelude.{
  ℕ, ◌+◌, ◌-◌, ◌*◌, ◌≡◌, Bool, true, false, not, Option, none, some, List, [], ◌∷◌, ltb, leb, ◌==◌,
  ◌&&◌, ◌||◌, if◌then◌else◌,
}
use htop.Prelude.Int.{ℤ, pos, negsuc, ◌+ℤ◌}

pub data ProcessState : Type 0 where
  unknown runnable running queued waiting uninterruptible_wait blocked paging stopped traced zombie
        defunct idle sleeping :
      ProcessState

pub record Process : Type 0 where
  pub pid : ℕ
  pub ppid : ℕ
  pub tgid : ℕ
  pub pgrp : ℤ
  pub session : ℤ
  pub tpgid : ℤ
  pub is_kernel_thread : Bool
  pub is_userland_thread : Bool
  pub tty_name : Option (List ℕ)
  pub st_uid : ℕ
  pub user : Option (List ℕ)
  pub time : ℕ
  pub cmdline : Option (List ℕ)
  pub cmdline_basename_end : ℤ
  pub cmdline_basename_start : ℤ
  pub proc_comm : Option (List ℕ)
  pub proc_exe : Option (List ℕ)
  pub proc_cwd : Option (List ℕ)
  pub proc_exe_basename_offset : ℕ
  pub processor : ℤ
  pub percent_cpu : ℤ
  pub priority : ℤ
  pub nice : ℤ
  pub nlwp : ℤ
  pub starttime_ctime : ℤ
  pub m_virt : ℤ
  pub m_resident : ℤ
  pub minflt : ℕ
  pub majflt : ℕ
  pub state : ProcessState
  pub updated : Bool
  pub tag : Bool
  pub show : Bool
  pub was_shown : Bool
  pub show_children : Bool
  pub seen_stamp_ms : ℕ
  pub tomb_stamp_ms : ℕ
  pub indent : ℤ
  pub tree_left : ℕ
  pub tree_right : ℕ
  pub tree_depth : ℕ
  pub tree_index : ℕ
  -- The fields of `mergedCommand` that are used here.
  pub merged_str : Option (List ℕ)
  pub cmdline_changed : Bool
  pub exe_changed : Bool
  pub comm_changed : Bool

-- The value of the enumeration's constant.
unfoldable pub state_number : ProcessState → ℕ
state_number unknown = 1
state_number runnable = 2
state_number running = 3
state_number queued = 4
state_number waiting = 5
state_number uninterruptible_wait = 6
state_number blocked = 7
state_number paging = 8
state_number stopped = 9
state_number traced = 10
state_number zombie = 11
state_number defunct = 12
state_number idle = 13
state_number sleeping = 14

unfoldable pub process_state_char : ProcessState → ℕ
process_state_char unknown = b'?'
process_state_char runnable = b'U'
process_state_char running = b'R'
process_state_char queued = b'Q'
process_state_char waiting = b'W'
process_state_char uninterruptible_wait = b'D'
process_state_char blocked = b'B'
process_state_char paging = b'P'
process_state_char stopped = b'T'
process_state_char traced = b't'
process_state_char zombie = b'Z'
process_state_char defunct = b'X'
process_state_char idle = b'I'
process_state_char sleeping = b'S'

abbrev pub get_parent_pid : Process → ℕ
get_parent_pid p = if p.tgid == p.pid then p.ppid else p.tgid

abbrev pub is_child_of : Process → ℕ → Bool
is_child_of p pid = pid == get_parent_pid p

abbrev pub is_thread : Process → Bool
is_thread p = p.is_userland_thread || p.is_kernel_thread

unfoldable pub toggle_tag : Process → Process
toggle_tag p = record p { tag = not p.tag }

-- `monotonic_ms` and `highlight_delay_secs` are those of the process list and its settings.
unfoldable pub is_new : ℕ → ℕ → Process → Bool
is_new monotonic_ms highlight_delay_secs p =
    if leb p.seen_stamp_ms monotonic_ms
    then leb (monotonic_ms - p.seen_stamp_ms) (1000 * highlight_delay_secs)
    else false

unfoldable pub is_tomb : Process → Bool
is_tomb p = ltb 0 p.tomb_stamp_ms

-- The string of the Command column; `show_thread_names` is the setting.
unfoldable pub get_command_str : Bool → Process → Option (List ℕ)
get_command_str show_thread_names p =
    if p.is_userland_thread && show_thread_names
    then p.cmdline
    else elim p.merged_str [ none ↦ p.cmdline | some text ↦ some text ]

-- `accepted` is whether setpriority succeeds, `changed` whether getpriority then differs from before.
unfoldable pub set_priority : Bool → Bool → Bool → Process → ℤ → Bool × Process
set_priority readonly accepted changed p priority =
    if readonly
    then (false, p)
    else (accepted, if accepted && changed then record p { nice = priority } else p)
