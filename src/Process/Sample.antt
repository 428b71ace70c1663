-- ===== src/Process/Sample.antt =====
-- A process of which only the ids matter, and settings that sort by user, for the examples.
use htop.Prelude.{ℕ, true, false, none}
use htop.Prelude.Int.{pos, negsuc}
use htop.Process.{Process, ProcessState}
use htop.Process.Field.{ProcessField}
use htop.Process.Compare.{SortSettings}

abbrev pub process : ℕ → ℕ → Process
process pid ppid = record {
  pid = pid;
  ppid = ppid;
  tgid = pid;
  pgrp = pos 0;
  session = pos 0;
  tpgid = pos 0;
  is_kernel_thread = false;
  is_userland_thread = false;
  tty_name = none;
  st_uid = 0;
  user = none;
  time = 0;
  cmdline = none;
  cmdline_basename_end = negsuc 0;
  cmdline_basename_start = pos 0;
  proc_comm = none;
  proc_exe = none;
  proc_cwd = none;
  proc_exe_basename_offset = 0;
  processor = pos 0;
  percent_cpu = pos 0;
  priority = pos 0;
  nice = pos 0;
  nlwp = pos 1;
  starttime_ctime = pos 0;
  m_virt = pos 0;
  m_resident = pos 0;
  minflt = 0;
  majflt = 0;
  state = ProcessState.sleeping;
  updated = true;
  tag = false;
  show = true;
  was_shown = false;
  show_children = true;
  seen_stamp_ms = 0;
  tomb_stamp_ms = 0;
  indent = pos 0;
  tree_left = 0;
  tree_right = 0;
  tree_depth = 0;
  tree_index = 0;
  merged_str = none;
  cmdline_changed = false;
  exe_changed = false;
  comm_changed = false;
}

abbrev pub by_user : SortSettings
by_user = record {
  tree_view = false;
  tree_view_always_by_pid = false;
  tree_sort_key = ProcessField.pid;
  sort_key = ProcessField.user;
  tree_direction = pos 1;
  direction = negsuc 0;
  show_thread_names = false;
}
