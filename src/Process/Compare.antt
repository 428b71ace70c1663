-- ===== src/Process/Compare.antt =====
-- The comparisons that sort processes. `strcmp` is the C library's; a platform's class may
-- bring a comparison of its own, a parameter here.
use htop.Prelude.{ℕ, Bool, Option, none, some, List, [], ◌∷◌, drop, if◌then◌else◌}
use htop.Prelude.Int.{ℤ, pos, negsuc, ◌-ℤ◌, ltb_ℤ, eqb_ℤ}
use htop.Process.{Process, state_number, get_command_str}
use htop.Process.Field.{ProcessField}

-- SPACESHIP_NUMBER
abbrev pub spaceship : ℤ → ℤ → ℤ
spaceship a b = if ltb_ℤ b a then pos 1 else if ltb_ℤ a b then negsuc 0 else pos 0

abbrev pub minus : ℤ → ℤ
minus a = pos 0 -ℤ a

abbrev pub text_or : List ℕ → Option (List ℕ) → List ℕ
text_or d none = d
text_or d (some s) = s

abbrev pub kthread_id : List ℕ
kthread_id = b'K' ∷ b'T' ∷ b'H' ∷ b'R' ∷ b'E' ∷ b'A' ∷ b'D' ∷ []

-- What stands for a missing name.
abbrev pub thread_text : Process → List ℕ
thread_text p = if p.is_kernel_thread then kthread_id else []

-- The string that is compared for PROC_COMM and for PROC_EXE.
abbrev pub comm_text : Process → List ℕ
comm_text p = text_or (thread_text p) p.proc_comm

abbrev pub exe_text : Process → List ℕ
exe_text p = elim p.proc_exe [
  | none ↦ thread_text p
  | some exe ↦ drop p.proc_exe_basename_offset exe
]

-- The settings that a comparison reads.
pub record SortSettings : Type 0 where
  pub tree_view : Bool
  pub tree_view_always_by_pid : Bool
  pub tree_sort_key : ProcessField
  pub sort_key : ProcessField
  pub tree_direction : ℤ
  pub direction : ℤ
  pub show_thread_names : Bool

unfoldable pub get_active_sort_key : SortSettings → ProcessField
get_active_sort_key s =
    if s.tree_view
    then if s.tree_view_always_by_pid then ProcessField.pid else s.tree_sort_key
    else s.sort_key

unfoldable pub get_active_direction : SortSettings → ℤ
get_active_direction s = if s.tree_view then s.tree_direction else s.direction

unfoldable pub pid_compare : Process → Process → ℤ
pid_compare p q = spaceship (pos p.pid) (pos q.pid)

-- ELAPSED and STARTTIME: by the first result, else by pid.
abbrev pub or_by_pid : ℤ → Process → Process → ℤ
or_by_pid r p q = if eqb_ℤ r (pos 0) then spaceship (pos p.pid) (pos q.pid) else r

module _ (strcmp : List ℕ → List ℕ → ℤ) where
  -- `Process_compareByKey_Base`. The keys `other` end in a failed assertion of a debug build; without
  -- it they are compared by pid.
  unfoldable pub compare_by_key : SortSettings → ProcessField → Process → Process → ℤ
  unfolding state_number get_command_str
  compare_by_key s ProcessField.percent_cpu p q = spaceship p.percent_cpu q.percent_cpu
  compare_by_key s ProcessField.percent_norm_cpu p q = spaceship p.percent_cpu q.percent_cpu
  compare_by_key s ProcessField.percent_mem p q = spaceship p.m_resident q.m_resident
  compare_by_key s ProcessField.comm p q =
      strcmp (text_or [] (get_command_str s.show_thread_names p))
        (text_or [] (get_command_str s.show_thread_names q))
  compare_by_key s ProcessField.proc_comm p q = strcmp (comm_text p) (comm_text q)
  compare_by_key s ProcessField.proc_exe p q = strcmp (exe_text p) (exe_text q)
  compare_by_key s ProcessField.cwd p q = strcmp (text_or [] p.proc_cwd) (text_or [] q.proc_cwd)
  compare_by_key s ProcessField.elapsed p q =
      or_by_pid (minus (spaceship p.starttime_ctime q.starttime_ctime)) p q
  compare_by_key s ProcessField.majflt p q = spaceship (pos p.majflt) (pos q.majflt)
  compare_by_key s ProcessField.minflt p q = spaceship (pos p.minflt) (pos q.minflt)
  compare_by_key s ProcessField.m_resident p q = spaceship p.m_resident q.m_resident
  compare_by_key s ProcessField.m_virt p q = spaceship p.m_virt q.m_virt
  compare_by_key s ProcessField.nice p q = spaceship p.nice q.nice
  compare_by_key s ProcessField.nlwp p q = spaceship p.nlwp q.nlwp
  compare_by_key s ProcessField.pgrp p q = spaceship p.pgrp q.pgrp
  compare_by_key s ProcessField.pid p q = spaceship (pos p.pid) (pos q.pid)
  compare_by_key s ProcessField.ppid p q = spaceship (pos p.ppid) (pos q.ppid)
  compare_by_key s ProcessField.priority p q = spaceship p.priority q.priority
  compare_by_key s ProcessField.processor p q = spaceship p.processor q.processor
  compare_by_key s ProcessField.session p q = spaceship p.session q.session
  compare_by_key s ProcessField.starttime p q =
      or_by_pid (spaceship p.starttime_ctime q.starttime_ctime) p q
  compare_by_key s ProcessField.state p q =
      spaceship (pos (state_number p.state)) (pos (state_number q.state))
  compare_by_key s ProcessField.st_uid p q = spaceship (pos p.st_uid) (pos q.st_uid)
  compare_by_key s ProcessField.time p q = spaceship (pos p.time) (pos q.time)
  compare_by_key s ProcessField.tgid p q = spaceship (pos p.tgid) (pos q.tgid)
  compare_by_key s ProcessField.tpgid p q = spaceship p.tpgid q.tpgid
  compare_by_key s ProcessField.tty p q =
      strcmp (text_or (127 ∷ []) p.tty_name) (text_or (127 ∷ []) q.tty_name)
  compare_by_key s ProcessField.user p q = strcmp (text_or [] p.user) (text_or [] q.user)
  compare_by_key s (ProcessField.other n) p q = spaceship (pos p.pid) (pos q.pid)

  -- `Process_compareByKey`: by the function of the platform's class, if it has one, which is where
  -- keys of its own are compared.
  unfoldable pub compare_by_class :
      Option (ProcessField → Process → Process → ℤ)
      → SortSettings
      → ProcessField
      → Process
      → Process
      → ℤ
  unfolding compare_by_key
  compare_by_class none s key p q = compare_by_key s key p q
  compare_by_class (some by_key) s key p q = by_key key p q

  -- `Process_compare`
  unfoldable pub compare :
      Option (ProcessField → Process → Process → ℤ) → SortSettings → Process → Process → ℤ
  unfolding compare_by_class get_active_sort_key get_active_direction
  compare class s p q =
      let result = compare_by_class class s (get_active_sort_key s) p q in
      if eqb_ℤ result (pos 0)
      then spaceship (pos p.pid) (pos q.pid)
      else if eqb_ℤ (get_active_direction s) (pos 1)
      then result
      else minus result
