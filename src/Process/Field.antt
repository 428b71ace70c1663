-- ===== src/Process/Field.antt =====
-- The columns that every platform has (ProcessField in Process.h), and the others by number.
use htop.Prelude.{ℕ}

pub data ProcessField : Type 0 where
  pid comm state ppid pgrp session tty tpgid minflt majflt priority nice starttime processor m_virt
        m_resident st_uid percent_cpu percent_mem user time nlwp tgid percent_norm_cpu elapsed
        proc_comm proc_exe cwd :
      ProcessField
  other : ℕ → ProcessField
