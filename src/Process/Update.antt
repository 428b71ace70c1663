-- ===== src/Process/Update.antt =====
-- How a scan renews the names of a process: `Process_updateComm`, `Process_updateCmdline` and
-- `Process_updateExe`.
pub mod Basename
use htop.Prelude.{
  ℕ, zero, suc, ◌+◌, ◌-◌, Bool, true, false, not, Option, none, some, List, [], ◌∷◌, ltb, leb, ◌==◌,
  ◌&&◌, ◌||◌, if◌then◌else◌, length, get_or,
}
use htop.Prelude.Int.{ℤ, pos, pos_part}
use htop.Process.{Process}

-- String_eq
unfoldable pub text_eq : List ℕ → List ℕ → Bool
text_eq [] [] = true
text_eq [] (c ∷ cs) = false
text_eq (c ∷ cs) [] = false
text_eq (c ∷ cs) (d ∷ ds) = c == d && text_eq cs ds

-- The two early returns: both are NULL, or both are there and equal.
abbrev pub unchanged : Option (List ℕ) → Option (List ℕ) → Bool
unchanged none none = true
unchanged none (some new) = false
unchanged (some old) none = false
unchanged (some old) (some new) = text_eq old new

unfoldable pub update_comm : Process → Option (List ℕ) → Process
unfolding text_eq
update_comm p comm =
    if unchanged p.proc_comm comm then p else record p { proc_comm = comm; comm_changed = true }

-- The loop of `skipPotentialPath`: `n` rounds are left, the next one at index `i`. Behind the string
-- stands its NUL.
unfoldable pub skip_loop : List ℕ → ℕ → ℕ → ℕ → ℕ
skip_loop s zero i slash = slash
skip_loop s (suc n) i slash =
    let c = get_or s i 0 in
    let after = get_or s (i + 1) 0 in
    elim (c == b'/' && not (after == 0)) [
      | true ↦ skip_loop s n (i + 1) (i + 1)
      | false ↦ elim (c == b' ' && not (get_or s (i - 1) 0 == 92)) [
        | true ↦ slash
        | false ↦ elim (c == b':' && after == b' ') [
          | true ↦ slash
          | false ↦ skip_loop s n (i + 1) slash
        ]
      ]
    ]

unfoldable pub skip_potential_path : List ℕ → ℕ → ℕ
unfolding skip_loop
skip_potential_path s end = if get_or s 0 0 == b'/' then skip_loop s (end - 1) 1 0 else 0

-- The two ends of the basename are not negative where the command line is set.
unfoldable pub update_cmdline : Process → Option (List ℕ) → ℕ → ℕ → Process
unfolding text_eq skip_potential_path
update_cmdline p cmdline basename_start basename_end =
    if unchanged p.cmdline cmdline then p else record p {
      cmdline = cmdline;
      cmdline_basename_start = elim cmdline [
        | none ↦ pos basename_start
        | some s ↦
            if not (basename_start == 0)
            then pos basename_start
            else pos (skip_potential_path s basename_end)
      ];
      cmdline_basename_end = pos basename_end;
      cmdline_changed = true;
    }

-- strrchr, from the index `i` on: the last slash.
unfoldable pub last_slash : List ℕ → ℕ → Option ℕ
last_slash [] i = none
last_slash (c ∷ cs) i = elim (last_slash cs (i + 1)) [
  | some j ↦ some j
  | none ↦ if c == b'/' then some i else none
]

unfoldable pub exe_basename_offset : List ℕ → ℕ
unfolding last_slash
exe_basename_offset exe = elim (last_slash exe 0) [
  | none ↦ 0
  | some i ↦ if not (get_or exe (i + 1) 0 == 0) && not (i == 0) then i + 1 else 0
]

unfoldable pub update_exe : Process → Option (List ℕ) → Process
unfolding text_eq exe_basename_offset
update_exe p exe = if unchanged p.proc_exe exe then p else record p {
  proc_exe = exe;
  proc_exe_basename_offset = elim exe [ none ↦ 0 | some text ↦ exe_basename_offset text ];
  exe_changed = true;
}
