-- ===== src/ProcessList/Sweep.antt =====
-- What the loop behind a scan should do with one process.
pub mod Round
pub mod Loop
use htop.Prelude.{ℕ, ◌+◌, ◌*◌, Bool, not, ltb, ◌==◌, ◌&&◌, ◌||◌, if◌then◌else◌}
use htop.Process.{Process}

module _ (highlight_changes : Bool) (highlight_delay_secs now : ℕ) where
  -- Whether a process stays in the list, and what it is then: one that is gone is kept for a while
  -- with a mark where changes are highlighted.
  unfoldable pub stays : Process → Bool
  stays p =
      if ltb 0 p.tomb_stamp_ms
      then ltb now p.tomb_stamp_ms
      else p.updated || (highlight_changes && p.was_shown)

  unfoldable pub settled : Process → Process
  settled p =
      if (p.tomb_stamp_ms == 0) && (not p.updated && (highlight_changes && p.was_shown))
      then record p { tomb_stamp_ms = now + 1000 * highlight_delay_secs }
      else p
