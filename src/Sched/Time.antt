-- ===== src/Sched/Time.antt =====
-- agent/sched.c, lines 29 to 32 and 682 to 685: when a task is due.
pub mod Bounds
use empower_enb_agent.Base.{Bool}
use empower_enb_agent.Base.Int.{ℤ, sub_ℕ, ltb_ℤ, ◌+ℤ◌, ◌*ℤ◌, quot, signed32}
use empower_enb_agent.Task.{Task, Timespec}

-- `b - a` in milliseconds.
unfoldable pub ts_diff_to_ms : Timespec → Timespec → ℤ
ts_diff_to_ms a b = sub_ℕ b.tv_sec a.tv_sec *ℤ 1000 +ℤ quot (sub_ℕ b.tv_nsec a.tv_nsec) 1000000

unfoldable pub is_early : Task → Timespec → Bool
is_early task now = ltb_ℤ (ts_diff_to_ms task.issued now) (signed32 task.elapse)
