-- ===== src/Wait.antt =====
-- agent/sched.c, lines 892 to 903, and agent/net.c, lines 1043 to 1057: the time that the threads
-- sleep, from an interval in milliseconds.
pub mod Laws
use empower_enb_agent.Base.{
  ℕ, zero, suc, ◌+◌, ◌-◌, ◌*◌, Option, none, some, ltb, not, Bool, true, false, if◌then◌else◌,
}
use empower_enb_agent.Task.{Timespec}

-- `while(wi >= 1000) { wi -= 1000; wt.tv_sec += 1; }` and `wt.tv_nsec = wi * 1000000`, on fuel.
unfoldable pub wait_loop : ℕ → ℕ → ℕ → Option Timespec
wait_loop zero wi sec = none
wait_loop (suc fuel) wi sec =
    let again = wait_loop fuel (wi - 1000) (sec + 1) in
    if ltb wi 1000 then some (record { tv_sec = sec; tv_nsec = wi * 1000000 }) else again

-- The sleep of a loop.
unfoldable pub wait_time : ℕ → Option Timespec
unfolding wait_loop
wait_time interval = wait_loop (suc interval) interval 0

-- At least one second between attempts to connect.
unfoldable pub reconnect_time : Timespec → Timespec
reconnect_time wt = record { tv_sec = 1 + wt.tv_sec; tv_nsec = wt.tv_nsec }
