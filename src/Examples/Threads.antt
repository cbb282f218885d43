-- ===== src/Examples/Threads.antt =====
-- The sleep of a thread.
use empower_enb_agent.Base.{◌*◌, ◌+◌, ◌<◌, ◌≡◌, some}
use empower_enb_agent.Task.{Timespec}
use empower_enb_agent.Wait.{wait_time, reconnect_time}
use empower_enb_agent.Wait.Laws.{nanoseconds, wait_time_lem}

wait_time_lem_example :
    (wt : Timespec) × (wait_time 2100 ≡ some wt)
    × (nanoseconds wt ≡ 2100 * 1000000)
    × (wt.tv_nsec < 1000000000)
    × (nanoseconds (reconnect_time wt) ≡ 2100 * 1000000 + 1000000000)
wait_time_lem_example = wait_time_lem 2100
