-- ===== src/Examples/Scheduler.antt =====
-- Runs of the scheduler.
use empower_enb_agent.Base.{◌+◌, ◌<◌, ◌≡◌, refl, ◌⊎◌, true, false, some, List, [], ◌∷◌, ◌++◌, arith}
use empower_enb_agent.Agent.{World, set_sched}
use empower_enb_agent.Task.{Task, Timespec}
use empower_enb_agent.Sched.Time.{ts_diff_to_ms, is_early}
use empower_enb_agent.Sched.Time.Bounds.{nanos, is_early_bounds}
use empower_enb_agent.Sched.Perform.{
  sched_perform_send, sched_perform_ue_report, sched_to_ran_conf, zero_conf, zero_det,
}
use empower_enb_agent.Sched.Users.{sched_to_ran_conf_users}
use empower_enb_agent.Sched.Job.{sched_perform_job}
use empower_enb_agent.Sched.Consume.{sched_consume}
use empower_enb_agent.Sched.Service.{turn, Serves, idle, next}
use empower_enb_agent.Sched.Service.Refines.{sched_consume-Serves}
use empower_enb_agent.Sched.Service.Total.{Fails, here}
use empower_enb_agent.Sched.Service.Down.{Cleared, sched_consume-Fails}
use empower_enb_agent.Sched.Credit.{Fate, round-Fate}
use empower_enb_agent.Sched.Consume.{round}
use empower_enb_agent.Examples.Demo.{host, offline, hello_task, send_task, report_task, agent_with}

abbrev start : World
start = agent_with (hello_task ∷ send_task ∷ []) 5

-- While the first task has its turn, a report arrives.
abbrev arrivals : List (List Task)
arrivals = (report_task ∷ []) ∷ []

abbrev one : World
one = (turn host start hello_task (report_task ∷ [])).after

abbrev two : World
two = (turn host one send_task []).after

abbrev three : World
three = (turn host two report_task []).after

abbrev stays : List Task
stays =
    (turn host start hello_task (report_task ∷ [])).kept
    ++ ((turn host one send_task []).kept ++ ((turn host two report_task []).kept ++ []))

served : Serves host start (hello_task ∷ send_task ∷ []) arrivals three stays []
unfolding turn sched_perform_job ts_diff_to_ms sched_perform_send sched_perform_ue_report
served = next refl (next refl (next refl idle))

sched_consume-Serves_example :
    sched_consume host 9 arrivals start
    ≡ some (set_sched (record (start.agent.sched) { jobs = stays ++ []; todo = [] }) three)
unfolding served
sched_consume-Serves_example = sched_consume-Serves host served 9 refl (omega arith)

fails : Fails offline start (hello_task ∷ send_task ∷ []) arrivals
unfolding turn sched_perform_job ts_diff_to_ms sched_perform_send sched_perform_ue_report
fails = Fails.after refl (here refl)

sched_consume-Fails_example :
    (w' : World) × (sched_consume offline 9 arrivals start ≡ some w') × Cleared w'
unfolding fails
sched_consume-Fails_example = sched_consume-Fails offline start arrivals fails 9 (omega arith)

-- One nanosecond after the task was queued, with an interval of one millisecond, it is due.
abbrev late_task : Task
late_task = record send_task { issued = record { tv_sec = 9; tv_nsec = 999999999 } }

is_early_bounds_example :
    let now : Timespec = record { tv_sec = 10; tv_nsec = 0 } in
    ((is_early late_task now ≡ true) × (nanos now < nanos late_task.issued + 1000000))
    ⊎ ((is_early late_task now ≡ false) × (nanos late_task.issued + 1000000 < nanos now + 1000000))
is_early_bounds_example =
    is_early_bounds late_task (record { tv_sec = 10; tv_nsec = 0 }) (omega arith) (omega arith)
      (omega arith)

-- A report that is due, with a message behind it.
round-Fate_example :
    let r = round host start report_task (send_task ∷ []) [] in
    (kept : List Task) × (r.0.agent.sched.jobs ≡ send_task ∷ [])
    × (r.0.agent.sched.todo ≡ kept ++ [])
    × Fate report_task (host.clock 0) (is_early report_task (host.clock 0)) r.1 kept
round-Fate_example = round-Fate host start report_task [] (send_task ∷ [])

sched_to_ran_conf_users_example :
    let det = record zero_det { nof_users = 5; users = λ i. i + 70 } in
    let c = sched_to_ran_conf 3 det zero_conf in
    (c.users 2 ≡ 72) × (c.nof_users ≡ 5) × (c.user_sched ≡ 0) × (c.rbg ≡ 0)
sched_to_ran_conf_users_example =
    sched_to_ran_conf_users 3 (record zero_det { nof_users = 5; users = λ i. i + 70 }) zero_conf 2
