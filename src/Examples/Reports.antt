-- ===== src/Examples/Reports.antt =====
-- A report that is made three times, every second.
use empower_enb_agent.Base.{ℕ, suc, ◌≡◌, refl, false, some, [], ◌∷◌, arith}
use empower_enb_agent.Agent.{World}
use empower_enb_agent.Sched.Time.{is_early, ts_diff_to_ms}
use empower_enb_agent.Sched.Outcome.{has_op}
use empower_enb_agent.Sched.Loop.{sched_loop}
use empower_enb_agent.Sched.Loop.Reports.{report, call, with_jobs, quiet_rounds, sched_loop-reports}
use empower_enb_agent.Examples.Demo.{host, agent_with, idle_task}

paced : (i : ℕ) → is_early (report idle_task 0 (host.clock i)) (host.clock (suc i)) ≡ false
unfolding is_early ts_diff_to_ms
paced i = ground arith

sched_loop-reports_example :
    (w' : World) × (sched_loop host
        (quiet_rounds 3)
        (with_jobs (report idle_task 2 idle_task.issued ∷ []) (agent_with [] 2))
      ≡ some w')
    × (w'.agent.sched.jobs ≡ [])
    × (w'.out ≡ call idle_task ∷ call idle_task ∷ call idle_task ∷ [])
unfolding is_early ts_diff_to_ms has_op
sched_loop-reports_example =
    sched_loop-reports host idle_task 2 idle_task.issued (agent_with [] 2) (omega arith) refl refl
      paced
