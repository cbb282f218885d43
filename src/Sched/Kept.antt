-- ===== src/Sched/Kept.antt =====
-- Performing a task allocates and frees nothing.
use empower_enb_agent.Base.{ℕ, zero, suc, ◌≡◌, refl, arith}
use empower_enb_agent.Agent.{World, Host}
use empower_enb_agent.Proto.{Rrc}
use empower_enb_agent.Task.{Task, TaskType, Timespec}
use empower_enb_agent.Trigger.{Trigger}
use empower_enb_agent.Sched.Outcome.{Outcome}
use empower_enb_agent.Sched.Perform.{
  sched_perform_send, sched_perform_hello, sched_perform_enb_setup, sched_perform_ue_report,
  sched_perform_ue_measure, sched_perform_cell_meas, sched_perform_ho, sched_perform_ran_setup,
  sched_perform_ran_slice, ue_measure_calls,
}
use empower_enb_agent.Sched.Job.{sched_perform_job, perform}
use empower_enb_agent.Sched.Consume.{task_blocks}

-- Performing leaves the heap and the triggers alone, and the task its blocks.
pub record Keeps (w : World) (t : Task) (r : World × Task × Outcome) : Type 0 where
  pub same_mem : r.0.mem ≡ w.mem
  pub same_trig : r.0.agent.trig ≡ w.agent.trig
  pub same_blocks : task_blocks r.1 ≡ task_blocks t

pub ue_measure_calls-Keeps :
    (t : Trigger) (rrc : ℕ → Rrc) (n : ℕ) (w : World)
    → ((ue_measure_calls t rrc n w).mem ≡ w.mem) × ((ue_measure_calls t rrc n w).agent ≡ w.agent)
unfolding ue_measure_calls
ue_measure_calls-Keeps t rrc zero w = (refl, refl)
ue_measure_calls-Keeps t rrc (suc n) w = ue_measure_calls-Keeps t rrc n _

module _ (h : Host) (w : World) (t : Task) where
  ue_measure-Keeps :
      let r = sched_perform_ue_measure h w t in (r.0.mem ≡ w.mem) × (r.0.agent ≡ w.agent)
  unfolding sched_perform_ue_measure
  ue_measure-Keeps = grind (arith, ue_measure_calls-Keeps)

  cell_meas-Keeps :
      let r = sched_perform_cell_meas h w t in (r.0.mem ≡ w.mem) × (r.0.agent ≡ w.agent)
  unfolding sched_perform_cell_meas
  cell_meas-Keeps = ground arith

  ran_slice-Keeps :
      let r = sched_perform_ran_slice h w t in (r.0.mem ≡ w.mem) × (r.0.agent ≡ w.agent)
  unfolding sched_perform_ran_slice
  ran_slice-Keeps = ground arith

  send-Keeps : Keeps w t (sched_perform_send h w t)
  unfolding sched_perform_send
  send-Keeps = ground arith

  perform-Keeps : (k : TaskType) → Keeps w t (perform h w t k)
  unfolding perform sched_perform_hello sched_perform_enb_setup sched_perform_ue_report
      sched_perform_ho sched_perform_ran_setup
  perform-Keeps TaskType.send = send-Keeps
  perform-Keeps TaskType.ue_measure = ground (arith, ue_measure-Keeps)
  perform-Keeps TaskType.cell_measure = ground (arith, cell_meas-Keeps)
  perform-Keeps TaskType.ran_slice = ground (arith, ran_slice-Keeps)
  perform-Keeps _ = ground arith

  pub sched_perform_job-Keeps : (now : Timespec) → Keeps w t (sched_perform_job h w t now)
  unfolding sched_perform_job
  sched_perform_job-Keeps now = ground (arith, perform-Keeps t.kind)
