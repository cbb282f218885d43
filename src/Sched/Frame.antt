-- ===== src/Sched/Frame.antt =====
-- Performing a task neither reads nor writes the scheduler's own state.
use empower_enb_agent.Base.{ℕ, zero, suc, ◌≡◌, refl, arith}
use empower_enb_agent.Agent.{World, Host, SchedCtx, set_sched}
use empower_enb_agent.Proto.{Rrc, Msg}
use empower_enb_agent.Task.{Task, TaskType, Timespec}
use empower_enb_agent.Trigger.{Trigger}
use empower_enb_agent.Sched.Outcome.{sched_send_msg}
use empower_enb_agent.Sched.Perform.{
  sched_perform_send, sched_perform_hello, sched_perform_enb_setup, sched_perform_ue_report,
  sched_perform_ue_measure, sched_perform_cell_meas, sched_perform_ho, sched_perform_ran_setup,
  sched_perform_ran_slice, ue_measure_calls,
}
use empower_enb_agent.Sched.Job.{sched_perform_job, perform}

-- The same result, in a world with the scheduler state `s`.
abbrev pub resched {ℓ} : {A : Type ℓ} → SchedCtx → World × A → World × A
resched s (w, a) = (set_sched s w, a)

module _ (h : Host) (s : SchedCtx) (w : World) where
  send_msg-frame :
      (msg : Msg) (size : ℕ)
      → sched_send_msg h (set_sched s w) msg size
        ≡ (let (w', m, op) = sched_send_msg h w msg size in (set_sched s w', m, op))
  unfolding sched_send_msg
  send_msg-frame msg size = ground arith

  send-frame :
      (t : Task)
      → sched_perform_send h (set_sched s w) t
        ≡ (let (w', t', op) = sched_perform_send h w t in (set_sched s w', t', op))
  unfolding sched_perform_send
  send-frame t = ground arith

  hello-frame :
      (t : Task) → sched_perform_hello h (set_sched s w) t ≡ resched s (sched_perform_hello h w t)
  unfolding sched_perform_hello
  hello-frame t = ground arith

  enb_setup-frame :
      (t : Task)
      → sched_perform_enb_setup h (set_sched s w) t ≡ resched s (sched_perform_enb_setup h w t)
  unfolding sched_perform_enb_setup
  enb_setup-frame t = ground arith

  ho-frame : (t : Task) → sched_perform_ho h (set_sched s w) t ≡ resched s (sched_perform_ho h w t)
  unfolding sched_perform_ho
  ho-frame t = ground arith

  cell_meas-frame :
      (t : Task)
      → sched_perform_cell_meas h (set_sched s w) t ≡ resched s (sched_perform_cell_meas h w t)
  unfolding sched_perform_cell_meas
  cell_meas-frame t = ground arith

  ran_setup-frame :
      (t : Task)
      → sched_perform_ran_setup h (set_sched s w) t ≡ resched s (sched_perform_ran_setup h w t)
  unfolding sched_perform_ran_setup
  ran_setup-frame t = ground arith

  ran_slice-frame :
      (t : Task)
      → sched_perform_ran_slice h (set_sched s w) t ≡ resched s (sched_perform_ran_slice h w t)
  unfolding sched_perform_ran_slice
  ran_slice-frame t = ground arith

  ue_report-frame :
      (t : Task)
      → sched_perform_ue_report (set_sched s w) t ≡ resched s (sched_perform_ue_report w t)
  unfolding sched_perform_ue_report
  ue_report-frame t = ground arith

ue_measure_calls-frame :
    (s : SchedCtx) (t : Trigger) (rrc : ℕ → Rrc) (n : ℕ) (w : World)
    → ue_measure_calls t rrc n (set_sched s w) ≡ set_sched s (ue_measure_calls t rrc n w)
unfolding ue_measure_calls
ue_measure_calls-frame s t rrc zero w = refl
ue_measure_calls-frame s t rrc (suc n) w = ue_measure_calls-frame s t rrc n _

ue_measure-frame :
    (h : Host) (s : SchedCtx) (w : World) (t : Task)
    → sched_perform_ue_measure h (set_sched s w) t ≡ resched s (sched_perform_ue_measure h w t)
unfolding sched_perform_ue_measure
ue_measure-frame h s w t = grind (arith, ue_measure_calls-frame)

perform-frame :
    (h : Host) (s : SchedCtx) (w : World) (t : Task) (k : TaskType)
    → perform h (set_sched s w) t k
      ≡ (let (w', t', op) = perform h w t k in (set_sched s w', t', op))
unfolding perform
perform-frame h s w t TaskType.send = send-frame h s w t
perform-frame h s w t TaskType.hello = ground (arith, hello-frame h s w t)
perform-frame h s w t TaskType.enb_setup = ground (arith, enb_setup-frame h s w t)
perform-frame h s w t TaskType.ue_report = ground (arith, ue_report-frame h s w t)
perform-frame h s w t TaskType.ue_measure = ground (arith, ue_measure-frame h s w t)
perform-frame h s w t TaskType.cell_measure = ground (arith, cell_meas-frame h s w t)
perform-frame h s w t TaskType.ho = ground (arith, ho-frame h s w t)
perform-frame h s w t TaskType.ran_setup = ground (arith, ran_setup-frame h s w t)
perform-frame h s w t TaskType.ran_slice = ground (arith, ran_slice-frame h s w t)
perform-frame h s w t TaskType.invalid = refl

-- Performing a task does not depend on the scheduler's own state and does not change it: with any
-- other such state in the world the result is the same, with that state in it.
pub sched_perform_job-frame :
    (h : Host) (s : SchedCtx) (w : World) (t : Task) (now : Timespec)
    → sched_perform_job h (set_sched s w) t now
      ≡ (let (w', t', op) = sched_perform_job h w t now in (set_sched s w', t', op))
unfolding sched_perform_job
sched_perform_job-frame h s w t now = ground (arith, perform-frame h s w t t.kind)
