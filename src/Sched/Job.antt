-- ===== src/Sched/Job.antt =====
-- agent/sched.c, lines 607 to 726: adding a task to the queue, and performing one.
use empower_enb_agent.Base.{ℕ, Bool, true, false, not, ◌==◌, ◌&&◌, minus_one, if◌then◌else◌}
use empower_enb_agent.Agent.{World, Host, clock_gettime, set_sched}
use empower_enb_agent.Task.{Task, TaskType, Timespec}
use empower_enb_agent.Sched.Outcome.{Outcome, consumed, not_elapsed, reschedule}
use empower_enb_agent.Sched.Time.{is_early}
use empower_enb_agent.Sched.Perform.{
  sched_perform_send, sched_perform_hello, sched_perform_enb_setup, sched_perform_ue_report,
  sched_perform_ue_measure, sched_perform_cell_meas, sched_perform_ho, sched_perform_ran_setup,
  sched_perform_ran_slice,
}

-- The result is the `int` that the call returns.
unfoldable pub sched_add_task : Host → World → Task → World × ℕ
unfolding clock_gettime
sched_add_task h w task =
    let (w', now) = clock_gettime h w in
    let s = w'.agent.sched in
    if s.stop then (w', minus_one) else (
      set_sched (record s { jobs = h.list_add_tail (record task { issued = now }) s.jobs }) w',
      0,
    )

abbrev with_task : Task → World × Outcome → World × Task × Outcome
with_task task (w, op) = (w, task, op)

-- The `switch` on the type of the task.
unfoldable pub perform : Host → World → Task → TaskType → World × Task × Outcome
perform h w task TaskType.send = sched_perform_send h w task
perform h w task TaskType.hello = with_task task (sched_perform_hello h w task)
perform h w task TaskType.enb_setup = with_task task (sched_perform_enb_setup h w task)
perform h w task TaskType.ue_report = with_task task (sched_perform_ue_report w task)
perform h w task TaskType.ue_measure = with_task task (sched_perform_ue_measure h w task)
perform h w task TaskType.cell_measure = with_task task (sched_perform_cell_meas h w task)
perform h w task TaskType.ho = with_task task (sched_perform_ho h w task)
perform h w task TaskType.ran_setup = with_task task (sched_perform_ran_setup h w task)
perform h w task TaskType.ran_slice = with_task task (sched_perform_ran_slice h w task)
perform h w task TaskType.invalid = (w, task, consumed)

-- `s == TASK_CONSUMED && task->resch`
abbrev pub is_consumed : Outcome → Bool
is_consumed consumed = true
is_consumed _ = false

unfoldable pub sched_perform_job : Host → World → Task → Timespec → World × Task × Outcome
unfolding is_early perform
sched_perform_job h w task now =
    if is_early task now
    then (w, task, not_elapsed)
    else (let (w', task', s) = perform h w task task.kind in
        (w', task', if is_consumed s && not (task'.resch == 0) then reschedule else s))
