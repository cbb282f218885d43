-- ===== src/Threads/Pointers/Performing.antt =====
-- The list of triggers under each step of the scheduler.
use empower_enb_agent.Base.{◌≡◌, refl, Bool, true, false, some, arith}
use empower_enb_agent.Agent.{World, Host}
use empower_enb_agent.Task.{Task, Timespec}
use empower_enb_agent.Trigger.{Trigger}
use empower_enb_agent.Sched.Perform.{measure_with, cell_meas_trigger}
use empower_enb_agent.Sched.Outcome.{Outcome, net_error, consumed, not_elapsed, reschedule}
use empower_enb_agent.Sched.Consume.{settle, dump_queues, alert, requeue_all}
use empower_enb_agent.Sched.Kept.{sched_perform_job-Keeps, ue_measure_calls-Keeps}
use empower_enb_agent.Net.Link.{net_not_connected, net_send}
use empower_enb_agent.Threads.{
  wake, pop, perform, find_measure, find_cell, use_measure, use_cell, settled, failed, flush,
  number, transmit, disconnect, empty, requeue, finish, Sched, asked, SchedMove,
}
use empower_enb_agent.Threads.Pointers.Pointing.{Points, sched_pointer, found_id}

-- Whether a step takes triggers out of the list.
abbrev pub sched_deletes : {h : Host} {w w' : World} {p p' : Sched} → SchedMove h w p w' p' → Bool
sched_deletes flush = true
sched_deletes _ = false

module _ (h : Host) where
  measured_trig :
      (w : World) (trig : Trigger) → (measure_with h w (some trig)).0.agent.trig ≡ w.agent.trig
  unfolding measure_with
  measured_trig w trig = grind (arith, ue_measure_calls-Keeps)

  cell_trig :
      (w : World) (trig : Trigger) → (cell_meas_trigger h w (some trig)).0.agent.trig ≡ w.agent.trig
  unfolding cell_meas_trigger
  cell_trig w trig = ground arith

  settle_trig :
      (w : World) (t : Task) (now : Timespec) (op : Outcome)
      → (settle h w t now op).agent.trig ≡ w.agent.trig
  unfolding settle
  settle_trig w t now not_elapsed = refl
  settle_trig w t now reschedule = refl
  settle_trig w t now consumed = refl
  settle_trig w t now net_error = refl

  -- A step of the scheduler that is not its flush leaves the list, and a pointer that it gets is one
  -- into the list.
  pub SchedMove-Points :
      (w w' : World) (p p' : Sched)
      → (mv : SchedMove h w p w' p') → sched_deletes mv ≡ false
      → Points w.agent.trig (sched_pointer p)
      → (w'.agent.trig ≡ w.agent.trig) × Points w'.agent.trig (sched_pointer p')
  unfolding dump_queues net_not_connected alert requeue_all net_send
  SchedMove-Points w w' p p' (wake go) d x = (refl, tt)
  SchedMove-Points w w' p p' (pop e) d x = (refl, tt)
  SchedMove-Points w w' p p' (perform {t}) d x =
      ((sched_perform_job-Keeps h (asked w) t (h.clock w.asked)).same_trig, tt)
  SchedMove-Points w w' p p' (find_measure {t} {trig} kind due set found) d x =
      (refl, found_id w.agent.trig t.trig trig found)
  SchedMove-Points w w' p p' (find_cell {t} {trig} kind due set pos found) d x =
      (refl, found_id w.agent.trig t.trig trig found)
  SchedMove-Points w w' p p' (use_measure {trig} kind) d x = (measured_trig w trig, tt)
  SchedMove-Points w w' p p' (use_cell {trig} kind) d x = (cell_trig w trig, tt)
  SchedMove-Points w w' p p' (number kind due fits) d x = (refl, tt)
  SchedMove-Points w w' p p' transmit d x = (refl, tt)
  SchedMove-Points w w' p p' (settled {t} {now} {op} ok) d x = (settle_trig w t now op, tt)
  SchedMove-Points w w' p p' (failed {t} {now} {op} ne) d x = (settle_trig w t now op, tt)
  SchedMove-Points w w' p p' flush d x = cc
  SchedMove-Points w w' p p' disconnect d x = (ground arith, tt)
  SchedMove-Points w w' p p' (empty e) d x = (refl, tt)
  SchedMove-Points w w' p p' requeue d x = (refl, tt)
  SchedMove-Points w w' p p' (finish stop) d x = (refl, tt)
