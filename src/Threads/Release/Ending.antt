-- ===== src/Threads/Release/Ending.antt =====
-- No step of the scheduler changes whether it is to stop.
use empower_enb_agent.Base.{◌≡◌, refl, ap, arith}
use empower_enb_agent.Agent.{World, Host}
use empower_enb_agent.Task.{Task, Timespec}
use empower_enb_agent.Sched.Outcome.{Outcome, net_error, consumed, not_elapsed, reschedule}
use empower_enb_agent.Sched.Consume.{settle, dump_queues, flush_triggers, alert, requeue_all}
use empower_enb_agent.Sched.Frame.{sched_perform_job-frame}
use empower_enb_agent.Sched.Kept.{ue_measure_calls-Keeps}
use empower_enb_agent.Sched.Perform.{measure_with, cell_meas_trigger}
use empower_enb_agent.Net.Link.{net_not_connected, net_send, net_next_seq}
use empower_enb_agent.Threads.{
  wake, pop, perform, find_measure, find_cell, use_measure, use_cell, number, transmit, settled,
  failed, flush, disconnect, empty, requeue, finish, Sched, SchedMove, asked,
}

module _ (h : Host) where
  pub settle_sched :
      (w : World) (t : Task) (now : Timespec) (op : Outcome)
      → ((settle h w t now op).agent.sched.stop ≡ w.agent.sched.stop)
        × ((settle h w t now op).agent.sched.jobs ≡ w.agent.sched.jobs)
  unfolding settle
  settle_sched w t now not_elapsed = (refl, refl)
  settle_sched w t now reschedule = (refl, refl)
  settle_sched w t now consumed = (refl, refl)
  settle_sched w t now net_error = (refl, refl)

  pub SchedMove-stop :
      (w w' : World) (p p' : Sched)
      → SchedMove h w p w' p'
      → w'.agent.sched.stop ≡ w.agent.sched.stop
  unfolding measure_with cell_meas_trigger net_next_seq net_send dump_queues flush_triggers
      net_not_connected alert requeue_all
  SchedMove-stop w w' p p' (wake go) = refl
  SchedMove-stop w w' p p' (pop e) = refl
  SchedMove-stop w w' p p' (perform {t}) =
      let fr = sched_perform_job-frame h w.agent.sched (asked w) t (h.clock w.asked) in
      ap (λ x. x.0.agent.sched.stop) fr
  SchedMove-stop w w' p p' (find_measure kind due set found) = refl
  SchedMove-stop w w' p p' (find_cell kind due set pos found) = refl
  SchedMove-stop w w' p p' (use_measure kind) = grind (arith, ue_measure_calls-Keeps)
  SchedMove-stop w w' p p' (use_cell kind) = ground arith
  SchedMove-stop w w' p p' (number kind due fits) = refl
  SchedMove-stop w w' p p' transmit = refl
  SchedMove-stop w w' p p' (settled {t} {now} {op} ok) = (settle_sched w t now op).0
  SchedMove-stop w w' p p' (failed {t} {now} {op} ne) = (settle_sched w t now op).0
  SchedMove-stop w w' p p' flush = refl
  SchedMove-stop w w' p p' disconnect = ground arith
  SchedMove-stop w w' p p' (empty e) = refl
  SchedMove-stop w w' p p' requeue = refl
  SchedMove-stop w w' p p' (finish stop) = refl
