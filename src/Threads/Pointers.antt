-- ===== src/Threads/Pointers.antt =====
-- The pointers into the list of triggers that a thread keeps after it has released the lock.
pub mod Pointing
pub mod Performing
pub mod Handling
use empower_enb_agent.Base.{
  ℕ, ◌<◌, ◌≡◌, refl, ap, subst, sym, Bool, true, false, Option, none, some, arith, ==_refl,
}
use empower_enb_agent.Agent.{World, Host}
use empower_enb_agent.Proto.{Msg}
use empower_enb_agent.Task.{Task, TaskType, Timespec}
use empower_enb_agent.Trigger.{Trigger, TrigCtx, has_id, trig_find_by_id, trig_add}
use empower_enb_agent.Trigger.Ids.{IsFresh, Below, found-Below, find_passes, trig_add-find}
use empower_enb_agent.Trigger.Room.{IsRoomy}
use empower_enb_agent.Sched.Perform.{measure_with, cell_meas_trigger}
use empower_enb_agent.Sched.Outcome.{Outcome, net_error, consumed, not_elapsed, reschedule}
use empower_enb_agent.Sched.Consume.{settle, dump_queues, alert, requeue_all}
use empower_enb_agent.Sched.Kept.{sched_perform_job-Keeps, ue_measure_calls-Keeps}
use empower_enb_agent.Sched.Job.{sched_add_task}
use empower_enb_agent.Net.Link.{net_not_connected, net_send}
use empower_enb_agent.Net.Connect.{net_connect_to_controller-Touched}
use empower_enb_agent.Net.Handlers.{new_task, new_trigger, add_trigger, queue_new, net_sched_task}
use empower_enb_agent.Core.{core_send}
use empower_enb_agent.Threads.{
  make, no_trigger, link, task, no_task, unlink, alloc, no_alloc, add, del, reset, attempt, online,
  wake, pop, perform, find_measure, find_cell, use_measure, use_cell, settled, failed, flush,
  number, transmit, disconnect, empty, requeue, finish, Sched, looking, Net, linked, asked,
  SchedMove, NetMove,
}
use empower_enb_agent.Threads.Together.{
  by_sched, by_net, em_send, em_send_refused, em_del_trigger, halt, halt_net, System, Move,
}
use empower_enb_agent.Threads.Pointers.Pointing.{Points, sched_pointer, net_pointer}
use empower_enb_agent.Threads.Pointers.Performing.{sched_deletes, SchedMove-Points}
use empower_enb_agent.Threads.Pointers.Handling.{net_deletes, NetMove-Kept}

pub record IsSafe (s : System) : Type 0 where
  pub of_sched : Points s.world.agent.trig (sched_pointer s.sched)
  pub of_net : Points s.world.agent.trig (net_pointer s.net)

-- Whether a step takes triggers out of the list.
abbrev pub deletes : {h : Host} {s s' : System} → Move h s s' → Bool
deletes (by_sched mv) = sched_deletes mv
deletes (by_net mv) = net_deletes mv
deletes (em_send msg size go) = false
deletes (em_send_refused msg size stop) = false
deletes (em_del_trigger id) = true
deletes halt = false
deletes halt_net = false

module _ (h : Host) where
  queue_new_trig : (w : World) (o : Option Task) → (queue_new h (w, o)).0.agent.trig ≡ w.agent.trig
  unfolding queue_new net_sched_task sched_add_task
  queue_new_trig w none = refl
  queue_new_trig w (some t) = ground arith

  core_send_trig :
      (w : World) (msg : Msg) (size : ℕ) → (core_send h w msg size).0.agent.trig ≡ w.agent.trig
  unfolding core_send new_task
  core_send_trig w msg size =
      let made = new_task h w TaskType.send 1 0 0 msg size in queue_new_trig made.0 made.1

  sent-IsSafe :
      (s : System) (msg : Msg) (size : ℕ)
      → IsSafe s
      → IsSafe (record s { world = (core_send h s.world msg size).0 })
  sent-IsSafe s msg size safe =
      let same = sym (core_send_trig s.world msg size) in
      record {
        of_sched = subst (λ c. Points c (sched_pointer s.sched)) same safe.of_sched;
        of_net = subst (λ c. Points c (net_pointer s.net)) same safe.of_net;
      }

  -- A trigger that a thread points to with no lock held stays in the list under every step of the
  -- threads and of the public API that takes no trigger out, and the pointers that a step gets are
  -- into the list; where the ids are distinct and the next one does not wrap.
  pub Move-IsSafe :
      (s s' : System)
      → (mv : Move h s s') → deletes mv ≡ false
      → IsRoomy 1 s.world.agent.trig
      → IsSafe s
      → IsSafe s'
  Move-IsSafe s s' (by_sched {w} {p} mv) d r safe =
      let (same, own) = SchedMove-Points h s.world w s.sched p mv d safe.of_sched in
      record {
        of_sched = own;
        of_net = subst (λ c. Points c (net_pointer s.net)) (sym same) safe.of_net;
      }
  Move-IsSafe s s' (by_net {w} {q} mv) d r safe =
      let k = NetMove-Kept h s.world w s.net q mv d r in
      record { of_sched = k.any_pointer (sched_pointer s.sched) safe.of_sched; of_net = k.own }
  Move-IsSafe s s' (em_send msg size go) d r safe = sent-IsSafe s msg size safe
  Move-IsSafe s s' (em_send_refused msg size stop) d r safe = sent-IsSafe s msg size safe
  Move-IsSafe s s' (em_del_trigger id) d r safe = cc
  Move-IsSafe s s' halt d r safe = record { of_sched = safe.of_sched; of_net = safe.of_net }
  Move-IsSafe s s' halt_net d r safe = record { of_sched = safe.of_sched; of_net = safe.of_net }
