-- ===== src/Threads/Heap.antt =====
-- The heap under both threads, at every moment.
pub mod Performing
pub mod Handling
use empower_enb_agent.Base.{ℕ, ◌+◌, ◌≡◌, ap, subst, Option, none, some, List, [], ◌∷◌, arith}
use empower_enb_agent.Agent.{World, Host, SchedCtx}
use empower_enb_agent.Memory.{Mem}
use empower_enb_agent.Task.{Task, TaskType, Timespec}
use empower_enb_agent.Trigger.{Trigger}
use empower_enb_agent.Trigger.Laws.{trig_blocks, new_blocks, trig_flush_lem, all_blocks}
use empower_enb_agent.Sched.Outcome.{
  Outcome, net_error, consumed, not_elapsed, reschedule, write_seq,
}
use empower_enb_agent.Sched.Perform.{measure_with, cell_meas_trigger}
use empower_enb_agent.Sched.Consume.{
  set_jobs, task_blocks, renewed, settle, dump_queues, flush_triggers, alert,
}
use empower_enb_agent.Sched.Frame.{sched_perform_job-frame}
use empower_enb_agent.Sched.Kept.{sched_perform_job-Keeps, ue_measure_calls-Keeps}
use empower_enb_agent.Sched.Service.Down.{queue_blocks, task_free-live}
use empower_enb_agent.Sched.Blocks.{Balanced, requeue_all-Balanced}
use empower_enb_agent.Sched.Loop.Ends.{dump_queues-Emptied}
use empower_enb_agent.Net.Link.{net_not_connected, net_send}
use empower_enb_agent.Net.Connect.{
  Attempt, net_connect_to_controller, net_connect_to_controller-Touched,
}
use empower_enb_agent.Net.Handlers.{new_task, new_trigger, schedule_msg}
use empower_enb_agent.Net.Blocks.{
  alloc_blocks, new_task-Balanced, new_trigger-Balanced, add_trigger-Balanced,
  del_trigger_id-Balanced, del_trigger_inst-Balanced, sched_add_task-Balanced, schedule_msg-Steady,
}
use empower_enb_agent.Core.{core_send}
use empower_enb_agent.Proto.{Msg}
use empower_enb_agent.Threads.{
  make, no_trigger, link, task, no_task, unlink, alloc, no_alloc, add, del, reset, attempt, online,
  wake, pop, perform, find_measure, find_cell, use_measure, use_cell, settled, failed, flush,
  number, transmit, sending, numbered, transmitted, disconnect, empty, requeue, finish, Sched,
  holding, looking, performed, Net, making, tasked, asked, job, SchedMove, NetMove,
}
use empower_enb_agent.Threads.Together.{
  by_sched, by_net, em_send, em_send_refused, em_del_trigger, halt, halt_net, moves_then, start,
  later, System, Move, Moves,
}
use empower_enb_agent.Threads.Heap.Performing.{sched_hand, SchedMove-Balanced}
use empower_enb_agent.Threads.Heap.Handling.{
  net_hand, net_lost, refused_message-Balanced, NetMove-Balanced,
}

-- `k` blocks beside those of the queues, of the triggers and in the hands of the threads.
abbrev pub InBalance : ℕ → System → Type 0
InBalance k s = Balanced (k + sched_hand s.sched + net_hand s.net) s.world

-- The blocks that a step, and a sequence of steps, loses: those of the tasks that a stopped
-- scheduler refused.
abbrev pub lost_by : {h : Host} {s s' : System} → Move h s s' → ℕ
lost_by (by_net mv) = net_lost mv
lost_by {h} {s} (em_send_refused msg size stop) =
    alloc_blocks (new_task h s.world TaskType.send 1 0 0 msg size).1
lost_by _ = 0

abbrev pub lost : {h : Host} {s s' : System} → Moves h s s' → ℕ
lost start = 0
lost (later more mv) = lost more + lost_by mv

module _ (h : Host) where
  pub Move-InBalance :
      (k : ℕ) (s s' : System) → (mv : Move h s s') → InBalance k s → InBalance (k + lost_by mv) s'
  unfolding core_send schedule_msg
  Move-InBalance k s s' (by_sched {w} {p} mv) b =
      omega
        (arith, SchedMove-Balanced h (k + net_hand s.net) s.world w s.sched p mv (omega (arith, b)))
  Move-InBalance k s s' (by_net {w} {q} mv) b =
      omega
        (arith, NetMove-Balanced h (k + sched_hand s.sched) s.world w s.net q mv (omega (arith, b)))
  Move-InBalance k s s' (em_send msg size go) b =
      let all = k + sched_hand s.sched + net_hand s.net in
      omega (arith, (schedule_msg-Steady h all s.world TaskType.send 1 0 msg size (go, b)).1)
  Move-InBalance k s s' (em_send_refused msg size stop) b =
      let all = k + sched_hand s.sched + net_hand s.net in
      omega (arith, refused_message-Balanced h all s.world msg size stop b)
  Move-InBalance k s s' (em_del_trigger id) b =
      let all = k + sched_hand s.sched + net_hand s.net in
      omega (arith, (del_trigger_id-Balanced h all s.world id b).0)
  Move-InBalance k s s' halt b = omega (arith, b)
  Move-InBalance k s s' halt_net b = omega (arith, b)

  pub lost-moves_then :
      (s1 s2 s3 : System) (a : Moves h s1 s2)
      → (b : Moves h s2 s3) → lost (moves_then a b) ≡ lost a + lost b
  lost-moves_then s1 s2 s3 a start = omega arith
  lost-moves_then s1 s2 s3 a (later {s1 = s} b mv) = omega (arith, lost-moves_then s1 s2 s a b)

  -- At every moment, with the steps of the threads and of the public API in any order, before and
  -- after a stop, whichever calls of `malloc` fail: every block beside `k` others is one of a queued
  -- task, of a trigger, of what a thread has in its hands, or of a task that a stopped scheduler
  -- refused, where it was so before.
  pub Moves-InBalance :
      (k : ℕ) (s s' : System) → (ms : Moves h s s') → InBalance k s → InBalance (k + lost ms) s'
  Moves-InBalance k s s' start b = omega (arith, b)
  Moves-InBalance k s s' (later {s1} more mv) b =
      omega (arith, Move-InBalance (k + lost more) s1 s' mv (Moves-InBalance k s s1 more b))
