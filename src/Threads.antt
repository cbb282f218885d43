-- ===== src/Threads.antt =====
-- The two threads of an agent, one critical section or one call at a time, with the other thread
-- and the public API in between. What a thread has in its local variables is in its position: a task
-- that is off the queue, a trigger that is not in the list yet, a pointer into the list.
pub mod Together
pub mod Handled
pub mod Heap
pub mod Messages
pub mod Numbers
pub mod Pointers
pub mod Races
pub mod Runs
pub mod Release
use empower_enb_agent.Base.{
  ℕ, suc, ◌≡◌, ◌≢◌, Bool, true, false, Option, none, some, List, [], ◌∷◌, ◌==◌, is_positive, ltb,
  if◌then◌else◌,
}
use empower_enb_agent.Agent.{World, Host, connected, set_net}
use empower_enb_agent.Proto.{Msg}
use empower_enb_agent.Task.{Task, TaskType, Timespec, hello}
use empower_enb_agent.Trigger.{Trigger, trig_find_by_id}
use empower_enb_agent.Sched.Time.{is_early}
use empower_enb_agent.Sched.Outcome.{
  Outcome, net_error, consumed, reschedule, has_op, write_seq, em_buf_size,
}
use empower_enb_agent.Sched.Perform.{measure_with, cell_meas_trigger}
use empower_enb_agent.Sched.Job.{sched_add_task, sched_perform_job}
use empower_enb_agent.Sched.Consume.{
  set_jobs, settle, dump_queues, flush_triggers, alert, requeue_all,
}
use empower_enb_agent.Sched.Loop.{stop_sched}
use empower_enb_agent.Net.Link.{net_not_connected, net_next_seq, net_send}
use empower_enb_agent.Net.Connect.{
  Attempt, net_connect_to_controller, net_connect_to_controller-Touched,
}
use empower_enb_agent.Net.Handlers.{
  new_task, new_trigger, add_trigger, del_trigger_id, del_trigger_inst, hello_added,
}
use empower_enb_agent.Core.{core_send}

-- Where the scheduler is in `sched_loop` and `sched_consume`.
pub data Sched : Type 0 where
  asleep : Sched  -- before the test of `stop`
  ready : Sched  -- at the head of `while(nt)`
  holding : (task : Task) → Sched  -- the task is off the queue
  looking : (task : Task) (now : Timespec) (trig : Trigger) → Sched  -- `trig_find_by_id` has returned
  sending : (task : Task) (now : Timespec) (seq : ℕ) → Sched  -- `net_next_seq` has returned
  performed : (task : Task) (now : Timespec) (op : Outcome) → Sched
  dumped : Sched  -- a network error: the queues are empty
  flushed : Sched  -- after `trig_flush`
  drained : Sched  -- the queue was found empty
  ended : Sched

-- Where the network thread is in the handler of a message. How many measurements the message still
-- asks for is left open: after each the thread is `listening`, where the next one, another message
-- and the end of the thread can follow.
pub data Net : Type 0 where
  listening : Net
  making : (trig : Trigger) (kind : TaskType) → Net  -- `trig_alloc` has returned
  linked : (trig : Trigger) (kind : TaskType) → Net  -- `trig_add` has returned
  unmaking : (id : ℕ) → Net  -- `task_alloc` has failed for the trigger
  tasked : (task : Task) → Net  -- `task_alloc` has returned
  over : Net  -- the thread has ended

-- A task that was performed with no network error.
abbrev pub outcome_of : Task → Outcome
outcome_of t = if t.resch == 0 then consumed else reschedule

-- After a look at the clock.
abbrev pub asked : World → World
asked w = record w { asked = suc w.asked }

-- `clock_gettime(…); op = sched_perform_job(…)`
abbrev pub job : Host → World → Task → World × Task × Outcome
job h w t = sched_perform_job h (asked w) t (h.clock w.asked)

-- A message with its number in it.
abbrev pub numbered : Host → Task → ℕ → Task
numbered h t seq = record t { msg = write_seq h t.msg t.msg_size seq }

abbrev pub transmitted : Host → World → Task → ℕ → World × Bool
transmitted h w t seq = net_send h w (write_seq h t.msg t.msg_size seq) t.msg_size

abbrev pub sent_outcome : Task → Bool → Outcome
sent_outcome t ok = if ok then outcome_of t else net_error

-- A step of the scheduler. Performing a task is one step, or two where it looks for a trigger or
-- takes a number: the pointer, and the number, are used after the lock is released.
pub data SchedMove (h : Host) (w : World) : Sched → World → Sched → Type 0 where
  wake : w.agent.sched.stop ≡ false → SchedMove h w asleep w ready
  pop :
      {t : Task} {rest : List Task}
      → w.agent.sched.jobs ≡ t ∷ rest
      → SchedMove h w ready (set_jobs (h.list_del [] t rest) w) (holding t)
  perform :
      {t : Task}
      → SchedMove h w
          (holding t)
          (job h w t).0
          (performed (job h w t).1 (h.clock w.asked) (job h w t).2)
  find_measure :
      {t : Task} {trig : Trigger}
      → t.kind ≡ TaskType.ue_measure
      → is_early t (h.clock w.asked) ≡ false
      → has_op (λ o. o.ue_measure) w.agent ≡ true
      → trig_find_by_id w.agent.trig t.trig ≡ some trig
      → SchedMove h w (holding t) (asked w) (looking t (h.clock w.asked) trig)
  find_cell :
      {t : Task} {trig : Trigger}
      → t.kind ≡ TaskType.cell_measure
      → is_early t (h.clock w.asked) ≡ false
      → has_op (λ o. o.cell_measure) w.agent ≡ true
      → is_positive t.trig ≡ true
      → trig_find_by_id w.agent.trig t.trig ≡ some trig
      → SchedMove h w (holding t) (asked w) (looking t (h.clock w.asked) trig)
  use_measure :
      {t : Task} {now : Timespec} {trig : Trigger}
      → t.kind ≡ TaskType.ue_measure
      → SchedMove h w
          (looking t now trig)
          (measure_with h w (some trig)).0
          (performed t now (outcome_of t))
  use_cell :
      {t : Task} {now : Timespec} {trig : Trigger}
      → t.kind ≡ TaskType.cell_measure
      → SchedMove h w
          (looking t now trig)
          (cell_meas_trigger h w (some trig)).0
          (performed t now (outcome_of t))
  number :
      {t : Task}
      → t.kind ≡ TaskType.send
      → is_early t (h.clock w.asked) ≡ false
      → ltb em_buf_size t.msg_size ≡ false
      → SchedMove h w
          (holding t)
          (set_net (net_next_seq w.agent.net).0 (asked w))
          (sending t (h.clock w.asked) (net_next_seq w.agent.net).1)
  transmit :
      {t : Task} {now : Timespec} {seq : ℕ}
      → SchedMove h w
          (sending t now seq)
          (transmitted h w t seq).0
          (performed (numbered h t seq) now (sent_outcome t (transmitted h w t seq).1))
  settled :
      {t : Task} {now : Timespec} {op : Outcome}
      → op ≢ net_error
      → SchedMove h w (performed t now op) (settle h w t now op) ready
  failed :
      {t : Task} {now : Timespec} {op : Outcome}
      → op ≡ net_error
      → SchedMove h w (performed t now op) (dump_queues h (settle h w t now op)) dumped
  flush : SchedMove h w dumped (flush_triggers h w) flushed
  disconnect : SchedMove h w flushed (net_not_connected (alert w)) asleep
  empty : w.agent.sched.jobs ≡ [] → SchedMove h w ready w drained
  requeue : SchedMove h w drained (requeue_all h w) asleep
  finish : w.agent.sched.stop ≡ true → SchedMove h w asleep (dump_queues h w) ended

-- A step of the network thread. A task that a stopped scheduler refuses is lost, but for the Hello,
-- which is freed.
pub data NetMove (h : Host) (w : World) : Net → World → Net → Type 0 where
  -- A message that becomes a trigger and a task.
  make :
      {w' : World} {trig : Trigger} (module_id kind instance_id : ℕ) (msg : Msg) (size : ℕ)
      (task_kind : TaskType)
      → new_trigger h w module_id kind instance_id msg size ≡ (w', some trig)
      → NetMove h w listening w' (making trig task_kind)
  no_trigger :
      {w' : World} (module_id kind instance_id : ℕ) (msg : Msg) (size : ℕ)
      → new_trigger h w module_id kind instance_id msg size ≡ (w', none)
      → NetMove h w listening w' listening
  link :
      {trig : Trigger} {kind : TaskType}
      → NetMove h w
          (making trig kind)
          (add_trigger h w trig).0
          (linked (add_trigger h w trig).1 kind)
  task :
      {w' : World} {trig : Trigger} {kind : TaskType} {s : Task}
      → new_task h w kind 1 0 trig.id none 0 ≡ (w', some s)
      → NetMove h w (linked trig kind) w' (tasked s)
  no_task :
      {w' : World} {trig : Trigger} {kind : TaskType}
      → new_task h w kind 1 0 trig.id none 0 ≡ (w', none)
      → NetMove h w (linked trig kind) w' (unmaking trig.id)
  unlink : {id : ℕ} → NetMove h w (unmaking id) (del_trigger_id h w id).0 listening
  -- A message that becomes a task, and the Hello.
  alloc :
      {w' : World} {s : Task} (kind : TaskType) (interval res : ℕ) (msg : Msg) (size : ℕ)
      → new_task h w kind interval res 0 msg size ≡ (w', some s)
      → NetMove h w listening w' (tasked s)
  no_alloc :
      {w' : World} (kind : TaskType) (interval res : ℕ) (msg : Msg) (size : ℕ)
      → new_task h w kind interval res 0 msg size ≡ (w', none)
      → NetMove h w listening w' listening
  add :
      {s : Task}
      → w.agent.sched.stop ≡ false
      → NetMove h w (tasked s) (sched_add_task h w s).0 listening
  refuse :
      {s : Task}
      → w.agent.sched.stop ≡ true
      → s.kind ≢ hello
      → NetMove h w (tasked s) (sched_add_task h w s).0 listening
  refuse_hello :
      {s : Task}
      → w.agent.sched.stop ≡ true
      → s.kind ≡ hello
      → NetMove h w (tasked s) (hello_added h (sched_add_task h w s) s).0 listening
  del :
      (module_id kind instance_id : ℕ)
      → NetMove h w listening (del_trigger_inst h w module_id kind instance_id).0 listening
  reset : NetMove h w listening (net_not_connected w) listening
  attempt : (a : Attempt) → NetMove h w listening (net_connect_to_controller w a).0 listening
  leave : w.agent.net.stop ≡ true → NetMove h w listening w over
  online : NetMove h w listening (set_net (record (w.agent.net) { status = connected }) w) listening
