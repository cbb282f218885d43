-- ===== src/Threads/Heap/Performing.antt =====
-- The heap under each step of the scheduler.
use empower_enb_agent.Base.{ℕ, ◌+◌, ◌≡◌, ap, some, List, [], ◌∷◌, arith}
use empower_enb_agent.Agent.{World, Host, SchedCtx}
use empower_enb_agent.Memory.{Mem}
use empower_enb_agent.Task.{Task, Timespec}
use empower_enb_agent.Trigger.{Trigger}
use empower_enb_agent.Trigger.Laws.{trig_flush_lem, all_blocks}
use empower_enb_agent.Sched.Outcome.{
  Outcome, net_error, consumed, not_elapsed, reschedule, write_seq,
}
use empower_enb_agent.Sched.Perform.{measure_with, cell_meas_trigger}
use empower_enb_agent.Sched.Consume.{
  set_jobs, task_blocks, renewed, settle, dump_queues, flush_triggers, alert,
}
use empower_enb_agent.Sched.Frame.{sched_perform_job-frame}
use empower_enb_agent.Sched.Kept.{sched_perform_job-Keeps, ue_measure_calls-Keeps}
use empower_enb_agent.Sched.Service.Down.{queue_blocks, task_free-live}
use empower_enb_agent.Sched.Blocks.{Balanced, requeue_all-Balanced}
use empower_enb_agent.Sched.Loop.Ends.{dump_queues-Emptied}
use empower_enb_agent.Net.Link.{net_not_connected, net_send}
use empower_enb_agent.Threads.{
  wake, pop, perform, find_measure, find_cell, use_measure, use_cell, settled, failed, flush,
  number, transmit, sending, numbered, transmitted, disconnect, empty, requeue, finish, Sched,
  holding, looking, performed, asked, job, SchedMove,
}

-- The blocks that the scheduler has and that are in no list.
abbrev pub sched_hand : Sched → ℕ
sched_hand (holding t) = task_blocks t
sched_hand (looking t now trig) = task_blocks t
sched_hand (sending t now seq) = task_blocks t
sched_hand (performed t now op) = task_blocks t
sched_hand _ = 0

module _ (h : Host) where
  measured-Balanced :
      (k : ℕ) (w : World) (trig : Trigger)
      → Balanced k w
      → Balanced k (measure_with h w (some trig)).0
  unfolding measure_with
  measured-Balanced k w trig b = grind (arith, ue_measure_calls-Keeps)

  cell-Balanced :
      (k : ℕ) (w : World) (trig : Trigger)
      → Balanced k w
      → Balanced k (cell_meas_trigger h w (some trig)).0
  unfolding cell_meas_trigger
  cell-Balanced k w trig b = ground arith

module _ (h : Host) (k : ℕ) where
  popped-Balanced :
      (w : World) (t : Task) (rest : List Task)
      → w.agent.sched.jobs ≡ t ∷ rest
      → Balanced k w
      → Balanced (k + task_blocks t) (set_jobs (h.list_del [] t rest) w)
  popped-Balanced w t rest e b =
      rw (h.list_del_unlinks [] t rest) (omega (arith, b, ap queue_blocks e))

  job-Balanced :
      (w : World) (t : Task)
      → Balanced (k + task_blocks t) w
      → let r = job h w t in Balanced (k + task_blocks r.1) r.0
  job-Balanced w t b =
      let kp = sched_perform_job-Keeps h (asked w) t (h.clock w.asked) in
      let fr = sched_perform_job-frame h w.agent.sched (asked w) t (h.clock w.asked) in
      let r = job h w t in
      let same : r.0.agent.sched ≡ w.agent.sched = ap (λ x. x.0.agent.sched) fr in
      omega (
        arith,
        b,
        kp.same_blocks,
        ap (λ (m : Mem). m.live) kp.same_mem,
        ap (λ c. all_blocks c.ts) kp.same_trig,
        ap (λ (c : SchedCtx). queue_blocks c.jobs) same,
        ap (λ (c : SchedCtx). queue_blocks c.todo) same,
      )

  settle-Balanced :
      (w : World) (t : Task) (now : Timespec) (op : Outcome)
      → Balanced (k + task_blocks t) w
      → Balanced k (settle h w t now op)
  unfolding settle renewed
  settle-Balanced w t now not_elapsed b = rw h.list_add_first (omega arith)
  settle-Balanced w t now reschedule b = rw h.list_add_first (omega arith)
  settle-Balanced w t now consumed b = omega (arith, task_free-live t w.mem)
  settle-Balanced w t now net_error b = omega (arith, task_free-live t w.mem)

  dumped-Balanced : (w : World) → Balanced k w → Balanced k (dump_queues h w)
  dumped-Balanced w b =
      let e = dump_queues-Emptied h k w b in
      omega (
        arith,
        e.live,
        ap queue_blocks e.no_jobs,
        ap queue_blocks e.no_todo,
        ap (λ c. all_blocks c.ts) e.same_trig,
      )

  flushed-Balanced : (w : World) → Balanced k w → Balanced k (flush_triggers h w)
  unfolding flush_triggers
  flushed-Balanced w b =
      let f = trig_flush_lem h.list w.agent.trig w.mem in
      omega (arith, f.1, b, ap (λ c. all_blocks c.ts) f.0)

  disconnected-Balanced : (w : World) → Balanced k w → Balanced k (net_not_connected (alert w))
  unfolding net_not_connected alert
  disconnected-Balanced w b = ground arith

  transmitted-Balanced :
      (w : World) (t : Task) (seq : ℕ)
      → Balanced (k + task_blocks t) w
      → Balanced (k + task_blocks (numbered h t seq)) (transmitted h w t seq).0
  unfolding net_send write_seq
  transmitted-Balanced w t seq b = ground (arith, b)

  pub SchedMove-Balanced :
      (w w' : World) (p p' : Sched)
      → SchedMove h w p w' p'
      → Balanced (k + sched_hand p) w
      → Balanced (k + sched_hand p') w'
  SchedMove-Balanced w w' p p' (wake go) b = b
  SchedMove-Balanced w w' p p' (pop {t} {rest} e) b = popped-Balanced w t rest e (omega (arith, b))
  SchedMove-Balanced w w' p p' (perform {t}) b = job-Balanced w t b
  SchedMove-Balanced w w' p p' (find_measure kind due set found) b = b
  SchedMove-Balanced w w' p p' (find_cell kind due set pos found) b = b
  SchedMove-Balanced w w' p p' (use_measure {t} {now} {trig} kind) b =
      measured-Balanced h (k + task_blocks t) w trig b
  SchedMove-Balanced w w' p p' (use_cell {t} {now} {trig} kind) b =
      cell-Balanced h (k + task_blocks t) w trig b
  SchedMove-Balanced w w' p p' (number kind due fits) b = b
  SchedMove-Balanced w w' p p' (transmit {t} {now} {seq}) b = transmitted-Balanced w t seq b
  SchedMove-Balanced w w' p p' (settled {t} {now} {op} ok) b =
      omega (arith, settle-Balanced w t now op b)
  SchedMove-Balanced w w' p p' (failed {t} {now} {op} ne) b =
      omega (arith, dumped-Balanced (settle h w t now op) (settle-Balanced w t now op b))
  SchedMove-Balanced w w' p p' flush b = omega (arith, flushed-Balanced w (omega (arith, b)))
  SchedMove-Balanced w w' p p' disconnect b =
      omega (arith, disconnected-Balanced w (omega (arith, b)))
  SchedMove-Balanced w w' p p' (empty e) b = b
  SchedMove-Balanced w w' p p' requeue b =
      omega (arith, requeue_all-Balanced h k w (omega (arith, b)))
  SchedMove-Balanced w w' p p' (finish stop) b = omega (arith, dumped-Balanced w (omega (arith, b)))
