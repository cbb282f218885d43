-- ===== src/Sched/Consume.antt =====
-- agent/sched.c, lines 728 to 861: one run of the scheduler over its queue. Other threads may add
-- tasks while a task is performed; `arrivals` gives the tasks that come in during each round, and
-- an empty list of batches says that no more come. The fuel bounds the rounds of `while(nt)`.
use empower_enb_agent.Base.{
  ℕ, zero, suc, ◌+◌, ◌-◌, Bool, true, false, Option, none, some, List, [], ◌∷◌, is_positive,
  if◌then◌else◌,
}
use empower_enb_agent.Agent.{
  World, Host, disconnected, emit, clock_gettime, set_sched, set_mem, set_trig,
}
use empower_enb_agent.Memory.{Mem, msg_blocks}
use empower_enb_agent.Net.Link.{net_not_connected}
use empower_enb_agent.Task.{Task, Timespec, task_free}
use empower_enb_agent.Trigger.{trig_flush}
use empower_enb_agent.Sched.Outcome.{Outcome, net_error, consumed, not_elapsed, reschedule, has_op}
use empower_enb_agent.Sched.Job.{sched_perform_job}

-- The blocks that a task holds.
abbrev pub task_blocks : Task → ℕ
task_blocks t = suc (msg_blocks t.msg)

abbrev pub batch : List (List Task) → List Task
batch [] = []
batch (b ∷ bs) = b

abbrev pub later : List (List Task) → List (List Task)
later [] = []
later (b ∷ bs) = bs

abbrev pub set_jobs : List Task → World → World
set_jobs jobs w = set_sched (record (w.agent.sched) { jobs = jobs }) w

abbrev pub set_todo : List Task → World → World
set_todo todo w = set_sched (record (w.agent.sched) { todo = todo }) w

-- Another thread has allocated a task and put it at the end of the queue.
unfoldable pub arrive : Host → List Task → World → World
arrive h [] w = w
arrive h (t ∷ ts) w = arrive h ts (
    set_jobs (h.list_add_tail t w.agent.sched.jobs)
      (set_mem (record (w.mem) { live = w.mem.live + task_blocks t }) w))

-- `list_for_each_entry_safe(task, tmp, head, next) { list_del(&task->next); task_free(task); }`
unfoldable pub drain_tasks : Host → List Task → List Task → Mem → List Task × Mem
unfolding task_free
drain_tasks h ts [] m = (ts, m)
drain_tasks h ts (t ∷ tmp) m = drain_tasks h (h.list_del [] t tmp) tmp (task_free t m)

-- A rescheduled task, with the time of this run and one credit less unless it has none to lose.
unfoldable pub renewed : Task → Timespec → Task
renewed t now = record t {
  issued = now;
  resch = if is_positive t.resch then t.resch - 1 else t.resch;
}

-- The `switch` on the outcome.
unfoldable pub settle : Host → World → Task → Timespec → Outcome → World
unfolding renewed task_free
settle h w t now not_elapsed = set_todo (h.list_add t w.agent.sched.todo) w
settle h w t now reschedule = set_todo (h.list_add (renewed t now) w.agent.sched.todo) w
settle h w t now consumed = set_mem (task_free t w.mem) w
settle h w t now net_error = set_mem (task_free t w.mem) w

-- `if(ne) { … }`
unfoldable pub dump_queues : Host → World → World
unfolding drain_tasks
dump_queues h w =
    let s = w.agent.sched in
    let (todo, m) = drain_tasks h s.todo s.todo w.mem in
    let (jobs, m') = drain_tasks h s.jobs s.jobs m in
    set_mem m' (set_sched (record s { todo = todo; jobs = jobs }) w)

unfoldable pub flush_triggers : Host → World → World
unfolding trig_flush
flush_triggers h w =
    let (ctx, m) = trig_flush h.list w.agent.trig w.mem in set_mem m (set_trig ctx w)

unfoldable pub alert : World → World
unfolding has_op emit
alert w = if has_op (λ o. o.disconnected) w.agent then emit disconnected w else w

unfoldable pub network_down : Host → World → World
unfolding dump_queues flush_triggers alert net_not_connected
network_down h w = net_not_connected (alert (flush_triggers h (dump_queues h w)))

-- `list_for_each_entry_safe(task, tmp, &ctx->todo, next) { list_del(…); list_add(…, &ctx->jobs); }`
unfoldable pub requeue : Host → List Task → List Task → List Task → List Task × List Task
requeue h todo [] jobs = (todo, jobs)
requeue h todo (t ∷ tmp) jobs = requeue h (h.list_del [] t tmp) tmp (h.list_add t jobs)

unfoldable pub requeue_all : Host → World → World
unfolding requeue
requeue_all h w =
    let s = w.agent.sched in
    let (todo, jobs) = requeue h s.todo s.todo s.jobs in
    set_sched (record s { todo = todo; jobs = jobs }) w

abbrev pub is_net_error : Outcome → Bool
is_net_error net_error = true
is_net_error _ = false

-- The loop has ended: the world, the batches left, and whether by a network error.
pub record Ended : Type 0 where
  pub world : World
  pub left : List (List Task)
  pub down : Bool

-- One task, taken off the queue: performed, while a batch arrives, and settled.
unfoldable pub round : Host → World → Task → List Task → List Task → World × Bool
unfolding clock_gettime
round h w t rest new =
    let (w1, now) = clock_gettime h (set_jobs (h.list_del [] t rest) w) in
    let (w2, t', op) = sched_perform_job h w1 t now in
    (settle h (arrive h new w2) t' now op, is_net_error op)

unfoldable pub consume_loop : Host → ℕ → List (List Task) → World → Option Ended
consume_loop h zero arrivals w = none
consume_loop h (suc fuel) arrivals w = elim w.agent.sched.jobs [
  | [] ↦ some (record { world = w; left = arrivals; down = false })
  | t ∷ rest ↦
      let (w', ne) = round h w t rest (batch arrivals) in
      let again = consume_loop h fuel (later arrivals) w' in
      if ne
      then some (record { world = network_down h w'; left = later arrivals; down = true })
      else again
]

unfoldable pub finish : Host → Ended → World
finish h e = if e.down then e.world else requeue_all h (arrive h (batch e.left) e.world)

unfoldable pub sched_consume : Host → ℕ → List (List Task) → World → Option World
unfolding consume_loop finish
sched_consume h fuel arrivals w = elim (consume_loop h fuel arrivals w) [
  | none ↦ none
  | some e ↦ some (finish h e)
]
