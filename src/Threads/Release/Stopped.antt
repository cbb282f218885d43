-- ===== src/Threads/Release/Stopped.antt =====
-- What is left once the threads of an agent have ended.
use empower_enb_agent.Base.{
  ℕ, ◌+◌, ◌≡◌, refl, ap, sym, ◌∙◌, subst, true, false, Option, none, some, [], arith,
}
use empower_enb_agent.Agent.{World, Host}
use empower_enb_agent.Core.{core_send}
use empower_enb_agent.Proto.{Msg}
use empower_enb_agent.Task.{Task, TaskType}
use empower_enb_agent.Trigger.Laws.{trig_flush_lem}
use empower_enb_agent.Sched.Consume.{dump_queues, drain_tasks, flush_triggers}
use empower_enb_agent.Sched.Service.Down.{drain_tasks_lem, queue_blocks}
use empower_enb_agent.Sched.Blocks.{Balanced}
use empower_enb_agent.Sched.Job.{sched_add_task}
use empower_enb_agent.Net.Link.{net_not_connected}
use empower_enb_agent.Net.Connect.{net_connect_to_controller-Touched}
use empower_enb_agent.Net.Handlers.{
  new_task, net_sched_task, queue_new, new_trigger, add_trigger, del_trigger_id, del_trigger_inst,
  hello_added,
}
use empower_enb_agent.Threads.{
  refuse, refuse_hello, leave, make, no_trigger, link, task, no_task, unlink, alloc, no_alloc, add,
  del, reset, attempt, online, finish, Sched, ended, Net, over, SchedMove, NetMove,
}
use empower_enb_agent.Threads.Together.{
  System, Move, Moves, by_sched, by_net, em_send, em_send_refused, em_del_trigger, halt, halt_net,
  start, later,
}
use empower_enb_agent.Sched.Loop.{stop_sched}
use empower_enb_agent.Threads.Heap.Performing.{sched_hand}
use empower_enb_agent.Threads.Heap.Handling.{net_hand}
use empower_enb_agent.Threads.Heap.{InBalance, lost, Moves-InBalance}

-- A scheduler that has ended: it takes no task any more, and has none.
pub record Idle (w : World) : Type 0 where
  pub stop : w.agent.sched.stop ≡ true
  pub no_jobs : w.agent.sched.jobs ≡ []
  pub no_todo : w.agent.sched.todo ≡ []

abbrev pub Gone : Sched → World → Type 0
Gone ended w = Idle w
Gone _ w = Unit

abbrev pub IsClosed : System → Type 0
IsClosed s = Gone s.sched s.world

pub same-Gone : (p : Sched) (w w' : World) → w'.agent.sched ≡ w.agent.sched → Gone p w → Gone p w'
same-Gone ended w w' e g = record {
  stop = ap (λ c. c.stop) e ∙ g.stop;
  no_jobs = ap (λ c. c.jobs) e ∙ g.no_jobs;
  no_todo = ap (λ c. c.todo) e ∙ g.no_todo;
}
same-Gone p w w' e g = tt

module _ (h : Host) where
  SchedMove-Gone : (w w' : World) (p p' : Sched) → SchedMove h w p w' p' → Gone p' w'
  unfolding dump_queues
  SchedMove-Gone w w' p p' (finish stop) =
      let t = drain_tasks_lem h w.agent.sched.todo w.mem in
      let j =
        drain_tasks_lem h w.agent.sched.jobs
          (drain_tasks h w.agent.sched.todo w.agent.sched.todo w.mem).1 in
      record { stop = stop; no_jobs = j.0; no_todo = t.0 }
  SchedMove-Gone w w' p p' mv = tt

  -- Once the scheduler takes no tasks, the other thread does not change its context.
  pub NetMove-sched :
      (w w' : World) (q q' : Net)
      → NetMove h w q w' q'
      → w.agent.sched.stop ≡ true
      → w'.agent.sched ≡ w.agent.sched
  unfolding new_task new_trigger add_trigger del_trigger_id del_trigger_inst sched_add_task
      hello_added net_not_connected
  NetMove-sched w w' q q' (make m kind i msg size tk e) s = ap (λ x. x.0.agent.sched) (sym e)
  NetMove-sched w w' q q' (no_trigger m kind i msg size e) s = ap (λ x. x.0.agent.sched) (sym e)
  NetMove-sched w w' q q' link s = refl
  NetMove-sched w w' q q' (task e) s = ap (λ x. x.0.agent.sched) (sym e)
  NetMove-sched w w' q q' (no_task e) s = ap (λ x. x.0.agent.sched) (sym e)
  NetMove-sched w w' q q' unlink s = refl
  NetMove-sched w w' q q' (alloc kind x y msg size e) s = ap (λ z. z.0.agent.sched) (sym e)
  NetMove-sched w w' q q' (no_alloc kind x y msg size e) s = ap (λ z. z.0.agent.sched) (sym e)
  NetMove-sched w w' q q' (add go) s = cc
  NetMove-sched w w' q q' (refuse stop kind) s = ground arith
  NetMove-sched w w' q q' (refuse_hello stop kind) s = ground arith
  NetMove-sched w w' q q' (leave stop) s = refl
  NetMove-sched w w' q q' (del m kind i) s = refl
  NetMove-sched w w' q q' reset s = ground arith
  NetMove-sched w w' q q' (attempt a) s =
      ap (λ x. x.agent.sched) (net_connect_to_controller-Touched w a).only
  NetMove-sched w w' q q' online s = refl

  NetMove-Gone :
      (p : Sched) (w w' : World) (q q' : Net) → NetMove h w q w' q' → Gone p w → Gone p w'
  NetMove-Gone ended w w' q q' mv g = same-Gone ended w w' (NetMove-sched w w' q q' mv g.stop) g
  NetMove-Gone p w w' q q' mv g = tt

  refused_message : (p : Sched) (w w' : World) → w.agent.sched.stop ≡ false → Gone p w → Gone p w'
  refused_message ended w w' go g = let stop = g.stop in cc
  refused_message p w w' go g = tt

  refused_queue :
      (w : World) (o : Option Task)
      → w.agent.sched.stop ≡ true
      → (queue_new h (w, o)).0.agent.sched ≡ w.agent.sched
  unfolding queue_new net_sched_task sched_add_task
  refused_queue w none stop = refl
  refused_queue w (some t) stop = ground arith

  pub refused_sched :
      (w : World) (msg : Msg) (size : ℕ)
      → w.agent.sched.stop ≡ true
      → (core_send h w msg size).0.agent.sched ≡ w.agent.sched
  unfolding core_send new_task
  refused_sched w msg size stop =
      let made = new_task h w TaskType.send 1 0 0 msg size in refused_queue made.0 made.1 stop

  halted-Gone : (p : Sched) (w : World) → Gone p w → Gone p (stop_sched w)
  halted-Gone ended w g = record { stop = refl; no_jobs = g.no_jobs; no_todo = g.no_todo }
  halted-Gone p w g = tt

  pub Move-IsClosed : (s s' : System) → Move h s s' → IsClosed s → IsClosed s'
  unfolding del_trigger_id
  Move-IsClosed s s' (by_sched {w} {p} mv) g = SchedMove-Gone s.world w s.sched p mv
  Move-IsClosed s s' (by_net {w} {q} mv) g = NetMove-Gone s.sched s.world w s.net q mv g
  Move-IsClosed s s' (em_send msg size go) g = refused_message s.sched s.world s'.world go g
  Move-IsClosed s s' (em_send_refused msg size stop) g =
      same-Gone s.sched s.world s'.world (refused_sched s.world msg size stop) g
  Move-IsClosed s s' (em_del_trigger id) g = same-Gone s.sched s.world s'.world refl g
  Move-IsClosed s s' halt g = halted-Gone s.sched s.world g
  Move-IsClosed s s' halt_net g = same-Gone s.sched s.world s'.world refl g

  pub Moves-IsClosed : (s s' : System) → Moves h s s' → IsClosed s → IsClosed s'
  Moves-IsClosed s s' start g = g
  Moves-IsClosed s s' (later {s1} more mv) g = Move-IsClosed s1 s' mv (Moves-IsClosed s s1 more g)

-- The agent has nothing any more, and `n` blocks are held.
pub record Released (n : ℕ) (w : World) : Type 0 where
  pub live : w.mem.live ≡ n
  pub no_triggers : w.agent.trig.ts ≡ []
  pub no_jobs : w.agent.sched.jobs ≡ []
  pub no_todo : w.agent.sched.todo ≡ []

pub flushed-Released :
    (h : Host) (k : ℕ) (w : World) → Idle w → Balanced k w → Released k (flush_triggers h w)
unfolding flush_triggers
flushed-Released h k w idle b =
    let f = trig_flush_lem h.list w.agent.trig w.mem in
    record {
      live = omega (arith, f.1, b, ap queue_blocks idle.no_jobs, ap queue_blocks idle.no_todo);
      no_triggers = ap (λ c. c.ts) f.0;
      no_jobs = idle.no_jobs;
      no_todo = idle.no_todo;
    }

-- What `core_release_agent` leaves, whatever the threads and the public API did before and between:
-- when both threads have ended and the triggers are flushed, both queues and the list of triggers
-- are empty, and every block beside `k` others is freed, but for those of the tasks that the stopped
-- scheduler refused; where every block beside `k` was accounted for at first.
pub Moves-Released :
    (h : Host) (k : ℕ) (s s' : System)
    → (ms : Moves h s s') → InBalance k s
    → IsClosed s
    → s'.sched ≡ ended
    → s'.net ≡ over
    → Released (k + lost ms) (flush_triggers h s'.world)
Moves-Released h k s s' ms b c e o =
    let closed = subst (λ p. Gone p s'.world) e (Moves-IsClosed h s s' ms c) in
    let held = Moves-InBalance h k s s' ms b in
    flushed-Released h (k + lost ms) s'.world closed
      (omega (arith, held, ap sched_hand e, ap net_hand o))
