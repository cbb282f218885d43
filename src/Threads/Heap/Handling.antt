-- ===== src/Threads/Heap/Handling.antt =====
-- The heap under each step of the network thread.
use empower_enb_agent.Base.{ℕ, ◌+◌, ◌≡◌, true, subst, Option, none, some, arith}
use empower_enb_agent.Agent.{World, Host}
use empower_enb_agent.Task.{Task, TaskType}
use empower_enb_agent.Trigger.{Trigger}
use empower_enb_agent.Trigger.Laws.{trig_blocks, new_blocks}
use empower_enb_agent.Sched.Consume.{task_blocks}
use empower_enb_agent.Sched.Blocks.{Balanced}
use empower_enb_agent.Net.Link.{net_not_connected}
use empower_enb_agent.Net.Connect.{
  Attempt, net_connect_to_controller, net_connect_to_controller-Touched,
}
use empower_enb_agent.Net.Handlers.{new_task, new_trigger, hello_added, net_sched_task, queue_new}
use empower_enb_agent.Core.{core_send}
use empower_enb_agent.Sched.Job.{sched_add_task}
use empower_enb_agent.Sched.Service.Down.{task_free-live}
use empower_enb_agent.Net.Blocks.{
  alloc_blocks, new_task-Balanced, new_trigger-Balanced, add_trigger-Balanced,
  del_trigger_id-Balanced, del_trigger_inst-Balanced, sched_add_task-Balanced,
}
use empower_enb_agent.Proto.{Msg}
use empower_enb_agent.Threads.{
  refuse, refuse_hello, leave, make, no_trigger, link, task, no_task, unlink, alloc, no_alloc, add,
  del, reset, attempt, online, Net, making, tasked, NetMove,
}

-- The blocks that the network thread has and that are in no list.
abbrev pub net_hand : Net → ℕ
net_hand (making trig kind) = trig_blocks trig
net_hand (tasked t) = task_blocks t
net_hand _ = 0

-- The blocks that a step loses: those of a task that was refused.
abbrev pub net_lost : {h : Host} {w w' : World} {q q' : Net} → NetMove h w q w' q' → ℕ
net_lost (refuse {s = t} stop kind) = task_blocks t
net_lost _ = 0

module _ (h : Host) (k : ℕ) where
  refused-Balanced :
      (w : World) (t : Task)
      → w.agent.sched.stop ≡ true
      → Balanced (k + task_blocks t) w
      → Balanced (k + task_blocks t) (sched_add_task h w t).0
  unfolding sched_add_task
  refused-Balanced w t stop b = ground (arith, b)

  refused_queue-Balanced :
      (w : World) (o : Option Task)
      → w.agent.sched.stop ≡ true
      → Balanced (k + alloc_blocks o) w
      → Balanced (k + alloc_blocks o) (queue_new h (w, o)).0
  unfolding queue_new net_sched_task alloc_blocks
  refused_queue-Balanced w none stop b = b
  refused_queue-Balanced w (some t) stop b = refused-Balanced w t stop b

  pub refused_message-Balanced :
      (w : World) (msg : Msg) (size : ℕ)
      → w.agent.sched.stop ≡ true
      → Balanced k w
      → Balanced
          (k + alloc_blocks (new_task h w TaskType.send 1 0 0 msg size).1)
          (core_send h w msg size).0
  unfolding core_send new_task
  refused_message-Balanced w msg size stop b =
      refused_queue-Balanced _ _ stop (new_task-Balanced h k w TaskType.send 1 0 0 msg size b).0

  refused_hello-Balanced :
      (w : World) (t : Task)
      → w.agent.sched.stop ≡ true
      → Balanced (k + task_blocks t) w
      → Balanced k (hello_added h (sched_add_task h w t) t).0
  unfolding hello_added sched_add_task
  refused_hello-Balanced w t stop b = ground (arith, task_free-live t w.mem)

  made-Balanced :
      (w w' : World) (a b c : ℕ) (msg : Msg) (size : ℕ) (o : Option Trigger)
      → new_trigger h w a b c msg size ≡ (w', o)
      → Balanced k w
      → Balanced (k + new_blocks o) w'
  made-Balanced w w' a b c msg size o e bal =
      subst (λ r. Balanced (k + new_blocks r.1) r.0) e
        (new_trigger-Balanced h k w a b c msg size bal).0

  allocated-Balanced :
      (w w' : World) (kind : TaskType) (a b c : ℕ) (msg : Msg) (size : ℕ) (o : Option Task)
      → new_task h w kind a b c msg size ≡ (w', o)
      → Balanced k w
      → Balanced (k + alloc_blocks o) w'
  allocated-Balanced w w' kind a b c msg size o e bal =
      subst (λ r. Balanced (k + alloc_blocks r.1) r.0) e
        (new_task-Balanced h k w kind a b c msg size bal).0

  reset-Balanced : (w : World) → Balanced k w → Balanced k (net_not_connected w)
  unfolding net_not_connected
  reset-Balanced w b = ground arith

  attempt-Balanced :
      (w : World) (a : Attempt) → Balanced k w → Balanced k (net_connect_to_controller w a).0
  attempt-Balanced w a b = rw (net_connect_to_controller-Touched w a).only b

  pub NetMove-Balanced :
      (w w' : World) (q q' : Net)
      → (mv : NetMove h w q w' q') → Balanced (k + net_hand q) w
      → Balanced (k + net_lost mv + net_hand q') w'
  unfolding alloc_blocks
  NetMove-Balanced w w' q q' (make {w' = w1} {trig} m kind i msg size tk e) b =
      omega (arith, made-Balanced w w1 m kind i msg size (some trig) e (omega (arith, b)))
  NetMove-Balanced w w' q q' (no_trigger {w' = w1} m kind i msg size e) b =
      omega (arith, made-Balanced w w1 m kind i msg size none e (omega (arith, b)))
  NetMove-Balanced w w' q q' (link {trig} {kind}) b =
      omega (arith, (add_trigger-Balanced h k w trig b).0)
  NetMove-Balanced w w' q q' (task {w' = w1} {trig} {kind} {s} e) b =
      omega (arith, allocated-Balanced w w1 kind 1 0 trig.id none 0 (some s) e (omega (arith, b)))
  NetMove-Balanced w w' q q' (no_task {w' = w1} {trig} {kind} e) b =
      omega (arith, allocated-Balanced w w1 kind 1 0 trig.id none 0 none e (omega (arith, b)))
  NetMove-Balanced w w' q q' (unlink {id}) b =
      omega (arith, (del_trigger_id-Balanced h k w id (omega (arith, b))).0)
  NetMove-Balanced w w' q q' (alloc {w' = w1} {s} kind x y msg size e) b =
      omega (arith, allocated-Balanced w w1 kind x y 0 msg size (some s) e (omega (arith, b)))
  NetMove-Balanced w w' q q' (no_alloc {w' = w1} kind x y msg size e) b =
      omega (arith, allocated-Balanced w w1 kind x y 0 msg size none e (omega (arith, b)))
  NetMove-Balanced w w' q q' (add {s} go) b = omega (arith, sched_add_task-Balanced h k w s go b)
  NetMove-Balanced w w' q q' (del m kind i) b =
      omega (arith, (del_trigger_inst-Balanced h k w m kind i (omega (arith, b))).0)
  NetMove-Balanced w w' q q' reset b = omega (arith, reset-Balanced w (omega (arith, b)))
  NetMove-Balanced w w' q q' (attempt a) b = omega (arith, attempt-Balanced w a (omega (arith, b)))
  NetMove-Balanced w w' q q' online b = omega (arith, b)
  NetMove-Balanced w w' q q' (refuse {s} stop kind) b = omega (arith, refused-Balanced w s stop b)
  NetMove-Balanced w w' q q' (refuse_hello {s} stop kind) b =
      omega (arith, refused_hello-Balanced w s stop b)
  NetMove-Balanced w w' q q' (leave stop) b = omega (arith, b)
