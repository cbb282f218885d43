-- ===== src/Agents/Running.antt =====
-- An agent whose release has not begun takes tasks.
use empower_enb_agent.Base.{
  ℕ, ◌≡◌, refl, ap, sym, ◌∙◌, Bool, true, false, Option, none, some, arith, if◌then◌else◌,
}
use empower_enb_agent.Agent.{World, Host, Event, emit}
use empower_enb_agent.Proto.{Msg}
use empower_enb_agent.Task.{Task, TaskType}
use empower_enb_agent.Sched.Outcome.{has_op}
use empower_enb_agent.Sched.Job.{sched_add_task}
use empower_enb_agent.Net.Link.{net_not_connected}
use empower_enb_agent.Net.Connect.{net_connect_to_controller-Touched}
use empower_enb_agent.Net.Handlers.{
  new_task, net_sched_task, queue_new, new_trigger, add_trigger, del_trigger_id, del_trigger_inst,
  hello_added,
}
use empower_enb_agent.Core.{core_send}
use empower_enb_agent.Threads.{
  refuse, refuse_hello, leave, make, no_trigger, link, task, no_task, unlink, alloc, no_alloc, add,
  del, reset, attempt, online, Net, NetMove,
}
use empower_enb_agent.Threads.Together.{
  System, by_sched, by_net, em_send, em_del_trigger, halt, halt_net,
}
use empower_enb_agent.Threads.Release.Stopped.{IsClosed, same-Gone, Move-IsClosed}
use empower_enb_agent.Threads.Release.Ending.{SchedMove-stop}
use empower_enb_agent.Agents.{
  Place, started, called, listed, taken, leaving, OnAgent, sched_moves, net_moves, sends, deletes,
  inits, refuses, lists, takes, releases, halts, halts_net,
}

-- Nobody stops the scheduler before the release.
abbrev pub IsRunning : Place → System → Type 0
IsRunning leaving s = Unit
IsRunning _ s = s.world.agent.sched.stop ≡ false

called_agent : (b : Bool) (e : Event) (w : World) → (if b then emit e w else w).agent ≡ w.agent
unfolding emit
called_agent true e w = refl
called_agent false e w = refl

module _ (h : Host) where
  NetMove-stop :
      (w w' : World) (q q' : Net) → NetMove h w q w' q' → w'.agent.sched.stop ≡ w.agent.sched.stop
  unfolding new_task new_trigger add_trigger del_trigger_id del_trigger_inst sched_add_task
      hello_added net_not_connected
  NetMove-stop w w' q q' (make m kind i msg size tk e) = ap (λ x. x.0.agent.sched.stop) (sym e)
  NetMove-stop w w' q q' (no_trigger m kind i msg size e) = ap (λ x. x.0.agent.sched.stop) (sym e)
  NetMove-stop w w' q q' link = refl
  NetMove-stop w w' q q' (task e) = ap (λ x. x.0.agent.sched.stop) (sym e)
  NetMove-stop w w' q q' (no_task e) = ap (λ x. x.0.agent.sched.stop) (sym e)
  NetMove-stop w w' q q' unlink = refl
  NetMove-stop w w' q q' (alloc kind x y msg size e) = ap (λ z. z.0.agent.sched.stop) (sym e)
  NetMove-stop w w' q q' (no_alloc kind x y msg size e) = ap (λ z. z.0.agent.sched.stop) (sym e)
  NetMove-stop w w' q q' (add go) = ground arith
  NetMove-stop w w' q q' (refuse stop kind) = ground arith
  NetMove-stop w w' q q' (refuse_hello stop kind) = ground arith
  NetMove-stop w w' q q' (leave stop) = refl
  NetMove-stop w w' q q' (del m kind i) = refl
  NetMove-stop w w' q q' reset = ground arith
  NetMove-stop w w' q q' (attempt a) =
      ap (λ x. x.agent.sched.stop) (net_connect_to_controller-Touched w a).only
  NetMove-stop w w' q q' online = refl

  queued-stop :
      (w : World) (o : Option Task) → (queue_new h (w, o)).0.agent.sched.stop ≡ w.agent.sched.stop
  unfolding queue_new net_sched_task sched_add_task
  queued-stop w none = refl
  queued-stop w (some t) = ground arith

  sent-stop :
      (w : World) (msg : Msg) (size : ℕ)
      → (core_send h w msg size).0.agent.sched.stop ≡ w.agent.sched.stop
  unfolding core_send new_task
  sent-stop w msg size =
      let made = new_task h w TaskType.send 1 0 0 msg size in queued-stop made.0 made.1

  same-IsRunning :
      (x : Place) (s s' : System)
      → s'.world.agent.sched.stop ≡ s.world.agent.sched.stop
      → IsRunning x s
      → IsRunning x s'
  same-IsRunning started s s' e r = e ∙ r
  same-IsRunning called s s' e r = e ∙ r
  same-IsRunning listed s s' e r = e ∙ r
  same-IsRunning taken s s' e r = e ∙ r
  same-IsRunning leaving s s' e r = tt

  pub OnAgent-IsRunning :
      (s s' : System) (x x' : Place) → OnAgent h s x s' x' → IsRunning x s → IsRunning x' s'
  unfolding del_trigger_id emit
  OnAgent-IsRunning s s' x x' (sched_moves {w} {p} mv) r =
      same-IsRunning x s s' (SchedMove-stop h s.world w s.sched p mv) r
  OnAgent-IsRunning s s' x x' (net_moves {w} {q} mv) r =
      same-IsRunning x s s' (NetMove-stop s.world w s.net q mv) r
  OnAgent-IsRunning s s' x x' (sends msg size) r = sent-stop s.world msg size ∙ r
  OnAgent-IsRunning s s' x x' (deletes id) r = r
  OnAgent-IsRunning s s' x x' inits r =
      ap (λ a. a.sched.stop) (called_agent (has_op (λ o. o.init) s.world.agent) Event.init s.world)
      ∙ r
  OnAgent-IsRunning s s' x x' (refuses set) r = tt
  OnAgent-IsRunning s s' x x' lists r = r
  OnAgent-IsRunning s s' x x' takes r = r
  OnAgent-IsRunning s s' x x' releases r = tt
  OnAgent-IsRunning s s' x x' halts r = tt
  OnAgent-IsRunning s s' x x' (halts_net joined) r = tt

  -- A scheduler that has ended has no tasks, in the step of an agent too.
  pub OnAgent-IsClosed :
      (s s' : System) (x x' : Place)
      → OnAgent h s x s' x'
      → IsRunning x s
      → IsClosed s
      → IsClosed s'
  unfolding emit
  OnAgent-IsClosed s s' x x' (sched_moves mv) r c = Move-IsClosed h s s' (by_sched mv) c
  OnAgent-IsClosed s s' x x' (net_moves mv) r c = Move-IsClosed h s s' (by_net mv) c
  OnAgent-IsClosed s s' x x' (sends msg size) r c = Move-IsClosed h s s' (em_send msg size r) c
  OnAgent-IsClosed s s' x x' (deletes id) r c = Move-IsClosed h s s' (em_del_trigger id) c
  OnAgent-IsClosed s s' x x' inits r c =
      same-Gone s.sched s.world s'.world
        (ap (λ a. a.sched) (called_agent (has_op (λ o. o.init) s.world.agent) Event.init s.world)) c
  OnAgent-IsClosed s s' x x' (refuses set) r c = same-Gone s.sched s.world s'.world refl c
  OnAgent-IsClosed s s' x x' lists r c = c
  OnAgent-IsClosed s s' x x' takes r c = c
  OnAgent-IsClosed s s' x x' releases r c =
      same-Gone s.sched s.world s'.world
        (ap (λ a. a.sched)
          (called_agent (has_op (λ o. o.release) s.world.agent) Event.release s.world))
        c
  OnAgent-IsClosed s s' x x' halts r c = Move-IsClosed h s s' halt c
  OnAgent-IsClosed s s' x x' (halts_net joined) r c = Move-IsClosed h s s' halt_net c
