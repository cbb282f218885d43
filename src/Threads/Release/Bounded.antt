-- ===== src/Threads/Release/Bounded.antt =====
-- How many steps the scheduler of an agent that is released still makes.
use empower_enb_agent.Base.{
  ℕ, suc, ◌+◌, ◌*◌, ◌≡◌, ◌≤◌, ◌<◌, ◌⊎◌, inl, inr, refl, ap, ◌∙◌, true, List, [], ◌∷◌, length, arith,
}
use empower_enb_agent.Agent.{World, Host}
use empower_enb_agent.Task.{Task, Timespec}
use empower_enb_agent.Sched.Outcome.{Outcome, net_error, consumed, not_elapsed, reschedule}
use empower_enb_agent.Sched.Frame.{sched_perform_job-frame}
use empower_enb_agent.Sched.Kept.{ue_measure_calls-Keeps}
use empower_enb_agent.Sched.Perform.{measure_with, cell_meas_trigger}
use empower_enb_agent.Net.Link.{net_send, net_next_seq}
use empower_enb_agent.Net.Handlers.{del_trigger_id}
use empower_enb_agent.Threads.{
  wake, pop, perform, find_measure, find_cell, use_measure, use_cell, number, transmit, settled,
  failed, flush, disconnect, empty, requeue, finish, Sched, asleep, ready, holding, looking,
  sending, performed, dumped, flushed, drained, ended, Net, SchedMove, asked,
}
use empower_enb_agent.Threads.Together.{
  System, Move, Moves, by_sched, by_net, em_send, em_send_refused, em_del_trigger, halt, halt_net,
  start, later,
}
use empower_enb_agent.Threads.Release.Stopped.{NetMove-sched, refused_sched}
use empower_enb_agent.Threads.Release.Ending.{SchedMove-stop, settle_sched}
use empower_enb_agent.Threads.Release.Placed.{IsPlaced, Moves-IsPlaced}

-- How many steps are left at most, with this many tasks in the queue and `stop` set.
abbrev left : Sched → ℕ → ℕ
left asleep n = 1
left ready n = 4 * n + 3
left (holding t) n = 4 * n + 6
left (looking t now trig) n = 4 * n + 5
left (sending t now seq) n = 4 * n + 5
left (performed t now op) n = 4 * n + 4
left dumped n = 3
left flushed n = 2
left drained n = 2
left ended n = 0

abbrev steps_left : System → ℕ
steps_left s = left s.sched (length s.world.agent.sched.jobs)

-- The steps of the scheduler among those of a sequence.
abbrev pub sched_steps : {h : Host} {s s' : System} → Moves h s s' → ℕ
sched_steps start = 0
sched_steps (later more (by_sched mv)) = suc (sched_steps more)
sched_steps (later more mv) = sched_steps more

module _ (h : Host) where
  SchedMove-left :
      (w w' : World) (p p' : Sched)
      → SchedMove h w p w' p'
      → w.agent.sched.stop ≡ true
      → left p' (length w'.agent.sched.jobs) < left p (length w.agent.sched.jobs)
  unfolding measure_with cell_meas_trigger net_next_seq net_send
  SchedMove-left w w' p p' (wake go) s = cc
  SchedMove-left w w' p p' (pop {t} {rest} e) s =
      omega (arith, ap length e, ap length (h.list_del_unlinks [] t rest))
  SchedMove-left w w' p p' (perform {t}) s =
      let fr = sched_perform_job-frame h w.agent.sched (asked w) t (h.clock w.asked) in
      omega (arith, ap (λ x. length x.0.agent.sched.jobs) fr)
  SchedMove-left w w' p p' (find_measure kind due set found) s = omega arith
  SchedMove-left w w' p p' (find_cell kind due set pos found) s = omega arith
  SchedMove-left w w' p p' (use_measure kind) s = grind (arith, ue_measure_calls-Keeps)
  SchedMove-left w w' p p' (use_cell kind) s = ground arith
  SchedMove-left w w' p p' (number kind due fits) s = omega arith
  SchedMove-left w w' p p' transmit s = omega arith
  SchedMove-left w w' p p' (settled {t} {now} {op} ok) s =
      omega (arith, ap length (settle_sched h w t now op).1)
  SchedMove-left w w' p p' (failed ne) s = omega arith
  SchedMove-left w w' p p' flush s = omega arith
  SchedMove-left w w' p p' disconnect s = omega arith
  SchedMove-left w w' p p' (empty e) s = omega arith
  SchedMove-left w w' p p' requeue s = omega arith
  SchedMove-left w w' p p' (finish stop) s = omega arith

  -- Another step of the scheduler.
  abbrev pub Next : System → Type 0
  Next s = (w : World) × (p : Sched) × SchedMove h s.world s.sched w p

  performed-Next :
      (w : World) (q : Net) (t : Task) (now : Timespec) (op : Outcome)
      → Next (record { world = w; sched = performed t now op; net = q })
  performed-Next w q t now net_error = (_, _, failed refl)
  performed-Next w q t now consumed = (_, _, settled (λ x. cc))
  performed-Next w q t now not_elapsed = (_, _, settled (λ x. cc))
  performed-Next w q t now reschedule = (_, _, settled (λ x. cc))

  ready-Next :
      (w : World) (q : Net) (jobs : List Task)
      → w.agent.sched.jobs ≡ jobs
      → Next (record { world = w; sched = ready; net = q })
  ready-Next w q [] e = (_, _, empty e)
  ready-Next w q (t ∷ rest) e = (_, _, pop e)

  -- What keeps on, once `stop` is set, under a step of anyone.
  Stopping : System → System → ℕ → Type 0
  Stopping s s' n = (s'.world.agent.sched.stop ≡ true) × (n + steps_left s' ≤ steps_left s)

  Move-Stopping :
      (s s' : System)
      → (mv : Move h s s') → s.world.agent.sched.stop ≡ true
      → Stopping s s' (sched_steps (later start mv))
  unfolding Stopping del_trigger_id
  Move-Stopping s s' (by_sched {w} {p} mv) e = (
    SchedMove-stop h s.world w s.sched p mv ∙ e,
    omega (arith, SchedMove-left s.world w s.sched p mv e),
  )
  Move-Stopping s s' (by_net {w} {q} mv) e =
      let same = NetMove-sched h s.world w s.net q mv e in
      (ap (λ c. c.stop) same ∙ e, omega (arith, ap (λ c. left s.sched (length c.jobs)) same))
  Move-Stopping s s' (em_send msg size go) e = cc
  Move-Stopping s s' (em_send_refused msg size stop) e =
      let same = refused_sched h s.world msg size stop in
      (ap (λ c. c.stop) same ∙ e, omega (arith, ap (λ c. left s.sched (length c.jobs)) same))
  Move-Stopping s s' (em_del_trigger id) e = (e, omega arith)
  Move-Stopping s s' halt e = (refl, omega arith)
  Move-Stopping s s' halt_net e = (e, omega arith)

  sched_steps-later :
      (s s1 s2 : System) (more : Moves h s s1) (mv : Move h s1 s2)
      → sched_steps (later more mv) ≡ sched_steps more + sched_steps (later start mv)
  sched_steps-later s s1 s2 more (by_sched mv) = omega arith
  sched_steps-later s s1 s2 more (by_net mv) = omega arith
  sched_steps-later s s1 s2 more (em_send msg size go) = omega arith
  sched_steps-later s s1 s2 more (em_send_refused msg size stop) = omega arith
  sched_steps-later s s1 s2 more (em_del_trigger id) = omega arith
  sched_steps-later s s1 s2 more halt = omega arith
  sched_steps-later s s1 s2 more halt_net = omega arith

  Moves-Stopping :
      (s s' : System)
      → (ms : Moves h s s') → s.world.agent.sched.stop ≡ true
      → Stopping s s' (sched_steps ms)
  unfolding Stopping
  Moves-Stopping s s' start e = (e, omega arith)
  Moves-Stopping s s' (later {s1} more mv) e =
      let (e1, le) = Moves-Stopping s s1 more e in
      let (e2, le2) = Move-Stopping s1 s' mv e1 in
      (e2, omega (arith, le, le2, sched_steps-later s s1 s' more mv))

  left_bound : (p : Sched) (n : ℕ) → left p n ≤ 4 * n + 6
  left_bound asleep n = omega arith
  left_bound ready n = omega arith
  left_bound (holding t) n = omega arith
  left_bound (looking t now trig) n = omega arith
  left_bound (sending t now seq) n = omega arith
  left_bound (performed t now op) n = omega arith
  left_bound dumped n = omega arith
  left_bound flushed n = omega arith
  left_bound drained n = omega arith
  left_bound ended n = omega arith

  going-Next :
      (w : World) (p : Sched) (q : Net)
      → IsPlaced p
      → w.agent.sched.stop ≡ true
      → (p ≡ ended) ⊎ Next (record { world = w; sched = p; net = q })
  going-Next w asleep q x e = inr (_, _, finish e)
  going-Next w ready q x e = inr (ready-Next w q w.agent.sched.jobs refl)
  going-Next w (holding t) q x e = inr (_, _, perform)
  going-Next w (looking t now trig) q (inl kind) e = inr (_, _, use_measure kind)
  going-Next w (looking t now trig) q (inr kind) e = inr (_, _, use_cell kind)
  going-Next w (sending t now seq) q x e = inr (_, _, transmit)
  going-Next w (performed t now op) q x e = inr (performed-Next w q t now op)
  going-Next w dumped q x e = inr (_, _, flush)
  going-Next w flushed q x e = inr (_, _, disconnect)
  going-Next w drained q x e = inr (_, _, requeue)
  going-Next w ended q x e = inl refl

-- Once `stop` of the scheduler is set, whatever the other thread and the public API do, and in any
-- order: the scheduler makes at most four steps for each task in its queue, and six, and after them
-- and before it has either ended or can make another; so a join with it returns. At first, a pointer
-- that it keeps is for a measurement.
pub Moves-ends :
    (h : Host) (s s' : System)
    → (ms : Moves h s s') → IsPlaced s.sched
    → s.world.agent.sched.stop ≡ true
    → (sched_steps ms ≤ 4 * length s.world.agent.sched.jobs + 6) × ((s'.sched ≡ ended) ⊎ Next h s')
unfolding Stopping
Moves-ends h s s' ms x e =
    let (stop, le) = Moves-Stopping h s s' ms e in
    (
      omega (arith, le, left_bound h s.sched (length s.world.agent.sched.jobs)),
      going-Next h s'.world s'.sched s'.net (Moves-IsPlaced h s s' ms x) stop,
    )
