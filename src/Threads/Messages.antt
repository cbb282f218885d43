-- ===== src/Threads/Messages.antt =====
-- A request of the controller for tasks and triggers, as one step and step by step.
use empower_enb_agent.Base.{
  ℕ, zero, suc, ◌≡◌, refl, ap, subst, sym, ◌≢◌, Bool-cases, inl, inr, Option, none, some, arith,
}
use empower_enb_agent.Agent.{World, Host}
use empower_enb_agent.Proto.{Msg, Rrc}
use empower_enb_agent.Task.{Task, TaskType, hello, task_alloc}
use empower_enb_agent.Trigger.{Trigger, tr_type_ue_meas}
use empower_enb_agent.Net.Handlers.{
  new_task, new_trigger, add_trigger, queue_new, schedule_msg, queue_trigger, trigger_task,
  trigger_request, measure_task, measure_trigger, ue_measure_adds, ue_measure_dels,
  del_trigger_inst, net_sched_task,
}
use empower_enb_agent.Threads.{
  Sched, Net, listening, linked, tasked, make, no_trigger, link, refuse, task, no_task, unlink,
  alloc, no_alloc, add, del,
}
use empower_enb_agent.Threads.Together.{System, Moves, by_net, later}

same_task :
    (h : Host) (id : ℕ) (r : World × Option Task)
    → (measure_task h id r).0 ≡ (queue_trigger h id r).0
unfolding measure_task queue_trigger
same_task h id (w, none) = refl
same_task h id (w, some t) = refl

-- The type of a task is the one that was asked for.
pub new_task_kind :
    (h : Host) (w w' : World) (kind : TaskType) (a b c : ℕ) (msg : Msg) (size : ℕ) (t : Task)
    → new_task h w kind a b c msg size ≡ (w', some t)
    → t.kind ≡ kind
unfolding new_task task_alloc
new_task_kind h w w' kind a b c msg size t e =
    ground (arith, ap (λ (r : World × Option Task). r.1) e)

module _ (h : Host) (p : Sched) (s : System) where
  -- The steps so far have come here.
  abbrev pub Reaches : World → Net → Type 0
  Reaches w q = Moves h s (record { world = w; sched = p; net = q })

  other_kind :
      (w w' : World) (kind : TaskType) (a b c : ℕ) (msg : Msg) (size : ℕ) (t : Task)
      → new_task h w kind a b c msg size ≡ (w', some t)
      → kind ≢ hello
      → t.kind ≢ hello
  other_kind w w' kind a b c msg size t e k = rw (new_task_kind h w w' kind a b c msg size t e) k

  -- A task that is not the Hello is queued, or lost where the scheduler is stopped.
  net_sched_task-Reaches :
      (w : World) (t : Task)
      → t.kind ≢ hello
      → Reaches w (tasked t)
      → Reaches (net_sched_task h w t).0 listening
  unfolding net_sched_task
  net_sched_task-Reaches w t k r = elim (Bool-cases w.agent.sched.stop) [
    | inl e ↦ later r (by_net (refuse e k))
    | inr e ↦ later r (by_net (add e))
  ]

  queue_new-Reaches :
      (w w' : World) (kind : TaskType) (a b : ℕ) (msg : Msg) (size : ℕ) (o : Option Task)
      → kind ≢ hello
      → Reaches w listening
      → new_task h w kind a b 0 msg size ≡ (w', o)
      → Reaches (queue_new h (w', o)).0 listening
  unfolding queue_new
  queue_new-Reaches w w' kind a b msg size none k r e =
      later r (by_net (no_alloc kind a b msg size e))
  queue_new-Reaches w w' kind a b msg size (some t) k r e =
      net_sched_task-Reaches w' t (other_kind w w' kind a b 0 msg size t e k)
        (later r (by_net (alloc kind a b msg size e)))

  pub schedule_msg-Reaches :
      (w : World) (kind : TaskType) (a b : ℕ) (msg : Msg) (size : ℕ)
      → kind ≢ hello
      → Reaches w listening
      → Reaches (schedule_msg h w kind a b msg size).0 listening
  unfolding schedule_msg new_task
  schedule_msg-Reaches w kind a b msg size k r = queue_new-Reaches w _ kind a b msg size _ k r refl

  pub del_trigger_inst-Reaches :
      (w : World) (a b c : ℕ)
      → Reaches w listening
      → Reaches (del_trigger_inst h w a b c).0 listening
  unfolding del_trigger_inst
  del_trigger_inst-Reaches w a b c r = later r (by_net (del a b c))

  -- What comes after `trig_add`, with a task or without one.
  linked-Reaches :
      (w w' : World) (t : Trigger) (kind : TaskType) (o : Option Task)
      → kind ≢ hello
      → Reaches w (linked t kind)
      → new_task h w kind 1 0 t.id none 0 ≡ (w', o)
      → Reaches (queue_trigger h t.id (w', o)).0 listening
  unfolding queue_trigger
  linked-Reaches w w' t kind none k r e = later (later r (by_net (no_task e))) (by_net unlink)
  linked-Reaches w w' t kind (some x) k r e =
      net_sched_task-Reaches w' x (other_kind w w' kind 1 0 t.id none 0 x e k)
        (later r (by_net (task e)))

  trigger_task-Reaches :
      (w w' : World) (a b c : ℕ) (msg : Msg) (size : ℕ) (kind : TaskType) (o : Option Trigger)
      → kind ≢ hello
      → Reaches w listening
      → new_trigger h w a b c msg size ≡ (w', o)
      → Reaches (trigger_task h kind (w', o)).0 listening
  unfolding trigger_task
  trigger_task-Reaches w w' a b c msg size kind none k r e =
      later r (by_net (no_trigger a b c msg size e))
  trigger_task-Reaches w w' a b c msg size kind (some t) k r e =
      let made = later r (by_net (make a b c msg size kind e)) in
      let (w1, t1) = add_trigger h w' t in
      linked-Reaches w1 _ t1 kind _ k (later made (by_net link)) refl

  pub trigger_request-Reaches :
      (w : World) (a b : ℕ) (kind : TaskType) (msg : Msg) (size : ℕ)
      → kind ≢ hello
      → Reaches w listening
      → Reaches (trigger_request h w a b kind msg size).0 listening
  unfolding trigger_request new_trigger
  trigger_request-Reaches w a b kind msg size k r =
      trigger_task-Reaches w _ a b 0 msg size kind _ k r refl

  -- A round of a loop over measurements, which does with the trigger what `trigger_task` does.
  measure_as_request :
      (w : World) (o : Option Trigger)
      → (measure_trigger h (w, o)).0 ≡ (trigger_task h TaskType.ue_measure (w, o)).0
  unfolding measure_trigger trigger_task
  measure_as_request w none = refl
  measure_as_request w (some t) =
      let (w', t') = add_trigger h w t in
      same_task h t'.id (new_task h w' TaskType.ue_measure 1 0 t'.id none 0)

  pub ue_measure_dels-Reaches :
      (a : ℕ) (rrc : ℕ → Rrc) (n : ℕ) (w : World)
      → Reaches w listening
      → Reaches (ue_measure_dels h a rrc n w) listening
  unfolding ue_measure_dels
  ue_measure_dels-Reaches a rrc zero w r = r
  ue_measure_dels-Reaches a rrc (suc n) w r =
      ue_measure_dels-Reaches a rrc n _
        (del_trigger_inst-Reaches w a tr_type_ue_meas (rrc n).meas_id r)

  pub ue_measure_adds-Reaches :
      (a : ℕ) (rrc : ℕ → Rrc) (msg : Msg) (size n : ℕ) (w : World)
      → Reaches w listening
      → Reaches (ue_measure_adds h a rrc msg size n w) listening
  unfolding ue_measure_adds new_trigger
  ue_measure_adds-Reaches a rrc msg size zero w r = r
  ue_measure_adds-Reaches a rrc msg size (suc n) w r =
      let id = (rrc n).meas_id in
      let (w1, o) = new_trigger h w a tr_type_ue_meas id msg size in
      let (w', more) = measure_trigger h (w1, o) in
      let done =
        trigger_task-Reaches w w1 a tr_type_ue_meas id msg size TaskType.ue_measure o (λ e. cc) r
          refl in
      let r' : Reaches w' listening =
        subst (λ x. Reaches x listening) (sym (measure_as_request w1 o)) done in
      let ih = ue_measure_adds-Reaches a rrc msg size n w' r' in
      elim (Bool-cases more) [ inl e ↦ rw e ih | inr e ↦ rw e r' ]
