-- ===== src/Net/Room.antt =====
-- The ids of the triggers under what the handlers call.
use empower_enb_agent.Base.{
  ℕ, zero, suc, ◌+◌, ◌≤◌, Bool, true, false, Option, none, some, arith, if◌then◌else◌,
}
use empower_enb_agent.Agent.{World, Host}
use empower_enb_agent.Proto.{Msg, Rrc}
use empower_enb_agent.Task.{Task, TaskType}
use empower_enb_agent.Trigger.{Trigger, tr_type_ue_meas}
use empower_enb_agent.Trigger.Room.{
  IsRoomy, fewer-IsRoomy, trig_add-IsRoomy, trig_del_by_id-IsRoomy, trig_del_by_inst-IsRoomy,
}
use empower_enb_agent.Sched.Job.{sched_add_task}
use empower_enb_agent.Net.Handlers.{
  queue_new, new_task, new_trigger, net_sched_task, queue_trigger, trigger_task, trigger_request,
  del_trigger_id, del_trigger_inst, add_trigger, measure_task, measure_trigger, ue_measure_adds,
  ue_measure_dels,
}

-- The triggers of the agent have distinct ids, and `n` more get a next one that does not wrap.
abbrev pub HasRoom : ℕ → World → Type 0
HasRoom n w = IsRoomy n w.agent.trig

pub fewer-HasRoom : (m n : ℕ) (w : World) → n ≤ m → HasRoom m w → HasRoom n w
fewer-HasRoom m n w le r = fewer-IsRoomy m n w.agent.trig le r

module _ (h : Host) where
  add_trigger-HasRoom :
      (n : ℕ) (w : World) (t : Trigger) → HasRoom (suc n) w → HasRoom n (add_trigger h w t).0
  unfolding add_trigger
  add_trigger-HasRoom n w t r = trig_add-IsRoomy h.list n w.agent.trig t r

  pub del_trigger_id-HasRoom :
      (n : ℕ) (w : World) (id : ℕ) → HasRoom n w → HasRoom n (del_trigger_id h w id).0
  unfolding del_trigger_id
  del_trigger_id-HasRoom n w id r = trig_del_by_id-IsRoomy h.list n w.agent.trig w.mem id r

  pub del_trigger_inst-HasRoom :
      (n : ℕ) (w : World) (a b c : ℕ) → HasRoom n w → HasRoom n (del_trigger_inst h w a b c).0
  unfolding del_trigger_inst
  del_trigger_inst-HasRoom n w a b c r =
      trig_del_by_inst-IsRoomy h.list n w.agent.trig w.mem a b c r

  net_sched_task-HasRoom :
      (n : ℕ) (w : World) (t : Task) → HasRoom n w → HasRoom n (net_sched_task h w t).0
  unfolding net_sched_task sched_add_task
  net_sched_task-HasRoom n w t r = ground arith

  pub queue_new-HasRoom :
      (n : ℕ) (r : World × Option Task) → HasRoom n r.0 → HasRoom n (queue_new h r).0
  unfolding queue_new
  queue_new-HasRoom n (w, none) r = r
  queue_new-HasRoom n (w, some t) r = net_sched_task-HasRoom n w t r

  queue_trigger-HasRoom :
      (n id : ℕ) (r : World × Option Task) → HasRoom n r.0 → HasRoom n (queue_trigger h id r).0
  unfolding queue_trigger
  queue_trigger-HasRoom n id (w, none) r = del_trigger_id-HasRoom n w id r
  queue_trigger-HasRoom n id (w, some t) r = net_sched_task-HasRoom n w t r

  trigger_task-HasRoom :
      (n : ℕ) (kind : TaskType) (r : World × Option Trigger)
      → HasRoom (suc n) r.0
      → HasRoom n (trigger_task h kind r).0
  unfolding trigger_task new_task
  trigger_task-HasRoom n kind (w, none) r = fewer-HasRoom (suc n) n w (omega arith) r
  trigger_task-HasRoom n kind (w, some t) r =
      queue_trigger-HasRoom n _ _ (add_trigger-HasRoom n w t r)

  measure_task-HasRoom :
      (n id : ℕ) (r : World × Option Task) → HasRoom n r.0 → HasRoom n (measure_task h id r).0
  unfolding measure_task
  measure_task-HasRoom n id (w, none) r = del_trigger_id-HasRoom n w id r
  measure_task-HasRoom n id (w, some t) r = net_sched_task-HasRoom n w t r

  measure_trigger-HasRoom :
      (n : ℕ) (r : World × Option Trigger) → HasRoom (suc n) r.0 → HasRoom n (measure_trigger h r).0
  unfolding measure_trigger new_task
  measure_trigger-HasRoom n (w, none) r = fewer-HasRoom (suc n) n w (omega arith) r
  measure_trigger-HasRoom n (w, some t) r = measure_task-HasRoom n _ _ (add_trigger-HasRoom n w t r)

  pub trigger_request-HasRoom :
      (n : ℕ) (w : World) (a b : ℕ) (kind : TaskType) (msg : Msg) (size : ℕ)
      → HasRoom (suc n) w
      → HasRoom n (trigger_request h w a b kind msg size).0
  unfolding trigger_request new_trigger
  trigger_request-HasRoom n w a b kind msg size r = trigger_task-HasRoom n kind _ r

  pub dels-HasRoom :
      (n a : ℕ) (rrc : ℕ → Rrc) (rounds : ℕ) (w : World)
      → HasRoom n w
      → HasRoom n (ue_measure_dels h a rrc rounds w)
  unfolding ue_measure_dels
  dels-HasRoom n a rrc zero w r = r
  dels-HasRoom n a rrc (suc rounds) w r =
      dels-HasRoom n a rrc rounds _
        (del_trigger_inst-HasRoom n w a tr_type_ue_meas (rrc rounds).meas_id r)

  either-HasRoom :
      (n : ℕ) (b : Bool) (x y : World) → HasRoom n x → HasRoom n y → HasRoom n (if b then x else y)
  either-HasRoom n true x y p q = p
  either-HasRoom n false x y p q = q

  pub adds-HasRoom :
      (n a : ℕ) (rrc : ℕ → Rrc) (msg : Msg) (size rounds : ℕ) (w : World)
      → HasRoom (rounds + n) w
      → HasRoom n (ue_measure_adds h a rrc msg size rounds w)
  unfolding ue_measure_adds new_trigger
  adds-HasRoom n a rrc msg size zero w r = fewer-HasRoom (0 + n) n w (omega arith) r
  adds-HasRoom n a rrc msg size (suc rounds) w r =
      let made = new_trigger h w a tr_type_ue_meas (rrc rounds).meas_id msg size in
      let (w', more) = measure_trigger h made in
      let p : HasRoom (rounds + n) w' =
        measure_trigger-HasRoom (rounds + n) made
          (fewer-HasRoom (suc rounds + n) (suc (rounds + n)) w (omega arith) r) in
      either-HasRoom n more (ue_measure_adds h a rrc msg size rounds w') w'
        (adds-HasRoom n a rrc msg size rounds w' p)
        (fewer-HasRoom (rounds + n) n w' (omega arith) p)

  -- The number of triggers that a message asks for, at most.
  abbrev pub asked_triggers : Msg → ℕ → ℕ
  asked_triggers msg size = suc (h.epp_trigger_uemeas_req msg size h.junk_meas).1.nof_rrc
