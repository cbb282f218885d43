-- ===== src/Net/Blocks.antt =====
-- The heap under the network side: what a message makes the agent allocate belongs to a queued task
-- or a trigger, unless the scheduler has been stopped.
use empower_enb_agent.Base.{
  ℕ, zero, suc, ◌+◌, ◌≡◌, refl, inl, inr, Bool, false, Option, none, some, [], ◌∷◌, arith,
  Bool-cases,
}
use empower_enb_agent.Agent.{World, Host}
use empower_enb_agent.Memory.{Mem}
use empower_enb_agent.Proto.{Msg, Rrc}
use empower_enb_agent.Task.{Task, TaskType, task_alloc}
use empower_enb_agent.Trigger.{Trigger, tr_type_ue_meas, trig_add}
use empower_enb_agent.Trigger.Laws.{
  trig_blocks, new_blocks, trig_alloc-live, trig_del_by_id-live, trig_del_by_inst-live,
}
use empower_enb_agent.Sched.Job.{sched_add_task}
use empower_enb_agent.Sched.Consume.{task_blocks}
use empower_enb_agent.Sched.Blocks.{Balanced, queue_blocks-append}
use empower_enb_agent.Net.Handlers.{
  new_task, new_trigger, add_trigger, del_trigger_id, del_trigger_inst, schedule_msg, queue_new,
  queue_trigger, measure_task, measure_trigger, trigger_task, trigger_request, net_sched_task,
  ue_measure_dels, ue_measure_adds,
}

-- What was allocated is counted, and a failed allocation leaves the count alone.
unfoldable pub alloc_blocks : Option Task → ℕ
alloc_blocks none = 0
alloc_blocks (some t) = task_blocks t

task_alloc-live :
    (ok : ℕ → Bool) (m : Mem) (k : TaskType) (a b c : ℕ) (msg : Msg) (size : ℕ)
    → let r = task_alloc ok m k a b c msg size in r.0.live ≡ m.live + alloc_blocks r.1
unfolding task_alloc alloc_blocks
task_alloc-live ok m k a b c none size = ground arith
task_alloc-live ok m k a b c (some bytes) size = ground arith

module _ (h : Host) where
  -- The task `t` is allocated, and in no list yet.
  pub sched_add_task-Balanced :
      (k : ℕ) (w : World) (t : Task)
      → w.agent.sched.stop ≡ false
      → Balanced (k + task_blocks t) w
      → Balanced k (sched_add_task h w t).0
  unfolding sched_add_task
  sched_add_task-Balanced k w t go b = ground (
    arith,
    h.list_add_tail_last (record t { issued = h.clock w.asked }) w.agent.sched.jobs,
    queue_blocks-append w.agent.sched.jobs (record t { issued = h.clock w.asked } ∷ []),
  )

  pub new_task-Balanced :
      (k : ℕ) (w : World) (kind : TaskType) (a b c : ℕ) (msg : Msg) (size : ℕ)
      → Balanced k w
      → let r = new_task h w kind a b c msg size in
        Balanced (k + alloc_blocks r.1) r.0 × (r.0.agent ≡ w.agent)
  unfolding new_task
  new_task-Balanced k w kind a b c msg size bal =
      (omega (arith, task_alloc-live h.malloc_ok w.mem kind a b c msg size), refl)

  pub new_trigger-Balanced :
      (k : ℕ) (w : World) (a b c : ℕ) (msg : Msg) (size : ℕ)
      → Balanced k w
      → let r = new_trigger h w a b c msg size in
        Balanced (k + new_blocks r.1) r.0 × (r.0.agent ≡ w.agent)
  unfolding new_trigger
  new_trigger-Balanced k w a b c msg size bal =
      (omega (arith, trig_alloc-live h.malloc_ok w.mem a b c msg size), refl)

  pub add_trigger-Balanced :
      (k : ℕ) (w : World) (t : Trigger)
      → Balanced (k + trig_blocks t) w
      → let r = add_trigger h w t in Balanced k r.0 × (r.0.agent.sched ≡ w.agent.sched)
  unfolding add_trigger trig_add
  add_trigger-Balanced k w t bal = rw h.list_add_first (omega arith, refl)

  pub del_trigger_id-Balanced :
      (k : ℕ) (w : World) (id : ℕ)
      → Balanced k w
      → let r = del_trigger_id h w id in Balanced k r.0 × (r.0.agent.sched ≡ w.agent.sched)
  unfolding del_trigger_id
  del_trigger_id-Balanced k w id bal =
      (omega (arith, trig_del_by_id-live h.list w.agent.trig w.mem id (omega arith)), refl)

  pub del_trigger_inst-Balanced :
      (k : ℕ) (w : World) (a b c : ℕ)
      → Balanced k w
      → let r = del_trigger_inst h w a b c in Balanced k r.0 × (r.0.agent.sched ≡ w.agent.sched)
  unfolding del_trigger_inst
  del_trigger_inst-Balanced k w a b c bal =
      (omega (arith, trig_del_by_inst-live h.list w.agent.trig w.mem a b c (omega arith)), refl)

  -- With a scheduler that runs, balance is kept, and the scheduler goes on running.
  abbrev pub Steady : ℕ → World → Type 0
  Steady k w = (w.agent.sched.stop ≡ false) × Balanced k w

  pub net_sched_task-Steady :
      (k : ℕ) (w : World) (t : Task)
      → Steady (k + task_blocks t) w
      → Steady k (net_sched_task h w t).0
  unfolding net_sched_task sched_add_task
  net_sched_task-Steady k w t (go, bal) = (ground arith, sched_add_task-Balanced k w t go bal)

  pub new_task-Steady :
      (k : ℕ) (w : World) (kind : TaskType) (a b c : ℕ) (msg : Msg) (size : ℕ)
      → Steady k w
      → let r = new_task h w kind a b c msg size in Steady (k + alloc_blocks r.1) r.0
  unfolding new_task
  new_task-Steady k w kind a b c msg size (go, bal) =
      (go, (new_task-Balanced k w kind a b c msg size bal).0)

  queue_new-Steady :
      (k : ℕ) (w : World) (o : Option Task)
      → Steady (k + alloc_blocks o) w
      → Steady k (queue_new h (w, o)).0
  unfolding queue_new alloc_blocks
  queue_new-Steady k w none (go, bal) = (go, omega arith)
  queue_new-Steady k w (some t) st = net_sched_task-Steady k w t st

  pub schedule_msg-Steady :
      (k : ℕ) (w : World) (kind : TaskType) (a b : ℕ) (msg : Msg) (size : ℕ)
      → Steady k w
      → Steady k (schedule_msg h w kind a b msg size).0
  unfolding schedule_msg
  schedule_msg-Steady k w kind a b msg size st =
      queue_new-Steady k _ _ (new_task-Steady k w kind a b 0 msg size st)

  pub del_trigger_inst-Steady :
      (k : ℕ) (w : World) (a b c : ℕ) → Steady k w → Steady k (del_trigger_inst h w a b c).0
  del_trigger_inst-Steady k w a b c (go, bal) =
      let (bal', same) = del_trigger_inst-Balanced k w a b c bal in (rw same go, bal')

  del_trigger_id-Steady :
      (k : ℕ) (w : World) (id : ℕ) → Steady k w → Steady k (del_trigger_id h w id).0
  del_trigger_id-Steady k w id (go, bal) =
      let (bal', same) = del_trigger_id-Balanced k w id bal in (rw same go, bal')

  add_trigger-Steady :
      (k : ℕ) (w : World) (t : Trigger)
      → Steady (k + trig_blocks t) w
      → Steady k (add_trigger h w t).0
  add_trigger-Steady k w t (go, bal) =
      let (bal', same) = add_trigger-Balanced k w t bal in (rw same go, bal')

  queue_trigger-Steady :
      (k : ℕ) (id : ℕ) (w : World) (o : Option Task)
      → Steady (k + alloc_blocks o) w
      → Steady k (queue_trigger h id (w, o)).0
  unfolding queue_trigger alloc_blocks
  queue_trigger-Steady k id w none (go, bal) = del_trigger_id-Steady k w id (go, omega arith)
  queue_trigger-Steady k id w (some t) st = net_sched_task-Steady k w t st

  trigger_task-Steady :
      (k : ℕ) (kind : TaskType) (w : World) (o : Option Trigger)
      → Steady (k + new_blocks o) w
      → Steady k (trigger_task h kind (w, o)).0
  unfolding trigger_task
  trigger_task-Steady k kind w none (go, bal) = (go, omega arith)
  trigger_task-Steady k kind w (some t) st =
      queue_trigger-Steady k _ _ _
        (new_task-Steady k _ kind 1 0 _ none 0 (add_trigger-Steady k w t st))

  new_trigger-Steady :
      (k : ℕ) (w : World) (a b c : ℕ) (msg : Msg) (size : ℕ)
      → Steady k w
      → let r = new_trigger h w a b c msg size in Steady (k + new_blocks r.1) r.0
  unfolding new_trigger
  new_trigger-Steady k w a b c msg size (go, bal) =
      (go, (new_trigger-Balanced k w a b c msg size bal).0)

  pub trigger_request-Steady :
      (k : ℕ) (w : World) (a b : ℕ) (kind : TaskType) (msg : Msg) (size : ℕ)
      → Steady k w
      → Steady k (trigger_request h w a b kind msg size).0
  unfolding trigger_request
  trigger_request-Steady k w a b kind msg size st =
      trigger_task-Steady k kind _ _ (new_trigger-Steady k w a b 0 msg size st)

  measure_task-Steady :
      (k : ℕ) (id : ℕ) (w : World) (o : Option Task)
      → Steady (k + alloc_blocks o) w
      → Steady k (measure_task h id (w, o)).0
  unfolding measure_task alloc_blocks
  measure_task-Steady k id w none (go, bal) = del_trigger_id-Steady k w id (go, omega arith)
  measure_task-Steady k id w (some t) st = net_sched_task-Steady k w t st

  measure_trigger-Steady :
      (k : ℕ) (w : World) (o : Option Trigger)
      → Steady (k + new_blocks o) w
      → Steady k (measure_trigger h (w, o)).0
  unfolding measure_trigger
  measure_trigger-Steady k w none (go, bal) = (go, omega arith)
  measure_trigger-Steady k w (some t) st =
      measure_task-Steady k _ _ _
        (new_task-Steady k _ TaskType.ue_measure 1 0 _ none 0 (add_trigger-Steady k w t st))

  pub ue_measure_dels-Steady :
      (k a : ℕ) (rrc : ℕ → Rrc) (n : ℕ) (w : World)
      → Steady k w
      → Steady k (ue_measure_dels h a rrc n w)
  unfolding ue_measure_dels
  ue_measure_dels-Steady k a rrc zero w st = st
  ue_measure_dels-Steady k a rrc (suc n) w st =
      ue_measure_dels-Steady k a rrc n _
        (del_trigger_inst-Steady k w a tr_type_ue_meas (rrc n).meas_id st)

  pub ue_measure_adds-Steady :
      (k a : ℕ) (rrc : ℕ → Rrc) (msg : Msg) (size n : ℕ) (w : World)
      → Steady k w
      → Steady k (ue_measure_adds h a rrc msg size n w)
  unfolding ue_measure_adds
  ue_measure_adds-Steady k a rrc msg size zero w st = st
  ue_measure_adds-Steady k a rrc msg size (suc n) w st =
      let r = measure_trigger h (new_trigger h w a tr_type_ue_meas (rrc n).meas_id msg size) in
      let st' : Steady k r.0 =
        measure_trigger-Steady k _ _
          (new_trigger-Steady k w a tr_type_ue_meas (rrc n).meas_id msg size st) in
      let ih = ue_measure_adds-Steady k a rrc msg size n r.0 st' in
      elim (Bool-cases r.1) [ inl e ↦ rw e ih | inr e ↦ rw e st' ]
