-- ===== src/Net/Triggers.antt =====
-- What the requests of a controller module do to its triggers, and which callbacks follow.
use empower_enb_agent.Base.{
  ℕ, suc, ◌+◌, ◌≡◌, refl, true, false, none, some, List, [], ◌∷◌, ◌++◌, take, u32, arith,
}
use empower_enb_agent.Agent.{Event, World, Host, emit}
use empower_enb_agent.Task.{Task, TaskType, task_alloc, task_type_code}
use empower_enb_agent.Trigger.{
  Trigger, trig_alloc, trig_add, trig_find_by_id, trig_del_by_inst, deleted, tr_type_ue_rep,
  tr_type_mac_rep,
}
use empower_enb_agent.Trigger.Ids.{IsFresh, find_head, trig_del_by_inst-spares}
use empower_enb_agent.Sched.Outcome.{has_op, consumed}
use empower_enb_agent.Sched.Perform.{sched_perform_ue_report}
use empower_enb_agent.Sched.Job.{sched_add_task, perform}
use empower_enb_agent.Net.Handlers.{
  new_task, new_trigger, add_trigger, del_trigger_inst, net_sched_task, queue_trigger, trigger_task,
  trigger_request, is_add, msg_module, net_te_ue_report, net_te_cell_meas_report,
}

-- The trigger that a request gives.
abbrev pub requested : Host → World → ℕ → List ℕ → ℕ → Trigger
requested h w kind bytes size = record {
  id = w.agent.trig.next;
  kind = kind;
  module_id = msg_module h (some bytes) size;
  instance_id = 0;
  msg = some (take size bytes);
  msg_size = size;
}

-- The next three calls of `malloc` succeed.
pub record Memory3 (h : Host) (w : World) : Type 0 where
  pub first : h.malloc_ok w.mem.calls ≡ true
  pub second : h.malloc_ok (suc w.mem.calls) ≡ true
  pub third : h.malloc_ok (suc (suc w.mem.calls)) ≡ true

module _ (h : Host) (w : World) (bytes : List ℕ) (size : ℕ) (mem : Memory3 h w) where
  trigger_request_lem :
      (kind : ℕ) (task_kind : TaskType)
      → let r =
          trigger_request h w (msg_module h (some bytes) size) kind task_kind (some bytes) size in
        (r.0.agent.trig ≡ record {
          ts = requested h w kind bytes size ∷ w.agent.trig.ts;
          next = u32 (w.agent.trig.next + 1);
        })
        × (r.0.agent.ops ≡ w.agent.ops)
  unfolding trigger_request trigger_task queue_trigger new_task new_trigger add_trigger
      net_sched_task sched_add_task task_alloc trig_alloc trig_add
  trigger_request_lem kind task_kind = ground (
    arith,
    mem.first,
    mem.second,
    mem.third,
    h.list_add_first (requested h w kind bytes size) w.agent.trig.ts,
  )

  -- A UE report request that adds a trigger and one of the same module that removes it cancel out:
  -- the first is given memory, the second returns 0 and leaves the triggers that were there before.
  pub ue_report_roundtrip :
      (bytes' : List ℕ) (size' : ℕ)
      → is_add (h.epp_trigger_op (some bytes) size) ≡ true
      → is_add (h.epp_trigger_op (some bytes') size') ≡ false
      → msg_module h (some bytes') size' ≡ msg_module h (some bytes) size
      → let w1 = (net_te_ue_report h w (some bytes) size).0 in
        let r = net_te_ue_report h w1 (some bytes') size' in
        (r.1 ≡ 0) × (r.0.agent.trig.ts ≡ w.agent.trig.ts)
  unfolding net_te_ue_report del_trigger_inst trig_del_by_inst deleted
  ue_report_roundtrip bytes' size' adds removes same =
      let q = trigger_request_lem tr_type_ue_rep TaskType.ue_report in
      rw (adds, removes, same, q.0)
        (ground
          (arith, h.list_del_unlinks [] (requested h w tr_type_ue_rep bytes size) w.agent.trig.ts))

  -- A cell measurement request that adds a trigger cannot be taken back: after it, a request of any
  -- module that is not an addition leaves the new trigger where its id finds it. The ids of the
  -- triggers are distinct and below the next, which does not wrap, and there is memory for the first.
  pub cell_meas_not_removed :
      (bytes' : List ℕ) (size' : ℕ)
      → IsFresh w.agent.trig
      → is_add (h.epp_trigger_op (some bytes) size) ≡ true
      → is_add (h.epp_trigger_op (some bytes') size') ≡ false
      → let w1 = (net_te_cell_meas_report h w (some bytes) size).0 in
        let w2 = (net_te_cell_meas_report h w1 (some bytes') size').0 in
        trig_find_by_id w2.agent.trig w.agent.trig.next
        ≡ some (requested h w (task_type_code TaskType.cell_measure) bytes size)
  unfolding net_te_cell_meas_report del_trigger_inst
  cell_meas_not_removed bytes' size' fresh adds removes =
      let q = trigger_request_lem 6 TaskType.cell_measure in
      rw (adds, removes, q.0)
        (trig_del_by_inst-spares h.list _ _ _ tr_type_mac_rep 0 w.agent.trig.next
          (requested h w 6 bytes size) (omega arith, fresh.falling)
          (find_head _ (requested h w 6 bytes size) w.agent.trig.ts refl) (λ e. omega arith))

-- A UE report that a controller module asks for is always reported to module 0: with memory and a
-- running scheduler, the task that the request puts at the end of the queue is of that type, and
-- performing it, in any world whose wrapper has the callback, calls the callback with module 0 and
-- the id of the new trigger.
pub ue_report_module :
    (h : Host) (w w2 : World) (bytes : List ℕ) (size : ℕ)
    → Memory3 h w
    → w.agent.sched.stop ≡ false
    → is_add (h.epp_trigger_op (some bytes) size) ≡ true
    → has_op (λ o. o.ue_report) w2.agent ≡ true
    → (t : Task) × ((net_te_ue_report h w (some bytes) size).0.agent.sched.jobs
        ≡ w.agent.sched.jobs ++ t ∷ [])
      × (perform h w2 t t.kind ≡ (emit (Event.ue_report 0 w.agent.trig.next) w2, t, consumed))
unfolding net_te_ue_report trigger_request trigger_task queue_trigger new_task new_trigger
    add_trigger net_sched_task sched_add_task task_alloc trig_alloc trig_add perform
    sched_perform_ue_report
ue_report_module h w w2 bytes size mem go adds op =
    let t : Task = record {
      id = 0;
      kind = TaskType.ue_report;
      module_id = 0;
      msg = none;
      msg_size = 0;
      trig = w.agent.trig.next;
      resch = 0;
      issued = h.clock w.asked;
      elapse = 1;
    } in
    (
      t,
      ground (arith, mem.first, mem.second, mem.third, h.list_add_tail_last t w.agent.sched.jobs),
      rw op,
    )
