-- ===== src/Net/Handlers.antt =====
-- agent/net.c, lines 43 to 84 and 357 to 799: the reaction to each message.
use empower_enb_agent.Base.{
  ℕ, zero, suc, Bool, true, false, Option, none, some, ◌==◌, minus_one, if◌then◌else◌,
}
use empower_enb_agent.Agent.{World, Host, connected, set_mem, set_net, set_trig}
use empower_enb_agent.Proto.{Msg, Rrc, OpType, add}
use empower_enb_agent.Task.{Task, TaskType, hello, task_alloc, task_free, task_type_code}
use empower_enb_agent.Trigger.{
  Trigger, trig_alloc, trig_add, trig_del_by_id, trig_del_by_inst, tr_type_ue_rep, tr_type_ue_meas,
  tr_type_mac_rep,
}
use empower_enb_agent.Sched.Job.{sched_add_task}

-- `task_alloc`, with the heap of the world.
unfoldable pub new_task : Host → World → TaskType → ℕ → ℕ → ℕ → Msg → ℕ → World × Option Task
new_task h w kind interval res trigger msg size =
    let (m, t) = task_alloc h.malloc_ok w.mem kind interval res trigger msg size in (set_mem m w, t)

unfoldable pub new_trigger : Host → World → ℕ → ℕ → ℕ → Msg → ℕ → World × Option Trigger
new_trigger h w module_id kind instance_id msg size =
    let (m, t) = trig_alloc h.malloc_ok w.mem module_id kind instance_id msg size in
    (set_mem m w, t)

unfoldable pub add_trigger : Host → World → Trigger → World × Trigger
add_trigger h w t = let (ctx, t') = trig_add h.list w.agent.trig t in (set_trig ctx w, t')

unfoldable pub del_trigger_id : Host → World → ℕ → World × ℕ
del_trigger_id h w id =
    let (ctx, m, r) = trig_del_by_id h.list w.agent.trig w.mem id in (set_mem m (set_trig ctx w), r)

unfoldable pub del_trigger_inst : Host → World → ℕ → ℕ → ℕ → World × ℕ
del_trigger_inst h w module_id kind instance_id =
    let (ctx, m, r) = trig_del_by_inst h.list w.agent.trig w.mem module_id kind instance_id in
    (set_mem m (set_trig ctx w), r)

unfoldable pub hello_added : Host → World × ℕ → Task → World × ℕ
hello_added h (w, err) t =
    if err == 0
    then (set_net (record (w.agent.net) { status = connected }) w, 0)
    else (set_mem (task_free t w.mem) w, minus_one)

-- After `task_alloc`: the rest of the call.
unfoldable pub hello_queued : Host → World × Option Task → World × ℕ
hello_queued h (w, none) = (w, minus_one)
hello_queued h (w, some t) = hello_added h (sched_add_task h w t) t

unfoldable pub net_connected : Host → World → World × ℕ
unfolding new_task hello_added hello_queued
net_connected h w = hello_queued h (new_task h w hello 2000 minus_one 0 none 0)

unfoldable pub net_sched_task : Host → World → Task → World × ℕ
net_sched_task h w t = sched_add_task h w t

-- `if(!t) return -1; … return net_sched_task(a, t);`
unfoldable pub queue_new : Host → World × Option Task → World × ℕ
queue_new h (w, none) = (w, minus_one)
queue_new h (w, some t) = net_sched_task h w t

-- A message that is turned into a task.
unfoldable pub schedule_msg : Host → World → TaskType → ℕ → ℕ → Msg → ℕ → World × ℕ
schedule_msg h w kind interval res msg size =
    queue_new h (new_task h w kind interval res 0 msg size)

unfoldable pub net_sc_hello : World → World × ℕ
net_sc_hello w = (w, 0)

unfoldable pub net_se_enb_setup : Host → World → Msg → ℕ → World × ℕ
unfolding schedule_msg
net_se_enb_setup h w msg size = schedule_msg h w TaskType.enb_setup 1 0 msg size

unfoldable pub net_se_ho : Host → World → Msg → ℕ → World × ℕ
unfolding schedule_msg
net_se_ho h w msg size = schedule_msg h w TaskType.ho 1 0 msg size

unfoldable pub net_se_rans : Host → World → Msg → ℕ → World × ℕ
unfolding schedule_msg
net_se_rans h w msg size = schedule_msg h w TaskType.ran_setup 1 0 msg size

unfoldable pub net_se_ranslice : Host → World → Msg → ℕ → World × ℕ
unfolding schedule_msg
net_se_ranslice h w msg size = schedule_msg h w TaskType.ran_slice 1 0 msg size

unfoldable pub net_sc_cell_meas_report : Host → World → Msg → ℕ → World × ℕ
unfolding schedule_msg
net_sc_cell_meas_report h w msg size =
    schedule_msg h w TaskType.cell_measure (h.epp_sched_interval msg size) minus_one msg size

-- The module of a message; what `epp_head` does not fill stays as it was.
unfoldable pub msg_module : Host → Msg → ℕ → ℕ
msg_module h msg size = (h.epp_head msg size h.junk_head).1.module_id

abbrev pub is_add : OpType → Bool
is_add add = true
is_add _ = false

-- `if(!s) { …; trig_del_by_id(&a->trig, t->id); return 0; } return net_sched_task(a, s);`
unfoldable pub queue_trigger : Host → ℕ → World × Option Task → World × ℕ
queue_trigger h id (w, none) = ((del_trigger_id h w id).0, 0)
queue_trigger h id (w, some s) = net_sched_task h w s

-- `if(!t) return 0; trig_add(&a->trig, t);` and the task of the trigger.
unfoldable pub trigger_task : Host → TaskType → World × Option Trigger → World × ℕ
trigger_task h kind (w, none) = (w, 0)
trigger_task h kind (w, some t) =
    let (w', t') = add_trigger h w t in queue_trigger h t'.id (new_task h w' kind 1 0 t'.id none 0)

unfoldable pub trigger_request : Host → World → ℕ → ℕ → TaskType → Msg → ℕ → World × ℕ
trigger_request h w module_id kind task_kind msg size =
    trigger_task h task_kind (new_trigger h w module_id kind 0 msg size)

unfoldable pub net_te_ue_report : Host → World → Msg → ℕ → World × ℕ
unfolding msg_module
net_te_ue_report h w msg size =
    let module_id = msg_module h msg size in
    if is_add (h.epp_trigger_op msg size)
    then trigger_request h w module_id tr_type_ue_rep TaskType.ue_report msg size
    else del_trigger_inst h w module_id tr_type_ue_rep 0

-- The type of the trigger is the value of TASK_TYPE_CELL_MEASURE, as in the source.
unfoldable pub net_te_cell_meas_report : Host → World → Msg → ℕ → World × ℕ
unfolding msg_module
net_te_cell_meas_report h w msg size =
    let module_id = msg_module h msg size in
    if is_add (h.epp_trigger_op msg size)
    then trigger_request h w module_id (task_type_code TaskType.cell_measure) TaskType.cell_measure
        msg size
    else del_trigger_inst h w module_id tr_type_mac_rep 0

-- The loop over the measurements to remove, with the rounds left.
unfoldable pub ue_measure_dels : Host → ℕ → (ℕ → Rrc) → ℕ → World → World
ue_measure_dels h module_id rrc zero w = w
ue_measure_dels h module_id rrc (suc n) w =
    ue_measure_dels h module_id rrc n
      (del_trigger_inst h w module_id tr_type_ue_meas (rrc n).meas_id).0

-- One round of the loop over the measurements to add: the world, and whether to go on, which is
-- not so when memory runs out.
unfoldable pub measure_task : Host → ℕ → World × Option Task → World × Bool
measure_task h id (w, none) = ((del_trigger_id h w id).0, false)
measure_task h id (w, some s) = ((net_sched_task h w s).0, true)

unfoldable pub measure_trigger : Host → World × Option Trigger → World × Bool
measure_trigger h (w, none) = (w, false)
measure_trigger h (w, some t) =
    let (w', t') = add_trigger h w t in
    measure_task h t'.id (new_task h w' TaskType.ue_measure 1 0 t'.id none 0)

-- The loop, with the rounds left.
unfoldable pub ue_measure_adds : Host → ℕ → (ℕ → Rrc) → Msg → ℕ → ℕ → World → World
ue_measure_adds h module_id rrc msg size zero w = w
ue_measure_adds h module_id rrc msg size (suc n) w =
    let (w', more) =
      measure_trigger h (new_trigger h w module_id tr_type_ue_meas (rrc n).meas_id msg size) in
    let rest = ue_measure_adds h module_id rrc msg size n w' in if more then rest else w'

unfoldable pub net_te_ue_measure : Host → World → Msg → ℕ → World × ℕ
unfolding msg_module
net_te_ue_measure h w msg size =
    let module_id = msg_module h msg size in
    let m = (h.epp_trigger_uemeas_req msg size h.junk_meas).1 in
    if is_add (h.epp_trigger_op msg size)
    then (ue_measure_adds h module_id m.rrc msg size m.nof_rrc w, 0)
    else (ue_measure_dels h module_id m.rrc m.nof_rrc w, 0)
