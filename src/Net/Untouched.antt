-- ===== src/Net/Untouched.antt =====
-- What the handling of a message leaves alone.
use empower_enb_agent.Base.{
  ℕ, zero, suc, Bool, List, ap, ◌≡◌, refl, inl, inr, Option, none, some, arith, Bool-cases, ◌∙◌,
}
use empower_enb_agent.Agent.{World, Host, AgentOps, NetCtx, Event}
use empower_enb_agent.Proto.{Msg, Rrc, ActType, MsgType}
use empower_enb_agent.Task.{Task, TaskType}
use empower_enb_agent.Trigger.{Trigger, tr_type_ue_meas}
use empower_enb_agent.Sched.Job.{sched_add_task}
use empower_enb_agent.Net.Handlers.{
  new_task, new_trigger, add_trigger, del_trigger_id, del_trigger_inst, schedule_msg, queue_new,
  queue_trigger, measure_task, measure_trigger, trigger_task, trigger_request, net_sched_task,
  ue_measure_dels, ue_measure_adds, net_se_enb_setup, net_se_ho, net_se_rans, net_se_ranslice,
  net_sc_hello, net_sc_cell_meas_report, net_te_ue_report, net_te_cell_meas_report,
  net_te_ue_measure,
}
use empower_enb_agent.Net.Dispatch.{
  single_switch, sched_switch, trigger_switch, message_switch, net_process_single_event,
  net_process_sched_event, net_process_trigger_event, net_process_message,
}

-- All but the triggers, the queue, and the counters of the heap and of the platform.
abbrev pub Outside : Type 0
Outside = ℕ × Option AgentOps × NetCtx × Bool × List Task × List Event

abbrev pub outside : World → Outside
outside w =
    (w.agent.enb_id, w.agent.ops, w.agent.net, w.agent.sched.stop, w.agent.sched.todo, w.out)

module _ (h : Host) where
  add_task_outside : (w : World) (t : Task) → outside (net_sched_task h w t).0 ≡ outside w
  unfolding net_sched_task sched_add_task
  add_task_outside w t = ground arith

  outside-queue_trigger :
      (id : ℕ) (w : World) (o : Option Task) → outside (queue_trigger h id (w, o)).0 ≡ outside w
  unfolding queue_trigger del_trigger_id
  outside-queue_trigger id w none = refl
  outside-queue_trigger id w (some t) = add_task_outside w t

  outside-trigger_task :
      (k : TaskType) (w : World) (o : Option Trigger)
      → outside (trigger_task h k (w, o)).0 ≡ outside w
  unfolding trigger_task add_trigger new_task
  outside-trigger_task k w none = refl
  outside-trigger_task k w (some t) = outside-queue_trigger _ _ _

  outside-trigger_request :
      (w : World) (a b : ℕ) (k : TaskType) (msg : Msg) (size : ℕ)
      → outside (trigger_request h w a b k msg size).0 ≡ outside w
  unfolding trigger_request new_trigger
  outside-trigger_request w a b k msg size = outside-trigger_task k _ _

  outside-queue_new : (w : World) (o : Option Task) → outside (queue_new h (w, o)).0 ≡ outside w
  unfolding queue_new
  outside-queue_new w none = refl
  outside-queue_new w (some t) = add_task_outside w t

  pub outside-schedule_msg :
      (w : World) (k : TaskType) (a b : ℕ) (msg : Msg) (size : ℕ)
      → outside (schedule_msg h w k a b msg size).0 ≡ outside w
  unfolding schedule_msg new_task
  outside-schedule_msg w k a b msg size = outside-queue_new _ _

  outside-measure_task :
      (id : ℕ) (w : World) (o : Option Task) → outside (measure_task h id (w, o)).0 ≡ outside w
  unfolding measure_task del_trigger_id
  outside-measure_task id w none = refl
  outside-measure_task id w (some t) = add_task_outside w t

  outside-measure_trigger :
      (w : World) (o : Option Trigger) → outside (measure_trigger h (w, o)).0 ≡ outside w
  unfolding measure_trigger add_trigger new_task
  outside-measure_trigger w none = refl
  outside-measure_trigger w (some t) = outside-measure_task _ _ _

  dels_outside :
      (a : ℕ) (rrc : ℕ → Rrc) (n : ℕ) (w : World)
      → outside (ue_measure_dels h a rrc n w) ≡ outside w
  unfolding ue_measure_dels del_trigger_inst
  dels_outside a rrc zero w = refl
  dels_outside a rrc (suc n) w = dels_outside a rrc n _

  adds_outside :
      (a : ℕ) (rrc : ℕ → Rrc) (msg : Msg) (size n : ℕ) (w : World)
      → outside (ue_measure_adds h a rrc msg size n w) ≡ outside w
  unfolding ue_measure_adds new_trigger
  adds_outside a rrc msg size zero w = refl
  adds_outside a rrc msg size (suc n) w =
      let r = measure_trigger h (new_trigger h w a tr_type_ue_meas (rrc n).meas_id msg size) in
      let one : outside r.0 ≡ outside w = outside-measure_trigger _ _ in
      let ih = adds_outside a rrc msg size n r.0 ∙ one in
      elim (Bool-cases r.1) [ inl e ↦ rw e ih | inr e ↦ rw e one ]

  module _ (w : World) (msg : Msg) (size : ℕ) where
    single_outside : (a : ActType) → outside (single_switch h w msg size a).0 ≡ outside w
    unfolding single_switch net_se_enb_setup net_se_ho net_se_rans net_se_ranslice
    single_outside a = grind (arith, outside-schedule_msg)

    sched_outside : (a : ActType) → outside (sched_switch h w msg size a).0 ≡ outside w
    unfolding sched_switch net_sc_cell_meas_report net_sc_hello
    sched_outside a = grind (arith, outside-schedule_msg)

    trigger_outside : (a : ActType) → outside (trigger_switch h w msg size a).0 ≡ outside w
    unfolding trigger_switch net_te_ue_report net_te_ue_measure net_te_cell_meas_report
        del_trigger_inst
    trigger_outside a = grind (arith, outside-trigger_request, dels_outside, adds_outside)

    message_outside : (m : MsgType) → outside (message_switch h w msg size m).0 ≡ outside w
    unfolding message_switch net_process_single_event net_process_sched_event
        net_process_trigger_event
    message_outside m = grind (arith, single_outside, sched_outside, trigger_outside)

    -- Handling a message calls nothing outside, and leaves the agent's id, its callbacks, its network
    -- context, and of its scheduler the second queue and whether it is stopped.
    pub outside-net_process_message : outside (net_process_message h w msg size).0 ≡ outside w
    unfolding net_process_message
    outside-net_process_message = message_outside (h.epp_msg_type msg size)

    -- A message, whatever it asks for, changes nothing of the network context.
    pub net_process_message_net : (net_process_message h w msg size).0.agent.net ≡ w.agent.net
    net_process_message_net = ap (λ o. o.2) outside-net_process_message
