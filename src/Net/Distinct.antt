-- ===== src/Net/Distinct.antt =====
-- The ids of the triggers under each message.
use empower_enb_agent.Base.{
  ℕ, suc, ◌+◌, Bool, true, false, Bool-cases, inl, inr, arith, if◌then◌else◌,
}
use empower_enb_agent.Agent.{World, Host}
use empower_enb_agent.Proto.{Msg, ActType, MsgType}
use empower_enb_agent.Task.{TaskType}
use empower_enb_agent.Trigger.{tr_type_ue_rep, tr_type_mac_rep}
use empower_enb_agent.Net.Dispatch.{
  single_switch, sched_switch, trigger_switch, message_switch, net_process_single_event,
  net_process_sched_event, net_process_trigger_event, net_process_message,
}
use empower_enb_agent.Net.Handlers.{
  schedule_msg, new_task, is_add, net_se_enb_setup, net_se_ho, net_se_rans, net_se_ranslice,
  net_sc_hello, net_sc_cell_meas_report, net_te_ue_report, net_te_cell_meas_report,
  net_te_ue_measure,
}
use empower_enb_agent.Net.Room.{
  HasRoom, fewer-HasRoom, queue_new-HasRoom, trigger_request-HasRoom, dels-HasRoom, adds-HasRoom,
  del_trigger_inst-HasRoom, asked_triggers,
}

module _ (h : Host) (n : ℕ) (w : World) (msg : Msg) (size : ℕ)
    (r : HasRoom (asked_triggers h msg size + n) w) where
  as_before : HasRoom n w
  as_before = fewer-HasRoom (asked_triggers h msg size + n) n w (omega arith) r

  one_more : HasRoom (suc n) w
  one_more = fewer-HasRoom (asked_triggers h msg size + n) (suc n) w (omega arith) r

  measures : HasRoom ((h.epp_trigger_uemeas_req msg size h.junk_meas).1.nof_rrc + n) w
  measures = fewer-HasRoom (asked_triggers h msg size + n) _ w (omega arith) r

  schedule_msg-HasRoom :
      (kind : TaskType) (a b : ℕ) → HasRoom n (schedule_msg h w kind a b msg size).0
  unfolding schedule_msg new_task
  schedule_msg-HasRoom kind a b = queue_new-HasRoom h n _ as_before

  te_ue_report-HasRoom : HasRoom n (net_te_ue_report h w msg size).0
  unfolding net_te_ue_report
  te_ue_report-HasRoom = elim (Bool-cases (is_add (h.epp_trigger_op msg size))) [
    | inl e ↦
        rw e (trigger_request-HasRoom h n w _ tr_type_ue_rep TaskType.ue_report msg size one_more)
    | inr e ↦ rw e (del_trigger_inst-HasRoom h n w _ tr_type_ue_rep 0 as_before)
  ]

  te_cell_meas-HasRoom : HasRoom n (net_te_cell_meas_report h w msg size).0
  unfolding net_te_cell_meas_report
  te_cell_meas-HasRoom = elim (Bool-cases (is_add (h.epp_trigger_op msg size))) [
    | inl e ↦ rw e (trigger_request-HasRoom h n w _ 6 TaskType.cell_measure msg size one_more)
    | inr e ↦ rw e (del_trigger_inst-HasRoom h n w _ tr_type_mac_rep 0 as_before)
  ]

  te_ue_measure-HasRoom : HasRoom n (net_te_ue_measure h w msg size).0
  unfolding net_te_ue_measure
  te_ue_measure-HasRoom = elim (Bool-cases (is_add (h.epp_trigger_op msg size))) [
    | inl e ↦ rw e (adds-HasRoom h n _ _ msg size _ w measures)
    | inr e ↦ rw e (dels-HasRoom h n _ _ _ w as_before)
  ]

  if_HasRoom : (b : Bool) (x : World × ℕ) → HasRoom n x.0 → HasRoom n (if b then x else (w, 0)).0
  if_HasRoom true x p = p
  if_HasRoom false x p = as_before

  single-HasRoom : (a : ActType) → HasRoom n (single_switch h w msg size a).0
  unfolding single_switch net_se_enb_setup net_se_ho net_se_rans net_se_ranslice
  single-HasRoom ActType.ecap = if_HasRoom _ _ (schedule_msg-HasRoom _ _ _)
  single-HasRoom ActType.handover = if_HasRoom _ _ (schedule_msg-HasRoom _ _ _)
  single-HasRoom ActType.ran_setup = if_HasRoom _ _ (schedule_msg-HasRoom _ _ _)
  single-HasRoom ActType.ran_slice = if_HasRoom _ _ (schedule_msg-HasRoom _ _ _)
  single-HasRoom _ = as_before

  sched-HasRoom : (a : ActType) → HasRoom n (sched_switch h w msg size a).0
  unfolding sched_switch net_sc_cell_meas_report net_sc_hello
  sched-HasRoom ActType.cell_measure = if_HasRoom _ _ (schedule_msg-HasRoom _ _ _)
  sched-HasRoom ActType.hello = if_HasRoom _ _ as_before
  sched-HasRoom _ = as_before

  trigger-HasRoom : (a : ActType) → HasRoom n (trigger_switch h w msg size a).0
  unfolding trigger_switch
  trigger-HasRoom ActType.ue_report = te_ue_report-HasRoom
  trigger-HasRoom ActType.ue_measure = te_ue_measure-HasRoom
  trigger-HasRoom ActType.cell_measure = te_cell_meas-HasRoom
  trigger-HasRoom _ = as_before

  message-HasRoom : (m : MsgType) → HasRoom n (message_switch h w msg size m).0
  unfolding message_switch net_process_single_event net_process_sched_event
      net_process_trigger_event
  message-HasRoom MsgType.single_msg = single-HasRoom (h.epp_single_type msg size)
  message-HasRoom MsgType.schedule_msg = sched-HasRoom (h.epp_schedule_type msg size)
  message-HasRoom MsgType.trigger_msg = trigger-HasRoom (h.epp_trigger_type msg size)
  message-HasRoom MsgType.other = as_before

  -- Whatever a message asks for, the ids of the agent's triggers stay distinct and below the next
  -- one, provided that the next one does not wrap on the triggers that the message asks for and `n`
  -- more; then it does not wrap on `n` more afterwards.
  pub net_process_message-HasRoom : HasRoom n (net_process_message h w msg size).0
  unfolding net_process_message
  net_process_message-HasRoom = message-HasRoom (h.epp_msg_type msg size)
