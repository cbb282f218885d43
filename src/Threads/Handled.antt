-- ===== src/Threads/Handled.antt =====
-- A message handled as one step, and step by step.
use empower_enb_agent.Base.{◌≢◌, ℕ, ◌≢◌, Bool, true, false, Bool-cases, inl, inr, if◌then◌else◌}
use empower_enb_agent.Agent.{World, Host}
use empower_enb_agent.Proto.{Msg, ActType, MsgType}
use empower_enb_agent.Task.{hello, TaskType}
use empower_enb_agent.Trigger.{tr_type_ue_rep, tr_type_mac_rep}
use empower_enb_agent.Net.Handlers.{
  schedule_msg, is_add, net_se_enb_setup, net_se_ho, net_se_rans, net_se_ranslice, net_sc_hello,
  net_sc_cell_meas_report, net_te_ue_report, net_te_cell_meas_report, net_te_ue_measure,
}
use empower_enb_agent.Net.Dispatch.{
  single_switch, sched_switch, trigger_switch, message_switch, net_process_single_event,
  net_process_sched_event, net_process_trigger_event, net_process_message,
}
use empower_enb_agent.Threads.Messages.{
  Reaches, schedule_msg-Reaches, trigger_request-Reaches, del_trigger_inst-Reaches,
  ue_measure_dels-Reaches, ue_measure_adds-Reaches,
}
use empower_enb_agent.Threads.{Sched, listening}
use empower_enb_agent.Threads.Together.{System, Moves, start}

module _ (h : Host) (p : Sched) (s : System) (w : World) (msg : Msg) (size : ℕ) where
  abbrev Reached : World → Type 0
  Reached w' = Reaches h p s w' listening

  module _ (r : Reached w) where
    te_ue_report-Reached : Reached (net_te_ue_report h w msg size).0
    unfolding net_te_ue_report
    te_ue_report-Reached = elim (Bool-cases (is_add (h.epp_trigger_op msg size))) [
      | inl e ↦
          rw e (
            trigger_request-Reaches h p s w _ tr_type_ue_rep TaskType.ue_report msg size (λ e. cc)
              r)
      | inr e ↦ rw e (del_trigger_inst-Reaches h p s w _ tr_type_ue_rep 0 r)
    ]

    te_cell_meas-Reached : Reached (net_te_cell_meas_report h w msg size).0
    unfolding net_te_cell_meas_report
    te_cell_meas-Reached = elim (Bool-cases (is_add (h.epp_trigger_op msg size))) [
      | inl e ↦
          rw e (trigger_request-Reaches h p s w _ 6 TaskType.cell_measure msg size (λ e. cc) r)
      | inr e ↦ rw e (del_trigger_inst-Reaches h p s w _ tr_type_mac_rep 0 r)
    ]

    te_ue_measure-Reached : Reached (net_te_ue_measure h w msg size).0
    unfolding net_te_ue_measure
    te_ue_measure-Reached = elim (Bool-cases (is_add (h.epp_trigger_op msg size))) [
      | inl e ↦ rw e (ue_measure_adds-Reaches h p s _ _ msg size _ w r)
      | inr e ↦ rw e (ue_measure_dels-Reaches h p s _ _ _ w r)
    ]

    if_Reached : (b : Bool) (x : World × ℕ) → Reached x.0 → Reached (if b then x else (w, 0)).0
    if_Reached true x s = s
    if_Reached false x s = r

    scheduled :
        (kind : TaskType) (a b : ℕ) → kind ≢ hello → Reached (schedule_msg h w kind a b msg size).0
    scheduled kind a b k = schedule_msg-Reaches h p s w kind a b msg size k r

    single-Reached : (a : ActType) → Reached (single_switch h w msg size a).0
    unfolding single_switch net_se_enb_setup net_se_ho net_se_rans net_se_ranslice
    single-Reached ActType.ecap = if_Reached _ _ (scheduled _ _ _ (λ e. cc))
    single-Reached ActType.handover = if_Reached _ _ (scheduled _ _ _ (λ e. cc))
    single-Reached ActType.ran_setup = if_Reached _ _ (scheduled _ _ _ (λ e. cc))
    single-Reached ActType.ran_slice = if_Reached _ _ (scheduled _ _ _ (λ e. cc))
    single-Reached _ = r

    sched-Reached : (a : ActType) → Reached (sched_switch h w msg size a).0
    unfolding sched_switch net_sc_cell_meas_report net_sc_hello
    sched-Reached ActType.cell_measure = if_Reached _ _ (scheduled _ _ _ (λ e. cc))
    sched-Reached ActType.hello = if_Reached _ _ r
    sched-Reached _ = r

    trigger-Reached : (a : ActType) → Reached (trigger_switch h w msg size a).0
    unfolding trigger_switch
    trigger-Reached ActType.ue_report = te_ue_report-Reached
    trigger-Reached ActType.ue_measure = te_ue_measure-Reached
    trigger-Reached ActType.cell_measure = te_cell_meas-Reached
    trigger-Reached _ = r

    message-Reached : (m : MsgType) → Reached (message_switch h w msg size m).0
    unfolding message_switch net_process_single_event net_process_sched_event
        net_process_trigger_event
    message-Reached MsgType.single_msg = single-Reached (h.epp_single_type msg size)
    message-Reached MsgType.schedule_msg = sched-Reached (h.epp_schedule_type msg size)
    message-Reached MsgType.trigger_msg = trigger-Reached (h.epp_trigger_type msg size)
    message-Reached MsgType.other = r

  pub net_process_message-Reaches : Reached w → Reached (net_process_message h w msg size).0
  unfolding net_process_message
  net_process_message-Reaches r = message-Reached r (h.epp_msg_type msg size)

-- Any message handled in one go is a sequence of small steps of the network thread, from one
-- `listening` to the next; wherever the scheduler is, and whether or not it is stopped.
pub net_process_message-Moves :
    (h : Host) (p : Sched) (w : World) (msg : Msg) (size : ℕ)
    → Moves h
        (record { world = w; sched = p; net = listening })
        (record { world = (net_process_message h w msg size).0; sched = p; net = listening })
net_process_message-Moves h p w msg size = net_process_message-Reaches h p _ w msg size start
