-- ===== src/Net/Process.antt =====
-- The heap under each message, with a scheduler that runs and with one that has been stopped.
use empower_enb_agent.Base.{
  if◌then◌else◌, ℕ, suc, ◌+◌, ◌≡◌, inl, inr, Bool, true, false, Bool-cases, some, List, arith,
  minus_one,
}
use empower_enb_agent.Agent.{World, Host}
use empower_enb_agent.Proto.{Msg, ActType, MsgType}
use empower_enb_agent.Task.{TaskType, task_alloc}
use empower_enb_agent.Trigger.{tr_type_ue_rep, tr_type_mac_rep}
use empower_enb_agent.Sched.Job.{sched_add_task}
use empower_enb_agent.Net.Handlers.{
  schedule_msg, queue_new, new_task, net_sched_task, is_add, net_se_enb_setup, net_se_ho,
  net_se_rans, net_se_ranslice, net_sc_hello, net_sc_cell_meas_report, net_te_ue_report,
  net_te_cell_meas_report, net_te_ue_measure,
}
use empower_enb_agent.Net.Dispatch.{
  single_switch, sched_switch, trigger_switch, message_switch, net_process_single_event,
  net_process_sched_event, net_process_trigger_event, net_process_message,
}
use empower_enb_agent.Net.Blocks.{
  Steady, schedule_msg-Steady, trigger_request-Steady, del_trigger_inst-Steady,
  ue_measure_dels-Steady, ue_measure_adds-Steady,
}

module _ (h : Host) (k : ℕ) (w : World) (msg : Msg) (size : ℕ) (st : Steady h k w) where
  te_ue_report-Steady : Steady h k (net_te_ue_report h w msg size).0
  unfolding net_te_ue_report
  te_ue_report-Steady = elim (Bool-cases (is_add (h.epp_trigger_op msg size))) [
    | inl e ↦ rw e (trigger_request-Steady h k w _ tr_type_ue_rep TaskType.ue_report msg size st)
    | inr e ↦ rw e (del_trigger_inst-Steady h k w _ tr_type_ue_rep 0 st)
  ]

  te_cell_meas-Steady : Steady h k (net_te_cell_meas_report h w msg size).0
  unfolding net_te_cell_meas_report
  te_cell_meas-Steady = elim (Bool-cases (is_add (h.epp_trigger_op msg size))) [
    | inl e ↦ rw e (trigger_request-Steady h k w _ 6 TaskType.cell_measure msg size st)
    | inr e ↦ rw e (del_trigger_inst-Steady h k w _ tr_type_mac_rep 0 st)
  ]

  te_ue_measure-Steady : Steady h k (net_te_ue_measure h w msg size).0
  unfolding net_te_ue_measure
  te_ue_measure-Steady = elim (Bool-cases (is_add (h.epp_trigger_op msg size))) [
    | inl e ↦ rw e (ue_measure_adds-Steady h k _ _ msg size _ w st)
    | inr e ↦ rw e (ue_measure_dels-Steady h k _ _ _ w st)
  ]

  if_Steady : (b : Bool) (r : World × ℕ) → Steady h k r.0 → Steady h k (if b then r else (w, 0)).0
  if_Steady true r s = s
  if_Steady false r s = st

  single-Steady : (a : ActType) → Steady h k (single_switch h w msg size a).0
  unfolding single_switch net_se_enb_setup net_se_ho net_se_rans net_se_ranslice
  single-Steady ActType.ecap = if_Steady _ _ (schedule_msg-Steady h k w _ _ _ msg size st)
  single-Steady ActType.handover = if_Steady _ _ (schedule_msg-Steady h k w _ _ _ msg size st)
  single-Steady ActType.ran_setup = if_Steady _ _ (schedule_msg-Steady h k w _ _ _ msg size st)
  single-Steady ActType.ran_slice = if_Steady _ _ (schedule_msg-Steady h k w _ _ _ msg size st)
  single-Steady _ = st

  sched-Steady : (a : ActType) → Steady h k (sched_switch h w msg size a).0
  unfolding sched_switch net_sc_cell_meas_report net_sc_hello
  sched-Steady ActType.cell_measure = if_Steady _ _ (schedule_msg-Steady h k w _ _ _ msg size st)
  sched-Steady ActType.hello = if_Steady _ _ st
  sched-Steady _ = st

  trigger-Steady : (a : ActType) → Steady h k (trigger_switch h w msg size a).0
  unfolding trigger_switch
  trigger-Steady ActType.ue_report = te_ue_report-Steady
  trigger-Steady ActType.ue_measure = te_ue_measure-Steady
  trigger-Steady ActType.cell_measure = te_cell_meas-Steady
  trigger-Steady _ = st

  message-Steady : (m : MsgType) → Steady h k (message_switch h w msg size m).0
  unfolding message_switch net_process_single_event net_process_sched_event
      net_process_trigger_event
  message-Steady MsgType.single_msg = single-Steady (h.epp_single_type msg size)
  message-Steady MsgType.schedule_msg = sched-Steady (h.epp_schedule_type msg size)
  message-Steady MsgType.trigger_msg = trigger-Steady (h.epp_trigger_type msg size)
  message-Steady MsgType.other = st

  -- While the scheduler runs, no message leaks memory: if every block beside `k` others belongs to
  -- a queued task or a trigger, so it is after the message, whichever calls of `malloc` fail; and
  -- the scheduler still runs.
  pub net_process_message-Steady : Steady h k (net_process_message h w msg size).0
  unfolding net_process_message
  net_process_message-Steady = message-Steady (h.epp_msg_type msg size)

-- Once the scheduler is stopped, a message that should become a task leaks it: with memory for both
-- blocks the call fails with -1, no queue changes, and two blocks more are held.
pub schedule_msg-leaks :
    (h : Host) (w : World) (kind : TaskType) (interval res : ℕ) (bytes : List ℕ) (size : ℕ)
    → w.agent.sched.stop ≡ true
    → h.malloc_ok w.mem.calls ≡ true
    → h.malloc_ok (suc w.mem.calls) ≡ true
    → let r = schedule_msg h w kind interval res (some bytes) size in
      (r.1 ≡ minus_one) × (r.0.agent ≡ w.agent) × (r.0.mem.live ≡ w.mem.live + 2)
unfolding schedule_msg queue_new new_task net_sched_task sched_add_task task_alloc
schedule_msg-leaks h w kind interval res bytes size stopped a b = ground arith
