-- ===== src/Net/Dispatch.antt =====
-- agent/net.c, lines 805 to 1006: which handler a message goes to.
use empower_enb_agent.Base.{ℕ, Bool, true, false, minus_one, if◌then◌else◌}
use empower_enb_agent.Agent.{World, Host}
use empower_enb_agent.Proto.{Msg, ActType, MsgType, Dir}
use empower_enb_agent.Net.Handlers.{
  net_sc_hello, net_se_enb_setup, net_se_ho, net_se_rans, net_se_ranslice, net_te_ue_report,
  net_te_ue_measure, net_te_cell_meas_report, net_sc_cell_meas_report,
}

abbrev pub is_req : Dir → Bool
is_req Dir.req = true
is_req _ = false

abbrev pub is_rep : Dir → Bool
is_rep Dir.rep = true
is_rep _ = false

unfoldable pub sched_switch : Host → World → Msg → ℕ → ActType → World × ℕ
sched_switch h w msg size ActType.invalid = (w, minus_one)
sched_switch h w msg size ActType.hello =
    if is_rep (h.epp_dir msg size) then net_sc_hello w else (w, 0)
sched_switch h w msg size ActType.cell_measure =
    if is_req (h.epp_dir msg size) then net_sc_cell_meas_report h w msg size else (w, 0)
sched_switch h w msg size _ = (w, 0)

unfoldable pub net_process_sched_event : Host → World → Msg → ℕ → World × ℕ
net_process_sched_event h w msg size = sched_switch h w msg size (h.epp_schedule_type msg size)

unfoldable pub single_switch : Host → World → Msg → ℕ → ActType → World × ℕ
single_switch h w msg size ActType.invalid = (w, minus_one)
single_switch h w msg size ActType.ecap =
    if is_req (h.epp_dir msg size) then net_se_enb_setup h w msg size else (w, 0)
single_switch h w msg size ActType.handover =
    if is_req (h.epp_dir msg size) then net_se_ho h w msg size else (w, 0)
single_switch h w msg size ActType.ran_setup =
    if is_req (h.epp_dir msg size) then net_se_rans h w msg size else (w, 0)
single_switch h w msg size ActType.ran_slice =
    if is_req (h.epp_dir msg size) then net_se_ranslice h w msg size else (w, 0)
single_switch h w msg size _ = (w, 0)

unfoldable pub net_process_single_event : Host → World → Msg → ℕ → World × ℕ
net_process_single_event h w msg size = single_switch h w msg size (h.epp_single_type msg size)

unfoldable pub trigger_switch : Host → World → Msg → ℕ → ActType → World × ℕ
trigger_switch h w msg size ActType.invalid = (w, minus_one)
trigger_switch h w msg size ActType.ue_report = net_te_ue_report h w msg size
trigger_switch h w msg size ActType.ue_measure = net_te_ue_measure h w msg size
trigger_switch h w msg size ActType.cell_measure = net_te_cell_meas_report h w msg size
trigger_switch h w msg size _ = (w, 0)

unfoldable pub net_process_trigger_event : Host → World → Msg → ℕ → World × ℕ
net_process_trigger_event h w msg size = trigger_switch h w msg size (h.epp_trigger_type msg size)

unfoldable pub message_switch : Host → World → Msg → ℕ → MsgType → World × ℕ
message_switch h w msg size MsgType.single_msg = net_process_single_event h w msg size
message_switch h w msg size MsgType.schedule_msg = net_process_sched_event h w msg size
message_switch h w msg size MsgType.trigger_msg = net_process_trigger_event h w msg size
message_switch h w msg size MsgType.other = (w, 0)

unfoldable pub net_process_message : Host → World → Msg → ℕ → World × ℕ
net_process_message h w msg size = message_switch h w msg size (h.epp_msg_type msg size)
