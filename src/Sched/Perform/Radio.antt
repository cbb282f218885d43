-- ===== src/Sched/Perform/Radio.antt =====
-- agent/sched.c, lines 152 to 496: every type of task but RAN slices. `true` for a status is an
-- error of the reader, as in the tests of the source.
use empower_enb_agent.Base.{
  ℕ, zero, suc, not, Option, none, some, List, ◌==◌, is_positive, minus_one, if◌then◌else◌, length,
}
use empower_enb_agent.Agent.{Event, World, Host, emit}
use empower_enb_agent.Proto.{Rrc, HoReq}
use empower_enb_agent.Task.{Task}
use empower_enb_agent.Trigger.{Trigger, trig_find_by_id}
use empower_enb_agent.Sched.Outcome.{Outcome, consumed, has_op, zero_head, sched_send_msg}

-- The task comes back with its message numbered.
unfoldable pub sched_perform_send : Host → World → Task → World × Task × Outcome
unfolding sched_send_msg
sched_perform_send h w task =
    let (w', msg, op) = sched_send_msg h w task.msg task.msg_size in
    (w', record task { msg = msg }, op)

unfoldable pub hello_send : Host → World → Option (List ℕ) → World × Outcome
unfolding sched_send_msg
hello_send h w none = (w, consumed)
hello_send h w (some buf) =
    let (w', msg, op) = sched_send_msg h w (some buf) (length buf) in (w', op)

unfoldable pub sched_perform_hello : Host → World → Task → World × Outcome
unfolding hello_send
sched_perform_hello h w task = hello_send h w (h.epf_sched_hello_req 64 w.agent.enb_id task.elapse)

unfoldable pub sched_perform_enb_setup : Host → World → Task → World × Outcome
unfolding has_op emit
sched_perform_enb_setup h w task =
    let (err, head) = h.epp_head task.msg task.msg_size zero_head in
    if not (err == 0)
    then (w, consumed)
    else (if has_op (λ o. o.enb_setup_request) w.agent
        then (emit (Event.enb_setup_request head.module_id) w, consumed)
        else (w, consumed))

abbrev zero_ho : HoReq
zero_ho = record { rnti = 0; tenb = 0; tcell = 0; cause = 0 }

unfoldable pub sched_perform_ho : Host → World → Task → World × Outcome
unfolding has_op emit
sched_perform_ho h w task =
    let (err, head) = h.epp_head task.msg task.msg_size zero_head in
    let (bad, r) = h.epp_single_ho_req task.msg task.msg_size zero_ho in
    if not (err == 0)
    then (w, consumed)
    else (if not (bad == 0)
        then (w, consumed)
        else (if has_op (λ o. o.handover_ue) w.agent
            then (
              emit (Event.handover_ue head.module_id head.cell r.rnti r.tenb r.tcell r.cause) w,
              consumed,
            )
            else (w, consumed)))

-- `for(; m.nof_rrc > 0; m.nof_rrc--)`, with the rounds left
unfoldable pub ue_measure_calls : Trigger → (ℕ → Rrc) → ℕ → World → World
unfolding emit
ue_measure_calls t rrc zero w = w
ue_measure_calls t rrc (suc n) w = ue_measure_calls t rrc n (emit (call (rrc n)) w)
  where
    call : Rrc → Event
    call r =
        Event.ue_measure t.module_id t.id r.meas_id r.rnti r.earfcn r.interval r.max_cells
          r.max_meas

unfoldable pub measure_with : Host → World → Option Trigger → World × Outcome
unfolding ue_measure_calls
measure_with h w none = (w, consumed)
measure_with h w (some t) =
    let (err, m) = h.epp_trigger_uemeas_req t.msg t.msg_size h.junk_meas in
    if not (err == 0) then (w, consumed) else (ue_measure_calls t m.rrc m.nof_rrc w, consumed)

unfoldable pub sched_perform_ue_measure : Host → World → Task → World × Outcome
unfolding has_op measure_with trig_find_by_id
sched_perform_ue_measure h w task =
    if has_op (λ o. o.ue_measure) w.agent
    then measure_with h w (trig_find_by_id w.agent.trig task.trig)
    else (w, consumed)

unfoldable pub cell_meas_trigger : Host → World → Option Trigger → World × Outcome
unfolding emit
cell_meas_trigger h w none = (w, consumed)
cell_meas_trigger h w (some t) =
    let (err, head) = h.epp_head t.msg t.msg_size h.junk_head in
    if not (err == 0)
    then (w, consumed)
    else (if not (h.epp_trigger_cell_meas_req t.msg t.msg_size == 0)
        then (w, consumed)
        else (emit (Event.cell_measure head.cell t.module_id 0 t.id) w, consumed))

cell_meas_scheduled : Host → World → Task → World × Outcome
unfolding emit
cell_meas_scheduled h w task =
    let (err, head) = h.epp_head task.msg task.msg_size (record (h.junk_head) { module_id = 0 }) in
    let (bad, intv) = h.epp_sched_cell_meas_req task.msg task.msg_size h.junk_word in
    if not (err == 0)
    then (w, consumed)
    else (if not (bad == 0)
        then (w, consumed)
        else (emit (Event.cell_measure head.cell head.module_id intv minus_one) w, consumed))

unfoldable pub sched_perform_cell_meas : Host → World → Task → World × Outcome
unfolding has_op cell_meas_trigger cell_meas_scheduled trig_find_by_id
sched_perform_cell_meas h w task =
    if has_op (λ o. o.cell_measure) w.agent
    then (if is_positive task.trig
        then cell_meas_trigger h w (trig_find_by_id w.agent.trig task.trig)
        else cell_meas_scheduled h w task)
    else (w, consumed)

unfoldable pub sched_perform_ue_report : World → Task → World × Outcome
unfolding has_op emit
sched_perform_ue_report w task =
    if has_op (λ o. o.ue_report) w.agent
    then (emit (Event.ue_report task.module_id task.trig) w, consumed)
    else (w, consumed)

unfoldable pub sched_perform_ran_setup : Host → World → Task → World × Outcome
unfolding has_op emit
sched_perform_ran_setup h w task =
    let (err, head) = h.epp_head task.msg task.msg_size zero_head in
    if has_op (λ o. o.ran_setup_request) w.agent
    then (emit (Event.ran_setup_request head.module_id) w, consumed)
    else (w, consumed)
