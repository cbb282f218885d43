-- ===== src/Sched/Perform/Slice.antt =====
-- agent/sched.c, lines 76 to 108 and 498 to 605: RAN slices.
use empower_enb_agent.Base.{ℕ, zero, suc, not, none, some, ◌==◌, ltb, if◌then◌else◌}
use empower_enb_agent.Agent.{Event, RanConf, World, Host, emit}
use empower_enb_agent.Proto.{SliceDet, OpType, unspecified, add, rem, set}
use empower_enb_agent.Task.{Task}
use empower_enb_agent.Sched.Outcome.{Outcome, consumed, has_op, zero_head}

abbrev pub update : (ℕ → ℕ) → ℕ → ℕ → ℕ → ℕ
update f i v j = if i == j then v else f j

-- `for(i = 0; i < det->nof_users && i < EP_RAN_USERS_MAX; i++)`, from `i` with the rounds that the
-- first test leaves
unfoldable pub copy_users : ℕ → (ℕ → ℕ) → ℕ → ℕ → (ℕ → ℕ) → ℕ → ℕ
copy_users limit from zero i users = users
copy_users limit from (suc n) i users =
    let rest = copy_users limit from n (suc i) (update users i (from i)) in
    if ltb i limit then rest else users

-- EP_RAN_USERS_MAX is `limit`.
unfoldable pub sched_to_ran_conf : ℕ → SliceDet → RanConf → RanConf
unfolding copy_users
sched_to_ran_conf limit det conf = record {
  nof_users = det.nof_users;
  users = copy_users limit det.users det.nof_users 0 conf.users;
  user_sched = det.usched;
  rbg = det.rbgs;
}

abbrev pub zero_conf : RanConf
zero_conf = record { nof_users = 0; users = λ i. 0; user_sched = 0; rbg = 0 }

abbrev pub zero_det : SliceDet
zero_det = record { usched = 0; rbgs = 0; nof_users = 0; users = λ i. 0 }

-- The `switch` of `sched_perform_ran_slice`, for a module.
slice_switch : Host → World → Task → ℕ → OpType → World
unfolding has_op emit sched_to_ran_conf
slice_switch h w task module_id unspecified =
    if has_op (λ o. o.slice_request) w.agent
    then (let (err, id) = h.epp_single_ran_slice_req task.msg task.msg_size 0 in
        if not (err == 0) then w else emit (Event.slice_request module_id id) w)
    else w
slice_switch h w task module_id add =
    if has_op (λ o. o.slice_add) w.agent
    then (let (err, id, det) = h.epp_single_ran_slice_add task.msg task.msg_size 0 zero_det in
        let conf = sched_to_ran_conf h.ep_ran_users_max det zero_conf in
        if not (err == 0) then w else emit (Event.slice_add module_id id conf) w)
    else w
slice_switch h w task module_id rem =
    if has_op (λ o. o.slice_rem) w.agent
    then (let (err, id) = h.epp_single_ran_slice_rem task.msg task.msg_size 0 in
        if not (err == 0) then w else emit (Event.slice_rem module_id id) w)
    else w
slice_switch h w task module_id set =
    if has_op (λ o. o.slice_conf) w.agent
    then (let (err, id, det) = h.epp_single_ran_slice_set task.msg task.msg_size 0 zero_det in
        let conf = sched_to_ran_conf h.ep_ran_users_max det zero_conf in
        if not (err == 0) then w else emit (Event.slice_conf module_id id conf) w)
    else w
slice_switch h w task module_id OpType.other = w

unfoldable pub sched_perform_ran_slice : Host → World → Task → World × Outcome
unfolding slice_switch
sched_perform_ran_slice h w task = elim w.agent.ops [
  | none ↦ (w, consumed)
  | some ops ↦
      let (err, head) = h.epp_head task.msg task.msg_size zero_head in
      (slice_switch h w task head.module_id (h.epp_single_op task.msg task.msg_size), consumed)
]
