-- ===== src/Sched/Calls.antt =====
-- Which callbacks of the wrapper the scheduler calls.
use empower_enb_agent.Base.{
  ℕ, zero, suc, ◌≡◌, Bool, true, false, Option, none, some, List, [], ◌∷◌, arith, ◌&&◌, ◌+◌, ◌<◌,
  length,
}
use empower_enb_agent.Agent.{AgentOps, Event, World, Host, clock_gettime}
use empower_enb_agent.Proto.{Rrc}
use empower_enb_agent.Task.{Task, TaskType, Timespec}
use empower_enb_agent.Trigger.{Trigger}
use empower_enb_agent.Sched.Perform.{
  sched_perform_send, sched_perform_hello, sched_perform_enb_setup, sched_perform_ue_report,
  sched_perform_ue_measure, sched_perform_cell_meas, sched_perform_ho, sched_perform_ran_setup,
  sched_perform_ran_slice, ue_measure_calls,
}
use empower_enb_agent.Sched.Job.{sched_perform_job, perform}
use empower_enb_agent.Sched.Consume.{
  sched_consume, network_down, dump_queues, flush_triggers, alert,
}
use empower_enb_agent.Sched.Outcome.{Outcome, has_op, net_error, consumed, not_elapsed, reschedule}
use empower_enb_agent.Sched.Service.{turn, counted, released}
use empower_enb_agent.Sched.Service.Total.{tasks_of}
use empower_enb_agent.Sched.Service.Down.{sched_consume-ends}
use empower_enb_agent.Sched.Along.{Along, sched_consume-Along}

-- Whether the callback of an event is set.
abbrev pub is_set : AgentOps → Event → Bool
is_set o Event.init = o.init
is_set o Event.release = o.release
is_set o Event.disconnected = o.disconnected
is_set o (Event.enb_setup_request _) = o.enb_setup_request
is_set o (Event.ue_report _ _) = o.ue_report
is_set o (Event.ue_measure _ _ _ _ _ _ _ _) = o.ue_measure
is_set o (Event.handover_ue _ _ _ _ _ _) = o.handover_ue
is_set o (Event.cell_measure _ _ _ _) = o.cell_measure
is_set o (Event.ran_setup_request _) = o.ran_setup_request
is_set o (Event.slice_request _ _) = o.slice_request
is_set o (Event.slice_add _ _ _) = o.slice_add
is_set o (Event.slice_rem _ _) = o.slice_rem
is_set o (Event.slice_conf _ _ _) = o.slice_conf
is_set o (Event.sent _ _) = true
is_set o (Event.closed _) = true

-- `send` and `close` are no callbacks; any other event needs the record of callbacks.
abbrev pub may_call : Option AgentOps → Event → Bool
may_call none (Event.sent _ _) = true
may_call none (Event.closed _) = true
may_call none _ = false
may_call (some o) e = is_set o e

-- Whether no call of the list is of a callback that is not set.
abbrev pub are_set : Option AgentOps → List Event → Bool
are_set ops [] = true
are_set ops (e ∷ es) = may_call ops e && are_set ops es

-- No call so far was of a callback that is not set.
abbrev pub IsProper : World → Type 0
IsProper w = are_set w.agent.ops w.out ≡ true

module _ (h : Host) (w : World) (t : Task) (p : IsProper w) where
  send-IsProper : IsProper (sched_perform_send h w t).0
  unfolding sched_perform_send
  send-IsProper = ground arith

  enb-IsProper : IsProper (sched_perform_enb_setup h w t).0
  unfolding sched_perform_enb_setup
  enb-IsProper = ground arith

  ho-IsProper : IsProper (sched_perform_ho h w t).0
  unfolding sched_perform_ho
  ho-IsProper = ground arith

  cell_meas-IsProper : IsProper (sched_perform_cell_meas h w t).0
  unfolding sched_perform_cell_meas
  cell_meas-IsProper = ground arith

  ran_slice-IsProper : IsProper (sched_perform_ran_slice h w t).0
  unfolding sched_perform_ran_slice
  ran_slice-IsProper = ground arith

measure_calls-IsProper :
    (t : Trigger) (rrc : ℕ → Rrc) (n : ℕ) (w : World)
    → has_op (λ o. o.ue_measure) w.agent ≡ true
    → IsProper w
    → IsProper (ue_measure_calls t rrc n w)
unfolding ue_measure_calls has_op
measure_calls-IsProper t rrc zero w set p = p
measure_calls-IsProper t rrc (suc n) w set p = measure_calls-IsProper t rrc n _ set (ground arith)

module _ (h : Host) (w : World) (t : Task) (p : IsProper w) where
  ue_measure-IsProper : IsProper (sched_perform_ue_measure h w t).0
  unfolding sched_perform_ue_measure
  ue_measure-IsProper = grind (arith, measure_calls-IsProper)

  perform-IsProper : (k : TaskType) → IsProper (perform h w t k).0
  unfolding perform sched_perform_hello sched_perform_ue_report sched_perform_ran_setup
  perform-IsProper TaskType.send = send-IsProper h w t p
  perform-IsProper TaskType.enb_setup = enb-IsProper h w t p
  perform-IsProper TaskType.ho = ho-IsProper h w t p
  perform-IsProper TaskType.ue_measure = ue_measure-IsProper
  perform-IsProper TaskType.cell_measure = cell_meas-IsProper h w t p
  perform-IsProper TaskType.ran_slice = ran_slice-IsProper h w t p
  perform-IsProper _ = ground arith

  job-IsProper : (now : Timespec) → IsProper (sched_perform_job h w t now).0
  unfolding sched_perform_job
  job-IsProper now = ground (arith, perform-IsProper t.kind)

counted-IsProper : (new : List Task) (w : World) → IsProper w → IsProper (counted new w)
counted-IsProper [] w p = p
counted-IsProper (t ∷ new) w p = counted-IsProper new _ p

released-IsProper : (t : Task) (op : Outcome) (w : World) → IsProper w → IsProper (released t op w)
released-IsProper t net_error w p = p
released-IsProper t consumed w p = p
released-IsProper t not_elapsed w p = p
released-IsProper t reschedule w p = p

module _ (h : Host) where
  turn-IsProper :
      (t : Task) (new : List Task) (w : World) → IsProper w → IsProper (turn h w t new).after
  unfolding turn clock_gettime
  turn-IsProper t new w p =
      let now = h.clock w.asked in
      let r = sched_perform_job h (record w { asked = suc w.asked }) t now in
      released-IsProper r.1 r.2 (counted new r.0)
        (counted-IsProper new r.0 (job-IsProper h (record w { asked = suc w.asked }) t p now))

  network_down-IsProper : (w : World) → IsProper w → IsProper (network_down h w)
  unfolding network_down dump_queues flush_triggers alert
  network_down-IsProper w p = ground arith

  Proper-Along : Along h IsProper
  Proper-Along = record {
    any_sched = λ s w p. p;
    any_mem = λ m w p. p;
    each_turn = turn-IsProper;
    after_down = network_down-IsProper;
  }

  -- With fuel for each of its tasks a run of the scheduler ends, and it has called no callback of
  -- the wrapper that is not set, if none was called before; a network error included.
  pub sched_consume-IsProper :
      (w : World) (arrivals : List (List Task)) (fuel : ℕ)
      → length w.agent.sched.jobs + tasks_of arrivals < fuel
      → w.agent.sched.todo ≡ []
      → IsProper w
      → (w' : World) × (sched_consume h fuel arrivals w ≡ some w') × IsProper w'
  sched_consume-IsProper w arrivals fuel lt e p =
      let (w', run, _) = sched_consume-ends h w arrivals fuel lt e in
      (w', run, sched_consume-Along h IsProper Proper-Along fuel arrivals w w' run p)
