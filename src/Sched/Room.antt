-- ===== src/Sched/Room.antt =====
-- The ids of the triggers in a run of the scheduler.
use empower_enb_agent.Base.{
  ℕ, suc, ◌+◌, ◌<◌, ◌≡◌, refl, subst, sym, ◌∙◌, some, List, [], ◌∷◌, length, arith,
}
use empower_enb_agent.Agent.{World, Host, clock_gettime}
use empower_enb_agent.Task.{Task}
use empower_enb_agent.Trigger.{trig_flush}
use empower_enb_agent.Trigger.Room.{IsRoomy, trig_flush-IsRoomy}
use empower_enb_agent.Sched.Outcome.{Outcome, net_error, consumed, not_elapsed, reschedule}
use empower_enb_agent.Sched.Job.{sched_perform_job}
use empower_enb_agent.Sched.Consume.{
  sched_consume, network_down, dump_queues, flush_triggers, alert,
}
use empower_enb_agent.Sched.Kept.{sched_perform_job-Keeps}
use empower_enb_agent.Sched.Service.{turn, counted, released}
use empower_enb_agent.Sched.Service.Total.{tasks_of}
use empower_enb_agent.Sched.Service.Down.{sched_consume-ends}
use empower_enb_agent.Sched.Along.{Along, sched_consume-Along}

counted_trig : (new : List Task) (w : World) → (counted new w).agent.trig ≡ w.agent.trig
counted_trig [] w = refl
counted_trig (t ∷ new) w = counted_trig new _

released_trig : (t : Task) (op : Outcome) (w : World) → (released t op w).agent.trig ≡ w.agent.trig
released_trig t net_error w = refl
released_trig t consumed w = refl
released_trig t not_elapsed w = refl
released_trig t reschedule w = refl

module _ (h : Host) where
  turn_trig :
      (t : Task) (new : List Task) (w : World) → (turn h w t new).after.agent.trig ≡ w.agent.trig
  unfolding turn clock_gettime
  turn_trig t new w =
      let asked = record w { asked = suc w.asked } in
      let (w2, t', op) = sched_perform_job h asked t (h.clock w.asked) in
      released_trig t' op (counted new w2)
      ∙ counted_trig new w2
      ∙ (sched_perform_job-Keeps h asked t (h.clock w.asked)).same_trig

  network_down_trig :
      (w : World)
      → (network_down h w).agent.trig ≡ (trig_flush h.list w.agent.trig (dump_queues h w).mem).0
  unfolding network_down dump_queues flush_triggers alert
  network_down_trig w = ground arith

  network_down-IsRoomy :
      (n : ℕ) (w : World) → IsRoomy n w.agent.trig → IsRoomy n (network_down h w).agent.trig
  network_down-IsRoomy n w r =
      subst (IsRoomy n) (sym (network_down_trig w))
        (trig_flush-IsRoomy h.list n w.agent.trig (dump_queues h w).mem r)

  IsRoomy-Along : (n : ℕ) → Along h (λ w. IsRoomy n w.agent.trig)
  IsRoomy-Along n = record {
    any_sched = λ s w r. r;
    any_mem = λ m w r. r;
    each_turn = λ t new w r. subst (IsRoomy n) (sym (turn_trig t new w)) r;
    after_down = network_down-IsRoomy n;
  }

  -- A run of the scheduler, with fuel for each of its tasks, ends, and if the ids of the triggers
  -- were distinct and the next one had room for `n` more before it wraps, so it is afterwards.
  pub sched_consume-IsRoomy :
      (n : ℕ) (w : World) (arrivals : List (List Task)) (fuel : ℕ)
      → length w.agent.sched.jobs + tasks_of arrivals < fuel
      → w.agent.sched.todo ≡ []
      → IsRoomy n w.agent.trig
      → (w' : World) × (sched_consume h fuel arrivals w ≡ some w') × IsRoomy n w'.agent.trig
  sched_consume-IsRoomy n w arrivals fuel lt e r =
      let (w', run, _) = sched_consume-ends h w arrivals fuel lt e in
      (
        w',
        run,
        sched_consume-Along h (λ x. IsRoomy n x.agent.trig) (IsRoomy-Along n) fuel arrivals w w' run
            r,
      )
