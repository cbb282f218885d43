-- ===== src/Threads/Runs.antt =====
-- A run of the scheduler as one step, and step by step.
use mathlib.Core.Option.{some-injective}
use empower_enb_agent.Base.{
  ℕ, zero, suc, ◌≡◌, refl, subst, sym, ◌∙◌, Bool, true, false, Bool-cases, Option-cases, inl, inr,
  Option, some, List, [], ◌∷◌, arith, if◌then◌else◌,
}
use empower_enb_agent.Agent.{World, Host, clock_gettime}
use empower_enb_agent.Task.{Task, Timespec}
use empower_enb_agent.Sched.Outcome.{Outcome, net_error, consumed, not_elapsed, reschedule}
use empower_enb_agent.Sched.Consume.{
  set_jobs, settle, is_net_error, round, Ended, consume_loop, network_down, finish, sched_consume,
  arrive, requeue_all,
}
use empower_enb_agent.Threads.{
  Sched, asleep, ready, performed, Net, pop, perform, settled, failed, flush, disconnect, empty,
  requeue, job,
}
use empower_enb_agent.Threads.Together.{System, Moves, by_sched, start, later, moves_then}

module _ (h : Host) (q : Net) where
  abbrev at : World → Sched → System
  at w p = record { world = w; sched = p; net = q }

  -- Off the queue, and performed.
  job-Moves :
      (w : World) (t : Task) (rest : List Task)
      → w.agent.sched.jobs ≡ t ∷ rest
      → let w1 = set_jobs (h.list_del [] t rest) w in
        let r = job h w1 t in Moves h (at w ready) (at r.0 (performed r.1 (h.clock w.asked) r.2))
  job-Moves w t rest e = later (later start (by_sched (pop e))) (by_sched perform)

  -- Where the scheduler is after a task.
  after_task : World → Bool → System
  after_task w failed_ = if failed_ then at (network_down h w) asleep else at w ready

  settle-Moves :
      (s : System) (w : World) (t : Task) (now : Timespec) (op : Outcome)
      → Moves h s (at w (performed t now op))
      → Moves h s (after_task (settle h w t now op) (is_net_error op))
  unfolding after_task network_down
  settle-Moves s w t now net_error m =
      later (later (later m (by_sched (failed refl))) (by_sched flush)) (by_sched disconnect)
  settle-Moves s w t now consumed m = later m (by_sched (settled (λ e. cc)))
  settle-Moves s w t now not_elapsed m = later m (by_sched (settled (λ e. cc)))
  settle-Moves s w t now reschedule m = later m (by_sched (settled (λ e. cc)))

  round-Moves :
      (w : World) (t : Task) (rest : List Task)
      → w.agent.sched.jobs ≡ t ∷ rest
      → let r = round h w t rest [] in Moves h (at w ready) (after_task r.0 r.1)
  unfolding round clock_gettime arrive
  round-Moves w t rest e =
      let r = job h (set_jobs (h.list_del [] t rest) w) t in
      settle-Moves (at w ready) r.0 r.1 (h.clock w.asked) r.2 (job-Moves w t rest e)

  finish-Moves :
      (w : World) → w.agent.sched.jobs ≡ [] → Moves h (at w ready) (at (requeue_all h w) asleep)
  finish-Moves w e = later (later start (by_sched (empty e))) (by_sched requeue)

  ended_lem :
      (e1 e2 : Ended) (s : System)
      → ◌≡◌ {A = Option Ended} (some e1) (some e2)
      → Moves h s (at (finish h e1) asleep)
      → Moves h s (at (finish h e2) asleep)
  ended_lem e1 e2 s p m = subst (λ e. Moves h s (at (finish h e) asleep)) (some-injective _ _ p) m

  -- A round of `while(nt)`, by what is in the queue.
  loop_nil :
      (fuel : ℕ) (w : World)
      → w.agent.sched.jobs ≡ []
      → consume_loop h (suc fuel) [] w ≡ some (record { world = w; left = []; down = false })
  unfolding consume_loop
  loop_nil fuel w j = ground arith

  loop_cons :
      (fuel : ℕ) (w : World) (t : Task) (rest : List Task)
      → w.agent.sched.jobs ≡ t ∷ rest
      → let r = round h w t rest [] in
        consume_loop h (suc fuel) [] w ≡ (
          if r.1
          then some (record { world = network_down h r.0; left = []; down = true })
          else consume_loop h fuel [] r.0)
  unfolding consume_loop
  loop_cons fuel w t rest j = ground arith

  loop-Moves :
      (fuel : ℕ) (w : World) (jobs : List Task) (e : Ended)
      → w.agent.sched.jobs ≡ jobs
      → consume_loop h fuel [] w ≡ some e
      → Moves h (at w ready) (at (finish h e) asleep)
  unfolding consume_loop finish after_task arrive
  loop-Moves zero w jobs e j p = cc
  loop-Moves (suc fuel) w [] e j p =
      ended_lem (record { world = w; left = []; down = false }) e (at w ready)
        (sym (loop_nil fuel w j) ∙ p) (finish-Moves w j)
  loop-Moves (suc fuel) w (t ∷ rest) e j p =
      let r = round h w t rest [] in
      let m = round-Moves w t rest j in
      let p' = sym (loop_cons fuel w t rest j) ∙ p in
      elim (Bool-cases r.1) [
        | inl f ↦
            ended_lem (record { world = network_down h r.0; left = []; down = true }) e (at w ready)
              (rw f at p') (rw f at m)
        | inr ok ↦
            moves_then (rw ok at m) (loop-Moves fuel r.0 r.0.agent.sched.jobs e refl (rw ok at p'))
      ]

  -- A run of the scheduler in one go, which comes to its end with no task from the other thread in
  -- between, is a sequence of small steps from the head of `while(nt)` to the sleep.
  pub sched_consume-Moves :
      (fuel : ℕ) (w w' : World)
      → sched_consume h fuel [] w ≡ some w'
      → Moves h (at w ready) (at w' asleep)
  unfolding sched_consume
  sched_consume-Moves fuel w w' p = elim (Option-cases (consume_loop h fuel [] w)) [
    | inl e ↦ cc
    | inr (e, q) ↦
        let m = loop-Moves fuel w w.agent.sched.jobs e refl q in
        let r : ◌≡◌ {A = Option World} (some (finish h e)) (some w') = rw (sched_consume, q) at p in
        subst (λ x. Moves h (at w ready) (at x asleep)) (some-injective _ _ r) m
  ]
