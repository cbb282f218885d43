-- ===== src/Sched/Loop/Ends.antt =====
-- The scheduler's thread over all its rounds.
use mathlib.Core.Option.{some-injective}
use empower_enb_agent.Base.{
  ℕ, ◌+◌, ◌≡◌, refl, ap, sym, ◌∙◌, subst, Bool, true, false, Option, some, List, [], ◌∷◌, arith,
  if◌then◌else◌,
}
use empower_enb_agent.Agent.{World, Host}
use empower_enb_agent.Task.{Task}
use empower_enb_agent.Trigger.Laws.{all_blocks}
use empower_enb_agent.Sched.Consume.{dump_queues, drain_tasks}
use empower_enb_agent.Sched.Service.Down.{drain_tasks_lem, sched_consume-ends, queue_blocks}
use empower_enb_agent.Sched.Blocks.{Balanced, sched_consume-Balanced}
use empower_enb_agent.Sched.Loop.{Round, run_once, sched_loop, sched_stop, stop_sched, stopped_if}

-- A scheduler between two rounds.
pub record Resting (k : ℕ) (w : World) : Type 0 where
  pub balanced : Balanced k w
  pub no_todo : w.agent.sched.todo ≡ []

-- Both queues are empty, and no block is lost.
pub record Emptied (k : ℕ) (w w' : World) : Type 0 where
  pub no_jobs : w'.agent.sched.jobs ≡ []
  pub no_todo : w'.agent.sched.todo ≡ []
  pub same_trig : w'.agent.trig ≡ w.agent.trig
  pub live : w'.mem.live ≡ k + all_blocks w.agent.trig.ts

module _ (h : Host) (k : ℕ) where
  pub dump_queues-Emptied : (w : World) → Balanced k w → Emptied k w (dump_queues h w)
  unfolding dump_queues
  dump_queues-Emptied w b =
      let t = drain_tasks_lem h w.agent.sched.todo w.mem in
      let j =
        drain_tasks_lem h w.agent.sched.jobs
          (drain_tasks h w.agent.sched.todo w.agent.sched.todo w.mem).1 in
      record { no_jobs = j.0; no_todo = t.0; same_trig = refl; live = omega arith }

  Emptied-Resting : (w w' : World) → Emptied k w w' → Resting k w'
  Emptied-Resting w w' e = record {
    balanced = omega (
      arith,
      e.live,
      ap queue_blocks e.no_jobs,
      ap queue_blocks e.no_todo,
      ap (λ c. all_blocks c.ts) e.same_trig,
    );
    no_todo = e.no_todo;
  }

  run_once-Resting :
      (arrivals : List (List Task)) (w : World)
      → Resting k w
      → (w' : World) × (run_once h arrivals w ≡ some w') × Resting k w'
  unfolding run_once
  run_once-Resting arrivals w r =
      let (w1, p1, none_left) = sched_consume-ends h w arrivals _ (omega arith) r.no_todo in
      let (w2, p2, b) =
        sched_consume-Balanced h k w arrivals _ (omega arith) r.no_todo r.balanced in
      let same : w1 ≡ w2 = some-injective _ _ (sym p1 ∙ p2) in
      (w1, p1, record { balanced = subst (Balanced k) (sym same) b; no_todo = none_left })

  stopped_if-Resting : (b : Bool) (w : World) → Resting k w → Resting k (stopped_if b w)
  stopped_if-Resting true w r = record { balanced = r.balanced; no_todo = r.no_todo }
  stopped_if-Resting false w r = r

  -- The thread sleeps or has ended.
  Rested : World → Type 0
  Rested w = Resting k w × (w.agent.sched.stop ≡ true → w.agent.sched.jobs ≡ [])

  Rests : Option World → Type 0
  Rests o = (w : World) × (o ≡ some w) × Rested w

  dumped : (w : World) → Resting k w → Rested (dump_queues h w)
  unfolding Rested
  dumped w r = let e = dump_queues-Emptied w r.balanced in (Emptied-Resting w _ e, λ s. e.no_jobs)

  asleep :
      (b : Bool) (w : World)
      → w.agent.sched.stop ≡ b
      → Resting k w
      → Rested (if b then dump_queues h w else w)
  unfolding Rested
  asleep true w e r = dumped w r
  asleep false w e r = (r, λ s. cc)

  if_Rests :
      (b : Bool) (w : World) (o : Option World)
      → Rested w
      → Rests o
      → Rests (if b then some w else o)
  unfolding Rests
  if_Rests true w o r f = (w, refl, r)
  if_Rests false w o r f = f

  loop-Rests : (rounds : List Round) (w : World) → Resting k w → Rests (sched_loop h rounds w)
  unfolding sched_loop Rests
  loop-Rests [] w r = (_, refl, asleep w.agent.sched.stop w refl r)
  loop-Rests (x ∷ rest) w r =
      let (w', p, r') = run_once-Resting x.arrivals w r in
      if_Rests w.agent.sched.stop (dump_queues h w) _ (dumped w r)
        (rw p (loop-Rests rest (stopped_if x.stopping w') (stopped_if-Resting x.stopping w' r')))

  -- The scheduler's thread leaks no memory over any number of rounds, each of which ends: every
  -- block beside `k` others belongs to a queued task or a trigger before and after, nothing is left
  -- in the second queue, and once the thread has been stopped nothing is left in the first either.
  pub sched_loop-Resting :
      (rounds : List Round) (w : World)
      → Balanced k w
      → w.agent.sched.todo ≡ []
      → (w' : World) × (sched_loop h rounds w ≡ some w')
        × Balanced k w'
        × (w'.agent.sched.todo ≡ [])
        × (w'.agent.sched.stop ≡ true → w'.agent.sched.jobs ≡ [])
  unfolding Rests Rested
  sched_loop-Resting rounds w b none_left =
      let (w', p, r) = loop-Rests rounds w (record { balanced = b; no_todo = none_left }) in
      (w', p, r.0.balanced, r.0.no_todo, r.1)

  -- A stop frees every queued task.
  pub sched_stop-Emptied : (w : World) → Balanced k w → Emptied k w (sched_stop h w)
  unfolding sched_stop
  sched_stop-Emptied w b =
      let e = dump_queues-Emptied (stop_sched w) b in
      record { no_jobs = e.no_jobs; no_todo = e.no_todo; same_trig = e.same_trig; live = e.live }
