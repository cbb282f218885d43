-- ===== src/Sched/Blocks.antt =====
-- The heap under the scheduler: the blocks of the queued tasks and of the triggers.
use mathlib.Core.List.{reverse, reverse-cons}
use empower_enb_agent.Base.{
  Bool-cases, ℕ, zero, suc, ◌+◌, ◌<◌, ◌≡◌, refl, ap, true, Option, some, List, [], ◌∷◌, ◌++◌, arith,
  length, inl, inr,
}
use empower_enb_agent.Agent.{Agent, World, Host, SchedCtx, clock_gettime, set_sched}
use empower_enb_agent.Memory.{Mem}
use empower_enb_agent.Task.{Task, Timespec}
use empower_enb_agent.Trigger.Laws.{all_blocks}
use empower_enb_agent.Sched.Outcome.{Outcome, net_error, consumed, not_elapsed, reschedule}
use empower_enb_agent.Sched.Consume.{
  batch, later, task_blocks, renewed, Ended, consume_loop, arrive, requeue_all, network_down,
  finish, sched_consume,
}
use empower_enb_agent.Sched.Kept.{Keeps, sched_perform_job-Keeps}
use empower_enb_agent.Sched.Finished.{finish_lem}
use empower_enb_agent.Sched.Service.{counted, keeps, released, turn}
use empower_enb_agent.Sched.Service.Refines.{round_lem, arrive_lem, requeue_lem}
use empower_enb_agent.Sched.Service.Total.{tasks_of}
use empower_enb_agent.Sched.Service.Down.{
  network_down-live, sched_consume-ends, network_down-Cleared, queue_blocks, task_free-live,
}

pub queue_blocks-append :
    (xs ys : List Task) → queue_blocks (xs ++ ys) ≡ queue_blocks xs + queue_blocks ys
queue_blocks-append [] ys = omega arith
queue_blocks-append (x ∷ xs) ys = omega (arith, queue_blocks-append xs ys)

counted-live :
    (new : List Task) (w : World)
    → ((counted new w).mem.live ≡ w.mem.live + queue_blocks new) × ((counted new w).agent ≡ w.agent)
counted-live [] w = (omega arith, refl)
counted-live (t ∷ new) w = ground (
  arith,
  counted-live new (record w { mem = record (w.mem) { live = w.mem.live + task_blocks t } }),
)

settled-live :
    (t : Task) (now : Timespec) (op : Outcome) (k : ℕ) (w : World)
    → w.mem.live ≡ k + task_blocks t
    → ((released t op w).mem.live ≡ k + queue_blocks (keeps t now op))
      × ((released t op w).agent ≡ w.agent)
unfolding renewed
settled-live t now not_elapsed k w e = ground arith
settled-live t now reschedule k w e = ground arith
settled-live t now consumed k w e = ground (arith, task_free-live t w.mem)
settled-live t now net_error k w e = ground (arith, task_free-live t w.mem)

-- `k` blocks beside those of the queue and of the triggers.
abbrev pub Holds : ℕ → World → List Task → Type 0
Holds k w q = w.mem.live ≡ k + queue_blocks q + all_blocks w.agent.trig.ts

after-Holds :
    (w w2 : World) (t t' : Task) (op : Outcome) (now : Timespec) (new rest : List Task) (k : ℕ)
    → Keeps w t (w2, t', op)
    → Holds k w (t ∷ rest)
    → Holds (k + queue_blocks (keeps t' now op)) (released t' op (counted new w2)) (rest ++ new)
after-Holds w w2 t t' op now new rest k kp e =
    let c = counted-live new w2 in
    let o = k + queue_blocks rest + queue_blocks new + all_blocks w.agent.trig.ts in
    let s =
      settled-live t' now op o (counted new w2)
        (omega (arith, c.0, ap (λ (m : Mem). m.live) kp.same_mem, kp.same_blocks)) in
    ground (arith, queue_blocks-append rest new)

-- Every block but `k` of them belongs to a queued task or to a trigger.
abbrev pub Balanced : ℕ → World → Type 0
Balanced k w = Holds (k + queue_blocks w.agent.sched.todo) w w.agent.sched.jobs

module _ (h : Host) where
  turn-Holds :
      (w : World) (t : Task) (new rest : List Task) (k : ℕ)
      → Holds k w (t ∷ rest)
      → Holds (k + queue_blocks (turn h w t new).kept) (turn h w t new).after (rest ++ new)
  unfolding turn clock_gettime
  turn-Holds w t new rest k e =
      after-Holds (record w { asked = suc w.asked }) _ t _ _ _ new rest k
        (sched_perform_job-Keeps h _ t (h.clock w.asked)) e

  reverse-blocks : (ts : List Task) → queue_blocks (reverse ts) ≡ queue_blocks ts
  reverse-blocks [] = refl
  reverse-blocks (t ∷ ts) =
      rw reverse-cons (omega (arith, queue_blocks-append (reverse ts) (t ∷ []), reverse-blocks ts))

  network_down-Balanced : (k : ℕ) (w : World) → Balanced k w → Balanced k (network_down h w)
  network_down-Balanced k w b =
      let c = network_down-Cleared h w in
      omega (
        arith,
        network_down-live h w,
        ap queue_blocks c.no_jobs,
        ap queue_blocks c.no_todo,
        ap all_blocks c.no_triggers,
      )

  of_down :
      (k : ℕ) (e : Ended) {w : World} {left : List (List Task)}
      → Balanced k w
      → ◌≡◌ {A = Option Ended} (some (record { world = w; left = left; down = true })) (some e)
      → Balanced k e.world
  of_down k e b p = ground arith

  loop-Balanced :
      (k fuel : ℕ) (arrivals : List (List Task)) (q : List Task) (s : SchedCtx) (w : World)
      (e : Ended)
      → consume_loop h fuel arrivals (set_sched (record s { jobs = q }) w) ≡ some e
      → Holds (k + queue_blocks s.todo) w q
      → Balanced k e.world
  unfolding consume_loop
  loop-Balanced k zero arrivals q s w e p b = cc
  loop-Balanced k (suc fuel) arrivals [] s w e p b = ground arith
  loop-Balanced k (suc fuel) arrivals (t ∷ rest) s w e p b =
      let new = batch arrivals in
      let tn = turn h w t new in
      let b' = turn-Holds w t new rest (k + queue_blocks s.todo) b in
      let s' : SchedCtx = record s { todo = tn.kept ++ s.todo } in
      let sum = queue_blocks-append tn.kept s.todo in
      let p' = rw (round_lem h t rest new (record s { jobs = t ∷ rest }) w) at p in
      elim (Bool-cases tn.failed) [
        | inl f ↦
            of_down k e
              (network_down-Balanced k (set_sched (record s' { jobs = rest ++ new }) tn.after)
                (omega (arith, b', sum)))
              (rw f at p')
        | inr ok ↦
            loop-Balanced k fuel (later arrivals) (rest ++ new) s' tn.after e (rw ok at p')
              (omega (arith, b', sum))
      ]

  arrive-Balanced :
      (k : ℕ) (new : List Task) (w : World) → Balanced k w → Balanced k (arrive h new w)
  arrive-Balanced k new w b = rw (arrive_lem h new w.agent.sched w) (
      omega (
        arith,
        counted-live new w,
        queue_blocks-append w.agent.sched.jobs new,
        ap (λ (a : Agent). all_blocks a.trig.ts) (counted-live new w).1,
      ))

  pub requeue_all-Balanced : (k : ℕ) (w : World) → Balanced k w → Balanced k (requeue_all h w)
  unfolding requeue_all
  requeue_all-Balanced k w b = rw requeue_lem (
      omega (
        arith,
        queue_blocks-append (reverse w.agent.sched.todo) w.agent.sched.jobs,
        reverse-blocks w.agent.sched.todo,
      ))

  finish-Balanced : (k : ℕ) (e : Ended) → Balanced k e.world → Balanced k (finish h e)
  unfolding finish
  finish-Balanced k e b = elim (Bool-cases e.down) [
    | inl d ↦ rw d b
    | inr d ↦ rw d (requeue_all-Balanced k _ (arrive-Balanced k (batch e.left) e.world b))
  ]

  -- No leak: if every block beside `k` others belongs to a queued task or a trigger, so it is after
  -- a run, which ends; a network error included, where all these blocks are freed.
  pub sched_consume-Balanced :
      (k : ℕ) (w : World) (arrivals : List (List Task)) (fuel : ℕ)
      → length w.agent.sched.jobs + tasks_of arrivals < fuel
      → w.agent.sched.todo ≡ []
      → Balanced k w
      → (w' : World) × (sched_consume h fuel arrivals w ≡ some w') × Balanced k w'
  sched_consume-Balanced k w arrivals fuel lt e b =
      let (w', run, none_left) = sched_consume-ends h w arrivals fuel lt e in
      (
        w',
        run,
        finish_lem h (Balanced k) fuel arrivals w w' run (λ x p.
            finish-Balanced k x
              (loop-Balanced k fuel arrivals w.agent.sched.jobs w.agent.sched w x p b)),
      )
