-- ===== src/Sched/Along.antt =====
-- A property that each step of a run keeps, and that does not look at the queues, holds after it.
use mathlib.Core.Option.{some-injective}
use empower_enb_agent.Base.{
  zero, suc, ℕ, ◌≡◌, subst, true, Bool-cases, inl, inr, Option, some, List, [], ◌∷◌, ◌++◌,
}
use empower_enb_agent.Agent.{World, Host, SchedCtx, set_sched}
use empower_enb_agent.Memory.{Mem}
use empower_enb_agent.Task.{Task}
use empower_enb_agent.Sched.Consume.{
  batch, later, Ended, consume_loop, arrive, requeue_all, network_down, finish, sched_consume,
}
use empower_enb_agent.Sched.Finished.{finish_lem}
use empower_enb_agent.Sched.Service.{turn, counted}
use empower_enb_agent.Sched.Service.Refines.{round_lem, arrive_lem}

-- The property does not look at the scheduler's own state or at the heap.
pub record Along (h : Host) (P : World → Type 0) : Type 0 where
  pub any_sched : (s : SchedCtx) (w : World) → P w → P (set_sched s w)
  pub any_mem : (m : Mem) (w : World) → P w → P (record w { mem = m })
  pub each_turn : (t : Task) (new : List Task) (w : World) → P w → P (turn h w t new).after
  pub after_down : (w : World) → P w → P (network_down h w)

module _ (h : Host) (P : World → Type 0) (a : Along h P) where
  open a use {any_sched, any_mem, each_turn, after_down}

  counted-Along : (new : List Task) (w : World) → P w → P (counted new w)
  counted-Along [] w p = p
  counted-Along (t ∷ new) w p = counted-Along new _ (any_mem _ w p)

  arrive-Along : (new : List Task) (w : World) → P w → P (arrive h new w)
  arrive-Along new w p =
      rw (arrive_lem h new w.agent.sched w) (any_sched _ _ (counted-Along new w p))

  of_down :
      (e : Ended) {w : World} {left : List (List Task)}
      → P w
      → ◌≡◌ {A = Option Ended} (some (record { world = w; left = left; down = true })) (some e)
      → P e.world
  of_down e p q = subst (λ x. P x.world) (some-injective _ _ q) p

  loop-Along :
      (fuel : ℕ) (arrivals : List (List Task)) (q : List Task) (s : SchedCtx) (w : World)
      (e : Ended)
      → consume_loop h fuel arrivals (set_sched (record s { jobs = q }) w) ≡ some e
      → P w
      → P e.world
  unfolding consume_loop
  loop-Along zero arrivals q s w e p b = cc
  loop-Along (suc fuel) arrivals [] s w e p b =
      subst (λ x. P x.world) (some-injective _ _ p) (any_sched _ w b)
  loop-Along (suc fuel) arrivals (t ∷ rest) s w e p b =
      let new = batch arrivals in
      let tn = turn h w t new in
      let b' = each_turn t new w b in
      let s' : SchedCtx = record s { todo = tn.kept ++ s.todo } in
      let p' = rw (round_lem h t rest new (record s { jobs = t ∷ rest }) w) at p in
      elim (Bool-cases tn.failed) [
        | inl f ↦ of_down e (after_down _ (any_sched _ _ b')) (rw f at p')
        | inr ok ↦ loop-Along fuel (later arrivals) (rest ++ new) s' tn.after e (rw ok at p') b'
      ]

  finish-Along : (e : Ended) → P e.world → P (finish h e)
  unfolding finish requeue_all
  finish-Along e b = elim (Bool-cases e.down) [
    | inl d ↦ rw d b
    | inr d ↦ rw d (any_sched _ _ (arrive-Along (batch e.left) e.world b))
  ]

  pub sched_consume-Along :
      (fuel : ℕ) (arrivals : List (List Task)) (w w' : World)
      → sched_consume h fuel arrivals w ≡ some w'
      → P w
      → P w'
  sched_consume-Along fuel arrivals w w' run p =
      finish_lem h P fuel arrivals w w' run
        (λ e q. finish-Along e (loop-Along fuel arrivals w.agent.sched.jobs w.agent.sched w e q p))
