-- ===== src/Sched/Finished.antt =====
-- What the end of a run is, from the end of its loop.
use mathlib.Core.Option.{some-injective}
use empower_enb_agent.Base.{ℕ, ◌≡◌, refl, subst, Option, none, some, List, arith}
use empower_enb_agent.Agent.{World, Host}
use empower_enb_agent.Task.{Task}
use empower_enb_agent.Sched.Consume.{Ended, consume_loop, finish, sched_consume}

module _ (h : Host) where
  finished : Option Ended → Option World
  finished none = none
  finished (some e) = some (finish h e)

  finished_some :
      (P : World → Type 0) (o : Option Ended) (w' : World)
      → ((e : Ended) → o ≡ some e → P (finish h e))
      → finished o ≡ some w'
      → P w'
  unfolding finished
  finished_some P none w' all p = cc
  finished_some P (some e) w' all p = subst P (some-injective _ _ p) (all e refl)

  sched_consume-finished :
      (fuel : ℕ) (arrivals : List (List Task)) (w : World)
      → sched_consume h fuel arrivals w ≡ finished (consume_loop h fuel arrivals w)
  unfolding sched_consume finished
  sched_consume-finished fuel arrivals w = ground arith

  -- What holds of the end of every loop that ends holds of the end of the run.
  pub finish_lem :
      (P : World → Type 0) (fuel : ℕ) (arrivals : List (List Task)) (w w' : World)
      → sched_consume h fuel arrivals w ≡ some w'
      → ((e : Ended) → consume_loop h fuel arrivals w ≡ some e → P (finish h e))
      → P w'
  finish_lem P fuel arrivals w w' run all =
      finished_some P _ w' all (rw sched_consume-finished at run)
