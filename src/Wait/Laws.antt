-- ===== src/Wait/Laws.antt =====
-- The loop divides by 1000.
use empower_enb_agent.Base.{
  ℕ, zero, suc, ◌+◌, ◌*◌, ◌/◌, ◌%◌, ◌<◌, ◌≡◌, some, Bool-cases, ltb, ltb→le, inl, inr, ◌-◌, arith,
}
use empower_enb_agent.Task.{Timespec}
use empower_enb_agent.Wait.{wait_loop, wait_time, reconnect_time}

abbrev pub nanoseconds : Timespec → ℕ
nanoseconds t = t.tv_sec * 1000000000 + t.tv_nsec

wait_loop_lem :
    (fuel wi sec : ℕ)
    → wi < fuel
    → wait_loop fuel wi sec
      ≡ some (record { tv_sec = sec + wi / 1000; tv_nsec = wi % 1000 * 1000000 })
unfolding wait_loop
wait_loop_lem zero wi sec lt = ground arith
wait_loop_lem (suc fuel) wi sec lt = elim (Bool-cases (ltb wi 1000)) [
  | inl small ↦ ground arith
  | inr large ↦
      let le = ltb→le wi 1000 large in
      let ih = wait_loop_lem fuel (wi - 1000) (sec + 1) (omega arith) in ground arith
]

-- The time that a thread sleeps is its interval: the loop ends, with the whole seconds and the
-- rest in nanoseconds, of which there are fewer than a second; before a new attempt to connect it is
-- one second more.
pub wait_time_lem :
    (interval : ℕ)
    → (wt : Timespec) × (wait_time interval ≡ some wt)
      × (nanoseconds wt ≡ interval * 1000000)
      × (wt.tv_nsec < 1000000000)
      × (nanoseconds (reconnect_time wt) ≡ interval * 1000000 + 1000000000)
unfolding wait_time reconnect_time
wait_time_lem interval = (
  _,
  wait_loop_lem (suc interval) interval 0 (omega arith),
  omega arith,
  omega arith,
  omega arith,
)
