-- ===== src/Sched/Time/Bounds.antt =====
-- How exact the test for a task's time is: it truncates to milliseconds.
use empower_enb_agent.Base.{
  ℕ, ◌+◌, ◌*◌, ◌^◌, ◌<◌, ◌≤◌, ◌≡◌, ◌⊎◌, inl, inr, Bool-cases, true, false, ltb, ltb→lt, ltb→le,
  arith,
}
use empower_enb_agent.Base.Int.{pos, pos_part, neg_part, signed32}
use empower_enb_agent.Task.{Task, Timespec}
use empower_enb_agent.Sched.Time.{ts_diff_to_ms, is_early}

-- Nanoseconds since the epoch.
abbrev pub nanos : Timespec → ℕ
nanos t = t.tv_sec * 1000000000 + t.tv_nsec

abbrev pub IsNormal : Timespec → Type 0
IsNormal t = t.tv_nsec < 1000000000

-- The difference is within a millisecond of the time that has passed.
pub ts_diff_to_ms_bounds :
    (a b : Timespec)
    → IsNormal a
    → IsNormal b
    → let d = ts_diff_to_ms a b in
      (nanos a + pos_part d * 1000000 < nanos b + neg_part d * 1000000 + 1000000)
      × (nanos b + neg_part d * 1000000 < nanos a + pos_part d * 1000000 + 1000000)
unfolding ts_diff_to_ms
ts_diff_to_ms_bounds a b ha hb = ground arith

signed32_small : (x : ℕ) → x < 2 ^ 31 → signed32 x ≡ pos x
signed32_small x h = ground arith

module _ (t : Task) (now : Timespec) (hi : IsNormal t.issued) (hn : IsNormal now)
    (he : t.elapse < 2 ^ 31) where
  due : nanos t.issued + t.elapse * 1000000 ≤ nanos now → is_early t now ≡ false
  unfolding is_early
  due h = rw (signed32_small t.elapse he) (ground (arith, ts_diff_to_ms_bounds t.issued now hi hn))

  waited : is_early t now ≡ false → nanos t.issued + t.elapse * 1000000 < nanos now + 1000000
  unfolding is_early
  waited h = ground (arith, ts_diff_to_ms_bounds t.issued now hi hn, signed32_small t.elapse he)

  short : is_early t now ≡ true → nanos now < nanos t.issued + t.elapse * 1000000
  short e = elim (Bool-cases (ltb (nanos now) (nanos t.issued + t.elapse * 1000000))) [
    | inl l ↦ ltb→lt _ _ l
    | inr g ↦ let no = due (ltb→le _ _ g) in cc
  ]

  -- A task is put off only while its interval has not passed in full, and a task that is not put
  -- off has waited for more than its interval less one millisecond. Both readings of the clock have
  -- less than 10^9 nanoseconds, and the interval is no negative `int`.
  pub is_early_bounds :
      ((is_early t now ≡ true) × (nanos now < nanos t.issued + t.elapse * 1000000))
      ⊎ ((is_early t now ≡ false) × (nanos t.issued + t.elapse * 1000000 < nanos now + 1000000))
  is_early_bounds = elim (Bool-cases (is_early t now)) [
    | inl e ↦ inl (e, short e)
    | inr e ↦ inr (e, waited e)
  ]
