-- ===== src/Sched/Users.antt =====
-- The users of a slice, as the wrapper sees them.
use empower_enb_agent.Base.{ℕ, zero, suc, ◌+◌, ◌≡◌, refl, ◌&&◌, not, arith, ltb, if◌then◌else◌}
use empower_enb_agent.Agent.{RanConf}
use empower_enb_agent.Proto.{SliceDet}
use empower_enb_agent.Sched.Perform.{update, copy_users, sched_to_ran_conf}

copy_users_lem :
    (limit : ℕ) (from : ℕ → ℕ) (n i : ℕ) (users : ℕ → ℕ) (j : ℕ)
    → copy_users limit from n i users j
      ≡ (if not (ltb j i) && (ltb j (i + n) && ltb j limit) then from j else users j)
unfolding copy_users
copy_users_lem limit from zero i users j = ground arith
copy_users_lem limit from (suc n) i users j =
    ground (arith, copy_users_lem limit from n (suc i) (update users i (from i)) j)

-- The configuration has the users that the message lists, up to the size of the array, and behind
-- them what it had; the number of users is copied with no such limit.
pub sched_to_ran_conf_users :
    (limit : ℕ) (det : SliceDet) (conf : RanConf) (j : ℕ)
    → let c = sched_to_ran_conf limit det conf in
      (c.users j ≡ (if ltb j det.nof_users && ltb j limit then det.users j else conf.users j))
      × (c.nof_users ≡ det.nof_users)
      × (c.user_sched ≡ det.usched)
      × (c.rbg ≡ det.rbgs)
unfolding sched_to_ran_conf
sched_to_ran_conf_users limit det conf j =
    (ground (arith, copy_users_lem limit det.users det.nof_users 0 conf.users j), refl, refl, refl)
