-- ===== src/Sched/Service.antt =====
-- What a run of the scheduler promises, with no second queue and no reversal: the tasks are served
-- first come, first served, and those that stay keep their order. Each task has one turn; a task
-- that arrives meanwhile has its turn behind those that wait.
pub mod Refines
pub mod Total
pub mod Down
use empower_enb_agent.Base.{ℕ, suc, ◌+◌, ◌≡◌, false, Bool, List, [], ◌∷◌, ◌++◌}
use empower_enb_agent.Agent.{World, Host, clock_gettime, set_mem}
use empower_enb_agent.Task.{Task, Timespec, task_free}
use empower_enb_agent.Sched.Outcome.{Outcome, net_error, consumed, not_elapsed, reschedule}
use empower_enb_agent.Sched.Job.{sched_perform_job}
use empower_enb_agent.Sched.Consume.{batch, later, task_blocks, renewed, is_net_error}

-- The blocks of the tasks that arrive are counted.
abbrev pub counted : List Task → World → World
counted [] w = w
counted (t ∷ ts) w = counted ts (set_mem (record (w.mem) { live = w.mem.live + task_blocks t }) w)

-- What stays of a task.
abbrev pub keeps : Task → Timespec → Outcome → List Task
keeps t now not_elapsed = t ∷ []
keeps t now reschedule = renewed t now ∷ []
keeps t now consumed = []
keeps t now net_error = []

abbrev pub released : Task → Outcome → World → World
released t consumed w = set_mem (task_free t w.mem) w
released t net_error w = set_mem (task_free t w.mem) w
released t _ w = w

pub record Turn : Type 0 where
  pub after : World
  pub kept : List Task
  pub failed : Bool

unfoldable pub turn : Host → World → Task → List Task → Turn
unfolding clock_gettime
turn h w t new =
    let (w1, now) = clock_gettime h w in
    let (w2, t', op) = sched_perform_job h w1 t now in
    record {
      after = released t' op (counted new w2);
      kept = keeps t' now op;
      failed = is_net_error op;
    }

-- `Serves h w queue arrivals w' kept left`: every task of the queue and of the batches that arrive
-- before the queue is empty has its turn, without a network error; `kept` are those that stay, and
-- `left` the batches still to come.
pub data Serves (h : Host)
    : World → List Task → List (List Task) → World → List Task → List (List Task) → Type 0 where
  idle : {w : World} {arrivals : List (List Task)} → Serves h w [] arrivals w [] arrivals
  next :
      {w w' : World} {t : Task} {rest kept : List Task} {arrivals left : List (List Task)}
      → (turn h w t (batch arrivals)).failed ≡ false
      → Serves h
          (turn h w t (batch arrivals)).after
          (rest ++ batch arrivals)
          (later arrivals)
          w'
          kept
          left
      → Serves h w (t ∷ rest) arrivals w' ((turn h w t (batch arrivals)).kept ++ kept) left

-- How many turns there were.
abbrev pub turns :
    {h : Host} {w w' : World} {q kept : List Task} {a left : List (List Task)}
    → Serves h w q a w' kept left
    → ℕ
turns idle = 0
turns (next ok s) = suc (turns s)
