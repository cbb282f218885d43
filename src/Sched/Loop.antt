-- ===== src/Sched/Loop.antt =====
-- agent/sched.c, lines 862 to 1012: the scheduler's thread, its start and its stop.
pub mod Ends
pub mod Reports
use empower_enb_agent.Base.{
  ℕ, suc, ◌+◌, Bool, true, Option, none, some, List, [], ◌∷◌, length, minus_one, if◌then◌else◌,
}
use empower_enb_agent.Agent.{World, Host, SchedCtx, set_sched}
use empower_enb_agent.Task.{Task}
use empower_enb_agent.Sched.Consume.{sched_consume, dump_queues}
use empower_enb_agent.Sched.Service.Total.{tasks_of}

-- One round of the loop: the tasks that other threads add during it, and whether `stop` is set by
-- another thread until its end.
pub record Round : Type 0 where
  pub arrivals : List (List Task)
  pub stopping : Bool

abbrev pub stop_sched : World → World
stop_sched w = set_sched (record (w.agent.sched) { stop = true }) w

abbrev pub stopped_if : Bool → World → World
stopped_if b w = if b then stop_sched w else w

-- `sched_consume`, with as much fuel as it needs.
unfoldable pub run_once : Host → List (List Task) → World → Option World
run_once h arrivals w =
    sched_consume h (suc (length w.agent.sched.jobs + tasks_of arrivals)) arrivals w

-- The dump of both queues after the loop is the same as that of a network error. With no further
-- rounds given, the thread sleeps.
unfoldable pub sched_loop : Host → List Round → World → Option World
sched_loop h [] w = some (if w.agent.sched.stop then dump_queues h w else w)
sched_loop h (r ∷ rest) w =
    let next : Option World = elim (run_once h r.arrivals w) [
      | none ↦ none
      | some w' ↦ sched_loop h rest (stopped_if r.stopping w')
    ] in
    if w.agent.sched.stop then some (dump_queues h w) else next

-- The second argument is whether `pthread_create` succeeds.
unfoldable pub sched_start : World → Bool → World × ℕ
sched_start w created =
    let s = record (w.agent.sched) { interval = 100; jobs = []; todo = [] } in
    (set_sched s w, if created then 0 else minus_one)

-- `stop` is set, and the thread, which sleeps, ends.
unfoldable pub sched_stop : Host → World → World
unfolding dump_queues
sched_stop h w = dump_queues h (stop_sched w)
