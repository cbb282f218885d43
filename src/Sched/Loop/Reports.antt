-- ===== src/Sched/Loop/Reports.antt =====
-- A periodic report over the rounds of the scheduler's thread.
use empower_enb_agent.Base.{
  ℕ, zero, suc, ◌+◌, ◌<◌, ◌^◌, ◌≡◌, refl, ap, subst, sym, ◌∙◌, true, false, some, List, [], ◌∷◌,
  ◌++◌, append-nil, arith,
}
use empower_enb_agent.Agent.{Agent, Event, World, Host, SchedCtx, clock_gettime, set_sched}
use empower_enb_agent.Task.{Task, TaskType, Timespec}
use empower_enb_agent.Sched.Time.{is_early}
use empower_enb_agent.Sched.Outcome.{has_op}
use empower_enb_agent.Sched.Perform.{sched_perform_ue_report}
use empower_enb_agent.Sched.Job.{sched_perform_job, perform}
use empower_enb_agent.Sched.Consume.{renewed}
use empower_enb_agent.Sched.Service.{Turn, turn, idle, next}
use empower_enb_agent.Sched.Service.Refines.{sched_consume-Serves}
use empower_enb_agent.Sched.Loop.{Round, run_once, sched_loop}

-- A report with this credit, queued at this time.
abbrev pub report : Task → ℕ → Timespec → Task
report t credit issued = record t { kind = TaskType.ue_report; resch = credit; issued = issued }

abbrev pub call : Task → Event
call t = Event.ue_report t.module_id t.trig

-- A scheduler that runs, with these tasks.
abbrev pub with_jobs : List Task → World → World
with_jobs q w = set_sched (record (w.agent.sched) { stop = false; jobs = q; todo = [] }) w

-- Rounds in which nothing else comes.
abbrev pub quiet_rounds : ℕ → List Round
quiet_rounds zero = []
quiet_rounds (suc n) = record { arrivals = []; stopping = false } ∷ quiet_rounds n

-- The same call, so many times.
abbrev pub repeated : ℕ → Event → List Event → List Event
repeated zero e out = out
repeated (suc n) e out = repeated n e (e ∷ out)

abbrev pub left_over : Task → ℕ → Timespec → List Task
left_over t zero now = []
left_over t (suc n) now = report t n now ∷ []

record Reported (t : Task) (credit : ℕ) (now : Timespec) (w : World) (tn : Turn) : Type 0 where
  ok : tn.failed ≡ false
  kept : tn.kept ≡ left_over t credit now
  same_agent : tn.after.agent ≡ w.agent
  asked : tn.after.asked ≡ suc w.asked
  out : tn.after.out ≡ call t ∷ w.out

settled :
    (s : SchedCtx) (kept q : List Task) (w : World)
    → kept ≡ q
    → w.agent.sched.interval ≡ s.interval
    → s.stop ≡ false
    → set_sched (record s { jobs = kept ++ [] ++ []; todo = [] }) w ≡ with_jobs q w
settled s kept q w k i r = ground (arith, append-nil kept)

module _ (h : Host) (t : Task) where
  turn-Reported :
      (credit : ℕ) (issued : Timespec) (w : World)
      → credit < 2 ^ 31
      → has_op (λ o. o.ue_report) w.agent ≡ true
      → is_early (report t credit issued) (h.clock w.asked) ≡ false
      → Reported t credit (h.clock w.asked) w (turn h w (report t credit issued) [])
  unfolding turn sched_perform_job perform sched_perform_ue_report clock_gettime renewed
  turn-Reported zero issued w lt set due = ground arith
  turn-Reported (suc n) issued w lt set due = ground arith

  -- One round.
  run-Reported :
      (credit : ℕ) (issued : Timespec) (w : World)
      → credit < 2 ^ 31
      → has_op (λ o. o.ue_report) w.agent ≡ true
      → is_early (report t credit issued) (h.clock w.asked) ≡ false
      → let w0 = with_jobs (report t credit issued ∷ []) w in
        let tn = turn h w0 (report t credit issued) [] in
        (run_once h [] w0 ≡ some (with_jobs (left_over t credit (h.clock w.asked)) tn.after))
        × Reported t credit (h.clock w.asked) w0 tn
  unfolding run_once has_op
  run-Reported credit issued w lt set due =
      let w0 = with_jobs (report t credit issued ∷ []) w in
      let r = turn-Reported credit issued w0 lt set due in
      let tn = turn h w0 (report t credit issued) [] in
      let ran = sched_consume-Serves h {w = w0} (next r.ok idle) (suc (1 + 0)) refl (omega arith) in
      (
        ran
            ∙ ap some (
                settled w0.agent.sched tn.kept (left_over t credit (h.clock w.asked)) tn.after
                  r.kept (ap (λ (a : Agent). a.sched.interval) r.same_agent) refl),
        r,
      )

  -- A report that is put in an empty queue with credit `n` is made in each of the `n` + 1 rounds that
  -- follow, and then the queue is empty, in a scheduler that runs, with the callback set, where
  -- nothing else comes and a round comes no sooner than the report is due.
  pub sched_loop-reports :
      (n : ℕ) (issued : Timespec) (w : World)
      → n < 2 ^ 31
      → has_op (λ o. o.ue_report) w.agent ≡ true
      → is_early (report t n issued) (h.clock w.asked) ≡ false
      → ((i : ℕ) → is_early (report t 0 (h.clock i)) (h.clock (suc i)) ≡ false)
      → (w' : World) × (sched_loop h (quiet_rounds (suc n)) (with_jobs (report t n issued ∷ []) w)
          ≡ some w')
        × (w'.agent.sched.jobs ≡ [])
        × (w'.out ≡ repeated (suc n) (call t) w.out)
  unfolding sched_loop has_op is_early
  sched_loop-reports zero issued w lt set due pace =
      let (ran, r) = run-Reported 0 issued w lt set due in
      let w0 = with_jobs (report t 0 issued ∷ []) w in
      let w1 = (turn h w0 (report t 0 issued) []).after in
      (with_jobs [] w1, rw ran refl, refl, r.out)
  sched_loop-reports (suc n) issued w lt set due pace =
      let (ran, r) = run-Reported (suc n) issued w lt set due in
      let w0 = with_jobs (report t (suc n) issued ∷ []) w in
      let w1 = (turn h w0 (report t (suc n) issued) []).after in
      let (w', more, gone, calls) =
        sched_loop-reports n (h.clock w.asked) w1 (omega arith)
          (subst (λ a. has_op (λ o. o.ue_report) a ≡ true) (sym r.same_agent) set)
          (subst (λ i. is_early (report t n (h.clock w.asked)) (h.clock i) ≡ false) (sym r.asked)
            (pace w.asked))
          pace in
      (w', rw ran more, gone, calls ∙ ap (repeated (suc n) (call t)) r.out)
