-- ===== src/Sched/Credit.antt =====
-- What becomes of a task after its turn: put off, performed for the last time, or renewed.
use empower_enb_agent.Base.{
  ℕ, suc, ◌-◌, ◌≡◌, ◌≢◌, ◌⊎◌, refl, Bool, Bool-cases, inl, inr, true, false, List, [], ◌∷◌, ◌==◌,
  ap, sym, subst, ◌++◌, arith, is_positive, if◌then◌else◌,
}
use empower_enb_agent.Agent.{World, Host, clock_gettime}
use empower_enb_agent.Task.{Task, TaskType, Timespec}
use empower_enb_agent.Sched.Time.{is_early}
use empower_enb_agent.Sched.Outcome.{Outcome, net_error, consumed}
use empower_enb_agent.Sched.Perform.{
  sched_perform_send, sched_perform_hello, sched_perform_enb_setup, sched_perform_ue_report,
  sched_perform_ue_measure, sched_perform_cell_meas, sched_perform_ho, sched_perform_ran_setup,
  sched_perform_ran_slice,
}
use empower_enb_agent.Sched.Job.{sched_perform_job, perform}
use empower_enb_agent.Sched.Consume.{renewed, round}
use empower_enb_agent.Sched.Service.Refines.{round_lem}
use empower_enb_agent.Sched.Service.{turn}

-- The outcome of a task is one of two, and but for its message the task is as it was.
record Done (t : Task) (t' : Task) (op : Outcome) : Type 0 where
  ends : (op ≡ consumed) ⊎ (op ≡ net_error)
  same : t' ≡ record t { msg = t'.msg }

module _ (h : Host) (w : World) (t : Task) where
  send-Done : let r = sched_perform_send h w t in Done t r.1 r.2
  unfolding sched_perform_send
  send-Done = ground arith

  hello-ends : let r = sched_perform_hello h w t in (r.1 ≡ consumed) ⊎ (r.1 ≡ net_error)
  unfolding sched_perform_hello
  hello-ends = ground arith

  others-consumed :
      ((sched_perform_enb_setup h w t).1 ≡ consumed)
      × ((sched_perform_ue_report w t).1 ≡ consumed)
      × ((sched_perform_ue_measure h w t).1 ≡ consumed)
      × ((sched_perform_cell_meas h w t).1 ≡ consumed)
      × ((sched_perform_ho h w t).1 ≡ consumed)
      × ((sched_perform_ran_setup h w t).1 ≡ consumed)
      × ((sched_perform_ran_slice h w t).1 ≡ consumed)
  unfolding sched_perform_enb_setup sched_perform_ue_report sched_perform_ue_measure
      sched_perform_cell_meas sched_perform_ho sched_perform_ran_setup sched_perform_ran_slice
  others-consumed = (
    ground arith,
    ground arith,
    ground arith,
    ground arith,
    ground arith,
    ground arith,
    ground arith,
  )

  perform-Done : (k : TaskType) → let r = perform h w t k in Done t r.1 r.2
  unfolding perform
  perform-Done TaskType.send = send-Done
  perform-Done TaskType.hello = ground (arith, hello-ends)
  perform-Done _ = ground (arith, others-consumed)

-- Credits after a run: a positive number falls by one, a negative one stays.
abbrev pub next_credit : ℕ → ℕ
next_credit n = if is_positive n then n - 1 else n

-- The task that stays after a run at `now`.
pub record Again (t : Task) (now : Timespec) (kept : List Task) : Type 0 where
  pub task : Task
  pub alone : kept ≡ task ∷ []
  pub same_kind : task.kind ≡ t.kind
  pub same_trig : task.trig ≡ t.trig
  pub same_elapse : task.elapse ≡ t.elapse
  pub reissued : task.issued ≡ now
  pub credit : task.resch ≡ next_credit t.resch

-- By whether the task is early, whether the network failed, and what stays.
pub data Fate (t : Task) (now : Timespec) : Bool → Bool → List Task → Type 0 where
  put_off : Fate t now true false (t ∷ [])
  taken : Fate t now false true []
  gone : t.resch ≡ 0 → Fate t now false false []
  stays : {kept : List Task} → t.resch ≢ 0 → Again t now kept → Fate t now false false kept

module _ (h : Host) (w : World) (t : Task) (new : List Task) where
  job-Done :
      (w1 : World) (now : Timespec)
      → is_early t now ≡ false
      → let r = sched_perform_job h w1 t now in
        (r.1 ≡ record t { msg = r.1.msg })
        × ((r.2 ≡ net_error) ⊎ (r.2 ≡ (if t.resch == 0 then consumed else Outcome.reschedule)))
  unfolding sched_perform_job
  job-Done w1 now e = ground (arith, perform-Done h w1 t t.kind)

  turn_early :
      is_early t (h.clock w.asked) ≡ true
      → ((turn h w t new).kept ≡ t ∷ []) × ((turn h w t new).failed ≡ false)
  unfolding turn sched_perform_job clock_gettime
  turn_early e = rw e (refl, refl)

  turn_last :
      is_early t (h.clock w.asked) ≡ false
      → (turn h w t new).failed ≡ false
      → t.resch ≡ 0
      → (turn h w t new).kept ≡ []
  unfolding turn clock_gettime
  turn_last e ok r = ground (arith, job-Done (record w { asked = suc w.asked }) (h.clock w.asked) e)

  turn-lost :
      is_early t (h.clock w.asked) ≡ false
      → (turn h w t new).failed ≡ true
      → (turn h w t new).kept ≡ []
  unfolding turn clock_gettime
  turn-lost e bad = ground (arith, job-Done (record w { asked = suc w.asked }) (h.clock w.asked) e)

  turn-Again :
      is_early t (h.clock w.asked) ≡ false
      → (turn h w t new).failed ≡ false
      → t.resch ≢ 0
      → Again t (h.clock w.asked) (turn h w t new).kept
  unfolding turn clock_gettime renewed
  turn-Again e ok r =
      let w1 : World = record w { asked = suc w.asked } in
      let now = h.clock w.asked in
      let d = job-Done w1 now e in
      record {
        task = renewed (sched_perform_job h w1 t now).1 now;
        alone = ground arith;
        same_kind = ground arith;
        same_trig = ground arith;
        same_elapse = ground arith;
        reissued = ground arith;
        credit = ground arith;
      }

  turn-Fate :
      let now = h.clock w.asked in
      let r = turn h w t new in Fate t now (is_early t now) r.failed r.kept
  turn-Fate = elim (Bool-cases (is_early t (h.clock w.asked))) [
    | inl e ↦ rw (e, (turn_early e).0, (turn_early e).1) put_off
    | inr e ↦ elim (Bool-cases (turn h w t new).failed) [
      | inl f ↦ rw (e, f, turn-lost e f) taken
      | inr f ↦ elim (Bool-cases (t.resch == 0)) [
        | inl z ↦ let z' : t.resch ≡ 0 = ground arith in rw (e, f, turn_last e f z') (gone z')
        | inr z ↦
            let z' : t.resch ≢ 0 = λ q. ground arith in rw (e, f) (stays z' (turn-Again e f z'))
      ]
    ]
  ]

  -- A round of the loop of sched_consume over the queue of a task and the rest: the tasks that came
  -- in meanwhile are behind the rest, and what stays of the task is in front of the todo list. Before
  -- its time the task stays as it is. When it is due: a network error takes it away; without one, a
  -- task with credit 0 is gone, and any other stays alone, of the same type, trigger and interval,
  -- issued anew at the time of the run, with one credit less if the credit is positive and the same
  -- credit if it is negative.
  pub round-Fate :
      (rest : List Task)
      → let r = round h w t rest new in
        (kept : List Task) × (r.0.agent.sched.jobs ≡ rest ++ new)
        × (r.0.agent.sched.todo ≡ kept ++ w.agent.sched.todo)
        × Fate t (h.clock w.asked) (is_early t (h.clock w.asked)) r.1 kept
  round-Fate rest =
      let e = round_lem h t rest new w.agent.sched w in
      (
        (turn h w t new).kept,
        ap (λ x. x.0.agent.sched.jobs) e,
        ap (λ x. x.0.agent.sched.todo) e,
        subst (λ b. Fate t (h.clock w.asked) (is_early t (h.clock w.asked)) b (turn h w t new).kept)
            (sym (ap (λ x. x.1) e)) turn-Fate,
      )
