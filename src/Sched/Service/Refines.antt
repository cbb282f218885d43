-- ===== src/Sched/Service/Refines.antt =====
-- `sched_consume` does what `Serves` says.
use mathlib.Core.List.{reverse, reverse-append, reverse-cons, reverse-reverse}
use empower_enb_agent.Base.{
  ℕ, zero, suc, ◌<◌, ◌≡◌, refl, ap, ◌∙◌, false, some, List, [], ◌∷◌, ◌++◌, append-nil, append_assoc,
  arith,
}
use empower_enb_agent.Agent.{World, Host, SchedCtx, clock_gettime, set_sched}
use empower_enb_agent.Task.{Task, Timespec}
use empower_enb_agent.Sched.Outcome.{Outcome, net_error, consumed, not_elapsed, reschedule}
use empower_enb_agent.Sched.Job.{sched_perform_job}
use empower_enb_agent.Sched.Frame.{sched_perform_job-frame}
use empower_enb_agent.Sched.Consume.{
  batch, arrive, settle, round, Ended, consume_loop, requeue, requeue_all, finish, sched_consume,
}
use empower_enb_agent.Sched.Service.{counted, keeps, released, turn, Serves, idle, next, turns}

module _ (h : Host) where
  pub arrive_lem :
      (new : List Task) (s : SchedCtx) (w : World)
      → arrive h new (set_sched s w) ≡ set_sched (record s { jobs = s.jobs ++ new }) (counted new w)
  unfolding arrive
  arrive_lem [] s w = rw append-nil
  arrive_lem (t ∷ new) s w = rw h.list_add_tail_last (
      arrive_lem new (record s { jobs = s.jobs ++ t ∷ [] }) _
      ∙ ap (λ (x : List Task). set_sched (record s { jobs = x }) (counted (t ∷ new) w))
          (append_assoc s.jobs (t ∷ []) new))

  settle_lem :
      (t : Task) (now : Timespec) (op : Outcome) (s : SchedCtx) (w : World)
      → settle h (set_sched s w) t now op
        ≡ set_sched (record s { todo = keeps t now op ++ s.todo }) (released t op w)
  unfolding settle
  settle_lem t now not_elapsed s w = rw h.list_add_first
  settle_lem t now reschedule s w = rw h.list_add_first
  settle_lem t now consumed s w = refl
  settle_lem t now net_error s w = refl

  pub round_lem :
      (t : Task) (rest new : List Task) (s : SchedCtx) (w : World)
      → round h (set_sched s w) t rest new ≡ (
        set_sched
            (record s { jobs = rest ++ new; todo = (turn h w t new).kept ++ s.todo })
            (turn h w t new).after,
        (turn h w t new).failed,
      )
  unfolding round turn clock_gettime
  round_lem t rest new s w = rw (
    h.list_del_unlinks,
    sched_perform_job-frame h (record s { jobs = rest }) (record w { asked = suc w.asked }) t
        (h.clock w.asked),
    arrive_lem,
    settle_lem,
  )

  kept_reverse :
      (t : Task) (w : World) (new : List Task)
      → reverse (turn h w t new).kept ≡ (turn h w t new).kept
  unfolding turn
  kept_reverse t w new =
      keeps_reverse _ _ (sched_perform_job h (clock_gettime h w).0 t (clock_gettime h w).1).2
    where
      keeps_reverse :
          (t : Task) (now : Timespec) (op : Outcome) → reverse (keeps t now op) ≡ keeps t now op
      keeps_reverse t now not_elapsed = refl
      keeps_reverse t now reschedule = refl
      keeps_reverse t now consumed = refl
      keeps_reverse t now net_error = refl

  loop_lem :
      {w w' : World} {q : List Task} {arrivals : List (List Task)} {kept : List Task}
      {left : List (List Task)} (sv : Serves h w q arrivals w' kept left) (s : SchedCtx) (fuel : ℕ)
      → turns sv < fuel
      → consume_loop h fuel arrivals (set_sched (record s { jobs = q }) w)
        ≡ some (record {
          world = set_sched (record s { jobs = []; todo = reverse kept ++ s.todo }) w';
          left = left;
          down = false;
        })
  unfolding consume_loop
  loop_lem idle s zero lt = absurd (omega arith)
  loop_lem (next ok sv) s zero lt = absurd (omega arith)
  loop_lem idle s (suc fuel) lt = refl
  loop_lem (next {w} {t} {rest} {kept} {arrivals} ok sv) s (suc fuel) lt = rw (
    round_lem t rest (batch arrivals) (record s { jobs = t ∷ rest }) w,
    ok,
    loop_lem sv (record s { todo = (turn h w t (batch arrivals)).kept ++ s.todo }) fuel
        (omega arith),
    reverse-append (turn h w t (batch arrivals)).kept kept,
    kept_reverse t w (batch arrivals),
    append_assoc (reverse kept),
  )

  pub requeue_lem : (todo jobs : List Task) → requeue h todo todo jobs ≡ ([], reverse todo ++ jobs)
  unfolding requeue
  requeue_lem [] jobs = refl
  requeue_lem (t ∷ todo) jobs =
      rw (h.list_del_unlinks, h.list_add_first, requeue_lem todo, reverse-cons, append_assoc)

  finish_lem :
      (s : SchedCtx) (todo : List Task) (left : List (List Task)) (w : World)
      → finish h (record {
        world = set_sched (record s { jobs = []; todo = reverse todo }) w;
        left = left;
        down = false;
      })
        ≡ set_sched (record s { jobs = todo ++ batch left; todo = [] }) (counted (batch left) w)
  unfolding finish requeue_all
  finish_lem s todo left w = rw (arrive_lem, requeue_lem, reverse-reverse)

  pub consume_of_loop :
      (fuel : ℕ) (arrivals : List (List Task)) (w : World) {e : Ended}
      → consume_loop h fuel arrivals w ≡ some e
      → sched_consume h fuel arrivals w ≡ some (finish h e)
  unfolding sched_consume
  consume_of_loop fuel arrivals w p = rw (p, sched_consume)

  -- Where every task has its turn without a network error, a run needs no more rounds than turns
  -- and leaves in the queue, in their order, the tasks that stay, then those that arrived last; the
  -- second queue is empty again. All else is as after the turns.
  pub sched_consume-Serves :
      {w w' : World} {arrivals : List (List Task)} {kept : List Task} {left : List (List Task)}
      (sv : Serves h w w.agent.sched.jobs arrivals w' kept left) (fuel : ℕ)
      → w.agent.sched.todo ≡ []
      → turns sv < fuel
      → sched_consume h fuel arrivals w
        ≡ some (
            set_sched
              (record (w.agent.sched) { jobs = kept ++ batch left; todo = [] })
              (counted (batch left) w'))
  sched_consume-Serves {w} {kept} {left} sv fuel e lt =
      rw (consume_of_loop fuel _ w (loop_lem sv w.agent.sched fuel lt), e, append-nil, finish_lem)
