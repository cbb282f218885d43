-- ===== src/Sched/Service/Down.antt =====
-- After a network error nothing is left to do: both queues and all triggers are gone, and the
-- connection is down.
use empower_enb_agent.Base.{
  ℕ, zero, suc, ◌+◌, ◌-◌, ◌<◌, ◌≡◌, refl, true, false, some, List, [], ◌∷◌, ◌++◌, arith, length,
  is_positive, inl, inr,
}
use empower_enb_agent.Agent.{World, Host, SchedCtx, not_connected, set_sched}
use empower_enb_agent.Memory.{Mem}
use empower_enb_agent.Task.{Task, task_free}
use empower_enb_agent.Trigger.Laws.{trig_flush_lem, all_blocks}
use empower_enb_agent.Sched.Consume.{
  batch, later, task_blocks, drain_tasks, dump_queues, network_down, round, consume_loop, finish,
  sched_consume,
}
use empower_enb_agent.Sched.Service.{turn}
use empower_enb_agent.Sched.Service.Total.{
  Fails, here, after, failed_turns, tasks_of, Served-or_Failed,
}
use empower_enb_agent.Sched.Service.Refines.{round_lem, consume_of_loop, sched_consume-Serves}

abbrev pub queue_blocks : List Task → ℕ
queue_blocks [] = 0
queue_blocks (t ∷ ts) = task_blocks t + queue_blocks ts

pub task_free-live : (t : Task) (m : Mem) → (task_free t m).live ≡ m.live - task_blocks t
unfolding task_free
task_free-live t m = ground arith

pub record Cleared (w : World) : Type 0 where
  pub no_jobs : w.agent.sched.jobs ≡ []
  pub no_todo : w.agent.sched.todo ≡ []
  pub no_triggers : w.agent.trig.ts ≡ []
  pub status_down : w.agent.net.status ≡ not_connected
  pub seq_reset : w.agent.net.seq ≡ 0
  pub socket_closed : is_positive w.agent.net.sockfd ≡ false

module _ (h : Host) where
  pub drain_tasks_lem :
      (ts : List Task) (m : Mem)
      → ((drain_tasks h ts ts m).0 ≡ [])
        × ((drain_tasks h ts ts m).1.live ≡ m.live - queue_blocks ts)
  unfolding drain_tasks
  drain_tasks_lem [] m = (refl, omega arith)
  drain_tasks_lem (t ∷ ts) m =
      ground
        (arith, h.list_del_unlinks [] t ts, drain_tasks_lem ts (task_free t m), task_free-live t m)

  pub network_down-Cleared : (w : World) → Cleared (network_down h w)
  unfolding network_down
  network_down-Cleared w = ground (
    arith,
    drain_tasks_lem w.agent.sched.todo w.mem,
    drain_tasks_lem w.agent.sched.jobs
        (drain_tasks h w.agent.sched.todo w.agent.sched.todo w.mem).1,
    trig_flush_lem h.list w.agent.trig (dump_queues h w).mem,
  )

  -- The heap gets back every block of the queues and of the triggers.
  pub network_down-live :
      (w : World)
      → (network_down h w).mem.live
        ≡ w.mem.live
          - queue_blocks w.agent.sched.todo
          - queue_blocks w.agent.sched.jobs
          - all_blocks w.agent.trig.ts
  unfolding network_down
  network_down-live w = ground (
    arith,
    drain_tasks_lem w.agent.sched.todo w.mem,
    drain_tasks_lem w.agent.sched.jobs
        (drain_tasks h w.agent.sched.todo w.agent.sched.todo w.mem).1,
    trig_flush_lem h.list w.agent.trig (dump_queues h w).mem,
  )

  pub record LoopDown (fuel : ℕ) (arrivals : List (List Task)) (w : World) : Type 0 where
    pub before : World
    pub left : List (List Task)
    pub ended :
        consume_loop h fuel arrivals w
        ≡ some (record { world = network_down h before; left = left; down = true })

  loop_down :
      {w : World} {q : List Task} {arrivals : List (List Task)} (f : Fails h w q arrivals)
      (s : SchedCtx) (fuel : ℕ)
      → failed_turns f < fuel
      → LoopDown fuel arrivals (set_sched (record s { jobs = q }) w)
  unfolding consume_loop
  loop_down (here e) s zero lt = absurd (omega arith)
  loop_down (after ok f) s zero lt = absurd (omega arith)
  loop_down (here {w} {t} {rest} {arrivals} e) s (suc fuel) lt = record {
    before = (round h (set_sched (record s { jobs = t ∷ rest }) w) t rest (batch arrivals)).0;
    left = later arrivals;
    ended = rw (round_lem h t rest (batch arrivals) (record s { jobs = t ∷ rest }) w, e);
  }
  loop_down (after {w} {t} {rest} {arrivals} ok f) s (suc fuel) lt =
      let ih =
        loop_down f (record s { todo = (turn h w t (batch arrivals)).kept ++ s.todo }) fuel
          (omega arith) in
      record {
        before = ih.before;
        left = ih.left;
        ended =
            rw (round_lem h t rest (batch arrivals) (record s { jobs = t ∷ rest }) w, ok) ih.ended;
      }

  -- Where a task's turn ends in a network error, the run ends with everything dropped: both queues
  -- and the trigger list are empty, the status is not connected, the sequence number is 0 and no
  -- socket is open.
  pub sched_consume-Fails :
      (w : World) (arrivals : List (List Task)) (f : Fails h w w.agent.sched.jobs arrivals)
      (fuel : ℕ)
      → failed_turns f < fuel
      → (w' : World) × (sched_consume h fuel arrivals w ≡ some w') × Cleared w'
  unfolding finish
  sched_consume-Fails w arrivals f fuel lt =
      let d = loop_down f w.agent.sched fuel lt in
      (
        network_down h d.before,
        consume_of_loop h fuel arrivals w d.ended,
        network_down-Cleared d.before,
      )

  -- A run ends: with one round more than there are tasks, in the queue and still to arrive, the
  -- loop gives a result, and it leaves the second queue empty if that was empty before.
  pub sched_consume-ends :
      (w : World) (arrivals : List (List Task)) (fuel : ℕ)
      → length w.agent.sched.jobs + tasks_of arrivals < fuel
      → w.agent.sched.todo ≡ []
      → (w' : World) × (sched_consume h fuel arrivals w ≡ some w') × (w'.agent.sched.todo ≡ [])
  sched_consume-ends w arrivals fuel lt e =
      elim (Served-or_Failed h w w.agent.sched.jobs arrivals) [
        | inl s ↦ (_, sched_consume-Serves h s.serves fuel e (omega (arith, s.bounded)), refl)
        | inr f ↦
            let (w', run, gone) =
              sched_consume-Fails w arrivals f.fails fuel (omega (arith, f.bounded)) in
            (w', run, gone.no_todo)
      ]
