-- ===== src/Life/Sound.antt =====
-- What holds of an agent at any time of its life.
use mathlib.Core.Option.{some-injective}
use empower_enb_agent.Base.{
  ℕ, ◌+◌, ◌<◌, ◌≤◌, ◌≡◌, ap, subst, sym, ◌∙◌, false, Option, none, some, List, [], length, arith,
  minus_one,
}
use empower_enb_agent.Agent.{World, Host}
use empower_enb_agent.Proto.{Msg}
use empower_enb_agent.Task.{Task, TaskType}
use empower_enb_agent.Trigger.Room.{IsRoomy}
use empower_enb_agent.Sched.Job.{sched_add_task}
use empower_enb_agent.Sched.Consume.{sched_consume}
use empower_enb_agent.Sched.Blocks.{Balanced, sched_consume-Balanced}
use empower_enb_agent.Sched.Calls.{IsProper, are_set, sched_consume-IsProper}
use empower_enb_agent.Sched.Room.{sched_consume-IsRoomy}
use empower_enb_agent.Sched.Service.Total.{tasks_of}
use empower_enb_agent.Sched.Service.Down.{sched_consume-ends}
use empower_enb_agent.Net.Connect.{
  Attempt, net_connect_to_controller, net_connect_to_controller-Touched,
}
use empower_enb_agent.Net.Link.{net_not_connected}
use empower_enb_agent.Net.Handlers.{
  net_connected, new_task, hello_queued, hello_added, del_trigger_id, schedule_msg,
}
use empower_enb_agent.Net.Dispatch.{net_process_message}
use empower_enb_agent.Net.Blocks.{schedule_msg-Steady, del_trigger_id-Balanced}
use empower_enb_agent.Net.Process.{net_process_message-Steady}
use empower_enb_agent.Net.Reconnect.{net_connected-Steady}
use empower_enb_agent.Net.Room.{
  HasRoom, asked_triggers, queue_new-HasRoom, del_trigger_id-HasRoom, fewer-HasRoom,
}
use empower_enb_agent.Net.Distinct.{net_process_message-HasRoom}
use empower_enb_agent.Net.Untouched.{outside-net_process_message, outside-schedule_msg}
use empower_enb_agent.Core.{core_send}
use empower_enb_agent.Life.{
  Step, Steps, message, attempt, connect, reset, run, send, del_trigger, done, step,
}

-- Every block beside `k` others belongs to a queued task or a trigger, the second queue is empty
-- outside a run, the ids of the triggers are distinct, with room for `n` more before they wrap, and
-- no callback was called that is not set.
pub record IsSound (k n : ℕ) (w : World) : Type 0 where
  pub balanced : Balanced k w
  pub no_todo : w.agent.sched.todo ≡ []
  pub room : HasRoom n w
  pub proper : IsProper w

module _ (k : ℕ) where
  fewer-IsSound : (m n : ℕ) (w : World) → n ≤ m → IsSound k m w → IsSound k n w
  fewer-IsSound m n w le s = record {
    balanced = s.balanced;
    no_todo = s.no_todo;
    room = fewer-HasRoom m n w le s.room;
    proper = s.proper;
  }

module _ (h : Host) (k n : ℕ) (w : World) where
  message-IsSound :
      (msg : Msg) (size : ℕ)
      → w.agent.sched.stop ≡ false
      → IsSound k (asked_triggers h msg size + n) w
      → IsSound k n (net_process_message h w msg size).0
  message-IsSound msg size go s =
      let o = outside-net_process_message h w msg size in
      record {
        balanced = (net_process_message-Steady h k w msg size (go, s.balanced)).1;
        no_todo = ap (λ x. x.4) o ∙ s.no_todo;
        room = net_process_message-HasRoom h n w msg size s.room;
        proper = ap (λ x. are_set x.1 x.5) o ∙ s.proper;
      }

  send-IsSound :
      (msg : Msg) (size : ℕ)
      → w.agent.sched.stop ≡ false
      → IsSound k n w
      → IsSound k n (core_send h w msg size).0
  unfolding core_send schedule_msg new_task
  send-IsSound msg size go s =
      let o = outside-schedule_msg h w TaskType.send 1 0 msg size in
      record {
        balanced = (schedule_msg-Steady h k w TaskType.send 1 0 msg size (go, s.balanced)).1;
        no_todo = ap (λ x. x.4) o ∙ s.no_todo;
        room = queue_new-HasRoom h n (new_task h w TaskType.send 1 0 0 msg size) s.room;
        proper = ap (λ x. are_set x.1 x.5) o ∙ s.proper;
      }

  connected_outside :
      (o : Option Task) (w1 : World)
      → let r = hello_queued h (w1, o) in
        (r.0.agent.sched.todo ≡ w1.agent.sched.todo)
        × (r.0.agent.trig ≡ w1.agent.trig)
        × (r.0.agent.ops ≡ w1.agent.ops)
        × (r.0.out ≡ w1.out)
  unfolding hello_queued hello_added sched_add_task
  connected_outside none w1 = ground arith
  connected_outside (some t) w1 = ground arith

  connect-IsSound : w.agent.sched.stop ≡ false → IsSound k n w → IsSound k n (net_connected h w).0
  unfolding net_connected new_task
  connect-IsSound go s =
      let made = new_task h w TaskType.hello 2000 minus_one 0 none 0 in
      let same = connected_outside made.1 made.0 in
      record {
        balanced = (net_connected-Steady h k w (go, s.balanced)).1;
        no_todo = same.0 ∙ s.no_todo;
        room = subst (IsRoomy n) (sym same.1) s.room;
        proper = rw (same.2, same.3) s.proper;
      }

  attempt-IsSound : (a : Attempt) → IsSound k n w → IsSound k n (net_connect_to_controller w a).0
  attempt-IsSound a s =
      rw (net_connect_to_controller-Touched w a).only
        (record { balanced = s.balanced; no_todo = s.no_todo; room = s.room; proper = s.proper })

  reset-IsSound : IsSound k n w → IsSound k n (net_not_connected w)
  unfolding net_not_connected
  reset-IsSound s = record {
    balanced = ground (arith, s.balanced);
    no_todo = ground (arith, s.no_todo);
    room = ground (arith, s.room);
    proper = ground (arith, s.proper);
  }

  del_trigger-IsSound : (id : ℕ) → IsSound k n w → IsSound k n (del_trigger_id h w id).0
  unfolding del_trigger_id
  del_trigger-IsSound id s = record {
    balanced = (del_trigger_id-Balanced h k w id s.balanced).0;
    no_todo = s.no_todo;
    room = del_trigger_id-HasRoom h n w id s.room;
    proper = s.proper;
  }

  run-IsSound :
      (w' : World) (fuel : ℕ) (arrivals : List (List Task))
      → length w.agent.sched.jobs + tasks_of arrivals < fuel
      → sched_consume h fuel arrivals w ≡ some w'
      → IsSound k n w
      → IsSound k n w'
  run-IsSound w' fuel arrivals lt ran s =
      let (w1, p1, none_left) = sched_consume-ends h w arrivals fuel lt s.no_todo in
      let (w2, p2, balanced) = sched_consume-Balanced h k w arrivals fuel lt s.no_todo s.balanced in
      let (w3, p3, room) = sched_consume-IsRoomy h n w arrivals fuel lt s.no_todo s.room in
      let (w4, p4, proper) = sched_consume-IsProper h w arrivals fuel lt s.no_todo s.proper in
      record {
        balanced = subst (Balanced k) (some-injective _ _ (sym p2 ∙ ran)) balanced;
        no_todo =
            subst (λ x. x.agent.sched.todo ≡ []) (some-injective _ _ (sym p1 ∙ ran)) none_left;
        room = subst (HasRoom n) (some-injective _ _ (sym p3 ∙ ran)) room;
        proper = subst IsProper (some-injective _ _ (sym p4 ∙ ran)) proper;
      }

module _ (h : Host) (k : ℕ) where
  Step-IsSound : (n a : ℕ) (w w' : World) → Step h a w w' → IsSound k (a + n) w → IsSound k n w'
  Step-IsSound n a w w' (message msg size go) s = message-IsSound h k n w msg size go s
  Step-IsSound n a w w' (attempt x) s =
      attempt-IsSound h k n w x (fewer-IsSound k (0 + n) n w (omega arith) s)
  Step-IsSound n a w w' (connect go) s =
      connect-IsSound h k n w go (fewer-IsSound k (0 + n) n w (omega arith) s)
  Step-IsSound n a w w' reset s =
      reset-IsSound h k n w (fewer-IsSound k (0 + n) n w (omega arith) s)
  Step-IsSound n a w w' (run fuel arrivals lt ran) s =
      run-IsSound h k n w w' fuel arrivals lt ran (fewer-IsSound k (0 + n) n w (omega arith) s)
  Step-IsSound n a w w' (send msg size go) s =
      send-IsSound h k n w msg size go (fewer-IsSound k (0 + n) n w (omega arith) s)
  Step-IsSound n a w w' (del_trigger id) s =
      del_trigger-IsSound h k n w id (fewer-IsSound k (0 + n) n w (omega arith) s)

  -- Whatever the threads of an agent and the public API do, in any order, one message, one run of
  -- the scheduler or one call after the other, while the scheduler has not been stopped: no memory leaks, the second queue is empty between runs, no callback is called
  -- that is not set, and the ids of the triggers stay distinct, provided that the next one had room
  -- for `n` triggers more than the messages ask for.
  pub Steps-IsSound :
      (n a : ℕ) (w w' : World) → Steps h a w w' → IsSound k (a + n) w → IsSound k n w'
  Steps-IsSound n a w w' done s = fewer-IsSound k (0 + n) n w (omega arith) s
  Steps-IsSound n a w w' (step {w1 = w1} {a = b} {b = c} one more) s =
      Steps-IsSound n c w1 w' more (
        Step-IsSound (c + n) b w w1 one
          (fewer-IsSound k (b + c + n) (b + (c + n)) w (omega arith) s))
