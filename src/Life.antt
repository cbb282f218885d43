-- ===== src/Life.antt =====
-- An agent between its start and its stop: its two threads and the public API in any order. Each
-- step is what one of them does in one go: the handling of a message, a run of the scheduler, or a
-- call. What can come in between, where a lock is released, is in Threads.
use empower_enb_agent.Base.{ℕ, suc, ◌+◌, ◌<◌, ◌≡◌, false, some, List, length}
use empower_enb_agent.Agent.{World, Host}
use empower_enb_agent.Proto.{Msg}
use empower_enb_agent.Task.{Task}
use empower_enb_agent.Sched.Consume.{sched_consume}
use empower_enb_agent.Sched.Service.Total.{tasks_of}
use empower_enb_agent.Net.Link.{net_not_connected}
use empower_enb_agent.Net.Handlers.{net_connected, del_trigger_id}
use empower_enb_agent.Net.Connect.{
  Attempt, net_connect_to_controller, net_connect_to_controller-Touched,
}
use empower_enb_agent.Net.Dispatch.{net_process_message}
use empower_enb_agent.Net.Room.{asked_triggers}
use empower_enb_agent.Core.{core_send}
pub mod Sound

-- `Step h a w w'`: one step, for which at most `a` triggers are asked. While the scheduler has not
-- been stopped a task can be queued; the tasks that arrive during a run are those of the other
-- threads and of the wrapper.
pub data Step (h : Host) : ℕ → World → World → Type 0 where
  message :
      {w : World} (msg : Msg) (size : ℕ)
      → w.agent.sched.stop ≡ false
      → Step h (asked_triggers h msg size) w (net_process_message h w msg size).0
  attempt : {w : World} (a : Attempt) → Step h 0 w (net_connect_to_controller w a).0
  connect : {w : World} → w.agent.sched.stop ≡ false → Step h 0 w (net_connected h w).0
  reset : {w : World} → Step h 0 w (net_not_connected w)
  run :
      {w w' : World} (fuel : ℕ) (arrivals : List (List Task))
      → length w.agent.sched.jobs + tasks_of arrivals < fuel
      → sched_consume h fuel arrivals w ≡ some w'
      → Step h 0 w w'
  send :
      {w : World} (msg : Msg) (size : ℕ)
      → w.agent.sched.stop ≡ false
      → Step h 0 w (core_send h w msg size).0
  del_trigger : {w : World} (id : ℕ) → Step h 0 w (del_trigger_id h w id).0

-- Any number of steps, for which at most so many triggers are asked.
pub data Steps (h : Host) : ℕ → World → World → Type 0 where
  done : {w : World} → Steps h 0 w w
  step : {w w1 w2 : World} {a b : ℕ} → Step h a w w1 → Steps h b w1 w2 → Steps h (a + b) w w2
