-- ===== src/Net/Reconnect.antt =====
-- The network thread from connection to connection, and the heap under it.
use empower_enb_agent.Base.{
  ℕ, ◌+◌, ◌≡◌, ◌<◌, refl, Bool, true, false, List, [], ◌∷◌, arith, inl, inr, some, if◌then◌else◌,
  Bool-cases, Option, none, minus_one, ◌==◌,
}
use empower_enb_agent.Agent.{World, Host}
use empower_enb_agent.Task.{Task, TaskType}
use empower_enb_agent.Sched.Consume.{task_blocks}
use empower_enb_agent.Sched.Job.{sched_add_task}
use empower_enb_agent.Proto.{Msg}
use empower_enb_agent.Net.Dispatch.{net_process_message}
use empower_enb_agent.Net.Receive.{Link, stop_net, Ending, waits, disconnects, stops, out_of_fuel}
use empower_enb_agent.Net.Connect.{
  Attempt, Socket, net_connect_to_controller, net_connect_to_controller-Touched,
}
use empower_enb_agent.Net.Loop.{net_loop, round_trip, serve, serve_connected}
use empower_enb_agent.Net.Handlers.{net_connected, hello_added, hello_queued, net_sched_task}
use empower_enb_agent.Net.Link.{net_not_connected}
use empower_enb_agent.Net.Blocks.{Steady, new_task-Steady, net_sched_task-Steady, alloc_blocks}
use empower_enb_agent.Net.Process.{net_process_message-Steady}
use empower_enb_agent.Net.Thread.{Ends, connection-Ends}

sched_add_task_runs :
    (h : Host) (w : World) (t : Task)
    → w.agent.sched.stop ≡ false
    → sched_add_task h w t ≡ ((net_sched_task h w t).0, 0)
unfolding sched_add_task net_sched_task
sched_add_task_runs h w t go = ground arith

module _ (h : Host) (k : ℕ) where
  pub reset-Steady : (w : World) → Steady h k w → Steady h k (net_not_connected w)
  unfolding net_not_connected
  reset-Steady w (go, bal) = (ground arith, ground arith)

  hello_added-Steady :
      (w : World) (t : Task)
      → Steady h (k + task_blocks t) w
      → Steady h k (hello_added h (sched_add_task h w t) t).0
  unfolding hello_added
  hello_added-Steady w t st =
      let st' = net_sched_task-Steady h k w t st in rw (sched_add_task_runs h w t st.0) st'

  hello_queued-Steady :
      (w : World) (o : Option Task)
      → Steady h (k + alloc_blocks o) w
      → Steady h k (hello_queued h (w, o)).0
  unfolding hello_queued alloc_blocks
  hello_queued-Steady w none (go, bal) = (go, omega arith)
  hello_queued-Steady w (some t) st = hello_added-Steady w t st

  pub net_connected-Steady : (w : World) → Steady h k w → Steady h k (net_connected h w).0
  unfolding net_connected
  net_connected-Steady w st =
      hello_queued-Steady _ _ (new_task-Steady h k w TaskType.hello 2000 minus_one 0 none 0 st)

-- A property of the agent that all that the network thread does keeps.
pub record IsKept (h : Host) (P : World → Type 0) : Type 0 where
  pub at_stop : (s : Link) → P s.world → P (stop_net s).world
  pub at_message : (w : World) (msg : Msg) (size : ℕ) → P w → P (net_process_message h w msg size).0
  pub at_reset : (w : World) → P w → P (net_not_connected w)
  pub at_connected : (w : World) → P w → P (net_connected h w).0
  pub at_attempt : (w : World) (a : Attempt) → P w → P (net_connect_to_controller w a).0

module _ (h : Host) (P : World → Type 0) (kept : IsKept h P) (hd : 0 < h.ep_header_size) where
  Good : Ending → Type 0
  Good r = Ends P kept.at_stop h r

  serve-Good : (w : World) (sock : Socket) → P w → Good (serve h w sock)
  unfolding serve Good
  serve-Good w sock st =
      connection-Ends P kept.at_stop h kept.at_message kept.at_reset hd _ sock.ans _ (omega arith)
        st

  serve_connected-Good :
      (w : World) (err : ℕ) (sock : Socket) → P w → Good (serve_connected h (w, err) sock)
  unfolding serve_connected Good
  serve_connected-Good w err sock st = elim (Bool-cases (err == 0)) [
    | inl e ↦ rw e (serve-Good w sock st)
    | inr e ↦ rw e (kept.at_reset w st)
  ]

  round_trip-Good : (w : World) (o : Option Socket) → P w → Good (round_trip h (w, o))
  unfolding round_trip Good
  round_trip-Good w none st = st
  round_trip-Good w (some sock) st =
      serve_connected-Good _ (net_connected h w).1 sock (kept.at_connected w st)

  -- Where the answers of the system end, or where the thread is told to stop.
  Finished : Option World → Type 0
  Finished o = (w' : World) × (o ≡ some w') × P w'

  followed : (List Attempt) → Ending → Option World
  followed rest (disconnects w) = net_loop h rest w
  followed rest (stops w) = some w
  followed rest (waits w) = some w
  followed rest out_of_fuel = none

  followed-Finished :
      (rest : List Attempt) (r : Ending)
      → ((w : World) → P w → Finished (net_loop h rest w))
      → Good r
      → Finished (followed rest r)
  unfolding followed Finished Good
  followed-Finished rest (disconnects w) f g = f w g
  followed-Finished rest (stops w) f g = (w, refl, g)
  followed-Finished rest (waits w) f g = (w, refl, g)
  followed-Finished rest out_of_fuel f g = absurd g

  if_Finished :
      (b : Bool) (w : World) (o : Option World)
      → P w
      → Finished o
      → Finished (if b then some w else o)
  unfolding Finished
  if_Finished true w o st f = (w, refl, st)
  if_Finished false w o st f = f

  -- The thread comes to an end of each loop with what the system answers, and keeps the property.
  pub net_loop-Keeps :
      (attempts : List Attempt) (w : World)
      → P w
      → (w' : World) × (net_loop h attempts w ≡ some w') × P w'
  unfolding net_loop followed Finished
  net_loop-Keeps [] w st = (w, refl, st)
  net_loop-Keeps (a ∷ rest) w st = if_Finished w.agent.net.stop w _ st (
      followed-Finished rest (round_trip h (net_connect_to_controller w a))
        (λ u p. net_loop-Keeps rest u p) (round_trip-Good _ _ (kept.at_attempt w a st)))

module _ (h : Host) (k : ℕ) where
  Steady-IsKept : IsKept h (Steady h k)
  Steady-IsKept = record {
    at_stop = λ s p. p;
    at_message = λ w msg size p. net_process_message-Steady h k w msg size p;
    at_reset = reset-Steady h k;
    at_connected = net_connected-Steady h k;
    at_attempt = λ w a st. rw (net_connect_to_controller-Touched w a).only st;
  }

  -- The network thread comes to an end of each loop with what the system answers, whatever that
  -- is, and leaks no memory, while the scheduler runs: every block beside `k` others belongs to a
  -- queued task or a trigger before and after.
  pub net_loop-Steady :
      0 < h.ep_header_size
      → (attempts : List Attempt) (w : World) → Steady h k w
      → (w' : World) × (net_loop h attempts w ≡ some w') × Steady h k w'
  net_loop-Steady hd attempts w st = net_loop-Keeps h (Steady h k) Steady-IsKept hd attempts w st
