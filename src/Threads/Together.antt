-- ===== src/Threads/Together.antt =====
-- The two threads of an agent together, with the public API and the stop of an agent.
use empower_enb_agent.Base.{ℕ, ◌≡◌, true, false}
use empower_enb_agent.Agent.{World, Host, set_net}
use empower_enb_agent.Proto.{Msg}
use empower_enb_agent.Sched.Loop.{stop_sched}
use empower_enb_agent.Net.Handlers.{del_trigger_id}
use empower_enb_agent.Core.{core_send}
use empower_enb_agent.Threads.{Sched, Net, SchedMove, NetMove}

-- `ctx->stop = 1` in `net_stop`.
abbrev pub stop_network : World → World
stop_network w = set_net (record (w.agent.net) { stop = true }) w

pub record System : Type 0 where
  pub world : World
  pub sched : Sched
  pub net : Net

-- A step of either thread, or a call of the public API.
pub data Move (h : Host) (s : System) : System → Type 0 where
  by_sched :
      {w : World} {p : Sched}
      → SchedMove h s.world s.sched w p
      → Move h s (record { world = w; sched = p; net = s.net })
  by_net :
      {w : World} {q : Net}
      → NetMove h s.world s.net w q
      → Move h s (record { world = w; sched = s.sched; net = q })
  em_send :
      (msg : Msg) (size : ℕ)
      → s.world.agent.sched.stop ≡ false
      → Move h s (record s { world = (core_send h s.world msg size).0 })
  -- A stopped scheduler refuses the task of the message, which is lost.
  em_send_refused :
      (msg : Msg) (size : ℕ)
      → s.world.agent.sched.stop ≡ true
      → Move h s (record s { world = (core_send h s.world msg size).0 })
  em_del_trigger : (id : ℕ) → Move h s (record s { world = (del_trigger_id h s.world id).0 })
  -- `stop` of the scheduler is set, in `sched_stop`.
  halt : Move h s (record s { world = stop_sched s.world })
  -- The same in `net_stop`.
  halt_net : Move h s (record s { world = stop_network s.world })

pub data Moves (h : Host) (s : System) : System → Type 0 where
  start : Moves h s s
  later : {s1 s2 : System} → Moves h s s1 → Move h s1 s2 → Moves h s s2

-- One sequence of steps after the other.
abbrev pub moves_then :
    {h : Host} {s1 s2 s3 : System} → Moves h s1 s2 → Moves h s2 s3 → Moves h s1 s3
moves_then a start = a
moves_then a (later b mv) = later (moves_then a b) mv
