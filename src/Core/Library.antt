-- ===== src/Core/Library.antt =====
-- agent/core.c, lines 26 to 72 and 193 to 255: the state of the library, its initialisation, and the
-- release of an agent. When an agent is released its threads are taken to sleep: a round that a
-- thread is in ends before.
use empower_enb_agent.Base.{ℕ, List, Option, Bool, true, not, ◌||◌, if◌then◌else◌}
use empower_enb_agent.Agent.{Agent, World, Host, set_mem}
use empower_enb_agent.Memory.{free}
use empower_enb_agent.Log.{Log, log_init, log_message}
use empower_enb_agent.Sched.Consume.{flush_triggers}
use empower_enb_agent.Sched.Loop.{sched_stop}
use empower_enb_agent.Net.Start.{net_stop}
use empower_enb_agent.Core.{Core}

-- The whole library. `broken` is whether undefined behaviour was met: a write to a log file that is
-- not open, past the end of an address, or the join of a thread that was never created.
pub record Library : Type 0 where
  pub core : Core
  pub core_init : Bool
  pub log : Log
  pub broken : Bool

abbrev pub set_core : Core → Library → Library
set_core c lib = record lib { core = c }

-- EMLOG
unfoldable pub emlog : Library → Option Agent → List ℕ → List ℕ → Library
unfolding log_message
emlog lib a proc msg =
    let (log, ok) = log_message lib.log a proc msg in
    record lib { log = log; broken = lib.broken || not ok }

-- The first argument is whether `fopen` succeeds.
unfoldable pub core_initialize : Bool → Library → Library
unfolding log_init
core_initialize opens lib =
    if lib.core_init then lib else record lib { core_init = true; log = log_init opens lib.log }

-- The agent is released, and its block freed.
unfoldable pub core_release_agent : Host → World → World
unfolding sched_stop net_stop flush_triggers free
core_release_agent h w =
    let w' = flush_triggers h (net_stop (sched_stop h w)) in set_mem (free w'.mem) w'
