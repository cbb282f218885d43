-- ===== src/Agent.antt =====
-- agent/agent.h, agent/net.h, agent/sched.h and include/emage.h: the state of an agent, the
-- callbacks of the wrapper, and what the agent meets outside itself.
use empower_enb_agent.Base.{ℕ, suc, Bool, Option, List, ◌∷◌}
use empower_enb_agent.Emlist.{Emlist}
use empower_enb_agent.Memory.{Mem}
use empower_enb_agent.Proto.{Proto, Msg, Head, UeMeas}
use empower_enb_agent.Task.{Task, Timespec}
use empower_enb_agent.Trigger.{TrigCtx}

-- em_RAN_conf, with its em_RAN_l2_conf
pub record RanConf : Type 0 where
  pub nof_users : ℕ
  pub users : ℕ → ℕ
  pub user_sched : ℕ
  pub rbg : ℕ

-- struct em_agent_ops: which callbacks are not null. The callbacks are the wrapper's code.
pub record AgentOps : Type 0 where
  pub init : Bool
  pub release : Bool
  pub disconnected : Bool
  pub enb_setup_request : Bool
  pub ue_report : Bool
  pub ue_measure : Bool
  pub handover_ue : Bool
  pub cell_measure : Bool
  pub ran_setup_request : Bool
  pub slice_request : Bool
  pub slice_add : Bool
  pub slice_rem : Bool
  pub slice_conf : Bool

-- A call of a callback with its arguments, or of `send` or `close`.
pub data Event : Type 0 where
  init : Event
  release : Event
  disconnected : Event
  enb_setup_request : (module_id : ℕ) → Event
  ue_report : (module_id trig_id : ℕ) → Event
  ue_measure : (module_id trig_id measure_id rnti earfcn interval max_cells max_meas : ℕ) → Event
  handover_ue : (module_id source_cell rnti target_enb target_cell cause : ℕ) → Event
  cell_measure : (cell module_id interval trig_id : ℕ) → Event
  ran_setup_request : (module_id : ℕ) → Event
  slice_request : (module_id slice : ℕ) → Event
  slice_add : (module_id slice : ℕ) (conf : RanConf) → Event
  slice_rem : (module_id slice : ℕ) → Event
  slice_conf : (module_id slice : ℕ) (conf : RanConf) → Event
  sent : (msg : Msg) (size : ℕ) → Event
  closed : (sockfd : ℕ) → Event

pub data NetStatus : Type 0 where
  not_connected connected : NetStatus

-- struct netctx, without its thread, its lock and its receive buffer
pub record NetCtx : Type 0 where
  pub addr : List ℕ
  pub port : ℕ
  pub sockfd : ℕ
  pub stop : Bool
  pub status : NetStatus
  pub seq : ℕ
  pub interval : ℕ

-- struct schctx, without its thread and its lock
pub record SchedCtx : Type 0 where
  pub stop : Bool
  pub jobs : List Task
  pub todo : List Task
  pub interval : ℕ

-- struct emage, without its list link
pub record Agent : Type 0 where
  pub enb_id : ℕ
  pub ops : Option AgentOps
  pub trig : TrigCtx
  pub net : NetCtx
  pub sched : SchedCtx

-- An agent, the heap, how often the platform was asked, and the calls made, the latest first.
pub record World : Type 0 where
  pub agent : Agent
  pub mem : Mem
  pub asked : ℕ
  pub out : List Event

-- The answers of the C library and the system, by the number of the call.
pub record Platform : Type 0 where
  pub malloc_ok : ℕ → Bool
  pub clock : ℕ → Timespec
  -- Whether `send` returns no negative value.
  pub send_ok : ℕ → Bool
  -- What a variable holds that the code does not initialise.
  pub junk_word : ℕ
  pub junk_head : Head
  pub junk_meas : UeMeas

-- All that the agent's code calls and that is not its own.
pub record Host : Type 1 where
  pub list : Emlist
  pub open list use *
  pub proto : Proto
  pub open proto use *
  pub platform : Platform
  pub open platform use *

unfoldable pub emit : Event → World → World
emit e w = record w { out = e ∷ w.out }

abbrev pub set_trig : TrigCtx → World → World
set_trig c w = record w { agent = record (w.agent) { trig = c } }

abbrev pub set_net : NetCtx → World → World
set_net c w = record w { agent = record (w.agent) { net = c } }

abbrev pub set_sched : SchedCtx → World → World
set_sched c w = record w { agent = record (w.agent) { sched = c } }

abbrev pub set_mem : Mem → World → World
set_mem m w = record w { mem = m }

-- clock_gettime(CLOCK_REALTIME, …)
unfoldable pub clock_gettime : Host → World → World × Timespec
clock_gettime h w = (record w { asked = suc w.asked }, h.clock w.asked)
