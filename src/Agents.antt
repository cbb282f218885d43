-- ===== src/Agents.antt =====
-- agent/core.c, lines 232 to 261 and 437 to 664: all the agents of the library at once, each with its
-- two threads in small steps, while calls of em_start, em_terminate_agent, em_stop, em_send and
-- em_del_trigger overlap. An agent that a call has in its hands stays in one list with the others,
-- with its place. How em_stop finds an agent to take is in Agents/Calls.
pub mod Course
pub mod Calls
pub mod Running
pub mod Held
pub mod Ends
pub mod Begins
use empower_enb_agent.Base.{ℕ, Bool, ◌≡◌, true, false, List, [], ◌∷◌, ◌++◌, if◌then◌else◌}
use empower_enb_agent.Agent.{Agent, AgentOps, Event, World, Host, init, release, emit, set_mem}
use empower_enb_agent.Memory.{Mem, malloc, free}
use empower_enb_agent.Proto.{Msg}
use empower_enb_agent.Sched.Outcome.{has_op}
use empower_enb_agent.Sched.Consume.{flush_triggers}
use empower_enb_agent.Sched.Loop.{stop_sched, sched_start}
use empower_enb_agent.Net.Start.{net_start}
use empower_enb_agent.Net.Handlers.{del_trigger_id}
use empower_enb_agent.Core.{core_send}
use empower_enb_agent.Core.Start.{new_agent}
use empower_enb_agent.Threads.{Sched, asleep, ended, Net, listening, over, SchedMove, NetMove}
use empower_enb_agent.Threads.Together.{System, stop_network}

-- Where an agent is between its allocation and its release.
pub data Place : Type 0 where
  started : Place  -- its threads run, `init` is not called yet
  called : Place  -- `init` has returned
  listed : Place  -- in the list of agents
  taken : Place  -- `em_terminate_agent` or `em_stop` has taken it off the list
  leaving : Place  -- in `core_release_agent`

abbrev pub called_init : World → World
called_init w = if has_op (λ o. o.init) w.agent then emit init w else w

abbrev pub called_release : World → World
called_release w = if has_op (λ o. o.release) w.agent then emit release w else w

-- A step of one agent: of its threads, of a call of the public API that finds it in the list, or of
-- the call that starts or ends it.
pub data OnAgent (h : Host) (s : System) : Place → System → Place → Type 0 where
  sched_moves :
      {x : Place} {w : World} {p : Sched}
      → SchedMove h s.world s.sched w p
      → OnAgent h s x (record { world = w; sched = p; net = s.net }) x
  net_moves :
      {x : Place} {w : World} {q : Net}
      → NetMove h s.world s.net w q
      → OnAgent h s x (record { world = w; sched = s.sched; net = q }) x
  sends :
      (msg : Msg) (size : ℕ)
      → OnAgent h s listed (record s { world = (core_send h s.world msg size).0 }) listed
  deletes :
      (id : ℕ) → OnAgent h s listed (record s { world = (del_trigger_id h s.world id).0 }) listed
  inits : OnAgent h s started (record s { world = called_init s.world }) called
  refuses :
      has_op (λ o. o.init) s.world.agent ≡ true
      → OnAgent h s started (record s { world = emit init s.world }) leaving
  lists : OnAgent h s called s listed
  takes : OnAgent h s listed s taken
  releases : OnAgent h s taken (record s { world = called_release s.world }) leaving
  halts : OnAgent h s leaving (record s { world = stop_sched s.world }) leaving
  -- The scheduler is joined.
  halts_net :
      s.sched ≡ ended → OnAgent h s leaving (record s { world = stop_network s.world }) leaving

pub record Member : Type 0 where
  pub agent : Agent
  pub place : Place
  pub sched : Sched
  pub net : Net

-- The agents, and what they share.
pub record Agents : Type 0 where
  pub members : List Member
  pub mem : Mem
  pub asked : ℕ
  pub out : List Event

abbrev pub member : System → Place → Member
member s x = record { agent = s.world.agent; place = x; sched = s.sched; net = s.net }

abbrev pub with_members : List Member → World → Agents
with_members ms w = record { members = ms; mem = w.mem; asked = w.asked; out = w.out }

-- The agents before and after one of them, and it.
abbrev pub among : List Member → System → Place → List Member → Agents
among before s x after = with_members (before ++ member s x ∷ after) s.world

-- A new agent, with its threads at their beginning.
abbrev pub created : ℕ → AgentOps → List ℕ → ℕ → Agents → Mem → System
created enb_id ops addr port s m =
    let a = new_agent enb_id ops addr port in
    let w : World = record { agent = a; mem = m; asked = s.asked; out = s.out } in
    record { world = (net_start (sched_start w true).0 true).0; sched = asleep; net = listening }

-- `trig_flush(&agent->trig); free(agent);`
abbrev pub freed : Host → World → World
freed h w = let w' = flush_triggers h w in set_mem (free w'.mem) w'

-- A step of the library.
pub data Act (h : Host) : Agents → Agents → Type 0 where
  create :
      {s : Agents} {m : Mem} (enb_id : ℕ) (ops : AgentOps) (addr : List ℕ) (port : ℕ)
      → malloc h.malloc_ok s.mem ≡ (m, true)
      → Act h s (
          with_members
            (member (created enb_id ops addr port s m) started ∷ s.members)
            (created enb_id ops addr port s m).world)
  no_memory :
      {s : Agents} {m : Mem}
      → malloc h.malloc_ok s.mem ≡ (m, false)
      → Act h s (record s { mem = m })
  act :
      {s s' : System} {x x' : Place} (before after : List Member)
      → OnAgent h s x s' x'
      → Act h (among before s x after) (among before s' x' after)
  -- Both threads are joined.
  vanish :
      (w : World) (before after : List Member)
      → Act h
          (among before (record { world = w; sched = ended; net = over }) leaving after)
          (with_members (before ++ after) (freed h w))

pub data Acts (h : Host) (s : Agents) : Agents → Type 0 where
  nothing : Acts h s s
  acts_then : {s1 s2 : Agents} → Acts h s s1 → Act h s1 s2 → Acts h s s2
