-- ===== src/Core/Start.antt =====
-- agent/core.c, lines 487 to 617: the start of an agent.
use empower_enb_agent.Base.{
  ◌++◌, u32, ℕ, Bool, true, false, not, ◌||◌, ◌&&◌, Option, none, some, List, [], ◌∷◌, ◌==◌,
  minus_one, is_negative, length, ltb, if◌then◌else◌,
}
use empower_enb_agent.Agent.{Agent, AgentOps, World, Host, not_connected, init, emit}
use empower_enb_agent.Memory.{malloc}
use empower_enb_agent.Sched.Outcome.{has_op}
use empower_enb_agent.Sched.Loop.{sched_start}
use empower_enb_agent.Net.Start.{net_start}
use empower_enb_agent.Core.{world_of, behind}
use empower_enb_agent.Text.{codes, print_int}
use empower_enb_agent.Core.Library.{Library, set_core, emlog, core_initialize, core_release_agent}

-- `list_for_each_entry(f, &core_agents, next) if(f->enb_id == enb_id) …`
unfoldable pub running : ℕ → List Agent → Bool
running enb_id [] = false
running enb_id (a ∷ rest) = if a.enb_id == enb_id then true else running enb_id rest

-- What one call of `em_start` meets: whether the log file opens and the threads are created, what
-- `init` returns, and what the threads of the agent do until it is in the list.
pub record Answers : Type 0 where
  pub opens : Bool
  pub sched_created : Bool
  pub net_created : Bool
  pub init_result : ℕ
  pub work : World → World

-- The memory of an agent, cleared and with its first values.
abbrev pub new_agent : ℕ → AgentOps → List ℕ → ℕ → Agent
new_agent enb_id ops addr port = record {
  enb_id = enb_id;
  ops = some ops;
  trig = record { ts = []; next = 1 };
  net = record {
    addr = addr;
    port = port;
    sockfd = 0;
    stop = false;
    status = not_connected;
    seq = 0;
    interval = 0;
  };
  sched = record { stop = false; jobs = []; todo = []; interval = 0 };
}

-- The agents of the library, and the rest after work on another agent.
abbrev pub discard : Library → World → Library
discard lib w = set_core (behind lib.core.agents w) lib

-- The second critical section.
unfoldable pub insert_agent : Host → Library → World → Library
insert_agent h lib w = set_core (behind (h.list_add w.agent lib.core.agents) w) lib

abbrev pub undefined : Library → Library
undefined lib = record lib { broken = true }

-- From the call of `init` on.
unfoldable pub start_init : Host → Answers → Library → World → Library × ℕ
unfolding has_op
start_init h ans lib w =
    let called = has_op (λ o. o.init) w.agent in
    let w' = ans.work (if called then emit init w else w) in
    if called && is_negative ans.init_result
    then (discard lib (core_release_agent h w'), ans.init_result)
    else (insert_agent h lib w', 0)

-- The texts of EMLOG: `__func__`, and what `vfprintf` makes of the messages. `%d` for a 64-bit id is
-- undefined behaviour; the text is then the one of the low 32 bits.
abbrev pub start_proc : List ℕ
start_proc = codes "em_start"

abbrev sched_proc : List ℕ
sched_proc = codes "sched_start"

abbrev no_sched_thread : List ℕ
no_sched_thread = codes "Cannot create scheduler thread\n"

abbrev net_proc : List ℕ
net_proc = codes "net_start"

abbrev no_net_thread : List ℕ
no_net_thread = codes "Failed to create the network thread\n"

abbrev no_sched : List ℕ
no_sched = codes "Failed to start the scheduler context\n"

abbrev no_net : List ℕ
no_net = codes "Failed to start the network context\n"

abbrev pub already_running : ℕ → List ℕ
already_running enb_id =
    codes "Agent eNB " ++ (print_int (u32 enb_id) ++ codes " is already running...\n")

-- From `sched_start` on, for an agent that is allocated.
unfoldable pub start_agent : Host → Answers → Library → World → Library × ℕ
unfolding start_init sched_start net_start
start_agent h ans lib w =
    let (w1, s) = sched_start w ans.sched_created in
    let (w2, n) = net_start w1 ans.net_created in
    if not (s == 0)
    then (
      undefined (
          emlog
            (emlog (discard lib (core_release_agent h w1)) (some w1.agent) sched_proc
              no_sched_thread)
            (some w1.agent) start_proc no_sched),
      minus_one,
    )
    else (if not (n == 0)
        then (
          undefined (
              emlog
                (emlog (discard lib (core_release_agent h w2)) (some w2.agent) net_proc
                  no_net_thread)
                (some w2.agent) start_proc no_net),
          minus_one,
        )
        else start_init h ans lib w2)

-- An agent of 16 bytes for the address and its end, allocated and filled.
unfoldable pub allocate_agent : Host → Answers → Library → ℕ → AgentOps → List ℕ → ℕ → Library × ℕ
unfolding malloc start_agent
allocate_agent h ans lib enb_id ops addr port =
    let (m, got) = malloc h.malloc_ok lib.core.mem in
    let lib' = set_core (record (lib.core) { mem = m }) lib in
    let filled = record lib' { broken = lib.broken || ltb 15 (length addr) } in
    if got
    then start_agent h ans filled (world_of filled.core (new_agent enb_id ops addr port))
    else (lib', minus_one)

unfoldable pub em_start : Host → Answers → Library → ℕ → Option AgentOps → List ℕ → ℕ → Library × ℕ
unfolding core_initialize
em_start h ans lib enb_id none addr port = (lib, minus_one)
em_start h ans lib enb_id (some ops) addr port =
    let lib' = core_initialize ans.opens lib in
    if running enb_id lib'.core.agents
    then (undefined (emlog lib' none start_proc (already_running enb_id)), minus_one)
    else allocate_agent h ans lib' enb_id ops addr port
