-- ===== src/Core/Heap.antt =====
-- The heap under the agents: each agent holds its own block, its queued tasks and its triggers.
use empower_enb_agent.Base.{
  ℕ, zero, suc, ◌+◌, ◌<◌, ◌≡◌, refl, ap, Bool, true, false, some, List, [], ◌∷◌, length, arith,
  if◌then◌else◌,
}
use empower_enb_agent.Agent.{Agent, Event, World, Host, emit, release}
use empower_enb_agent.Memory.{free}
use empower_enb_agent.Trigger.Laws.{all_blocks, trig_flush_lem}
use empower_enb_agent.Sched.Consume.{flush_triggers}
use empower_enb_agent.Sched.Service.Down.{queue_blocks}
use empower_enb_agent.Sched.Blocks.{Balanced}
use empower_enb_agent.Sched.Loop.{sched_stop}
use empower_enb_agent.Sched.Loop.Ends.{sched_stop-Emptied}
use empower_enb_agent.Net.Start.{net_stop}
use empower_enb_agent.Core.{Core, world_of, behind}
use empower_enb_agent.Core.Library.{Library, core_release_agent}
use empower_enb_agent.Core.Stop.{end_agent, stop_loop, shut_down, em_stop}

abbrev pub agent_blocks : Agent → ℕ
agent_blocks a = suc (queue_blocks a.sched.todo + queue_blocks a.sched.jobs + all_blocks a.trig.ts)

abbrev pub agents_blocks : List Agent → ℕ
agents_blocks [] = 0
agents_blocks (a ∷ rest) = agent_blocks a + agents_blocks rest

-- Every block beside `k` others belongs to an agent.
abbrev pub Owned : ℕ → Core → Type 0
Owned k c = c.mem.live ≡ k + agents_blocks c.agents

-- A call of the wrapper allocates nothing.
pub called-Balanced :
    (k : ℕ) (b : Bool) (e : Event) (w : World)
    → Balanced k w
    → Balanced k (if b then emit e w else w)
unfolding emit
called-Balanced k true e w bal = bal
called-Balanced k false e w bal = bal

module _ (h : Host) where
  -- A release frees all that the agent holds.
  pub core_release_agent-live :
      (k : ℕ) (w : World) → Balanced (suc k) w → (core_release_agent h w).mem.live ≡ k
  unfolding core_release_agent flush_triggers net_stop free
  core_release_agent-live k w b =
      let e = sched_stop-Emptied h (suc k) w b in
      omega (
        arith,
        trig_flush_lem h.list (sched_stop h w).agent.trig (sched_stop h w).mem,
        e.live,
        ap (λ c. all_blocks c.ts) e.same_trig,
      )

  pub end_agent-live : (k : ℕ) (w : World) → Balanced (suc k) w → (end_agent h w).mem.live ≡ k
  unfolding end_agent
  end_agent-live k w b = core_release_agent-live k _ (called-Balanced (suc k) _ release w b)

  -- The end of the first agent, with the others in the list.
  first_ended :
      (k : ℕ) (a : Agent) (rest : List Agent) (c : Core)
      → c.mem.live ≡ k + agents_blocks (a ∷ rest)
      → (end_agent h (world_of c a)).mem.live ≡ k + agents_blocks rest
  first_ended k a rest c o = end_agent-live (k + agents_blocks rest) (world_of c a) (omega arith)

  pub stop_loop-live :
      (k fuel : ℕ) (agents : List Agent) (c : Core)
      → length agents < fuel
      → c.mem.live ≡ k + agents_blocks agents
      → (c' : Core) × (stop_loop h fuel (record c { agents = agents }) ≡ some c')
        × (c'.agents ≡ [])
        × (c'.mem.live ≡ k)
  unfolding stop_loop
  stop_loop-live k zero agents c lt o = absurd (omega arith)
  stop_loop-live k (suc fuel) [] c lt o = (record c { agents = [] }, refl, refl, omega arith)
  stop_loop-live k (suc fuel) (a ∷ rest) c lt o = rw (h.list_del_unlinks [] a rest) (
      stop_loop-live k fuel rest (behind rest (end_agent h (world_of c a))) (omega arith)
        (first_ended k a rest c o))

  -- The end of the library ends, with no agent left, and with every block freed that an agent held:
  -- its own, its tasks and their messages, its triggers.
  pub em_stop-frees :
      (k : ℕ) (lib : Library)
      → Owned k lib.core
      → (lib' : Library) × (em_stop h lib ≡ some lib')
        × (lib'.core.agents ≡ [])
        × (lib'.core.mem.live ≡ k)
  unfolding em_stop
  em_stop-frees k lib o =
      let (c, p, none_left, freed) =
        stop_loop-live k (suc (length lib.core.agents)) lib.core.agents lib.core (omega arith) o in
      (_, ap (shut_down lib) p, none_left, freed)
