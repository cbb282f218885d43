-- ===== src/Core/Faults.antt =====
-- What the end of an agent and of the library leave open or closed.
use empower_enb_agent.Base.{
  Option, ℕ, zero, suc, ◌<◌, ◌≡◌, refl, ap, ◌∙◌, Bool, true, false, some, List, [], ◌∷◌, length,
  arith, if◌then◌else◌,
}
use empower_enb_agent.Agent.{Agent, Agent, Event, World, Host, emit, release}
use empower_enb_agent.Sched.Outcome.{has_op}
use empower_enb_agent.Sched.Consume.{flush_triggers, dump_queues}
use empower_enb_agent.Sched.Loop.{sched_stop}
use empower_enb_agent.Net.Start.{net_stop}
use empower_enb_agent.Core.{Core, world_of, behind}
use empower_enb_agent.Core.Library.{Library, emlog, core_initialize, core_release_agent}
use empower_enb_agent.Core.Stop.{em_stop, shut_down, stop_loop, end_agent}
use empower_enb_agent.Core.Heap.{Owned, stop_loop-live, agents_blocks}

-- The release of an agent never closes its socket: the descriptor is as before, and no call of
-- `close`, or of anything else outside, is made.
pub core_release_agent-socket :
    (h : Host) (w : World)
    → let w' = core_release_agent h w in
      (w'.agent.net.sockfd ≡ w.agent.net.sockfd) × (w'.out ≡ w.out)
unfolding core_release_agent flush_triggers net_stop sched_stop dump_queues
core_release_agent-socket h w = (refl, refl)

-- The calls of `release` by the end of these agents, on top of the calls made before.
abbrev pub releases : List Agent → List Event → List Event
releases [] out = out
releases (a ∷ rest) out = releases rest (if has_op (λ o. o.release) a then release ∷ out else out)

emitted_out :
    (b : Bool) (e : Event) (w : World)
    → (if b then emit e w else w).out ≡ (if b then e ∷ w.out else w.out)
unfolding emit
emitted_out true e w = refl
emitted_out false e w = refl

module _ (h : Host) where
  end_agent_out :
      (w : World)
      → (end_agent h w).out ≡ (if has_op (λ o. o.release) w.agent then release ∷ w.out else w.out)
  unfolding end_agent
  end_agent_out w =
      (core_release_agent-socket h _).1 ∙ emitted_out (has_op (λ o. o.release) w.agent) release w

  stop_loop-releases :
      (fuel : ℕ) (agents : List Agent) (c : Core)
      → length agents < fuel
      → (c' : Core) × (stop_loop h fuel (record c { agents = agents }) ≡ some c')
        × (c'.out ≡ releases agents c.out)
  unfolding stop_loop
  stop_loop-releases zero agents c lt = absurd (omega arith)
  stop_loop-releases (suc fuel) [] c lt = (record c { agents = [] }, refl, refl)
  stop_loop-releases (suc fuel) (a ∷ rest) c lt =
      let (c', p, q) =
        stop_loop-releases fuel rest (behind rest (end_agent h (world_of c a))) (omega arith) in
      (
        c',
        rw (h.list_del_unlinks [] a rest) p,
        q ∙ ap (releases rest) (end_agent_out (world_of c a)),
      )

  -- `em_stop` ends, and has called `release` once for each agent that sets it and nothing else:
  -- no socket is closed.
  pub em_stop-releases :
      (lib : Library)
      → (lib' : Library) × (em_stop h lib ≡ some lib')
        × (lib'.core.out ≡ releases lib.core.agents lib.core.out)
  unfolding em_stop shut_down emlog
  em_stop-releases lib =
      let (c, p, q) =
        stop_loop-releases (suc (length lib.core.agents)) lib.core.agents lib.core (omega arith) in
      (_, ap (shut_down lib) p, q)

-- What `em_stop` leaves of the log.
record Unlogged (lib : Library) (c : Core) (lib' : Library) : Type 0 where
  same_core : lib'.core ≡ c
  same_init : lib'.core_init ≡ lib.core_init
  closed : lib'.log.log_fd ≡ false

shut_down-Unlogged :
    (lib : Library) (c : Core)
    → (lib' : Library) × (shut_down lib (some c) ≡ some lib') × Unlogged lib c lib'
unfolding shut_down emlog
shut_down-Unlogged lib c = (_, refl, record { same_core = refl; same_init = refl; closed = refl })

shut_down-broken :
    (lib : Library) (c : Core)
    → lib.log.log_fd ≡ false
    → (lib' : Library) × (shut_down lib (some c) ≡ some lib') × (lib'.broken ≡ true)
unfolding shut_down emlog
shut_down-broken lib c e = (_, refl, ground arith)

stays_closed :
    (opens : Bool) (lib : Library) (a : Option Agent) (proc msg : List ℕ)
    → lib.core_init ≡ true
    → lib.log.log_fd ≡ false
    → (emlog (core_initialize opens lib) a proc msg).broken ≡ true
unfolding emlog core_initialize
stays_closed opens lib a proc msg i c = ground arith

-- The log is not opened again after `em_stop`: the first message that is logged in a later start,
-- and the one of a second `em_stop`, are written to a null pointer, whether or not the file could be
-- opened. The library has been started once, and its agents hold every block beside `k` others.
pub em_stop-log :
    (h : Host) (k : ℕ) (opens : Bool) (lib : Library) (a : Option Agent) (proc msg : List ℕ)
    → Owned k lib.core
    → lib.core_init ≡ true
    → (lib' : Library) × (lib'' : Library) × (em_stop h lib ≡ some lib')
      × ((emlog (core_initialize opens lib') a proc msg).broken ≡ true)
      × (em_stop h lib' ≡ some lib'')
      × (lib''.broken ≡ true)
unfolding em_stop
em_stop-log h k opens lib a proc msg own init =
    let agents = lib.core.agents in
    let (c, p, none_left, freed) =
      stop_loop-live h k (suc (length agents)) agents lib.core (omega arith) own in
    let (lib', q, shut) = shut_down-Unlogged lib c in
    let agents' = lib'.core.agents in
    let own' : Owned k lib'.core = omega (
      arith,
      freed,
      ap (λ x. x.mem.live) shut.same_core,
      ap (λ x. agents_blocks x.agents) shut.same_core,
      ap agents_blocks none_left,
    ) in
    let (c', p', _, _) =
      stop_loop-live h k (suc (length agents')) agents' lib'.core (omega arith) own' in
    let (lib'', q', broken) = shut_down-broken lib' c' shut.closed in
    (
      lib',
      lib'',
      ap (shut_down lib) p ∙ q,
      stays_closed opens lib' a proc msg (shut.same_init ∙ init) shut.closed,
      ap (shut_down lib') p' ∙ q',
      broken,
    )
