-- ===== src/Core.antt =====
-- agent/core.c: the agents of the library, and the calls of the public API on one of them. Each
-- call holds the lock of the list for its whole access to it, so it is one step.
pub mod Api
pub mod Library
pub mod Start
pub mod Stop
pub mod Heap
pub mod Ids
pub mod Begin
pub mod Defined
pub mod Faults
pub mod Race
use empower_enb_agent.Base.{
  ℕ, Bool, Option, none, some, List, [], ◌∷◌, ◌==◌, minus_one, if◌then◌else◌,
}
use empower_enb_agent.Agent.{Agent, Event, World, Host, NetStatus, connected, not_connected}
use empower_enb_agent.Memory.{Mem}
use empower_enb_agent.Proto.{Msg}
use empower_enb_agent.Task.{TaskType}
use empower_enb_agent.Trigger.{Trigger, trig_find_by_id}
use empower_enb_agent.Net.Handlers.{new_task, queue_new, del_trigger_id}

-- The agents, and what they share: the heap, the platform, the calls made to the outside.
pub record Core : Type 0 where
  pub agents : List Agent
  pub mem : Mem
  pub asked : ℕ
  pub out : List Event

abbrev pub world_of : Core → Agent → World
world_of c a = record { agent = a; mem = c.mem; asked = c.asked; out = c.out }

-- The core after work on one of its agents, whose place is left to the caller.
abbrev pub behind : List Agent → World → Core
behind ts w = record { agents = ts; mem = w.mem; asked = w.asked; out = w.out }

module _ {ℓ} {R : Type ℓ} where
  -- `list_for_each_entry(a, &core_agents, next) if(a->enb_id == enb_id) { r = body; break; }`: the
  -- agents afterwards, the rest of the core, and `r`, with its first value if no agent is found.
  unfoldable pub first_agent :
      ℕ → R → (World → World × R) → List Agent → Core → List Agent × Core × R
  first_agent enb_id r body [] c = ([], c, r)
  first_agent enb_id r body (a ∷ rest) c =
      let (w, r') = body (world_of c a) in
      let (rest', c', r'') = first_agent enb_id r body rest c in
      if a.enb_id == enb_id then (w.agent ∷ rest, behind c.agents w, r') else (a ∷ rest', c', r'')

  -- The same on the list of the core.
  unfoldable pub on_agent : ℕ → R → (World → World × R) → Core → Core × R
  unfolding first_agent
  on_agent enb_id r body c =
      let (agents, c', r') = first_agent enb_id r body c.agents c in
      (record c' { agents = agents }, r')

-- `t ? 1 : 0`
abbrev pub present : Option Trigger → ℕ
present none = 0
present (some t) = 1

abbrev pub has_body : ℕ → World → World × ℕ
has_body tid w = (w, present (trig_find_by_id w.agent.trig tid))

unfoldable pub em_has_trigger : ℕ → ℕ → Core → Core × ℕ
em_has_trigger enb_id tid c = on_agent enb_id 0 (has_body tid) c

-- The result of `trig_del_by_id` is not used, and `t` stays null.
abbrev pub del_body : Host → ℕ → World → World × ℕ
del_body h tid w = ((del_trigger_id h w tid).0, 0)

unfoldable pub em_del_trigger : Host → ℕ → ℕ → Core → Core × ℕ
em_del_trigger h enb_id tid c = on_agent enb_id 0 (del_body h tid) c

abbrev pub status_code : NetStatus → ℕ
status_code not_connected = 0
status_code connected = 1

unfoldable pub em_is_connected : ℕ → Core → Core × ℕ
em_is_connected enb_id c = on_agent enb_id 0 (λ w. (w, status_code w.agent.net.status)) c

-- The line that is logged where the allocation fails is not followed.
unfoldable pub core_send : Host → World → Msg → ℕ → World × ℕ
core_send h w msg size = queue_new h (new_task h w TaskType.send 1 0 0 msg size)

unfoldable pub em_send : Host → ℕ → Msg → ℕ → Core → Core × ℕ
em_send h enb_id none size c = (c, minus_one)
em_send h enb_id (some bytes) size c =
    let r = on_agent enb_id minus_one (λ w. core_send h w (some bytes) size) c in
    if size == 0 then (c, minus_one) else r
