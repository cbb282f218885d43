-- ===== src/Core/Stop.antt =====
-- agent/core.c, lines 437 to 485 and 619 to 664: the end of an agent, and of the library.
use empower_enb_agent.Base.{
  ℕ, zero, suc, Option, none, some, List, [], ◌∷◌, ◌++◌, ◌==◌, length, if◌then◌else◌,
}
use empower_enb_agent.Agent.{Agent, World, Host, release, emit}
use empower_enb_agent.Log.{log_release}
use empower_enb_agent.Sched.Outcome.{has_op}
use empower_enb_agent.Core.{Core, world_of, behind}
use empower_enb_agent.Text.{codes}
use empower_enb_agent.Core.Library.{Library, set_core, emlog, core_release_agent}

-- `if(a->ops && a->ops->release) a->ops->release(); core_release_agent(a);`
unfoldable pub end_agent : Host → World → World
unfolding has_op
end_agent h w = core_release_agent h (if has_op (λ o. o.release) w.agent then emit release w else w)

-- `list_for_each_entry_safe(…) if(a->enb_id == enb_id) { list_del(&a->next); … break; }`, with the
-- entries walked already: the new list and the agent.
unfoldable pub take_agent : Host → ℕ → List Agent → List Agent → Option (List Agent × Agent)
take_agent h enb_id before [] = none
take_agent h enb_id before (a ∷ after) =
    if a.enb_id == enb_id
    then some (h.list_del before a after, a)
    else take_agent h enb_id (before ++ a ∷ []) after

unfoldable pub terminated : Host → Library → Option (List Agent × Agent) → Library
unfolding end_agent
terminated h lib none = lib
terminated h lib (some (agents, a)) =
    set_core (behind agents (end_agent h (world_of lib.core a))) lib

-- The result is 0 also where no agent is found.
unfoldable pub em_terminate_agent : Host → Library → ℕ → Library × ℕ
unfolding take_agent terminated
em_terminate_agent h lib enb_id = (terminated h lib (take_agent h enb_id [] lib.core.agents), 0)

-- `while(!list_empty(&core_agents)) { … }`, on fuel.
unfoldable pub stop_loop : Host → ℕ → Core → Option Core
unfolding end_agent
stop_loop h zero c = none
stop_loop h (suc fuel) c = elim c.agents [
  | [] ↦ some c
  | a ∷ rest ↦ stop_loop h fuel (behind (h.list_del [] a rest) (end_agent h (world_of c a)))
]

-- After the loop: EMLOG, and the log is closed; `core_init` stays as it is.
unfoldable pub shut_down : Library → Option Core → Option Library
unfolding emlog log_release
shut_down lib none = none
shut_down lib (some c) =
    let logged = emlog (set_core c lib) none (codes "em_stop") (codes "Core shut down\n") in
    some (record logged { log = log_release logged.log })

unfoldable pub em_stop : Host → Library → Option Library
unfolding shut_down
em_stop h lib = shut_down lib (stop_loop h (suc (length lib.core.agents)) lib.core)
