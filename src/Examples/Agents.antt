-- ===== src/Examples/Agents.antt =====
-- The library with its threads and the calls of its API in small steps.
use empower_enb_agent.Base.{◌+◌, refl, false, some, [], ◌∷◌, minus_one}
use empower_enb_agent.Core.Library.{Library}
use empower_enb_agent.Core.Start.{Answers, running, em_start}
use empower_enb_agent.Threads.{asleep}
use empower_enb_agent.Agents.{listed, Agents, among, sends, releases, halts, act}
use empower_enb_agent.Agents.Calls.{Calling, Calls, acts, tests, takes_first, none_yet, calls_then}
use empower_enb_agent.Agents.Course.{Course}
use empower_enb_agent.Agents.Held.{Held, lost_calling, Calls-Held}
use empower_enb_agent.Agents.Ends.{resting_core}
use empower_enb_agent.Agents.Begins.{em_start-Course}
use empower_enb_agent.Examples.Demo.{host, all_ops}
use empower_enb_agent.Examples.Library.{loaded, answers}
use empower_enb_agent.Examples.Interleaving.{from}
use empower_enb_agent.Examples.Interleaving

-- One agent; its own block is the fourth.
abbrev alone : Agents
alone = among [] (from Interleaving.loaded asleep) listed []

abbrev at_first : Calling
at_first = record { agents = alone; stopping = 0; broken = false }

-- A message is queued, and then em_stop finds the agent and takes it, and its release begins.
abbrev calls : (c : Calling) × Calls host at_first c
calls = (
  _,
  calls_then
      (calls_then
        (calls_then
          (calls_then (calls_then none_yet (acts (act [] [] (sends (some (8 ∷ [])) 1))))
            (tests refl))
          (takes_first _ [] []))
        (acts (act [] [] releases)))
      (acts (act [] [] halts)),
)

Calls-Held_example : Held (0 + lost_calling host calls.1) calls.0.agents
Calls-Held_example =
    Calls-Held host 0 at_first calls.0 calls.1 refl
      (record { live = refl; well = ((refl, tt), tt) })

-- A third agent, whose `init` returns an error.
abbrev refusing : Answers
refusing = record answers { init_result = minus_one }

em_start-Course_example :
    Course host
      (resting_core loaded.core)
      (resting_core (em_start host refusing loaded 5 (some all_ops) (49 ∷ 48 ∷ []) 2210).0.core)
      1
      1
unfolding running
em_start-Course_example =
    em_start-Course host refusing loaded 5 (some all_ops) (49 ∷ 48 ∷ []) 2210 (λ w. refl) refl refl
