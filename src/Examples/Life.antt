-- ===== src/Examples/Life.antt =====
-- An agent that handles a request for reports, runs its scheduler, sends, and loses a trigger.
use empower_enb_agent.Base.{refl, some, [], ◌∷◌, arith}
use empower_enb_agent.Agent.{World}
use empower_enb_agent.Net.Dispatch.{net_process_message}
use empower_enb_agent.Net.Handlers.{del_trigger_id}
use empower_enb_agent.Net.Link.{net_not_connected}
use empower_enb_agent.Life.{Steps, message, reset, del_trigger, done, step}
use empower_enb_agent.Life.Sound.{IsSound, Steps-IsSound}
use empower_enb_agent.Examples.Demo.{host, agent_with, send_task}

abbrev fresh : World
fresh = agent_with [] 1

-- A request for reports of module 5 is handled.
abbrev asked : World
asked = (net_process_message host fresh (some (0 ∷ 0 ∷ 1 ∷ 5 ∷ [])) 4).0

fresh-IsSound : IsSound 0 10 fresh
fresh-IsSound = record {
  balanced = refl;
  no_todo = refl;
  room = ((omega arith, tt), omega arith);
  proper = refl;
}

abbrev lived : Steps host 1 fresh (del_trigger_id host (net_not_connected asked) 2).0
lived = step (message (some (0 ∷ 0 ∷ 1 ∷ 5 ∷ [])) 4 refl) (step reset (step (del_trigger 2) done))

Steps-IsSound_example : IsSound 0 9 (del_trigger_id host (net_not_connected asked) 2).0
Steps-IsSound_example = Steps-IsSound host 0 9 1 fresh _ lived fresh-IsSound

-- A run with a message to send.
abbrev sending : World
sending = agent_with (send_task ∷ []) 3
