-- ===== src/Examples/Api.antt =====
-- The public API on two agents, each with the trigger 1.
use empower_enb_agent.Base.{◌≡◌, [], ◌∷◌, arith}
use empower_enb_agent.Agent.{Agent}
use empower_enb_agent.Core.{Core, em_has_trigger, em_del_trigger}
use empower_enb_agent.Core.Api.{em_del_trigger-has}
use empower_enb_agent.Examples.Demo.{host, agent_with}

abbrev one : Agent
one = (agent_with [] 1).agent

abbrev two : Agent
two = record one { enb_id = 4 }

abbrev core : Core
core = record { agents = one ∷ two ∷ []; mem = record { calls = 0; live = 2 }; asked = 0; out = [] }

em_del_trigger-has_example :
    (em_has_trigger 4 1 (em_del_trigger host 3 1 core).0).1 ≡ (em_has_trigger 4 1 core).1
em_del_trigger-has_example =
    em_del_trigger-has host 1 1 3 4 core ((omega arith, tt), ((omega arith, tt), tt))
