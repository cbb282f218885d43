-- ===== src/Examples/Race.antt =====
-- Two more agents on a library that has the agents 3 and 4.
use empower_enb_agent.Base.{◌≡◌, refl, []}
use empower_enb_agent.Agent.{Agent}
use empower_enb_agent.Core.Start.{running}
use empower_enb_agent.Core.Ids.{Unique}
use empower_enb_agent.Core.Race.{Starting, Overlapping, Overlapping-duplicates}
use empower_enb_agent.Examples.Demo.{host}
use empower_enb_agent.Examples.Library.{loaded, busy}

abbrev third : Agent
third = record busy { enb_id = 5 }

Overlapping-duplicates_example :
    (s : Starting) × Overlapping host (record { lib = loaded; pending = [] }) s
    × (s.pending ≡ [])
    × (¬ Unique s.lib.core.agents)
unfolding running
Overlapping-duplicates_example = Overlapping-duplicates host loaded third third refl refl
