-- ===== src/Examples/Library.antt =====
-- The library on two agents, each with the trigger 1, and on none.
use empower_enb_agent.Text.{codes}
use empower_enb_agent.Base.{none, ◌≡◌, refl, true, false, some, [], ◌∷◌, arith}
use empower_enb_agent.Agent.{Agent, release}
use empower_enb_agent.Sched.Outcome.{has_op}
use empower_enb_agent.Core.Library.{Library, emlog, core_initialize}
use empower_enb_agent.Core.Start.{Answers, running, em_start}
use empower_enb_agent.Core.Stop.{em_stop, em_terminate_agent}
use empower_enb_agent.Core.Heap.{em_stop-frees}
use empower_enb_agent.Core.Ids.{Terminated, em_terminate_agent-Terminated}
use empower_enb_agent.Core.Begin.{IsTame, Started}
use empower_enb_agent.Core.Defined.{em_start-Started}
use empower_enb_agent.Core.Faults.{em_stop-releases, em_stop-log}
use empower_enb_agent.Examples.Demo.{host, all_ops, agent_with, send_task, report_task}

abbrev pub busy : Agent
busy = (agent_with (send_task ∷ report_task ∷ []) 4).agent

abbrev quiet : Agent
quiet = record busy { enb_id = 4 }

-- 11 blocks: of each agent its own, two tasks, a message and a trigger; and one of the wrapper.
abbrev pub loaded : Library
loaded = record {
  core = record {
    agents = busy ∷ quiet ∷ [];
    mem = record { calls = 0; live = 11 };
    asked = 0;
    out = [];
  };
  core_init = true;
  log = record { log_fd = true; text = [] };
  broken = false;
}

abbrev pub answers : Answers
answers = record {
  opens = true;
  sched_created = true;
  net_created = true;
  init_result = 0;
  work = λ w. w;
}

abbrev tame : IsTame answers.work
tame = record { same_id = λ w. refl; balanced = λ j w b. b }

em_start-Started_example :
    let r = em_start host answers loaded 5 (some all_ops) (49 ∷ 48 ∷ []) 2210 in
    (r.0.broken ≡ false) × Started 1 5 loaded.core.agents r
unfolding running core_initialize
em_start-Started_example =
    em_start-Started host answers 1 5 tame loaded (some all_ops) (49 ∷ 48 ∷ []) 2210
      (refl, (refl, tt)) refl refl (omega arith) refl refl

em_terminate_agent-Terminated_example : Terminated 1 4 loaded (em_terminate_agent host loaded 4).0
unfolding running
em_terminate_agent-Terminated_example =
    em_terminate_agent-Terminated host 1 4 loaded (refl, (refl, tt)) refl

em_stop-frees_example :
    (lib1 : Library) × (em_stop host loaded ≡ some lib1)
    × (lib1.core.agents ≡ [])
    × (lib1.core.mem.live ≡ 1)
em_stop-frees_example = em_stop-frees host 1 loaded refl

em_stop-releases_example :
    (lib1 : Library) × (em_stop host loaded ≡ some lib1) × (lib1.core.out ≡ release ∷ release ∷ [])
unfolding has_op
em_stop-releases_example = em_stop-releases host loaded

em_stop-log_example :
    (lib1 : Library) × (lib2 : Library) × (em_stop host loaded ≡ some lib1)
    × ((emlog (core_initialize true lib1) none (codes "em_start") []).broken ≡ true)
    × (em_stop host lib1 ≡ some lib2)
    × (lib2.broken ≡ true)
em_stop-log_example = em_stop-log host 1 true loaded none (codes "em_start") [] refl refl
