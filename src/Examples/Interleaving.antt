-- ===== src/Examples/Interleaving.antt =====
-- The two threads of an agent with the trigger 1, which has a message to send and a measurement to
-- make.
use empower_enb_agent.Base.{◌+◌, ◌≡◌, refl, true, none, some, [], ◌∷◌, arith}
use empower_enb_agent.Agent.{World, sent, closed}
use empower_enb_agent.Task.{Task, TaskType}
use empower_enb_agent.Trigger.{trig_find_by_id}
use empower_enb_agent.Sched.Outcome.{has_op, write_seq}
use empower_enb_agent.Sched.Time.{is_early, ts_diff_to_ms}
use empower_enb_agent.Core.{core_send}
use empower_enb_agent.Net.Connect.{Socket}
use empower_enb_agent.Threads.{Sched, ready, holding, looking, listening, pop, perform}
use empower_enb_agent.Threads.Together.{System, Moves, by_sched, em_send, start, later}
use empower_enb_agent.Sched.Sequence.{begun}
use empower_enb_agent.Threads.Numbers.{Numbered, resets, Moves-Numbered}
use empower_enb_agent.Threads.Heap.{InBalance, lost, Moves-InBalance}
use empower_enb_agent.Threads.Pointers.{IsSafe, Move-IsSafe}
use empower_enb_agent.Threads.Races.{Moves-dangling, Moves-stale}
use empower_enb_agent.Examples.Demo.{host, idle_task, send_task, old_trigger, agent_with}

abbrev pub loaded : World
loaded = agent_with (send_task ∷ []) 4

abbrev measure_task : Task
measure_task = record idle_task { kind = TaskType.ue_measure; trig = 1 }

abbrev pub from : World → Sched → System
from w p = record { world = w; sched = p; net = listening }

-- The message is taken off the queue, another comes in, and the first is sent.
abbrev pub steps : (s : System) × Moves host (from loaded ready) s
steps = (
  _,
  later (later (later start (by_sched (pop refl))) (em_send (some (8 ∷ [])) 1 refl))
      (by_sched perform),
)

Moves-InBalance_example : InBalance (1 + lost steps.1) steps.0
Moves-InBalance_example = Moves-InBalance host 1 (from loaded ready) steps.0 steps.1 refl

Moves-dangling_example :
    (s : System) × Moves host (from loaded (holding measure_task)) s
    × (s.sched ≡ looking measure_task (host.clock 0) old_trigger)
    × (trig_find_by_id s.world.agent.trig 1 ≡ none)
unfolding is_early ts_diff_to_ms has_op trig_find_by_id
Moves-dangling_example =
    Moves-dangling host loaded listening measure_task old_trigger refl refl refl refl
      (omega arith, tt)

-- The scheduler has found the trigger, and a message comes to the queue.
Move-IsSafe_example : IsSafe (record {
  world = (core_send host loaded (some (8 ∷ [])) 1).0;
  sched = looking measure_task (host.clock 0) old_trigger;
  net = listening;
})
unfolding trig_find_by_id
Move-IsSafe_example =
    Move-IsSafe host (from loaded (looking measure_task (host.clock 0) old_trigger)) _
      (em_send (some (8 ∷ [])) 1 refl) refl ((omega arith, tt), omega arith)
      (record { of_sched = refl; of_net = tt })

abbrev accepted_here : Socket
accepted_here = record { eagain = true; bytes = []; ans = [] }

Moves-stale_example :
    (s : System) × Moves host (from loaded (holding send_task)) s
    × (s.world.agent.net.sockfd ≡ 9)
    × (s.world.agent.net.seq ≡ 0)
    × (s.world.out ≡ sent (some (17 ∷ 5 ∷ 6 ∷ [])) 2 ∷ closed 4 ∷ [])
unfolding is_early ts_diff_to_ms write_seq
Moves-stale_example =
    Moves-stale host loaded send_task 9 accepted_here refl refl refl refl refl refl

-- The message of `steps`, sent with the number 17 of the connection.
Moves-Numbered_example : Numbered host [] 17 (resets steps.1 0) steps.0
Moves-Numbered_example = Moves-Numbered host [] 17 0 (from loaded ready) steps.0 steps.1 refl begun
