-- ===== src/Examples/Release.antt =====
-- The release of an agent that has a message to send.
use empower_enb_agent.Base.{◌+◌, ◌*◌, ◌≤◌, ◌≡◌, ◌⊎◌, refl, some, [], ◌∷◌, length}
use empower_enb_agent.Sched.Consume.{dump_queues, flush_triggers}
use empower_enb_agent.Sched.Loop.{stop_sched}
use empower_enb_agent.Threads.{asleep, ready, ended, pop, finish, leave, over}
use empower_enb_agent.Threads.Together.{
  System, Moves, by_sched, by_net, em_send_refused, halt, halt_net, start, later,
}
use empower_enb_agent.Threads.Heap.{lost}
use empower_enb_agent.Threads.Release.Stopped.{Released, Moves-Released}
use empower_enb_agent.Threads.Release.Bounded.{sched_steps, Next, Moves-ends}
use empower_enb_agent.Examples.Interleaving.{loaded, from}
use empower_enb_agent.Examples.Demo.{host, send_task}

-- Both threads are stopped and end, and a message comes after that.
abbrev closing :
    (s : System) × (ms : Moves host (from loaded asleep) s) × (s.sched ≡ ended) × (s.net ≡ over)
unfolding dump_queues
closing = (
  _,
  later
      (later (later (later (later start halt) (by_sched (finish refl))) halt_net)
        (by_net (leave refl)))
      (em_send_refused (some (8 ∷ [])) 1 refl),
  refl,
  refl,
)

Moves-Released_example : Released (1 + lost closing.1) (flush_triggers host closing.0.world)
Moves-Released_example =
    Moves-Released host 1 (from loaded asleep) closing.0 closing.1 refl tt closing.2 closing.3

abbrev halted : System
halted = from (stop_sched loaded) ready

-- The task of the queue is taken, after the stop.
abbrev taken : (s : System) × Moves host halted s
taken = (_, later start (by_sched (pop refl)))

Moves-ends_example :
    (sched_steps taken.1 ≤ 4 * length (send_task ∷ []) + 6)
    × ((taken.0.sched ≡ ended) ⊎ Next host taken.0)
Moves-ends_example = Moves-ends host halted taken.0 taken.1 tt refl
