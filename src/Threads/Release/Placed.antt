-- ===== src/Threads/Release/Placed.antt =====
-- What the scheduler keeps a pointer for.
use empower_enb_agent.Base.{◌≡◌, ◌⊎◌, inl, inr}
use empower_enb_agent.Agent.{World, Host}
use empower_enb_agent.Task.{TaskType}
use empower_enb_agent.Threads.{find_measure, find_cell, Sched, looking, SchedMove}
use empower_enb_agent.Threads.Together.{
  System, Moves, by_sched, by_net, halt, halt_net, em_send, em_send_refused, em_del_trigger, start,
  later,
}

-- A pointer that the scheduler keeps is for a measurement.
abbrev pub IsPlaced : Sched → Type 0
IsPlaced (looking t now trig) = (t.kind ≡ TaskType.ue_measure) ⊎ (t.kind ≡ TaskType.cell_measure)
IsPlaced _ = Unit

SchedMove-IsPlaced : (h : Host) (w w' : World) (p p' : Sched) → SchedMove h w p w' p' → IsPlaced p'
SchedMove-IsPlaced h w w' p p' (find_measure kind due set found) = inl kind
SchedMove-IsPlaced h w w' p p' (find_cell kind due set pos found) = inr kind
SchedMove-IsPlaced h w w' p p' mv = tt

pub Moves-IsPlaced :
    (h : Host) (s s' : System) → Moves h s s' → IsPlaced s.sched → IsPlaced s'.sched
Moves-IsPlaced h s s' start x = x
Moves-IsPlaced h s s' (later {s1} more (by_sched {w} {p} mv)) x =
    SchedMove-IsPlaced h s1.world w s1.sched p mv
Moves-IsPlaced h s s' (later {s1} more (by_net mv)) x = Moves-IsPlaced h s s1 more x
Moves-IsPlaced h s s' (later {s1} more (em_send msg size go)) x = Moves-IsPlaced h s s1 more x
Moves-IsPlaced h s s' (later {s1} more (em_send_refused msg size stop)) x =
    Moves-IsPlaced h s s1 more x
Moves-IsPlaced h s s' (later {s1} more (em_del_trigger id)) x = Moves-IsPlaced h s s1 more x
Moves-IsPlaced h s s' (later {s1} more halt) x = Moves-IsPlaced h s s1 more x
Moves-IsPlaced h s s' (later {s1} more halt_net) x = Moves-IsPlaced h s s1 more x
