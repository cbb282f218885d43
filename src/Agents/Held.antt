-- ===== src/Agents/Held.antt =====
-- The heap of the library, whatever its threads and the calls of its API do.
use empower_enb_agent.Base.{
  ℕ, suc, ◌+◌, ◌≡◌, refl, ap, ◌∙◌, subst, Bool, true, false, List, [], ◌∷◌, ◌++◌, arith,
  if◌then◌else◌,
}
use empower_enb_agent.Agent.{World, Host, Event, emit}
use empower_enb_agent.Memory.{Mem, malloc, free}
use empower_enb_agent.Sched.Outcome.{has_op}
use empower_enb_agent.Sched.Loop.{sched_start}
use empower_enb_agent.Net.Start.{net_start}
use empower_enb_agent.Core.Heap.{agent_blocks, called-Balanced}
use empower_enb_agent.Threads.{ended, over}
use empower_enb_agent.Threads.Together.{
  System, by_sched, by_net, em_send, em_del_trigger, halt, halt_net,
}
use empower_enb_agent.Threads.Heap.{InBalance, Move-InBalance}
use empower_enb_agent.Threads.Heap.Performing.{sched_hand}
use empower_enb_agent.Threads.Heap.Handling.{net_hand, net_lost}
use empower_enb_agent.Threads.Release.Stopped.{IsClosed, same-Gone, flushed-Released}
use empower_enb_agent.Agents.{
  Place, started, called, listed, taken, leaving, OnAgent, sched_moves, net_moves, sends, deletes,
  inits, refuses, lists, takes, releases, halts, halts_net, Member, member, Agents, with_members,
  among, freed, Act, create, no_memory, act, vanish,
}
use empower_enb_agent.Agents.Calls.{
  Calling, Calls, acts, tests, takes_first, takes_head, none_yet, calls_then,
}
use empower_enb_agent.Agents.Running.{IsRunning, OnAgent-IsRunning, OnAgent-IsClosed}

-- The blocks of an agent: its own, and those of its tasks, its triggers and its threads' hands.
abbrev pub member_blocks : Member → ℕ
member_blocks m = agent_blocks m.agent + sched_hand m.sched + net_hand m.net

abbrev pub members_blocks : List Member → ℕ
members_blocks [] = 0
members_blocks (m ∷ rest) = member_blocks m + members_blocks rest

-- An agent by itself.
abbrev alone : Member → System
alone m = record {
  world = record { agent = m.agent; mem = record { calls = 0; live = 0 }; asked = 0; out = [] };
  sched = m.sched;
  net = m.net;
}

-- Its scheduler takes tasks before the release of the agent, and has none once it has ended.
abbrev pub IsWell : Member → Type 0
IsWell m = IsRunning m.place (alone m) × IsClosed (alone m)

abbrev pub AllWell : List Member → Type 0
AllWell [] = Unit
AllWell (m ∷ rest) = IsWell m × AllWell rest

-- Every block beside `k` others is one of an agent, and the agents are well.
pub record Held (k : ℕ) (s : Agents) : Type 0 where
  pub live : s.mem.live ≡ k + members_blocks s.members
  pub well : AllWell s.members

-- The blocks of the tasks that a stopped scheduler refused.
abbrev pub lost_on : {h : Host} {s s' : System} {x x' : Place} → OnAgent h s x s' x' → ℕ
lost_on (net_moves mv) = net_lost mv
lost_on _ = 0

abbrev pub lost_in : {h : Host} {s s' : Agents} → Act h s s' → ℕ
lost_in (act before after on) = lost_on on
lost_in _ = 0

blocks_among :
    (before : List Member) (m : Member) (after : List Member)
    → members_blocks (before ++ m ∷ after)
      ≡ members_blocks before + (member_blocks m + members_blocks after)
blocks_among [] m after = omega arith
blocks_among (b ∷ rest) m after = omega (arith, blocks_among rest m after)

blocks_append :
    (before after : List Member)
    → members_blocks (before ++ after) ≡ members_blocks before + members_blocks after
blocks_append [] after = omega arith
blocks_append (b ∷ rest) after = omega (arith, blocks_append rest after)

at-IsWell :
    (before : List Member) (m : Member) (after : List Member)
    → AllWell (before ++ m ∷ after)
    → IsWell m
at-IsWell [] m after w = w.0
at-IsWell (b ∷ rest) m after w = at-IsWell rest m after w.1

well_instead :
    (before : List Member) (m m' : Member) (after : List Member)
    → AllWell (before ++ m ∷ after)
    → IsWell m'
    → AllWell (before ++ m' ∷ after)
well_instead [] m m' after w x = (x, w.1)
well_instead (b ∷ rest) m m' after w x = (w.0, well_instead rest m m' after w.1 x)

well_without :
    (before : List Member) (m : Member) (after : List Member)
    → AllWell (before ++ m ∷ after)
    → AllWell (before ++ after)
well_without [] m after w = w.1
well_without (b ∷ rest) m after w = (w.0, well_without rest m after w.1)

malloc-live :
    (ok : ℕ → Bool) (m m' : Mem) (got : Bool)
    → malloc ok m ≡ (m', got)
    → m'.live ≡ (if got then suc m.live else m.live)
unfolding malloc
malloc-live ok m m' got e =
    subst (λ x. x.0.live ≡ (if x.1 then suc m.live else m.live)) e (ground arith)

same-IsRunning :
    (x : Place) (s s' : System) → s'.world.agent ≡ s.world.agent → IsRunning x s → IsRunning x s'
same-IsRunning started s s' e r = ap (λ a. a.sched.stop) e ∙ r
same-IsRunning called s s' e r = ap (λ a. a.sched.stop) e ∙ r
same-IsRunning listed s s' e r = ap (λ a. a.sched.stop) e ∙ r
same-IsRunning taken s s' e r = ap (λ a. a.sched.stop) e ∙ r
same-IsRunning leaving s s' e r = tt

module _ (h : Host) where
  OnAgent-InBalance :
      (k : ℕ) (s s' : System) (x x' : Place)
      → (on : OnAgent h s x s' x') → IsRunning x s
      → InBalance k s
      → InBalance (k + lost_on on) s'
  unfolding emit
  OnAgent-InBalance k s s' x x' (sched_moves mv) r b = Move-InBalance h k s s' (by_sched mv) b
  OnAgent-InBalance k s s' x x' (net_moves mv) r b = Move-InBalance h k s s' (by_net mv) b
  OnAgent-InBalance k s s' x x' (sends msg size) r b =
      Move-InBalance h k s s' (em_send msg size r) b
  OnAgent-InBalance k s s' x x' (deletes id) r b = Move-InBalance h k s s' (em_del_trigger id) b
  OnAgent-InBalance k s s' x x' inits r b =
      let all = k + sched_hand s.sched + net_hand s.net in
      omega (arith, called-Balanced all (has_op (λ o. o.init) s.world.agent) Event.init s.world b)
  OnAgent-InBalance k s s' x x' (refuses set) r b = omega (arith, b)
  OnAgent-InBalance k s s' x x' lists r b = omega (arith, b)
  OnAgent-InBalance k s s' x x' takes r b = omega (arith, b)
  OnAgent-InBalance k s s' x x' releases r b =
      let all = k + sched_hand s.sched + net_hand s.net in
      omega
        (arith, called-Balanced all (has_op (λ o. o.release) s.world.agent) Event.release s.world b)
  OnAgent-InBalance k s s' x x' (halts) r b = Move-InBalance h k s s' halt b
  OnAgent-InBalance k s s' x x' (halts_net joined) r b = Move-InBalance h k s s' halt_net b

  act-Held :
      (k : ℕ) (before after : List Member) (s s' : System) (x x' : Place)
      → (on : OnAgent h s x s' x') → Held k (among before s x after)
      → Held (k + lost_on on) (among before s' x' after)
  act-Held k before after s s' x x' on held =
      let m = member s x in
      let (runs, closed) = at-IsWell before m after held.well in
      let r = same-IsRunning x (alone m) s refl runs in
      let c = same-Gone s.sched (alone m).world s.world refl closed in
      let others = suc (k + members_blocks before + members_blocks after) in
      let b =
        OnAgent-InBalance others s s' x x' on r
          (omega (arith, held.live, blocks_among before m after)) in
      let m' = member s' x' in
      record {
        live = omega (arith, b, blocks_among before m' after);
        well = well_instead before m m' after held.well (
          same-IsRunning x' s' (alone m') refl (OnAgent-IsRunning h s s' x x' on r),
          same-Gone s'.sched s'.world (alone m').world refl (OnAgent-IsClosed h s s' x x' on r c),
        );
      }

  vanish-Held :
      (k : ℕ) (before after : List Member) (w : World)
      → Held k (among before (record { world = w; sched = ended; net = over }) leaving after)
      → Held k (with_members (before ++ after) (freed h w))
  unfolding free
  vanish-Held k before after w held =
      let s : System = record { world = w; sched = ended; net = over } in
      let m = member s leaving in
      let idle = same-Gone ended (alone m).world w refl (at-IsWell before m after held.well).1 in
      let others = suc (k + members_blocks before + members_blocks after) in
      let f =
        flushed-Released h others w idle (omega (arith, held.live, blocks_among before m after)) in
      record {
        live = omega (arith, f.live, blocks_append before after);
        well = well_without before m after held.well;
      }

  Act-Held : (k : ℕ) (s s' : Agents) → (a : Act h s s') → Held k s → Held (k + lost_in a) s'
  unfolding sched_start net_start
  Act-Held k s s' (create {m} enb_id ops addr port e) held = record {
    live = omega (arith, held.live, malloc-live h.malloc_ok s.mem m true e);
    well = ((refl, tt), held.well);
  }
  Act-Held k s s' (no_memory {m} e) held = record {
    live = omega (arith, held.live, malloc-live h.malloc_ok s.mem m false e);
    well = held.well;
  }
  Act-Held k s s' (act {s = s1} {s' = s2} {x} {x'} before after on) held =
      act-Held k before after s1 s2 x x' on held
  Act-Held k s s' (vanish w before after) held =
      subst (λ n. Held n (with_members (before ++ after) (freed h w))) (omega arith)
        (vanish-Held k before after w held)

  abbrev pub lost_calling : {c c' : Calling} → Calls h c c' → ℕ
  lost_calling none_yet = 0
  lost_calling (calls_then more (acts a)) = lost_calling more + lost_in a
  lost_calling (calls_then more call) = lost_calling more

  -- Over the whole library, with any number of agents, each with its two threads in small steps, and
  -- calls of em_start that get their threads, em_terminate_agent, em_stop, em_send and
  -- em_del_trigger that overlap in any order, whichever calls of `malloc` fail, as long as no em_stop
  -- takes an agent of a list that another call has emptied after its test: every block beside `k`
  -- others is one of an agent, or of a task that a stopped scheduler refused to the network thread of
  -- an agent that is being released; an agent whose release has not begun takes tasks, so that
  -- em_send loses none; and a scheduler that has ended has no tasks; where it was so before and none
  -- was refused yet.
  pub Calls-Held :
      (k : ℕ) (c c' : Calling)
      → (cs : Calls h c c') → c'.broken ≡ false
      → Held k c.agents
      → Held (k + lost_calling cs) c'.agents
  Calls-Held k c c' none_yet whole held = subst (λ n. Held n c.agents) (omega arith) held
  Calls-Held k c c' (calls_then {c1} more (acts a)) whole held =
      subst (λ n. Held n c'.agents) (omega arith)
        (Act-Held (k + lost_calling more) c1.agents c'.agents a (Calls-Held k c c1 more whole held))
  Calls-Held k c c' (calls_then {c1} more (tests found)) whole held =
      Calls-Held k c c1 more whole held
  Calls-Held k c c' (calls_then {c1} more (takes_first s before after)) whole held =
      subst (λ n. Held n c'.agents) (omega arith)
        (act-Held (k + lost_calling more) before after s s listed taken takes
          (Calls-Held k c c1 more whole held))
  Calls-Held k c c' (calls_then more (takes_head empty)) whole held = cc
