-- ===== src/Agents/Calls.antt =====
-- agent/core.c, lines 622 to 655: calls of em_stop that overlap. Each tests that the list of agents
-- is not empty with no lock, and takes the first agent later, with no new test.
use empower_enb_agent.Base.{ℕ, suc, ◌≡◌, Bool, true, false, ◌||◌, List, [], ◌∷◌}
use empower_enb_agent.Agent.{Host}
use empower_enb_agent.Threads.Together.{System}
use empower_enb_agent.Agents.{Place, listed, taken, Member, Agents, among, Act}

abbrev is_listed : Place → Bool
is_listed listed = true
is_listed _ = false

-- `!list_empty(&core_agents)`
abbrev pub any_listed : List Member → Bool
any_listed [] = false
any_listed (m ∷ rest) = is_listed m.place || any_listed rest

-- `stopping` is how many calls of em_stop have found the list not empty and have not taken an agent
-- yet; `broken` whether one took the head of the empty list for an agent.
pub record Calling : Type 0 where
  pub agents : Agents
  pub stopping : ℕ
  pub broken : Bool

-- A step of the library, and the two of em_stop's loop.
pub data Call (h : Host) : Calling → Calling → Type 0 where
  acts :
      {a b : Agents} {n : ℕ} {bad : Bool}
      → Act h a b
      → Call h
          (record { agents = a; stopping = n; broken = bad })
          (record { agents = b; stopping = n; broken = bad })
  tests :
      {a : Agents} {n : ℕ} {bad : Bool}
      → any_listed a.members ≡ true
      → Call h
          (record { agents = a; stopping = n; broken = bad })
          (record { agents = a; stopping = suc n; broken = bad })
  takes_first :
      {n : ℕ} {bad : Bool} (s : System) (before after : List Member)
      → Call h
          (record { agents = among before s listed after; stopping = suc n; broken = bad })
          (record { agents = among before s taken after; stopping = n; broken = bad })
  takes_head :
      {a : Agents} {n : ℕ} {bad : Bool}
      → any_listed a.members ≡ false
      → Call h
          (record { agents = a; stopping = suc n; broken = bad })
          (record { agents = a; stopping = n; broken = true })

pub data Calls (h : Host) (c : Calling) : Calling → Type 0 where
  none_yet : Calls h c c
  calls_then : {c1 c2 : Calling} → Calls h c c1 → Call h c1 c2 → Calls h c c2
