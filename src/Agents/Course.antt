-- ===== src/Agents/Course.antt =====
-- Steps of the library, with how many agents they make and free.
use empower_enb_agent.Base.{ℕ, ◌+◌, ◌≡◌, arith}
use empower_enb_agent.Agent.{Host}
use empower_enb_agent.Agents.{Agents, Act, create, vanish, Acts, nothing, acts_then}

abbrev made_by : {h : Host} {s s' : Agents} → Act h s s' → ℕ
made_by (create enb_id ops addr port e) = 1
made_by _ = 0

abbrev freed_by : {h : Host} {s s' : Agents} → Act h s s' → ℕ
freed_by (vanish w before after) = 1
freed_by _ = 0

-- The agents that are allocated in a sequence of steps.
abbrev pub all_made : {h : Host} {s s' : Agents} → Acts h s s' → ℕ
all_made nothing = 0
all_made (acts_then more a) = all_made more + made_by a

-- Those whose threads have ended and that are freed.
abbrev pub all_freed : {h : Host} {s s' : Agents} → Acts h s s' → ℕ
all_freed nothing = 0
all_freed (acts_then more a) = all_freed more + freed_by a

abbrev pub acts_after : {h : Host} {s1 s2 s3 : Agents} → Acts h s1 s2 → Acts h s2 s3 → Acts h s1 s3
acts_after a nothing = a
acts_after a (acts_then b mv) = acts_then (acts_after a b) mv

-- A sequence of steps in which so many agents are allocated, and so many freed.
pub record Course (h : Host) (s s' : Agents) (made gone : ℕ) : Type 0 where
  pub acts : Acts h s s'
  pub made_all : all_made acts ≡ made
  pub freed_all : all_freed acts ≡ gone

module _ (h : Host) where
  counts-acts_after :
      (s1 s2 s3 : Agents) (a : Acts h s1 s2) (b : Acts h s2 s3)
      → (all_made (acts_after a b) ≡ all_made a + all_made b)
        × (all_freed (acts_after a b) ≡ all_freed a + all_freed b)
  counts-acts_after s1 s2 s3 a nothing = (omega arith, omega arith)
  counts-acts_after s1 s2 s3 a (acts_then {s1 = s} b mv) =
      let c = counts-acts_after s1 s2 s a b in (omega (arith, c), omega (arith, c))

  pub then-Course :
      (s1 s2 s3 : Agents) (m n g f : ℕ)
      → Course h s1 s2 m g
      → Course h s2 s3 n f
      → Course h s1 s3 (m + n) (g + f)
  then-Course s1 s2 s3 m n g f a b =
      let c = counts-acts_after s1 s2 s3 a.acts b.acts in
      record {
        acts = acts_after a.acts b.acts;
        made_all = omega (arith, c, a.made_all, b.made_all);
        freed_all = omega (arith, c, a.freed_all, b.freed_all);
      }
