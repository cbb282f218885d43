-- ===== src/Core/Ids.antt =====
-- The eNB ids of the agents, and what `em_terminate_agent` does to them.
use empower_enb_agent.Base.{
  ℕ, ◌+◌, ◌≡◌, ◌≢◌, refl, ap, true, false, Bool-cases, inl, inr, Option, none, some, List, [], ◌∷◌,
  ◌++◌, ◌==◌, arith, if◌then◌else◌, append_assoc, subst, ==_iff,
}
use empower_enb_agent.Agent.{Agent, Host}
use empower_enb_agent.Core.{world_of}
use empower_enb_agent.Core.Library.{Library}
use empower_enb_agent.Core.Start.{running}
use empower_enb_agent.Core.Stop.{take_agent, terminated, em_terminate_agent}
use empower_enb_agent.Core.Heap.{Owned, agents_blocks, agent_blocks, end_agent-live}

-- No two agents have the same id.
abbrev pub Unique : List Agent → Type 0
Unique [] = Unit {0}
Unique (a ∷ rest) = (running a.enb_id rest ≡ false) × Unique rest

-- With these agents walked already.
prefixed : List Agent → Option (List Agent × Agent) → Option (List Agent × Agent)
prefixed before none = none
prefixed before (some (after, a)) = some (before ++ after, a)

-- The first agent with an id, and the others.
taken : ℕ → List Agent → Option (List Agent × Agent)
unfolding prefixed
taken enb_id [] = none
taken enb_id (a ∷ rest) =
    if a.enb_id == enb_id then some (rest, a) else prefixed (a ∷ []) (taken enb_id rest)

prefixed-prefixed :
    (xs ys : List Agent) (o : Option (List Agent × Agent))
    → prefixed (xs ++ ys) o ≡ prefixed xs (prefixed ys o)
unfolding prefixed
prefixed-prefixed xs ys none = refl
prefixed-prefixed xs ys (some (l, a)) = ap (λ r. some (r, a)) (append_assoc xs ys l)

prefixed_nil : (o : Option (List Agent × Agent)) → prefixed [] o ≡ o
unfolding prefixed
prefixed_nil none = refl
prefixed_nil (some (l, a)) = refl

take_agent_lem :
    (h : Host) (enb_id : ℕ) (before ts : List Agent)
    → take_agent h enb_id before ts ≡ prefixed before (taken enb_id ts)
unfolding take_agent taken
take_agent_lem h enb_id before [] = refl
take_agent_lem h enb_id before (a ∷ ts) = ground (
  arith,
  h.list_del_unlinks before a ts,
  take_agent_lem h enb_id (before ++ a ∷ []) ts,
  prefixed-prefixed before (a ∷ []) (taken enb_id ts),
)

-- What is found and what is left of a list with distinct ids.
Taken : ℕ → List Agent → Option (List Agent × Agent) → Type 0
Taken enb_id ts none = running enb_id ts ≡ false
Taken enb_id ts (some (l, a)) =
    (running enb_id l ≡ false)
    × Unique l
    × (agents_blocks ts ≡ agent_blocks a + agents_blocks l)
    × ((other : ℕ) → running other ts ≡ (if enb_id == other then true else running other l))

passed_by :
    (enb_id : ℕ) (a : Agent) (ts : List Agent) (o : Option (List Agent × Agent))
    → (a.enb_id == enb_id) ≡ false
    → Unique (a ∷ ts)
    → Taken enb_id ts o
    → Taken enb_id (a ∷ ts) (prefixed (a ∷ []) o)
unfolding prefixed running Taken
passed_by enb_id a ts none ne u t = ground arith
passed_by enb_id a ts (some (l, b)) ne u (gone, unique, blocks, others) = (
  ground arith,
  (ground (arith, others a.enb_id), unique),
  omega arith,
  λ other. ground (arith, others other),
)

met :
    (enb_id : ℕ) (a : Agent) (ts : List Agent)
    → (a.enb_id == enb_id) ≡ true
    → Unique (a ∷ ts)
    → Taken enb_id (a ∷ ts) (some (ts, a))
unfolding running Taken
met enb_id a ts eq u = (
  subst (λ i. running i ts ≡ false) ((==_iff a.enb_id enb_id).0 eq) u.0,
  u.1,
  refl,
  λ other. ground (arith, (==_iff a.enb_id enb_id).0 eq),
)

taken_lem : (enb_id : ℕ) (ts : List Agent) → Unique ts → Taken enb_id ts (taken enb_id ts)
unfolding taken Taken running
taken_lem enb_id [] u = refl
taken_lem enb_id (a ∷ ts) u = elim (Bool-cases (a.enb_id == enb_id)) [
  | inl eq ↦ rw eq (met enb_id a ts eq u)
  | inr ne ↦ rw ne (passed_by enb_id a ts (taken enb_id ts) ne u (taken_lem enb_id ts u.1))
]

-- After an agent is ended no agent has its id, and all other ids are in use or free as before.
pub record Terminated (k enb_id : ℕ) (lib lib' : Library) : Type 0 where
  pub gone : running enb_id lib'.core.agents ≡ false
  pub unique : Unique lib'.core.agents
  pub owned : Owned k lib'.core
  pub others :
      (other : ℕ) → other ≢ enb_id → running other lib'.core.agents ≡ running other lib.core.agents

terminated_lem :
    (h : Host) (k enb_id : ℕ) (lib : Library) (o : Option (List Agent × Agent))
    → Unique lib.core.agents
    → Owned k lib.core
    → Taken enb_id lib.core.agents o
    → Terminated k enb_id lib (terminated h lib o)
unfolding terminated Taken
terminated_lem h k enb_id lib none u own t = record {
  gone = t;
  unique = u;
  owned = own;
  others = λ other ne. refl;
}
terminated_lem h k enb_id lib (some (l, a)) u own (gone, unique, blocks, others) = record {
  gone = gone;
  unique = unique;
  owned = end_agent-live h (k + agents_blocks l) (world_of lib.core a) (omega arith);
  others = λ other ne. ground (arith, others other);
}

-- `em_terminate_agent`, where the agents have distinct ids and hold every block beside `k` others:
-- afterwards no agent has the id, the others have theirs, and all that the agent held is freed.
pub em_terminate_agent-Terminated :
    (h : Host) (k enb_id : ℕ) (lib : Library)
    → Unique lib.core.agents
    → Owned k lib.core
    → Terminated k enb_id lib (em_terminate_agent h lib enb_id).0
unfolding em_terminate_agent
em_terminate_agent-Terminated h k enb_id lib u own =
    rw (take_agent_lem h enb_id [] lib.core.agents, prefixed_nil)
      (terminated_lem h k enb_id lib _ u own (taken_lem enb_id lib.core.agents u))
