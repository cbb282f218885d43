-- ===== src/Core/Defined.antt =====
-- When `em_start` meets no undefined behaviour.
use empower_enb_agent.Base.{
  ℕ, ◌≤◌, ◌≡◌, refl, ap, sym, subst, ◌∙◌, Bool-cases, Bool, true, false, inl, inr, Option, none,
  some, List, arith, if◌then◌else◌, length, minus_one,
}
use empower_enb_agent.Agent.{Agent, AgentOps, Host}
use empower_enb_agent.Core.Library.{Library, emlog, core_initialize}
use empower_enb_agent.Core.Start.{
  undefined, start_proc, already_running, Answers, running, insert_agent, start_init, start_agent,
  allocate_agent, em_start,
}
use empower_enb_agent.Core.Heap.{Owned}
use empower_enb_agent.Core.Ids.{Unique}
use empower_enb_agent.Core.Begin.{IsTame, Started, kept_as_before, em_start_lem}

module _ (h : Host) (ans : Answers) (k enb_id : ℕ) where
  allocated-defined :
      (lib : Library) (ops : AgentOps) (addr : List ℕ) (port : ℕ)
      → lib.broken ≡ false
      → length addr ≤ 15
      → ans.sched_created ≡ true
      → ans.net_created ≡ true
      → (allocate_agent h ans lib enb_id ops addr port).0.broken ≡ false
  unfolding allocate_agent start_agent start_init insert_agent
  allocated-defined lib ops addr port f small s n = ground arith

  -- The id of an agent of the list is printed.
  abbrev pub is_printed : Option AgentOps → List Agent → Bool
  is_printed none agents = false
  is_printed (some ops) agents = running enb_id agents

  checked-defined :
      (b : Bool) (lib : Library) (r : Library × ℕ)
      → r.0.broken ≡ false
      → (if b then (undefined lib, minus_one) else r).0.broken ≡ b
  checked-defined true lib r d = refl
  checked-defined false lib r d = d

  initialized-defined :
      (lib : Library)
      → ((core_initialize ans.opens lib).broken ≡ lib.broken)
        × ((core_initialize ans.opens lib).core ≡ lib.core)
  unfolding core_initialize
  initialized-defined lib = ground arith

  em_start-defined :
      (lib : Library) (ops : Option AgentOps) (addr : List ℕ) (port : ℕ)
      → lib.broken ≡ false
      → length addr ≤ 15
      → ans.sched_created ≡ true
      → ans.net_created ≡ true
      → (em_start h ans lib enb_id ops addr port).0.broken ≡ is_printed ops lib.core.agents
  unfolding em_start
  em_start-defined lib none addr port f small s n = f
  em_start-defined lib (some ops) addr port f small s n =
      let lib' = core_initialize ans.opens lib in
      let same = initialized-defined lib in
      checked-defined (running enb_id lib'.core.agents)
        (emlog lib' none start_proc (already_running enb_id))
        (allocate_agent h ans lib' enb_id ops addr port)
        (allocated-defined lib' ops addr port (same.0 ∙ f) small s n)
      ∙ ap (λ c. running enb_id c.agents) same.1

  printed-Started :
      (tame : IsTame ans.work) (lib : Library) (ops : Option AgentOps) (addr : List ℕ) (port : ℕ)
      → Unique lib.core.agents
      → Owned k lib.core
      → is_printed ops lib.core.agents ≡ true
      → Started k enb_id lib.core.agents (em_start h ans lib enb_id ops addr port)
  unfolding em_start emlog
  printed-Started tame lib none addr port u own p = cc
  printed-Started tame lib (some ops) addr port u own p =
      let lib' = core_initialize ans.opens lib in
      let same = (initialized-defined lib).1 in
      let there = ap (λ c. running enb_id c.agents) same ∙ p in
      let logged = undefined (emlog lib' none start_proc (already_running enb_id)) in
      rw there (
        subst (λ c. Started k enb_id c.agents (logged, minus_one)) same
          (kept_as_before h ans tame k enb_id logged (subst (λ c. Unique c.agents) (sym same) u)
            (subst (Owned k) (sym same) own)))

  -- `em_start` on agents with distinct ids that hold every block beside `k` others, with an address
  -- of at most 15 bytes, and threads that are created: undefined behaviour is met just where an
  -- agent of the list has the id, which is printed with a wrong format; and in any case the ids are
  -- distinct still, nothing leaks, the agent is in the list if the result is 0, and the list is as
  -- before with any other result; whatever else fails.
  pub em_start-Started :
      (tame : IsTame ans.work) (lib : Library) (ops : Option AgentOps) (addr : List ℕ) (port : ℕ)
      → Unique lib.core.agents
      → Owned k lib.core
      → lib.broken ≡ false
      → length addr ≤ 15
      → ans.sched_created ≡ true
      → ans.net_created ≡ true
      → let r = em_start h ans lib enb_id ops addr port in
        (r.0.broken ≡ is_printed ops lib.core.agents) × Started k enb_id lib.core.agents r
  em_start-Started tame lib ops addr port u own f small s n =
      let defined = em_start-defined lib ops addr port f small s n in
      elim (Bool-cases (is_printed ops lib.core.agents)) [
        | inl p ↦ (defined, printed-Started tame lib ops addr port u own p)
        | inr q ↦ elim (em_start_lem h ans tame k enb_id lib ops addr port u own) [
          | inl b ↦ cc
          | inr started ↦ (defined, started)
        ]
      ]
