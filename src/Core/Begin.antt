-- ===== src/Core/Begin.antt =====
-- What `em_start` leaves, on every outcome.
use empower_enb_agent.Base.{
  ℕ, suc, ◌+◌, ◌≡◌, ◌≢◌, refl, ap, Bool, true, false, Bool-cases, inl, inr, Option, none, some,
  List, [], arith, if◌then◌else◌, ◌&&◌, ◌||◌, ltb, length, is_negative, minus_one, subst, sym, ◌∙◌,
  ◌⊎◌,
}
use empower_enb_agent.Agent.{Agent, AgentOps, Event, World, Host, init, emit}
use empower_enb_agent.Memory.{Mem, malloc}
use empower_enb_agent.Log.{log_init}
use empower_enb_agent.Sched.Outcome.{has_op}
use empower_enb_agent.Sched.Blocks.{Balanced}
use empower_enb_agent.Sched.Service.Down.{queue_blocks}
use empower_enb_agent.Sched.Loop.{sched_start}
use empower_enb_agent.Net.Start.{net_start}
use empower_enb_agent.Core.{world_of}
use empower_enb_agent.Core.Library.{Library, set_core, emlog, core_initialize, core_release_agent}
use empower_enb_agent.Core.Start.{
  start_proc, already_running, undefined, Answers, running, new_agent, discard, insert_agent,
  start_init, start_agent, allocate_agent, em_start,
}
use empower_enb_agent.Core.Heap.{Owned, agents_blocks, core_release_agent-live, called-Balanced}
use empower_enb_agent.Core.Ids.{Unique}

-- What the threads of the agent do keeps the heap in balance and the id.
pub record IsTame (work : World → World) : Type 0 where
  pub same_id : (w : World) → (work w).agent.enb_id ≡ w.agent.enb_id
  pub balanced : (j : ℕ) (w : World) → Balanced j w → Balanced j (work w)

-- The ids are distinct, nothing is leaked; with result 0 the agent is in the list, with another the
-- list is as before.
pub record Started (k enb_id : ℕ) (before : List Agent) (r : Library × ℕ) : Type 0 where
  pub unique : Unique r.0.core.agents
  pub owned : Owned k r.0.core
  pub success : r.1 ≡ 0 → running enb_id r.0.core.agents ≡ true
  pub failure : r.1 ≢ 0 → r.0.core.agents ≡ before

called_id :
    (b : Bool) (e : Event) (w : World) → (if b then emit e w else w).agent.enb_id ≡ w.agent.enb_id
unfolding emit
called_id true e w = refl
called_id false e w = refl

module _ (h : Host) (ans : Answers) (tame : IsTame ans.work) (k enb_id : ℕ) where
  inserted-Started :
      (lib : Library) (w : World)
      → Unique lib.core.agents
      → running enb_id lib.core.agents ≡ false
      → w.agent.enb_id ≡ enb_id
      → Balanced (suc (k + agents_blocks lib.core.agents)) w
      → Started k enb_id lib.core.agents (insert_agent h lib w, 0)
  unfolding insert_agent running
  inserted-Started lib w u r e b = rw (h.list_add_first w.agent lib.core.agents) (record {
    unique = (subst (λ i. running i lib.core.agents ≡ false) (sym e) r, u);
    owned = omega arith;
    success = λ z. ground arith;
    failure = λ ne. absurd (ne refl);
  })

  discarded-Started :
      (lib : Library) (w : World) (code : ℕ)
      → Unique lib.core.agents
      → code ≢ 0
      → Balanced (suc (k + agents_blocks lib.core.agents)) w
      → Started k enb_id lib.core.agents (discard lib (core_release_agent h w), code)
  discarded-Started lib w code u ne b = record {
    unique = u;
    owned = core_release_agent-live h (k + agents_blocks lib.core.agents) w b;
    success = λ z. absurd (ne z);
    failure = λ _. refl;
  }

  start_init-Started :
      (lib : Library) (w : World)
      → Unique lib.core.agents
      → running enb_id lib.core.agents ≡ false
      → w.agent.enb_id ≡ enb_id
      → Balanced (suc (k + agents_blocks lib.core.agents)) w
      → Started k enb_id lib.core.agents (start_init h ans lib w)
  unfolding start_init
  start_init-Started lib w u r e b =
      let called = has_op (λ o. o.init) w.agent in
      let w0 : World = if called then emit init w else w in
      let b' = tame.balanced _ w0 (called-Balanced _ called init w b) in
      elim (Bool-cases (called && is_negative ans.init_result)) [
        | inl bad ↦ rw bad (discarded-Started lib (ans.work w0) ans.init_result u (ground arith) b')
        | inr good ↦ rw good (
            inserted-Started lib (ans.work w0) u r (tame.same_id w0 ∙ called_id called init w ∙ e)
              b')
      ]

  pub kept_as_before :
      (lib : Library)
      → Unique lib.core.agents
      → Owned k lib.core
      → Started k enb_id lib.core.agents (lib, minus_one)
  kept_as_before lib u own = record {
    unique = u;
    owned = own;
    success = λ z. ground arith;
    failure = λ _. refl;
  }

  -- A thread that is not created is joined all the same.
  start_agent-Started :
      (lib : Library) (w : World)
      → Unique lib.core.agents
      → running enb_id lib.core.agents ≡ false
      → w.agent.enb_id ≡ enb_id
      → w.agent.sched.jobs ≡ []
      → w.agent.sched.todo ≡ []
      → Balanced (suc (k + agents_blocks lib.core.agents)) w
      → let r = start_agent h ans lib w in (r.0.broken ≡ true) ⊎ Started k enb_id lib.core.agents r
  unfolding start_agent
  start_agent-Started lib w u r e nj nt b =
      let w2 = (net_start (sched_start w ans.sched_created).0 ans.net_created).0 in
      let b2 : Balanced (suc (k + agents_blocks lib.core.agents)) w2 =
        omega (arith, b, ap queue_blocks nj, ap queue_blocks nt) in
      elim (Bool-cases ans.sched_created) [
        | inr f ↦ rw f (inl refl)
        | inl s ↦ elim (Bool-cases ans.net_created) [
          | inr f ↦ rw (s, f) (inl refl)
          | inl n ↦ rw (s, n) (inr (start_init-Started lib w2 u r e b2))
        ]
      ]

  allocate_agent-Started :
      (lib : Library) (ops : AgentOps) (addr : List ℕ) (port : ℕ)
      → Unique lib.core.agents
      → Owned k lib.core
      → running enb_id lib.core.agents ≡ false
      → let r = allocate_agent h ans lib enb_id ops addr port in
        (r.0.broken ≡ true) ⊎ Started k enb_id lib.core.agents r
  unfolding allocate_agent malloc
  allocate_agent-Started lib ops addr port u own r =
      let m : Mem = record { calls = suc lib.core.mem.calls; live = suc lib.core.mem.live } in
      let filled : Library = record (set_core (record (lib.core) { mem = m }) lib) {
        broken = lib.broken || ltb 15 (length addr);
      } in
      let w = world_of filled.core (new_agent enb_id ops addr port) in
      elim (Bool-cases (h.malloc_ok lib.core.mem.calls)) [
        | inl ok ↦ rw ok (start_agent-Started filled w u r refl refl refl (omega arith))
        | inr out ↦ rw out (inr (kept_as_before _ u own))
      ]

  searched-Started :
      (lib : Library) (ops : AgentOps) (addr : List ℕ) (port : ℕ)
      → Unique lib.core.agents
      → Owned k lib.core
      → let r =
          if running enb_id lib.core.agents
          then (undefined (emlog lib none start_proc (already_running enb_id)), minus_one)
          else allocate_agent h ans lib enb_id ops addr port in
        (r.0.broken ≡ true) ⊎ Started k enb_id lib.core.agents r
  unfolding emlog
  searched-Started lib ops addr port u own = elim (Bool-cases (running enb_id lib.core.agents)) [
    | inl r ↦ rw r (inr (kept_as_before _ u own))
    | inr r ↦ rw r (allocate_agent-Started lib ops addr port u own r)
  ]

  initialized-Started :
      (b : Bool) (lib : Library) (ops : AgentOps) (addr : List ℕ) (port : ℕ)
      → Unique lib.core.agents
      → Owned k lib.core
      → let lib' =
          if b then lib else record lib { core_init = true; log = log_init ans.opens lib.log } in
        let r =
          if running enb_id lib'.core.agents
          then (undefined (emlog lib' none start_proc (already_running enb_id)), minus_one)
          else allocate_agent h ans lib' enb_id ops addr port in
        (r.0.broken ≡ true) ⊎ Started k enb_id lib.core.agents r
  initialized-Started true lib ops addr port u own = searched-Started lib ops addr port u own
  initialized-Started false lib ops addr port u own =
      searched-Started (record lib { core_init = true; log = log_init ans.opens lib.log }) ops addr
        port u own

  -- It meets undefined behaviour, or is as promised.
  pub em_start_lem :
      (lib : Library) (ops : Option AgentOps) (addr : List ℕ) (port : ℕ)
      → Unique lib.core.agents
      → Owned k lib.core
      → let r = em_start h ans lib enb_id ops addr port in
        (r.0.broken ≡ true) ⊎ Started k enb_id lib.core.agents r
  unfolding em_start core_initialize
  em_start_lem lib none addr port u own = inr (kept_as_before lib u own)
  em_start_lem lib (some ops) addr port u own =
      initialized-Started lib.core_init lib ops addr port u own
