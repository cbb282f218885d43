-- ===== src/Agents/Begins.antt =====
-- agent/core.c: em_start in one go, and in small steps.
use empower_enb_agent.Base.{
  ℕ, ◌≡◌, ap, sym, subst, Bool, true, false, Bool-cases, inl, inr, Option, none, some, List, [],
  ◌∷◌, is_negative, ◌&&◌, length, ltb, ◌||◌, arith, refl, if◌then◌else◌, not,
}
use empower_enb_agent.Agent.{AgentOps, World, Host, Event, emit}
use empower_enb_agent.Memory.{Mem, malloc}
use empower_enb_agent.Sched.Outcome.{has_op}
use empower_enb_agent.Sched.Loop.{sched_start}
use empower_enb_agent.Net.Start.{net_start}
use empower_enb_agent.Core.{world_of, behind}
use empower_enb_agent.Core.Library.{Library, set_core, core_initialize, core_release_agent, emlog}
use empower_enb_agent.Core.Start.{
  Answers, new_agent, running, start_init, start_agent, allocate_agent, insert_agent, em_start,
}
use empower_enb_agent.Threads.{asleep, listening}
use empower_enb_agent.Threads.Together.{System}
use empower_enb_agent.Agents.{
  started, inits, refuses, lists, among, act, create, no_memory, nothing, acts_then, called_init,
}
use empower_enb_agent.Agents.Course.{Course, then-Course}
use empower_enb_agent.Agents.Ends.{all_resting, resting_core, core_release_agent-Course}

abbrev pub count : Bool → ℕ
count b = if b then 1 else 0

module _ (h : Host) (ans : Answers) (quiet : (w : World) → ans.work w ≡ w) where
  abbrev fresh : World → System
  fresh w = record { world = w; sched = asleep; net = listening }

  abbrev refuses_init : AgentOps → Bool
  refuses_init ops = ops.init && is_negative ans.init_result

  -- Whether `init` refuses the agent.
  abbrev refused : World → Bool
  refused w = has_op (λ o. o.init) w.agent && is_negative ans.init_result

  refused_core :
      (lib : Library) (w : World)
      → has_op (λ o. o.init) w.agent ≡ true
      → is_negative ans.init_result ≡ true
      → (start_init h ans lib w).0.core
        ≡ behind lib.core.agents (core_release_agent h (emit Event.init w))
  unfolding start_init
  refused_core lib w set bad = rw (set, bad, quiet (emit Event.init w))

  inserted_core :
      (lib : Library) (w : World)
      → refused w ≡ false
      → (start_init h ans lib w).0.core
        ≡ behind ((called_init w).agent ∷ lib.core.agents) (called_init w)
  unfolding start_init insert_agent
  inserted_core lib w ok =
      rw (ok, quiet (called_init w), h.list_add_first (called_init w).agent lib.core.agents)

  inserted-Course :
      (lib : Library) (w : World)
      → refused w ≡ false
      → Course h
          (among [] (fresh w) started (all_resting lib.core.agents))
          (resting_core (start_init h ans lib w).0.core)
          0
          0
  inserted-Course lib w ok =
      let ms = all_resting lib.core.agents in
      let course : Course h _ _ 0 0 = record {
        acts = acts_then (acts_then nothing (act [] ms inits)) (act [] ms lists);
        made_all = omega arith;
        freed_all = omega arith;
      } in
      subst (λ c. Course h (among [] (fresh w) started ms) (resting_core c) 0 0)
        (sym (inserted_core lib w ok)) course

  refused-Course :
      (lib : Library) (w : World)
      → has_op (λ o. o.init) w.agent ≡ true
      → is_negative ans.init_result ≡ true
      → Course h
          (among [] (fresh w) started (all_resting lib.core.agents))
          (resting_core (start_init h ans lib w).0.core)
          0
          1
  refused-Course lib w set bad =
      let ms = all_resting lib.core.agents in
      let told : Course h _ _ 0 0 = record {
        acts = acts_then nothing (act [] ms (refuses set));
        made_all = omega arith;
        freed_all = omega arith;
      } in
      subst (λ c. Course h (among [] (fresh w) started ms) (resting_core c) 0 1)
        (sym (refused_core lib w set bad))
        (then-Course h _ _ _ 0 0 0 1 told (core_release_agent-Course h [] ms (emit Event.init w)))

  init-Course :
      (lib : Library) (w : World)
      → Course h
          (among [] (fresh w) started (all_resting lib.core.agents))
          (resting_core (start_init h ans lib w).0.core)
          0
          (count (refused w))
  init-Course lib w = elim (Bool-cases (has_op (λ o. o.init) w.agent)) [
    | inl set ↦ elim (Bool-cases (is_negative ans.init_result)) [
      | inl bad ↦ rw (set, bad) (refused-Course lib w set bad)
      | inr good ↦ rw (set, good) (inserted-Course lib w (ground arith))
    ]
    | inr unset ↦ rw unset (inserted-Course lib w (ground arith))
  ]

  start-Course :
      (lib : Library) (w : World)
      → ans.sched_created ≡ true
      → ans.net_created ≡ true
      → Course h
          (among []
            (fresh (net_start (sched_start w true).0 true).0)
            started
            (all_resting lib.core.agents))
          (resting_core (start_agent h ans lib w).0.core)
          0
          (count (refused w))
  unfolding start_agent sched_start net_start
  start-Course lib w s n = rw (s, n) (init-Course lib (net_start (sched_start w true).0 true).0)

  allocated_core :
      (lib : Library) (enb_id : ℕ) (ops : AgentOps) (addr : List ℕ) (port : ℕ) (m : Mem)
      → malloc h.malloc_ok lib.core.mem ≡ (m, false)
      → (allocate_agent h ans lib enb_id ops addr port).0.core ≡ record (lib.core) { mem = m }
  unfolding allocate_agent
  allocated_core lib enb_id ops addr port m e = rw e

  -- The library with the block of the agent, whose address is copied.
  abbrev filled : Library → List ℕ → Mem → Library
  filled lib addr m = record (set_core (record (lib.core) { mem = m }) lib) {
    broken = lib.broken || ltb 15 (length addr);
  }

  started_core :
      (lib : Library) (enb_id : ℕ) (ops : AgentOps) (addr : List ℕ) (port : ℕ) (m : Mem)
      → malloc h.malloc_ok lib.core.mem ≡ (m, true)
      → let lib' = filled lib addr m in
        allocate_agent h ans lib enb_id ops addr port
        ≡ start_agent h ans lib' (world_of lib'.core (new_agent enb_id ops addr port))
  unfolding allocate_agent
  started_core lib enb_id ops addr port m e = rw e

  allocate-Course :
      (lib : Library) (enb_id : ℕ) (ops : AgentOps) (addr : List ℕ) (port : ℕ)
      → ans.sched_created ≡ true
      → ans.net_created ≡ true
      → let got = (malloc h.malloc_ok lib.core.mem).1 in
        Course h
          (resting_core lib.core)
          (resting_core (allocate_agent h ans lib enb_id ops addr port).0.core)
          (count got)
          (count (got && refuses_init ops))
  unfolding has_op
  allocate-Course lib enb_id ops addr port s n =
      let r = malloc h.malloc_ok lib.core.mem in
      let lib' = filled lib addr r.0 in
      let from = resting_core lib.core in
      let to = resting_core (allocate_agent h ans lib enb_id ops addr port).0.core in
      elim (Bool-cases r.1) [
        | inl got ↦
            let e : r ≡ (r.0, true) = ap (λ b. (r.0, b)) got in
            let bad = count (refuses_init ops) in
            let one : Course h _ _ 1 0 = record {
              acts = acts_then nothing (create enb_id ops addr port e);
              made_all = omega arith;
              freed_all = omega arith;
            } in
            let all =
              then-Course h _ _ _ 1 0 0 bad one
                (start-Course lib' (world_of lib'.core (new_agent enb_id ops addr port)) s n) in
            let counted : Course h from to 1 bad =
              subst (λ x. Course h from (resting_core x.0.core) 1 bad)
                (sym (started_core lib enb_id ops addr port r.0 e))
                (record {
                  acts = all.acts;
                  made_all = omega (arith, all.made_all);
                  freed_all = omega (arith, all.freed_all);
                }) in
            subst (λ b. Course h from to (count b) (count (b && refuses_init ops))) (sym got)
              counted
        | inr not_got ↦
            let e : r ≡ (r.0, false) = ap (λ b. (r.0, b)) not_got in
            let none : Course h _ _ 0 0 = record {
              acts = acts_then nothing (no_memory e);
              made_all = omega arith;
              freed_all = omega arith;
            } in
            subst (λ b. Course h from to (count b) (count (b && refuses_init ops))) (sym not_got)
              (subst (λ c. Course h from (resting_core c) 0 0)
                (sym (allocated_core lib enb_id ops addr port r.0 e)) none)
      ]

  -- Whether the agent is allocated.
  abbrev pub begins : Option AgentOps → Library → ℕ → Bool
  begins none lib enb_id = false
  begins (some ops) lib enb_id =
      not (running enb_id lib.core.agents) && h.malloc_ok lib.core.mem.calls

  -- Whether it has an `init` that returns an error.
  abbrev pub is_refused : Option AgentOps → Bool
  is_refused none = false
  is_refused (some ops) = refuses_init ops

  malloc_got : (m : Mem) → (malloc h.malloc_ok m).1 ≡ h.malloc_ok m.calls
  unfolding malloc
  malloc_got m = ground arith

  found-Course :
      (lib : Library) (enb_id : ℕ) (ops : AgentOps) (addr : List ℕ) (port : ℕ)
      → ans.sched_created ≡ true
      → ans.net_created ≡ true
      → let lib' = core_initialize ans.opens lib in
        let made = begins (some ops) lib' enb_id in
        Course h
          (resting_core lib'.core)
          (resting_core (em_start h ans lib enb_id (some ops) addr port).0.core)
          (count made)
          (count (made && refuses_init ops))
  unfolding em_start emlog
  found-Course lib enb_id ops addr port s n =
      let lib' = core_initialize ans.opens lib in
      elim (Bool-cases (running enb_id lib'.core.agents)) [
        | inl there ↦ rw there (record { acts = nothing; made_all = refl; freed_all = refl })
        | inr free ↦
            rw (free, sym (malloc_got lib'.core.mem))
              (allocate-Course lib' enb_id ops addr port s n)
      ]

  initialized_core : (lib : Library) → (core_initialize ans.opens lib).core ≡ lib.core
  unfolding core_initialize
  initialized_core lib = ground arith

-- em_start is a sequence of small steps in which one agent is allocated if there are callbacks, no
-- agent of the list has the id and there is memory, and none otherwise; and that agent is released
-- and freed again if its `init` returns an error, and is in the list otherwise; where both threads
-- are created, and make no step of their own until the call ends, and those of the other agents are
-- at the head of their loops.
pub em_start-Course :
    (h : Host) (ans : Answers) (lib : Library) (enb_id : ℕ) (ops : Option AgentOps) (addr : List ℕ)
    (port : ℕ)
    → (quiet : (w : World) → ans.work w ≡ w) → ans.sched_created ≡ true
    → ans.net_created ≡ true
    → let made = begins h ans quiet ops lib enb_id in
      Course h
        (resting_core lib.core)
        (resting_core (em_start h ans lib enb_id ops addr port).0.core)
        (count made)
        (count (made && is_refused h ans quiet ops))
unfolding em_start
em_start-Course h ans lib enb_id none addr port quiet s n = record {
  acts = nothing;
  made_all = refl;
  freed_all = refl;
}
em_start-Course h ans lib enb_id (some ops) addr port quiet s n =
    let r = resting_core (em_start h ans lib enb_id (some ops) addr port).0.core in
    subst
      (λ c.
        let made = not (running enb_id c.agents) && h.malloc_ok c.mem.calls in
        Course h (resting_core c) r (count made)
          (count (made && is_refused h ans quiet (some ops))))
      (initialized_core h ans quiet lib) (found-Course h ans quiet lib enb_id ops addr port s n)
