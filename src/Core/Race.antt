-- ===== src/Core/Race.antt =====
-- agent/core.c, lines 530 to 545 and 606 to 612: `em_start` searches for the id and inserts the
-- agent in two critical sections, between which calls of other threads come.
use empower_enb_agent.Base.{◌≡◌, refl, sym, subst, false, List, [], ◌∷◌, ◌++◌, arith}
use empower_enb_agent.Agent.{Agent, Host}
use empower_enb_agent.Core.{world_of}
use empower_enb_agent.Core.Library.{Library}
use empower_enb_agent.Core.Start.{running, insert_agent}
use empower_enb_agent.Core.Ids.{Unique}

-- The library, and the agents whose ids were searched for and that are not in the list yet.
pub record Starting : Type 0 where
  pub lib : Library
  pub pending : List Agent

-- The critical sections of calls of `em_start`.
pub data Section (h : Host) : Starting → Starting → Type 0 where
  search :
      {lib : Library} {pending : List Agent} (a : Agent)
      → running a.enb_id lib.core.agents ≡ false
      → Section h
          (record { lib = lib; pending = pending })
          (record { lib = lib; pending = a ∷ pending })
  insert :
      {lib : Library} (before : List Agent) (a : Agent) (after : List Agent)
      → Section h
          (record { lib = lib; pending = before ++ a ∷ after })
          (record { lib = insert_agent h lib (world_of lib.core a); pending = before ++ after })

-- Any number of calls that overlap.
pub data Overlapping (h : Host) : Starting → Starting → Type 0 where
  ended : {s : Starting} → Overlapping h s s
  then_section : {s s1 s2 : Starting} → Overlapping h s s1 → Section h s1 s2 → Overlapping h s s2

-- Any number of calls, each of which ends before the next one searches.
pub data Serial (h : Host) : Library → Library → Type 0 where
  none_left : {lib : Library} → Serial h lib lib
  start :
      {lib lib' : Library} (a : Agent)
      → running a.enb_id lib.core.agents ≡ false
      → Serial h (insert_agent h lib (world_of lib.core a)) lib'
      → Serial h lib lib'

module _ (h : Host) where
  inserted-Unique :
      (lib : Library) (a : Agent)
      → running a.enb_id lib.core.agents ≡ false
      → Unique lib.core.agents
      → Unique (insert_agent h lib (world_of lib.core a)).core.agents
  unfolding insert_agent
  inserted-Unique lib a free u = rw (h.list_add_first a lib.core.agents) (free, u)

  -- Calls of `em_start` one after the other keep the ids of the agents distinct.
  pub Serial-Unique :
      (lib lib' : Library) → Serial h lib lib' → Unique lib.core.agents → Unique lib'.core.agents
  Serial-Unique lib lib' none_left u = u
  Serial-Unique lib lib' (start a free more) u =
      Serial-Unique _ lib' more (inserted-Unique lib a free u)

  twice : Library → Agent → Agent → Library
  unfolding insert_agent
  twice lib a b =
      let once = insert_agent h lib (world_of lib.core a) in
      insert_agent h once (world_of once.core b)

  twice_not_Unique :
      (lib : Library) (a b : Agent) → b.enb_id ≡ a.enb_id → ¬ Unique (twice lib a b).core.agents
  unfolding twice insert_agent running
  twice_not_Unique lib a b e =
      rw (h.list_add_first a lib.core.agents, h.list_add_first b (a ∷ lib.core.agents))
        (λ u. ground (arith, u.0, e))

  -- Two calls of `em_start` with one id that no agent has, both of which search before either
  -- inserts, put two agents with that id into the list.
  pub Overlapping-duplicates :
      (lib : Library) (a b : Agent)
      → running a.enb_id lib.core.agents ≡ false
      → b.enb_id ≡ a.enb_id
      → (s : Starting) × Overlapping h (record { lib = lib; pending = [] }) s
        × (s.pending ≡ [])
        × (¬ Unique s.lib.core.agents)
  unfolding twice
  Overlapping-duplicates lib a b free e =
      let searched = then_section ended (search {pending = []} a free) in
      let again = then_section searched (
        search {pending = a ∷ []} b
          (subst (λ i. running i lib.core.agents ≡ false) (sym e) free)) in
      let one = then_section again (insert (b ∷ []) a []) in
      (
        record { lib = twice lib a b; pending = [] },
        then_section one (insert [] b []),
        refl,
        twice_not_Unique lib a b e,
      )
