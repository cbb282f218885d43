-- ===== src/Core/Api.antt =====
-- What the calls of the public API do to the triggers of the agents.
use empower_enb_agent.Base.{
  ℕ, ◌≡◌, ◌∙◌, ap, refl, sym, subst, ◌&&◌, List, [], ◌∷◌, arith, ◌==◌, ==_iff, Bool-cases, inl, inr,
  none, some, All, if◌then◌else◌, Option-cases,
}
use empower_enb_agent.Emlist.{Emlist}
use empower_enb_agent.Memory.{Mem}
use empower_enb_agent.Agent.{Agent, World, Host}
use empower_enb_agent.Trigger.{Trigger, trig_find_by_id, has_id, trig_del_by_id, TrigCtx}
use empower_enb_agent.Trigger.Ids.{Below, trig_del_by_id-Deleted, find_passes}
use empower_enb_agent.Net.Handlers.{del_trigger_id}
use empower_enb_agent.Core.{
  Core, em_has_trigger, em_del_trigger, on_agent, first_agent, present, has_body, del_body,
  world_of,
}

-- The answer of `em_has_trigger` on a list of agents.
abbrev has_in : ℕ → ℕ → List Agent → ℕ
has_in enb_id tid [] = 0
has_in enb_id tid (a ∷ rest) =
    if a.enb_id == enb_id then present (trig_find_by_id a.trig tid) else has_in enb_id tid rest

has_in_lem :
    (enb_id tid : ℕ) (agents : List Agent) (c : Core)
    → (first_agent enb_id 0 (has_body tid) agents c).2 ≡ has_in enb_id tid agents
unfolding first_agent
has_in_lem enb_id tid [] c = refl
has_in_lem enb_id tid (a ∷ rest) c = ground (arith, has_in_lem enb_id tid rest c)

-- Every agent's triggers have distinct ids.
abbrev pub Distinct : List Agent → Type 0
Distinct agents = All (λ a. Below a.trig.next a.trig.ts) agents

module _ (L : Emlist) (ctx : TrigCtx) (m : Mem) (id other : ℕ) where
  found_none :
      trig_find_by_id ctx id ≡ none
      → (if id == other then none else trig_find_by_id ctx other) ≡ trig_find_by_id ctx other
  found_none e = elim (Bool-cases (id == other)) [
    | inl t ↦ rw t (sym (subst (λ i. trig_find_by_id ctx i ≡ none) ((==_iff id other).0 t) e))
    | inr t ↦ rw t refl
  ]

  found_id : (u : Trigger) → trig_find_by_id ctx id ≡ some u → u.id ≡ id
  unfolding trig_find_by_id
  found_id u e = (==_iff u.id id).0 (find_passes (has_id id) ctx.ts u e)

  -- After a deletion by id, the id finds nothing, and every other what it found.
  trig_del-find :
      Below ctx.next ctx.ts
      → trig_find_by_id (trig_del_by_id L ctx m id).0 other
        ≡ (if id == other then none else trig_find_by_id ctx other)
  trig_del-find v =
      let d = trig_del_by_id-Deleted L ctx m id other v in
      elim (Option-cases (trig_find_by_id ctx id)) [
        | inl e ↦ ap (λ r. trig_find_by_id r.0 other) (rw e at d) ∙ sym (found_none e)
        | inr (u, e) ↦
            (rw e at d).2
            ∙ ap (λ i. if i == other then none else trig_find_by_id ctx other) (found_id u e)
      ]

module _ (h : Host) (tid other : ℕ) where
  -- The deletion on an agent, as `em_has_trigger` sees it.
  head_lem :
      (w : World)
      → Below w.agent.trig.next w.agent.trig.ts
      → present (trig_find_by_id (del_trigger_id h w tid).0.agent.trig other)
        ≡ (if tid == other then 0 else present (trig_find_by_id w.agent.trig other))
  unfolding del_trigger_id
  head_lem w v =
      let e = ap present (trig_del-find h.list w.agent.trig w.mem tid other v) in ground arith

  same_enb : (w : World) → (del_trigger_id h w tid).0.agent.enb_id ≡ w.agent.enb_id
  unfolding del_trigger_id
  same_enb w = refl

  del_lem :
      (enb_id enb_other : ℕ) (agents : List Agent) (c : Core)
      → Distinct agents
      → has_in enb_other other (first_agent enb_id 0 (del_body h tid) agents c).0
        ≡ (if (enb_id == enb_other) && (tid == other) then 0 else has_in enb_other other agents)
  unfolding first_agent
  del_lem enb_id enb_other [] c d = ground arith
  del_lem enb_id enb_other (a ∷ rest) c d =
      let ih = del_lem enb_id enb_other rest c d.1 in
      let hd = head_lem (world_of c a) d.0 in ground (arith, same_enb (world_of c a))

  -- After `em_del_trigger`, `em_has_trigger` answers 0 for that trigger of that agent, and as before
  -- for every other one, where the triggers of every agent have distinct ids.
  pub em_del_trigger-has :
      (enb_id enb_other : ℕ) (c : Core)
      → Distinct c.agents
      → (em_has_trigger enb_other other (em_del_trigger h enb_id tid c).0).1 ≡ (
          if (enb_id == enb_other) && (tid == other)
          then 0
          else (em_has_trigger enb_other other c).1)
  unfolding em_has_trigger em_del_trigger on_agent
  em_del_trigger-has enb_id enb_other c d =
      let before = has_in_lem enb_other other c.agents c in
      let after = has_in_lem enb_other other _ (em_del_trigger h enb_id tid c).0 in
      after
      ∙ del_lem enb_id enb_other c.agents c d
      ∙ ap (λ n. if (enb_id == enb_other) && (tid == other) then 0 else n) (sym before)
