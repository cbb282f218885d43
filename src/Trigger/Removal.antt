-- ===== src/Trigger/Removal.antt =====
-- agent/triggers.c, lines 233 to 285: which trigger is deleted by its module, type and instance.
use empower_enb_agent.Base.{
  ℕ, ◌≡◌, ◌⊎◌, inl, inr, refl, sym, ◌∙◌, true, false, Bool-cases, List, [], ◌∷◌, ◌++◌, append_assoc,
  append-nil, subst, minus_one, arith,
}
use empower_enb_agent.Emlist.{Emlist}
use empower_enb_agent.Memory.{Mem}
use empower_enb_agent.Trigger.{
  Trigger, TrigCtx, has_inst, trig_free, deleted, del_first, trig_del_by_inst,
}

-- A trigger of this module, type and instance.
pub record Matches (module_id kind instance_id : ℕ) (t : Trigger) : Type 0 where
  pub same_module : t.module_id ≡ module_id
  pub same_kind : t.kind ≡ kind
  pub same_instance : t.instance_id ≡ instance_id

module _ (module_id kind instance_id : ℕ) where
  abbrev pub Unmatched : List Trigger → Type 0
  Unmatched [] = Unit {0}
  Unmatched (t ∷ ts) = (¬ Matches module_id kind instance_id t) × Unmatched ts

  Unmatched-append :
      (ts : List Trigger) (t : Trigger)
      → Unmatched ts
      → (¬ Matches module_id kind instance_id t)
      → Unmatched (ts ++ t ∷ [])
  Unmatched-append [] t none fails = (fails, tt)
  Unmatched-append (u ∷ ts) t none fails = (none.0, Unmatched-append ts t none.1 fails)

  met-Matches :
      (t : Trigger)
      → has_inst module_id kind instance_id t ≡ true
      → Matches module_id kind instance_id t
  met-Matches t e = record {
    same_module = ground (arith, e);
    same_kind = ground (arith, e);
    same_instance = ground (arith, e);
  }

  unmet :
      (t : Trigger)
      → has_inst module_id kind instance_id t ≡ false
      → ¬ Matches module_id kind instance_id t
  unmet t e x = ground (arith, e, x.same_module, x.same_kind, x.same_instance)

  module _ (L : Emlist) (ctx : TrigCtx) (m : Mem) where
    -- The first trigger that matches is off the list and freed, and the others stay in order.
    pub record First (r : TrigCtx × Mem × ℕ) : Type 0 where
      pub before : List Trigger
      pub trig : Trigger
      pub after : List Trigger
      pub split : ctx.ts ≡ before ++ trig ∷ after
      pub matches : Matches module_id kind instance_id trig
      pub earlier : Unmatched before
      pub result : r ≡ (record ctx { ts = before ++ after }, trig_free trig m, 0)

    abbrev pub Removed : TrigCtx × Mem × ℕ → Type 0
    Removed r = First r ⊎ (Unmatched ctx.ts × (r ≡ (ctx, m, minus_one)))

    walk-Removed :
        (before after : List Trigger)
        → ctx.ts ≡ before ++ after
        → Unmatched before
        → Removed
            (deleted L ctx m (del_first L (has_inst module_id kind instance_id) before after m))
    unfolding deleted del_first
    walk-Removed before [] e none = inr (subst Unmatched (sym (e ∙ append-nil before)) none, refl)
    walk-Removed before (t ∷ after) e none =
        elim (Bool-cases (has_inst module_id kind instance_id t)) [
          | inl hit ↦ inl (record {
            before = before;
            trig = t;
            after = after;
            split = e;
            matches = met-Matches t hit;
            earlier = none;
            result = rw (hit, L.list_del_unlinks before t after);
          })
          | inr miss ↦ rw miss (
              walk-Removed (before ++ t ∷ []) after (e ∙ sym (append_assoc before (t ∷ []) after))
                (Unmatched-append before t none (unmet t miss)))
        ]

    -- Deletion by module, type and instance takes the first trigger that has all three out of the
    -- list, with the others in order, and frees it, and gives 0; if no trigger has them, it gives -1
    -- and changes nothing.
    pub trig_del_by_inst-Removed : Removed (trig_del_by_inst L ctx m module_id kind instance_id)
    unfolding trig_del_by_inst
    trig_del_by_inst-Removed = walk-Removed [] ctx.ts refl tt
