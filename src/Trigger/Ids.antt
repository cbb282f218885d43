-- ===== src/Trigger/Ids.antt =====
-- The ids of the triggers of a context are distinct, so an id names one trigger.
use empower_enb_agent.Base.{
  ℕ, ◌+◌, ◌<◌, ◌≤◌, ◌^◌, ◌≡◌, ◌≢◌, refl, Bool, true, Option, none, some, List, [], ◌∷◌, ◌==◌, inl,
  inr, Option-cases, ◌∙◌, ==_refl, arith, minus_one, if◌then◌else◌,
}
use empower_enb_agent.Emlist.{Emlist}
use empower_enb_agent.Memory.{Mem}
use empower_enb_agent.Trigger.{
  Trigger, TrigCtx, has_id, has_inst, find_first, trig_find_by_id, trig_add, trig_free, deleted,
  del_first, trig_del_by_id, trig_del_by_inst,
}
use empower_enb_agent.Trigger.Laws.{without_first, del_first_lem}

-- Ids fall along the list and stay under a bound.
abbrev pub Below : ℕ → List Trigger → Type 0
Below n [] = Unit {0}
Below n (t ∷ ts) = (t.id < n) × Below t.id ts

Below-mono : (m n : ℕ) (ts : List Trigger) → m ≤ n → Below m ts → Below n ts
Below-mono m n [] h b = tt
Below-mono m n (t ∷ ts) h b = (omega arith, b.1)

without_first-Below :
    (test : Trigger → Bool) (n : ℕ) (ts : List Trigger)
    → Below n ts
    → Below n (without_first test ts)
without_first-Below test n [] b = tt
without_first-Below test n (t ∷ ts) b =
    ground (arith, without_first-Below test t.id ts b.1, Below-mono t.id n ts)

-- No id at or above the bound is found.
find_above : (n id : ℕ) (ts : List Trigger) → Below n ts → n ≤ id → find_first (has_id id) ts ≡ none
unfolding find_first
find_above n id [] b h = refl
find_above n id (t ∷ ts) b h = ground (arith, find_above t.id id ts b.1)

-- What a test finds has an id below the bound.
pub found-Below :
    (test : Trigger → Bool) (n : ℕ) (ts : List Trigger) (t : Trigger)
    → Below n ts
    → find_first test ts ≡ some t
    → t.id < n
unfolding find_first
found-Below test n [] t b e = cc
found-Below test n (u ∷ ts) t b e = ground (arith, found-Below test u.id ts t b.1)

-- What a search finds passes the test, and is found by its id.
pub find_passes :
    (test : Trigger → Bool) (ts : List Trigger) (t : Trigger)
    → find_first test ts ≡ some t
    → test t ≡ true
unfolding find_first
find_passes test [] t e = cc
find_passes test (u ∷ ts) t e = ground (arith, find_passes test ts t)

pub find_self :
    (test : Trigger → Bool) (n : ℕ) (ts : List Trigger) (t : Trigger)
    → Below n ts
    → find_first test ts ≡ some t
    → find_first (has_id t.id) ts ≡ some t
unfolding find_first
find_self test n [] t b e = cc
find_self test n (u ∷ ts) t b e =
    ground (arith, found-Below test u.id ts t b.1, find_self test u.id ts t b.1)

-- Taking out the entry that a test finds takes out its id, and no other.
find-without_first :
    (test : Trigger → Bool) (n id : ℕ) (ts : List Trigger) (t : Trigger)
    → Below n ts
    → find_first test ts ≡ some t
    → find_first (has_id id) (without_first test ts)
      ≡ (if t.id == id then none else find_first (has_id id) ts)
unfolding find_first
find-without_first test n id [] t b e = cc
find-without_first test n id (u ∷ ts) t b e = ground (
  arith,
  find_above u.id id ts b.1,
  found-Below test u.id ts t b.1,
  find-without_first test u.id id ts t b.1,
)

-- Ids are distinct and under the next one, which is not about to wrap.
pub record IsFresh (ctx : TrigCtx) : Type 0 where
  pub falling : Below ctx.next ctx.ts
  pub room : ctx.next + 1 < 2 ^ 32

-- The trigger that a search by module, type and instance finds is none of another type.
spared :
    (ctx : TrigCtx) (module_id kind instance_id id : ℕ) (t u : Trigger)
    → Below ctx.next ctx.ts
    → trig_find_by_id ctx id ≡ some t
    → t.kind ≢ kind
    → find_first (has_inst module_id kind instance_id) ctx.ts ≡ some u
    → (if u.id == id then none else trig_find_by_id ctx id) ≡ some t
unfolding trig_find_by_id
spared ctx module_id kind instance_id id t u v found other e = ground (
  arith,
  find_passes (has_inst module_id kind instance_id) ctx.ts u,
  find_self (has_inst module_id kind instance_id) ctx.next ctx.ts u v,
)

pub find_head :
    (ctx : TrigCtx) (t : Trigger) (ts : List Trigger)
    → ctx.ts ≡ t ∷ ts
    → trig_find_by_id ctx t.id ≡ some t
unfolding trig_find_by_id find_first
find_head ctx t ts e = rw (e, ==_refl)

module _ (L : Emlist) where
  -- A trigger that is added gets the next id: it is found by it, every other id finds what it
  -- found before, and the ids stay distinct. The context is one with distinct ids below the next,
  -- which is not about to wrap.
  pub trig_add-find :
      (ctx : TrigCtx) (trig : Trigger) (id : ℕ)
      → IsFresh ctx
      → let (ctx', t) = trig_add L ctx trig in
        (t.id ≡ ctx.next)
        × Below ctx'.next ctx'.ts
        × (trig_find_by_id ctx' id ≡ (if ctx.next == id then some t else trig_find_by_id ctx id))
  unfolding trig_add trig_find_by_id
  trig_add-find ctx trig id v =
      (refl, rw L.list_add_first (omega arith, v.falling), rw L.list_add_first)

  -- The result of a deletion that meets this trigger, or none: what is returned, which heap is left
  -- and what the id `other` finds afterwards.
  abbrev pub Deleted : TrigCtx → Mem → ℕ → Option Trigger → TrigCtx × Mem × ℕ → Type 0
  Deleted ctx m other none r = r ≡ (ctx, m, minus_one)
  Deleted ctx m other (some t) r =
      (r.2 ≡ 0)
      × (r.1 ≡ trig_free t m)
      × (trig_find_by_id r.0 other ≡ (if t.id == other then none else trig_find_by_id ctx other))
      × Below ctx.next r.0.ts
      × (r.0.next ≡ ctx.next)

  deleted_lem :
      (test : Trigger → Bool) (ctx : TrigCtx) (m : Mem) (other : ℕ)
      → Below ctx.next ctx.ts
      → (o : Option Trigger) → find_first test ctx.ts ≡ o
      → Deleted ctx m other o (deleted L ctx m (del_first L test [] ctx.ts m))
  unfolding deleted trig_find_by_id
  deleted_lem test ctx m other v none e = rw (del_first_lem L test [] ctx.ts m, e)
  deleted_lem test ctx m other v (some t) e =
      rw (del_first_lem L test [] ctx.ts m, e)
        (
          refl,
          refl,
          find-without_first test ctx.next other ctx.ts t v e,
          without_first-Below test ctx.next ctx.ts v,
          refl,
        )

  -- Deletion by id, on a context with distinct ids: if the id finds a trigger, that one is freed,
  -- the result is 0, the id finds nothing afterwards and every other id what it found; otherwise the
  -- result is -1 and nothing changes.
  pub trig_del_by_id-Deleted :
      (ctx : TrigCtx) (m : Mem) (id other : ℕ)
      → Below ctx.next ctx.ts
      → Deleted ctx m other (trig_find_by_id ctx id) (trig_del_by_id L ctx m id)
  unfolding trig_del_by_id trig_find_by_id
  trig_del_by_id-Deleted ctx m id other v = deleted_lem (has_id id) ctx m other v _ refl

  -- Deletion by module, type and instance, on a context with distinct ids, takes out just the
  -- trigger that its test meets first, and fails with -1 and no change if there is none.
  pub trig_del_by_inst-Deleted :
      (ctx : TrigCtx) (m : Mem) (module_id kind instance_id other : ℕ)
      → Below ctx.next ctx.ts
      → Deleted ctx m other
          (find_first (has_inst module_id kind instance_id) ctx.ts)
          (trig_del_by_inst L ctx m module_id kind instance_id)
  unfolding trig_del_by_inst
  trig_del_by_inst-Deleted ctx m module_id kind instance_id other v =
      deleted_lem (has_inst module_id kind instance_id) ctx m other v _ refl

  -- A deletion by module, type and instance spares the triggers of another type.
  pub trig_del_by_inst-spares :
      (ctx : TrigCtx) (m : Mem) (module_id kind instance_id id : ℕ) (t : Trigger)
      → Below ctx.next ctx.ts
      → trig_find_by_id ctx id ≡ some t
      → t.kind ≢ kind
      → trig_find_by_id (trig_del_by_inst L ctx m module_id kind instance_id).0 id ≡ some t
  trig_del_by_inst-spares ctx m module_id kind instance_id id t v found other =
      elim (Option-cases (find_first (has_inst module_id kind instance_id) ctx.ts)) [
        | inl e ↦
            let d = rw e at (trig_del_by_inst-Deleted ctx m module_id kind instance_id id v) in
            rw d found
        | inr (u, e) ↦
            let d = rw e at (trig_del_by_inst-Deleted ctx m module_id kind instance_id id v) in
            d.2 ∙ spared ctx module_id kind instance_id id t u v found other e
      ]
