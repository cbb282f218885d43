-- ===== src/Trigger.antt =====
-- agent/triggers.h and agent/triggers.c: the triggers of an agent. Each operation takes the lock of
-- the context for its whole access to the list, so it is one step of the context.
pub mod Laws
pub mod Ids
pub mod Removal
pub mod Room
use empower_enb_agent.Base.{
  ℕ, suc, ◌+◌, Bool, true, false, ◌&&◌, Option, none, some, List, [], ◌∷◌, ◌++◌, ◌==◌, u32,
  minus_one, if◌then◌else◌,
}
use empower_enb_agent.Emlist.{Emlist}
use empower_enb_agent.Memory.{Mem, malloc, free, free_msg, copy_msg}

-- enum trigger_type
abbrev pub tr_type_ue_rep : ℕ
tr_type_ue_rep = 0

abbrev pub tr_type_ue_meas : ℕ
tr_type_ue_meas = 1

abbrev pub tr_type_mac_rep : ℕ
tr_type_mac_rep = 2

-- struct emtri, without its list link
pub record Trigger : Type 0 where
  pub id : ℕ
  pub kind : ℕ
  pub module_id : ℕ
  pub instance_id : ℕ
  pub msg : Option (List ℕ)
  pub msg_size : ℕ

-- struct trctx, without its lock
pub record TrigCtx : Type 0 where
  pub ts : List Trigger
  pub next : ℕ

fill_trigger : Trigger → Mem × Option (Option (List ℕ) × ℕ) → Mem × Option Trigger
fill_trigger t (m, none) = (free m, none)
fill_trigger t (m, some (msg, size)) = (m, some (record t { msg = msg; msg_size = size }))

unfoldable pub trig_alloc :
    (ℕ → Bool) → Mem → ℕ → ℕ → ℕ → Option (List ℕ) → ℕ → Mem × Option Trigger
unfolding malloc free copy_msg fill_trigger
trig_alloc ok m module_id kind instance_id msg size =
    let (m', got) = malloc ok m in
    if got then fill_trigger cleared (copy_msg ok m' msg size) else (m', none)
  where
    cleared : Trigger
    cleared = record {
      id = 0;
      kind = kind;
      module_id = module_id;
      instance_id = instance_id;
      msg = none;
      msg_size = 0;
    }

unfoldable pub trig_free : Trigger → Mem → Mem
unfolding free free_msg
trig_free t m = free (free_msg t.msg m)

-- The tests of the loops.
abbrev pub has_id : ℕ → Trigger → Bool
has_id id t = t.id == id

-- In `trig_find_by_inst`.
abbrev pub is_inst : ℕ → ℕ → ℕ → Trigger → Bool
is_inst module_id kind instance_id t =
    t.module_id == module_id && (t.kind == kind && t.instance_id == instance_id)

-- In `trig_del_by_inst`.
abbrev pub has_inst : ℕ → ℕ → ℕ → Trigger → Bool
has_inst module_id kind instance_id t =
    t.kind == kind && (t.module_id == module_id && t.instance_id == instance_id)

-- `list_for_each_entry(t, &ctx->ts, next) if(test) return t; return 0;`
unfoldable pub find_first : (Trigger → Bool) → List Trigger → Option Trigger
find_first test [] = none
find_first test (t ∷ ts) = if test t then some t else find_first test ts

unfoldable pub trig_find_by_id : TrigCtx → ℕ → Option Trigger
unfolding find_first
trig_find_by_id ctx id = find_first (has_id id) ctx.ts

unfoldable pub trig_find_by_inst : TrigCtx → ℕ → ℕ → ℕ → Option Trigger
unfolding find_first
trig_find_by_inst ctx module_id kind instance_id =
    find_first (is_inst module_id kind instance_id) ctx.ts

module _ (L : Emlist) where
  open L use {list_add, list_del}

  -- The trigger with its id, which is also the result of the call.
  unfoldable pub trig_add : TrigCtx → Trigger → TrigCtx × Trigger
  trig_add ctx trig =
      let t = record trig { id = ctx.next } in
      (record { ts = list_add t ctx.ts; next = u32 (ctx.next + 1) }, t)

  -- `list_for_each_entry_safe(…) if(test) { list_del(&t->next); …; trig_free(t); return 0; }`, with
  -- the entries walked already. The result is the new list and the heap, if an entry was met.
  unfoldable pub del_first :
      (Trigger → Bool) → List Trigger → List Trigger → Mem → Option (List Trigger × Mem)
  unfolding trig_free
  del_first test before [] m = none
  del_first test before (t ∷ after) m =
      if test t
      then some (list_del before t after, trig_free t m)
      else del_first test (before ++ t ∷ []) after m

  unfoldable pub deleted : TrigCtx → Mem → Option (List Trigger × Mem) → TrigCtx × Mem × ℕ
  deleted ctx m none = (ctx, m, minus_one)
  deleted ctx m (some (ts, m')) = (record ctx { ts = ts }, m', 0)

  unfoldable pub trig_del_by_id : TrigCtx → Mem → ℕ → TrigCtx × Mem × ℕ
  unfolding del_first deleted
  trig_del_by_id ctx m id = deleted ctx m (del_first (has_id id) [] ctx.ts m)

  unfoldable pub trig_del_by_inst : TrigCtx → Mem → ℕ → ℕ → ℕ → TrigCtx × Mem × ℕ
  unfolding del_first deleted
  trig_del_by_inst ctx m module_id kind instance_id =
      deleted ctx m (del_first (has_inst module_id kind instance_id) [] ctx.ts m)

  -- The safe loop holds the next entry `u` in a variable before it unlinks `t`, the first one.
  unfoldable pub flush_loop : List Trigger → List Trigger → Mem → List Trigger × Mem
  unfolding trig_free
  flush_loop ts [] m = (ts, m)
  flush_loop ts (t ∷ u) m = flush_loop (list_del [] t u) u (trig_free t m)

  unfoldable pub trig_flush : TrigCtx → Mem → TrigCtx × Mem
  unfolding flush_loop
  trig_flush ctx m = let (ts, m') = flush_loop ctx.ts ctx.ts m in (record ctx { ts = ts }, m')
