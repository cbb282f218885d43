-- ===== src/Trigger/Room.antt =====
-- A context whose triggers have distinct ids, with some more ids before the next one wraps.
use empower_enb_agent.Base.{ℕ, suc, ◌+◌, ◌<◌, ◌≤◌, ◌^◌, Option, none, some, arith}
use empower_enb_agent.Emlist.{Emlist}
use empower_enb_agent.Memory.{Mem}
use empower_enb_agent.Trigger.{
  Trigger, TrigCtx, trig_add, trig_find_by_id, find_first, has_inst, trig_del_by_id,
  trig_del_by_inst, trig_flush,
}
use empower_enb_agent.Trigger.Laws.{trig_flush_lem}
use empower_enb_agent.Trigger.Ids.{
  Below, Deleted, trig_add-find, trig_del_by_id-Deleted, trig_del_by_inst-Deleted,
}

-- The ids are distinct and below the next one, which does not wrap on `n` more triggers.
abbrev pub IsRoomy : ℕ → TrigCtx → Type 0
IsRoomy n ctx = Below ctx.next ctx.ts × (ctx.next + n < 2 ^ 32)

pub fewer-IsRoomy : (m n : ℕ) (ctx : TrigCtx) → n ≤ m → IsRoomy m ctx → IsRoomy n ctx
fewer-IsRoomy m n ctx le (b, r) = (b, omega arith)

module _ (L : Emlist) (n : ℕ) (ctx : TrigCtx) where
  Deleted-IsRoomy :
      (m : Mem) (o : Option Trigger) (r : TrigCtx × Mem × ℕ)
      → Deleted L ctx m 0 o r
      → IsRoomy n ctx
      → IsRoomy n r.0
  Deleted-IsRoomy m none r d room = rw d room
  Deleted-IsRoomy m (some t) r (_, _, _, below, next) (_, room) = (rw next below, omega arith)

  pub trig_add-IsRoomy : (t : Trigger) → IsRoomy (suc n) ctx → IsRoomy n (trig_add L ctx t).0
  unfolding trig_add
  trig_add-IsRoomy t (b, r) =
      ((trig_add-find L ctx t 0 (record { falling = b; room = omega arith })).1, omega arith)

  pub trig_del_by_id-IsRoomy :
      (m : Mem) (id : ℕ) → IsRoomy n ctx → IsRoomy n (trig_del_by_id L ctx m id).0
  trig_del_by_id-IsRoomy m id r =
      Deleted-IsRoomy m (trig_find_by_id ctx id) (trig_del_by_id L ctx m id)
        (trig_del_by_id-Deleted L ctx m id 0 r.0) r

  pub trig_del_by_inst-IsRoomy :
      (m : Mem) (module_id kind instance_id : ℕ)
      → IsRoomy n ctx
      → IsRoomy n (trig_del_by_inst L ctx m module_id kind instance_id).0
  trig_del_by_inst-IsRoomy m module_id kind instance_id r =
      Deleted-IsRoomy m (find_first (has_inst module_id kind instance_id) ctx.ts)
        (trig_del_by_inst L ctx m module_id kind instance_id)
        (trig_del_by_inst-Deleted L ctx m module_id kind instance_id 0 r.0) r

  pub trig_flush-IsRoomy : (m : Mem) → IsRoomy n ctx → IsRoomy n (trig_flush L ctx m).0
  trig_flush-IsRoomy m (b, r) = rw (trig_flush_lem L ctx m).0 (tt, r)
