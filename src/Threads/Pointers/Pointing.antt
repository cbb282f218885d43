-- ===== src/Threads/Pointers/Pointing.antt =====
-- The pointers that a thread has, and what it means that they point into the list.
use empower_enb_agent.Base.{ℕ, ◌<◌, ◌≡◌, Option, none, some, arith}
use empower_enb_agent.Trigger.{Trigger, TrigCtx, has_id, trig_find_by_id}
use empower_enb_agent.Trigger.Ids.{Below, found-Below, find_passes}
use empower_enb_agent.Threads.{Sched, looking, Net, linked}

abbrev pub sched_pointer : Sched → Option Trigger
sched_pointer (looking t now trig) = some trig
sched_pointer _ = none

abbrev pub net_pointer : Net → Option Trigger
net_pointer (linked trig kind) = some trig
net_pointer _ = none

-- What is pointed to is in the list.
abbrev pub Points : TrigCtx → Option Trigger → Type 0
Points ctx none = Unit
Points ctx (some trig) = trig_find_by_id ctx trig.id ≡ some trig

pub found_id :
    (ctx : TrigCtx) (id : ℕ) (trig : Trigger)
    → trig_find_by_id ctx id ≡ some trig
    → Points ctx (some trig)
unfolding trig_find_by_id
found_id ctx id trig e = ground (arith, find_passes (has_id id) ctx.ts trig e)

pub pointed-Below :
    (ctx : TrigCtx) (trig : Trigger)
    → Below ctx.next ctx.ts
    → Points ctx (some trig)
    → trig.id < ctx.next
unfolding trig_find_by_id
pointed-Below ctx trig b x = found-Below (has_id trig.id) ctx.next ctx.ts trig b x
