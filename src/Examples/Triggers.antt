-- ===== src/Examples/Triggers.antt =====
-- Operations on the triggers of an agent.
use empower_enb_agent.Base.{◌≡◌, some, [], ◌∷◌, arith}
use empower_enb_agent.Emlist.{sequences}
use empower_enb_agent.Memory.{Mem}
use empower_enb_agent.Trigger.{Trigger, TrigCtx, trig_add, trig_find_by_id, trig_del_by_inst}
use empower_enb_agent.Trigger.Ids.{Below, trig_add-find}
use empower_enb_agent.Trigger.Removal.{Removed, trig_del_by_inst-Removed}
use empower_enb_agent.Examples.Demo.{old_trigger}

abbrev newer : Trigger
newer = record old_trigger { id = 2; module_id = 43; msg = some (1 ∷ []) }

abbrev ctx : TrigCtx
ctx = record { ts = newer ∷ old_trigger ∷ []; next = 3 }

abbrev mem : Mem
mem = record { calls = 3; live = 3 }

trig_add-find_example :
    let (ctx', t) = trig_add sequences ctx old_trigger in
    (t.id ≡ 3) × Below ctx'.next ctx'.ts × (trig_find_by_id ctx' 3 ≡ some t)
trig_add-find_example =
    trig_add-find sequences ctx old_trigger 3
      (record { falling = (omega arith, (omega arith, tt)); room = omega arith })

trig_del_by_inst-Removed_example :
    Removed 43 0 0 sequences ctx mem (trig_del_by_inst sequences ctx mem 43 0 0)
trig_del_by_inst-Removed_example = trig_del_by_inst-Removed 43 0 0 sequences ctx mem
