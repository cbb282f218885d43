-- ===== src/Examples/Network.antt =====
-- Messages from the controller.
use empower_enb_agent.Base.{ℕ, ◌≡◌, refl, true, some, List, [], ◌∷◌, ◌++◌, arith, minus_one}
use empower_enb_agent.Agent.{Event, World, emit}
use empower_enb_agent.Task.{Task, TaskType, task_type_code}
use empower_enb_agent.Trigger.{trig_find_by_id}
use empower_enb_agent.Sched.Outcome.{has_op, consumed}
use empower_enb_agent.Sched.Job.{perform}
use empower_enb_agent.Net.Handlers.{
  schedule_msg, net_te_ue_report, net_te_cell_meas_report, msg_module,
}
use empower_enb_agent.Net.Process.{schedule_msg-leaks}
use empower_enb_agent.Net.Triggers.{
  Memory3, requested, ue_report_roundtrip, cell_meas_not_removed, ue_report_module,
}
use empower_enb_agent.Examples.Demo.{host, hello_task, agent_with}

abbrev start : World
start = agent_with (hello_task ∷ []) 3

abbrev stopped : World
stopped = record start {
  agent = record (start.agent) { sched = record (start.agent.sched) { stop = true } };
}

-- Requests of module 9: add and remove a UE report, and a cell measurement.
abbrev add_report : List ℕ
add_report = 0 ∷ 0 ∷ 1 ∷ 9 ∷ []

abbrev rem_report : List ℕ
rem_report = 0 ∷ 0 ∷ 2 ∷ 9 ∷ []

abbrev add_measure : List ℕ
add_measure = 0 ∷ 1 ∷ 1 ∷ 9 ∷ []

abbrev rem_measure : List ℕ
rem_measure = 0 ∷ 1 ∷ 2 ∷ 9 ∷ []

memory : Memory3 host start
memory = record { first = refl; second = refl; third = refl }

schedule_msg-leaks_example :
    let r = schedule_msg host stopped TaskType.ho 1 0 (some add_report) 4 in
    (r.1 ≡ minus_one) × (r.0.agent ≡ stopped.agent) × (r.0.mem.live ≡ 5)
schedule_msg-leaks_example =
    schedule_msg-leaks host stopped TaskType.ho 1 0 add_report 4 refl refl refl

ue_report_roundtrip_example :
    let w1 = (net_te_ue_report host start (some add_report) 4).0 in
    let r = net_te_ue_report host w1 (some rem_report) 4 in
    (r.1 ≡ 0) × (r.0.agent.trig.ts ≡ start.agent.trig.ts)
unfolding msg_module
ue_report_roundtrip_example =
    ue_report_roundtrip host start add_report 4 memory rem_report 4 refl refl refl

cell_meas_not_removed_example :
    let w1 = (net_te_cell_meas_report host start (some add_measure) 4).0 in
    let w2 = (net_te_cell_meas_report host w1 (some rem_measure) 4).0 in
    trig_find_by_id w2.agent.trig 2
    ≡ some (requested host start (task_type_code TaskType.cell_measure) add_measure 4)
cell_meas_not_removed_example =
    cell_meas_not_removed host start add_measure 4 memory rem_measure 4
      (record { falling = (omega arith, tt); room = omega arith }) refl refl

ue_report_module_example :
    (t : Task) × ((net_te_ue_report host start (some add_report) 4).0.agent.sched.jobs
      ≡ start.agent.sched.jobs ++ t ∷ [])
    × (perform host start t t.kind ≡ (emit (Event.ue_report 0 2) start, t, consumed))
unfolding has_op
ue_report_module_example = ue_report_module host start start add_report 4 memory refl refl refl
