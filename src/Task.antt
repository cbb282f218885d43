-- ===== src/Task.antt =====
-- agent/task.h and agent/task.c: the tasks of the scheduler.
use empower_enb_agent.Base.{ℕ, ◌==◌, Bool, Option, none, some, List, if◌then◌else◌}
use empower_enb_agent.Memory.{Mem, malloc, free, free_msg, copy_msg}

-- enum TASK_TYPES
pub data TaskType : Type 0 where
  invalid send hello enb_setup ue_report ue_measure cell_measure ho ran_setup ran_slice : TaskType

-- The value of an enumerator.
abbrev pub task_type_code : TaskType → ℕ
task_type_code invalid = 0
task_type_code send = 1
task_type_code hello = 2
task_type_code enb_setup = 3
task_type_code ue_report = 4
task_type_code ue_measure = 5
task_type_code cell_measure = 6
task_type_code ho = 7
task_type_code ran_setup = 8
task_type_code ran_slice = 9

-- struct timespec
pub record Timespec : Type 0 where
  pub tv_sec : ℕ
  pub tv_nsec : ℕ

abbrev pub epoch : Timespec
epoch = record { tv_sec = 0; tv_nsec = 0 }

-- struct emtask, without its list link
pub record Task : Type 0 where
  pub id : ℕ
  pub kind : TaskType
  pub module_id : ℕ
  pub msg : Option (List ℕ)
  pub msg_size : ℕ
  pub trig : ℕ
  pub resch : ℕ
  pub issued : Timespec
  pub elapse : ℕ

fill_task : Task → Mem × Option (Option (List ℕ) × ℕ) → Mem × Option Task
fill_task t (m, none) = (free m, none)
fill_task t (m, some (msg, size)) = (m, some (record t { msg = msg; msg_size = size }))

unfoldable pub task_alloc :
    (ℕ → Bool) → Mem → TaskType → ℕ → ℕ → ℕ → Option (List ℕ) → ℕ → Mem × Option Task
unfolding malloc free copy_msg fill_task
task_alloc ok m kind interval res trigger msg size =
    let (m', got) = malloc ok m in
    if got then fill_task cleared (copy_msg ok m' msg size) else (m', none)
  where
    cleared : Task
    cleared = record {
      id = 0;
      kind = kind;
      module_id = 0;
      msg = none;
      msg_size = 0;
      trig = if trigger == 0 then 0 else trigger;
      resch = res;
      issued = epoch;
      elapse = interval;
    }

unfoldable pub task_free : Task → Mem → Mem
unfolding free free_msg
task_free t m = free (free_msg t.msg m)
