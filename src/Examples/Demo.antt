-- ===== src/Examples/Demo.antt =====
-- A platform on which everything succeeds, with messages whose byte 0 is the message type, byte 1
-- the action, byte 2 the operation (1 adds) and byte 3 the module.
use empower_enb_agent.Base.{
  ℕ, zero, suc, ◌+◌, true, false, none, some, List, [], ◌∷◌, ◌==◌, minus_one, if◌then◌else◌,
}
use empower_enb_agent.Emlist.{sequences}
use empower_enb_agent.Proto.{Proto, Msg, Rrc, ActType, MsgType, OpType, Dir}
use empower_enb_agent.Agent.{AgentOps, World, Host, Platform, connected}
use empower_enb_agent.Task.{Task, TaskType}
use empower_enb_agent.Trigger.{Trigger}

abbrev byte : List ℕ → ℕ → ℕ
byte [] i = 0
byte (b ∷ bs) zero = b
byte (b ∷ bs) (suc i) = byte bs i

abbrev msg_byte : Msg → ℕ → ℕ
msg_byte none i = 0
msg_byte (some bytes) i = byte bytes i

abbrev pub no_rrc : Rrc
no_rrc = record { meas_id = 0; rnti = 0; earfcn = 0; interval = 0; max_cells = 0; max_meas = 0 }

abbrev act_of : ℕ → ActType
act_of n =
    if n == 0
    then ActType.ue_report
    else (if n == 1 then ActType.cell_measure else (if n == 2 then ActType.ecap else ActType.other))

abbrev pub proto : Proto
proto = record {
  epp_head = λ msg size head. (0, record head { module_id = msg_byte msg 3 });
  epp_single_ho_req = λ msg size r. (0, r);
  epp_trigger_uemeas_req = λ msg size m. (0, m);
  epp_trigger_cell_meas_req = λ msg size. 0;
  epp_sched_cell_meas_req = λ msg size intv. (0, 500);
  epp_single_ran_slice_req = λ msg size id. (0, 1);
  epp_single_ran_slice_add = λ msg size id det. (0, 1, det);
  epp_single_ran_slice_rem = λ msg size id. (0, 1);
  epp_single_ran_slice_set = λ msg size id det. (0, 1, det);
  epp_msg_type =
      λ msg size. if msg_byte msg 0 == 0 then MsgType.trigger_msg else MsgType.single_msg;
  epp_single_type = λ msg size. act_of (msg_byte msg 1);
  epp_schedule_type = λ msg size. act_of (msg_byte msg 1);
  epp_trigger_type = λ msg size. act_of (msg_byte msg 1);
  epp_single_op = λ msg size. OpType.add;
  epp_trigger_op = λ msg size. if msg_byte msg 2 == 1 then OpType.add else OpType.rem;
  epp_dir = λ msg size. Dir.req;
  epp_sched_interval = λ msg size. 500;
  epp_msg_length = λ buf size. byte buf 0;
  epf_seq = λ bytes size seq. seq ∷ bytes;
  epf_sched_hello_req = λ size enb interval. some (enb ∷ interval ∷ []);
  ep_header_size = 4;
  ep_ran_users_max = 8;
}

abbrev platform : Platform
platform = record {
  malloc_ok = λ n. true;
  clock = λ n. record { tv_sec = 10 + n; tv_nsec = 0 };
  send_ok = λ n. true;
  junk_word = 0;
  junk_head = record { msg_type = 0; cell = 0; module_id = 0 };
  junk_meas = record { nof_rrc = 0; rrc = λ i. no_rrc };
}

abbrev pub host : Host
host = record { list = sequences; proto = proto; platform = platform }

-- The same with a network on which nothing can be sent.
abbrev pub offline : Host
offline = record {
  list = sequences;
  proto = proto;
  platform = record platform { send_ok = λ n. false };
}

abbrev pub all_ops : AgentOps
all_ops = record {
  init = true;
  release = true;
  disconnected = true;
  enb_setup_request = true;
  ue_report = true;
  ue_measure = true;
  handover_ue = true;
  cell_measure = true;
  ran_setup_request = true;
  slice_request = true;
  slice_add = true;
  slice_rem = true;
  slice_conf = true;
}

abbrev pub idle_task : Task
idle_task = record {
  id = 0;
  kind = TaskType.invalid;
  module_id = 0;
  msg = none;
  msg_size = 0;
  trig = 0;
  resch = 0;
  issued = record { tv_sec = 9; tv_nsec = 0 };
  elapse = 1;
}

-- The Hello, which is not due for some seconds.
abbrev pub hello_task : Task
hello_task = record idle_task { kind = TaskType.hello; resch = minus_one; elapse = 20000 }

abbrev pub send_task : Task
send_task = record idle_task { kind = TaskType.send; msg = some (5 ∷ 6 ∷ []); msg_size = 2 }

-- A report that is made three times.
abbrev pub report_task : Task
report_task = record idle_task { kind = TaskType.ue_report; trig = 1; resch = 2 }

abbrev pub old_trigger : Trigger
old_trigger = record { id = 1; kind = 0; module_id = 42; instance_id = 0; msg = none; msg_size = 0 }

-- A connected agent with one trigger, and these tasks in its queue.
abbrev pub agent_with : List Task → ℕ → World
agent_with jobs live = record {
  agent = record {
    enb_id = 3;
    ops = some all_ops;
    trig = record { ts = old_trigger ∷ []; next = 2 };
    net = record {
      addr = [];
      port = 2210;
      sockfd = 4;
      stop = false;
      status = connected;
      seq = 17;
      interval = 100;
    };
    sched = record { stop = false; jobs = jobs; todo = []; interval = 100 };
  };
  mem = record { calls = 0; live = live };
  asked = 0;
  out = [];
}
