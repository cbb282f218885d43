-- ===== src/Proto.antt =====
-- The emproto library (<emage/emproto.h>), which the agent calls to read and to write messages.
-- It is not part of the repository, so its functions are parameters. A reader that fills variables
-- of its caller takes their old contents and returns its status (0 is success) with the new ones.
use empower_enb_agent.Base.{ℕ, Option, List}

-- What the callers of `epp_head` read: the message type, the cell and the module.
pub record Head : Type 0 where
  pub msg_type : ℕ
  pub cell : ℕ
  pub module_id : ℕ

-- One RRC measurement of ep_ue_meas.
pub record Rrc : Type 0 where
  pub meas_id : ℕ
  pub rnti : ℕ
  pub earfcn : ℕ
  pub interval : ℕ
  pub max_cells : ℕ
  pub max_meas : ℕ

-- ep_ue_meas: an array and how many of its entries count.
pub record UeMeas : Type 0 where
  pub nof_rrc : ℕ
  pub rrc : ℕ → Rrc

pub record HoReq : Type 0 where
  pub rnti : ℕ
  pub tenb : ℕ
  pub tcell : ℕ
  pub cause : ℕ

-- ep_ran_slice_det
pub record SliceDet : Type 0 where
  pub usched : ℕ
  pub rbgs : ℕ
  pub nof_users : ℕ
  pub users : ℕ → ℕ

-- ep_act_type, ep_msg_type, ep_op_type and the direction of a message, as far as the agent tests
-- for them; `other` stands for every value that falls to a `default`.
pub data ActType : Type 0 where
  invalid hello ecap ue_report ue_measure handover cell_measure ran_setup ran_slice other : ActType

pub data MsgType : Type 0 where
  single_msg schedule_msg trigger_msg other : MsgType

pub data OpType : Type 0 where
  unspecified add rem set other : OpType

pub data Dir : Type 0 where
  req rep other : Dir

-- A message as it is handed over: a pointer, which may be null, and a size.
abbrev pub Msg : Type 0
Msg = Option (List ℕ)

pub record Proto : Type 0 where
  pub epp_head : Msg → ℕ → Head → ℕ × Head
  pub epp_single_ho_req : Msg → ℕ → HoReq → ℕ × HoReq
  pub epp_trigger_uemeas_req : Msg → ℕ → UeMeas → ℕ × UeMeas
  pub epp_trigger_cell_meas_req : Msg → ℕ → ℕ
  pub epp_sched_cell_meas_req : Msg → ℕ → ℕ → ℕ × ℕ
  pub epp_single_ran_slice_req : Msg → ℕ → ℕ → ℕ × ℕ
  pub epp_single_ran_slice_add : Msg → ℕ → ℕ → SliceDet → ℕ × ℕ × SliceDet
  pub epp_single_ran_slice_rem : Msg → ℕ → ℕ → ℕ × ℕ
  pub epp_single_ran_slice_set : Msg → ℕ → ℕ → SliceDet → ℕ × ℕ × SliceDet
  pub epp_msg_type : Msg → ℕ → MsgType
  pub epp_single_type : Msg → ℕ → ActType
  pub epp_schedule_type : Msg → ℕ → ActType
  pub epp_trigger_type : Msg → ℕ → ActType
  pub epp_single_op : Msg → ℕ → OpType
  pub epp_trigger_op : Msg → ℕ → OpType
  pub epp_dir : Msg → ℕ → Dir
  pub epp_sched_interval : Msg → ℕ → ℕ
  pub epp_msg_length : List ℕ → ℕ → ℕ
  -- The bytes of a message of the given size with the sequence number put in.
  pub epf_seq : List ℕ → ℕ → ℕ → List ℕ
  -- The Hello in a buffer of the given size, for an eNB and an interval; `none` is a negative length.
  pub epf_sched_hello_req : ℕ → ℕ → ℕ → Option (List ℕ)
  pub ep_header_size : ℕ
  pub ep_ran_users_max : ℕ
