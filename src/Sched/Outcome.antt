-- ===== src/Sched/Outcome.antt =====
-- agent/sched.c, lines 24 to 27 and 110 to 146: the TASK_* codes and `sched_send_msg`.
use empower_enb_agent.Base.{ℕ, Bool, true, false, none, some, ltb, if◌then◌else◌}
use empower_enb_agent.Agent.{Agent, AgentOps, World, Host, set_net}
use empower_enb_agent.Proto.{Msg, Head}
use empower_enb_agent.Net.Link.{net_next_seq, net_send}

-- The TASK_* codes.
pub data Outcome : Type 0 where
  net_error consumed not_elapsed reschedule : Outcome

abbrev pub em_buf_size : ℕ
em_buf_size = 4096

-- `agent->ops && agent->ops->f`
unfoldable pub has_op : (AgentOps → Bool) → Agent → Bool
has_op f a = elim a.ops [ none ↦ false | some ops ↦ f ops ]

abbrev pub zero_head : Head
zero_head = record { msg_type = 0; cell = 0; module_id = 0 }

send_outcome : Bool → Outcome
send_outcome true = consumed
send_outcome false = net_error

-- `epf_seq(msg, size, seq)`, which writes into the buffer, if there is one.
unfoldable pub write_seq : Host → Msg → ℕ → ℕ → Msg
write_seq h none size seq = none
write_seq h (some bytes) size seq = some (h.epf_seq bytes size seq)

-- The message comes back with the sequence number in it, since the buffer is the caller's.
unfoldable pub sched_send_msg : Host → World → Msg → ℕ → World × Msg × Outcome
unfolding net_next_seq net_send send_outcome write_seq
sched_send_msg h w msg size =
    if ltb em_buf_size size
    then (w, msg, consumed)
    else (let (net, seq) = net_next_seq w.agent.net in
        let msg' = write_seq h msg size seq in
        let (w', ok) = net_send h (set_net net w) msg' size in (w', msg', send_outcome ok))
