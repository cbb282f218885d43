-- ===== src/Sched/Sequence.antt =====
-- The sequence numbers of the messages that are sent.
use empower_enb_agent.Base.{
  ℕ, zero, suc, ◌+◌, ◌≡◌, refl, Option, none, some, List, [], ◌∷◌, length, arith, u32, Bool-cases,
  inl, inr, ltb, is_positive,
}
use empower_enb_agent.Agent.{Event, World, Host, sent}
use empower_enb_agent.Proto.{Msg, Rrc}
use empower_enb_agent.Task.{Task, TaskType, Timespec}
use empower_enb_agent.Trigger.{Trigger}
use empower_enb_agent.Sched.Outcome.{write_seq, sched_send_msg, em_buf_size}
use empower_enb_agent.Sched.Perform.{
  sched_perform_send, sched_perform_hello, hello_send, sched_perform_enb_setup,
  sched_perform_ue_report, sched_perform_ue_measure, sched_perform_cell_meas, sched_perform_ho,
  sched_perform_ran_setup, sched_perform_ran_slice, ue_measure_calls,
}
use empower_enb_agent.Sched.Time.{is_early}
use empower_enb_agent.Sched.Job.{sched_perform_job, perform}
use empower_enb_agent.Net.Link.{net_not_connected, net_send, net_next_seq}

-- The messages among the calls.
abbrev pub sends : List Event → List Event
sends [] = []
sends (Event.sent msg size ∷ es) = Event.sent msg size ∷ sends es
sends (e ∷ es) = sends es

-- The messages that were sent since `before`, when the next number was `first`, have numbers that
-- follow one another, but start again at 0 after each of so many resets of the connection; and the
-- next number is the last index.
pub data IsNumbered (h : Host) (before : List Event) (first : ℕ) : ℕ → List Event → ℕ → Type 0 where
  begun : IsNumbered h before first 0 before first
  numbered :
      {n : ℕ} {out : List Event} {seq : ℕ} (msg : Msg) (size : ℕ)
      → IsNumbered h before first n out seq
      → IsNumbered h before first n (sent (write_seq h msg size seq) size ∷ out) (u32 (seq + 1))
  reset :
      {n : ℕ} {out : List Event} {seq : ℕ}
      → IsNumbered h before first n out seq
      → IsNumbered h before first (suc n) out 0

-- The same messages, and the same next number.
abbrev pub Silent : World → World → Type 0
Silent w r = (sends r.out ≡ sends w.out) × (r.agent.net ≡ w.agent.net)

pub measure_calls-Silent :
    (t : Trigger) (rrc : ℕ → Rrc) (n : ℕ) (w : World) → Silent w (ue_measure_calls t rrc n w)
unfolding ue_measure_calls
measure_calls-Silent t rrc zero w = (refl, refl)
measure_calls-Silent t rrc (suc n) w = measure_calls-Silent t rrc n _

module _ (h : Host) (w : World) (t : Task) where
  ue_measure-Silent : Silent w (sched_perform_ue_measure h w t).0
  unfolding sched_perform_ue_measure
  ue_measure-Silent = grind (arith, measure_calls-Silent)

  cell_meas-Silent : Silent w (sched_perform_cell_meas h w t).0
  unfolding sched_perform_cell_meas
  cell_meas-Silent = ground arith

  ran_slice-Silent : Silent w (sched_perform_ran_slice h w t).0
  unfolding sched_perform_ran_slice
  ran_slice-Silent = ground arith

  ho-Silent : Silent w (sched_perform_ho h w t).0
  unfolding sched_perform_ho
  ho-Silent = ground arith

  enb_setup-Silent : Silent w (sched_perform_enb_setup h w t).0
  unfolding sched_perform_enb_setup
  enb_setup-Silent = ground arith

  ue_report-Silent : Silent w (sched_perform_ue_report w t).0
  unfolding sched_perform_ue_report
  ue_report-Silent = ground arith

  ran_setup-Silent : Silent w (sched_perform_ran_setup h w t).0
  unfolding sched_perform_ran_setup
  ran_setup-Silent = ground arith

module _ (h : Host) (before : List Event) (first n : ℕ) where
  abbrev pub Orderly : World → Type 0
  Orderly w = IsNumbered h before first n (sends w.out) w.agent.net.seq

  pub of_Silent : (w r : World) → Silent w r → Orderly w → Orderly r
  of_Silent w r (e, f) o = rw (e, f) o

  send_msg-Orderly :
      (w : World) (msg : Msg) (size : ℕ) → Orderly w → Orderly (sched_send_msg h w msg size).0
  unfolding sched_send_msg net_next_seq net_send
  send_msg-Orderly w msg size o = elim (Bool-cases (ltb em_buf_size size)) [
    | inl b ↦ rw b o
    | inr b ↦ rw b (numbered msg size o)
  ]

  hello_send-Orderly : (w : World) (o : Option (List ℕ)) → Orderly w → Orderly (hello_send h w o).0
  unfolding hello_send
  hello_send-Orderly w none o = o
  hello_send-Orderly w (some buf) o = send_msg-Orderly w (some buf) (length buf) o

  perform-Orderly : (w : World) (t : Task) (k : TaskType) → Orderly w → Orderly (perform h w t k).0
  unfolding perform sched_perform_send sched_perform_hello
  perform-Orderly w t TaskType.send o = send_msg-Orderly w t.msg t.msg_size o
  perform-Orderly w t TaskType.hello o =
      hello_send-Orderly w (h.epf_sched_hello_req 64 w.agent.enb_id t.elapse) o
  perform-Orderly w t TaskType.ue_measure o =
      of_Silent w (sched_perform_ue_measure h w t).0 (ue_measure-Silent h w t) o
  perform-Orderly w t TaskType.cell_measure o =
      of_Silent w (sched_perform_cell_meas h w t).0 (cell_meas-Silent h w t) o
  perform-Orderly w t TaskType.ran_slice o =
      of_Silent w (sched_perform_ran_slice h w t).0 (ran_slice-Silent h w t) o
  perform-Orderly w t TaskType.ho o = of_Silent w (sched_perform_ho h w t).0 (ho-Silent h w t) o
  perform-Orderly w t TaskType.enb_setup o =
      of_Silent w (sched_perform_enb_setup h w t).0 (enb_setup-Silent h w t) o
  perform-Orderly w t TaskType.ue_report o =
      of_Silent w (sched_perform_ue_report w t).0 (ue_report-Silent h w t) o
  perform-Orderly w t TaskType.ran_setup o =
      of_Silent w (sched_perform_ran_setup h w t).0 (ran_setup-Silent h w t) o
  perform-Orderly w t TaskType.invalid o = o

  pub job-Orderly :
      (w : World) (t : Task) (now : Timespec) → Orderly w → Orderly (sched_perform_job h w t now).0
  unfolding sched_perform_job
  job-Orderly w t now o = elim (Bool-cases (is_early t now)) [
    | inl e ↦ rw e o
    | inr e ↦ rw e (perform-Orderly w t t.kind o)
  ]

  pub reset-Orderly :
      (w : World)
      → Orderly w
      → let w' = net_not_connected w in
        IsNumbered h before first (suc n) (sends w'.out) w'.agent.net.seq
  unfolding net_not_connected
  reset-Orderly w o = elim (Bool-cases (is_positive w.agent.net.sockfd)) [
    | inl e ↦ rw e (reset o)
    | inr e ↦ rw e (reset o)
  ]
