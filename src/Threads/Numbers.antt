-- ===== src/Threads/Numbers.antt =====
-- The numbers of the messages that are sent, step by step.
use empower_enb_agent.Base.{
  ℕ, suc, ◌+◌, if◌then◌else◌, ◌≡◌, refl, ap, sym, ◌∙◌, Bool, true, false, Bool-cases, inl, inr,
  ◌&&◌, not, Option, none, some, List, u32, arith,
}
use empower_enb_agent.Agent.{Event, World, Host}
use empower_enb_agent.Proto.{Msg}
use empower_enb_agent.Task.{Task, TaskType, Timespec}
use empower_enb_agent.Trigger.{Trigger}
use empower_enb_agent.Sched.Perform.{measure_with, cell_meas_trigger}
use empower_enb_agent.Sched.Outcome.{Outcome, net_error, consumed, not_elapsed, reschedule}
use empower_enb_agent.Sched.Consume.{settle, dump_queues, flush_triggers, alert, requeue_all}
use empower_enb_agent.Sched.Job.{sched_add_task}
use empower_enb_agent.Sched.Sequence.{
  IsNumbered, numbered, sends, Orderly, Silent, of_Silent, measure_calls-Silent, job-Orderly,
  reset-Orderly,
}
use empower_enb_agent.Net.Link.{net_not_connected, net_next_seq, net_send}
use empower_enb_agent.Net.Connect.{net_connect_to_controller-Touched}
use empower_enb_agent.Net.Handlers.{
  new_task, new_trigger, add_trigger, del_trigger_id, del_trigger_inst, hello_added, schedule_msg,
  queue_new, net_sched_task,
}
use empower_enb_agent.Core.{core_send}
use empower_enb_agent.Threads.{
  refuse, refuse_hello, leave, make, no_trigger, link, task, no_task, unlink, alloc, no_alloc, add,
  del, reset, attempt, online, wake, pop, perform, find_measure, find_cell, use_measure, use_cell,
  number, transmit, settled, failed, flush, disconnect, empty, requeue, finish, Sched, sending, Net,
  SchedMove, NetMove, asked,
}
use empower_enb_agent.Threads.Together.{
  Moves, start, later, by_sched, by_net, em_send, em_send_refused, em_del_trigger, halt, halt_net,
  System, Move,
}

abbrev is_sending : Sched → Bool
is_sending (sending t now seq) = true
is_sending _ = false

abbrev is_reset : {h : Host} {w w' : World} {q q' : Net} → NetMove h w q w' q' → Bool
is_reset reset = true
is_reset _ = false

-- The resets of the connection by a step, added to those before.
abbrev sched_resets : {h : Host} {w w' : World} {p p' : Sched} → SchedMove h w p w' p' → ℕ → ℕ
sched_resets disconnect n = suc n
sched_resets _ n = n

abbrev resets_by : {h : Host} {s s' : System} → Move h s s' → ℕ → ℕ
resets_by (by_sched mv) n = sched_resets mv n
resets_by (by_net mv) n = if is_reset mv then suc n else n
resets_by _ n = n

-- The resets in a sequence of steps, added to those before.
abbrev pub resets : {h : Host} {s s' : System} → Moves h s s' → ℕ → ℕ
resets start n = n
resets (later more mv) n = resets_by mv (resets more n)

-- A reset of the connection after a number was taken and before it is used.
abbrev pub overtakes : {h : Host} {s s' : System} → Move h s s' → Bool
overtakes {s = s} (by_net mv) = is_reset mv && is_sending s.sched
overtakes _ = false

-- A sequence of steps with no such reset in it.
abbrev pub in_time : {h : Host} {s s' : System} → Moves h s s' → Bool
in_time start = true
in_time (later more mv) = in_time more && not (overtakes mv)

module _ (h : Host) (before : List Event) (first : ℕ) where
  -- The messages so far are numbered, and a number that was taken is the next.
  abbrev Numbers : ℕ → Sched → World → Type 0
  Numbers n (sending t now seq) w =
      IsNumbered h before first n (sends w.out) seq × (w.agent.net.seq ≡ u32 (seq + 1))
  Numbers n _ w = Orderly h before first n w

  abbrev pub Numbered : ℕ → System → Type 0
  Numbered n s = Numbers n s.sched s.world

  -- What neither sends nor resets.
  abbrev Quiet : World → World → Type 0
  Quiet w w' = (w'.out ≡ w.out) × (w'.agent.net.seq ≡ w.agent.net.seq)

  Quiet-Numbers : (n : ℕ) (p : Sched) (w w' : World) → Quiet w w' → Numbers n p w → Numbers n p w'
  Quiet-Numbers n (sending t now seq) w w' (a, b) (o, next) = (rw a o, b ∙ next)
  Quiet-Numbers n p w w' (a, b) o = rw (a, b) o

  settle-Orderly :
      (n : ℕ) (w : World) (t : Task) (now : Timespec) (op : Outcome)
      → Orderly h before first n w
      → Orderly h before first n (settle h w t now op)
  unfolding settle
  settle-Orderly n w t now not_elapsed o = o
  settle-Orderly n w t now reschedule o = o
  settle-Orderly n w t now consumed o = o
  settle-Orderly n w t now net_error o = o

  measured-Silent : (w : World) (trig : Trigger) → Silent w (measure_with h w (some trig)).0
  unfolding measure_with
  measured-Silent w trig = grind (arith, measure_calls-Silent)

  cell-Silent : (w : World) (trig : Trigger) → Silent w (cell_meas_trigger h w (some trig)).0
  unfolding cell_meas_trigger
  cell-Silent w trig = ground arith

  alert-Silent : (w : World) → Silent w (alert w)
  unfolding alert
  alert-Silent w = ground arith

  SchedMove-Numbers :
      (n : ℕ) (w w' : World) (p p' : Sched)
      → (mv : SchedMove h w p w' p') → Numbers n p w
      → Numbers (sched_resets mv n) p' w'
  unfolding net_next_seq net_send dump_queues flush_triggers requeue_all
  SchedMove-Numbers n w w' p p' (wake go) o = o
  SchedMove-Numbers n w w' p p' (pop e) o = o
  SchedMove-Numbers n w w' p p' (perform {t}) o =
      job-Orderly h before first n (asked w) t (h.clock w.asked) o
  SchedMove-Numbers n w w' p p' (find_measure kind due set found) o = o
  SchedMove-Numbers n w w' p p' (find_cell kind due set pos found) o = o
  SchedMove-Numbers n w w' p p' (use_measure {trig} kind) o =
      of_Silent h before first n w (measure_with h w (some trig)).0 (measured-Silent w trig) o
  SchedMove-Numbers n w w' p p' (use_cell {trig} kind) o =
      of_Silent h before first n w (cell_meas_trigger h w (some trig)).0 (cell-Silent w trig) o
  SchedMove-Numbers n w w' p p' (number kind due fits) o = (o, refl)
  SchedMove-Numbers n w w' p p' (transmit {t} {now} {seq}) (o, next) =
      rw next (numbered t.msg t.msg_size o)
  SchedMove-Numbers n w w' p p' (settled {t} {now} {op} ok) o = settle-Orderly n w t now op o
  SchedMove-Numbers n w w' p p' (failed {t} {now} {op} ne) o = settle-Orderly n w t now op o
  SchedMove-Numbers n w w' p p' flush o = o
  SchedMove-Numbers n w w' p p' disconnect o =
      reset-Orderly h before first n (alert w)
        (of_Silent h before first n w (alert w) (alert-Silent w) o)
  SchedMove-Numbers n w w' p p' (empty e) o = o
  SchedMove-Numbers n w w' p p' requeue o = o
  SchedMove-Numbers n w w' p p' (finish stop) o = o

  NetMove-Quiet :
      (w w' : World) (q q' : Net) → (mv : NetMove h w q w' q') → is_reset mv ≡ false → Quiet w w'
  unfolding new_task new_trigger add_trigger del_trigger_id del_trigger_inst sched_add_task
      hello_added
  NetMove-Quiet w w' q q' (make m kind i msg size tk e) r =
      (ap (λ x. x.0.out) (sym e), ap (λ x. x.0.agent.net.seq) (sym e))
  NetMove-Quiet w w' q q' (no_trigger m kind i msg size e) r =
      (ap (λ x. x.0.out) (sym e), ap (λ x. x.0.agent.net.seq) (sym e))
  NetMove-Quiet w w' q q' link r = (refl, refl)
  NetMove-Quiet w w' q q' (task e) r =
      (ap (λ x. x.0.out) (sym e), ap (λ x. x.0.agent.net.seq) (sym e))
  NetMove-Quiet w w' q q' (no_task e) r =
      (ap (λ x. x.0.out) (sym e), ap (λ x. x.0.agent.net.seq) (sym e))
  NetMove-Quiet w w' q q' unlink r = (refl, refl)
  NetMove-Quiet w w' q q' (alloc kind x y msg size e) r =
      (ap (λ z. z.0.out) (sym e), ap (λ z. z.0.agent.net.seq) (sym e))
  NetMove-Quiet w w' q q' (no_alloc kind x y msg size e) r =
      (ap (λ z. z.0.out) (sym e), ap (λ z. z.0.agent.net.seq) (sym e))
  NetMove-Quiet w w' q q' (add go) r = (ground arith, ground arith)
  NetMove-Quiet w w' q q' (del m kind i) r = (refl, refl)
  NetMove-Quiet w w' q q' reset r = cc
  NetMove-Quiet w w' q q' (attempt a) r =
      let t = net_connect_to_controller-Touched w a in
      (ap (λ x. x.out) t.only, ap (λ x. x.agent.net.seq) t.only)
  NetMove-Quiet w w' q q' (refuse stop kind) r = (ground arith, ground arith)
  NetMove-Quiet w w' q q' (refuse_hello stop kind) r = (ground arith, ground arith)
  NetMove-Quiet w w' q q' (leave stop) r = (refl, refl)
  NetMove-Quiet w w' q q' online r = (refl, refl)

  reset-Numbers :
      (n : ℕ) (p : Sched) (w : World)
      → is_sending p ≡ false
      → Numbers n p w
      → Numbers (suc n) p (net_not_connected w)
  reset-Numbers n (sending t now seq) w idle o = cc
  reset-Numbers n p w idle o = reset-Orderly h before first n w o

  reset_only :
      (w w' : World) (q q' : Net)
      → (mv : NetMove h w q w' q') → is_reset mv ≡ true
      → w' ≡ net_not_connected w
  reset_only w w' q q' reset r = refl
  reset_only w w' q q' mv r = cc

  NetMove-Numbers :
      (n : ℕ) (p : Sched) (w w' : World) (q q' : Net)
      → (mv : NetMove h w q w' q') → (is_reset mv && is_sending p) ≡ false
      → Numbers n p w
      → Numbers (if is_reset mv then suc n else n) p w'
  NetMove-Numbers n p w w' q q' mv v o = elim (Bool-cases (is_reset mv)) [
    | inl r ↦ rw (r, reset_only w w' q q' mv r) (reset-Numbers n p w (ground (arith, r, v)) o)
    | inr r ↦ rw r (Quiet-Numbers n p w w' (NetMove-Quiet w w' q q' mv r) o)
  ]

  queued-Quiet : (w : World) (o : Option Task) → Quiet w (queue_new h (w, o)).0
  unfolding queue_new net_sched_task sched_add_task
  queued-Quiet w none = (refl, refl)
  queued-Quiet w (some t) = (ground arith, ground arith)

  deleted-Quiet : (w : World) (id : ℕ) → Quiet w (del_trigger_id h w id).0
  unfolding del_trigger_id
  deleted-Quiet w id = (refl, refl)

  send-Quiet : (w : World) (msg : Msg) (size : ℕ) → Quiet w (core_send h w msg size).0
  unfolding core_send schedule_msg new_task
  send-Quiet w msg size =
      let made = new_task h w TaskType.send 1 0 0 msg size in queued-Quiet made.0 made.1

  Move-Numbered :
      (n : ℕ) (s s' : System)
      → (mv : Move h s s') → overtakes mv ≡ false
      → Numbered n s
      → Numbered (resets_by mv n) s'
  Move-Numbered n s s' (by_sched {w} {p} mv) v o = SchedMove-Numbers n s.world w s.sched p mv o
  Move-Numbered n s s' (by_net {w} {q} mv) v o = NetMove-Numbers n s.sched s.world w s.net q mv v o
  Move-Numbered n s s' (em_send msg size go) v o =
      Quiet-Numbers n s.sched s.world s'.world (send-Quiet s.world msg size) o
  Move-Numbered n s s' (em_send_refused msg size stop) v o =
      Quiet-Numbers n s.sched s.world s'.world (send-Quiet s.world msg size) o
  Move-Numbered n s s' (em_del_trigger id) v o =
      Quiet-Numbers n s.sched s.world s'.world (deleted-Quiet s.world id) o
  Move-Numbered n s s' halt_net v o = Quiet-Numbers n s.sched s.world s'.world (refl, refl) o
  Move-Numbered n s s' halt v o = Quiet-Numbers n s.sched s.world s'.world (refl, refl) o

  -- At every moment, with the steps of the threads and of the public API in any order, but with no
  -- reset by the network thread between the taking and the use of a number: the messages that are
  -- sent have numbers that follow one another and wrap at 2 ^ 32, from `first` on, but start again
  -- at 0 just as often as a step of either thread has reset the connection; and a number that was
  -- taken and is not yet used is the next; where it was so before, with `n` resets.
  pub Moves-Numbered :
      (n : ℕ) (s s' : System)
      → (ms : Moves h s s') → in_time ms ≡ true
      → Numbered n s
      → Numbered (resets ms n) s'
  Moves-Numbered n s s' start v o = o
  Moves-Numbered n s s' (later {s1} more mv) v o =
      Move-Numbered (resets more n) s1 s' mv (ground arith)
        (Moves-Numbered n s s1 more (ground arith) o)
