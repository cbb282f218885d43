-- ===== src/Threads/Races.antt =====
-- What can come between a lookup and the use of what it found.
use empower_enb_agent.Base.{
  ℕ, ◌≡◌, refl, ◌∙◌, true, false, none, some, ◌∷◌, arith, ==_refl, is_positive, is_negative, ltb,
}
use empower_enb_agent.Agent.{World, Host, sent, closed}
use empower_enb_agent.Task.{Task, TaskType}
use empower_enb_agent.Trigger.{Trigger, trig_find_by_id}
use empower_enb_agent.Trigger.Ids.{Below, trig_del_by_id-Deleted}
use empower_enb_agent.Sched.Time.{is_early}
use empower_enb_agent.Sched.Outcome.{has_op, write_seq, em_buf_size}
use empower_enb_agent.Net.Link.{net_not_connected, net_next_seq, net_send}
use empower_enb_agent.Net.Connect.{
  accepted, Socket, net_connect_to_controller, open_socket, connect_reply, connect_again, resolve,
}
use empower_enb_agent.Net.Handlers.{del_trigger_id}
use empower_enb_agent.Threads.Pointers.Pointing.{found_id}
use empower_enb_agent.Threads.{
  asked, holding, looking, Net, listening, find_measure, number, transmit, reset, attempt,
}
use empower_enb_agent.Threads.Together.{
  System, Moves, by_sched, by_net, em_del_trigger, start, later,
}

module _ (h : Host) where
  -- A deletion by id, which the public API does at any time, takes the trigger out.
  deleted_gone :
      (w : World) (trig : Trigger)
      → Below w.agent.trig.next w.agent.trig.ts
      → trig_find_by_id w.agent.trig trig.id ≡ some trig
      → trig_find_by_id (del_trigger_id h w trig.id).0.agent.trig trig.id ≡ none
  unfolding del_trigger_id
  deleted_gone w trig b found =
      let d = trig_del_by_id-Deleted h.list w.agent.trig w.mem trig.id trig.id b in
      (rw found at d).2 ∙ rw (==_refl trig.id) refl

  -- The scheduler uses a trigger after it was freed: between the lookup of a due UE measurement and
  -- the use of what it found comes a call of `em_del_trigger`, after which the trigger that the
  -- scheduler points to is in no list. The ids of the triggers are distinct.
  pub Moves-dangling :
      (w : World) (q : Net) (t : Task) (trig : Trigger)
      → t.kind ≡ TaskType.ue_measure
      → is_early t (h.clock w.asked) ≡ false
      → has_op (λ o. o.ue_measure) w.agent ≡ true
      → trig_find_by_id w.agent.trig t.trig ≡ some trig
      → Below w.agent.trig.next w.agent.trig.ts
      → (s : System) × Moves h (record { world = w; sched = holding t; net = q }) s
        × (s.sched ≡ looking t (h.clock w.asked) trig)
        × (trig_find_by_id s.world.agent.trig trig.id ≡ none)
  Moves-dangling w q t trig kind due set found b = (
    _,
    later (later start (by_sched (find_measure kind due set found))) (em_del_trigger trig.id),
    refl,
    deleted_gone (asked w) trig b (found_id w.agent.trig t.trig trig found),
  )

  -- A message with an old number: the scheduler takes a number for a message, the network thread
  -- resets the connection, which starts the numbers again at 0, and connects anew; then the message
  -- goes out on the new socket with the number of the old connection.
  pub Moves-stale :
      (w : World) (t : Task) (fd : ℕ) (sock : Socket)
      → t.kind ≡ TaskType.send
      → is_early t (h.clock w.asked) ≡ false
      → ltb em_buf_size t.msg_size ≡ false
      → is_positive w.agent.net.sockfd ≡ true
      → w.agent.net.stop ≡ false
      → is_negative fd ≡ false
      → (s : System) × Moves h (record { world = w; sched = holding t; net = listening }) s
        × (s.world.agent.net.sockfd ≡ fd)
        × (s.world.agent.net.seq ≡ 0)
        × (s.world.out
            ≡ sent (write_seq h t.msg t.msg_size w.agent.net.seq) t.msg_size
              ∷ closed w.agent.net.sockfd
              ∷ w.out)
  unfolding net_not_connected net_connect_to_controller resolve connect_again connect_reply
      open_socket net_send net_next_seq
  Moves-stale w t fd sock kind due fits up run ok = (
    _,
    later
        (later (later (later start (by_sched (number kind due fits))) (by_net reset)) (
          by_net
            (attempt (record { fd = fd; resolved = true; already = 0; reply = accepted sock }))))
        (by_sched transmit),
    ground arith,
    ground arith,
    ground arith,
  )
