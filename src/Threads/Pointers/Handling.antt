-- ===== src/Threads/Pointers/Handling.antt =====
-- The list of triggers under each step of the network thread.
use empower_enb_agent.Base.{
  ◌≡◌, refl, ap, subst, sym, Bool, true, false, Option, none, some, arith, ==_refl,
}
use empower_enb_agent.Agent.{World, Host}
use empower_enb_agent.Trigger.{Trigger, TrigCtx, trig_add}
use empower_enb_agent.Trigger.Ids.{IsFresh, trig_add-find}
use empower_enb_agent.Trigger.Room.{IsRoomy}
use empower_enb_agent.Sched.Job.{sched_add_task}
use empower_enb_agent.Net.Link.{net_not_connected}
use empower_enb_agent.Net.Connect.{net_connect_to_controller-Touched}
use empower_enb_agent.Net.Handlers.{new_task, new_trigger, add_trigger, hello_added}
use empower_enb_agent.Threads.{
  refuse, refuse_hello, leave, make, no_trigger, link, task, no_task, unlink, alloc, no_alloc, add,
  del, reset, attempt, online, Net, NetMove,
}
use empower_enb_agent.Threads.Pointers.Pointing.{Points, net_pointer, pointed-Below}

-- Whether a step takes triggers out of the list.
abbrev pub net_deletes : {h : Host} {w w' : World} {q q' : Net} → NetMove h w q w' q' → Bool
net_deletes unlink = true
net_deletes (del m kind i) = true
net_deletes _ = false

module _ (h : Host) where
  added-Points :
      (ctx : TrigCtx) (trig : Trigger) (o : Option Trigger)
      → IsRoomy 1 ctx
      → Points ctx o
      → Points (trig_add h.list ctx trig).0 o
  added-Points ctx trig none r x = tt
  added-Points ctx trig (some u) (b, room) x =
      let fresh : IsFresh ctx = record { falling = b; room = room } in
      let added = trig_add-find h.list ctx trig u.id fresh in
      ground (arith, pointed-Below ctx u b x, added.2)

  new_id-Points :
      (ctx : TrigCtx) (trig : Trigger)
      → IsRoomy 1 ctx
      → let (ctx', trig') = trig_add h.list ctx trig in Points ctx' (some trig')
  new_id-Points ctx trig (b, room) =
      let fresh : IsFresh ctx = record { falling = b; room = room } in
      let id = (trig_add h.list ctx trig).1.id in
      let added = trig_add-find h.list ctx trig id fresh in
      ground (arith, added.0, added.2, ==_refl id)

  -- What a step of the network thread that takes no trigger out does to any pointer and to its own.
  pub record Kept (w w' : World) (q' : Net) : Type 0 where
    pub any_pointer : (o : Option Trigger) → Points w.agent.trig o → Points w'.agent.trig o
    pub own : Points w'.agent.trig (net_pointer q')

  same-Kept :
      (w w' : World) (q' : Net)
      → w'.agent.trig ≡ w.agent.trig
      → net_pointer q' ≡ none
      → Kept w w' q'
  same-Kept w w' q' e n = record {
    any_pointer = λ o x. subst (λ c. Points c o) (sym e) x;
    own = subst (λ o. Points w'.agent.trig o) (sym n) tt;
  }

  pub NetMove-Kept :
      (w w' : World) (q q' : Net)
      → (mv : NetMove h w q w' q') → net_deletes mv ≡ false
      → IsRoomy 1 w.agent.trig
      → Kept w w' q'
  unfolding new_trigger new_task add_trigger sched_add_task hello_added net_not_connected
  NetMove-Kept w w' q q' (make {w' = w1} m kind i msg size tk e) d r =
      same-Kept w w1 _ (ap (λ x. x.0.agent.trig) (sym e)) refl
  NetMove-Kept w w' q q' (no_trigger {w' = w1} m kind i msg size e) d r =
      same-Kept w w1 _ (ap (λ x. x.0.agent.trig) (sym e)) refl
  NetMove-Kept w w' q q' (link {trig} {kind}) d r = record {
    any_pointer = λ o x. added-Points w.agent.trig trig o r x;
    own = new_id-Points w.agent.trig trig r;
  }
  NetMove-Kept w w' q q' (task {w' = w1} e) d r =
      same-Kept w w1 _ (ap (λ x. x.0.agent.trig) (sym e)) refl
  NetMove-Kept w w' q q' (no_task {w' = w1} e) d r =
      same-Kept w w1 _ (ap (λ x. x.0.agent.trig) (sym e)) refl
  NetMove-Kept w w' q q' unlink d r = cc
  NetMove-Kept w w' q q' (alloc {w' = w1} kind x y msg size e) d r =
      same-Kept w w1 _ (ap (λ z. z.0.agent.trig) (sym e)) refl
  NetMove-Kept w w' q q' (no_alloc {w' = w1} kind x y msg size e) d r =
      same-Kept w w1 _ (ap (λ z. z.0.agent.trig) (sym e)) refl
  NetMove-Kept w w' q q' (add {s} go) d r = same-Kept w _ _ (ground arith) refl
  NetMove-Kept w w' q q' (del m kind i) d r = cc
  NetMove-Kept w w' q q' reset d r = same-Kept w _ _ (ground arith) refl
  NetMove-Kept w w' q q' (attempt a) d r =
      same-Kept w _ _ (ap (λ x. x.agent.trig) (net_connect_to_controller-Touched w a).only) refl
  NetMove-Kept w w' q q' (refuse stop kind) d r = same-Kept w _ _ (ground arith) refl
  NetMove-Kept w w' q q' (refuse_hello {s} stop kind) d r = same-Kept w _ _ (ground arith) refl
  NetMove-Kept w w' q q' (leave stop) d r = same-Kept w _ _ refl refl
  NetMove-Kept w w' q q' online d r = same-Kept w _ _ refl refl
