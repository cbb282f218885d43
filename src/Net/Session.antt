-- ===== src/Net/Session.antt =====
-- A connection on which whole messages come in.
use empower_enb_agent.Base.{
  ℕ, zero, suc, ◌≡◌, ◌≤◌, ◌<◌, refl, ap, false, List, [], ◌∷◌, ◌++◌, length, take, drop, All, arith,
  length-append, ◌∙◌, ◌⊎◌, inl, inr, ◌^◌, some, subst, sym, append_assoc,
}
use empower_enb_agent.Agent.{World, Host, connected}
use empower_enb_agent.Net.Receive.{
  Answer, Link, Got, Ending, full, collect, collect_message, collect_body, checked, process,
  connection, handle, waits, disconnects,
}
use empower_enb_agent.Net.Untouched.{net_process_message_net}
use empower_enb_agent.Net.Connect.{Socket}
use empower_enb_agent.Net.Loop.{serve}
use empower_enb_agent.Net.Link.{net_not_connected}
use empower_enb_agent.Net.Quiet.{Dry, collect-Dry}
use empower_enb_agent.Net.Framing.{Calm, readies, Collected, collect_lem, take-drop, length-drop}

module _ (h : Host) where
  -- The bytes of one message: the header gives the length of the whole, which an `int` holds.
  pub record Whole (m : List ℕ) : Type 0 where
    pub has_header : h.ep_header_size ≤ length m
    pub has_length : h.epp_msg_length (take h.ep_header_size m) h.ep_header_size ≡ length m
    pub fits : length m < 2 ^ 31

  checked_full :
      (n : ℕ) (buf : List ℕ) (ans : List Answer) (s : Link)
      → length buf ≡ n
      → checked n (full buf ans s) ≡ full buf ans s
  unfolding checked
  checked_full n buf ans s e = ground arith

  length-take : (c : ℕ) (xs : List ℕ) → c ≤ length xs → length (take c xs) ≡ c
  length-take c xs le =
      omega
        (arith, length-append (take c xs) (drop c xs), ap length (take-drop c xs), length-drop c xs)

  collect_body-full :
      (hd : List ℕ) (ans : List Answer) (s : Link) (n : ℕ)
      → h.epp_msg_length hd (length hd) ≡ n
      → n < 2 ^ 31
      → collect_body h (full hd ans s) ≡ checked n (collect n hd ans s)
  unfolding collect_body
  collect_body-full hd ans s n e lt = rw e (ground arith)

  -- A whole message in front of the bytes to come is collected.
  pub collect_message_lem :
      (m tail : List ℕ) (ans : List Answer) (s : Link)
      → Whole m
      → s.world.agent.net.stop ≡ false
      → s.coming ≡ m ++ tail
      → Calm ans
      → length m ≤ readies ans
      → Collected m [] tail ans s (collect_message h ans s)
  unfolding collect_message
  collect_message_lem m tail ans s whole go e calm_ans enough =
      let n = h.ep_header_size in
      let hd = take n m in
      let cut = take-drop n m in
      let size = length-take n m whole.has_header in
      let e1 : s.coming ≡ hd ++ (drop n m ++ tail) =
        e ∙ ap (λ x. x ++ tail) (sym cut) ∙ append_assoc hd (drop n m) tail in
      let a =
        collect_lem hd [] (drop n m ++ tail) n ans s go e1 (omega (arith, size)) calm_ans
          (omega arith) in
      let b =
        collect_lem (drop n m) hd tail (length m) a.ans_left a.link
          (subst (λ w. w.agent.net.stop ≡ false) (sym a.same_world) go) a.left
          (omega (arith, size, length-drop n m, whole.has_header)) a.calm_left
          (omega (arith, size, a.enough_left, length-drop n m, whole.has_header)) in
      let len : h.epp_msg_length hd (length hd) ≡ length m =
        ap (h.epp_msg_length hd) size ∙ whole.has_length in
      record {
        ans_left = b.ans_left;
        link = b.link;
        is_full =
            ap (λ g. collect_body h (checked n g)) a.is_full
            ∙ ap (collect_body h) (checked_full n hd a.ans_left a.link size)
            ∙ collect_body-full hd a.ans_left a.link (length m) len whole.fits
            ∙ ap (checked (length m)) b.is_full
            ∙ ap (λ g. checked (length m) (full g b.ans_left b.link)) cut
            ∙ checked_full (length m) m b.ans_left b.link refl;
        same_world = b.same_world ∙ a.same_world;
        left = b.left;
        calm_left = b.calm_left;
        enough_left =
            omega (arith, a.enough_left, b.enough_left, size, length-drop n m, whole.has_header);
        grows = omega (arith, a.grows, b.grows);
        reached = λ p. grind (arith, a.reached, b.reached, b.grows, size, length-drop n m);
        no_more = omega (arith, a.no_more, b.no_more);
        fewer = λ p. grind (arith, a.fewer, b.fewer, a.no_more, b.no_more, size, length-drop n m);
      }

  -- What the network thread should do with these messages: handle each once, in order.
  abbrev pub process_all : List (List ℕ) → World → World
  process_all [] w = w
  process_all (m ∷ ms) w = process_all ms (process h m w)

  abbrev pub joined : List (List ℕ) → List ℕ
  joined [] = []
  joined (m ∷ ms) = m ++ joined ms

  handle_full :
      (next : List Answer → Link → Ending) (m : List ℕ) (ans : List Answer) (s : Link)
      → s.world.agent.net.status ≡ connected
      → handle h next (full m ans s) ≡ next ans (record s { world = process h m s.world })
  unfolding handle
  handle_full next m ans s c =
      rw (net_process_message_net h s.world (some m) (length m)) (rw c refl)

  connection_full :
      (fuel : ℕ) (ans ans' : List Answer) (s s' : Link) (m : List ℕ)
      → collect_message h ans s ≡ full m ans' s'
      → s'.world.agent.net.status ≡ connected
      → connection h (suc fuel) ans s
        ≡ connection h fuel ans' (record s' { world = process h m s'.world })
  unfolding connection
  connection_full fuel ans ans' s s' m e c =
      ap (handle h (connection h fuel)) e ∙ handle_full (connection h fuel) m ans' s' c

  -- The connection with nothing more to come: the thread waits, or closes it.
  abbrev pub Settled : World → Ending → Type 0
  Settled w r = (r ≡ waits w) ⊎ (r ≡ disconnects (net_not_connected w))

  Dry-Settled :
      (next : List Answer → Link → Ending) (w : World) (n : ℕ) (r : Got)
      → Dry w r
      → Settled w (handle h next (collect_body h (checked n r)))
  unfolding handle collect_body checked
  Dry-Settled next w n r d = elim d.outcome [
    | inl e ↦ inl (ap (λ g. handle h next (collect_body h (checked n g))) e ∙ ap waits d.same_world)
    | inr e ↦ inr (
        ap (λ g. handle h next (collect_body h (checked n g))) e
        ∙ ap (λ w. disconnects (net_not_connected w)) d.same_world)
  ]

  connection-Settled :
      (ms : List (List ℕ)) (fuel : ℕ) (ans : List Answer) (s : Link)
      → 0 < h.ep_header_size
      → All Whole ms
      → s.world.agent.net.stop ≡ false
      → s.world.agent.net.status ≡ connected
      → s.coming ≡ joined ms
      → Calm ans
      → length (joined ms) ≤ readies ans
      → length ans < fuel
      → Settled (process_all ms s.world) (connection h fuel ans s)
  unfolding connection collect_message
  connection-Settled ms zero ans s hd all go c e calm_ans enough lt = ground arith
  connection-Settled [] (suc fuel) ans s hd all go c e calm_ans enough lt =
      Dry-Settled (connection h fuel) s.world h.ep_header_size _
        (collect-Dry h.ep_header_size [] ans s go e (omega arith) calm_ans)
  connection-Settled (m ∷ ms) (suc fuel) ans s hd all go c e calm_ans enough lt =
      let size = length-append m (joined ms) in
      let r = collect_message_lem m (joined ms) ans s all.0 go e calm_ans (omega (arith, size)) in
      let net : (process h m r.link.world).agent.net ≡ s.world.agent.net =
        net_process_message_net h r.link.world (some m) (length m)
        ∙ ap (λ w. w.agent.net) r.same_world in
      let ih =
        connection-Settled ms fuel r.ans_left (record (r.link) { world = process h m r.link.world })
          hd all.1 (ap (λ x. x.stop) net ∙ go) (ap (λ x. x.status) net ∙ c) r.left r.calm_left
          (omega (arith, size, r.enough_left))
          (omega (arith, r.fewer (omega (arith, all.0.has_header, hd)))) in
      rw
        (connection_full fuel ans r.ans_left s r.link m r.is_full
          (ap (λ w. w.agent.net.status) r.same_world ∙ c))
        (subst
          (λ w.
            Settled (process_all ms (process h m w))
              (connection h fuel r.ans_left (record (r.link) { world = process h m r.link.world })))
          r.same_world ih)

  -- However the bytes of whole messages are cut up, and whatever waits lie between them, the network
  -- thread handles each message once and in order; then it waits for more, or, where it sees that
  -- the controller has closed the connection, resets it. The answers on the connection bring at
  -- least as many pieces as there are bytes, and neither an error nor a stop.
  pub serve-Settled :
      (ms : List (List ℕ)) (w : World) (sock : Socket)
      → 0 < h.ep_header_size
      → All Whole ms
      → w.agent.net.stop ≡ false
      → w.agent.net.status ≡ connected
      → sock.bytes ≡ joined ms
      → Calm sock.ans
      → length (joined ms) ≤ readies sock.ans
      → Settled (process_all ms w) (serve h w sock)
  unfolding serve
  serve-Settled ms w sock hd all go c e calm_ans enough =
      connection-Settled ms _ sock.ans _ hd all go c e calm_ans enough (omega arith)
