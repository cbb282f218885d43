-- ===== src/Net/Quiet.antt =====
-- Collecting a message when nothing more comes in.
use empower_enb_agent.Base.{
  ℕ, zero, suc, ◌-◌, ◌≡◌, ◌<◌, refl, ap, Bool, true, false, List, [], ◌∷◌, length, take, drop, min,
  arith, ◌⊎◌, inl, inr, ◌∙◌, if◌then◌else◌,
}
use empower_enb_agent.Agent.{World, Host}
use empower_enb_agent.Net.Receive.{
  Answer, ready, again, broken, stopping, Link, Got, waiting, lost, collect, after_recv, net_recv,
  connection, collect_message, collect_body, checked, handle, waits,
}
use empower_enb_agent.Net.Connect.{Socket}
use empower_enb_agent.Net.Loop.{serve}
use empower_enb_agent.Net.Framing.{Calm, guarded_go}

take-nil : (c : ℕ) → take {A = ℕ} c [] ≡ []
take-nil zero = refl
take-nil (suc c) = refl

drop-nil : (c : ℕ) → drop {A = ℕ} c [] ≡ []
drop-nil zero = refl
drop-nil (suc c) = refl

-- With no byte to come, the collection waits, or it meets the end of the connection.
pub record Dry (w : World) (r : Got) : Type 0 where
  pub link : Link
  pub same_world : link.world ≡ w
  pub outcome : (r ≡ waiting link) ⊎ (r ≡ lost link)

if_Dry :
    (w : World) (b : Bool) (s' : Link) (next : Got)
    → s'.world ≡ w
    → Dry w next
    → Dry w (if b then next else lost s')
if_Dry w true s' next e d = d
if_Dry w false s' next e d = record { link = s'; same_world = e; outcome = inr refl }

after_recv-Dry :
    (w : World) (got : List ℕ) (s' : Link) (next r : Got)
    → got ≡ []
    → s'.world ≡ w
    → Dry w next
    → Dry w (after_recv got s' next r)
unfolding after_recv
after_recv-Dry w got s' next r none e d = rw none (if_Dry w s'.eagain s' next e d)

pub collect-Dry :
    (n : ℕ) (buf : List ℕ) (ans : List Answer) (s : Link)
    → s.world.agent.net.stop ≡ false
    → s.coming ≡ []
    → length buf < n
    → Calm ans
    → Dry s.world (collect n buf ans s)
unfolding collect net_recv
collect-Dry n buf [] s go e lt c = record {
  link = s;
  same_world = refl;
  outcome = inl (guarded_go n buf [] s _ lt go);
}
collect-Dry n buf (again ∷ ans) s go e lt c =
    rw (guarded_go n buf (again ∷ ans) s _ lt go)
      (collect-Dry n buf ans (record s { eagain = true }) go e lt c.1)
collect-Dry n buf (ready k ∷ ans) s go e lt c =
    let size = min (suc k) (n - length buf) in
    let ih = collect-Dry n buf ans _ go (ap (drop size) e ∙ drop-nil size) lt c.1 in
    rw (guarded_go n buf (ready k ∷ ans) s _ lt go)
      (after_recv-Dry s.world _ _ _ _ (ap (take size) e ∙ take-nil size) refl ih)
collect-Dry n buf (broken ∷ ans) s go e lt c = ground arith
collect-Dry n buf (stopping ∷ ans) s go e lt c = ground arith

abbrev pub Deaf : World → Got → Type 0
Deaf w r = (s' : Link) × (s'.world ≡ w) × (r ≡ waiting s')

after_recv-Deaf :
    (w : World) (got : List ℕ) (s' : Link) (next r : Got)
    → got ≡ []
    → s'.eagain ≡ true
    → Deaf w next
    → Deaf w (after_recv got s' next r)
unfolding after_recv
after_recv-Deaf w got s' next r none errno d = rw none (rw errno d)

-- The same where `errno` is left at EAGAIN: the end of the connection goes unseen.
pub collect-Deaf :
    (n : ℕ) (buf : List ℕ) (ans : List Answer) (s : Link)
    → s.world.agent.net.stop ≡ false
    → s.coming ≡ []
    → s.eagain ≡ true
    → length buf < n
    → Calm ans
    → Deaf s.world (collect n buf ans s)
unfolding collect net_recv
collect-Deaf n buf [] s go e errno lt c = (s, refl, guarded_go n buf [] s _ lt go)
collect-Deaf n buf (again ∷ ans) s go e errno lt c =
    rw (guarded_go n buf (again ∷ ans) s _ lt go)
      (collect-Deaf n buf ans (record s { eagain = true }) go e refl lt c.1)
collect-Deaf n buf (ready k ∷ ans) s go e errno lt c =
    let size = min (suc k) (n - length buf) in
    let g = net_recv s k (length buf) (n - length buf) in
    let ih = collect-Deaf n buf ans g.1 go (ap (drop size) e ∙ drop-nil size) errno lt c.1 in
    rw (guarded_go n buf (ready k ∷ ans) s _ lt go)
      (after_recv-Deaf s.world g.0 g.1 _ _ (ap (take size) e ∙ take-nil size) errno ih)
collect-Deaf n buf (broken ∷ ans) s go e errno lt c = ground arith
collect-Deaf n buf (stopping ∷ ans) s go e errno lt c = ground arith

module _ (h : Host) where
  -- Where `errno` is left at EAGAIN by an earlier call, the network thread does not notice that the
  -- controller has closed the connection: it goes on waiting and stays connected, however often
  -- `recv` returns 0.
  pub serve_deaf :
      (w : World) (sock : Socket)
      → 0 < h.ep_header_size
      → w.agent.net.stop ≡ false
      → sock.bytes ≡ []
      → sock.eagain ≡ true
      → Calm sock.ans
      → serve h w sock ≡ waits w
  unfolding serve connection collect_message collect_body checked handle
  serve_deaf w sock hd go none errno calm_ans =
      let s : Link = record { world = w; coming = sock.bytes; eagain = sock.eagain; high = 0 } in
      let d = collect-Deaf h.ep_header_size [] sock.ans s go none errno hd calm_ans in
      ap
        (λ g.
          handle h (connection h (length sock.ans)) (collect_body h (checked h.ep_header_size g)))
        d.2
      ∙ ap waits d.1
