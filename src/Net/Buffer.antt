-- ===== src/Net/Buffer.antt =====
-- The size of the receive buffer against the lengths of the messages.
use empower_enb_agent.Base.{
  ℕ, zero, suc, ◌-◌, ◌≡◌, ◌≤◌, ◌<◌, List, [], ◌∷◌, ◌++◌, length, take, min, arith, append-nil, ◌∙◌,
  sym, false,
}
use empower_enb_agent.Agent.{Host}
use empower_enb_agent.Sched.Outcome.{em_buf_size}
use empower_enb_agent.Net.Receive.{
  Answer, ready, again, broken, stopping, Link, Got, full, lost, stopped, waiting, collect,
  collect_message, collect_body, checked, net_recv, stop_net, int_bound,
}
use empower_enb_agent.Net.Framing.{Calm, readies}
use empower_enb_agent.Net.Session.{Whole, collect_message_lem}
use empower_enb_agent.Net.Every.{
  Every, guarded-Every, guarded-Every_when, after_recv-Every, checked-Every,
}

length-take_le {ℓ} : {A : Type ℓ} (c : ℕ) (xs : List A) → length (take c xs) ≤ c
length-take_le zero xs = omega arith
length-take_le (suc c) [] = omega arith
length-take_le (suc c) (x ∷ xs) = omega (arith, length-take_le c xs)

-- No byte has been written at or behind `size`.
abbrev Below : ℕ → Link → Type 0
Below size s = s.high ≤ size

abbrev pub InBounds : ℕ → Got → Type 0
InBounds size = Every (λ ans s. s.high ≤ size) (λ s. s.high ≤ size)

collect-InBounds :
    (size n : ℕ) (buf : List ℕ) (ans : List Answer) (s : Link)
    → n ≤ size
    → s.high ≤ size
    → InBounds size (collect n buf ans s)
unfolding collect net_recv
collect-InBounds size n buf [] s le p =
    guarded-Every (λ ans. Below size) (Below size) n buf [] s _ (λ q. p) p p
collect-InBounds size n buf (ready k ∷ ans) s le p =
    let g = net_recv s k (length buf) (n - length buf) in
    guarded-Every_when (λ ans. Below size) (Below size) n buf (ready k ∷ ans) s _ (λ q. p) p
      (λ lt.
        let b : g.1.high ≤ size =
          ground (arith, length-take_le (min (suc k) (n - length buf)) s.coming) in
        after_recv-Every (λ ans. Below size) (Below size) g.0 g.1 _ _ b
          (collect-InBounds size n buf ans g.1 le b)
          (collect-InBounds size n (buf ++ g.0) ans g.1 le b))
collect-InBounds size n buf (again ∷ ans) s le p =
    guarded-Every (λ ans. Below size) (Below size) n buf (again ∷ ans) s _ (λ q. p) p
      (collect-InBounds size n buf ans _ le p)
collect-InBounds size n buf (broken ∷ ans) s le p =
    guarded-Every (λ ans. Below size) (Below size) n buf (broken ∷ ans) s _ (λ q. p) p p
collect-InBounds size n buf (stopping ∷ ans) s le p =
    guarded-Every (λ ans. Below size) (Below size) n buf (stopping ∷ ans) s _ (λ q. p) p
      (collect-InBounds size n buf ans (stop_net s) le p)

module _ (h : Host) where
  -- The length that the header of a message announces, if the header has come in.
  abbrev pub announced : Got → ℕ
  announced (full buf ans s) = int_bound (h.epp_msg_length buf (length buf))
  announced _ = 0

  -- The first of the two loops.
  abbrev pub collect_header : List Answer → Link → Got
  collect_header ans s = checked h.ep_header_size (collect h.ep_header_size [] ans s)

  collect_body-InBounds :
      (size : ℕ) (r : Got) → announced r ≤ size → InBounds size r → InBounds size (collect_body h r)
  unfolding collect_body
  collect_body-InBounds size (full buf ans s) f p =
      checked-Every (λ ans. Below size) (Below size) _ _ (λ a t x. x)
        (collect-InBounds size _ buf ans s f p)
  collect_body-InBounds size (lost s) f p = p
  collect_body-InBounds size (stopped s) f p = p
  collect_body-InBounds size (waiting s) f p = p

  -- Where the header that comes in announces at most EM_BUF_SIZE bytes, and a header fits in the
  -- buffer itself, nothing is written past the end of `net->buf`, whatever comes in behind it and
  -- however it is cut up.
  pub collect_message-InBounds :
      (ans : List Answer) (s : Link)
      → h.ep_header_size ≤ em_buf_size
      → announced (collect_header ans s) ≤ em_buf_size
      → s.high ≤ em_buf_size
      → InBounds em_buf_size (collect_message h ans s)
  unfolding collect_message
  collect_message-InBounds ans s hd f p = collect_body-InBounds em_buf_size _ f (
      checked-Every (λ ans. Below em_buf_size) (Below em_buf_size) _ _ (λ a t x. x)
        (collect-InBounds em_buf_size h.ep_header_size [] ans s hd p))

  -- Nothing checks the length that a header announces against the size of the buffer: a whole
  -- message of more than EM_BUF_SIZE bytes is collected, and written past the end of `net->buf`.
  pub collect_message-overruns :
      (m : List ℕ) (ans : List Answer) (s : Link)
      → Whole h m
      → em_buf_size < length m
      → s.world.agent.net.stop ≡ false
      → s.coming ≡ m
      → Calm ans
      → length m ≤ readies ans
      → (ans' : List Answer) × (s' : Link) × (collect_message h ans s ≡ full m ans' s')
        × (em_buf_size < s'.high)
  collect_message-overruns m ans s whole big go e calm_ans enough =
      let r = collect_message_lem h m [] ans s whole go (e ∙ sym (append-nil m)) calm_ans enough in
      (r.ans_left, r.link, r.is_full, omega (arith, r.reached (omega (arith, big))))
