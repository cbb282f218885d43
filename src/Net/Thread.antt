-- ===== src/Net/Thread.antt =====
-- The network thread on one connection: where its loops end.
use empower_enb_agent.Base.{
  ℕ, zero, suc, ◌-◌, ◌≤◌, ◌<◌, List, [], ◌∷◌, ◌++◌, length, arith, inl, inr, some, Bool-cases,
}
use empower_enb_agent.Agent.{World, Host}
use empower_enb_agent.Net.Receive.{
  Answer, ready, again, broken, stopping, Link, Got, Ending, full, lost, stopped, waiting, collect,
  collect_message, collect_body, process, connection, waits, disconnects, handle, net_recv, stops,
  out_of_fuel, stop_net, is_connected,
}
use empower_enb_agent.Net.Every.{Every, guarded-Every, after_recv-Every, checked-Every}
use empower_enb_agent.Proto.{Msg}
use empower_enb_agent.Net.Dispatch.{net_process_message}
use empower_enb_agent.Net.Link.{net_not_connected}

module _ (P : World → Type 0) (closed_under : (s : Link) → P s.world → P (stop_net s).world) where
  -- `P` of the agent, and, where a collection is full, fewer than `k` answers left.
  abbrev Fine : Link → Type 0
  Fine s = P s.world

  abbrev Within : ℕ → List Answer → Link → Type 0
  Within k ans s = (length ans < k) × P s.world

  abbrev Fewer : ℕ → Got → Type 0
  Fewer k = Every (Within k) Fine

  -- A collection uses no more answers than there are, and one at least for a byte.
  collect-Fewer :
      (k n : ℕ) (buf : List ℕ) (ans : List Answer) (s : Link)
      → length ans ≤ k
      → (n ≤ length buf → length ans < k)
      → P s.world
      → Fewer k (collect n buf ans s)
  unfolding collect net_recv
  collect-Fewer k n buf [] s le f p =
      guarded-Every (Within k) Fine n buf [] s (waiting s) (λ q. (f q, p)) p p
  collect-Fewer k n buf (ready j ∷ ans) s le f p =
      let g = net_recv s j (length buf) (n - length buf) in
      let closed = collect-Fewer k n buf ans g.1 (omega arith) (λ q. omega arith) p in
      let more = collect-Fewer k n (buf ++ g.0) ans g.1 (omega arith) (λ q. omega arith) p in
      guarded-Every (Within k) Fine n buf (ready j ∷ ans) s _ (λ q. (f q, p)) p
        (after_recv-Every (Within k) Fine g.0 g.1 _ _ p closed more)
  collect-Fewer k n buf (again ∷ ans) s le f p =
      guarded-Every (Within k) Fine n buf (again ∷ ans) s _ (λ q. (f q, p)) p
        (collect-Fewer k n buf ans _ (omega arith) (λ q. omega arith) p)
  collect-Fewer k n buf (broken ∷ ans) s le f p =
      guarded-Every (Within k) Fine n buf (broken ∷ ans) s _ (λ q. (f q, p)) p p
  collect-Fewer k n buf (stopping ∷ ans) s le f p =
      guarded-Every (Within k) Fine n buf (stopping ∷ ans) s _ (λ q. (f q, p)) p
        (collect-Fewer k n buf ans _ (omega arith) (λ q. omega arith) (closed_under s p))

  module _ (h : Host) where
    collect_body-Fewer : (k : ℕ) (r : Got) → Fewer k r → Fewer k (collect_body h r)
    unfolding collect_body
    collect_body-Fewer k (full buf ans s) e =
        checked-Every (Within k) Fine _ _ (λ a t x. x.1)
          (collect-Fewer k _ buf ans s (omega (arith, e.0)) (λ q. e.0) e.1)
    collect_body-Fewer k (lost s) e = e
    collect_body-Fewer k (stopped s) e = e
    collect_body-Fewer k (waiting s) e = e

    pub collect_message-Fewer :
        (ans : List Answer) (s : Link)
        → 0 < h.ep_header_size
        → P s.world
        → Fewer (length ans) (collect_message h ans s)
    unfolding collect_message
    collect_message-Fewer ans s hd p = collect_body-Fewer _ _ (
        checked-Every (Within (length ans)) Fine _ _ (λ a t x. x.1)
          (collect-Fewer (length ans) h.ep_header_size [] ans s (omega arith) (λ q. ground arith)
            p))

    -- The rounds on a connection end, and `P` holds of the agent then.
    abbrev pub Ends : Ending → Type 0
    Ends (disconnects w) = P w
    Ends (stops w) = P w
    Ends (waits w) = P w
    Ends out_of_fuel = ⊥

    module _
        (kept : (w : World) (msg : Msg) (size : ℕ) → P w → P (net_process_message h w msg size).0)
        (reset : (w : World) → P w → P (net_not_connected w)) (hd : 0 < h.ep_header_size) where
      handle-Ends :
          (k : ℕ) (next : List Answer → Link → Ending) (r : Got)
          → ((ans : List Answer) (s : Link) → length ans < k → P s.world → Ends (next ans s))
          → Fewer k r
          → Ends (handle h next r)
      unfolding handle
      handle-Ends k next (full buf ans s) f e =
          let p = kept s.world (some buf) (length buf) e.1 in
          let go = f ans (record s { world = process h buf s.world }) e.0 p in
          elim (Bool-cases (is_connected (process h buf s.world).agent.net.status)) [
            | inl t ↦ rw t go
            | inr t ↦ rw t p
          ]
      handle-Ends k next (lost s) f e = reset s.world e
      handle-Ends k next (stopped s) f e = e
      handle-Ends k next (waiting s) f e = e

      pub connection-Ends :
          (fuel : ℕ) (ans : List Answer) (s : Link)
          → length ans < fuel
          → P s.world
          → Ends (connection h fuel ans s)
      unfolding connection
      connection-Ends zero ans s lt p = ground arith
      connection-Ends (suc fuel) ans s lt p =
          handle-Ends (length ans) (connection h fuel) _
            (λ a t l q. connection-Ends fuel a t (omega arith) q) (collect_message-Fewer ans s hd p)
