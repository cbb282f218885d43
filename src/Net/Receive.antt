-- ===== src/Net/Receive.antt =====
-- agent/net.c, net_recv (lines 297 to 323) and net_loop (lines 1024 to 1163): the network thread
-- collects messages from a connection. The answers of the system are given: the bytes that
-- the controller sends, which end where it closes, and what each call of `recv` meets.
use empower_enb_agent.Base.{
  ℕ, zero, suc, ◌+◌, ◌-◌, Bool, true, false, some, List, [], ◌∷◌, ◌++◌, length, take, drop, min,
  max, ltb, ◌==◌, is_negative, if◌then◌else◌,
}
use empower_enb_agent.Agent.{World, Host, NetStatus, not_connected, connected, set_net}
use empower_enb_agent.Net.Link.{net_not_connected}
use empower_enb_agent.Net.Dispatch.{net_process_message}

-- `ready k`: some of the bytes are there, at most k + 1. `again`: none yet, -1 with EAGAIN.
-- `broken`: -1 with another error. `stopping`: another thread has set `stop`.
pub data Answer : Type 0 where
  ready : (k : ℕ) → Answer
  again broken stopping : Answer

-- The agent, the bytes to come, whether `errno` is EAGAIN, and the end of the farthest byte that
-- was written to `net->buf`.
pub record Link : Type 0 where
  pub world : World
  pub coming : List ℕ
  pub eagain : Bool
  pub high : ℕ

-- How a loop ends: with the bytes in the buffer, by an error, by `goto stop`, or with no answer yet.
pub data Got : Type 0 where
  full : (buf : List ℕ) (ans : List Answer) (s : Link) → Got
  lost : (s : Link) → Got
  stopped : (s : Link) → Got
  waiting : (s : Link) → Got

-- `net_recv` of at most `size` bytes to the offset `bread`, where bytes may be there.
unfoldable pub net_recv : Link → ℕ → ℕ → ℕ → List ℕ × Link
net_recv s k bread size =
    let n = min (suc k) size in
    let got = take n s.coming in
    (got, record s { coming = drop n s.coming; high = max s.high (bread + length got) })

abbrev pub stop_net : Link → Link
stop_net s = record s { world = set_net (record (s.world.agent.net) { stop = true }) s.world }

-- The conditions of a round of `while(bread < n) { if(net->stop) goto stop; … }`.
unfoldable pub guarded : ℕ → List ℕ → List Answer → Link → Got → Got
guarded n buf ans s next =
    if ltb (length buf) n
    then (if s.world.agent.net.stop then stopped s else next)
    else full buf ans s

-- The bytes of one call: none of them is `op == 0`, where `errno` is that of an earlier call.
unfoldable pub after_recv : List ℕ → Link → Got → Got → Got
after_recv [] s closed next = if s.eagain then closed else lost s
after_recv (b ∷ got) s closed next = next

unfoldable pub collect : ℕ → List ℕ → List Answer → Link → Got
unfolding guarded after_recv net_recv
collect n buf [] s = guarded n buf [] s (waiting s)
collect n buf (stopping ∷ ans) s = guarded n buf (stopping ∷ ans) s (collect n buf ans (stop_net s))
collect n buf (broken ∷ ans) s = guarded n buf (broken ∷ ans) s (lost (record s { eagain = false }))
collect n buf (again ∷ ans) s =
    guarded n buf (again ∷ ans) s (collect n buf ans (record s { eagain = true }))
collect n buf (ready k ∷ ans) s =
    let (got, s') = net_recv s k (length buf) (n - length buf) in
    guarded n buf (ready k ∷ ans) s
      (after_recv got s' (collect n buf ans s') (collect n (buf ++ got) ans s'))

-- `if(bread != mlen) { net_not_connected(net); continue; }`
unfoldable pub checked : ℕ → Got → Got
checked n (full buf ans s) = if length buf == n then full buf ans s else lost s
checked n (lost s) = lost s
checked n (stopped s) = stopped s
checked n (waiting s) = waiting s

-- The bound of the loop over the `int` mlen: a negative one is below every count.
abbrev pub int_bound : ℕ → ℕ
int_bound mlen = if is_negative mlen then 0 else mlen

unfoldable pub collect_body : Host → Got → Got
unfolding checked
collect_body h (full buf ans s) =
    let mlen = h.epp_msg_length buf (length buf) in
    checked mlen (collect (int_bound mlen) buf ans s)
collect_body h (lost s) = lost s
collect_body h (stopped s) = stopped s
collect_body h (waiting s) = waiting s

-- The header and the rest of a message.
unfoldable pub collect_message : Host → List Answer → Link → Got
unfolding collect_body checked
collect_message h ans s =
    collect_body h (checked h.ep_header_size (collect h.ep_header_size [] ans s))

abbrev pub is_connected : NetStatus → Bool
is_connected connected = true
is_connected not_connected = false

-- How the rounds of `while(1)` on one connection end; `out_of_fuel` only when they do not.
pub data Ending : Type 0 where
  disconnects stops waits : (w : World) → Ending
  out_of_fuel : Ending

abbrev pub process : Host → List ℕ → World → World
process h buf w = (net_process_message h w (some buf) (length buf)).0

-- The rest of a round, and the next rounds.
unfoldable pub handle : Host → (List Answer → Link → Ending) → Got → Ending
handle h next (full buf ans s) =
    let w = process h buf s.world in
    let rest = next ans (record s { world = w }) in
    if is_connected w.agent.net.status then rest else disconnects w
handle h next (lost s) = disconnects (net_not_connected s.world)
handle h next (stopped s) = stops s.world
handle h next (waiting s) = waits s.world

unfoldable pub connection : Host → ℕ → List Answer → Link → Ending
connection h zero ans s = out_of_fuel
connection h (suc fuel) ans s = handle h (connection h fuel) (collect_message h ans s)
