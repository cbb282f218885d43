-- ===== src/Net/Connect.antt =====
-- agent/net.c, lines 212 to 295: an attempt to connect to the controller.
use empower_enb_agent.Base.{
  ℕ, zero, suc, ◌≡◌, refl, ◌∙◌, ap, Bool, true, false, Bool-cases, inl, inr, Option, none, some,
  List, arith, is_negative, if◌then◌else◌,
}
use empower_enb_agent.Agent.{World, set_net}
use empower_enb_agent.Net.Receive.{Answer}

-- An open connection: whether `errno` is EAGAIN, the bytes to come, what the calls of `recv` meet.
pub record Socket : Type 0 where
  pub eagain : Bool
  pub bytes : List ℕ
  pub ans : List Answer

-- What the last round at `again` meets: an error of `connect` other than EALREADY, `stop` set by
-- another thread, or a connection.
pub data Reply : Type 0 where
  refused stop_set : Reply
  accepted : (sock : Socket) → Reply

-- What one call of `net_connect_to_controller` meets: the descriptor that `socket` would return,
-- whether `gethostbyname` finds the controller, how often `connect` says EALREADY, and the last
-- round.
pub record Attempt : Type 0 where
  pub fd : ℕ
  pub resolved : Bool
  pub already : ℕ
  pub reply : Reply

unfoldable pub open_socket : World → ℕ → World
open_socket w fd =
    if is_negative w.agent.net.sockfd then set_net (record (w.agent.net) { sockfd = fd }) w else w

unfoldable pub connect_reply : World → Reply → World × Option Socket
connect_reply w refused = (w, none)
connect_reply w stop_set = (set_net (record (w.agent.net) { stop = true }) w, none)
connect_reply w (accepted sock) = (w, some sock)

-- The rounds at `again`, as many as `connect` says EALREADY and the last one.
unfoldable pub connect_again : World → ℕ → Reply → World × Option Socket
connect_again w zero reply = if w.agent.net.stop then (w, none) else connect_reply w reply
connect_again w (suc n) reply =
    let rest = connect_again w n reply in if w.agent.net.stop then (w, none) else rest

unfoldable pub resolve : World → Attempt → World × Option Socket
resolve w a = if a.resolved then connect_again w a.already a.reply else (w, none)

-- The connection where the call returns 0, and nothing where it returns -1.
unfoldable pub net_connect_to_controller : World → Attempt → World × Option Socket
unfolding open_socket connect_reply resolve
net_connect_to_controller w a =
    let w' = open_socket w a.fd in
    if is_negative w'.agent.net.sockfd then (w', none) else resolve w' a

-- The rounds that come to nothing change nothing.
pub connect_again_once :
    (w : World) (n : ℕ) (reply : Reply)
    → connect_again w n reply ≡ (if w.agent.net.stop then (w, none) else connect_reply w reply)
unfolding connect_again
connect_again_once w zero reply = refl
connect_again_once w (suc n) reply = ground (arith, connect_again_once w n reply)

-- Only the descriptor and `stop` can change.
pub record Touched (w w' : World) : Type 0 where
  pub fd : ℕ
  pub stopping : Bool
  pub only : w' ≡ set_net (record (w.agent.net) { sockfd = fd; stop = stopping }) w

same-Touched : (w : World) → Touched w w
same-Touched w = record { fd = w.agent.net.sockfd; stopping = w.agent.net.stop; only = refl }

then-Touched : (w w1 w2 : World) → Touched w w1 → Touched w1 w2 → Touched w w2
then-Touched w w1 w2 a b = record {
  fd = b.fd;
  stopping = b.stopping;
  only =
      b.only
      ∙ ap (λ x. set_net (record (x.agent.net) { sockfd = b.fd; stop = b.stopping }) x) a.only;
}

open-Touched : (w : World) (fd : ℕ) → Touched w (open_socket w fd)
unfolding open_socket
open-Touched w fd = elim (Bool-cases (is_negative w.agent.net.sockfd)) [
  | inl e ↦ rw e (record { fd = fd; stopping = w.agent.net.stop; only = refl })
  | inr e ↦ rw e (same-Touched w)
]

reply-Touched : (w : World) (reply : Reply) → Touched w (connect_reply w reply).0
unfolding connect_reply
reply-Touched w refused = same-Touched w
reply-Touched w stop_set = record { fd = w.agent.net.sockfd; stopping = true; only = refl }
reply-Touched w (accepted sock) = same-Touched w

if_Touched :
    (w : World) (b : Bool) (x y : World × Option Socket)
    → Touched w x.0
    → Touched w y.0
    → Touched w (if b then x else y).0
if_Touched w true x y f g = f
if_Touched w false x y f g = g

resolve-Touched : (w : World) (a : Attempt) → Touched w (resolve w a).0
unfolding resolve
resolve-Touched w a =
    if_Touched w a.resolved _ _
      (rw (connect_again_once w a.already a.reply)
        (if_Touched w w.agent.net.stop _ _ (same-Touched w) (reply-Touched w a.reply)))
      (same-Touched w)

-- A call of `net_connect_to_controller` can set the descriptor and, by another thread, `stop`.
pub net_connect_to_controller-Touched :
    (w : World) (a : Attempt) → Touched w (net_connect_to_controller w a).0
unfolding net_connect_to_controller
net_connect_to_controller-Touched w a =
    let w' = open_socket w a.fd in
    if_Touched w (is_negative w'.agent.net.sockfd) _ _ (open-Touched w a.fd)
      (then-Touched w w' _ (open-Touched w a.fd) (resolve-Touched w' a))
