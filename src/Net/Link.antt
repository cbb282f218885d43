-- ===== src/Net/Link.antt =====
-- agent/net.c, lines 86 to 117 and 183 to 217 and 325 to 355: the sequence number, the reset of a
-- lost connection, and sending.
use empower_enb_agent.Base.{ℕ, suc, ◌+◌, Bool, u32, is_positive, minus_one, if◌then◌else◌}
use empower_enb_agent.Agent.{NetCtx, World, Host, not_connected, sent, closed, emit, set_net}
use empower_enb_agent.Proto.{Msg}

-- The context with the next number, and the one to use.
unfoldable pub net_next_seq : NetCtx → NetCtx × ℕ
net_next_seq ctx = (record ctx { seq = u32 (ctx.seq + 1) }, ctx.seq)

close_socket : NetCtx → NetCtx
close_socket ctx = if is_positive ctx.sockfd then record ctx { sockfd = minus_one } else ctx

unfoldable pub net_not_connected : World → World
unfolding close_socket emit
net_not_connected w =
    set_net (record (close_socket w.agent.net) { status = not_connected; seq = 0 })
      (if is_positive w.agent.net.sockfd then emit (closed w.agent.net.sockfd) w else w)

-- Whether the result is not negative.
unfoldable pub net_send : Host → World → Msg → ℕ → World × Bool
unfolding emit
net_send h w msg size = (emit (sent msg size) (record w { asked = suc w.asked }), h.send_ok w.asked)
