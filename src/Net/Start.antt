-- ===== src/Net/Start.antt =====
-- agent/net.c, lines 1167 to 1240: the start and the stop of the network thread.
use empower_enb_agent.Base.{ℕ, Bool, true, minus_one, if◌then◌else◌}
use empower_enb_agent.Agent.{World, set_net}

-- The second argument is whether `pthread_create` succeeds.
unfoldable pub net_start : World → Bool → World × ℕ
net_start w created =
    let w' = set_net (record (w.agent.net) { interval = 100; sockfd = minus_one }) w in
    (w', if created then 0 else minus_one)

-- `stop` is set, and the thread, which sleeps, ends; the socket stays as it is.
unfoldable pub net_stop : World → World
net_stop w = set_net (record (w.agent.net) { stop = true }) w
