-- ===== src/Net/Loop.antt =====
-- agent/net.c, net_loop: the network thread as a whole, which connects to
-- the controller, serves the connection, and connects again when it is lost.
use empower_enb_agent.Base.{ℕ, suc, Option, none, some, List, [], ◌∷◌, length, ◌==◌, if◌then◌else◌}
use empower_enb_agent.Agent.{World, Host}
use empower_enb_agent.Net.Link.{net_not_connected}
use empower_enb_agent.Net.Handlers.{net_connected}
use empower_enb_agent.Net.Connect.{Socket, Attempt, net_connect_to_controller}
use empower_enb_agent.Net.Receive.{Ending, connection, disconnects, stops, waits, out_of_fuel}

-- The rounds on an open connection; one more than its answers is enough fuel.
unfoldable pub serve : Host → World → Socket → Ending
serve h w sock =
    connection h (suc (length sock.ans)) sock.ans
      (record { world = w; coming = sock.bytes; eagain = sock.eagain; high = 0 })

-- `if(net_connected(net)) { net_not_connected(net); …; continue; }`
unfoldable pub serve_connected : Host → World × ℕ → Socket → Ending
unfolding serve
serve_connected h (w, err) sock =
    if err == 0 then serve h w sock else disconnects (net_not_connected w)

-- The rounds until the status is not connected again.
unfoldable pub round_trip : Host → World × Option Socket → Ending
unfolding serve_connected
round_trip h (w, none) = disconnects w
round_trip h (w, some sock) = serve_connected h (net_connected h w) sock

unfoldable pub net_loop : Host → List Attempt → World → Option World
net_loop h [] w = some w
net_loop h (a ∷ rest) w =
    let result : Option World = elim (round_trip h (net_connect_to_controller w a)) [
      | disconnects w' ↦ net_loop h rest w'
      | stops w' ↦ some w'
      | waits w' ↦ some w'
      | out_of_fuel ↦ none
    ] in
    if w.agent.net.stop then some w else result
