-- ===== src/Examples/Connection.antt =====
-- The network thread on concrete connections.
use empower_enb_agent.Base.{
  ℕ, zero, suc, ◌≡◌, ◌<◌, refl, true, false, List, [], ◌∷◌, ◌++◌, length, arith, ◌⊎◌,
}
use empower_enb_agent.Agent.{World}
use empower_enb_agent.Net.Link.{net_not_connected}
use empower_enb_agent.Net.Receive.{
  Answer, ready, again, Link, waits, disconnects, full, collect_message, collect, checked, guarded,
  net_recv, after_recv,
}
use empower_enb_agent.Net.Connect.{Socket, Attempt, refused, accepted}
use empower_enb_agent.Net.Loop.{serve}
use empower_enb_agent.Net.Framing.{Calm, readies}
use empower_enb_agent.Net.Quiet.{serve_deaf}
use empower_enb_agent.Net.Session.{Whole, serve-Settled, process_all}
use empower_enb_agent.Net.Buffer.{InBounds, collect_message-overruns, collect_message-InBounds}
use empower_enb_agent.Sched.Outcome.{em_buf_size}
use empower_enb_agent.Examples.Demo.{host, agent_with}

-- Two messages, whose byte 0 is also their length here.
abbrev first : List ℕ
first = 4 ∷ 2 ∷ 1 ∷ 7 ∷ []

abbrev second : List ℕ
second = 5 ∷ 2 ∷ 1 ∷ 7 ∷ 9 ∷ []

abbrev pieces : ℕ → List Answer
pieces zero = []
pieces (suc n) = ready 1 ∷ pieces n

pieces-Calm : (n : ℕ) → Calm (pieces n)
pieces-Calm zero = tt
pieces-Calm (suc n) = (refl, pieces-Calm n)

readies-pieces : (n : ℕ) → readies (pieces n) ≡ n
readies-pieces zero = refl
readies-pieces (suc n) = omega (arith, readies-pieces n)

abbrev sock : Socket
sock = record { eagain = false; bytes = first ++ second; ans = again ∷ pieces 9 }

abbrev pub idle : World
idle = agent_with [] 1

first-Whole : Whole host first
first-Whole = record { has_header = omega arith; has_length = refl; fits = omega arith }

second-Whole : Whole host second
second-Whole = record { has_header = omega arith; has_length = refl; fits = omega arith }

serve-Settled_example :
    let w = process_all host (first ∷ second ∷ []) idle in
    (serve host idle sock ≡ waits w) ⊎ (serve host idle sock ≡ disconnects (net_not_connected w))
serve-Settled_example =
    serve-Settled host (first ∷ second ∷ []) idle sock (omega arith)
      (first-Whole, (second-Whole, tt)) refl refl refl (refl, pieces-Calm 9) (omega arith)

abbrev closed_sock : Socket
closed_sock = record { eagain = true; bytes = []; ans = ready 3 ∷ again ∷ ready 0 ∷ [] }

serve_deaf_example : serve host idle closed_sock ≡ waits idle
serve_deaf_example =
    serve_deaf host idle closed_sock (omega arith) refl refl refl (refl, (refl, (refl, tt)))

abbrev zeros : ℕ → List ℕ
zeros zero = []
zeros (suc n) = 0 ∷ zeros n

length-zeros : (n : ℕ) → length (zeros n) ≡ n
length-zeros zero = refl
length-zeros (suc n) = omega (arith, length-zeros n)

-- A message of 5000 bytes.
abbrev long : List ℕ
long = 5000 ∷ 0 ∷ 0 ∷ 0 ∷ zeros 4996

length-long : length long ≡ 5000
length-long = omega (arith, length-zeros 4996)

long-Whole : Whole host long
long-Whole = record {
  has_header = omega (arith, length-long);
  has_length = omega (arith, length-long);
  fits = omega (arith, length-long);
}

abbrev long_link : Link
long_link = record { world = idle; coming = long; eagain = false; high = 0 }

collect_message-overruns_example :
    (ans' : List Answer) × (s' : Link) × (collect_message host (pieces 5000) long_link
      ≡ full long ans' s')
    × (em_buf_size < s'.high)
collect_message-overruns_example =
    collect_message-overruns host long (pieces 5000) long_link long-Whole
      (omega (arith, length-long)) refl refl (pieces-Calm 5000)
      (omega (arith, length-long, readies-pieces 5000))

abbrev short_link : Link
short_link = record { world = idle; coming = first ++ second; eagain = false; high = 0 }

collect_message-InBounds_example : InBounds em_buf_size (collect_message host (pieces 9) short_link)
unfolding collect checked guarded net_recv after_recv
collect_message-InBounds_example =
    collect_message-InBounds host (pieces 9) short_link (omega arith) (omega arith) (omega arith)

-- The controller is not found at first; then it accepts after two rounds.
abbrev pub attempts : List Attempt
attempts =
    record { fd = 5; resolved = false; already = 0; reply = refused }
    ∷ record { fd = 5; resolved = true; already = 2; reply = accepted sock }
    ∷ []
