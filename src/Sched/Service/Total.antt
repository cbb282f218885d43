-- ===== src/Sched/Service/Total.antt =====
-- Every run ends: each queue is served in full or meets a network error, within as many rounds as
-- there are tasks in the queue and in the batches that arrive.
use empower_enb_agent.Base.{
  ℕ, zero, suc, ◌+◌, ◌≤◌, ◌<◌, ◌≡◌, ◌⊎◌, inl, inr, true, false, List, [], ◌∷◌, ◌++◌, Bool-cases,
  arith, length, length-append,
}
use empower_enb_agent.Agent.{World, Host}
use empower_enb_agent.Task.{Task}
use empower_enb_agent.Sched.Consume.{batch, later}
use empower_enb_agent.Sched.Service.{turn, Serves, idle, next, turns}

abbrev pub tasks_of : List (List Task) → ℕ
tasks_of [] = 0
tasks_of (b ∷ bs) = length b + tasks_of bs

batch-later :
    (arrivals : List (List Task))
    → length (batch arrivals) + tasks_of (later arrivals) ≡ tasks_of arrivals
batch-later [] = omega arith
batch-later (b ∷ bs) = omega arith

-- Some task's turn ends in a network error.
pub data Fails (h : Host) : World → List Task → List (List Task) → Type 0 where
  here :
      {w : World} {t : Task} {rest : List Task} {arrivals : List (List Task)}
      → (turn h w t (batch arrivals)).failed ≡ true
      → Fails h w (t ∷ rest) arrivals
  after :
      {w : World} {t : Task} {rest : List Task} {arrivals : List (List Task)}
      → (turn h w t (batch arrivals)).failed ≡ false
      → Fails h (turn h w t (batch arrivals)).after (rest ++ batch arrivals) (later arrivals)
      → Fails h w (t ∷ rest) arrivals

abbrev pub failed_turns :
    {h : Host} {w : World} {q : List Task} {a : List (List Task)} → Fails h w q a → ℕ
failed_turns (here e) = 0
failed_turns (after ok f) = suc (failed_turns f)

-- The queue is served, in a bounded number of turns.
pub record Served (h : Host) (w : World) (q : List Task) (arrivals : List (List Task))
    : Type 0 where
  pub world : World
  pub kept : List Task
  pub left : List (List Task)
  pub serves : Serves h w q arrivals world kept left
  pub bounded : turns serves ≤ length q + tasks_of arrivals

pub record Failed (h : Host) (w : World) (q : List Task) (arrivals : List (List Task))
    : Type 0 where
  pub fails : Fails h w q arrivals
  pub bounded : failed_turns fails < length q + tasks_of arrivals

module _ (h : Host) where
  go :
      (n : ℕ) (w : World) (q : List Task) (arrivals : List (List Task))
      → length q + tasks_of arrivals ≤ n
      → Served h w q arrivals ⊎ Failed h w q arrivals
  go n w [] arrivals le =
      inl (record { world = w; kept = []; left = arrivals; serves = idle; bounded = omega arith })
  go zero w (t ∷ rest) arrivals le = absurd (omega arith)
  go (suc n) w (t ∷ rest) arrivals le = elim (Bool-cases (turn h w t (batch arrivals)).failed) [
    | inl e ↦ inr (record { fails = here e; bounded = omega arith })
    | inr e ↦
        elim (go n (turn h w t (batch arrivals)).after (rest ++ batch arrivals) (later arrivals)
          fits) [
            | inl s ↦ inl (record {
              world = s.world;
              kept = _;
              left = s.left;
              serves = next e s.serves;
              bounded = omega (arith, s.bounded, same);
            })
            | inr f ↦
                inr (record { fails = after e f.fails; bounded = omega (arith, f.bounded, same) })
          ]
  ]
    where
      same :
          length (rest ++ batch arrivals) + tasks_of (later arrivals)
          ≡ length rest + tasks_of arrivals
      same = omega (arith, length-append rest (batch arrivals), batch-later arrivals)

      fits : length (rest ++ batch arrivals) + tasks_of (later arrivals) ≤ n
      fits = omega (arith, same)

  pub Served-or_Failed :
      (w : World) (q : List Task) (arrivals : List (List Task))
      → Served h w q arrivals ⊎ Failed h w q arrivals
  Served-or_Failed w q arrivals = go (length q + tasks_of arrivals) w q arrivals (omega arith)
