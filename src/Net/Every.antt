-- ===== src/Net/Every.antt =====
-- What holds of each result of a collection, when the steps of the loop keep it.
use empower_enb_agent.Base.{
  ℕ, ◌≡◌, ◌≤◌, ◌<◌, refl, Bool, true, false, List, [], ◌∷◌, length, if◌then◌else◌, ltb, ltb→le,
  ltb→lt, ◌==◌,
}
use empower_enb_agent.Net.Receive.{
  Answer, Link, Got, full, lost, stopped, waiting, checked, guarded, after_recv,
}

module _ (Full : List Answer → Link → Type 0) (End : Link → Type 0) where
  -- What holds of a result, whichever it is.
  abbrev pub Every : Got → Type 0
  Every (full buf ans s) = Full ans s
  Every (lost s) = End s
  Every (stopped s) = End s
  Every (waiting s) = End s

  if_Every :
      (b : Bool) (x y : Got)
      → (b ≡ true → Every x)
      → (b ≡ false → Every y)
      → Every (if b then x else y)
  if_Every true x y f g = f refl
  if_Every false x y f g = g refl

  pub guarded-Every_when :
      (n : ℕ) (buf : List ℕ) (ans : List Answer) (s : Link) (next : Got)
      → (n ≤ length buf → Full ans s)
      → End s
      → (length buf < n → Every next)
      → Every (guarded n buf ans s next)
  unfolding guarded
  guarded-Every_when n buf ans s next f e x =
      if_Every (ltb (length buf) n) _ _
        (λ p. if_Every s.world.agent.net.stop _ _ (λ q. e) (λ q. x (ltb→lt (length buf) n p)))
        (λ p. f (ltb→le (length buf) n p))

  pub guarded-Every :
      (n : ℕ) (buf : List ℕ) (ans : List Answer) (s : Link) (next : Got)
      → (n ≤ length buf → Full ans s)
      → End s
      → Every next
      → Every (guarded n buf ans s next)
  guarded-Every n buf ans s next f e x = guarded-Every_when n buf ans s next f e (λ q. x)

  pub after_recv-Every :
      (got : List ℕ) (s : Link) (closed next : Got)
      → End s
      → Every closed
      → Every next
      → Every (after_recv got s closed next)
  unfolding after_recv
  after_recv-Every [] s closed next e c x = if_Every s.eagain _ _ (λ q. c) (λ q. e)
  after_recv-Every (b ∷ got) s closed next e c x = x

  pub checked-Every :
      (n : ℕ) (r : Got)
      → ((ans : List Answer) (s : Link) → Full ans s → End s)
      → Every r
      → Every (checked n r)
  unfolding checked
  checked-Every n (full buf ans s) f e = if_Every (length buf == n) _ _ (λ q. e) (λ q. f ans s e)
  checked-Every n (lost s) f e = e
  checked-Every n (stopped s) f e = e
  checked-Every n (waiting s) f e = e
