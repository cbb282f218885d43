-- ===== src/Net/Framing.antt =====
-- Collecting a message whose bytes come in pieces.
use empower_enb_agent.Base.{
  ℕ, zero, suc, ◌+◌, ◌-◌, ◌≡◌, ◌≤◌, ◌<◌, refl, ap, Bool, true, false, List, [], ◌∷◌, ◌++◌, length,
  take, drop, min, max, All, arith, append_assoc, append-nil, length-append, ◌∙◌,
}
use empower_enb_agent.Net.Receive.{
  Answer, ready, again, broken, stopping, Link, Got, full, collect, guarded, after_recv, net_recv,
}

-- Answers of an undisturbed connection, and how many of them bring bytes.
abbrev pub calm : Answer → Bool
calm (ready k) = true
calm again = true
calm _ = false

abbrev pub Calm : List Answer → Type 0
Calm ans = All (λ a. calm a ≡ true) ans

abbrev pub readies : List Answer → ℕ
readies [] = 0
readies (ready k ∷ ans) = suc (readies ans)
readies (_ ∷ ans) = readies ans

pub take-drop {ℓ} : {A : Type ℓ} (c : ℕ) (xs : List A) → take c xs ++ drop c xs ≡ xs
take-drop zero xs = refl
take-drop (suc c) [] = refl
take-drop (suc c) (x ∷ xs) = ap (λ ys. x ∷ ys) (take-drop c xs)

pub length-drop {ℓ} : {A : Type ℓ} (c : ℕ) (xs : List A) → length (drop c xs) ≡ length xs - c
length-drop zero xs = omega arith
length-drop (suc c) [] = omega arith
length-drop (suc c) (x ∷ xs) = omega (arith, length-drop c xs)

take-append {ℓ} :
    {A : Type ℓ} (c : ℕ) (xs ys : List A) → c ≤ length xs → take c (xs ++ ys) ≡ take c xs
take-append zero xs ys h = refl
take-append (suc c) [] ys h = ground arith
take-append (suc c) (x ∷ xs) ys h = ap (λ zs. x ∷ zs) (take-append c xs ys (omega arith))

drop-append {ℓ} :
    {A : Type ℓ} (c : ℕ) (xs ys : List A) → c ≤ length xs → drop c (xs ++ ys) ≡ drop c xs ++ ys
drop-append zero xs ys h = refl
drop-append (suc c) [] ys h = ground arith
drop-append (suc c) (x ∷ xs) ys h = drop-append c xs ys (omega arith)

pub collect_done :
    (n : ℕ) (buf : List ℕ) (ans : List Answer) (s : Link)
    → n ≤ length buf
    → collect n buf ans s ≡ full buf ans s
unfolding collect guarded
collect_done n buf [] s le = ground arith
collect_done n buf (ready k ∷ ans) s le = ground arith
collect_done n buf (again ∷ ans) s le = ground arith
collect_done n buf (broken ∷ ans) s le = ground arith
collect_done n buf (stopping ∷ ans) s le = ground arith

-- The bytes `x` have been collected behind `buf`.
pub record Collected (x buf tail : List ℕ) (ans : List Answer) (s : Link) (r : Got) : Type 0 where
  pub ans_left : List Answer
  pub link : Link
  pub is_full : r ≡ full (buf ++ x) ans_left link
  pub same_world : link.world ≡ s.world
  pub left : link.coming ≡ tail
  pub calm_left : Calm ans_left
  pub enough_left : readies ans ≤ readies ans_left + length x
  pub no_more : length ans_left ≤ length ans
  -- The buffer has been written as far as to the end of `x`.
  pub grows : s.high ≤ link.high
  pub reached : 0 < length x → length buf + length x ≤ link.high
  pub fewer : 0 < length x → length ans_left < length ans

pub guarded_go :
    (n : ℕ) (buf : List ℕ) (ans : List Answer) (s : Link) (next : Got)
    → length buf < n
    → s.world.agent.net.stop ≡ false
    → guarded n buf ans s next ≡ next
unfolding guarded
guarded_go n buf ans s next lt go = ground arith

after_recv_some :
    (c b : ℕ) (x : List ℕ) (s : Link) (closed next : Got)
    → 0 < c
    → after_recv (take c (b ∷ x)) s closed next ≡ next
unfolding after_recv
after_recv_some zero b x s closed next lt = ground arith
after_recv_some (suc c) b x s closed next lt = refl

module _ (n : ℕ) (buf : List ℕ) (ans : List Answer) (s : Link) where
  collect_again :
      length buf < n
      → s.world.agent.net.stop ≡ false
      → collect n buf (again ∷ ans) s ≡ collect n buf ans (record s { eagain = true })
  unfolding collect
  collect_again lt go = guarded_go n buf _ s _ lt go

  -- What is left on the socket after a call for `c` bytes.
  abbrev received : ℕ → List ℕ → Link
  received c bytes = record s {
    coming = drop c bytes;
    high = max s.high (length buf + length (take c bytes));
  }

  collect_ready :
      (k b : ℕ) (x : List ℕ)
      → length buf < n
      → s.world.agent.net.stop ≡ false
      → s.coming ≡ b ∷ x
      → let c = min (suc k) (n - length buf) in
        collect n buf (ready k ∷ ans) s ≡ collect n (buf ++ take c (b ∷ x)) ans (received c (b ∷ x))
  unfolding collect net_recv
  collect_ready k b x lt go e = rw e (
      guarded_go n buf _ _ _ lt go
      ∙ after_recv_some (min (suc k) (n - length buf)) b x _ _ _ (ground arith))

pub collect_lem :
    (x buf tail : List ℕ) (n : ℕ) (ans : List Answer) (s : Link)
    → s.world.agent.net.stop ≡ false
    → s.coming ≡ x ++ tail
    → length buf + length x ≡ n
    → Calm ans
    → length x ≤ readies ans
    → Collected x buf tail ans s (collect n buf ans s)
collect_lem [] buf tail n ans s go e len calm_ans enough = record {
  ans_left = ans;
  link = s;
  is_full = rw append-nil (collect_done n buf ans s (omega arith));
  same_world = refl;
  left = e;
  calm_left = calm_ans;
  enough_left = omega arith;
  no_more = omega arith;
  grows = omega arith;
  reached = λ p. omega arith;
  fewer = λ p. omega arith;
}
collect_lem (b ∷ x) buf tail n [] s go e len calm_ans enough = ground arith
collect_lem (b ∷ x) buf tail n (again ∷ ans) s go e len calm_ans enough =
    let r =
      collect_lem (b ∷ x) buf tail n ans (record s { eagain = true }) go e len calm_ans.1 enough in
    rw (collect_again n buf ans s (omega arith) go) (record {
      ans_left = r.ans_left;
      link = r.link;
      is_full = r.is_full;
      same_world = r.same_world;
      left = r.left;
      calm_left = r.calm_left;
      enough_left = r.enough_left;
      no_more = omega (arith, r.no_more);
      grows = r.grows;
      reached = r.reached;
      fewer = λ p. omega (arith, r.no_more);
    })
collect_lem (b ∷ x) buf tail n (ready k ∷ ans) s go e len calm_ans enough =
    let c = min (suc k) (n - length buf) in
    let le : c ≤ suc (length x) = ground arith in
    let pos : 0 < c = ground arith in
    let cut = take-drop c (b ∷ x) in
    let size = length-drop c (b ∷ x) in
    let r =
      collect_lem (drop c (b ∷ x)) (buf ++ take c (b ∷ x)) tail n ans
        (received n buf ans s c (b ∷ x ++ tail)) go (drop-append c (b ∷ x) tail le)
        (omega (
          arith,
          len,
          length-append buf (take c (b ∷ x)),
          length-append (take c (b ∷ x)) (drop c (b ∷ x)),
          ap length cut,
        ))
        calm_ans.1 (omega (arith, size)) in
    record {
      ans_left = r.ans_left;
      link = r.link;
      is_full =
          collect_ready n buf ans s k b (x ++ tail) (omega arith) go e
          ∙ ap (λ g. collect n (buf ++ g) ans (received n buf ans s c (b ∷ x ++ tail)))
              (take-append c (b ∷ x) tail le)
          ∙ r.is_full
          ∙ ap (λ g. full g r.ans_left r.link)
              (append_assoc buf (take c (b ∷ x)) (drop c (b ∷ x)) ∙ ap (λ g. buf ++ g) cut);
      same_world = r.same_world;
      left = r.left;
      calm_left = r.calm_left;
      enough_left = omega (arith, r.enough_left, size);
      no_more = omega (arith, r.no_more);
      grows = ground (arith, r.grows);
      reached = λ p. grind (
        arith,
        r.grows,
        r.reached,
        size,
        length-append (take c (b ∷ x)) (drop c (b ∷ x)),
        ap length cut,
        length-append buf (take c (b ∷ x)),
        ap length (take-append c (b ∷ x) tail le),
      );
      fewer = λ p. omega (arith, r.no_more);
    }
collect_lem (b ∷ x) buf tail n (broken ∷ ans) s go e len calm_ans enough = ground arith
collect_lem (b ∷ x) buf tail n (stopping ∷ ans) s go e len calm_ans enough = ground arith
