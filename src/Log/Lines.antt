-- ===== src/Log/Lines.antt =====
-- A line of the log can be read again.
use empower_enb_agent.Base.{
  ℕ, zero, suc, ◌-◌, ◌≤◌, ◌≡◌, refl, subst, All, ◌==◌, if◌then◌else◌, ap, ◌∙◌, false, Option, List,
  [], ◌∷◌, ◌++◌, length, take, drop, length-append, arith, append_assoc,
}
use empower_enb_agent.Text.{
  codes, repeat, decimal, read_decimal, read-digits, read-zeros, digits_before, digits,
}
use empower_enb_agent.Agent.{Agent}
use empower_enb_agent.Log.{log_line, proc_field, enb_field, id_of}

-- What a line says: the procedure, the eNB, and the message.
pub record Entry : Type 0 where
  pub proc : List ℕ
  pub enb_id : ℕ
  pub msg : List ℕ

-- A text up to its first space.
abbrev pub word : List ℕ → List ℕ
word [] = []
word (c ∷ cs) = if c == b' ' then [] else c ∷ word cs

-- The 32 bytes of the procedure, and what comes behind.
unfoldable entry_of : List ℕ → List ℕ → Entry
unfolding read_decimal
entry_of front back =
    let (enb_id, rest) = read_decimal (drop 6 back) 0 in
    record { proc = word front; enb_id = enb_id; msg = drop 2 rest }

unfoldable pub read_line : List ℕ → Entry
unfolding entry_of
read_line line = entry_of (take 32 line) (drop 32 line)

-- The name of a procedure, which has no space in it.
abbrev pub IsName : List ℕ → Type 0
IsName proc = All (λ c. (c == b' ') ≡ false) proc

length-repeat : (n c : ℕ) → length (repeat n c) ≡ n
length-repeat zero c = refl
length-repeat (suc n) c = omega (arith, length-repeat n c)

word-repeat : (n : ℕ) → word (repeat n b' ') ≡ []
word-repeat zero = refl
word-repeat (suc n) = refl

word_name : (proc : List ℕ) (n : ℕ) → IsName proc → word (proc ++ repeat n b' ') ≡ proc
word_name [] n p = word-repeat n
word_name (c ∷ cs) n (p, ps) = rw p (ap (λ xs. c ∷ xs) (word_name cs n ps))

module _ {ℓ} {A : Type ℓ} where
  take-length : (xs ys : List A) → take (length xs) (xs ++ ys) ≡ xs
  take-length [] ys = refl
  take-length (x ∷ xs) ys = ap (λ zs. x ∷ zs) (take-length xs ys)

  drop-length : (xs ys : List A) → drop (length xs) (xs ++ ys) ≡ ys
  drop-length [] ys = refl
  drop-length (x ∷ xs) ys = drop-length xs ys

length-proc_field : (proc : List ℕ) → length proc ≤ 32 → length (proc_field proc) ≡ 32
unfolding proc_field
length-proc_field proc h = omega (
  arith,
  length-append proc (repeat (32 - length proc) b' '),
  length-repeat (32 - length proc) b' ',
)

-- The number of the eNB is read up to the colon behind it.
read-enb_field :
    (n : ℕ) (rest : List ℕ) → read_decimal (enb_field n ++ b':' ∷ rest) 0 ≡ (n, b':' ∷ rest)
unfolding enb_field decimal read_decimal
read-enb_field n rest =
    let ds = digits (suc n) n [] in
    ap (λ xs. read_decimal xs 0) (append_assoc (repeat (3 - length ds) b'0') ds (b':' ∷ rest))
    ∙ read-zeros (3 - length ds) (ds ++ b':' ∷ rest)
    ∙ ap (λ xs. read_decimal xs 0) (digits_before (suc n) n [] (b':' ∷ rest))
    ∙ read-digits (suc n) n (b':' ∷ rest) (omega arith)

entry_of-parts :
    (n : ℕ) (proc msg : List ℕ)
    → IsName proc
    → entry_of (proc_field proc) (codes ", eNB " ++ (enb_field n ++ (codes ": " ++ msg)))
      ≡ record { proc = proc; enb_id = n; msg = msg }
unfolding entry_of proc_field
entry_of-parts n proc msg name =
    let made : List ℕ → ℕ × List ℕ → Entry =
      λ p r. record { proc = p; enb_id = r.0; msg = drop 2 r.1 } in
    ap (made (word (proc_field proc))) (read-enb_field n (b' ' ∷ msg))
    ∙ ap (λ p. made p (n, b':' ∷ b' ' ∷ msg)) (word_name proc (32 - length proc) name)

-- A line of the log gives back the procedure, the eNB and the message that it was made from, where
-- the name of the procedure has no space and at most 32 bytes.
pub read_line-log_line :
    (agent : Option Agent) (proc msg : List ℕ)
    → IsName proc
    → length proc ≤ 32
    → read_line (log_line agent proc msg) ≡ record { proc = proc; enb_id = id_of agent; msg = msg }
unfolding read_line log_line
read_line-log_line agent proc msg name fits =
    let f = proc_field proc in
    let rest = codes ", eNB " ++ (enb_field (id_of agent) ++ (codes ": " ++ msg)) in
    let n = length-proc_field proc fits in
    let front : take 32 (f ++ rest) ≡ f =
      subst (λ k. take k (f ++ rest) ≡ f) n (take-length f rest) in
    let back : drop 32 (f ++ rest) ≡ rest =
      subst (λ k. drop k (f ++ rest) ≡ rest) n (drop-length f rest) in
    ap (λ x. entry_of x (drop 32 (f ++ rest))) front
    ∙ ap (entry_of f) back
    ∙ entry_of-parts (id_of agent) proc msg name
