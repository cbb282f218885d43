-- ===== src/Text.antt =====
-- Texts as lists of bytes, and what `printf` writes for a number.
use Prim.Native.Char.{code}
use Prim.Native.String.{String}
use empower_enb_agent.Base.{
  ℕ, zero, suc, ◌+◌, ◌-◌, ◌*◌, ◌/◌, ◌%◌, ◌<◌, ◌≡◌, refl, ap, ◌∙◌, Bool-cases, inl, inr, ltb→lt,
  ltb→le, is_negative, ◌^◌, Bool, List, [], ◌∷◌, ◌++◌, arith, ltb, if◌then◌else◌, ◌&&◌, not,
}

-- The bytes of a literal, which is ASCII.
abbrev pub codes : String → List ℕ
codes String.[] = []
codes (String.◌∷◌ c s) = code c ∷ codes s

-- `n` times the byte `c`.
abbrev pub repeat : ℕ → ℕ → List ℕ
repeat zero c = []
repeat (suc n) c = c ∷ repeat n c

-- The decimal digits of a number before a text, with fuel.
unfoldable pub digits : ℕ → ℕ → List ℕ → List ℕ
digits zero n rest = rest
digits (suc fuel) n rest =
    let more = digits fuel (n / 10) ((b'0' + n % 10) ∷ rest) in
    if ltb n 10 then (b'0' + n) ∷ rest else more

-- `%lu`; one more than the number is enough fuel.
unfoldable pub decimal : ℕ → List ℕ
unfolding digits
decimal n = digits (suc n) n []

-- `%d`, of an `int`.
unfoldable pub print_int : ℕ → List ℕ
unfolding decimal
print_int n = if is_negative n then b'-' ∷ decimal (2 ^ 32 - n) else decimal n

abbrev pub is_digit : ℕ → Bool
is_digit c = not (ltb c b'0') && ltb c 58

-- The number that a text begins with, and the rest; `n` is what was read so far.
unfoldable pub read_decimal : List ℕ → ℕ → ℕ × List ℕ
read_decimal [] n = (n, [])
read_decimal (c ∷ cs) n =
    let more = read_decimal cs (n * 10 + (c - b'0')) in if is_digit c then more else (n, c ∷ cs)

read-digit :
    (d n : ℕ) (rest : List ℕ)
    → d < 10
    → read_decimal ((b'0' + d) ∷ rest) n ≡ read_decimal rest (n * 10 + d)
unfolding read_decimal
read-digit d n rest h = ground arith

not_below : (n : ℕ) → n < 0 → ⊥
not_below n h = omega arith

pub read-digits :
    (fuel n : ℕ) (rest : List ℕ)
    → n < fuel
    → read_decimal (digits fuel n rest) 0 ≡ read_decimal rest n
unfolding digits
read-digits zero n rest h = elim (not_below n h) [ ]
read-digits (suc fuel) n rest h = elim (Bool-cases (ltb n 10)) [
  | inl small ↦
      rw small (read-digit n 0 rest (ltb→lt n 10 small) ∙ ap (read_decimal rest) (omega arith))
  | inr big ↦
      let d = n % 10 in
      let le = ltb→le n 10 big in
      rw big (
        read-digits fuel (n / 10) ((b'0' + d) ∷ rest) (omega arith)
        ∙ read-digit d (n / 10) rest (omega arith)
        ∙ ap (read_decimal rest) (omega arith))
]

pub digits_before :
    (fuel n : ℕ) (xs ys : List ℕ) → digits fuel n xs ++ ys ≡ digits fuel n (xs ++ ys)
unfolding digits
digits_before zero n xs ys = refl
digits_before (suc fuel) n xs ys = elim (Bool-cases (ltb n 10)) [
  | inl small ↦ rw small refl
  | inr big ↦ rw big (digits_before fuel (n / 10) ((b'0' + n % 10) ∷ xs) ys)
]

-- Zeros in front of a number change nothing.
pub read-zeros :
    (n : ℕ) (rest : List ℕ) → read_decimal (repeat n b'0' ++ rest) 0 ≡ read_decimal rest 0
unfolding read_decimal
read-zeros zero rest = refl
read-zeros (suc n) rest = read-zeros n rest
