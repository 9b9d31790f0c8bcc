-- ===== src/Log/Name/Digits.antt =====
-- Decimal numbers as Rust formats and parses them: `{:020}` and `str::parse::<u64>`.
use native.Mathlib.Nat.{pow-suc}
use native.Mathlib.Decide.{dec_lt}
use dozer.Common.{
  ℕ, zero, suc, ◌+◌, ◌-◌, ◌*◌, ◌/◌, ◌%◌, ◌^◌, ◌≤◌, ◌<◌, ◌≡◌, refl, Bool, true, false, ◌&&◌, List,
  [], ◌∷◌, ◌++◌, Option, none, some, arith, ltb, leb, ◌==◌, if◌then◌else◌, All, All-append, length,
  length-append, append_assoc, append-nil, subst, ◌∙◌,
}

abbrev pub u64_mod : ℕ
u64_mod = 2 ^ 64

-- The last `w` decimal digits, as `{:0w}` prints a number of at most `w` digits.
unfoldable pub digits : ℕ → ℕ → List ℕ
digits zero n = []
digits (suc w) n = digits w (n / 10) ++ (48 + n % 10) ∷ []

-- The digits of a number that fits into 64 bits; any overflow ends the parse.
unfoldable pub parse_digits : ℕ → List ℕ → Option ℕ
parse_digits acc [] = some acc
parse_digits acc (c ∷ cs) =
    let next = acc * 10 + (c - 48) in
    let rest = parse_digits next cs in
    if leb 48 c && leb c 57 && ltb next u64_mod then rest else none

abbrev after_plus : List ℕ → Option ℕ
after_plus [] = none
after_plus (c ∷ cs) = parse_digits 0 (c ∷ cs)

-- `str::parse::<u64>`: a plus sign may stand in front, and one digit has to be there.
unfoldable pub parse_u64 : List ℕ → Option ℕ
parse_u64 [] = none
parse_u64 (c ∷ cs) = if c == b'+' then after_plus cs else parse_digits 0 (c ∷ cs)

abbrev pub IsDigit : ℕ → Type 0
IsDigit c = (48 ≤ c) × (c ≤ 57)

pub digits-IsDigit : (w n : ℕ) → All IsDigit (digits w n)
unfolding digits
digits-IsDigit zero n = tt
digits-IsDigit (suc w) n =
    All-append IsDigit (digits w (n / 10)) _ (digits-IsDigit w (n / 10)) (omega arith)

pub length-digits : (w n : ℕ) → length (digits w n) ≡ w
unfolding digits
length-digits zero n = refl
length-digits (suc w) n =
    omega
      (arith, length-append {0} (digits w (n / 10)) ((48 + n % 10) ∷ []), length-digits w (n / 10))

div_pow : (w n : ℕ) → n < 10 ^ suc w → n / 10 < 10 ^ w
div_pow w n h = let h' : n < 10 ^ w * 10 = rw pow-suc at h in omega arith

parse_digits-digits :
    (w n : ℕ) (rest : List ℕ)
    → n < 10 ^ w
    → n < u64_mod
    → parse_digits 0 (digits w n ++ rest) ≡ parse_digits n rest
unfolding digits
parse_digits-digits zero n rest h k = let z : 0 ≡ n = omega arith in rw z refl
parse_digits-digits (suc w) n rest h k = rw append_assoc (
    rw (parse_digits-digits w (n / 10) ((48 + n % 10) ∷ rest) (div_pow w n h) (omega arith)) (
      unfold parse_digits in
      let sum : n / 10 * 10 + (48 + n % 10 - 48) ≡ n = omega arith in rw sum (ground arith)))

parse_u64-eq-parse_digits :
    (cs : List ℕ) → All IsDigit cs → 0 < length cs → parse_u64 cs ≡ parse_digits 0 cs
unfolding parse_u64
parse_u64-eq-parse_digits [] h k = absurd (omega arith)
parse_u64-eq-parse_digits (c ∷ cs) h k = ground (arith, h.0)

-- Reading back what was printed with enough digits.
pub parse_u64-digits :
    (w n : ℕ) → 0 < w → n < 10 ^ w → n < u64_mod → parse_u64 (digits w n) ≡ some n
unfolding parse_digits
parse_u64-digits w n some_width h k =
    parse_u64-eq-parse_digits (digits w n) (digits-IsDigit w n) (rw length-digits some_width)
    ∙ subst (λ (cs : List ℕ). parse_digits 0 cs ≡ some n) (append-nil (digits w n))
        (parse_digits-digits w n [] h k)

-- The order of bytes, as storage lists keys.
unfoldable pub lex_lt : List ℕ → List ℕ → Bool
lex_lt xs [] = false
lex_lt [] (y ∷ ys) = true
lex_lt (x ∷ xs) (y ∷ ys) = let rest = lex_lt xs ys in if x == y then rest else ltb x y

pub lex_lt-append_self : (ps xs ys : List ℕ) → lex_lt (ps ++ xs) (ps ++ ys) ≡ lex_lt xs ys
unfolding lex_lt
lex_lt-append_self [] xs ys = refl
lex_lt-append_self (p ∷ ps) xs ys = ground (arith, lex_lt-append_self ps xs ys)

-- Numbers printed with the same width are ordered as their digits are.
pub lex_lt-digits :
    (w a b : ℕ) (xs ys : List ℕ)
    → a < b
    → b < 10 ^ w
    → lex_lt (digits w a ++ xs) (digits w b ++ ys) ≡ true
unfolding digits
lex_lt-digits zero a b xs ys h k = absurd (omega arith)
lex_lt-digits (suc w) a b xs ys h k = rw (append_assoc (digits w (a / 10)) _ xs) (
    rw (append_assoc (digits w (b / 10)) _ ys) (elim (dec_lt (a / 10) (b / 10)) [
      | yes below ↦ lex_lt-digits w (a / 10) (b / 10) _ _ below (div_pow w b k)
      | no above ↦
          let same : a / 10 ≡ b / 10 = omega arith in
          rw same (lex_lt-append_self (digits w (b / 10)) _ _ ∙ (unfold lex_lt in ground arith))
    ]))
