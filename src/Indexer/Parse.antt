-- ===== src/Indexer/Parse.antt =====
-- indexer/src/main.rs: which texts of the environment are numbers, and which ones.
use native.Mathlib.Nat.{pow-suc, mul-suc, one-le-pow}
use rust_ethereum_indexer.Prelude.{
  ℕ, zero, suc, ◌+◌, ◌*◌, ◌-◌, ◌^◌, ◌<◌, true, Bool-cases, inl, inr, ◌≡◌, refl, sym, ◌∙◌, ap, ◌↔◌,
  some, [], ◌∷◌, length, All, arith, Text, ltb, ◌==◌, ◌&&◌, u64_mod, if◌then◌else◌,
}
use rust_ethereum_indexer.Indexer.Number.{is_digit, parse_digits, parse_nonempty, parse_u64}

-- The number that some digits stand for.
abbrev pub decimal : Text → ℕ
decimal [] = 0
decimal (c ∷ cs) = (c - b'0') * 10 ^ length cs + decimal cs

shift : (acc d p q : ℕ) → (acc * 10 + d) * p + q ≡ acc * (10 * p) + (d * p + q)
shift acc d p q = omega arith

abbrev AllDigits : Text → Type 0
AllDigits = All (λ c. is_digit c ≡ true)

-- One digit more.
decimal_step :
    (acc c : ℕ) (cs : Text)
    → (acc * 10 + (c - b'0')) * 10 ^ length cs + decimal cs
      ≡ acc * 10 ^ length (c ∷ cs) + decimal (c ∷ cs)
decimal_step acc c cs =
    rw (pow-suc 10 (length cs)) (shift acc (c - b'0') (10 ^ length cs) (decimal cs) ∙ omega arith)

-- The accumulator never shrinks.
grows : (acc p q n : ℕ) → 0 < p → acc * p + q < n → acc < n
grows acc zero q n pos lt = absurd (omega arith)
grows acc (suc p) q n pos lt = omega (arith, mul-suc acc p)

parse_digits_sound :
    (acc : ℕ) (cs : Text) (n : ℕ)
    → acc < u64_mod
    → parse_digits acc cs ≡ some n
    → AllDigits cs × (n ≡ acc * 10 ^ length cs + decimal cs) × (n < u64_mod)
unfolding parse_digits
parse_digits_sound acc [] n small e =
    let same : acc ≡ n = ground arith in (tt, omega arith, omega arith)
parse_digits_sound acc (c ∷ cs) n small e =
    elim (Bool-cases (is_digit c && ltb (acc * 10 + (c - b'0')) u64_mod)) [
      | inl good ↦
          let (digits, value, fits) =
            parse_digits_sound (acc * 10 + (c - b'0')) cs n (ground arith) (ground arith) in
          ((ground arith, digits), value ∙ decimal_step acc c cs, fits)
      | inr bad ↦ absurd (ground arith)
    ]

parse_digits_complete :
    (acc : ℕ) (cs : Text)
    → AllDigits cs
    → acc * 10 ^ length cs + decimal cs < u64_mod
    → parse_digits acc cs ≡ some (acc * 10 ^ length cs + decimal cs)
unfolding parse_digits
parse_digits_complete acc [] digits fits = ap some (omega arith)
parse_digits_complete acc (c ∷ cs) digits fits =
    let step = decimal_step acc c cs in
    let fits' : (acc * 10 + (c - b'0')) * 10 ^ length cs + decimal cs < u64_mod = rw step fits in
    let small : acc * 10 + (c - b'0') < u64_mod =
      grows _ (10 ^ length cs) (decimal cs) u64_mod (one-le-pow (length cs) 10 (omega arith))
        fits' in
    let rest = parse_digits_complete (acc * 10 + (c - b'0')) cs digits.1 fits' in
    let tested : (is_digit c && ltb (acc * 10 + (c - b'0')) u64_mod) ≡ true =
      ground (arith, digits.0) in
    rw tested (rest ∙ ap some step)

-- The text without a plus sign in front.
abbrev pub unsigned : Text → Text
unsigned [] = []
unsigned (c ∷ cs) = if c == b'+' then cs else c ∷ cs

-- At least one digit and nothing else, after a plus sign that may be there; the number has 64 bits.
pub record Reads (value : Text) (n : ℕ) : Type 0 where
  pub some_digit : 0 < length (unsigned value)
  pub digits : All (λ c. is_digit c ≡ true) (unsigned value)
  pub number : n ≡ decimal (unsigned value)
  pub fits : n < u64_mod

nonempty-Reads :
    (cs : Text) (n : ℕ)
    → parse_nonempty cs ≡ some n
    → (0 < length cs) × AllDigits cs × (n ≡ decimal cs) × (n < u64_mod)
nonempty-Reads [] n e = absurd (ground arith)
nonempty-Reads (c ∷ cs) n e =
    let (digits, value, fits) = parse_digits_sound 0 (c ∷ cs) n (omega arith) e in
    (omega arith, digits, omega arith, fits)

Reads-nonempty :
    (cs : Text) (n : ℕ)
    → 0 < length cs
    → AllDigits cs
    → n ≡ decimal cs
    → n < u64_mod
    → parse_nonempty cs ≡ some n
Reads-nonempty [] n lt digits value fits = absurd (omega arith)
Reads-nonempty (c ∷ cs) n lt digits value fits =
    let zero_front : 0 * 10 ^ length (c ∷ cs) + decimal (c ∷ cs) ≡ n = omega arith in
    parse_digits_complete 0 (c ∷ cs) digits (rw zero_front fits) ∙ ap some zero_front

parse_u64-unsigned : (value : Text) → parse_u64 value ≡ parse_nonempty (unsigned value)
unfolding parse_u64
parse_u64-unsigned [] = refl
parse_u64-unsigned (c ∷ cs) = ground arith

-- A text reads as a number exactly where it is made of digits after a plus sign that may be there,
-- is not empty, and the number that the digits stand for is below 2 ^ 64.
pub parse_u64-Reads : (value : Text) (n : ℕ) → (parse_u64 value ≡ some n) ↔ Reads value n
parse_u64-Reads value n = (
  λ e.
      let (some_digit, digits, number, fits) =
        nonempty-Reads (unsigned value) n (sym (parse_u64-unsigned value) ∙ e) in
      record { some_digit = some_digit; digits = digits; number = number; fits = fits },
  λ r.
      parse_u64-unsigned value
      ∙ Reads-nonempty (unsigned value) n r.some_digit r.digits r.number r.fits,
)
