-- ===== src/Indexer/Number.antt =====
-- `value.parse::<u64>()` of the standard library, as indexer/src/main.rs uses it; a `usize` has 64
-- bits too.
use rust_ethereum_indexer.Prelude.{
  Bool, ℕ, ◌+◌, ◌*◌, ◌-◌, Option, none, some, [], ◌∷◌, Text, in_range, ltb, ◌==◌, ◌&&◌, u64_mod,
  if◌then◌else◌,
}

abbrev pub is_digit : ℕ → Bool
is_digit = in_range b'0' b'9'

-- One digit after the other; a number beyond 64 bits is an error.
unfoldable pub parse_digits : ℕ → Text → Option ℕ
parse_digits acc [] = some acc
parse_digits acc (c ∷ cs) =
    let rest = parse_digits (acc * 10 + (c - b'0')) cs in
    if is_digit c && ltb (acc * 10 + (c - b'0')) u64_mod then rest else none

-- An empty text and a lone sign are errors.
abbrev pub parse_nonempty : Text → Option ℕ
parse_nonempty [] = none
parse_nonempty (c ∷ cs) = parse_digits 0 (c ∷ cs)

-- A plus sign may come first.
unfoldable pub parse_u64 : Text → Option ℕ
unfolding parse_digits
parse_u64 [] = none
parse_u64 (c ∷ cs) = if c == b'+' then parse_nonempty cs else parse_nonempty (c ∷ cs)
