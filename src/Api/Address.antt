-- ===== src/Api/Address.antt =====
-- crates/api/src/schema.rs, lines 235 to 253: `parse_address`. `len` counts the bytes of the UTF-8
-- form.
use rust_ethereum_indexer.Prelude.{
  ℕ, ◌+◌, Bool, not, ◌&&◌, ◌||◌, Text, in_range, trim, trim_start, Option, none, some, [], ◌∷◌,
  Bytes, ltb, ◌==◌, if◌then◌else◌, any_of, Result, ok, err, rejected,
}
use rust_ethereum_indexer.Prelude.Results.{◌>>=◌, ok_or}

unfoldable pub is_ascii_hexdigit : ℕ → Bool
is_ascii_hexdigit c = in_range 0x30 0x39 c || in_range 0x41 0x46 c || in_range 0x61 0x66 c

-- strip_prefix("0x").or_else(strip_prefix("0X")).unwrap_or(itself)
unfoldable pub strip_0x : Text → Text
strip_0x (zero_char ∷ x_char ∷ rest) =
    if zero_char == 0x30 && (x_char == 0x78 || x_char == 0x58)
    then rest
    else zero_char ∷ x_char ∷ rest
strip_0x value = value

abbrev pub utf8_len : ℕ → ℕ
utf8_len c = if ltb c 0x80 then 1 else if ltb c 0x800 then 2 else if ltb c 0x10000 then 3 else 4

unfoldable pub text_len : Text → ℕ
text_len [] = 0
text_len (c ∷ cs) = utf8_len c + text_len cs

unfoldable pub all_hexdigits : Text → Bool
unfolding is_ascii_hexdigit
all_hexdigits cs = not (any_of (λ c. not (is_ascii_hexdigit c)) cs)

-- `address_from_str` is alloy's parser of an `Address`. The message leaves out the value.
unfoldable pub parse_address : (Text → Option Bytes) → Text → Result Bytes
unfolding trim_start strip_0x text_len all_hexdigits
parse_address address_from_str value =
    let trimmed = strip_0x (trim value) in
    if not (text_len trimmed == 40) || not (all_hexdigits trimmed)
    then err (rejected "Invalid Ethereum address. Expected a 20-byte hex string.")
    else ok_or (address_from_str (0x30 ∷ 0x78 ∷ trimmed)) (rejected "Invalid Ethereum address.")

-- `.as_deref().map(parse_address).transpose()`
unfoldable pub parse_optional : (Text → Option Bytes) → Option Text → Result (Option Bytes)
unfolding parse_address
parse_optional address_from_str none = ok none
parse_optional address_from_str (some value) = do
  address ← parse_address address_from_str value
  ok (some address)
