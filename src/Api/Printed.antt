-- ===== src/Api/Printed.antt =====
-- crates/api/src/schema.rs: an address that the API prints may be given back to it.
use mathlib.Core.List.{reverse, reverse_aux, reverse-reverse}
use rust_ethereum_indexer.Prelude.{
  ℕ, ◌*◌, ◌/◌, ◌%◌, ◌<◌, true, false, ◌≡◌, refl, ap, ◌∙◌, Option, some, [], ◌∷◌, Bytes, Text,
  length, All, All-map, any_of, ◌==◌, is_whitespace, trim_start, trim, arith, ok,
}
use rust_ethereum_indexer.Api.Address.{
  is_ascii_hexdigit, strip_0x, text_len, all_hexdigits, parse_address,
}
use rust_ethereum_indexer.Api.Record.{hex_digit, hex_bytes, format_address}

abbrev Digits : Text → Type 0
Digits = All (λ c. is_ascii_hexdigit c ≡ true)

hex_digit_is : (n : ℕ) → n < 16 → is_ascii_hexdigit (hex_digit n) ≡ true
unfolding is_ascii_hexdigit
hex_digit_is n lt = ground arith

hex_bytes-Digits : (bs : Bytes) → All (λ b. b < 256) bs → Digits (hex_bytes bs)
hex_bytes-Digits [] h = tt
hex_bytes-Digits (b ∷ bs) h = (
  hex_digit_is (b / 16) (omega (arith, h.0)),
  (hex_digit_is (b % 16) (omega arith), hex_bytes-Digits bs h.1),
)

length-hex_bytes : (bs : Bytes) → length (hex_bytes bs) ≡ 2 * length bs
length-hex_bytes [] = refl
length-hex_bytes (b ∷ bs) = omega (arith, length-hex_bytes bs)

digit_no_space : (c : ℕ) → is_ascii_hexdigit c ≡ true → is_whitespace c ≡ false
unfolding is_ascii_hexdigit is_whitespace
digit_no_space c h = ground arith

text_len-Digits : (t : Text) → Digits t → text_len t ≡ length t
unfolding text_len is_ascii_hexdigit
text_len-Digits [] h = refl
text_len-Digits (c ∷ cs) h = ground (arith, h.0, text_len-Digits cs h.1)

all_hexdigits-Digits : (t : Text) → Digits t → all_hexdigits t ≡ true
unfolding all_hexdigits any_of
all_hexdigits-Digits [] h = refl
all_hexdigits-Digits (c ∷ cs) h = ground (arith, h.0, all_hexdigits-Digits cs h.1)

abbrev NoSpace : Text → Type 0
NoSpace = All (λ c. is_whitespace c ≡ false)

reverse_aux-NoSpace : (t u : Text) → NoSpace t → NoSpace u → NoSpace (reverse_aux t u)
reverse_aux-NoSpace [] u h k = k
reverse_aux-NoSpace (c ∷ cs) u h k = reverse_aux-NoSpace cs (c ∷ u) h.1 (h.0, k)

trim_start_clean : (t : Text) → NoSpace t → trim_start t ≡ t
unfolding trim_start
trim_start_clean [] h = refl
trim_start_clean (c ∷ cs) h = rw h.0 refl

-- A text without white space is not trimmed.
trim_clean : (t : Text) → NoSpace t → trim t ≡ t
trim_clean t h =
    ap (λ x. reverse (trim_start (reverse x))) (trim_start_clean t h)
    ∙ ap reverse (trim_start_clean (reverse t) (reverse_aux-NoSpace t [] h tt))
    ∙ reverse-reverse t

strip_0x-Digits : (t : Text) → Digits t → strip_0x t ≡ t
unfolding strip_0x is_ascii_hexdigit
strip_0x-Digits [] h = refl
strip_0x-Digits (c ∷ []) h = refl
strip_0x-Digits (c ∷ d ∷ cs) h = ground (arith, h.1.0)

module _ (fixed_hex : Bytes → Text) (address_from_str : Text → Option Bytes) where
  -- alloy prints bytes as pairs of lower-case digits after 0x, and reads an address from that.
  pub record Alloy : Type 0 where
    pub prints : (bs : Bytes) → fixed_hex bs ≡ b'0' ∷ b'x' ∷ hex_bytes bs
    pub parses :
        (bs : Bytes)
        → length bs ≡ 20
        → All (λ b. b < 256) bs
        → address_from_str (b'0' ∷ b'x' ∷ hex_bytes bs) ≡ some bs

  module _ (alloy : Alloy) (bs : Bytes) (width : length bs ≡ 20)
      (bytes : All (λ b. b < 256) bs) where
    digits : Digits (hex_bytes bs)
    digits = hex_bytes-Digits bs bytes

    no_space : NoSpace (hex_bytes bs)
    no_space = All-map _ _ (hex_bytes bs) digit_no_space digits

    parsed :
        (value : Text)
        → strip_0x (trim value) ≡ hex_bytes bs
        → parse_address address_from_str value ≡ ok bs
    unfolding parse_address
    parsed value e =
        let long : (text_len (hex_bytes bs) == 40) ≡ true =
          ground (arith, text_len-Digits (hex_bytes bs) digits, length-hex_bytes bs, width) in
        rw (e, long, all_hexdigits-Digits (hex_bytes bs) digits, alloy.parses bs width bytes) refl

    -- For alloy as documented: the API prints each address of 20 bytes, and takes what it prints
    -- for that address, with either prefix and without one.
    pub parse_address-format_address :
        (t : Text) × (format_address fixed_hex bs ≡ ok t)
        × (parse_address address_from_str t ≡ ok bs)
        × (parse_address address_from_str (b'0' ∷ b'X' ∷ hex_bytes bs) ≡ ok bs)
        × (parse_address address_from_str (hex_bytes bs) ≡ ok bs)
    unfolding format_address strip_0x is_whitespace
    parse_address-format_address =
        let twenty : (length bs == 20) ≡ true = ground (arith, width) in
        (
          b'0' ∷ b'x' ∷ hex_bytes bs,
          rw (twenty, alloy.prints bs) refl,
          parsed (b'0' ∷ b'x' ∷ hex_bytes bs) (ap strip_0x (trim_clean _ (refl, (refl, no_space)))),
          parsed (b'0' ∷ b'X' ∷ hex_bytes bs) (ap strip_0x (trim_clean _ (refl, (refl, no_space)))),
          parsed (hex_bytes bs) (
              ap strip_0x (trim_clean (hex_bytes bs) no_space)
              ∙ strip_0x-Digits (hex_bytes bs) digits),
        )
