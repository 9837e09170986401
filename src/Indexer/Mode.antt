-- ===== src/Indexer/Mode.antt =====
-- indexer/src/main.rs: `IndexerMode::from_env` reads INDEXER_MODE in either case.
use rust_ethereum_indexer.Prelude.{
  ℕ, ◌≡◌, refl, sym, ◌∙◌, ap, some, [], ◌∷◌, map, Text, is_whitespace, trim_start, trim,
  to_ascii_lower, to_ascii_lowercase, arith,
}
use mathlib.Core.List.{reverse, reverse_aux}
use rust_ethereum_indexer.Indexer.Settings.{from_env}

to_ascii_lower-is_whitespace : (c : ℕ) → is_whitespace (to_ascii_lower c) ≡ is_whitespace c
unfolding is_whitespace to_ascii_lower
to_ascii_lower-is_whitespace c = ground arith

to_ascii_lower_idem : (c : ℕ) → to_ascii_lower (to_ascii_lower c) ≡ to_ascii_lower c
unfolding to_ascii_lower
to_ascii_lower_idem c = ground arith

to_ascii_lowercase_idem :
    (t : Text) → to_ascii_lowercase (to_ascii_lowercase t) ≡ to_ascii_lowercase t
to_ascii_lowercase_idem [] = refl
to_ascii_lowercase_idem (c ∷ cs) = cc (to_ascii_lower_idem c, to_ascii_lowercase_idem cs)

trim_start-lowercase :
    (t : Text) → trim_start (to_ascii_lowercase t) ≡ to_ascii_lowercase (trim_start t)
unfolding trim_start
trim_start-lowercase [] = refl
trim_start-lowercase (c ∷ cs) =
    ground (arith, to_ascii_lower-is_whitespace c, trim_start-lowercase cs)

map-reverse_aux :
    (f : ℕ → ℕ) (xs ys : Text) → map f (reverse_aux xs ys) ≡ reverse_aux (map f xs) (map f ys)
map-reverse_aux f [] ys = refl
map-reverse_aux f (x ∷ xs) ys = map-reverse_aux f xs (x ∷ ys)

trim-lowercase : (t : Text) → trim (to_ascii_lowercase t) ≡ to_ascii_lowercase (trim t)
trim-lowercase t =
    ap (λ x. reverse (trim_start (reverse x))) (trim_start-lowercase t)
    ∙ ap (λ x. reverse (trim_start x)) (sym (map-reverse_aux to_ascii_lower (trim_start t) []))
    ∙ ap reverse (trim_start-lowercase (reverse (trim_start t)))
    ∙ sym (map-reverse_aux to_ascii_lower (trim_start (reverse (trim_start t))) [])

-- The mode does not depend on the case in which INDEXER_MODE is written.
pub from_env_case :
    (value : Text) → from_env (some (to_ascii_lowercase value)) ≡ from_env (some value)
unfolding from_env
from_env_case value = rw (trim-lowercase value, to_ascii_lowercase_idem (trim value)) refl
