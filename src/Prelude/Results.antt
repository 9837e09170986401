-- ===== src/Prelude/Results.antt =====
-- Pure code that may fail: the `?` of functions that touch no state.
use mathlib.Core.Option.{Option, none, some}
use rust_ethereum_indexer.Prelude.Effects.{Error, Result, ok, err}

-- The question mark: the first error ends the function.
module _ {ℓ κ} {Found : Type ℓ} {Value : Type κ} where
  infixl 5 ◌>>=◌
  abbrev pub ◌>>=◌ : Result Found → (Found → Result Value) → Result Value
  err failure >>= next = err failure
  ok found >>= next = next found

-- `Option::ok_or_else`
abbrev pub ok_or {ℓ} : {Found : Type ℓ} → Option Found → Error → Result Found
ok_or (some found) failure = ok found
ok_or none failure = err failure
