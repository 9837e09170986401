-- ===== src/Prelude/Effects.antt =====
-- Code that acts on a state and may fail: what was done before an error stays done, so the state
-- comes back beside the error too.
use Prim.Native.Nat.{ℕ}
use Prim.Native.String.{String}

-- `sqlx::Error` and `Box<dyn Error>`: what the code builds itself is spelled out; what a service
-- answers is a number.
pub data Error : Type 0 where
  sql : ℕ → Error
  row_not_found : Error
  no_partition : Error
  invalid_statement : Error
  second_update : Error
  rpc : ℕ → Error
  block_not_found : ℕ → Error
  missing_field : String → Error
  rejected : String → Error

pub data Result {ℓ} (A : Type ℓ) : Type ℓ where
  ok : A → Result A
  err : Error → Result A

abbrev pub Exec {ℓ} : Type ℓ → Type ℓ → Type ℓ
Exec S A = S → Result A × S

module _ {ℓ} {S A : Type ℓ} where
  -- A result that is at hand already.
  unfoldable pub lift : Result A → Exec S A
  lift outcome state = (outcome, state)

  unfoldable pub raise : Error → Exec S A
  raise failure state = (err failure, state)

  unfoldable pub pure : A → Exec S A
  pure value state = (ok value, state)

module _ {ℓ} {S A B : Type ℓ} where
  abbrev pub continue : Result A → (A → Exec S B) → Exec S B
  continue (err failure) next state = (err failure, state)
  continue (ok value) next state = next value state

  infixl 5 ◌>>=◌ ◌>>◌
  unfoldable pub ◌>>=◌ : Exec S A → (A → Exec S B) → Exec S B
  unfolding pure raise lift
  ◌>>=◌ action next state = let (outcome, changed) = action state in continue outcome next changed

  abbrev pub ◌>>◌ : Exec S A → Exec S B → Exec S B
  action >> rest = action >>= λ _. rest
