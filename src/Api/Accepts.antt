-- ===== src/Api/Accepts.antt =====
-- `erc20_transfers` of crates/api/src/schema.rs: which arguments it accepts.
use rust_ethereum_indexer.Prelude.{
  ℕ, suc, ◌≡◌, ◌⊎◌, Option, none, some, Bytes, Text, ℤ, pos, ◌≤ℤ◌, Result, ok,
}
use rust_ethereum_indexer.Api.Address.{parse_optional}
use rust_ethereum_indexer.Api.Query.{Arguments}

-- No limit, or a positive one; no offset, or one that is not negative.
abbrev pub LimitAllowed : Option ℤ → Type 0
LimitAllowed limit = (limit ≡ none) ⊎ ((n : ℕ) × (limit ≡ some (pos (suc n))))

abbrev pub OffsetAllowed : Option ℤ → Type 0
OffsetAllowed offset = (offset ≡ none) ⊎ ((n : ℕ) × (offset ≡ some (pos n)))

abbrev pub Succeeds : {A : Type 0} → Result A → Type 0
Succeeds {A} r = (a : A) × (r ≡ ok a)

-- What a client must see to.
pub record IsAllowed (address_from_str : Text → Option Bytes) (a : Arguments) : Type 0 where
  pub blocks : (low high : ℤ) → a.min_block ≡ some low → a.max_block ≡ some high → low ≤ℤ high
  pub from : Succeeds (parse_optional address_from_str a.from_address)
  pub to : Succeeds (parse_optional address_from_str a.to_address)
  pub contract : Succeeds (parse_optional address_from_str a.contract_address)
  pub limit : LimitAllowed a.limit
  pub offset : OffsetAllowed a.offset
