-- ===== src/Api/Query.antt =====
-- crates/api/src/schema.rs: `erc20_transfers`, lines 55 to 163, with `normalize_limit` and
-- `normalize_offset`; it returns rows, before they are printed. SQL leaves the order of rows with
-- the same block and log index open; here they keep the order of the union.
use rust_ethereum_indexer.Prelude.{
  Text, ℕ, zero, suc, min, Bool, true, false, ◌&&◌, ◌||◌, Option, none, some, List, [], ◌∷◌, ◌++◌,
  Bytes, bytes_eq, ◌==ℤ◌, ℤ, pos, negsuc, leb_ℤ, ltb_ℤ, keep_if, take, drop, if◌then◌else◌, Result,
  ok, err, rejected, Exec, raise, lift, ◌>>=◌,
}
use rust_ethereum_indexer.Storage.Tables.{Transfer, Database}
use rust_ethereum_indexer.Storage.Session.{Answer, Host, execute}
use rust_ethereum_indexer.Storage.Statements.{reads}
use rust_ethereum_indexer.Api.Address.{parse_optional}

abbrev pub default_limit : ℕ
default_limit = 50

abbrev pub max_limit : ℕ
max_limit = 500

unfoldable pub normalize_limit : Option ℤ → Result ℕ
normalize_limit none = ok default_limit
normalize_limit (some (pos zero)) = err (rejected "limit must be greater than 0")
normalize_limit (some (negsuc n)) = err (rejected "limit must be greater than 0")
normalize_limit (some (pos (suc n))) = ok (min (suc n) max_limit)

unfoldable pub normalize_offset : Option ℤ → Result ℕ
normalize_offset none = ok 0
normalize_offset (some (negsuc n)) = err (rejected "offset cannot be negative")
normalize_offset (some (pos n)) = ok n

-- The arguments of `erc20_transfers`.
pub record Arguments : Type 0 where
  pub from_address : Option Text
  pub to_address : Option Text
  pub contract_address : Option Text
  pub min_block : Option ℤ
  pub max_block : Option ℤ
  pub limit : Option ℤ
  pub offset : Option ℤ

-- The filters, once the addresses are parsed.
pub record Filters : Type 0 where
  pub from_address : Option Bytes
  pub to_address : Option Bytes
  pub contract_address : Option Bytes
  pub min_block : Option ℤ
  pub max_block : Option ℤ

abbrev pub if_given : {A : Type 0} → (A → Bool) → Option A → Bool
if_given test none = true
if_given test (some a) = test a

-- WHERE … AND …
unfoldable pub passes : Filters → Transfer → Bool
passes f r =
    if_given (bytes_eq r.from_address) f.from_address
    && if_given (bytes_eq r.to_address) f.to_address
    && if_given (bytes_eq r.contract_address) f.contract_address
    && if_given (λ z. leb_ℤ z r.block_number) f.min_block
    && if_given (λ z. leb_ℤ r.block_number z) f.max_block

-- ORDER BY block_number DESC, log_index DESC: may `a` come before `b`?
unfoldable pub not_after : Transfer → Transfer → Bool
not_after a b =
    ltb_ℤ b.block_number a.block_number
    || (a.block_number ==ℤ b.block_number && leb_ℤ b.log_index a.log_index)

unfoldable pub insert_latest : Transfer → List Transfer → List Transfer
unfolding not_after
insert_latest r [] = r ∷ []
insert_latest r (q ∷ rows) =
    let rest = insert_latest r rows in if not_after r q then r ∷ q ∷ rows else q ∷ rest

unfoldable pub order_latest : List Transfer → List Transfer
unfolding insert_latest
order_latest [] = []
order_latest (r ∷ rows) = insert_latest r (order_latest rows)

-- SELECT … FROM (erc20_transfers UNION ALL hot_erc20_transfers) WHERE … ORDER BY … LIMIT … OFFSET …
unfoldable pub select_transfers : Filters → ℕ → ℕ → Database → List Transfer
unfolding passes order_latest
select_transfers f limit offset db = take limit (
    drop offset
      (order_latest (keep_if (passes f) (db.erc20_transfers.rows ++ db.hot_erc20_transfers.rows))))

abbrev pub is_inverted : Option ℤ → Option ℤ → Bool
is_inverted (some low) (some high) = ltb_ℤ high low
is_inverted _ _ = false

unfoldable pub erc20_transfers :
    (ℕ → Answer) → (Text → Option Bytes) → Arguments → Exec Host (List Transfer)
unfolding select_transfers normalize_limit normalize_offset parse_optional
erc20_transfers answer address_from_str a =
    if is_inverted a.min_block a.max_block
    then raise (rejected "minBlock cannot be greater than maxBlock")
    else (do
      from_address ← lift (parse_optional address_from_str a.from_address)
      to_address ← lift (parse_optional address_from_str a.to_address)
      contract_address ← lift (parse_optional address_from_str a.contract_address)
      limit ← lift (normalize_limit a.limit)
      offset ← lift (normalize_offset a.offset)
      let filters : Filters = record {
        from_address = from_address;
        to_address = to_address;
        contract_address = contract_address;
        min_block = a.min_block;
        max_block = a.max_block;
      }
      execute answer (reads (λ db. select_transfers filters limit offset db)))
