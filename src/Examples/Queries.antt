-- ===== src/Examples/Queries.antt =====
-- The theorems on the query, on a database that holds one transfer in both lanes.
use rust_ethereum_indexer.Prelude.{
  true, ◌==ℤ◌, All, ap, ltb, ◌*◌, ◌-◌, ◌<◌, if◌then◌else◌, Text, ℕ, ◌+◌, ◌≡◌, refl, Option, none,
  some, [], ◌∷◌, Bytes, pos, ok, keep_if, arith, ◌>>=◌, ℤ, ==ℤ→eq, ◌≤◌,
}
use rust_ethereum_indexer.Storage.Tables.{Transfer, Database, migrated, select_hash}
use rust_ethereum_indexer.Storage.Session.{reliable, execute}
use rust_ethereum_indexer.Api.Query.{Arguments, erc20_transfers, select_transfers}
use rust_ethereum_indexer.Api.Pages.{
  Matches, IsPage, erc20_transfers-IsPage, erc20_transfers-counted,
}
use rust_ethereum_indexer.Api.Count.{count_if}
use rust_ethereum_indexer.Ingestion.Finalized.{IsFinalized}
use rust_ethereum_indexer.Api.Status.{indexer_status}
use rust_ethereum_indexer.Api.Latest.{IsStatus, indexer_status-latest}
use rust_ethereum_indexer.Storage.Effects.{pruned}
use rust_ethereum_indexer.Ingestion.Writes.{LiveWrites, LiveWrites-SameFinalized, IsFinalized-moved}
use rust_ethereum_indexer.Api.Address.{parse_address, parse_optional}
use rust_ethereum_indexer.Api.Record.{hex_bytes, format_address}
use rust_ethereum_indexer.Api.Printed.{Alloy, parse_address-format_address}
use rust_ethereum_indexer.Examples.Fixtures.{transfer_two, alice}

abbrev both_lanes : Database
both_lanes = record migrated {
  erc20_transfers = record { partitions = []; rows = transfer_two ∷ [] };
  hot_erc20_transfers = record { partitions = []; rows = transfer_two ∷ [] };
}

abbrev no_arguments : Arguments
no_arguments = record {
  from_address = none;
  to_address = none;
  contract_address = none;
  min_block = none;
  max_block = some (pos 2);
  limit = none;
  offset = none;
}

abbrev no_addresses : Text → Option Bytes
no_addresses value = none

both_returned :
    (erc20_transfers reliable no_addresses no_arguments
      (record { database = both_lanes; time = 0 })).0
    ≡ ok (transfer_two ∷ transfer_two ∷ [])
unfolding erc20_transfers select_transfers execute ◌>>=◌ keep_if
both_returned = refl

erc20_transfers-IsPage_example :
    IsPage no_addresses no_arguments both_lanes (transfer_two ∷ transfer_two ∷ [])
erc20_transfers-IsPage_example =
    erc20_transfers-IsPage reliable no_addresses no_arguments
      (record { database = both_lanes; time = 0 }) (transfer_two ∷ transfer_two ∷ []) both_returned

-- The block of the transfer is not beyond block 2.
in_block_two :
    (r : Transfer) → (r.block_number ==ℤ pos 2) ≡ true → Matches no_addresses no_arguments r
unfolding parse_optional
in_block_two r e =
    let two = ==ℤ→eq r.block_number (pos 2) e in
    record {
      from = λ b given. absurd (ground arith);
      to = λ b given. absurd (ground arith);
      contract = λ b given. absurd (ground arith);
      not_before = λ z given. cc;
      not_beyond = λ z given. rw two (ground arith);
    }

erc20_transfers-counted_example :
    count_if (λ r. r.block_number ==ℤ pos 2) (transfer_two ∷ transfer_two ∷ [])
    ≡ count_if (λ r. r.block_number ==ℤ pos 2) (transfer_two ∷ [])
      + count_if (λ r. r.block_number ==ℤ pos 2) (transfer_two ∷ [])
erc20_transfers-counted_example =
    erc20_transfers-counted reliable no_addresses no_arguments
      (record { database = both_lanes; time = 0 }) (transfer_two ∷ transfer_two ∷ []) 50
      both_returned refl refl (omega arith) (λ r. r.block_number ==ℤ pos 2) in_block_two

-- A parser that reads what is printed: it pairs the digits again.
abbrev digit_value : ℕ → ℕ
digit_value c = if ltb c 87 then c - 48 else c - 87

abbrev pairs : Text → Bytes
pairs [] = []
pairs (c ∷ []) = []
pairs (c ∷ d ∷ cs) = (digit_value c * 16 + digit_value d) ∷ pairs cs

abbrev simple_parser : Text → Option Bytes
simple_parser (c ∷ d ∷ cs) = some (pairs cs)
simple_parser _ = none

pairs-hex_bytes : (bs : Bytes) → All (λ b. b < 256) bs → pairs (hex_bytes bs) ≡ bs
pairs-hex_bytes [] h = refl
pairs-hex_bytes (b ∷ bs) h = rw (pairs-hex_bytes bs h.1) (ap (λ c. c ∷ bs) (ground (arith, h.0)))

simple-Alloy : Alloy (λ bs. b'0' ∷ b'x' ∷ hex_bytes bs) simple_parser
simple-Alloy = record {
  prints = λ bs. refl;
  parses = λ bs width bytes. ap some (pairs-hex_bytes bs bytes);
}

alice_bytes : All (λ b. b < 256) alice
alice_bytes = search arith

parse_address-format_address_example :
    (t : Text) × (format_address (λ bs. b'0' ∷ b'x' ∷ hex_bytes bs) alice ≡ ok t)
    × (parse_address simple_parser t ≡ ok alice)
    × (parse_address simple_parser (b'0' ∷ b'X' ∷ hex_bytes alice) ≡ ok alice)
    × (parse_address simple_parser (hex_bytes alice) ≡ ok alice)
parse_address-format_address_example =
    parse_address-format_address (λ bs. b'0' ∷ b'x' ∷ hex_bytes bs) simple_parser simple-Alloy alice
      refl alice_bytes

abbrev one_block : Database
one_block = record migrated {
  indexed_blocks = (pos 1, 1 ∷ []) ∷ [];
  indexer_checkpoint = some (pos 1);
}

only_first :
    (z : ℤ) (h : Bytes)
    → select_hash z one_block.indexed_blocks ≡ some h
    → (n : ℕ) × (z ≡ pos n) × (1 ≤ n) × (n ≤ 1)
unfolding select_hash
only_first z h e = (1, ground (arith, ==ℤ→eq z (pos 1), ==ℤ→eq (pos 1) z), omega arith, omega arith)

first_stored :
    (n : ℕ) → 1 ≤ n → n ≤ 1 → (h : Bytes) × (select_hash (pos n) one_block.indexed_blocks ≡ some h)
unfolding select_hash
first_stored n lo hi = (1 ∷ [], ground arith)

one_block-IsFinalized : IsFinalized 1 3 one_block
one_block-IsFinalized = record {
  cp = 1;
  checkpoint = refl;
  below = omega arith;
  stored_all = first_stored;
  bounded = only_first;
  aligned = tt;
  integrity = tt;
  unique = tt;
}

-- The live worker prunes between any two of the queries.
one_block_moved :
    (t : ℕ) (d : Database) (inv : IsFinalized 1 3 d)
    → (inv' : IsFinalized 1 3 (pruned (2 + t) d)) × (inv.cp ≤ inv'.cp)
one_block_moved t d inv =
    let (inv', same) =
      IsFinalized-moved (LiveWrites-SameFinalized (LiveWrites.prune_hot (2 + t) d)) inv in
    (inv', omega (arith, same))

indexer_status-latest_example :
    IsStatus 1 3 1
      (indexer_status
        (λ t d. pruned (2 + t) d)
        reliable
        (record { database = one_block; time = 0 })).0
unfolding one_block-IsFinalized
indexer_status-latest_example =
    indexer_status-latest (λ t d. pruned (2 + t) d) 1 3 one_block_moved
      (record { database = one_block; time = 0 }) one_block-IsFinalized (omega arith)
