-- ===== src/Examples/Fixtures.antt =====
-- Test data: a chain of five blocks, one transfer, and the worlds that the examples start from.
use rust_ethereum_indexer.Prelude.{
  ◌%◌, ◌==◌, ◌&&◌, leb, if◌then◌else◌, err, rpc, ℕ, zero, suc, ◌+◌, ◌*◌, some, List, [], ◌∷◌, Bytes,
  pos, ok,
}
use rust_ethereum_indexer.Storage.Tables.{Transfer, migrated}
use rust_ethereum_indexer.Storage.Session.{reliable, Answer, done, refused, lost, Host}
use rust_ethereum_indexer.Storage.Effects.{pruned, rolled_back}
use rust_ethereum_indexer.Observability.Metrics
use rust_ethereum_indexer.Decoder.{Log, Erc20TransferEvent}
use rust_ethereum_indexer.Decoder.Roundtrip.{encode}
use rust_ethereum_indexer.World.{Services, World}
use rust_ethereum_indexer.Ingestion.Engine.{BackfillEngine}

abbrev pub alice : Bytes
alice = 1 ∷ 1 ∷ 1 ∷ 1 ∷ 1 ∷ 1 ∷ 1 ∷ 1 ∷ 1 ∷ 1 ∷ 1 ∷ 1 ∷ 1 ∷ 1 ∷ 1 ∷ 1 ∷ 1 ∷ 1 ∷ 1 ∷ 1 ∷ []

abbrev pub bob : Bytes
bob = 2 ∷ 2 ∷ 2 ∷ 2 ∷ 2 ∷ 2 ∷ 2 ∷ 2 ∷ 2 ∷ 2 ∷ 2 ∷ 2 ∷ 2 ∷ 2 ∷ 2 ∷ 2 ∷ 2 ∷ 2 ∷ 2 ∷ 2 ∷ []

abbrev pub payment : Erc20TransferEvent
payment = record { from = alice; to = bob; value = 1000 }

abbrev pub bare_log : Log
bare_log = record {
  topics = [];
  payload = [];
  address = 7 ∷ [];
  block_number = some 2;
  transaction_hash = some (9 ∷ []);
  log_index = some 0;
}

abbrev pub transfer_two : Transfer
transfer_two = record {
  block_number = pos 2;
  block_hash = 2 ∷ [];
  txn_hash = 9 ∷ [];
  log_index = pos 0;
  contract_address = 7 ∷ [];
  from_address = alice;
  to_address = bob;
  value = 1000;
  timestamp = pos 24;
}

abbrev pub blocks_two : List (ℕ × Bytes)
blocks_two = (1, 1 ∷ []) ∷ (2, 2 ∷ []) ∷ []

-- A server that loses the reply to its fifth request, and refuses the seventh.
abbrev pub flaky : ℕ → Answer
flaky (suc (suc (suc (suc (suc zero))))) = lost 8006
flaky (suc (suc (suc (suc (suc (suc (suc zero))))))) = refused 40001
flaky _ = done

abbrev pub empty_host : Host
empty_host = record { database = migrated; time = 0 }

abbrev pub fresh_world : World
fresh_world = record { host = empty_host; metrics = Metrics.new 60 }

-- The chain reports its head as block 5; each block has its own number for a hash. Between the
-- requests the live worker prunes the hot lane.
abbrev pub small_chain : Services
small_chain = record {
  answer = flaky;
  others = λ t d. pruned t d;
  get_block_number = λ t. ok 5;
  get_block_by_number = λ n t. ok (some (record { hash = n ∷ []; timestamp = n * 12 }));
  get_logs = λ filter t. ok (encode bare_log payment ∷ []);
  unix_timestamp_secs = λ t. 100 + t;
  instant = λ t. t;
}

abbrev pub small_engine : BackfillEngine
small_engine = record {
  contract_address = [];
  confirmation_depth = 2;
  reorg_lookback = 3;
  hot_window_size = 3;
  live_start_depth = 3;
  max_retries = 2;
}

-- The same for the live worker: the backfill worker rolls back from block 2 again and again.
abbrev pub live_chain : Services
live_chain = record small_chain { others = λ t d. rolled_back 2 d }

-- PostgreSQL answers, and the provider fails every second request for the head.
abbrev pub serving_chain : Services
serving_chain = record small_chain {
  answer = reliable;
  get_block_number = λ t. if (t % 2) == 0 then err (rpc 1) else ok 5;
  get_logs = λ filter t. ok (
      if leb filter.from_block 2 && leb 2 filter.to_block
      then encode bare_log payment ∷ []
      else []);
}

-- Block 1 is stored under a hash that the chain no longer has.
abbrev pub forked_world : World
forked_world = record {
  host = record {
    database = record migrated {
      indexed_blocks = (pos 1, 9 ∷ []) ∷ [];
      indexer_checkpoint = some (pos 1);
    };
    time = 0;
  };
  metrics = Metrics.new 60;
}

-- The same for the live worker.
abbrev pub serving_live : Services
serving_live = record serving_chain { others = λ t d. rolled_back 2 d }

-- Block 4 is in the hot lane under a hash that the chain no longer has.
abbrev pub split_world : World
split_world = record {
  host = record {
    database = record migrated {
      hot_indexed_blocks = (pos 4, 9 ∷ []) ∷ [];
      live_indexer_checkpoint = some (pos 4);
    };
    time = 0;
  };
  metrics = Metrics.new 60;
}
