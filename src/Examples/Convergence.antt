-- ===== src/Examples/Convergence.antt =====
-- `run_backfill` from a block that was reorganised, on a provider that fails now and then.
use rust_ethereum_indexer.Prelude.{
  ℕ, zero, suc, ◌*◌, ◌%◌, ◌==◌, ◌≡◌, refl, inl, inr, Bool-cases, ◌&&◌, leb, some, List, [], ◌∷◌,
  All, arith, ok,
}
use rust_ethereum_indexer.Storage.Tables.{select_hash}
use rust_ethereum_indexer.Decoder.{Log}
use rust_ethereum_indexer.Decoder.Roundtrip.{encode}
use rust_ethereum_indexer.World.{Header, Filter}
use rust_ethereum_indexer.Rpc.Success.{Responds, Success, with_retry-Success}
use rust_ethereum_indexer.Rpc.Client.{with_retry}
use rust_ethereum_indexer.Ingestion.Engine.{finalized_validation_start}
use rust_ethereum_indexer.Ingestion.Workers.{run_backfill}
use rust_ethereum_indexer.Ingestion.Finalized.{IsFinalized}
use rust_ethereum_indexer.Ingestion.Backfill.{Confirms}
use rust_ethereum_indexer.Ingestion.Serving.{Wanted, IsServing}
use rust_ethereum_indexer.Ingestion.OnChain.{OnBelow}
use rust_ethereum_indexer.Ingestion.Convergence.{Synced, run_backfill-Synced}
use rust_ethereum_indexer.Ingestion.Writes.{LiveWrites}
use rust_ethereum_indexer.Examples.Fixtures.{
  serving_chain, small_engine, forked_world, bare_log, payment,
}

abbrev pub small_headers : ℕ → Header
small_headers n = record { hash = n ∷ []; timestamp = n * 12 }

pub heads_respond : Responds 2 serving_chain.get_block_number
heads_respond t = elim (Bool-cases ((t % 2) == 0)) [
  | inl even ↦ (1, 5, omega arith, ground arith)
  | inr odd ↦ (0, 5, omega arith, ground arith)
]

with_retry-Success_example :
    Success serving_chain.get_block_number forked_world
      (with_retry 2 serving_chain.get_block_number forked_world)
with_retry-Success_example =
    with_retry-Success serving_chain.get_block_number 2 forked_world heads_respond

pub logs-Wanted :
    (f : Filter) (t : ℕ) (ls : List Log) → serving_chain.get_logs f t ≡ ok ls → All (Wanted f) ls
unfolding encode
logs-Wanted f t ls e = elim (Bool-cases (leb f.from_block 2 && leb 2 f.to_block)) [
  | inl inside ↦
      let one : ls ≡ encode bare_log payment ∷ [] = ground arith in
      rw one (
        record {
          number = 2;
          block_number = refl;
          not_before = ground arith;
          not_after = ground arith;
          txn_hash = 9 ∷ [];
          transaction_hash = refl;
          index = 0;
          log_index = refl;
        },
        tt,
      )
  | inr outside ↦ let empty : ls ≡ [] = ground arith in rw empty tt
]

pub serving_chain-IsServing : IsServing serving_chain small_engine 3 5 small_headers
serving_chain-IsServing = record {
  answers = refl;
  heads = heads_respond;
  reached = λ t n e. ground arith;
  blocks = λ n le t. (0, some (small_headers n), omega arith, refl);
  on_chain = λ t n o le e. ground arith;
  logs = λ f t. (0, _, omega arith, refl);
  wanted = logs-Wanted;
}

pub serving_chain-Confirms : Confirms serving_chain small_engine 3
serving_chain-Confirms = record {
  confirmed = λ t n e. ground arith;
  room = omega arith;
  alone = λ t d. LiveWrites.prune_hot t d;
}

pub forked_world-IsFinalized : IsFinalized 1 3 forked_world.host.database
unfolding select_hash
forked_world-IsFinalized = record {
  cp = 1;
  checkpoint = refl;
  below = omega arith;
  stored_all = λ n lo hi. (9 ∷ [], ground arith);
  bounded = λ z h e. (1, ground arith, omega arith, omega arith);
  aligned = tt;
  integrity = tt;
  unique = tt;
}

pub forked_world-OnBelow : OnBelow small_headers 1 forked_world.host.database
unfolding select_hash
forked_world-OnBelow zero h lt found = absurd (ground arith)
forked_world-OnBelow (suc n) h lt found = absurd (omega arith)

run_backfill-Synced_example :
    Synced small_headers 1 3 3 (run_backfill serving_chain small_engine 4 1 forked_world)
unfolding finalized_validation_start
run_backfill-Synced_example =
    run_backfill-Synced serving_chain small_engine 1 3 (omega arith) serving_chain-Confirms 5
      small_headers serving_chain-IsServing 4 1 forked_world forked_world-IsFinalized refl
      forked_world-OnBelow (omega arith) (omega arith)
