-- ===== src/Api/Status.antt =====
-- crates/api/src/schema.rs: `indexer_status`, lines 165 to 210. A BIGINT count is a natural number.
use rust_ethereum_indexer.Prelude.{
  ℕ, Option, none, some, List, [], ◌∷◌, ℤ, leb_ℤ, length, if◌then◌else◌, Exec, pure, ◌>>=◌,
}
use rust_ethereum_indexer.Storage.Tables.{BlockRow, Database}
use rust_ethereum_indexer.Storage.Session.{Statement, Answer, Host, execute}
use rust_ethereum_indexer.Storage.Statements.{reads, one_row}

pub record IndexerStatus : Type 0 where
  pub last_processed_block : ℤ
  pub latest_finalized_block : Option ℤ
  pub latest_hot_block : Option ℤ
  pub latest_available_block : Option ℤ
  pub finalized_block_count : ℕ
  pub hot_block_count : ℕ

-- `Option::max`: `None` is the least.
unfoldable pub max_option : Option ℤ → Option ℤ → Option ℤ
max_option none b = b
max_option (some a) none = some a
max_option (some a) (some b) = if leb_ℤ a b then some b else some a

-- SELECT MAX(block_number)
unfoldable pub max_number : List BlockRow → Option ℤ
unfolding max_option
max_number [] = none
max_number ((z, hash) ∷ rows) = max_option (some z) (max_number rows)

-- A query on the pool, after what the other clients of the server have committed since the last
-- one.
unfoldable pub query :
    {A : Type 0} → (ℕ → Database → Database) → (ℕ → Answer) → Statement A → Exec Host A
query others answer st h = execute answer st (record h { database = others h.time h.database })

-- What follows the query for the last processed block.
unfoldable pub status_after : (ℕ → Database → Database) → (ℕ → Answer) → ℤ → Exec Host IndexerStatus
unfolding max_number query
status_after others answer last_processed_block = do
  latest_finalized_block ← query others answer (reads (λ db. max_number db.indexed_blocks))
  latest_hot_block ← query others answer (reads (λ db. max_number db.hot_indexed_blocks))
  finalized_block_count ← query others answer (reads (λ db. length db.indexed_blocks))
  hot_block_count ← query others answer (reads (λ db. length db.hot_indexed_blocks))
  pure (record {
    last_processed_block = last_processed_block;
    latest_finalized_block = latest_finalized_block;
    latest_hot_block = latest_hot_block;
    latest_available_block = max_option latest_finalized_block latest_hot_block;
    finalized_block_count = finalized_block_count;
    hot_block_count = hot_block_count;
  })

unfoldable pub indexer_status : (ℕ → Database → Database) → (ℕ → Answer) → Exec Host IndexerStatus
unfolding query status_after
indexer_status others answer = do
  last_processed_block ← query others answer (λ db. one_row db.indexer_checkpoint db)
  status_after others answer last_processed_block
