-- ===== src/Ingestion/Faithful.antt =====
-- The rows of a block and its logs, as the workers of crates/ingestion/src/lib.rs meet them while
-- the provider reports one chain.
use mathlib.Core.Path.{subst}
use rust_ethereum_indexer.Prelude.{
  ℕ, ℤ, Bool, not, keep_if, zero, suc, ◌+◌, ◌^◌, ◌≤◌, ◌<◌, true, ◌≡◌, refl, sym, ap, ◌∙◌, some,
  List, [], ◌∷◌, arith, pos, ==ℤ→eq, In-keep_if, keep_if-In,
}
use rust_ethereum_indexer.Storage.Tables.{Transfer, BlockRow, delete_blocks, same_key}
use rust_ethereum_indexer.Decoder.{Log}
use rust_ethereum_indexer.World.{Services, Header}
use rust_ethereum_indexer.Rpc.Client.{BlockMetadata, metadata_of}
use rust_ethereum_indexer.Ingestion.Payload.{as_i32}
use rust_ethereum_indexer.Ingestion.Engine.{BackfillEngine, numbers_from}
use rust_ethereum_indexer.Ingestion.Fetch.{Fetched}
use rust_ethereum_indexer.Ingestion.Serving.{chain_blocks}
use rust_ethereum_indexer.Ingestion.Hot.{kept_by}
use rust_ethereum_indexer.Ingestion.ChainLogs.{IsRowOf, IsTransferAt, Reports, IsFaithful}

-- A log has one row.
pub row_unique :
    (header : Header) (n : ℕ) (log : Log) (r q : Transfer)
    → IsRowOf header n log r
    → IsRowOf header n log q
    → r ≡ q
row_unique header n log r q a b =
    let hashes : a.txn_hash ≡ b.txn_hash = ground (arith, a.transaction_hash, b.transaction_hash) in
    let indices : a.index ≡ b.index = ground (arith, a.log_index, b.log_index) in
    let events : a.event ≡ b.event = ground (arith, a.decoded, b.decoded) in
    ground (arith, a.row, b.row)

as_i32_one : (i j : ℕ) → i < 2 ^ 31 → j < 2 ^ 31 → as_i32 i ≡ as_i32 j → i ≡ j
unfolding as_i32
as_i32_one i j lo hi e = ground arith

-- Deleting by one test from both tables of a lane.
pub deleted-IsFaithful :
    (chain : ℕ → Header) (logs_of : ℕ → List Log) (test : ℤ → Bool) (blocks : List BlockRow)
    (rows : List Transfer)
    → IsFaithful chain logs_of blocks rows
    → IsFaithful chain logs_of
        (delete_blocks test blocks)
        (keep_if (λ r. not (test r.block_number)) rows)
deleted-IsFaithful chain logs_of test blocks rows f n found r =
    let (old, kept) = kept_by test blocks (pos n) (chain n).hash found in
    (
      λ at here. (f n old r).0 (In-keep_if _ rows r at) here,
      λ (log, at, is_row).
          keep_if-In _ rows r ((f n old r).1 (log, at, is_row))
            (rw (ap (λ (r : Transfer). r.block_number) is_row.row, kept) refl),
    )

module _ (sv : Services) (e : BackfillEngine) (top : ℕ) (chain : ℕ → Header)
    (logs_of : ℕ → List Log) (reports : Reports sv e top chain logs_of) where
  -- The blocks that were fetched are those of the chain.
  pub of_chain :
      (k s : ℕ) (bs : List BlockMetadata)
      → s + k ≤ suc top
      → Fetched sv (numbers_from s k) bs
      → bs ≡ chain_blocks chain s k
  unfolding numbers_from
  of_chain zero s [] small f = refl
  of_chain zero s (b ∷ bs) small f = absurd f
  of_chain (suc k) s [] small f = absurd f
  of_chain (suc k) s (b ∷ bs) small (at, (header, (t, replied), hash, time), rest) =
      let known : header ≡ chain s =
        reports.blocks t s header (omega arith)
          (ap (λ (n : ℕ). sv.get_block_by_number n t) (sym at) ∙ replied) in
      let first : b ≡ metadata_of s (chain s) = ground arith in
      let others : bs ≡ chain_blocks chain (suc s) k = of_chain k (suc s) bs (omega arith) rest in
      ground arith

  -- One key, one row.
  pub same_row :
      (n : ℕ) (r q : Transfer)
      → IsTransferAt chain logs_of n r
      → IsTransferAt chain logs_of n q
      → same_key r q ≡ true
      → r ≡ q
  unfolding same_key
  same_row n r q (a, at_a, row_a) (b, at_b, row_b) key =
      let indices : r.log_index ≡ q.log_index = ==ℤ→eq r.log_index q.log_index (ground arith) in
      let same : as_i32 row_a.index ≡ as_i32 row_b.index =
        sym (ap (λ (r : Transfer). r.log_index) row_a.row)
        ∙ indices
        ∙ ap (λ (r : Transfer). r.log_index) row_b.row in
      let index : row_a.index ≡ row_b.index =
        as_i32_one row_a.index row_b.index (reports.small n row_a.index a at_a row_a.log_index)
          (reports.small n row_b.index b at_b row_b.log_index) same in
      let logs : b ≡ a =
        reports.distinct n row_a.index b a at_b at_a (row_b.log_index ∙ ap some (sym index))
          row_a.log_index in
      row_unique (chain n) n a r q row_a (subst (λ l. IsRowOf (chain n) n l q) logs row_b)
