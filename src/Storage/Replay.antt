-- ===== src/Storage/Replay.antt =====
-- crates/storage/src/lib.rs: the two commits on a server that answers, and the finalized one once
-- more, as a worker does that did not learn of the first one.
use rust_ethereum_indexer.Prelude.{
  any_of, In, All-map, Bool-cases, bytes_eq→eq, ==ℤ→eq, [], ◌∷◌, ℕ, ◌+◌, ◌*◌, ◌≤◌, ◌<◌, true, false,
  ◌≡◌, refl, ap, sym, ◌∙◌, Option, none, some, Option-cases, inl, inr, List, Bytes, ℤ, length,
  i64_limit, All, arith, Result, ok,
}
use rust_ethereum_indexer.Storage.Tables.{
  Transfer, Database, repeats, insert_missing, has_key, same_key, select_hash, upsert_all,
}
use rust_ethereum_indexer.Storage.Session.{Host, reliable}
use rust_ethereum_indexer.Storage.Statements.{block_partition_size}
use rust_ethereum_indexer.Storage.Calls.{
  CommitStats, commit_stats, finalized_range_tx, commit_finalized_range, hot_range_tx,
  commit_hot_range,
}
use rust_ethereum_indexer.Storage.Outcome.{Ends, Ends-pure, Ends-bind, Ends-transaction}
use rust_ethereum_indexer.Storage.Partitions.{IsAligned}
use rust_ethereum_indexer.Storage.Rows.{
  insert_missing-Holds, insert_missing_present, insert_missing_count, insert_missing-le,
}
use rust_ethereum_indexer.Storage.Blocks.{or_else, select_hash-upsert_all}
use rust_ethereum_indexer.Storage.Inserts.{stored-IsAligned, rows-stored}
use rust_ethereum_indexer.Storage.Ranges.{Within}
use rust_ethereum_indexer.Storage.Effects.{
  bound_blocks, finalized, heated, finalized_range_tx-finalized, hot_range_tx-heated,
}
use mathlib.Core.Path.{subst}

-- INSERT … ON CONFLICT DO NOTHING, twice.
insert_missing_again :
    (rs rows : List Transfer)
    → insert_missing rs (insert_missing rs rows).1 ≡ (0, (insert_missing rs rows).1)
insert_missing_again rs rows =
    insert_missing_present rs (insert_missing rs rows).1 (insert_missing-Holds rs rows)

-- What a commit of `records` and `blocks` reports, of which `inserted` transfers were not there.
pub record Counts (records : List Transfer) (blocks : List (ℕ × Bytes)) (inserted : ℕ)
    (r : Result CommitStats) : Type 0 where
  pub stats : CommitStats
  pub returned : r ≡ ok stats
  pub attempted : stats.attempted_transfers ≡ length records
  pub new : stats.inserted_transfers ≡ inserted
  pub all : inserted + stats.duplicate_transfers ≡ length records
  pub rows : stats.block_rows ≡ length blocks

-- A row with the transaction, the log index and the block of the transfer is among the rows.
abbrev pub Kept : List Transfer → Transfer → Type 0
Kept rows r =
    (q : Transfer) × In q rows
    × (q.txn_hash ≡ r.txn_hash)
    × (q.log_index ≡ r.log_index)
    × (q.block_number ≡ r.block_number)

has_key-Kept : (r : Transfer) (rows : List Transfer) → has_key r rows ≡ true → Kept rows r
unfolding has_key any_of same_key
has_key-Kept r [] e = cc
has_key-Kept r (q ∷ rows) e = elim (Bool-cases (same_key r q)) [
  | inl here ↦ (
    q,
    inl refl,
    sym (bytes_eq→eq r.txn_hash q.txn_hash (ground arith)),
    sym (==ℤ→eq r.log_index q.log_index (ground arith)),
    sym (==ℤ→eq r.block_number q.block_number (ground arith)),
  )
  | inr apart ↦
      let (p, at, hash, index, number) = has_key-Kept r rows (ground arith) in
      (p, inr at, hash, index, number)
]

-- Two commits of the same: the first one adds `inserted` transfers, the second one changes nothing
-- in the finalized lane and reports duplicates only.
pub record IsReplay (records : List Transfer) (blocks : List (ℕ × Bytes)) (before : Database)
    (first second : Result CommitStats × Host) : Type 0 where
  pub inserted : ℕ
  pub first_counts : Counts records blocks inserted first.0
  pub second_counts : Counts records blocks 0 second.0
  pub added :
      length first.1.database.erc20_transfers.rows ≡ inserted + length before.erc20_transfers.rows
  pub holds : All (Kept first.1.database.erc20_transfers.rows) records
  pub same_rows : second.1.database.erc20_transfers.rows ≡ first.1.database.erc20_transfers.rows
  pub same_blocks :
      (z : ℤ)
      → select_hash z second.1.database.indexed_blocks
        ≡ select_hash z first.1.database.indexed_blocks
  pub same_checkpoint : second.1.database.indexer_checkpoint ≡ first.1.database.indexer_checkpoint

stats-Counts :
    (records : List Transfer) (blocks : List (ℕ × Bytes)) (inserted : ℕ) (r : Result CommitStats)
    → inserted ≤ length records
    → r ≡ ok (commit_stats records blocks inserted)
    → Counts records blocks inserted r
stats-Counts records blocks inserted r le e = record {
  stats = commit_stats records blocks inserted;
  returned = e;
  attempted = refl;
  new = refl;
  all = omega arith;
  rows = refl;
}

or_else_twice : {A : Type 0} (o p : Option A) → or_else o (or_else o p) ≡ or_else o p
or_else_twice none p = refl
or_else_twice (some a) p = refl

module _ (lo hi : ℕ) (records : List Transfer) (blocks : List (ℕ × Bytes))
    (room : hi + 2 * block_partition_size < i64_limit) (within : All (Within lo hi) records)
    (distinct : repeats (bound_blocks blocks) ≡ false) (s c : ℕ) where
  pub commit_finalized_range-Ends :
      (h : Host)
      → All IsAligned h.database.erc20_transfers.partitions
      → Ends
          (commit_finalized_range reliable records blocks s c h)
          (commit_stats records blocks (insert_missing records h.database.erc20_transfers.rows).0)
          (finalized records blocks s c h.database)
  unfolding commit_finalized_range
  commit_finalized_range-Ends h al =
      Ends-bind _ _ h _ _ _ _
        (Ends-transaction (finalized_range_tx reliable records blocks s c) h _ _ (λ h' e.
          subst
            (λ d.
              All IsAligned d.erc20_transfers.partitions
              → Ends (finalized_range_tx reliable records blocks s c h')
                  (insert_missing records d.erc20_transfers.rows).0
                  (finalized records blocks s c d))
            e (finalized_range_tx-finalized lo hi records blocks room within distinct h' s c) al))
        (λ h' e. rw (sym e) (Ends-pure _ h'))

  pub commit_hot_range-Ends :
      (h : Host)
      → All IsAligned h.database.hot_erc20_transfers.partitions
      → Ends
          (commit_hot_range reliable records blocks c h)
          (commit_stats records blocks
            (insert_missing records h.database.hot_erc20_transfers.rows).0)
          (heated records blocks c h.database)
  unfolding commit_hot_range
  commit_hot_range-Ends h al =
      Ends-bind _ _ h _ _ _ _
        (Ends-transaction (hot_range_tx reliable records blocks c) h _ _ (λ h' e.
          subst
            (λ d.
              All IsAligned d.hot_erc20_transfers.partitions
              → Ends (hot_range_tx reliable records blocks c h')
                  (insert_missing records d.hot_erc20_transfers.rows).0 (heated records blocks c d))
            e (hot_range_tx-heated lo hi records blocks room within distinct h' c) al))
        (λ h' e. rw (sym e) (Ends-pure _ h'))

  finalized-IsAligned :
      (db : Database)
      → All IsAligned db.erc20_transfers.partitions
      → All IsAligned (finalized records blocks s c db).erc20_transfers.partitions
  unfolding finalized
  finalized-IsAligned db al = stored-IsAligned lo hi records db.erc20_transfers room within al

  rows_after :
      (db : Database)
      → (finalized records blocks s c db).erc20_transfers.rows
        ≡ (insert_missing records db.erc20_transfers.rows).1
  unfolding finalized
  rows_after db = rows-stored records db.erc20_transfers

  -- The blocks are those of the first commit, whatever was there.
  blocks_again :
      (db : Database) (z : ℤ)
      → select_hash z
          (finalized records blocks s c (finalized records blocks s c db)).indexed_blocks
        ≡ select_hash z (finalized records blocks s c db).indexed_blocks
  unfolding finalized
  blocks_again db z =
      let new = bound_blocks blocks in
      select_hash-upsert_all z (upsert_all db.indexed_blocks new) new distinct
      ∙ ap (or_else (select_hash z new)) (select_hash-upsert_all z db.indexed_blocks new distinct)
      ∙ or_else_twice (select_hash z new) (select_hash z db.indexed_blocks)
      ∙ sym (select_hash-upsert_all z db.indexed_blocks new distinct)

  checkpoint_again :
      (db : Database)
      → (finalized records blocks s c (finalized records blocks s c db)).indexer_checkpoint
        ≡ (finalized records blocks s c db).indexer_checkpoint
  unfolding finalized
  checkpoint_again db = elim (Option-cases db.indexer_checkpoint) [
    | inl missing ↦ rw missing refl
    | inr (z, found) ↦ rw found refl
  ]

  -- For distinct blocks, transfers between `lo` and `hi`, room in an `i64`, and aligned partitions,
  -- on a server that answers: a range of blocks that is committed twice is stored once. Both
  -- commits succeed and report as many transfers and blocks as they were given; the first one
  -- reports as inserted the number of the transfers by which the table grows and all others as
  -- duplicates, and afterwards every transfer is in the table; the second one reports none as
  -- inserted and all as duplicates, and leaves the transfers, the hash of each block, and the
  -- checkpoint of the finalized lane as they were.
  pub commit_finalized_range-IsReplay :
      (h : Host)
      → All IsAligned h.database.erc20_transfers.partitions
      → IsReplay records blocks h.database (commit_finalized_range reliable records blocks s c h) (
          commit_finalized_range reliable records blocks s c
            (commit_finalized_range reliable records blocks s c h).1)
  commit_finalized_range-IsReplay h al = record {
    inserted = (insert_missing records h.database.erc20_transfers.rows).0;
    first_counts =
        stats-Counts records blocks _ _ (insert_missing-le records h.database.erc20_transfers.rows)
          once.result;
    second_counts = stats-Counts records blocks 0 _ (omega arith) again_result;
    added = rw table_once (insert_missing_count records h.database.erc20_transfers.rows);
    holds = rw table_once (
        All-map _ _ records (λ r e. has_key-Kept r _ e)
          (insert_missing-Holds records h.database.erc20_transfers.rows));
    same_rows =
        ap (λ (d : Database). d.erc20_transfers.rows) twice.database
        ∙ rows_after h₁.database
        ∙ ap (λ (p : ℕ × List Transfer). p.1) nothing
        ∙ sym table_once;
    same_blocks = λ z.
        ap (λ (d : Database). select_hash z d.indexed_blocks) both
        ∙ blocks_again h.database z
        ∙ sym (ap (λ (d : Database). select_hash z d.indexed_blocks) once.database);
    same_checkpoint =
        ap (λ (d : Database). d.indexer_checkpoint) both
        ∙ checkpoint_again h.database
        ∙ sym (ap (λ (d : Database). d.indexer_checkpoint) once.database);
  }
    where
      once :
          Ends
            (commit_finalized_range reliable records blocks s c h)
            (commit_stats records blocks (insert_missing records h.database.erc20_transfers.rows).0)
            (finalized records blocks s c h.database)
      once = commit_finalized_range-Ends h al

      h₁ : Host
      h₁ = (commit_finalized_range reliable records blocks s c h).1

      twice :
          Ends
            (commit_finalized_range reliable records blocks s c h₁)
            (commit_stats records blocks
              (insert_missing records h₁.database.erc20_transfers.rows).0)
            (finalized records blocks s c h₁.database)
      twice = commit_finalized_range-Ends h₁ (
          subst (λ d. All IsAligned d.erc20_transfers.partitions) (sym once.database)
            (finalized-IsAligned h.database al))

      table_once :
          h₁.database.erc20_transfers.rows
          ≡ (insert_missing records h.database.erc20_transfers.rows).1
      table_once =
          ap (λ (d : Database). d.erc20_transfers.rows) once.database ∙ rows_after h.database

      nothing :
          insert_missing records h₁.database.erc20_transfers.rows
          ≡ (0, (insert_missing records h.database.erc20_transfers.rows).1)
      nothing =
          ap (insert_missing records) table_once
          ∙ insert_missing_again records h.database.erc20_transfers.rows

      again_result :
          (commit_finalized_range reliable records blocks s c h₁).0
          ≡ ok (commit_stats records blocks 0)
      again_result =
          twice.result
          ∙ ap (λ (p : ℕ × List Transfer). ok (commit_stats records blocks p.0)) nothing

      both :
          (commit_finalized_range reliable records blocks s c h₁).1.database
          ≡ finalized records blocks s c (finalized records blocks s c h.database)
      both = twice.database ∙ ap (finalized records blocks s c) once.database
