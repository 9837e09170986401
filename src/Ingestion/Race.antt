-- ===== src/Ingestion/Race.antt =====
-- A rollback of `run_backfill` between the reading of the live checkpoint and the commit of
-- `run_live` (crates/ingestion/src/lib.rs, lines 124 and 247): the two calls of
-- crates/storage/src/lib.rs in that order.
use mathlib.Core.Path.{subst}
use rust_ethereum_indexer.Prelude.{
  ℕ, ◌+◌, ◌*◌, ◌≤◌, ◌<◌, ◌≡◌, refl, sym, ap, ◌∙◌, none, some, List, All, length, arith, pos, leb_ℤ,
  as_i64, as_i64-eq_pos, i64_limit, Option-cases, inl, inr,
}
use rust_ethereum_indexer.Storage.Tables.{Transfer, Database, select_hash}
use rust_ethereum_indexer.Storage.Session.{Host, reliable}
use rust_ethereum_indexer.Storage.Statements.{block_partition_size}
use rust_ethereum_indexer.Storage.Calls.{rollback_tx, rollback_from_block, commit_hot_range}
use rust_ethereum_indexer.Storage.Partitions.{IsAligned}
use rust_ethereum_indexer.Storage.Blocks.{select_hash-upsert_all}
use rust_ethereum_indexer.Storage.Outcome.{Ends, Ends-transaction}
use rust_ethereum_indexer.Storage.Effects.{
  bound_blocks, heated, rolled_back, rollback_tx-rolled_back,
}
use rust_ethereum_indexer.Storage.Replay.{commit_hot_range-Ends}
use rust_ethereum_indexer.Rpc.Client.{BlockMetadata}
use rust_ethereum_indexer.Ingestion.Payload.{indexed_blocks_of}
use rust_ethereum_indexer.Ingestion.Gather.{
  FromBlocks, Numbered, select_hash-within, repeats-Numbered,
}
use rust_ethereum_indexer.Ingestion.Hot.{IsHot, StoredBelow, kept_by, hot-Within}
use rust_ethereum_indexer.Ingestion.Writes.{
  FinalizedWrites, FinalizedWrites-IsHot, FinalizedWrites-AddsNone,
}

-- The live checkpoint is `c`, but no block from `n` to before `s` is in the hot lane.
pub record HasHole (n s c : ℕ) (d : Database) : Type 0 where
  pub checkpoint : d.live_indexer_checkpoint ≡ some (pos c)
  pub missing : (m : ℕ) → n ≤ m → m < s → select_hash (pos m) d.hot_indexed_blocks ≡ none

module _ (top n s c : ℕ) (room : top + 2 * block_partition_size < i64_limit)
    (bs : List BlockMetadata) (rs : List Transfer) (d : Database) (inv : IsHot top d)
    (reached : n ≤ inv.cp) (next : inv.cp < s) (s_le_c : s ≤ c) (c_le_top : c ≤ top)
    (numbered : Numbered s bs) (counted : s + length bs ≡ c + 1)
    (from_blocks : All (FromBlocks bs) rs) where
  abbrev d₁ : Database
  d₁ = rolled_back n d

  small : n ≤ top
  small = omega (arith, reached, inv.below)

  inv₁ : IsHot top d₁
  inv₁ = FinalizedWrites-IsHot room (FinalizedWrites.rollback n d small) inv

  below₁ : StoredBelow s d₁
  below₁ z h found =
      let old = FinalizedWrites-AddsNone (FinalizedWrites.rollback n d small) z h found in
      let (m, at, hi) = inv.bounded z h old in (m, at, omega arith)

  fits : s + length bs ≤ i64_limit
  fits = omega arith

  commit-Ends :
      (h : Host)
      → h.database ≡ d₁
      → (commit_hot_range reliable rs (indexed_blocks_of bs) c h).1.database
        ≡ heated rs (indexed_blocks_of bs) c d₁
  commit-Ends h at =
      (commit_hot_range-Ends s c rs (indexed_blocks_of bs) (omega arith)
        (hot-Within top room s c bs rs d₁ inv₁ below₁ s_le_c c_le_top numbered counted from_blocks)
        (repeats-Numbered s bs numbered fits) s c h
        (subst (λ d. All IsAligned d.hot_erc20_transfers.partitions) (sym at)
          inv₁.aligned)).database
      ∙ ap (heated rs (indexed_blocks_of bs) c) at

  rollback-Ends : (h : Host) → h.database ≡ d → (rollback_from_block reliable n h).1.database ≡ d₁
  unfolding rollback_from_block
  rollback-Ends h at =
      (Ends-transaction (rollback_tx reliable n) h tt _ (λ h' e.
        subst (λ d. Ends (rollback_tx reliable n h') tt (rolled_back n d)) e
          (rollback_tx-rolled_back n h'))).database
      ∙ ap (rolled_back n) at

  absent : (m : ℕ) → n ≤ m → m < s → select_hash (pos m) d₁.hot_indexed_blocks ≡ none
  unfolding rolled_back
  absent m lo hi = elim (Option-cases (select_hash (pos m) d₁.hot_indexed_blocks)) [
    | inl missing ↦ missing
    | inr (h, found) ↦
        let early = (kept_by (leb_ℤ (as_i64 n)) d.hot_indexed_blocks (pos m) h found).1 in
        absurd (ground (arith, early, as_i64-eq_pos n (omega arith)))
  ]

  unsaved : (m : ℕ) → m < s → select_hash (pos m) (bound_blocks (indexed_blocks_of bs)) ≡ none
  unsaved m hi = elim (Option-cases (select_hash (pos m) (bound_blocks (indexed_blocks_of bs)))) [
    | inl missing ↦ missing
    | inr (h, found) ↦
        let (k, at, lo, below) = select_hash-within s bs (pos m) h numbered fits found in
        absurd (ground (arith, at, lo, hi))
  ]

  heated-HasHole : HasHole n s c (heated rs (indexed_blocks_of bs) c d₁)
  unfolding heated
  heated-HasHole = record {
    checkpoint = rw (inv₁.checkpoint, as_i64-eq_pos c (omega arith)) refl;
    missing = λ m lo hi.
        select_hash-upsert_all (pos m) d₁.hot_indexed_blocks (bound_blocks (indexed_blocks_of bs))
          (repeats-Numbered s bs numbered fits)
        ∙ rw (unsaved m hi) (absent m lo hi);
  }

  -- Whichever state the two calls start in, after them the blocks from `n` to before `s` are
  -- missing.
  pub late_commit-HasHole :
      (h : Host)
      → h.database ≡ d
      → HasHole n s c
          (commit_hot_range reliable rs
            (indexed_blocks_of bs)
            c
            (rollback_from_block reliable n h).1).1.database
  late_commit-HasHole h at =
      subst (HasHole n s c)
        (sym (commit-Ends (rollback_from_block reliable n h).1 (rollback-Ends h at))) heated-HasHole
