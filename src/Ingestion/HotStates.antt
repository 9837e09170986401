-- ===== src/Ingestion/HotStates.antt =====
-- What holds of the hot lane before and after `reconcile_hot_history` of
-- crates/ingestion/src/lib.rs, and what a prune and a rollback make of it.
use native.Mathlib.Decide.{dec_lt}
use rust_ethereum_indexer.Prelude.{
  ℕ, suc, ◌+◌, ◌-◌, ◌*◌, ◌≤◌, ◌<◌, max, ◌≡◌, sym, ap, ◌∙◌, ◌⊎◌, inl, inr, Option, none, some, Bytes,
  arith, pos, as_i64, as_i64-eq_pos, i64_limit,
}
use rust_ethereum_indexer.Storage.Tables.{Database, select_hash}
use rust_ethereum_indexer.Storage.Statements.{block_partition_size}
use rust_ethereum_indexer.Storage.Effects.{hot_rolled_back, pruned}
use rust_ethereum_indexer.World.{Services, Header}
use rust_ethereum_indexer.Ingestion.Engine.{
  BackfillEngine, compute_live_start_block, hot_validation_start,
}
use rust_ethereum_indexer.Ingestion.Serving.{IsServing}
use rust_ethereum_indexer.Ingestion.Hot.{IsHot, StoredBelow, hot_rolled_back-IsHot, pruned-IsHot}
use rust_ethereum_indexer.Ingestion.Writes.{FinalizedWrites-AddsNone}
use rust_ethereum_indexer.Ingestion.Live.{Heads, moved, moved_below}
use rust_ethereum_indexer.Ingestion.HotCalls.{
  HotOnBelow, HotOnChain, pruned-AddsNone, hot_rolled_back-AddsNone, hot_rolled_back_below,
}

module _ (sv : Services) (e : BackfillEngine) (top : ℕ) (limits : Heads sv top) (latest : ℕ)
    (chain : ℕ → Header) (serving : IsServing sv e top latest chain) where
  -- In order, and on the chain.
  abbrev pub HotGood : Database → Type 0
  HotGood d = IsHot top d × HotOnChain chain d

  -- In order, on the chain below `b`, and with no block from `s` on.
  abbrev pub HotSeen : ℕ → ℕ → Database → Type 0
  HotSeen s b d = IsHot top d × HotOnBelow chain b d × StoredBelow s d

  pub HotGood-kept : (t : ℕ) (d : Database) → HotGood d → HotGood (sv.others t d)
  HotGood-kept t d (inv, on) = (
    moved sv e top limits t d inv,
    λ n h found. on n h (FinalizedWrites-AddsNone (limits.alone t d) (pos n) h found),
  )

  pub HotSeen-kept : (s b t : ℕ) (d : Database) → HotSeen s b d → HotSeen s b (sv.others t d)
  HotSeen-kept s b t d (inv, on, below) = (
    moved sv e top limits t d inv,
    λ n h lt found. on n h lt (FinalizedWrites-AddsNone (limits.alone t d) (pos n) h found),
    moved_below sv e top limits s t d below,
  )

  pub pruned-HotGood : (n : ℕ) (d : Database) → HotGood d → HotGood (pruned n d)
  pruned-HotGood n d (inv, on) = (
    pruned-IsHot top limits.room n d inv,
    λ m h found. on m h (pruned-AddsNone n d (pos m) h found),
  )

  pub pruned-HotSeen : (s b n : ℕ) (d : Database) → HotSeen s b d → HotSeen s b (pruned n d)
  pruned-HotSeen s b n d (inv, on, below) = (
    pruned-IsHot top limits.room n d inv,
    λ m h lt found. on m h lt (pruned-AddsNone n d (pos m) h found),
    λ z h found. below z h (pruned-AddsNone n d z h found),
  )

  -- What is left below the first block that differs is on the chain.
  pub rolled_back-HotGood :
      (n : ℕ) (d : Database)
      → n ≤ top
      → IsHot top d
      → HotOnBelow chain n d
      → HotGood (hot_rolled_back n d)
  rolled_back-HotGood n d small inv on =
      let room : top + 2 * block_partition_size < i64_limit = limits.room in
      (
        hot_rolled_back-IsHot top limits.room n d inv small,
        λ m h found.
            on m h (hot_rolled_back_below n m h d (omega arith) found)
              (hot_rolled_back-AddsNone n d (pos m) h found),
      )

  pub next_seen :
      (s n : ℕ) (o : Option Bytes) (d : Database)
      → n ≤ top
      → (o ≡ none) ⊎ (o ≡ some (chain n).hash)
      → o ≡ select_hash (as_i64 n) d.hot_indexed_blocks
      → HotSeen s n d
      → HotSeen s (suc n) d
  next_seen s n o d small cases read (inv, on, below) = (
    inv,
    λ m h lt found. elim (dec_lt m n) [
      | yes before ↦ on m h before found
      | no after ↦ here m h (omega arith) found
    ],
    below,
  )
    where
      here :
          (m : ℕ) (h : Bytes)
          → m ≡ n
          → select_hash (pos m) d.hot_indexed_blocks ≡ some h
          → h ≡ (chain m).hash
      here m h same found =
          let room : top + 2 * block_partition_size < i64_limit = limits.room in
          let at : select_hash (pos m) d.hot_indexed_blocks ≡ o =
            ap (λ k. select_hash (pos k) d.hot_indexed_blocks) same
            ∙ sym (
                read
                ∙ ap (λ z. select_hash z d.hot_indexed_blocks) (as_i64-eq_pos n (omega arith))) in
          elim cases [ inl missing ↦ absurd (ground arith) | inr agrees ↦ rw same (ground arith) ]

  -- Every window that is checked starts at this block at most.
  abbrev pub window : ℕ → ℕ
  window start = max (top - (max e.reorg_lookback 1 - 1)) start

  pub window-covers :
      (start n m : ℕ)
      → n ≤ top
      → m ≤ top
      → hot_validation_start e (compute_live_start_block e start n) m ≤ window start
  unfolding hot_validation_start compute_live_start_block
  window-covers start n m small small' = omega arith
