-- ===== src/Ingestion/HotBatch.antt =====
-- `process_hot_range` of crates/ingestion/src/lib.rs keeps the hot lane in order, whatever the
-- provider reports and whichever requests fail.
use rust_ethereum_indexer.Prelude.{
  Option-cases, inl, inr, ℕ, suc, ◌+◌, ◌-◌, ◌*◌, ◌≤◌, ◌<◌, ◌≡◌, refl, sym, ◌∙◌, none, List, [], ◌∷◌,
  arith, length, pos, as_i64, as_i64-eq_pos, i64_limit,
}
use rust_ethereum_indexer.Storage.Tables.{Database, select_hash}
use rust_ethereum_indexer.Storage.Statements.{block_partition_size}
use rust_ethereum_indexer.Storage.Calls.{get_hot_block_hash, commit_hot_range}
use rust_ethereum_indexer.Storage.Atomic.{commit_hot_range-Settles}
use rust_ethereum_indexer.Storage.Effects.{heated}
use rust_ethereum_indexer.World.{Services, on_host, read_clock}
use rust_ethereum_indexer.Rpc.Client.{BlockMetadata}
use rust_ethereum_indexer.Ingestion.Payload.{indexed_blocks_of}
use rust_ethereum_indexer.Ingestion.Engine.{BackfillEngine, RangeBuild, first_conflict}
use rust_ethereum_indexer.Ingestion.Steps.{commit_hot, process_hot_range, build_range_payload}
use rust_ethereum_indexer.Ingestion.Keeps.{
  Steady, Triple, Triple-pure, Triple-bind, Triple-fact, Triple-weaken, Triple-given, Triple-clock,
  Triple-settles,
}
use rust_ethereum_indexer.Ingestion.Gather.{Numbered, repeats-Numbered}
use rust_ethereum_indexer.Ingestion.Fetch.{Builds, build_range_payload-Triple}
use rust_ethereum_indexer.Ingestion.Reports.{Fetched-Numbered, report_success-Triple}
use rust_ethereum_indexer.Ingestion.Hot.{IsHot, StoredBelow, heated-IsHot, hot-Within}
use rust_ethereum_indexer.Ingestion.Live.{
  Heads, HotCarries, HotHeld, moved, moved_below, get_hot_block_hash-Triple,
}

module _ (sv : Services) (e : BackfillEngine) (top : ℕ) (limits : Heads sv top) where
  abbrev HotInv' : Database → Type 0
  HotInv' = IsHot top

  -- The invariant, and the first block of the next range.
  abbrev pub HotNext : ℕ → Database → Type 0
  HotNext s d = HotInv' d × StoredBelow s d

  HotNext-Inv : (s : ℕ) (d : Database) → HotNext s d → HotInv' d
  HotNext-Inv s d h = h.0

  pub HotNext-Steady : (s : ℕ) → Steady sv.others (HotNext s) HotInv'
  HotNext-Steady s = record {
    safe = HotNext-Inv s;
    kept = λ t d (inv, below).
        (moved sv e top limits t d inv, moved_below sv e top limits s t d below);
  }

  -- No block beyond the checkpoint is stored.
  unstored :
      (s n : ℕ) (d : Database)
      → HotNext s d
      → s ≤ n
      → n < i64_limit
      → select_hash (as_i64 n) d.hot_indexed_blocks ≡ none
  unstored s n d (inv, at) lo hi =
      elim (Option-cases (select_hash (as_i64 n) d.hot_indexed_blocks)) [
        | inl e ↦ e
        | inr (h, found) ↦
            let (m, here, top_m) = at (as_i64 n) h found in
            absurd (apart m (sym (as_i64-eq_pos n hi) ∙ here) (omega arith))
      ]
    where
      apart : (m : ℕ) → pos n ≡ pos m → m < n → ⊥
      apart m e lt = ground arith

  module _ (s c latest t₀ : ℕ) (s_le_c : s ≤ c) (c_le_top : c ≤ top) (build : RangeBuild)
      (built : Builds sv e s c build.payload) where
    abbrev blocks : List BlockMetadata
    blocks = build.payload.block_metadata

    pub numbered : Numbered s blocks × (length blocks ≡ suc c - s)
    numbered = Fetched-Numbered sv (suc c - s) s blocks built.fetched

    pub committed :
        (d : Database)
        → HotNext s d
        → HotInv' (heated build.payload.transfer_records build.payload.indexed_blocks c d)
    committed d (inv, next) =
        let room : top + 2 * block_partition_size < i64_limit = limits.room in
        rw built.indexed (
          heated-IsHot top room s c blocks build.payload.transfer_records d inv next s_le_c c_le_top
            numbered.0 (omega (arith, numbered.1)) built.records)

  module _ {G : Database → Type 0} (carries : HotCarries sv e top G) where
    abbrev HeldG : Database → Type 0
    HeldG = HotHeld sv e top limits carries

    -- The same with the condition that goes along.
    abbrev pub HotHeldNext : ℕ → Database → Type 0
    HotHeldNext s d = HotNext s d × G d

    HotHeldNext-Held : (s : ℕ) (d : Database) → HotHeldNext s d → HeldG d
    HotHeldNext-Held s d h = (h.0.0, h.1)

    HotHeldNext-Steady : (s : ℕ) → Steady sv.others (HotHeldNext s) HeldG
    HotHeldNext-Steady s = record {
      safe = HotHeldNext-Held s;
      kept = λ t d (next, g). ((HotNext-Steady s).kept t d next, carries.kept t d next.0 g);
    }

    hot_conflict-Triple :
        (s start' : ℕ) (bs : List BlockMetadata)
        → s ≤ start'
        → start' + length bs ≤ i64_limit
        → Numbered start' bs
        → Triple
            (HotHeldNext s)
            (first_conflict
              (λ n. on_host sv.others (get_hot_block_hash sv.answer n))
              (indexed_blocks_of bs))
            (λ o d. (o ≡ none) × HotHeldNext s d)
            HeldG
    unfolding first_conflict
    hot_conflict-Triple s start' [] lo fits num =
        Triple-weaken _ (λ d h. (refl, h)) (λ o d h. h) (Triple-pure none)
    hot_conflict-Triple s start' (b ∷ bs) lo fits num =
        let rest = hot_conflict-Triple s (suc start') bs (omega arith) (omega arith) num.1 in
        Triple-bind (on_host sv.others (get_hot_block_hash sv.answer b.number)) _ _
          (get_hot_block_hash-Triple sv e top limits (HotHeldNext-Steady s) b.number)
          λ o. Triple-given _ λ d (read, held).
            let missing : o ≡ none =
              read ∙ unstored s b.number d held.0 (omega (arith, num.0)) (omega (arith, num.0)) in
            rw missing (Triple-weaken _ (λ d' same. rw same held) (λ o d h. h) rest)

    module _ (s c latest t₀ : ℕ) (s_le_c : s ≤ c) (c_le_top : c ≤ top) (build : RangeBuild)
        (built : Builds sv e s c build.payload) where
      nums :
          Numbered s build.payload.block_metadata
          × (length build.payload.block_metadata ≡ suc c - s)
      nums = numbered s c latest t₀ s_le_c c_le_top build built

      after :
          (d : Database)
          → HotHeldNext s d
          → HeldG (heated build.payload.transfer_records build.payload.indexed_blocks c d)
      after d ((inv, below), g) = (
        committed s c latest t₀ s_le_c c_le_top build built d (inv, below),
        carries.grown s c build.payload built d inv below s_le_c c_le_top g,
      )

      commit_hot-Triple :
          Triple (HotHeldNext s) (commit_hot sv e s c latest t₀ build none) (λ _. HeldG) HeldG
      unfolding commit_hot
      commit_hot-Triple =
          let room : top + 2 * block_partition_size < i64_limit = limits.room in
          Triple-bind (read_clock sv.instant) _ (λ _. HotHeldNext s) (Triple-clock _)
            λ t₁.
              Triple-bind
                (on_host sv.others (
                  commit_hot_range sv.answer build.payload.transfer_records
                    build.payload.indexed_blocks c))
                _ (λ _. HeldG)
                (Triple-settles sv.others (HotHeldNext-Steady s) _ _ _
                  (λ h held.
                    commit_hot_range-Settles sv.answer s c build.payload.transfer_records
                      build.payload.indexed_blocks (omega arith)
                      (hot-Within top room s c build.payload.block_metadata
                        build.payload.transfer_records h.database held.0.0 held.0.1 s_le_c c_le_top
                        nums.0 (omega (arith, nums.1)) built.records)
                      (rw built.indexed (
                        repeats-Numbered s build.payload.block_metadata nums.0
                          (omega (arith, nums.1))))
                      h c held.0.0.aligned)
                  after after)
                λ stats. report_success-Triple sv e "hot" s c latest build stats t₀ t₁

      pub validate-Triple :
          Triple
            (HotHeldNext s)
            (first_conflict
              (λ n. on_host sv.others (get_hot_block_hash sv.answer n))
              build.payload.indexed_blocks)
            (λ o d. (o ≡ none) × HotHeldNext s d)
            HeldG
      validate-Triple =
          let room : top + 2 * block_partition_size < i64_limit = limits.room in
          rw built.indexed (
            hot_conflict-Triple s s build.payload.block_metadata (omega arith)
              (omega (arith, nums.1)) nums.0)

    pub process_hot_range-Triple :
        (s c latest : ℕ)
        → s ≤ c
        → c ≤ top
        → Triple (HotHeldNext s) (process_hot_range sv e s c latest) (λ _. HeldG) HeldG
    unfolding process_hot_range
    process_hot_range-Triple s c latest le below =
        Triple-bind (read_clock sv.instant) _ (λ _. HotHeldNext s) (Triple-clock _)
          λ t₀.
            Triple-bind (build_range_payload sv e s c) _ _
              (build_range_payload-Triple (HotHeldNext-Held s) sv e s c)
              λ build. Triple-fact _ λ built.
                Triple-bind _ _ _ (validate-Triple s c latest t₀ le below build built) λ o.
                  Triple-fact _
                    λ clean. rw clean (commit_hot-Triple s c latest t₀ le below build built)
