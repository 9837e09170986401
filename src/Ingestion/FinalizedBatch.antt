-- ===== src/Ingestion/FinalizedBatch.antt =====
-- `process_finalized_range` of crates/ingestion/src/lib.rs keeps the finalized lane in order,
-- whatever the provider reports and whichever requests fail.
use rust_ethereum_indexer.Prelude.{
  Option-cases, inl, inr, ℕ, suc, ◌+◌, ◌-◌, ◌*◌, ◌≤◌, ◌<◌, max, ◌≡◌, refl, sym, ap, ◌∙◌, none, List,
  [], ◌∷◌, arith, length, pos, as_i64, as_i64-eq_pos, i64_limit,
}
use rust_ethereum_indexer.Storage.Tables.{Database, select_hash}
use rust_ethereum_indexer.Storage.Statements.{block_partition_size}
use rust_ethereum_indexer.Storage.Calls.{get_block_hash, commit_finalized_range}
use rust_ethereum_indexer.Storage.Atomic.{commit_finalized_range-Settles}
use rust_ethereum_indexer.Storage.Effects.{finalized}
use rust_ethereum_indexer.World.{Services, on_host, read_clock}
use rust_ethereum_indexer.Rpc.Client.{BlockMetadata}
use rust_ethereum_indexer.Ingestion.Payload.{indexed_blocks_of}
use rust_ethereum_indexer.Ingestion.Engine.{BackfillEngine, RangeBuild, first_conflict}
use rust_ethereum_indexer.Ingestion.Steps.{
  commit_finalized, process_finalized_range, build_range_payload,
}
use rust_ethereum_indexer.Ingestion.Keeps.{
  Steady, Triple, Triple-pure, Triple-bind, Triple-fact, Triple-weaken, Triple-given, Triple-clock,
  Triple-settles,
}
use rust_ethereum_indexer.Ingestion.Gather.{Numbered, repeats-Numbered}
use rust_ethereum_indexer.Ingestion.Fetch.{Builds, build_range_payload-Triple}
use rust_ethereum_indexer.Ingestion.Finalized.{IsFinalized, finalized-IsFinalized, records-Within}
use rust_ethereum_indexer.Ingestion.Reports.{report_success-Triple, Fetched-Numbered}
use rust_ethereum_indexer.Ingestion.Backfill.{Confirms, Carries, Held, moved, get_block_hash-Triple}

module _ (sv : Services) (e : BackfillEngine) (start top : ℕ) (positive : 0 < start)
    (limits : Confirms sv e top) where
  abbrev Inv' : Database → Type 0
  Inv' = IsFinalized start top

  -- The invariant, and the first block of the next range.
  abbrev pub Next : ℕ → Database → Type 0
  Next s d = (inv : Inv' d) × (s ≡ max (inv.cp + 1) start)

  Next-Inv : (s : ℕ) (d : Database) → Next s d → Inv' d
  Next-Inv s d h = h.0

  pub Next-Steady : (s : ℕ) → Steady sv.others (Next s) Inv'
  Next-Steady s = record {
    safe = Next-Inv s;
    kept = λ t d (inv, next).
        let (inv', e) = moved sv e start top positive limits t d inv in
        (inv', next ∙ ap (λ (cp : ℕ). max (cp + 1) start) e);
  }

  -- No block beyond the checkpoint is stored.
  fresh :
      (s n : ℕ) (d : Database)
      → Next s d
      → s ≤ n
      → n < i64_limit
      → select_hash (as_i64 n) d.indexed_blocks ≡ none
  fresh s n d (inv, at) lo hi = elim (Option-cases (select_hash (as_i64 n) d.indexed_blocks)) [
    | inl e ↦ e
    | inr (h, found) ↦
        let (m, here, _, top_m) = inv.bounded (as_i64 n) h found in
        absurd (apart m (sym (as_i64-eq_pos n hi) ∙ here) (omega arith))
  ]
    where
      apart : (m : ℕ) → pos n ≡ pos m → m < n → ⊥
      apart m e lt = ground arith

  module _ (s c latest t₀ : ℕ) (s_le_c : s ≤ c) (c_le_top : c ≤ top) (build : RangeBuild)
      (built : Builds sv e s c build.payload) where
    abbrev bs : List BlockMetadata
    bs = build.payload.block_metadata

    pub numbered : Numbered s bs × (length bs ≡ suc c - s)
    numbered = Fetched-Numbered sv (suc c - s) s bs built.fetched

    pub committed :
        (d : Database)
        → Next s d
        → Inv' (finalized build.payload.transfer_records build.payload.indexed_blocks s c d)
    committed d (inv, next) =
        let room : top + 2 * block_partition_size < i64_limit = limits.room in
        rw built.indexed (
          finalized-IsFinalized start top room s c bs build.payload.transfer_records d inv next
            s_le_c c_le_top numbered.0 (omega (arith, numbered.1)) built.records)

  module _ {G : Database → Type 0} (carries : Carries sv e start top G) where
    abbrev HeldG : Database → Type 0
    HeldG = Held sv e start top positive limits carries

    -- The same with the condition that goes along.
    abbrev pub HeldNext : ℕ → Database → Type 0
    HeldNext s d = Next s d × G d

    HeldNext-Held : (s : ℕ) (d : Database) → HeldNext s d → HeldG d
    HeldNext-Held s d h = (h.0.0, h.1)

    HeldNext-Steady : (s : ℕ) → Steady sv.others (HeldNext s) HeldG
    HeldNext-Steady s = record {
      safe = HeldNext-Held s;
      kept = λ t d (next, g). ((Next-Steady s).kept t d next, carries.kept t d g);
    }

    -- So the validation before a commit of the finalized lane never finds a conflict.
    first_conflict-Triple :
        (s start' : ℕ) (bs : List BlockMetadata)
        → s ≤ start'
        → start' + length bs ≤ i64_limit
        → Numbered start' bs
        → Triple
            (HeldNext s)
            (first_conflict
              (λ n. on_host sv.others (get_block_hash sv.answer n))
              (indexed_blocks_of bs))
            (λ o d. (o ≡ none) × HeldNext s d)
            HeldG
    unfolding first_conflict
    first_conflict-Triple s start' [] lo fits num =
        Triple-weaken _ (λ d h. (refl, h)) (λ o d h. h) (Triple-pure none)
    first_conflict-Triple s start' (b ∷ bs) lo fits num =
        let rest = first_conflict-Triple s (suc start') bs (omega arith) (omega arith) num.1 in
        Triple-bind (on_host sv.others (get_block_hash sv.answer b.number)) _ _
          (get_block_hash-Triple sv e start top positive limits (HeldNext-Steady s) b.number)
          λ o. Triple-given _ λ d (read, held).
            let missing : o ≡ none =
              read ∙ fresh s b.number d held.0 (omega (arith, num.0)) (omega (arith, num.0)) in
            rw missing (Triple-weaken _ (λ d' same. rw same held) (λ o d h. h) rest)

    module _ (s c latest t₀ : ℕ) (s_le_c : s ≤ c) (c_le_top : c ≤ top) (build : RangeBuild)
        (built : Builds sv e s c build.payload) where
      nums :
          Numbered s build.payload.block_metadata
          × (length build.payload.block_metadata ≡ suc c - s)
      nums = numbered s c latest t₀ s_le_c c_le_top build built

      after :
          (d : Database)
          → HeldNext s d
          → HeldG (finalized build.payload.transfer_records build.payload.indexed_blocks s c d)
      after d (next, g) = (
        committed s c latest t₀ s_le_c c_le_top build built d next,
        carries.grown s c build.payload built d next.0 next.1 s_le_c c_le_top g,
      )

      commit_finalized-Triple :
          Triple (HeldNext s) (commit_finalized sv e s c latest t₀ build none) (λ _. HeldG) HeldG
      unfolding commit_finalized
      commit_finalized-Triple =
          let room : top + 2 * block_partition_size < i64_limit = limits.room in
          Triple-bind (read_clock sv.instant) _ (λ _. HeldNext s) (Triple-clock _)
            λ t₁.
              Triple-bind
                (on_host sv.others (
                  commit_finalized_range sv.answer build.payload.transfer_records
                    build.payload.indexed_blocks s c))
                _ (λ _. HeldG)
                (Triple-settles sv.others (HeldNext-Steady s) _ _ _
                  (λ h held.
                    commit_finalized_range-Settles sv.answer s c build.payload.transfer_records
                      build.payload.indexed_blocks (omega arith)
                      (records-Within start top room s c build.payload.block_metadata
                        build.payload.transfer_records h.database held.0.0 held.0.1 s_le_c c_le_top
                        nums.0 (omega (arith, nums.1)) built.records)
                      (rw built.indexed (
                        repeats-Numbered s build.payload.block_metadata nums.0
                          (omega (arith, nums.1))))
                      h s c held.0.0.aligned)
                  after after)
                λ stats. report_success-Triple sv e "finalized" s c latest build stats t₀ t₁

      pub validate-Triple :
          Triple
            (HeldNext s)
            (first_conflict
              (λ n. on_host sv.others (get_block_hash sv.answer n))
              build.payload.indexed_blocks)
            (λ o d. (o ≡ none) × HeldNext s d)
            HeldG
      validate-Triple =
          let room : top + 2 * block_partition_size < i64_limit = limits.room in
          rw built.indexed (
            first_conflict-Triple s s build.payload.block_metadata (omega arith)
              (omega (arith, nums.1)) nums.0)

    pub process_finalized_range-Triple :
        (s c latest : ℕ)
        → s ≤ c
        → c ≤ top
        → Triple (HeldNext s) (process_finalized_range sv e s c latest) (λ _. HeldG) HeldG
    unfolding process_finalized_range
    process_finalized_range-Triple s c latest le below =
        Triple-bind (read_clock sv.instant) _ (λ _. HeldNext s) (Triple-clock _)
          λ t₀.
            Triple-bind (build_range_payload sv e s c) _ _
              (build_range_payload-Triple (HeldNext-Held s) sv e s c)
              λ build. Triple-fact _ λ built.
                Triple-bind _ _ _ (validate-Triple s c latest t₀ le below build built) λ o.
                  Triple-fact _
                    λ clean. rw clean (commit_finalized-Triple s c latest t₀ le below build built)
