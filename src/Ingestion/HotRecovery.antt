-- ===== src/Ingestion/HotRecovery.antt =====
-- `reconcile_hot_history` of crates/ingestion/src/lib.rs while PostgreSQL and the provider serve:
-- the hot lane is on the chain afterwards.
use rust_ethereum_indexer.Prelude.{
  ℕ, zero, suc, ◌+◌, ◌-◌, ◌*◌, ◌≤◌, ◌<◌, Bool, true, false, ◌≡◌, refl, sym, ap, ◌∙◌, inl, inr,
  Option, none, some, Bytes, bytes_eq, bytes_eq→eq, arith, pos, as_i64, as_i64-eq_pos, i64_limit,
  Exec,
}
use rust_ethereum_indexer.Storage.Tables.{Database, select_hash}
use rust_ethereum_indexer.Storage.Statements.{block_partition_size}
use rust_ethereum_indexer.Storage.Calls.{get_hot_block_hash}
use rust_ethereum_indexer.Storage.Effects.{hot_rolled_back}
use rust_ethereum_indexer.Observability.Metrics.{record_rollback, record_reorg_detected}
use rust_ethereum_indexer.World.{Services, World, Header, on_host, count}
use rust_ethereum_indexer.Rpc.Client.{get_latest_block_number}
use rust_ethereum_indexer.Ingestion.Engine.{
  BackfillEngine, numbers_from, compute_live_start_block, hot_validation_start,
}
use rust_ethereum_indexer.Ingestion.Steps.{
  fetch_block_metadata, handle_hot_reorg, check_hot, revalidate_hot, reconcile_hot_history,
}
use rust_ethereum_indexer.Ingestion.Keeps.{
  Triple, Triple-pure, Triple-bind, Triple-fact, Triple-weaken, Triple-if, Triple-count,
}
use rust_ethereum_indexer.Ingestion.Total.{Never, Triple-responds}
use rust_ethereum_indexer.Ingestion.Serving.{IsServing, fetch_block_metadata-serves}
use rust_ethereum_indexer.Ingestion.Hot.{IsHot}
use rust_ethereum_indexer.Ingestion.Backfill.{Plain}
use rust_ethereum_indexer.Ingestion.Live.{Heads}
use rust_ethereum_indexer.Ingestion.HotCalls.{get_hot_block_hash-serves, rollback_hot-serves}
use rust_ethereum_indexer.Ingestion.HotStates.{
  HotGood, HotSeen, HotSeen-kept, rolled_back-HotGood, next_seen, window, window-covers,
}

-- A condition that goes along: the backfill worker keeps it, and so does a rollback from a block
-- that is stored. `At` is what is left to know of that block when the rollback is made.
pub record Mends (sv : Services) (top : ℕ) (At : ℕ → Database → Type 0) (C : Database → Type 0)
    : Type 0 where
  pub kept : (t : ℕ) (d : Database) → C d → C (sv.others t d)
  pub at_kept : (n t : ℕ) (d : Database) → At n d → At n (sv.others t d)
  pub seen :
      (n : ℕ) (h : Bytes) (d : Database)
      → IsHot top d
      → select_hash (pos n) d.hot_indexed_blocks ≡ some h
      → At n d
  pub back : (n : ℕ) (d : Database) → n ≤ top → IsHot top d → At n d → C d → C (hot_rolled_back n d)

pub recovery_trivial : {sv : Services} {top : ℕ} → Mends sv top (λ n d. Unit) Plain
recovery_trivial = record {
  kept = λ t d h. tt;
  at_kept = λ n t d h. tt;
  seen = λ n h d inv found. tt;
  back = λ n d small inv h c. tt;
}

module _ (sv : Services) (e : BackfillEngine) (top : ℕ) (limits : Heads sv top) (latest : ℕ)
    (chain : ℕ → Header) (serving : IsServing sv e top latest chain) where
  abbrev Good : Database → Type 0
  Good = HotGood sv e top limits latest chain serving

  abbrev Seen : ℕ → ℕ → Database → Type 0
  Seen = HotSeen sv e top limits latest chain serving

  module _ (At : ℕ → Database → Type 0) (C : Database → Type 0) (mends : Mends sv top At C) where
    abbrev GoodC : Database → Type 0
    GoodC d = Good d × C d

    abbrev SeenC : ℕ → ℕ → Database → Type 0
    SeenC s n d = Seen s n d × C d

    SeenC-kept : (s n t : ℕ) (d : Database) → SeenC s n d → SeenC s n (sv.others t d)
    SeenC-kept s n t d (seen, held) =
        (HotSeen-kept sv e top limits latest chain serving s n t d seen, mends.kept t d held)

    -- The block that is stored under another hash is to be rolled back.
    abbrev Wrong : ℕ → ℕ → Database → Type 0
    Wrong s n d = At n d × SeenC s n d

    Wrong-kept : (s n t : ℕ) (d : Database) → Wrong s n d → Wrong s n (sv.others t d)
    Wrong-kept s n t d (at, seen) = (mends.at_kept n t d at, SeenC-kept s n t d seen)

    handle_hot_reorg-HotGood :
        (s n : ℕ) → n ≤ top → Triple (Wrong s n) (handle_hot_reorg sv e n) (λ _. GoodC) Never
    unfolding handle_hot_reorg
    handle_hot_reorg-HotGood s n small =
        Triple-bind (count record_rollback) _ (λ _. Wrong s n) (Triple-count _)
          λ _.
            rollback_hot-serves sv serving.answers n (Wrong-kept s n)
              (λ d (at, ((inv, on, below), held)). (
                rolled_back-HotGood sv e top limits latest chain serving n d small inv on,
                mends.back n d small inv at held,
              ))

    -- One block of the loop: it is passed over, accepted, or rolled back.
    check_hot-HotGood :
        (s n : ℕ) (next : Exec World Bool) (o : Option Bytes)
        → n ≤ top
        → Triple (SeenC s (suc n)) next (λ _. GoodC) Never
        → Triple
            (λ d. (o ≡ select_hash (as_i64 n) d.hot_indexed_blocks) × SeenC s n d)
            (check_hot sv e n next o)
            (λ _. GoodC)
            Never
    check_hot-HotGood s n next none small rest =
        Triple-weaken _
          (λ d (read, (seen, held)). (
            next_seen sv e top limits latest chain serving s n none d small (inl refl) read seen,
            held,
          ))
          (λ a d h. h) rest
    check_hot-HotGood s n next (some hash) small rest =
        Triple-bind (fetch_block_metadata sv e n) _ _
          (fetch_block_metadata-serves sv e top latest chain serving n small)
          λ b. Triple-fact _ λ fetched. rw fetched (
            Triple-if (bytes_eq hash (chain n).hash) _ _
              (λ same.
                let agrees : some hash ≡ some (chain n).hash =
                  ap some (bytes_eq→eq hash (chain n).hash same) in
                Triple-weaken _
                  (λ d (read, (seen, held)). (
                    next_seen sv e top limits latest chain serving s n _ d small (inr agrees) read
                        seen,
                    held,
                  ))
                  (λ a d h. h) rest)
              (λ _.
                Triple-bind (count record_reorg_detected) _ (λ _. Wrong s n)
                  (Triple-weaken _ (λ d (read, seen). (wrong d read seen.0.0, seen)) (λ a d h. h)
                    (Triple-count _))
                  λ _.
                    Triple-bind (handle_hot_reorg sv e n) _ (λ _. GoodC)
                      (handle_hot_reorg-HotGood s n small) λ _. Triple-pure true))
      where
        wrong :
            (d : Database)
            → some hash ≡ select_hash (as_i64 n) d.hot_indexed_blocks
            → IsHot top d
            → At n d
        wrong d read inv =
            let room : top + 2 * block_partition_size < i64_limit = limits.room in
            mends.seen n hash d inv (
              ap (λ z. select_hash z d.hot_indexed_blocks) (sym (as_i64-eq_pos n (omega arith)))
              ∙ sym read)

    revalidate_hot-HotGood :
        (s k n : ℕ)
        → (0 < k → n + k ≤ top + 1)
        → s ≤ n + k
        → Triple (SeenC s n) (revalidate_hot sv e (numbers_from n k)) (λ _. GoodC) Never
    unfolding revalidate_hot numbers_from
    revalidate_hot-HotGood s zero n small all =
        Triple-weaken _ whole (λ a d h. h) (Triple-pure false)
      where
        whole : (d : Database) → SeenC s n d → GoodC d
        whole d ((inv, on, below), held) = (
          (
            inv,
            λ m h found. let (m', at, lt) = below (pos m) h found in on m h (ground arith) found,
          ),
          held,
        )
    revalidate_hot-HotGood s (suc k) n small all =
        let fits : n + suc k ≤ top + 1 = small (omega arith) in
        let inside : n ≤ top = omega arith in
        let rest = revalidate_hot-HotGood s k (suc n) (λ more. omega arith) (omega arith) in
        Triple-bind (on_host sv.others (get_hot_block_hash sv.answer n)) _ _
          (get_hot_block_hash-serves sv serving.answers n (SeenC-kept s n))
          λ o. check_hot-HotGood s n _ o inside rest

    pub reconcile_hot_history-HotGood :
        (start n : ℕ)
        → n ≤ top
        → Triple
            (SeenC (suc latest) (window sv e top limits latest chain serving start))
            (reconcile_hot_history sv e (compute_live_start_block e start n))
            (λ _. GoodC)
            Never
    unfolding reconcile_hot_history get_latest_block_number
    reconcile_hot_history-HotGood start n small =
        Triple-bind _ _ _ (Triple-responds e.max_retries sv.get_block_number serving.heads) λ head.
          Triple-fact _ λ (t, replied).
            let below : head ≤ top = limits.heads t head replied in
            let above : latest ≤ head = serving.reached t head replied in
            let from : ℕ = hot_validation_start e (compute_live_start_block e start n) head in
            let covered =
              window-covers sv e top limits latest chain serving start n head small below in
            Triple-weaken _
              (λ d ((inv, on, le), held).
                ((inv, λ m h lt found. on m h (omega arith) found, le), held))
              (λ a d h. h)
              (revalidate_hot-HotGood (suc latest) (suc head - from) from (λ some_left. omega arith)
                (omega arith))
