-- ===== src/Ingestion/Reports.antt =====
-- The parts of a batch that both workers share: the metrics, and the numbers of the blocks.
use rust_ethereum_indexer.Prelude.{ℕ, zero, suc, ◌≡◌, refl, ap, List, [], ◌∷◌, length}
use Prim.Native.String.{String}
use rust_ethereum_indexer.Storage.Tables.{Database}
use rust_ethereum_indexer.Storage.Calls.{CommitStats}
use rust_ethereum_indexer.World.{Services, count, read_clock}
use rust_ethereum_indexer.Rpc.Client.{BlockMetadata}
use rust_ethereum_indexer.Ingestion.Engine.{BackfillEngine, RangeBuild, numbers_from}
use rust_ethereum_indexer.Ingestion.Steps.{record_delays, build_batch_metrics, report_success}
use rust_ethereum_indexer.Ingestion.Keeps.{
  Triple, Triple-pure, Triple-bind, Triple-count, Triple-clock,
}
use rust_ethereum_indexer.Ingestion.Gather.{Numbered}
use rust_ethereum_indexer.Ingestion.Fetch.{Fetched}

-- The metrics of a batch do not touch the database.
module _ {P E : Database → Type 0} (sv : Services) (e : BackfillEngine) where
  record_delays-Triple :
      (now : ℕ) (bs : List BlockMetadata) → Triple P (record_delays sv e now bs) (λ _. P) E
  unfolding record_delays
  record_delays-Triple now [] = Triple-pure tt
  record_delays-Triple now (b ∷ bs) =
      Triple-bind (count _) _ (λ _. P) (Triple-count _) (λ _. record_delays-Triple now bs)

  pub report_success-Triple :
      (lane : String) (s c latest : ℕ) (build : RangeBuild) (stats : CommitStats) (t₀ t₁ : ℕ)
      → Triple P (report_success sv e lane s c latest build stats t₀ t₁) (λ _. P) E
  unfolding report_success build_batch_metrics
  report_success-Triple lane s c latest build stats t₀ t₁ =
      Triple-bind (read_clock _) _ (λ _. P) (Triple-clock _)
        λ t₂.
          Triple-bind _ _ (λ _. P)
            (Triple-bind (read_clock _) _ (λ _. P) (Triple-clock _)
              λ now.
                Triple-bind _ _ (λ _. P) (record_delays-Triple now build.payload.block_metadata)
                  λ _. Triple-pure _)
            λ batch. Triple-bind (read_clock _) _ (λ _. P) (Triple-clock _) λ now. Triple-count _

-- The numbers of the fetched blocks.
pub Fetched-Numbered :
    (sv : Services) (k s : ℕ) (bs : List BlockMetadata)
    → Fetched sv (numbers_from s k) bs
    → Numbered s bs × (length bs ≡ k)
unfolding numbers_from
Fetched-Numbered sv zero s [] f = (tt, refl)
Fetched-Numbered sv zero s (b ∷ bs) f = absurd f
Fetched-Numbered sv (suc k) s [] f = absurd f
Fetched-Numbered sv (suc k) s (b ∷ bs) f =
    let (num, len) = Fetched-Numbered sv k (suc s) bs f.2 in ((f.0, num), ap suc len)
