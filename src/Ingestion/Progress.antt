-- ===== src/Ingestion/Progress.antt =====
-- The loop of `run_backfill` of crates/ingestion/src/lib.rs while PostgreSQL and the provider
-- serve: it recovers from a reorganisation within its window, and then goes on until it is caught
-- up.
use rust_ethereum_indexer.Prelude.{
  ℕ, suc, ◌+◌, ◌-◌, ◌*◌, ◌≤◌, ◌<◌, min, max, false, ◌≡◌, sym, ◌∙◌, arith, leb, i64_limit, pure,
  saturating_add, add_sub_one-eq,
}
use rust_ethereum_indexer.Storage.Tables.{Database}
use rust_ethereum_indexer.Storage.Statements.{block_partition_size}
use rust_ethereum_indexer.Storage.Calls.{get_checkpoint}
use rust_ethereum_indexer.World.{Services, Header, on_host}
use rust_ethereum_indexer.Ingestion.Engine.{BackfillEngine, finalized_validation_start}
use rust_ethereum_indexer.Ingestion.Workers.{
  processed, caught_up, block_batch_size, batch_end, finalize_next, backfill_rest,
}
use rust_ethereum_indexer.Ingestion.Keeps.{
  Triple, Triple-pure, Triple-bind, Triple-weaken, Triple-if,
}
use rust_ethereum_indexer.Ingestion.Total.{Never, Triple-known}
use rust_ethereum_indexer.Ingestion.Serving.{IsServing}
use rust_ethereum_indexer.Ingestion.Finalized.{IsFinalized}
use rust_ethereum_indexer.Ingestion.Writes.{
  SameFinalized, LiveWrites-SameFinalized, IsFinalized-moved,
}
use rust_ethereum_indexer.Ingestion.Backfill.{Confirms}
use rust_ethereum_indexer.Ingestion.BackfillRun.{failing-Triple}
use rust_ethereum_indexer.Ingestion.OnChain.{OnBelow, OnBelow-moved, OnChain-moved, Checkpoint}
use rust_ethereum_indexer.Ingestion.Recovery.{Good, get_checkpoint-serves}
use rust_ethereum_indexer.Ingestion.Batch.{Ready, process_finalized_range-serves}

module _ (sv : Services) (e : BackfillEngine) (start top : ℕ) (positive : 0 < start)
    (limits : Confirms sv e top) (latest : ℕ) (chain : ℕ → Header)
    (serving : IsServing sv e top latest chain) where
  -- The head that is surely final.
  abbrev pub goal : ℕ
  goal = latest - e.confirmation_depth

  abbrev pub Fine : Database → Type 0
  Fine = Good sv e start top positive limits latest chain serving

  -- On the chain, and `j` blocks after the first one are stored, or all up to the goal.
  abbrev pub Far : ℕ → ℕ → Type 0
  Far j cp = min (start + j) (suc goal) ≤ max (cp + 1) start

  abbrev pub Reached : ℕ → Database → Type 0
  Reached j d = Fine d × ((c : ℕ) → Checkpoint c d → Far j c)

  -- The hashes that differ from those of the chain lie in the window that is checked.
  abbrev pub Recent : Database → Type 0
  Recent d =
      IsFinalized start top d
      × ((c : ℕ) → Checkpoint c d → OnBelow chain (finalized_validation_start e start c) d)

  same_finalized : (t : ℕ) (d : Database) → SameFinalized d (sv.others t d)
  same_finalized t d = LiveWrites-SameFinalized (limits.alone t d)

  pub one-Checkpoint : (c c' : ℕ) (d : Database) → Checkpoint c d → Checkpoint c' d → c ≡ c'
  one-Checkpoint c c' d at at' = ground arith

  Fine-kept : (t : ℕ) (d : Database) → Fine d → Fine (sv.others t d)
  Fine-kept t d (inv, on) = (
    (IsFinalized-moved (same_finalized t d) inv).0,
    OnChain-moved chain d _ (same_finalized t d) on,
  )

  pub Reached-kept : (j t : ℕ) (d : Database) → Reached j d → Reached j (sv.others t d)
  Reached-kept j t d (fine, far) =
      (Fine-kept t d fine, λ c at. far c (sym ((same_finalized t d).checkpoint) ∙ at))

  pub Recent-kept : (t : ℕ) (d : Database) → Recent d → Recent (sv.others t d)
  Recent-kept t d (inv, on) = (
    (IsFinalized-moved (same_finalized t d) inv).0,
    λ c at.
        OnBelow-moved chain _ d _ (same_finalized t d)
          (on c (sym ((same_finalized t d).checkpoint) ∙ at)),
  )

  further : (j cp : ℕ) (d : Database) → Fine d → Checkpoint cp d → Far j cp → Reached j d
  further j cp d fine at far =
      (fine, λ c at'. let same : c ≡ cp = one-Checkpoint c cp d at' at in rw same far)

  module _ (safe_head latest_block : ℕ) (final : goal ≤ safe_head) (below : safe_head ≤ top) where
    finalize_next-serves :
        (j cp next : ℕ)
        → next ≡ max (cp + 1) start
        → Far j cp
        → Triple
            (λ d. Checkpoint cp d × Fine d)
            (finalize_next sv e next safe_head latest_block)
            (λ _. Reached (suc j))
            Never
    unfolding finalize_next
    finalize_next-serves j cp next is_next far =
        Triple-if (leb next safe_head) _ _
          (λ within.
            let inside : next ≤ safe_head = ground arith in
            let stop : (next ≤ batch_end next safe_head) × (batch_end next safe_head ≤ top) =
              end_bounds inside in
            Triple-bind _ _ (λ _. Reached (suc j))
              (failing-Triple _ _ (
                Triple-weaken _ ready
                  (λ u d (fine, at).
                    further (suc j) _ d fine at (ahead (batch_end next safe_head) stop.0))
                  (process_finalized_range-serves sv e start top positive limits latest chain
                    serving next (batch_end next safe_head) latest_block stop.0 stop.1)))
              (λ _. Triple-pure processed))
          (λ beyond.
            let over : safe_head < next = ground arith in
            Triple-weaken (pure caught_up)
              (λ d (at, fine). further (suc j) cp d fine at (omega arith)) (λ a d h. h)
              (Triple-pure caught_up))
      where
        end_bounds :
            next ≤ safe_head → (next ≤ batch_end next safe_head) × (batch_end next safe_head ≤ top)
        end_bounds inside =
            let room : top + 2 * block_partition_size < i64_limit = limits.room in
            omega (arith, add_sub_one-eq next block_batch_size (omega arith) (omega arith))

        ahead : (c : ℕ) → next ≤ c → Far (suc j) c
        ahead c le = omega arith

        ready :
            (d : Database)
            → Checkpoint cp d × Fine d
            → Ready sv e start top positive limits latest chain serving next d
        ready d (at, (inv, on)) =
            let same : inv.cp ≡ cp = one-Checkpoint inv.cp cp d inv.checkpoint at in
            ((inv, rw same is_next), on)

    pub rest-serves :
        (j : ℕ)
        → Triple
            (Reached j)
            (backfill_rest sv e start safe_head latest_block false)
            (λ _. Reached (suc j))
            Never
    unfolding backfill_rest
    rest-serves j =
        Triple-bind (on_host sv.others (get_checkpoint sv.answer)) _ _
          (get_checkpoint-serves sv e start top positive limits latest chain serving (λ d h. h.0.0)
            (Reached-kept j))
          λ cp.
            Triple-known _ (λ d (at, ((inv, on), far)). (small cp d inv at, far cp at))
              λ (fits, far).
                Triple-weaken _ (λ d (at, (fine, far)). (at, fine)) (λ a d h. h)
                  (finalize_next-serves j cp (max (saturating_add cp 1) start) (next_of cp fits)
                    far)
      where
        small : (cp : ℕ) (d : Database) → IsFinalized start top d → Checkpoint cp d → cp ≤ top
        small cp d inv at =
            let same : inv.cp ≡ cp = one-Checkpoint inv.cp cp d inv.checkpoint at in
            omega (arith, inv.below)

        next_of : (cp : ℕ) → cp ≤ top → max (saturating_add cp 1) start ≡ max (cp + 1) start
        next_of cp fits =
            let room : top + 2 * block_partition_size < i64_limit = limits.room in omega arith
