-- ===== src/Ingestion/Recovery.antt =====
-- `reconcile_finalized_history` of crates/ingestion/src/lib.rs while PostgreSQL and the provider
-- serve: where the stored hashes left the chain within the window that it checks, they are on the
-- chain afterwards.
use native.Mathlib.Decide.{dec_lt}
use rust_ethereum_indexer.Prelude.{
  ℕ, zero, suc, ◌+◌, ◌-◌, ◌*◌, ◌≤◌, ◌<◌, true, false, ◌≡◌, refl, sym, ap, ◌∙◌, Option, some, Bytes,
  arith, pos, as_i64, as_u64, as_i64-eq_pos, i64_limit,
}
use rust_ethereum_indexer.Storage.Tables.{Database, select_hash}
use rust_ethereum_indexer.Storage.Session.{Host, reliable}
use rust_ethereum_indexer.Storage.Statements.{block_partition_size, one_row}
use rust_ethereum_indexer.Storage.Calls.{get_checkpoint, get_block_hash}
use rust_ethereum_indexer.Storage.Outcome.{Ends, Ends-execute, Ends-bind, Ends-pure}
use rust_ethereum_indexer.Storage.Effects.{rolled_back}
use rust_ethereum_indexer.Observability.Metrics.{record_rollback, record_reorg_detected}
use rust_ethereum_indexer.World.{Services, Header, on_host, count}
use rust_ethereum_indexer.Ingestion.Engine.{
  BackfillEngine, numbers_from, is_valid, finalized_validation_start,
}
use rust_ethereum_indexer.Ingestion.Steps.{
  fetch_block_metadata, handle_finalized_reorg, revalidate_finalized, reconcile_finalized_history,
}
use rust_ethereum_indexer.Ingestion.Keeps.{
  Triple, Triple-pure, Triple-bind, Triple-fact, Triple-weaken, Triple-if, Triple-count,
}
use rust_ethereum_indexer.Ingestion.Total.{Triple-ends, Triple-known}
use rust_ethereum_indexer.Ingestion.Serving.{IsServing, fetch_block_metadata-serves}
use rust_ethereum_indexer.Ingestion.Finalized.{IsFinalized, rolled_back-IsFinalized, survives}
use rust_ethereum_indexer.Ingestion.Writes.{LiveWrites-SameFinalized}
use rust_ethereum_indexer.Ingestion.Backfill.{Confirms, At, At-Steady}
use rust_ethereum_indexer.Ingestion.OnChain.{
  OnBelow, OnChain, OnBelow-moved, OnChain-moved, accepted, valid, get_block_hash-serves,
  rollback_from_block-serves, Checkpoint,
}

module _ (sv : Services) (e : BackfillEngine) (start top : ℕ) (positive : 0 < start)
    (limits : Confirms sv e top) (latest : ℕ) (chain : ℕ → Header)
    (serving : IsServing sv e top latest chain) where
  pub get_checkpoint-serves :
      {P E : Database → Type 0}
      → ((d : Database) → P d → IsFinalized start top d)
      → ((t : ℕ) (d : Database) → P d → P (sv.others t d))
      → Triple P (on_host sv.others (get_checkpoint sv.answer)) (λ cp d. Checkpoint cp d × P d) E
  unfolding get_checkpoint as_u64
  get_checkpoint-serves {P} ordered kept = rw serving.answers (
      Triple-ends sv.others _ kept λ h p.
        let inv = ordered h.database p in
        (as_u64 (pos inv.cp), h.database, read h inv, (same h inv, p)))
    where
      read :
          (h : Host) (inv : IsFinalized start top h.database)
          → Ends (get_checkpoint reliable h) (as_u64 (pos inv.cp)) h.database
      read h inv =
          Ends-bind _ _ h _ _ _ _
            (Ends-execute (λ db. one_row db.indexer_checkpoint db) h (pos inv.cp) h.database
              (rw inv.checkpoint refl))
            (λ h' e. rw (sym e) (Ends-pure _ h'))

      same :
          (h : Host) (inv : IsFinalized start top h.database)
          → Checkpoint (as_u64 (pos inv.cp)) h.database
      same h inv =
          let room : top + 2 * block_partition_size < i64_limit = limits.room in
          ground (arith, inv.checkpoint, inv.below)

  -- In order, and on the chain.
  abbrev pub Good : Database → Type 0
  Good d = IsFinalized start top d × OnChain chain d

  abbrev pub Seen : ℕ → ℕ → Database → Type 0
  Seen cp b d = At sv e start top positive limits cp d × OnBelow chain b d

  abbrev pub Clean : ℕ → Database → Type 0
  Clean cp d = At sv e start top positive limits cp d × OnChain chain d

  At-kept :
      (cp t : ℕ) (d : Database)
      → At sv e start top positive limits cp d
      → At sv e start top positive limits cp (sv.others t d)
  At-kept cp t d at = (At-Steady sv e start top positive limits cp).kept t d at

  Seen-kept : (cp b t : ℕ) (d : Database) → Seen cp b d → Seen cp b (sv.others t d)
  Seen-kept cp b t d (at, on) = (
    At-kept cp t d at,
    OnBelow-moved chain b d _ (LiveWrites-SameFinalized (limits.alone t d)) on,
  )

  Clean-kept : (cp t : ℕ) (d : Database) → Clean cp d → Clean cp (sv.others t d)
  Clean-kept cp t d (at, on) =
      (At-kept cp t d at, OnChain-moved chain d _ (LiveWrites-SameFinalized (limits.alone t d)) on)

  inside_top : (cp : ℕ) (d : Database) → At sv e start top positive limits cp d → cp ≤ top
  inside_top cp d (inv, same) = omega (arith, inv.below)

  -- A lane that is on the chain is found so, and left alone.
  revalidate_finalized-Clean :
      {E : Database → Type 0} (cp k n : ℕ)
      → cp ≤ top
      → start ≤ n
      → n + k ≤ cp + 1
      → Triple
          (Clean cp)
          (revalidate_finalized sv e (numbers_from n k))
          (λ changed d. (changed ≡ false) × Clean cp d)
          E
  unfolding revalidate_finalized numbers_from
  revalidate_finalized-Clean cp zero n small lo hi =
      Triple-weaken _ (λ d c. (refl, c)) (λ a d h. h) (Triple-pure false)
  revalidate_finalized-Clean cp (suc k) n small lo hi =
      let inside : n ≤ cp = omega arith in
      let rest = revalidate_finalized-Clean cp k (suc n) small (omega arith) (omega arith) in
      Triple-bind (fetch_block_metadata sv e n) _ _
        (fetch_block_metadata-serves sv e top latest chain serving n (omega (arith, inside)))
        λ b. Triple-fact _ λ fetched.
          Triple-bind (on_host sv.others (get_block_hash sv.answer n)) _ _
            (get_block_hash-serves sv serving.answers n (Clean-kept cp))
            λ o.
              Triple-weaken _ (λ d h. h) (λ a d h. h)
                (Triple-known _ (λ d h. is_stored o d h.0 h.1)
                  (λ stored.
                    rw (fetched, valid o (chain n).hash stored)
                      (Triple-weaken _ (λ d h. h.1) (λ a d h. h) rest)))
    where
      is_stored :
          (o : Option Bytes) (d : Database)
          → o ≡ select_hash (as_i64 n) d.indexed_blocks
          → Clean cp d
          → o ≡ some (chain n).hash
      is_stored o d read ((inv, same), on) =
          let room : top + 2 * block_partition_size < i64_limit = limits.room in
          let (h, found) = inv.stored_all n lo (omega arith) in
          read
          ∙ ap (λ z. select_hash z d.indexed_blocks) (as_i64-eq_pos n (omega arith))
          ∙ found
          ∙ ap some (on n h found)

  rolled_back-Good :
      (cp n : ℕ) (d : Database) → start ≤ n → n ≤ cp → Seen cp n d → Good (rolled_back n d)
  unfolding rolled_back
  rolled_back-Good cp n d lo hi ((inv, same), on) = (
    rolled_back-IsFinalized start top limits.room n d inv (omega arith) (omega arith) lo,
    λ m h found.
        let (old, early) = survives start top limits.room n d inv (omega arith) (pos m) h found in
        on m h (ground arith) old,
  )

  handle_finalized_reorg-Good :
      {E : Database → Type 0} (cp n : ℕ)
      → start ≤ n
      → n ≤ cp
      → Triple (Seen cp n) (handle_finalized_reorg sv e n) (λ _. Good) E
  unfolding handle_finalized_reorg
  handle_finalized_reorg-Good cp n lo hi =
      Triple-bind (count record_rollback) _ (λ _. Seen cp n) (Triple-count _)
        λ _.
          rollback_from_block-serves sv serving.answers n (Seen-kept cp n)
            (λ d seen. rolled_back-Good cp n d lo hi seen)

  -- The first block whose stored hash is not that of the chain is rolled back, with all above it.
  revalidate_finalized-Good :
      {E : Database → Type 0} (cp k n : ℕ)
      → cp ≤ top
      → start ≤ n
      → n + k ≡ cp + 1
      → Triple (Seen cp n) (revalidate_finalized sv e (numbers_from n k)) (λ _. Good) E
  unfolding revalidate_finalized numbers_from
  revalidate_finalized-Good cp zero n small lo hi =
      Triple-weaken _ all_seen (λ a d h. h) (Triple-pure false)
    where
      all_seen : (d : Database) → Seen cp n d → Good d
      all_seen d ((inv, same), on) = (
        inv,
        λ m h found.
            let (m', at, _, below) = inv.bounded (pos m) h found in on m h (ground arith) found,
      )
  revalidate_finalized-Good cp (suc k) n small lo hi =
      let inside : n ≤ cp = omega arith in
      let rest = revalidate_finalized-Good cp k (suc n) small (omega arith) (omega arith) in
      Triple-bind (fetch_block_metadata sv e n) _ _
        (fetch_block_metadata-serves sv e top latest chain serving n (omega (arith, inside)))
        λ b. Triple-fact _ λ fetched.
          Triple-bind (on_host sv.others (get_block_hash sv.answer n)) _ _
            (get_block_hash-serves sv serving.answers n (Seen-kept cp n))
            λ o. rw fetched (
              Triple-if (is_valid o (chain n).hash) _ _
                (λ fine. Triple-weaken _ (λ d h. one_more o d fine h.0 h.1) (λ a d h. h) rest)
                (λ _.
                  Triple-bind (count record_reorg_detected) _ (λ _. Seen cp n)
                    (Triple-weaken _ (λ d h. h.1) (λ a d h. h) (Triple-count _))
                    λ _.
                      Triple-bind (handle_finalized_reorg sv e n) _ (λ _. Good)
                        (handle_finalized_reorg-Good cp n lo inside) λ _. Triple-pure true))
    where
      one_more :
          (o : Option Bytes) (d : Database)
          → is_valid o (chain n).hash ≡ true
          → o ≡ select_hash (as_i64 n) d.indexed_blocks
          → Seen cp n d
          → Seen cp (suc n) d
      one_more o d fine read (at, on) =
          let room : top + 2 * block_partition_size < i64_limit = limits.room in
          let here : select_hash (pos n) d.indexed_blocks ≡ some (chain n).hash =
            sym (read ∙ ap (λ z. select_hash z d.indexed_blocks) (as_i64-eq_pos n (omega arith)))
            ∙ accepted o (chain n).hash fine in
          (
            at,
            λ m h lt found. elim (dec_lt m n) [
              | yes before ↦ on m h before found
              | no after ↦
                  let eq : m ≡ n = omega arith in
                  let found' : select_hash (pos n) d.indexed_blocks ≡ some h = ground arith in
                  rw eq (ground arith)
            ],
          )

  pub reconcile-Clean :
      {E : Database → Type 0} (cp : ℕ)
      → cp ≤ top
      → start ≤ cp
      → Triple
          (Clean cp)
          (reconcile_finalized_history sv e start cp)
          (λ changed d. (changed ≡ false) × Clean cp d)
          E
  unfolding reconcile_finalized_history finalized_validation_start
  reconcile-Clean cp small h =
      revalidate_finalized-Clean cp (suc cp - _) _ small (omega arith) (omega arith)

  pub reconcile-Good :
      {E : Database → Type 0} (cp : ℕ)
      → cp ≤ top
      → start ≤ cp
      → Triple
          (Seen cp (finalized_validation_start e start cp))
          (reconcile_finalized_history sv e start cp)
          (λ _. Good)
          E
  unfolding reconcile_finalized_history finalized_validation_start
  reconcile-Good cp small h =
      revalidate_finalized-Good cp (suc cp - _) _ small (omega arith) (omega arith)
