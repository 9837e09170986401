-- ===== src/Ingestion/LiveFresh.antt =====
-- The loop of `run_live` of crates/ingestion/src/lib.rs while PostgreSQL and the provider serve.
use rust_ethereum_indexer.Prelude.{
  ℕ, zero, suc, ◌+◌, ◌-◌, ◌*◌, ◌≤◌, ◌<◌, max, Bool, true, false, ◌≡◌, refl, sym, arith, pos, as_u64,
  leb, i64_limit, Result, ok, err, pure, saturating_add, add_sub_one-eq,
}
use rust_ethereum_indexer.Storage.Tables.{Database}
use rust_ethereum_indexer.Storage.Session.{Host, reliable}
use rust_ethereum_indexer.Storage.Statements.{block_partition_size, one_row}
use rust_ethereum_indexer.Storage.Calls.{get_live_checkpoint, prune_hot_before_block}
use rust_ethereum_indexer.Storage.Effects.{pruned}
use rust_ethereum_indexer.Storage.Outcome.{Ends, Ends-execute, Ends-bind, Ends-pure}
use rust_ethereum_indexer.World.{Services, World, Header, on_host, count}
use rust_ethereum_indexer.Rpc.Client.{get_latest_block_number}
use rust_ethereum_indexer.Ingestion.Engine.{BackfillEngine, compute_live_start_block}
use rust_ethereum_indexer.Ingestion.Steps.{reconcile_hot_history}
use rust_ethereum_indexer.Ingestion.Workers.{
  reconciled, processed, caught_up, block_batch_size, batch_end, heat_next, live_rest, live_round,
  live_rounds, run_live,
}
use rust_ethereum_indexer.Ingestion.Keeps.{
  Post, Triple, Triple-pure, Triple-bind, Triple-fact, Triple-weaken, Triple-if, Triple-count,
}
use rust_ethereum_indexer.Ingestion.Total.{Never, Triple-ends, Triple-total, Triple-responds}
use rust_ethereum_indexer.Ingestion.Serving.{IsServing}
use rust_ethereum_indexer.Ingestion.Hot.{IsHot, StoredBelow}
use rust_ethereum_indexer.Ingestion.Live.{Heads, hot_trivial, get_live_checkpoint-Triple}
use rust_ethereum_indexer.Ingestion.Backfill.{Plain}
use rust_ethereum_indexer.Ingestion.BackfillRun.{failing-Triple}
use rust_ethereum_indexer.Ingestion.HotRecovery.{reconcile_hot_history-HotGood, recovery_trivial}
use rust_ethereum_indexer.Ingestion.HotStates.{
  HotGood, HotSeen, HotGood-kept, HotSeen-kept, pruned-HotGood, pruned-HotSeen, window,
}
use rust_ethereum_indexer.Ingestion.HotClean.{reconcile_hot_history-clean}
use rust_ethereum_indexer.Ingestion.HotCalls.{HotOnBelow, HotOnChain, prune_hot-serves}
use rust_ethereum_indexer.Ingestion.HotFresh.{HotReady, process_hot_range-serves}

-- A run that went well: the lane is in order, and shows blocks of the chain only.
pub record Fresh (chain : ℕ → Header) (top : ℕ) (r : Result (Unit {0}) × World) : Type 0 where
  pub result : r.0 ≡ ok tt
  pub ordered : IsHot top r.1.host.database
  pub on_chain : HotOnChain chain r.1.host.database

module _ (sv : Services) (e : BackfillEngine) (top : ℕ) (limits : Heads sv top) (latest : ℕ)
    (chain : ℕ → Header) (serving : IsServing sv e top latest chain) where
  abbrev Fine : Database → Type 0
  Fine = HotGood sv e top limits latest chain serving

  abbrev Seen : ℕ → Database → Type 0
  Seen start =
      HotSeen sv e top limits latest chain serving (suc latest)
        (window sv e top limits latest chain serving start)

  Fine-moved : (t : ℕ) (d : Database) → Fine d → Fine (sv.others t d)
  Fine-moved = HotGood-kept sv e top limits latest chain serving

  Seen-moved : (start t : ℕ) (d : Database) → Seen start d → Seen start (sv.others t d)
  Seen-moved start = HotSeen-kept sv e top limits latest chain serving (suc latest) _

  pub get_live_checkpoint-serves :
      {P : Database → Type 0}
      → ((d : Database) → P d → IsHot top d)
      → ((t : ℕ) (d : Database) → P d → P (sv.others t d))
      → Triple P (on_host sv.others (get_live_checkpoint sv.answer)) (λ _. P) Never
  unfolding get_live_checkpoint
  get_live_checkpoint-serves ordered kept = rw serving.answers (
      Triple-ends sv.others _ kept
        λ h p. let inv = ordered h.database p in (as_u64 (pos inv.cp), h.database, read h inv, p))
    where
      read :
          (h : Host) (inv : IsHot top h.database)
          → Ends (get_live_checkpoint reliable h) (as_u64 (pos inv.cp)) h.database
      read h inv =
          Ends-bind _ _ h _ _ _ _
            (Ends-execute (λ db. one_row db.live_indexer_checkpoint db) h (pos inv.cp) h.database
              (rw inv.checkpoint refl))
            (λ h' e. rw (sym e) (Ends-pure _ h'))

  heat_next-serves :
      (next head : ℕ)
      → head ≤ top
      → Triple
          (HotReady sv e top limits latest chain serving next)
          (heat_next sv e next head)
          (λ _. Fine)
          Never
  unfolding heat_next
  heat_next-serves next head below =
      Triple-if (leb next head) _ _
        (λ within.
          Triple-bind _ _ (λ _. Fine)
            (failing-Triple _ _ (
              Triple-weaken _ (λ d h. (h, tt)) (λ a d h. h.0)
                (process_hot_range-serves sv e top limits latest chain serving Plain Plain
                  (λ t d h. h) next (batch_end next head) head (end_bounds within).0
                  (end_bounds within).1 (λ p built d ready h. h))))
            (λ _. Triple-pure processed))
        (λ _. Triple-weaken (pure caught_up) (λ d h. h.0) (λ a d h. h) (Triple-pure caught_up))
    where
      end_bounds : leb next head ≡ true → (next ≤ batch_end next head) × (batch_end next head ≤ top)
      end_bounds within =
          let room : top + 2 * block_partition_size < i64_limit = limits.room in
          let le : next ≤ head = ground arith in
          omega (arith, add_sub_one-eq next block_batch_size (omega arith) (omega arith))

  live_rest-serves :
      (start head : ℕ) (changed : Bool)
      → head ≤ top
      → Triple Fine (live_rest sv e start head changed) (λ _. Fine) Never
  unfolding live_rest
  live_rest-serves start head true below = Triple-pure reconciled
  live_rest-serves start head false below =
      Triple-bind (on_host sv.others (get_live_checkpoint sv.answer)) _ _
        (Triple-total _
          (Triple-weaken _ (λ d h. (h.0, tt)) (λ a d h. h.0)
            (get_live_checkpoint-Triple sv e top limits hot_trivial))
          (get_live_checkpoint-serves (λ d h. h.0) Fine-moved))
        λ cp.
          Triple-bind (count _) _
            (λ _ d. (IsHot top d × StoredBelow (cp + 1) d × (cp ≤ top)) × Fine d) (Triple-count _)
            λ _.
              Triple-weaken _ (λ d ((_, below_cp, small), fine). (fine, beyond cp d below_cp small))
                (λ a d h. h) (heat_next-serves (max (saturating_add cp 1) start) head below)
    where
      beyond :
          (cp : ℕ) (d : Database)
          → StoredBelow (cp + 1) d
          → cp ≤ top
          → StoredBelow (max (saturating_add cp 1) start) d
      beyond cp d below_cp small z h found =
          let room : top + 2 * block_partition_size < i64_limit = limits.room in
          let (n, at, lt) = below_cp z h found in (n, at, omega arith)

  -- A round, from a condition `P` that the prune keeps.
  pub live_round-serves :
      (P Q : Database → Type 0) (Mid : Bool → Database → Type 0) (start : ℕ)
      → ((t : ℕ) (d : Database) → P d → P (sv.others t d))
      → ((n : ℕ)
          → n ≤ top
          → (d : Database) → P d
          → P (pruned (compute_live_start_block e start n) d))
      → ((n : ℕ)
          → n ≤ top
          → Triple P (reconcile_hot_history sv e (compute_live_start_block e start n)) Mid Never)
      → ((n : ℕ) (changed : Bool)
          → latest ≤ n
          → n ≤ top
          → Triple
              (Mid changed)
              (live_rest sv e (compute_live_start_block e start n) n changed)
              (λ _. Q)
              Never)
      → Triple P (live_round sv e start) (λ _. Q) Never
  unfolding live_round get_latest_block_number
  live_round-serves P Q Mid start kept prunes reconcile rest =
      Triple-bind _ _ _ (Triple-responds e.max_retries sv.get_block_number serving.heads) λ head.
        Triple-fact _ λ (t, replied).
          let below : head ≤ top = limits.heads t head replied in
          let above : latest ≤ head = serving.reached t head replied in
          let first : ℕ = compute_live_start_block e start head in
          Triple-bind (on_host sv.others (prune_hot_before_block sv.answer first)) _ (λ _. P)
            (prune_hot-serves sv serving.answers first kept (prunes head below))
            λ _.
              Triple-bind (reconcile_hot_history sv e first) _ Mid (reconcile head below)
                λ changed. rest head changed above below

  live_rounds-serve :
      (rounds start : ℕ) → Triple Fine (live_rounds sv e rounds start) (λ _. Fine) Never
  unfolding live_rounds
  live_rounds-serve zero start = Triple-pure tt
  live_rounds-serve (suc n) start =
      let rest = live_rounds-serve n start in
      Triple-bind (live_round sv e start) _ (λ _. Fine)
        (live_round-serves Fine Fine (λ _. Fine) start Fine-moved
          (λ n small. pruned-HotGood sv e top limits latest chain serving _)
          (λ n small.
            Triple-weaken _ (λ d h. h) (λ a d h. h.1)
              (reconcile_hot_history-clean sv e top limits latest chain serving Fine Fine-moved
                (λ d h. h.1) _))
          (λ head changed above. live_rest-serves _ head changed))
        (λ _. rest)

  run_live-serves :
      (n start : ℕ) → Triple (Seen start) (run_live sv e (suc n) start) (λ _. Fine) Never
  unfolding run_live live_rounds
  run_live-serves n start =
      Triple-bind (on_host sv.others (get_live_checkpoint sv.answer)) _ (λ _. Seen start)
        (get_live_checkpoint-serves (λ d h. h.0) (Seen-moved start))
        λ cp.
          Triple-bind (count _) _ (λ _. Seen start) (Triple-count _)
            λ _.
              Triple-bind (live_round sv e start) _ (λ _. Fine)
                (live_round-serves (Seen start) Fine (λ _. Fine) start (Seen-moved start)
                  (λ n small d.
                    pruned-HotSeen sv e top limits latest chain serving (suc latest) _ _ d)
                  (λ n small.
                    Triple-weaken _ (λ d h. (h, tt)) (λ a d h. h.0)
                      (reconcile_hot_history-HotGood sv e top limits latest chain serving _ Plain
                        recovery_trivial start n small))
                  (λ head changed above. live_rest-serves _ head changed))
                λ _. live_rounds-serve n start

  -- With heads from `latest` to `top`: while PostgreSQL answers, the provider fails no request more
  -- than `max_retries` times in a row, reports the blocks of one chain up to `top` and logs that
  -- belong to a block of the range, and the backfill worker commits whichever of its transactions
  -- in between, where it rolls back from no block beyond `top`: from a hot lane in order, with no
  -- block above `latest` and with hashes that differ from those of the chain only in the window
  -- below `top` that is checked, `run_live` does not fail, and after any number of rounds but none
  -- the lane is in order and every hash in it is that of the chain.
  pub run_live-Fresh :
      (rounds start : ℕ) (w : World)
      → IsHot top w.host.database
      → StoredBelow (suc latest) w.host.database
      → HotOnBelow chain (max (top - (max e.reorg_lookback 1 - 1)) start) w.host.database
      → 0 < rounds
      → Fresh chain top (run_live sv e rounds start w)
  run_live-Fresh zero start w inv below on some_round = absurd (omega arith)
  run_live-Fresh (suc n) start w inv below on some_round =
      fresh (run_live sv e (suc n) start w) ((run_live-serves n start).at w (inv, on, below))
    where
      fresh : (r : Result (Unit {0}) × World) → Post (λ _. Fine) Never r → Fresh chain top r
      fresh (ok u, w') h = record { result = refl; ordered = h.0; on_chain = h.1 }
      fresh (err c, w') bad = absurd bad
