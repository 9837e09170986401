-- ===== src/Ingestion/CaughtUp.antt =====
-- The loop of `run_live` of crates/ingestion/src/lib.rs while PostgreSQL and the provider serve:
-- from a lane that differs from the chain within its window to one that has all blocks of the
-- window.
use rust_ethereum_indexer.Prelude.{
  ℕ, zero, suc, ◌+◌, ◌-◌, ◌*◌, ◌≤◌, ◌<◌, max, Bool, true, false, ◌≡◌, refl, sym, ap, ◌∙◌, some,
  arith, pos, i64_limit, Result, ok, err, saturating_add,
}
use rust_ethereum_indexer.Storage.Tables.{Database, select_hash}
use rust_ethereum_indexer.Storage.Statements.{block_partition_size}
use rust_ethereum_indexer.Storage.Calls.{get_live_checkpoint}
use rust_ethereum_indexer.World.{Services, World, Header, on_host, count}
use rust_ethereum_indexer.Ingestion.Engine.{BackfillEngine, compute_live_start_block}
use rust_ethereum_indexer.Ingestion.Workers.{
  reconciled, live_rest, live_round, live_rounds, run_live,
}
use rust_ethereum_indexer.Ingestion.Keeps.{
  Post, Triple, Triple-pure, Triple-bind, Triple-fact, Triple-weaken, Triple-count,
}
use rust_ethereum_indexer.Ingestion.Total.{Never, Triple-known}
use rust_ethereum_indexer.Ingestion.Serving.{IsServing}
use rust_ethereum_indexer.Ingestion.Hot.{IsHot, StoredBelow}
use rust_ethereum_indexer.Ingestion.Live.{Heads}
use rust_ethereum_indexer.Ingestion.HotCalls.{HotOnBelow}
use rust_ethereum_indexer.Ingestion.HotRecovery.{Mends, reconcile_hot_history-HotGood}
use rust_ethereum_indexer.Ingestion.HotStates.{
  HotGood, HotSeen, HotSeen-kept, pruned-HotSeen, window,
}
use rust_ethereum_indexer.Ingestion.HotClean.{reconcile_hot_history-clean}
use rust_ethereum_indexer.Ingestion.LiveFresh.{live_round-serves, get_live_checkpoint-serves}
use rust_ethereum_indexer.Ingestion.Unbroken.{
  LiveCheckpoint, Unbroken, Spares, one_live, Unbroken-spared, pruned-Spares,
  hot_rolled_back-Unbroken,
}
use rust_ethereum_indexer.Ingestion.HotProgress.{
  live_start_grows, live_start_below, low-fits, Shown, Shown-kept, pruned-Shown, read_live-serves,
  heat_next-serves,
}

-- A run that went well, after which each block from `from` to `latest` is stored as it is on the
-- chain.
pub record CaughtUp (chain : ℕ → Header) (from latest : ℕ) (r : Result (Unit {0}) × World)
    : Type 0 where
  pub result : r.0 ≡ ok tt
  pub stored :
      (n : ℕ)
      → from ≤ n
      → n ≤ latest
      → select_hash (pos n) r.1.host.database.hot_indexed_blocks ≡ some (chain n).hash

module _ (sv : Services) (e : BackfillEngine) (top : ℕ) (limits : Heads sv top) (latest : ℕ)
    (chain : ℕ → Header) (serving : IsServing sv e top latest chain) (start : ℕ)
    (begun : start ≤ latest) (positive : 0 < compute_live_start_block e start top)
    (spares : (t : ℕ) (d : Database)
      → Spares (compute_live_start_block e start top) d (sv.others t d)) where
  abbrev low' : ℕ
  low' = compute_live_start_block e start top

  abbrev Shown' : ℕ → Database → Type 0
  Shown' = Shown sv e top limits latest chain serving start begun spares

  Shown'-kept : (j t : ℕ) (d : Database) → Shown' j d → Shown' j (sv.others t d)
  Shown'-kept = Shown-kept sv e top limits latest chain serving start begun spares

  rest-serves :
      (j head : ℕ)
      → latest ≤ head
      → head ≤ top
      → Triple
          (Shown' j)
          (live_rest sv e (compute_live_start_block e start head) head false)
          (λ _. Shown' (suc j))
          Never
  unfolding live_rest
  rest-serves j head above below =
      Triple-bind (on_host sv.others (get_live_checkpoint sv.answer)) _ _
        (read_live-serves sv e top limits latest chain serving start begun spares j)
        λ cp.
          Triple-known _ (λ d (at, shown). (small cp d shown.0.0 at, shown.2 cp at))
            λ (fits, far).
              Triple-bind (count _) _ (λ _ d. LiveCheckpoint cp d × Shown' j d) (Triple-count _)
                λ _.
                  let room : top + 2 * block_partition_size < i64_limit = limits.room in
                  let same : saturating_add cp 1 ≡ cp + 1 = omega arith in
                  rw same (
                    heat_next-serves sv e top limits latest chain serving start begun spares j cp
                      head above below fits far)
    where
      small : (cp : ℕ) (d : Database) → IsHot top d → LiveCheckpoint cp d → cp ≤ top
      small cp d inv at =
          let same : inv.cp ≡ cp = one_live inv.cp cp d inv.checkpoint at in
          omega (arith, inv.below)

  -- A lane that is on the chain is a block further, or has all of them.
  next_round-serves :
      (j : ℕ) → Triple (Shown' j) (live_round sv e start) (λ _. Shown' (suc j)) Never
  next_round-serves j =
      live_round-serves sv e top limits latest chain serving (Shown' j) (Shown' (suc j))
        (λ changed d. (changed ≡ false) × Shown' j d) start (Shown'-kept j)
        (pruned-Shown sv e top limits latest chain serving start begun spares j)
        (λ n small.
          reconcile_hot_history-clean sv e top limits latest chain serving (Shown' j)
            (Shown'-kept j) (λ d h. h.0.1) _)
        (λ head changed above below. Triple-fact _ λ same. rw same (rest-serves j head above below))

  rounds-serve :
      (n j k : ℕ) → k ≡ n + j → Triple (Shown' j) (live_rounds sv e n start) (λ _. Shown' k) Never
  unfolding live_rounds
  rounds-serve zero j k total = let same : k ≡ j = omega arith in rw same (Triple-pure tt)
  rounds-serve (suc n) j k total =
      let rest = rounds-serve n (suc j) k (omega arith) in
      Triple-bind (live_round sv e start) _ _ (next_round-serves j) λ _. rest

  -- The block that is rolled back is not beyond the checkpoint.
  abbrev Reachable : ℕ → Database → Type 0
  Reachable n d = (c : ℕ) → LiveCheckpoint c d → n ≤ c

  Unbroken-Mends : Mends sv top Reachable (Unbroken low')
  Unbroken-Mends = record {
    kept = λ t d whole. Unbroken-spared low' d _ (spares t d) whole;
    at_kept = λ n t d reach c at. reach c (sym (spares t d).checkpoint ∙ at);
    seen = λ n h d inv found c at.
        let same : inv.cp ≡ c = one_live inv.cp c d inv.checkpoint at in
        let (m, eq, le) = inv.bounded (pos n) h found in ground arith;
    back = λ n d small inv reach whole.
        let room : top + 2 * block_partition_size < i64_limit = limits.room in
        hot_rolled_back-Unbroken low' n inv.cp d (omega arith) positive inv.checkpoint
          (reach inv.cp inv.checkpoint) whole;
  }

  -- A lane that left the chain within the window.
  abbrev Recent : Database → Type 0
  Recent d =
      HotSeen sv e top limits latest chain serving (suc latest)
        (window sv e top limits latest chain serving start) d
      × Unbroken low' d

  Recent-kept : (t : ℕ) (d : Database) → Recent d → Recent (sv.others t d)
  Recent-kept t d (seen, whole) = (
    HotSeen-kept sv e top limits latest chain serving (suc latest) _ t d seen,
    Unbroken-spared low' d _ (spares t d) whole,
  )

  started :
      (d : Database) → HotGood sv e top limits latest chain serving d × Unbroken low' d → Shown' 0 d
  started d (good, whole) = (good, whole, λ c at. omega arith)

  first_round-serves : Triple Recent (live_round sv e start) (λ _. Shown' 0) Never
  unfolding live_rest
  first_round-serves =
      live_round-serves sv e top limits latest chain serving Recent (Shown' 0) (λ _. Shown' 0) start
        Recent-kept
        (λ n small d (seen, whole). (
          pruned-HotSeen sv e top limits latest chain serving (suc latest) _ _ d seen,
          Unbroken-spared low' d _
              (pruned-Spares low' _ d (live_start_grows e start n top small)
                (low-fits sv e top limits latest chain serving start begun spares))
              whole,
        ))
        (λ n small.
          Triple-weaken _ (λ d h. h) (λ a d h. started d h)
            (reconcile_hot_history-HotGood sv e top limits latest chain serving Reachable
              (Unbroken low') Unbroken-Mends start n small))
        first_rest
    where
      first_rest :
          (head : ℕ) (changed : Bool)
          → latest ≤ head
          → head ≤ top
          → Triple
              (Shown' 0)
              (live_rest sv e (compute_live_start_block e start head) head changed)
              (λ _. Shown' 0)
              Never
      first_rest head true above below = Triple-pure reconciled
      first_rest head false above below =
          Triple-weaken _ (λ d h. h) (λ a d (fine, whole, _). started d (fine, whole))
            (rest-serves 0 head above below)

  run_live-serves : (n : ℕ) → Triple Recent (run_live sv e (suc n) start) (λ _. Shown' n) Never
  unfolding run_live live_rounds
  run_live-serves n =
      Triple-bind (on_host sv.others (get_live_checkpoint sv.answer)) _ (λ _. Recent)
        (get_live_checkpoint-serves sv e top limits latest chain serving (λ d h. h.0.0) Recent-kept)
        λ cp.
          Triple-bind (count _) _ (λ _. Recent) (Triple-count _)
            λ _.
              Triple-bind (live_round sv e start) _ (λ _. Shown' 0) first_round-serves
                λ _. rounds-serve n 0 n (omega arith)

  -- With heads from `latest` to `top`: while PostgreSQL answers, the provider fails no request more
  -- than `max_retries` times in a row, reports the blocks of one chain up to `top` and logs that
  -- belong to a block of the range, and the backfill worker leaves the live checkpoint and, from
  -- the window of `top` on, the hot lane alone: from a hot lane in order that has every block from
  -- that window up to its checkpoint, none above `latest`, and hashes that differ from those of the
  -- chain only in the window below `top` that is checked, `run_live` does not fail, and after one
  -- round more than there are blocks from the window of `latest` up to `latest`, each block from
  -- the window of `top` up to `latest` is in the hot lane, under its hash on the chain. The window
  -- of a head is that of compute_live_start_block; it does not start with block 0, and the start
  -- block is not above `latest`.
  pub run_live-CaughtUp :
      (rounds : ℕ) (w : World)
      → IsHot top w.host.database
      → StoredBelow (suc latest) w.host.database
      → HotOnBelow chain (max (top - (max e.reorg_lookback 1 - 1)) start) w.host.database
      → Unbroken (compute_live_start_block e start top) w.host.database
      → suc latest - compute_live_start_block e start latest < rounds
      → CaughtUp chain (compute_live_start_block e start top) latest (run_live sv e rounds start w)
  run_live-CaughtUp zero w inv below on whole many = absurd (omega arith)
  run_live-CaughtUp (suc n) w inv below on whole many =
      caught (run_live sv e (suc n) start w) ((run_live-serves n).at w ((inv, on, below), whole))
    where
      caught :
          (r : Result (Unit {0}) × World)
          → Post (λ _. Shown' n) Never r
          → CaughtUp chain low' latest r
      caught (ok u, w') ((inv', on'), whole', far) = record {
        result = refl;
        stored = λ m lo hi.
            let reach : latest ≤ inv'.cp =
              omega (arith, far inv'.cp inv'.checkpoint, live_start_below e start latest begun) in
            let (h, found) = whole' inv'.cp inv'.checkpoint m lo (omega (arith, reach)) in
            found ∙ ap some (on' m h found);
      }
      caught (err c, w') bad = absurd bad
