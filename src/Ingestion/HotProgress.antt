-- ===== src/Ingestion/HotProgress.antt =====
-- The rounds of `run_live` of crates/ingestion/src/lib.rs while PostgreSQL and the provider serve:
-- the hot lane grows to the head.
use rust_ethereum_indexer.Prelude.{
  ℕ, suc, ◌+◌, ◌-◌, ◌*◌, ◌≤◌, ◌<◌, min, max, ◌≡◌, refl, sym, ap, ◌∙◌, some, arith, pos, as_u64, leb,
  i64_limit, pure, add_sub_one-eq,
}
use rust_ethereum_indexer.Storage.Tables.{Database}
use rust_ethereum_indexer.Storage.Session.{Host, reliable}
use rust_ethereum_indexer.Storage.Statements.{block_partition_size, one_row}
use rust_ethereum_indexer.Storage.Calls.{get_live_checkpoint}
use rust_ethereum_indexer.Storage.Effects.{heated, pruned}
use rust_ethereum_indexer.Storage.Outcome.{Ends, Ends-execute, Ends-bind, Ends-pure}
use rust_ethereum_indexer.World.{Services, Header, on_host}
use rust_ethereum_indexer.Ingestion.Payload.{RangePayload}
use rust_ethereum_indexer.Ingestion.Engine.{BackfillEngine, compute_live_start_block}
use rust_ethereum_indexer.Ingestion.Workers.{
  processed, caught_up, block_batch_size, batch_end, heat_next,
}
use rust_ethereum_indexer.Ingestion.Keeps.{
  Triple, Triple-pure, Triple-bind, Triple-weaken, Triple-if,
}
use rust_ethereum_indexer.Ingestion.Total.{Never, Triple-ends}
use rust_ethereum_indexer.Ingestion.Serving.{IsServing}
use rust_ethereum_indexer.Ingestion.Hot.{IsHot, StoredBelow}
use rust_ethereum_indexer.Ingestion.Fetch.{Builds}
use rust_ethereum_indexer.Ingestion.Reports.{Fetched-Numbered}
use rust_ethereum_indexer.Ingestion.Live.{Heads}
use rust_ethereum_indexer.Ingestion.BackfillRun.{failing-Triple}
use rust_ethereum_indexer.Ingestion.HotStates.{HotGood, HotGood-kept, pruned-HotGood}
use rust_ethereum_indexer.Ingestion.HotFresh.{HotReady, process_hot_range-serves}
use rust_ethereum_indexer.Ingestion.Unbroken.{
  LiveCheckpoint, Unbroken, Spares, one_live, Unbroken-spared, pruned-Spares, heated-LiveCheckpoint,
  heated-Unbroken,
}

-- The first block of the window moves with the head.
pub live_start_grows :
    (e : BackfillEngine) (start n m : ℕ)
    → n ≤ m
    → compute_live_start_block e start n ≤ compute_live_start_block e start m
unfolding compute_live_start_block
live_start_grows e start n m le = omega arith

pub live_start_below :
    (e : BackfillEngine) (start n : ℕ) → start ≤ n → compute_live_start_block e start n ≤ n
unfolding compute_live_start_block
live_start_below e start n le = omega arith

module _ (sv : Services) (e : BackfillEngine) (top : ℕ) (limits : Heads sv top) (latest : ℕ)
    (chain : ℕ → Header) (serving : IsServing sv e top latest chain) (start : ℕ)
    (begun : start ≤ latest)
    (spares : (t : ℕ) (d : Database)
      → Spares (compute_live_start_block e start top) d (sv.others t d)) where
  -- The first block of the window of the lowest head, and of the highest one.
  abbrev pub first : ℕ
  first = compute_live_start_block e start latest

  abbrev pub low : ℕ
  low = compute_live_start_block e start top

  abbrev Fine : Database → Type 0
  Fine = HotGood sv e top limits latest chain serving

  -- On the chain and without gaps, and `j` blocks of the window are done, or all up to the head.
  abbrev Far : ℕ → ℕ → Type 0
  Far j cp = min (first + j) (suc latest) ≤ max (cp + 1) first

  abbrev pub Shown : ℕ → Database → Type 0
  Shown j d = Fine d × Unbroken low d × ((c : ℕ) → LiveCheckpoint c d → Far j c)

  pub latest_le_top : latest ≤ top
  latest_le_top =
      let (k, head, _, replied) = serving.heads 0 in
      let above = serving.reached _ head replied in
      let below = limits.heads _ head replied in omega (arith, above, below)

  pub low-fits : low < i64_limit
  low-fits =
      let room : top + 2 * block_partition_size < i64_limit = limits.room in
      omega (arith, live_start_below e start top (omega (arith, latest_le_top, begun)))

  spared : (j : ℕ) (d d' : Database) → Spares low d d' → Fine d' → Shown j d → Shown j d'
  spared j d d' same fine (_, whole, far) =
      (fine, Unbroken-spared low d d' same whole, λ c at. far c (sym same.checkpoint ∙ at))

  pub Shown-kept : (j t : ℕ) (d : Database) → Shown j d → Shown j (sv.others t d)
  Shown-kept j t d shown =
      spared j d _ (spares t d) (HotGood-kept sv e top limits latest chain serving t d shown.0)
        shown

  pub pruned-Shown :
      (j n : ℕ)
      → n ≤ top
      → (d : Database) → Shown j d
      → Shown j (pruned (compute_live_start_block e start n) d)
  pruned-Shown j n small d shown =
      spared j d _ (pruned-Spares low _ d (live_start_grows e start n top small) low-fits)
        (pruned-HotGood sv e top limits latest chain serving _ d shown.0) shown

  -- The checkpoint that is read stays, since only this worker moves it.
  pub read_live-serves :
      (j : ℕ)
      → Triple
          (Shown j)
          (on_host sv.others (get_live_checkpoint sv.answer))
          (λ cp d. LiveCheckpoint cp d × Shown j d)
          Never
  unfolding get_live_checkpoint as_u64
  read_live-serves j = rw serving.answers (
      Triple-ends sv.others _ (Shown-kept j) λ h shown.
        let inv = shown.0.0 in
        (as_u64 (pos inv.cp), h.database, read h inv, (at_read h.database inv, shown)))
    where
      read :
          (h : Host) (inv : IsHot top h.database)
          → Ends (get_live_checkpoint reliable h) (as_u64 (pos inv.cp)) h.database
      read h inv =
          Ends-bind _ _ h _ _ _ _
            (Ends-execute (λ db. one_row db.live_indexer_checkpoint db) h (pos inv.cp) h.database
              (rw inv.checkpoint refl))
            (λ h' e. rw (sym e) (Ends-pure _ h'))

      at_read : (d : Database) (inv : IsHot top d) → LiveCheckpoint (as_u64 (pos inv.cp)) d
      at_read d inv = inv.checkpoint ∙ ap some (ground (arith, inv.below))

  module _ (j cp head : ℕ) (above : latest ≤ head) (below : head ≤ top) (cp_le_top : cp ≤ top)
      (far : Far j cp) where
    abbrev next : ℕ
    next = max (cp + 1) (compute_live_start_block e start head)

    -- What is known when the range is committed, and what the commit makes of it.
    abbrev Before : Database → Type 0
    Before d = LiveCheckpoint cp d × Unbroken low d

    Before-kept : (t : ℕ) (d : Database) → Before d → Before (sv.others t d)
    Before-kept t d (at, whole) =
        ((spares t d).checkpoint ∙ at, Unbroken-spared low d _ (spares t d) whole)

    abbrev After : ℕ → Database → Type 0
    After c d = LiveCheckpoint c d × Unbroken low d

    heated-After :
        (c : ℕ)
        → next ≤ c
        → c ≤ top
        → (p : RangePayload) → Builds sv e next c p
        → (d : Database) → HotReady sv e top limits latest chain serving next d
        → Before d
        → After c (heated p.transfer_records p.indexed_blocks c d)
    heated-After c le small p built d ready (at, whole) =
        let room : top + 2 * block_partition_size < i64_limit = limits.room in
        let (numbered, counted) =
          Fetched-Numbered sv (suc c - next) next p.block_metadata built.fetched in
        let in_window = live_start_grows e start head top below in
        rw built.indexed (
          heated-LiveCheckpoint low next c cp p.block_metadata p.transfer_records d at whole
              (λ n lo lt. omega (arith, in_window)) numbered (omega (arith, counted)) (omega arith),
          heated-Unbroken low next c cp p.block_metadata p.transfer_records d at whole
              (λ n lo lt. omega (arith, in_window)) numbered (omega (arith, counted)) (omega arith),
        )

    pub heat_next-serves :
        Triple
          (λ d. LiveCheckpoint cp d × Shown j d)
          (heat_next sv e next head)
          (λ _. Shown (suc j))
          Never
    unfolding heat_next
    heat_next-serves =
        Triple-if (leb next head) _ _
          (λ within.
            let stop = end_bounds (ground arith) in
            Triple-bind _ _ (λ _. Shown (suc j))
              (failing-Triple _ _ (
                Triple-weaken _ ready
                  (λ u d (fine, (at, whole)). (fine, whole, ahead _ d stop.0 at))
                  (process_hot_range-serves sv e top limits latest chain serving Before
                    (After (batch_end next head)) Before-kept next (batch_end next head) head stop.0
                    stop.1 (heated-After (batch_end next head) stop.0 stop.1))))
              (λ _. Triple-pure processed))
          (λ beyond.
            Triple-weaken (pure caught_up)
              (λ d (at, shown). (shown.0, shown.1, done d (ground arith) at)) (λ a d h. h)
              (Triple-pure caught_up))
      where
        end_bounds : next ≤ head → (next ≤ batch_end next head) × (batch_end next head ≤ top)
        end_bounds inside =
            let room : top + 2 * block_partition_size < i64_limit = limits.room in
            omega (arith, add_sub_one-eq next block_batch_size (omega arith) (omega arith))

        ahead :
            (c : ℕ) (d : Database)
            → next ≤ c
            → LiveCheckpoint c d
            → (c' : ℕ) → LiveCheckpoint c' d
            → Far (suc j) c'
        ahead c d le at c' at' =
            let same : c' ≡ c = one_live c' c d at' at in
            omega (arith, far, live_start_grows e start latest head above)

        done :
            (d : Database)
            → head < next
            → LiveCheckpoint cp d
            → (c' : ℕ) → LiveCheckpoint c' d
            → Far (suc j) c'
        done d over at c' at' =
            let same : c' ≡ cp = one_live c' cp d at' at in
            omega (arith, live_start_below e start head (omega arith))

        ready :
            (d : Database)
            → LiveCheckpoint cp d × Shown j d
            → HotReady sv e top limits latest chain serving next d × Before d
        ready d (at, (((inv, on), whole, _))) = (((inv, on), beyond d inv at), (at, whole))
          where
            beyond : (d : Database) (inv : IsHot top d) → LiveCheckpoint cp d → StoredBelow next d
            beyond d inv at z h found =
                let same : inv.cp ≡ cp = one_live inv.cp cp d inv.checkpoint at in
                let (n, eq, le) = inv.bounded z h found in (n, eq, omega arith)
