-- ===== src/Ingestion/Rounds.antt =====
-- The rounds of `run_backfill` of crates/ingestion/src/lib.rs while PostgreSQL and the provider
-- serve.
use rust_ethereum_indexer.Prelude.{
  ℕ, zero, suc, ◌+◌, ◌-◌, ◌≤◌, ◌<◌, Bool, true, false, ◌≡◌, refl, sym, ◌∙◌, arith, leb, pos,
  if◌then◌else◌, pure,
}
use mathlib.Core.Path.{subst}
use rust_ethereum_indexer.Storage.Tables.{Database}
use rust_ethereum_indexer.Storage.Calls.{get_checkpoint}
use rust_ethereum_indexer.World.{Services, Header, on_host, count}
use rust_ethereum_indexer.Rpc.Client.{get_latest_block_number}
use rust_ethereum_indexer.Ingestion.Engine.{BackfillEngine, finalized_validation_start}
use rust_ethereum_indexer.Ingestion.Steps.{reconcile_finalized_history}
use rust_ethereum_indexer.Ingestion.Workers.{
  reconciled, backfill_rest, backfill_round, backfill_rounds, run_backfill,
}
use rust_ethereum_indexer.Ingestion.Keeps.{
  Triple, Triple-pure, Triple-bind, Triple-fact, Triple-weaken, Triple-if, Triple-count,
}
use rust_ethereum_indexer.Ingestion.Total.{Never, Triple-responds, Triple-known}
use rust_ethereum_indexer.Ingestion.Serving.{IsServing}
use rust_ethereum_indexer.Ingestion.Finalized.{IsFinalized}
use rust_ethereum_indexer.Ingestion.Backfill.{Confirms}
use rust_ethereum_indexer.Ingestion.OnChain.{Checkpoint}
use rust_ethereum_indexer.Ingestion.Recovery.{
  Seen, Clean, get_checkpoint-serves, reconcile-Clean, reconcile-Good,
}
use rust_ethereum_indexer.Ingestion.Progress.{
  Fine, Far, Reached, Recent, Reached-kept, Recent-kept, one-Checkpoint, rest-serves,
}

module _ (sv : Services) (e : BackfillEngine) (start top : ℕ) (positive : 0 < start)
    (limits : Confirms sv e top) (latest : ℕ) (chain : ℕ → Header)
    (serving : IsServing sv e top latest chain) where
  abbrev pub Reached' : ℕ → Database → Type 0
  Reached' = Reached sv e start top positive limits latest chain serving

  abbrev pub Recent' : Database → Type 0
  Recent' = Recent sv e start top positive limits latest chain serving

  -- The part of a round before `backfill_rest`.
  round-serves :
      (P Q : Database → Type 0) (Mid : Bool → Database → Type 0)
      → ((d : Database) → P d → IsFinalized start top d)
      → ((t : ℕ) (d : Database) → P d → P (sv.others t d))
      → ((cp : ℕ)
          → cp ≤ top
          → Triple
              (λ d. Checkpoint cp d × P d)
              (if leb start cp then reconcile_finalized_history sv e start cp else pure false)
              Mid
              Never)
      → ((safe_head latest_block : ℕ) (changed : Bool)
          → latest - e.confirmation_depth ≤ safe_head
          → safe_head ≤ top
          → Triple
              (Mid changed)
              (backfill_rest sv e start safe_head latest_block changed)
              (λ _. Q)
              Never)
      → Triple P (backfill_round sv e start) (λ _. Q) Never
  unfolding backfill_round get_latest_block_number
  round-serves P Q Mid ordered kept reconcile rest =
      Triple-bind _ _ _ (Triple-responds e.max_retries sv.get_block_number serving.heads)
        λ latest_block. Triple-fact _ λ (t, replied).
          let up : latest ≤ latest_block = serving.reached t latest_block replied in
          let bounded = limits.confirmed t latest_block replied in
          Triple-bind (on_host sv.others (get_checkpoint sv.answer)) _ _
            (get_checkpoint-serves sv e start top positive limits latest chain serving ordered kept)
            λ cp.
              Triple-known _ (λ d h. small cp d (ordered d h.1) h.0)
                λ fits.
                  Triple-bind (count _) _ (λ _ d. Checkpoint cp d × P d) (Triple-count _)
                    λ _. Triple-bind _ _ Mid (reconcile cp fits) λ changed.
                      rest (latest_block - e.confirmation_depth) latest_block changed (omega arith)
                        bounded
    where
      small : (cp : ℕ) (d : Database) → IsFinalized start top d → Checkpoint cp d → cp ≤ top
      small cp d inv at =
          let same : inv.cp ≡ cp = ground (arith, inv.checkpoint) in omega (arith, inv.below)

  -- A lane on the chain is one block further, or caught up.
  next_round-serves :
      (j : ℕ) → Triple (Reached' j) (backfill_round sv e start) (λ _. Reached' (suc j)) Never
  next_round-serves j =
      round-serves (Reached' j) (Reached' (suc j)) (λ changed d. (changed ≡ false) × Reached' j d)
        (λ d h. h.0.0) (Reached-kept sv e start top positive limits latest chain serving j)
        (λ cp small.
          Triple-if (leb start cp) _ _
            (λ reached.
              Triple-known _ (λ d h. h.1.1 cp h.0)
                λ far.
                  Triple-weaken _ (λ d h. clean cp d h) (λ changed d h. (h.0, back cp d far h.1))
                    (reconcile-Clean sv e start top positive limits latest chain serving cp small
                      (ground arith)))
            (λ _. Triple-weaken (pure false) (λ d h. (refl, h.1)) (λ a d h. h) (Triple-pure false)))
        (λ safe_head latest_block changed final below. Triple-fact _ λ same. rw same (
          rest-serves sv e start top positive limits latest chain serving safe_head latest_block
            final below j))
    where
      clean :
          (cp : ℕ) (d : Database)
          → Checkpoint cp d × Reached' j d
          → Clean sv e start top positive limits latest chain serving cp d
      clean cp d (at, ((inv, on), far)) = (
        (
          inv,
          one-Checkpoint sv e start top positive limits latest chain serving cp inv.cp d at
              inv.checkpoint,
        ),
        on,
      )

      back :
          (cp : ℕ) (d : Database)
          → Far sv e start top positive limits latest chain serving j cp
          → Clean sv e start top positive limits latest chain serving cp d
          → Reached' j d
      back cp d far ((inv, same), on) = (
        (inv, on),
        λ c at.
            let eq : c ≡ cp =
              one-Checkpoint sv e start top positive limits latest chain serving c inv.cp d at
                inv.checkpoint
              ∙ sym same in
            rw eq far,
      )

  first_rest-serves :
      (safe_head latest_block : ℕ) (changed : Bool)
      → latest - e.confirmation_depth ≤ safe_head
      → safe_head ≤ top
      → Triple
          (Reached' 0)
          (backfill_rest sv e start safe_head latest_block changed)
          (λ _. Reached' 0)
          Never
  unfolding backfill_rest
  first_rest-serves safe_head latest_block true final below = Triple-pure reconciled
  first_rest-serves safe_head latest_block false final below =
      Triple-weaken _ (λ d h. h) (λ a d h. (h.0, λ c at. omega arith))
        (rest-serves sv e start top positive limits latest chain serving safe_head latest_block
          final below 0)

  -- A lane that left the chain within the window is on the chain afterwards.
  first_round-serves : Triple Recent' (backfill_round sv e start) (λ _. Reached' 0) Never
  first_round-serves =
      round-serves Recent' (Reached' 0) (λ changed. Reached' 0) (λ d h. h.0)
        (Recent-kept sv e start top positive limits latest chain serving)
        (λ cp small.
          Triple-if (leb start cp) _ _
            (λ reached.
              Triple-weaken _ (λ d h. seen cp d h) (λ changed d h. begun d h)
                (reconcile-Good sv e start top positive limits latest chain serving cp small
                  (ground arith)))
            (λ early.
              Triple-weaken (pure false) (λ d h. begun d (empty cp d (ground arith) h)) (λ a d h. h)
                (Triple-pure false)))
        first_rest-serves
    where
      begun :
          (d : Database) → Fine sv e start top positive limits latest chain serving d → Reached' 0 d
      begun d fine = (fine, λ c at. omega arith)

      seen :
          (cp : ℕ) (d : Database)
          → Checkpoint cp d × Recent' d
          → Seen sv e start top positive limits latest chain serving cp
              (finalized_validation_start e start cp)
              d
      seen cp d (at, (inv, on)) = (
        (
          inv,
          one-Checkpoint sv e start top positive limits latest chain serving cp inv.cp d at
              inv.checkpoint,
        ),
        on cp at,
      )

      empty :
          (cp : ℕ) (d : Database)
          → cp < start
          → Checkpoint cp d × Recent' d
          → Fine sv e start top positive limits latest chain serving d
      empty cp d early (at, (inv, on)) = (
        inv,
        λ n h found.
            let (m, _, lo, hi) = inv.bounded (pos n) h found in
            let same =
              one-Checkpoint sv e start top positive limits latest chain serving cp inv.cp d at
                inv.checkpoint in
            absurd (omega arith),
      )

  rounds-serve :
      (rounds j k : ℕ)
      → j + rounds ≡ k
      → Triple (Reached' j) (backfill_rounds sv e rounds start) (λ _. Reached' k) Never
  unfolding backfill_rounds
  rounds-serve zero j k sum =
      let same : j ≡ k = omega arith in
      Triple-weaken (pure tt) (λ d h. subst (λ k. Reached' k d) same h) (λ a d h. h)
        (Triple-pure tt)
  rounds-serve (suc n) j k sum =
      let rest = rounds-serve n (suc j) k (omega arith) in
      Triple-bind (backfill_round sv e start) _ _ (next_round-serves j) λ _. rest

  pub recent_rounds-serve :
      (n : ℕ) → Triple Recent' (run_backfill sv e (suc n) start) (λ _. Reached' n) Never
  unfolding run_backfill backfill_rounds
  recent_rounds-serve n =
      Triple-bind (on_host sv.others (get_checkpoint sv.answer)) _ _
        (get_checkpoint-serves sv e start top positive limits latest chain serving (λ d h. h.0)
          (Recent-kept sv e start top positive limits latest chain serving))
        λ cp.
          Triple-bind (count _) _ (λ _. Recent')
            (Triple-weaken _ (λ d h. h.1) (λ a d h. h) (Triple-count _))
            λ _.
              Triple-bind (backfill_round sv e start) _ _ first_round-serves
                λ _. rounds-serve n 0 n (omega arith)
