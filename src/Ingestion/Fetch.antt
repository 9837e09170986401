-- ===== src/Ingestion/Fetch.antt =====
-- What the client and `build_range_payload` give, whatever the provider answers; none of it writes.
use mathlib.Core.Option
use rust_ethereum_indexer.Prelude.{
  pos, bytes_eq, bytes_eq_refl, arith, ℕ, zero, suc, ◌+◌, true, false, ◌≡◌, refl, Option, none,
  some, List, [], ◌∷◌, ltb, All, Error, Result, ok, err, block_not_found, Bytes, Exec, pure, raise,
  lift, ◌>>=◌, ◌>>◌,
}
use rust_ethereum_indexer.Storage.Tables.{BlockRow, Database, select_hash}
use rust_ethereum_indexer.Decoder.{Log}
use rust_ethereum_indexer.World.{Services, World, Header, Filter, count, ask, read_clock}
use rust_ethereum_indexer.Observability.Metrics.{record_rpc_result, record_rpc_retry}
use rust_ethereum_indexer.Rpc.Client.{
  BlockMetadata, after_attempt, attempt_of, retry_loop, with_retry, metadata_of, get_block_metadata,
  fetch_erc20_transfer_logs, transfer_filter,
}
use rust_ethereum_indexer.Ingestion.Payload.{RangePayload, indexed_blocks_of, gather}
use rust_ethereum_indexer.Ingestion.Engine.{BackfillEngine, inclusive, address_filter, found_or}
use rust_ethereum_indexer.Ingestion.ChainLogs.{AsksFor, transfer_filter-AsksFor}
use rust_ethereum_indexer.Ingestion.Steps.{
  fetch_block_metadata, fetch_all, fetch_block_metadata_range, build_range_payload,
}
use rust_ethereum_indexer.Ingestion.Keeps.{
  Triple, Triple-pure, Triple-raise, Triple-bind, Triple-fact, Triple-weaken, Triple-if,
  Triple-count, Triple-clock, Triple-lift,
}
use rust_ethereum_indexer.Ingestion.Gather.{FromBlocks, gather-FromBlocks}

-- Some request gave `a`.
abbrev pub Replied : {A : Type 0} → (ℕ → Result A) → A → Type 0
Replied op a = (t : ℕ) × (op t ≡ ok a)

-- The provider reported this hash and this time for the block.
abbrev pub Reported : Services → BlockMetadata → Type 0
Reported sv b =
    (header : Header) × Replied (sv.get_block_by_number b.number) (some header)
    × (b.hash ≡ header.hash)
    × (b.timestamp ≡ header.timestamp)

-- The provider reported the block, and it is not stored under the hash that it reported.
abbrev pub Differs : Services → ℕ → List BlockRow → Type 0
Differs sv n rows =
    (b : BlockMetadata) × (b.number ≡ n)
    × Reported sv b
    × ((h : Bytes) → select_hash (pos n) rows ≡ some h → ¬ (h ≡ b.hash))

pub bytes_eq-apart : (h h' : Bytes) → bytes_eq h h' ≡ false → ¬ (h ≡ h')
bytes_eq-apart h h' differs same =
    let refl_eq = bytes_eq_refl h' in absurd (ground (arith, differs, same, refl_eq))

abbrev pub Fetched : Services → List ℕ → List BlockMetadata → Type 0
Fetched sv [] [] = Unit
Fetched sv (n ∷ ns) (b ∷ bs) = (b.number ≡ n) × Reported sv b × Fetched sv ns bs
Fetched sv _ _ = ⊥

-- What a payload is made of.
pub record Builds (sv : Services) (e : BackfillEngine) (start_block end_block : ℕ)
    (p : RangePayload) : Type 0 where
  pub fetched : Fetched sv (inclusive start_block end_block) p.block_metadata
  pub indexed : p.indexed_blocks ≡ indexed_blocks_of p.block_metadata
  pub records : All (FromBlocks p.block_metadata) p.transfer_records
  pub logs : List Log
  pub filter : Filter
  pub asks : AsksFor e start_block end_block filter
  pub asked : Replied (sv.get_logs filter) logs
  pub unique_transactions : List Bytes
  pub gathered :
      gather p.block_metadata logs (record { records = []; unique_transactions = [] })
      ≡ ok (record { records = p.transfer_records; unique_transactions = unique_transactions })

module _ {P E : Database → Type 0} (safe : (d : Database) → P d → E d) where
  attempt-Triple :
      {A : Type 0} (op : ℕ → Result A)
      → Triple P (attempt_of (ask op)) (λ r d. ((a : A) → r ≡ ok a → Replied op a) × P d) E
  unfolding ask
  attempt-Triple op = record { at = λ w h. (λ a e. (w.time, e), h) }

  after_attempt-Triple :
      {A : Type 0} (op : ℕ → Result A) (m attempt : ℕ) (retry : Exec World A) (r : Result A)
      → Triple P retry (λ a d. Replied op a × P d) E
      → ((a : A) → r ≡ ok a → Replied op a)
      → Triple P (after_attempt m attempt retry r) (λ a d. Replied op a × P d) E
  after_attempt-Triple op m attempt retry (ok a) again replied =
      Triple-bind (count (record_rpc_result true)) _ (λ _. P) (Triple-count _)
        (λ _. Triple-weaken (pure a) (λ d h. (replied a refl, h)) (λ a d h. h) (Triple-pure a))
  after_attempt-Triple op m attempt retry (err c) again replied =
      Triple-bind (count (record_rpc_result false)) _ (λ _. P) (Triple-count _)
        (λ _.
          Triple-if (ltb m attempt) (raise c) (count record_rpc_retry >> retry)
            (λ _. Triple-weaken (raise c) safe (λ a d h. h) (Triple-raise c))
            (λ _. Triple-bind (count record_rpc_retry) _ (λ _. P) (Triple-count _) (λ _. again)))

  retry-Triple :
      {A : Type 0} (fuel max_retries attempt : ℕ) (op : ℕ → Result A)
      → Triple P (retry_loop fuel max_retries attempt op) (λ a d. Replied op a × P d) E
  unfolding retry_loop
  retry-Triple zero m attempt op = Triple-weaken (raise _) safe (λ a d h. h) (Triple-raise _)
  retry-Triple (suc fuel) m attempt op =
      let again = retry-Triple fuel m (attempt + 1) op in
      Triple-bind (attempt_of (ask op)) _ _ (attempt-Triple op) (λ r.
        Triple-fact (after_attempt m (attempt + 1) (retry_loop fuel m (attempt + 1) op) r)
          (after_attempt-Triple op m (attempt + 1) _ r again))

  pub with_retry-Triple :
      {A : Type 0} (max_retries : ℕ) (op : ℕ → Result A)
      → Triple P (with_retry max_retries op) (λ a d. Replied op a × P d) E
  unfolding with_retry
  with_retry-Triple m op = retry-Triple (suc m) m 0 op

  module _ (sv : Services) (e : BackfillEngine) where
    found_or-Triple :
        (n : ℕ) (c : Error) (o : Option Header)
        → Replied (sv.get_block_by_number n) o
        → Triple P
            (found_or c (Option.map (metadata_of n) o))
            (λ b d. ((b.number ≡ n) × Reported sv b) × P d)
            E
    found_or-Triple n c none h = Triple-weaken (raise c) safe (λ a d h. h) (Triple-raise c)
    found_or-Triple n c (some header) h =
        Triple-weaken (pure _) (λ d p. ((refl, (header, h, refl, refl)), p)) (λ a d h. h)
          (Triple-pure _)

    pub fetch_block_metadata-Triple :
        (n : ℕ)
        → Triple P (fetch_block_metadata sv e n) (λ b d. ((b.number ≡ n) × Reported sv b) × P d) E
    unfolding fetch_block_metadata get_block_metadata
    fetch_block_metadata-Triple n =
        Triple-bind _ _
          (λ o d.
            ((h : Option Header) × (o ≡ Option.map (metadata_of n) h)
              × Replied (sv.get_block_by_number n) h)
            × P d)
          (Triple-bind (with_retry e.max_retries (sv.get_block_by_number n)) _ _
            (with_retry-Triple e.max_retries (sv.get_block_by_number n))
            (λ h.
              Triple-weaken (pure _) (λ d p. ((h, refl, p.0), p.1)) (λ a d q. q) (Triple-pure _)))
          (λ o.
            Triple-fact (found_or (block_not_found n) o)
              (λ (h, same, replied). rw same (found_or-Triple n (block_not_found n) h replied)))

    fetch_all-Triple :
        (ns : List ℕ) → Triple P (fetch_all sv e ns) (λ bs d. Fetched sv ns bs × P d) E
    unfolding fetch_all
    fetch_all-Triple [] = Triple-weaken (pure _) (λ d p. (tt, p)) (λ a d q. q) (Triple-pure _)
    fetch_all-Triple (n ∷ ns) =
        let rest = fetch_all-Triple ns in
        Triple-bind (fetch_block_metadata sv e n) _ _ (fetch_block_metadata-Triple n) (λ b.
          Triple-fact (fetch_all sv e ns >>= λ bs. pure (b ∷ bs)) (λ (at, reported).
            Triple-bind (fetch_all sv e ns) _ _ rest (λ bs.
              Triple-weaken (pure (b ∷ bs)) (λ d p. ((at, reported, p.0), p.1)) (λ a d q. q)
                (Triple-pure _))))

    pub build_range_payload-Triple :
        (s c : ℕ)
        → Triple P (build_range_payload sv e s c) (λ b d. Builds sv e s c b.payload × P d) E
    unfolding build_range_payload fetch_block_metadata_range fetch_erc20_transfer_logs
    build_range_payload-Triple s c =
        Triple-bind (read_clock sv.instant) _ (λ _. P) (Triple-clock _)
          λ t₀.
            Triple-bind (fetch_all sv e (inclusive s c)) _ _ (fetch_all-Triple (inclusive s c))
              λ bs. Triple-fact _ λ fetched.
                Triple-bind (read_clock sv.instant) _ (λ _. P) (Triple-clock _)
                  λ t₁.
                    Triple-bind (with_retry e.max_retries _) _ _ (with_retry-Triple e.max_retries _)
                      λ logs. Triple-fact _ λ replied.
                        Triple-bind (read_clock sv.instant) _ (λ _. P) (Triple-clock _)
                          λ t₂.
                            Triple-bind
                              (lift (
                                gather bs logs (record { records = []; unique_transactions = [] })))
                              _ _ (Triple-lift safe _)
                              λ g. Triple-fact _ λ gathered.
                                Triple-bind (read_clock sv.instant) _ (λ _. P) (Triple-clock _)
                                  λ t₃.
                                    Triple-weaken (pure _)
                                      (λ d p. (
                                        record {
                                          fetched = fetched;
                                          indexed = refl;
                                          records = gather-FromBlocks bs logs _ g gathered tt;
                                          logs = logs;
                                          filter =
                                              transfer_filter s c
                                                (address_filter e.contract_address);
                                          asks = transfer_filter-AsksFor e s c;
                                          asked = replied;
                                          unique_transactions = g.unique_transactions;
                                          gathered = gathered;
                                        },
                                        p,
                                      ))
                                      (λ a d q. q) (Triple-pure _)
