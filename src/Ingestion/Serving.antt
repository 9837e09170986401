-- ===== src/Ingestion/Serving.antt =====
-- The provider and PostgreSQL while they serve: `build_range_payload` of
-- crates/ingestion/src/lib.rs succeeds then, and its blocks are those of the chain.
use mathlib.Core.Option
use rust_ethereum_indexer.Prelude.{
  ℕ, zero, suc, ◌+◌, ◌-◌, ◌≤◌, ◌<◌, ◌≡◌, refl, ap, inl, inr, Bool-cases, Option-cases, Option, none,
  some, List, [], ◌∷◌, Bytes, ◌==◌, map, All, arith, Error, Result, ok, err, pure, as_i64,
}
use rust_ethereum_indexer.Prelude.Results.{ok_or, ◌>>=◌ as ◌>>=R◌}
use mathlib.Core.Path.{subst}
use rust_ethereum_indexer.Storage.Tables.{Database}
use rust_ethereum_indexer.Storage.Session.{reliable}
use rust_ethereum_indexer.Decoder.{Log, Erc20TransferEvent, decode_erc20_transfer}
use rust_ethereum_indexer.World.{Services, Header, Filter, read_clock}
use rust_ethereum_indexer.Rpc.Client.{
  BlockMetadata, with_retry, metadata_of, get_block_metadata, transfer_filter,
  fetch_erc20_transfer_logs,
}
use rust_ethereum_indexer.Rpc.Success.{Responds}
use rust_ethereum_indexer.Ingestion.Payload.{
  Gathered, get_collected, transfer_record, gather_event, gather_log, gather,
}
use rust_ethereum_indexer.Ingestion.Engine.{BackfillEngine, numbers_from, inclusive, address_filter}
use rust_ethereum_indexer.Ingestion.Steps.{
  fetch_block_metadata, fetch_all, fetch_block_metadata_range, build_range_payload,
}
use rust_ethereum_indexer.Ingestion.Keeps.{
  Triple, Triple-pure, Triple-bind, Triple-fact, Triple-weaken, Triple-clock,
}
use rust_ethereum_indexer.Ingestion.Total.{Triple-responds, Triple-lift_ok}

-- A log that answers the filter, and that belongs to a block: it is not pending.
pub record Wanted (f : Filter) (log : Log) : Type 0 where
  pub number : ℕ
  pub block_number : log.block_number ≡ some number
  pub not_before : f.from_block ≤ number
  pub not_after : number ≤ f.to_block
  pub txn_hash : Bytes
  pub transaction_hash : log.transaction_hash ≡ some txn_hash
  pub index : ℕ
  pub log_index : log.log_index ≡ some index

-- PostgreSQL answers. No request to the provider fails more than `max_retries` times in a row; up
-- to the block `top` it reports the blocks of `chain`, and its heads are at least `latest`.
pub record IsServing (sv : Services) (e : BackfillEngine) (top latest : ℕ) (chain : ℕ → Header)
    : Type 0 where
  pub answers : sv.answer ≡ reliable
  pub heads : Responds e.max_retries sv.get_block_number
  pub reached : (t n : ℕ) → sv.get_block_number t ≡ ok n → latest ≤ n
  pub blocks : (n : ℕ) → n ≤ top → Responds e.max_retries (sv.get_block_by_number n)
  pub on_chain :
      (t n : ℕ) (o : Option Header)
      → n ≤ top
      → sv.get_block_by_number n t ≡ ok o
      → o ≡ some (chain n)
  pub logs : (f : Filter) → Responds e.max_retries (sv.get_logs f)
  pub wanted : (f : Filter) (t : ℕ) (ls : List Log) → sv.get_logs f t ≡ ok ls → All (Wanted f) ls

-- `k` blocks of the chain from `s` on
abbrev pub chain_blocks : (ℕ → Header) → ℕ → ℕ → List BlockMetadata
chain_blocks chain s zero = []
chain_blocks chain s (suc k) = metadata_of s (chain s) ∷ chain_blocks chain (suc s) k

-- The map of the blocks has an entry for each of them.
collected :
    {A : Type 0} (f : BlockMetadata → A) (chain : ℕ → Header) (s k n : ℕ)
    → s ≤ n
    → n < s + k
    → (a : A) × (get_collected n (map (λ b. (b.number, f b)) (chain_blocks chain s k)) ≡ some a)
unfolding get_collected
collected f chain s zero n lo hi = absurd (omega arith)
collected f chain s (suc k) n lo hi = elim (Bool-cases (s == n)) [
  | inl here ↦
      elim (Option-cases
        (get_collected n (map (λ b. (b.number, f b)) (chain_blocks chain (suc s) k)))) [
          | inl e ↦ (f (metadata_of s (chain s)), rw (e, here) refl)
          | inr (a, e) ↦ (a, rw e refl)
        ]
  | inr apart ↦
      let (a, found) = collected f chain (suc s) k n (ground arith) (omega arith) in
      (a, rw found refl)
]

abbrev Makes : {A : Type 0} → Result A → Type 0
Makes {A} r = (a : A) × (r ≡ ok a)

Makes-bind :
    {A B : Type 0} (step : Result A) (next : A → Result B) (a : A)
    → step ≡ ok a
    → Makes (next a)
    → Makes (step >>=R next)
Makes-bind (ok b) next a e m = subst (λ a. Makes (next a)) (ground arith) m
Makes-bind (err c) next a e m = absurd (ground arith)

Makes-ok_or :
    {A B : Type 0} (o : Option A) (c : Error) (next : A → Result B) (a : A)
    → o ≡ some a
    → Makes (next a)
    → Makes (ok_or o c >>=R next)
Makes-ok_or o c next a e m = Makes-bind (ok_or o c) next a (ap (λ o. ok_or o c) e) m

module _ (chain : ℕ → Header) (s k : ℕ) where
  -- So the loop over the logs does not fail.
  transfer_record_made :
      (log : Log) (n : ℕ) (hash : Bytes) (event : Erc20TransferEvent)
      → s ≤ n
      → n < s + k
      → ((i : ℕ) × (log.log_index ≡ some i))
      → Makes (transfer_record (chain_blocks chain s k) log n hash event)
  unfolding transfer_record
  transfer_record_made log n hash event lo hi (i, index) =
      let (block_hash, found) = collected (λ b. b.hash) chain s k n lo hi in
      let (timestamp, known) = collected (λ b. as_i64 b.timestamp) chain s k n lo hi in
      Makes-ok_or _ _ _ _ found (Makes-ok_or _ _ _ _ index (Makes-ok_or _ _ _ _ known (_, refl)))

  gather_event_made :
      (log : Log) (n : ℕ) (g : Gathered) (event : Option Erc20TransferEvent)
      → s ≤ n
      → n < s + k
      → ((hash : Bytes) × (log.transaction_hash ≡ some hash))
      → ((i : ℕ) × (log.log_index ≡ some i))
      → Makes (gather_event (chain_blocks chain s k) log n g event)
  unfolding gather_event
  gather_event_made log n g none lo hi _ _ = (g, refl)
  gather_event_made log n g (some event) lo hi (hash, sent) index =
      let (r, made) = transfer_record_made log n hash event lo hi index in
      Makes-ok_or _ _ _ _ sent (Makes-bind _ _ _ made (_, refl))

  gather_log_made :
      (f : Filter) (log : Log) (g : Gathered)
      → s ≤ f.from_block
      → f.to_block < s + k
      → Wanted f log
      → Makes (gather_log (chain_blocks chain s k) log g)
  unfolding gather_log
  gather_log_made f log g lo hi w = Makes-ok_or _ _ _ _ w.block_number (
      gather_event_made log w.number g (decode_erc20_transfer log) (omega (arith, w.not_before))
        (omega (arith, w.not_after)) (w.txn_hash, w.transaction_hash) (w.index, w.log_index))

  gather_made :
      (f : Filter) (logs : List Log) (g : Gathered)
      → s ≤ f.from_block
      → f.to_block < s + k
      → All (Wanted f) logs
      → Makes (gather (chain_blocks chain s k) logs g)
  unfolding gather
  gather_made f [] g lo hi all = (g, refl)
  gather_made f (log ∷ logs) g lo hi all =
      let (g₁, first) = gather_log_made f log g lo hi all.0 in
      Makes-bind _ _ _ first (gather_made f logs g₁ lo hi all.1)

module _ {P E : Database → Type 0} (sv : Services) (e : BackfillEngine) (top latest : ℕ)
    (chain : ℕ → Header) (serving : IsServing sv e top latest chain) where
  pub fetch_block_metadata-serves :
      (n : ℕ)
      → n ≤ top
      → Triple P (fetch_block_metadata sv e n) (λ b d. (b ≡ metadata_of n (chain n)) × P d) E
  unfolding fetch_block_metadata get_block_metadata
  fetch_block_metadata-serves n small =
      Triple-bind _ _ (λ o d. (o ≡ some (metadata_of n (chain n))) × P d)
        (Triple-bind (with_retry e.max_retries (sv.get_block_by_number n)) _ _
          (Triple-responds e.max_retries (sv.get_block_by_number n) (serving.blocks n small))
          (λ o. Triple-fact _ λ (t, replied).
            let known : o ≡ some (chain n) = serving.on_chain t n o small replied in
            Triple-weaken (pure _) (λ d p. (ap (Option.map (metadata_of n)) known, p)) (λ a d q. q)
              (Triple-pure _)))
        (λ o. Triple-fact _ λ known.
          rw known (Triple-weaken (pure _) (λ d p. (refl, p)) (λ a d q. q) (Triple-pure _)))

  fetch_all-serves :
      (s k : ℕ)
      → s + k ≤ suc top
      → Triple P (fetch_all sv e (numbers_from s k)) (λ bs d. (bs ≡ chain_blocks chain s k) × P d) E
  unfolding fetch_all numbers_from
  fetch_all-serves s zero small =
      Triple-weaken (pure []) (λ d p. (refl, p)) (λ a d q. q) (Triple-pure _)
  fetch_all-serves s (suc k) small =
      let rest = fetch_all-serves (suc s) k (omega arith) in
      Triple-bind (fetch_block_metadata sv e s) _ _ (fetch_block_metadata-serves s (omega arith))
        λ b. Triple-fact _ λ first.
          Triple-bind (fetch_all sv e (numbers_from (suc s) k)) _ _ rest λ bs.
            Triple-fact _ λ others.
              rw (first, others)
                (Triple-weaken (pure _) (λ d p. (refl, p)) (λ a d q. q) (Triple-pure _))

  pub build_range_payload-serves :
      (s c : ℕ)
      → s ≤ c
      → c ≤ top
      → Triple P
          (build_range_payload sv e s c)
          (λ b d. (b.payload.block_metadata ≡ chain_blocks chain s (suc c - s)) × P d)
          E
  unfolding build_range_payload fetch_block_metadata_range fetch_erc20_transfer_logs
  build_range_payload-serves s c le small =
      Triple-bind (read_clock sv.instant) _ (λ _. P) (Triple-clock _)
        λ t₀.
          Triple-bind (fetch_all sv e (inclusive s c)) _ _
            (fetch_all-serves s (suc c - s) (omega arith))
            λ bs. Triple-fact _ λ fetched.
              Triple-bind (read_clock sv.instant) _ (λ _. P) (Triple-clock _)
                λ t₁.
                  Triple-bind (with_retry e.max_retries _) _ _
                    (Triple-responds e.max_retries _
                      (serving.logs (transfer_filter s c (address_filter e.contract_address))))
                    λ logs. Triple-fact _ λ (t, replied).
                      Triple-bind (read_clock sv.instant) _ (λ _. P) (Triple-clock _)
                        λ t₂. rw fetched (
                          let (g, made) =
                            gather_made chain s (suc c - s)
                              (transfer_filter s c (address_filter e.contract_address)) logs
                              (record { records = []; unique_transactions = [] }) (omega arith)
                              (omega arith)
                              (serving.wanted
                                (transfer_filter s c (address_filter e.contract_address)) t logs
                                replied) in
                          Triple-bind _ _ _ (Triple-lift_ok _ g made) λ g. Triple-fact _ λ _.
                            Triple-bind (read_clock sv.instant) _ (λ _. P) (Triple-clock _)
                              λ t₃.
                                Triple-weaken (pure _) (λ d p. (refl, p)) (λ a d q. q)
                                  (Triple-pure _))
