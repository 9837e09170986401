-- ===== src/Ingestion/GatherRows.antt =====
-- What the loop over the logs of `build_range_payload` gathers, for blocks of the chain: the row of
-- each log that is a transfer, and no other.
use mathlib.Core.Path.{subst}
use rust_ethereum_indexer.Prelude.{
  ℕ, zero, suc, ◌+◌, ◌≤◌, ◌<◌, ◌≡◌, refl, sym, ap, ◌∙◌, Option, none, some, List, [], ◌∷◌, ◌++◌,
  Bytes, ◌==◌, map, arith, as_i64, as_i64-eq_pos, i64_limit, ok, missing_field, Bool-cases,
  Option-cases, ◌⊎◌, inl, inr, In, In-pushed, pushed_old, pushed_new,
}
use rust_ethereum_indexer.Prelude.Results.{ok_or}
use rust_ethereum_indexer.Storage.Tables.{Transfer}
use rust_ethereum_indexer.Decoder.{Log, Erc20TransferEvent, decode_erc20_transfer}
use rust_ethereum_indexer.World.{Header}
use rust_ethereum_indexer.Rpc.Client.{BlockMetadata, metadata_of}
use rust_ethereum_indexer.Ingestion.Payload.{
  Gathered, get_collected, block_hashes, block_timestamps, transfer_record, gather_event,
  gather_log, gather,
}
use rust_ethereum_indexer.Ingestion.Gather.{steps_of}
use rust_ethereum_indexer.Ingestion.Serving.{chain_blocks}
use rust_ethereum_indexer.Ingestion.ChainLogs.{IsRowOf}

-- What the map of the blocks knows is of the chain.
collected_of :
    {A : Type 0} (f : BlockMetadata → A) (chain : ℕ → Header) (s k n : ℕ) (a : A)
    → get_collected n (map (λ b. (b.number, f b)) (chain_blocks chain s k)) ≡ some a
    → (s ≤ n) × (n < s + k) × (a ≡ f (metadata_of n (chain n)))
unfolding get_collected
collected_of f chain s zero n a found = absurd (ground arith)
collected_of {A} f chain s (suc k) n a found =
    elim (Option-cases
      (get_collected n (map (λ b. (b.number, f b)) (chain_blocks chain (suc s) k)))) [
        | inr (b, later) ↦
            let same : b ≡ a = ground arith in
            let (lo, hi, of_chain) = collected_of f chain (suc s) k n b later in
            (omega arith, omega arith, sym same ∙ of_chain)
        | inl nothing ↦ elim (Bool-cases (s == n)) [
          | inl here ↦
              let e : s ≡ n = ground arith in
              let of_s : f (metadata_of s (chain s)) ≡ a = ground arith in
              (omega arith, omega arith, sym of_s ∙ ap (λ (n : ℕ). f (metadata_of n (chain n))) e)
          | inr apart ↦ absurd (ground arith)
        ]
      ]

-- `r` is the row of the log, which belongs to one of the blocks.
pub record IsRowIn (chain : ℕ → Header) (s k : ℕ) (log : Log) (r : Transfer) : Type 0 where
  pub number : ℕ
  pub block_number : log.block_number ≡ some number
  pub from_first : s ≤ number
  pub to_last : number < s + k
  pub is_row : IsRowOf (chain number) number log r

module _ (chain : ℕ → Header) (s k : ℕ) (fits : s + k ≤ i64_limit) where
  abbrev bs : List BlockMetadata
  bs = chain_blocks chain s k

  transfer_record-IsRowIn :
      (log : Log) (n : ℕ) (hash : Bytes) (event : Erc20TransferEvent) (r : Transfer)
      → log.block_number ≡ some n
      → log.transaction_hash ≡ some hash
      → decode_erc20_transfer log ≡ some event
      → transfer_record bs log n hash event ≡ ok r
      → IsRowIn chain s k log r
  unfolding transfer_record
  transfer_record-IsRowIn log n hash event r at sent decoded made =
      let (block_hash, first, more) =
        steps_of _ _ (ok_or (get_collected n (block_hashes bs)) (missing_field "block_hash"))
          made in
      let (index, second, last) =
        steps_of _ _ (ok_or log.log_index (missing_field "log_index")) more in
      let (timestamp, third, end) =
        steps_of _ _ (ok_or (get_collected n (block_timestamps bs)) (missing_field "timestamp"))
          last in
      let (lo, hi, is_hash) = collected_of (λ b. b.hash) chain s k n block_hash (ground arith) in
      let (_, _, is_time) =
        collected_of (λ b. as_i64 b.timestamp) chain s k n timestamp (ground arith) in
      record {
        number = n;
        block_number = at;
        from_first = lo;
        to_last = hi;
        is_row = record {
          event = event;
          decoded = decoded;
          txn_hash = hash;
          transaction_hash = sent;
          index = index;
          log_index = ground arith;
          row = rw (← as_i64-eq_pos n (omega arith), ← is_hash, ← is_time) (ground arith);
        };
      }

  -- From `g` to `g'` the rows of these logs have been added, and no others.
  pub record Gathers (logs : List Log) (g g' : Gathered) : Type 0 where
    pub old : (r : Transfer) → In r g.records → In r g'.records
    pub only :
        (r : Transfer)
        → In r g'.records
        → In r g.records ⊎ ((log : Log) × In log logs × IsRowIn chain s k log r)
    pub all :
        (log : Log) (event : Erc20TransferEvent)
        → In log logs
        → decode_erc20_transfer log ≡ some event
        → (r : Transfer) × In r g'.records × IsRowIn chain s k log r

  -- A log that is no transfer adds nothing.
  skipped : (log : Log) (g : Gathered) → decode_erc20_transfer log ≡ none → Gathers (log ∷ []) g g
  skipped log g undecoded = record {
    old = λ r at. at;
    only = λ r at. inl at;
    all = λ l event at decoded. absurd (other l event at decoded);
  }
    where
      other :
          (l : Log) (event : Erc20TransferEvent)
          → In l (log ∷ [])
          → decode_erc20_transfer l ≡ some event
          → ⊥
      other l event (inl same) decoded = ground arith
      other l event (inr nowhere) decoded = nowhere

  pushed :
      (log : Log) (g g' : Gathered) (r : Transfer)
      → g'.records ≡ g.records ++ r ∷ []
      → IsRowIn chain s k log r
      → Gathers (log ∷ []) g g'
  pushed log g g' r grown is_row = record {
    old = λ q at. rw grown (pushed_old g.records r q at);
    only = λ q at. one_more q (subst (λ rs. In q rs) grown at);
    all = λ l event at decoded. (r, rw grown (pushed_new g.records r), of_log l at);
  }
    where
      one_more :
          (q : Transfer)
          → In q (g.records ++ r ∷ [])
          → In q g.records ⊎ ((l : Log) × In l (log ∷ []) × IsRowIn chain s k l q)
      one_more q at = elim (In-pushed g.records r q at) [
        | inl old ↦ inl old
        | inr same ↦ inr (log, inl refl, subst (IsRowIn chain s k log) (sym same) is_row)
      ]

      of_log : (l : Log) → In l (log ∷ []) → IsRowIn chain s k l r
      of_log l (inl same) = subst (λ l. IsRowIn chain s k l r) (sym same) is_row
      of_log l (inr nowhere) = absurd nowhere

  gather_event-Gathers :
      (log : Log) (n : ℕ) (g g' : Gathered) (event : Option Erc20TransferEvent)
      → log.block_number ≡ some n
      → decode_erc20_transfer log ≡ event
      → gather_event bs log n g event ≡ ok g'
      → Gathers (log ∷ []) g g'
  unfolding gather_event
  gather_event-Gathers log n g g' none at undecoded made =
      let same : g ≡ g' = ground arith in
      subst (Gathers (log ∷ []) g) same (skipped log g undecoded)
  gather_event-Gathers log n g g' (some event) at decoded made =
      let (hash, sent, rest) =
        steps_of _ _ (ok_or log.transaction_hash (missing_field "transaction_hash")) made in
      let (r, is_made, end) = steps_of _ _ (transfer_record bs log n hash event) rest in
      pushed log g g' r (ground arith)
        (transfer_record-IsRowIn log n hash event r at (ground arith) decoded is_made)

  gather_log-Gathers :
      (log : Log) (g g' : Gathered) → gather_log bs log g ≡ ok g' → Gathers (log ∷ []) g g'
  unfolding gather_log
  gather_log-Gathers log g g' made =
      let (n, at, rest) =
        steps_of _ _ (ok_or log.block_number (missing_field "block_number")) made in
      gather_event-Gathers log n g g' (decode_erc20_transfer log) (ground arith) refl rest

  and_more :
      (log : Log) (logs : List Log) (g g₁ g' : Gathered)
      → Gathers (log ∷ []) g g₁
      → Gathers logs g₁ g'
      → Gathers (log ∷ logs) g g'
  and_more log logs g g₁ g' first rest = record {
    old = λ r at. rest.old r (first.old r at);
    only = λ r at. before r (rest.only r at);
    all = every;
  }
    where
      earlier :
          (r : Transfer)
          → In r g.records ⊎ ((l : Log) × In l (log ∷ []) × IsRowIn chain s k l r)
          → In r g.records ⊎ ((l : Log) × In l (log ∷ logs) × IsRowIn chain s k l r)
      earlier r (inl at) = inl at
      earlier r (inr (l, inl same, is_row)) = inr (l, inl same, is_row)
      earlier r (inr (l, inr nowhere, is_row)) = absurd nowhere

      before :
          (r : Transfer)
          → In r g₁.records ⊎ ((l : Log) × In l logs × IsRowIn chain s k l r)
          → In r g.records ⊎ ((l : Log) × In l (log ∷ logs) × IsRowIn chain s k l r)
      before r (inl at) = earlier r (first.only r at)
      before r (inr (l, at, is_row)) = inr (l, inr at, is_row)

      every :
          (l : Log) (event : Erc20TransferEvent)
          → In l (log ∷ logs)
          → decode_erc20_transfer l ≡ some event
          → (r : Transfer) × In r g'.records × IsRowIn chain s k l r
      every l event (inl same) decoded =
          let (r, at, is_row) = first.all l event (inl same) decoded in (r, rest.old r at, is_row)
      every l event (inr later) decoded = rest.all l event later decoded

  pub gather-Gathers :
      (logs : List Log) (g g' : Gathered) → gather bs logs g ≡ ok g' → Gathers logs g g'
  unfolding gather
  gather-Gathers [] g g' made =
      let same : g ≡ g' = ground arith in
      subst (Gathers [] g) same
        (record { old = λ r at. at; only = λ r at. inl at; all = λ l event at decoded. absurd at })
  gather-Gathers (log ∷ logs) g g' made =
      let (g₁, first, rest) = steps_of _ _ (gather_log bs log g) made in
      and_more log logs g g₁ g' (gather_log-Gathers log g g₁ first) (gather-Gathers logs g₁ g' rest)
