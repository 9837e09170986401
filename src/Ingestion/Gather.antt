-- ===== src/Ingestion/Gather.antt =====
-- The records that `build_range_payload` makes belong to the fetched blocks.
use rust_ethereum_indexer.Prelude.{
  sym, ==ℤ→eq, ℕ, suc, ◌+◌, ◌≤◌, ◌<◌, false, ◌≡◌, refl, ◌∙◌, Option, none, some, List, [], ◌∷◌,
  ◌++◌, Bytes, arith, length, ◌==◌, any_of, ℤ, pos, ◌==ℤ◌, as_i64, as_i64-eq_pos, i64_limit, All,
  Result, ok, err, missing_field, Bool-cases, inl, inr, Option-cases,
}
use rust_ethereum_indexer.Prelude.Results.{◌>>=◌, ok_or}
use rust_ethereum_indexer.Storage.Tables.{Transfer, select_hash, repeats}
use rust_ethereum_indexer.Storage.Effects.{bound_blocks}
use rust_ethereum_indexer.Decoder.{Log, Erc20TransferEvent, decode_erc20_transfer}
use rust_ethereum_indexer.Rpc.Client.{BlockMetadata}
use rust_ethereum_indexer.Ingestion.Payload.{
  Gathered, get_collected, block_hashes, transfer_record, gather_event, gather_log, gather,
  indexed_blocks_of,
}

-- The record's block is one of `blocks`, and it carries that block's hash.
pub record FromBlocks (blocks : List BlockMetadata) (r : Transfer) : Type 0 where
  pub number : ℕ
  pub number_eq : r.block_number ≡ as_i64 number
  pub hash_eq : get_collected number (block_hashes blocks) ≡ some r.block_hash

module _ {Found Value : Type 0} (next : Found → Result Value) (value : Value) where
  -- A chain that ends well did so at each of its two steps.
  pub steps_of :
      (step : Result Found)
      → (step >>= next) ≡ ok value
      → (found : Found) × (step ≡ ok found) × (next found ≡ ok value)
  steps_of (err failure) ends = cc
  steps_of (ok found) ends = (found, refl, ends)

-- One more record at the end, as `push` does.
All-pushed :
    (Fine : Transfer → Type 0) (records : List Transfer) (r : Transfer)
    → All Fine records
    → Fine r
    → All Fine (records ++ r ∷ [])
All-pushed Fine [] r all fine = (fine, tt)
All-pushed Fine (q ∷ records) r all fine = (all.0, All-pushed Fine records r all.1 fine)

module _ (blocks : List BlockMetadata) where
  transfer_record-FromBlocks :
      (log : Log) (n : ℕ) (hash : Bytes) (event : Erc20TransferEvent) (r : Transfer)
      → transfer_record blocks log n hash event ≡ ok r
      → FromBlocks blocks r
  unfolding transfer_record
  transfer_record-FromBlocks log n hash event r e = record {
    number = n;
    number_eq = ground arith;
    hash_eq = ground arith;
  }

  gather_event-FromBlocks :
      (log : Log) (n : ℕ) (g g' : Gathered) (event : Option Erc20TransferEvent)
      → gather_event blocks log n g event ≡ ok g'
      → All (FromBlocks blocks) g.records
      → All (FromBlocks blocks) g'.records
  unfolding gather_event
  gather_event-FromBlocks log n g g' none e h = let same : g ≡ g' = ground arith in rw (← same) h
  gather_event-FromBlocks log n g g' (some event) e h =
      let (hash, _, rest) =
        steps_of _ _ (ok_or log.transaction_hash (missing_field "transaction_hash")) e in
      let (r, made, end) = steps_of _ _ (transfer_record blocks log n hash event) rest in
      let grown : g'.records ≡ g.records ++ r ∷ [] = ground arith in
      rw grown (
        All-pushed (FromBlocks blocks) g.records r h
          (transfer_record-FromBlocks log n hash event r made))

  gather_log-FromBlocks :
      (log : Log) (g g' : Gathered)
      → gather_log blocks log g ≡ ok g'
      → All (FromBlocks blocks) g.records
      → All (FromBlocks blocks) g'.records
  unfolding gather_log
  gather_log-FromBlocks log g g' e h =
      let (n, _, rest) = steps_of _ _ (ok_or log.block_number (missing_field "block_number")) e in
      gather_event-FromBlocks log n g g' (decode_erc20_transfer log) rest h

  pub gather-FromBlocks :
      (logs : List Log) (g g' : Gathered)
      → gather blocks logs g ≡ ok g'
      → All (FromBlocks blocks) g.records
      → All (FromBlocks blocks) g'.records
  unfolding gather
  gather-FromBlocks [] g g' e h = let same : g ≡ g' = ground arith in rw (← same) h
  gather-FromBlocks (log ∷ logs) g g' e h =
      let (g₁, first, rest) = steps_of _ _ (gather_log blocks log g) e in
      gather-FromBlocks logs g₁ g' rest (gather_log-FromBlocks log g g₁ first h)

-- The blocks carry the numbers that were asked for, in order.
abbrev pub Numbered : ℕ → List BlockMetadata → Type 0
Numbered start [] = Unit
Numbered start (b ∷ bs) = (b.number ≡ start) × Numbered (suc start) bs

-- A hash that the map of the blocks knows is the one that goes into the blocks table.
pub get_collected-select_hash :
    (start : ℕ) (bs : List BlockMetadata) (n : ℕ) (hash : Bytes)
    → Numbered start bs
    → start + length bs ≤ i64_limit
    → get_collected n (block_hashes bs) ≡ some hash
    → (start ≤ n)
      × (n < start + length bs)
      × (select_hash (pos n) (bound_blocks (indexed_blocks_of bs)) ≡ some hash)
unfolding get_collected select_hash
get_collected-select_hash start [] n hash num fits e = cc
get_collected-select_hash start (b ∷ bs) n hash num fits e =
    let cast : as_i64 b.number ≡ pos b.number = as_i64-eq_pos b.number (omega (arith, num.0)) in
    elim (Option-cases (get_collected n (block_hashes bs))) [
      | inl missing ↦ rw cast (ground (arith, num.0))
      | inr (h, found) ↦
          let same : h ≡ hash = ground arith in
          let (lo, hi, kept) =
            get_collected-select_hash (suc start) bs n h num.1 (omega arith) found in
          rw cast (omega arith, omega arith, ground (arith, num.0))
    ]

-- Every number of the range is in the blocks table afterwards, and no other.
pub select_hash-within :
    (start : ℕ) (bs : List BlockMetadata) (z : ℤ) (hash : Bytes)
    → Numbered start bs
    → start + length bs ≤ i64_limit
    → select_hash z (bound_blocks (indexed_blocks_of bs)) ≡ some hash
    → (n : ℕ) × (z ≡ pos n) × (start ≤ n) × (n < start + length bs)
unfolding select_hash
select_hash-within start [] z hash num fits e = cc
select_hash-within start (b ∷ bs) z hash num fits e =
    let cast : as_i64 b.number ≡ pos b.number = as_i64-eq_pos b.number (omega (arith, num.0)) in
    elim (Bool-cases (as_i64 b.number ==ℤ z)) [
      | inl here ↦
          (b.number, sym (==ℤ→eq _ _ here) ∙ cast, omega (arith, num.0), omega (arith, num.0))
      | inr later ↦
          let (n, at, lo, hi) =
            select_hash-within (suc start) bs z hash num.1 (omega arith) (ground arith) in
          (n, at, omega arith, omega arith)
    ]

pub select_hash-stored :
    (start : ℕ) (bs : List BlockMetadata) (n : ℕ)
    → Numbered start bs
    → start + length bs ≤ i64_limit
    → start ≤ n
    → n < start + length bs
    → (hash : Bytes) × (select_hash (pos n) (bound_blocks (indexed_blocks_of bs)) ≡ some hash)
unfolding select_hash
select_hash-stored start [] n num fits lo hi = absurd (omega arith)
select_hash-stored start (b ∷ bs) n num fits lo hi =
    let cast : as_i64 b.number ≡ pos b.number = as_i64-eq_pos b.number (omega (arith, num.0)) in
    elim (Bool-cases (b.number == n)) [
      | inl here ↦ (b.hash, rw cast (ground arith))
      | inr later ↦
          let (h, found) =
            select_hash-stored (suc start) bs n num.1 (omega arith) (ground (arith, num.0))
              (omega arith) in
          (h, rw cast (ground arith))
    ]

not_repeated :
    (start k : ℕ) (bs : List BlockMetadata)
    → Numbered start bs
    → start + length bs ≤ i64_limit
    → k < start
    → any_of (λ r. r.0 ==ℤ pos k) (bound_blocks (indexed_blocks_of bs)) ≡ false
unfolding any_of
not_repeated start k [] num fits lt = refl
not_repeated start k (b ∷ bs) num fits lt =
    let cast : as_i64 b.number ≡ pos b.number = as_i64-eq_pos b.number (omega (arith, num.0)) in
    rw cast (ground (arith, num.0, not_repeated (suc start) k bs num.1 (omega arith)))

-- One statement never names a block twice.
pub repeats-Numbered :
    (start : ℕ) (bs : List BlockMetadata)
    → Numbered start bs
    → start + length bs ≤ i64_limit
    → repeats (bound_blocks (indexed_blocks_of bs)) ≡ false
unfolding repeats
repeats-Numbered start [] num fits = refl
repeats-Numbered start (b ∷ bs) num fits =
    let cast : as_i64 b.number ≡ pos b.number = as_i64-eq_pos b.number (omega (arith, num.0)) in
    rw cast (
      ground (
        arith,
        num.0,
        not_repeated (suc start) b.number bs num.1 (omega arith),
        repeats-Numbered (suc start) bs num.1,
      ))
