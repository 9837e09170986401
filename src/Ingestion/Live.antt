-- ===== src/Ingestion/Live.antt =====
-- The steps of `run_live`: they keep the hot lane in order, whatever the provider reports and
-- whichever requests fail.
use rust_ethereum_indexer.Prelude.{
  as_i64-eq_pos, pos, sym, ap, ◌∙◌, ℕ, zero, suc, ◌+◌, ◌*◌, ◌≤◌, ◌<◌, Bool, true, false, ◌≡◌,
  Option, none, some, Bytes, bytes_eq, arith, ℤ, as_i64, as_u64, i64_limit, ok, Exec,
}
use rust_ethereum_indexer.Storage.Tables.{Database, select_hash}
use rust_ethereum_indexer.Storage.Statements.{
  block_partition_size, one_row, reads, get_block_hash_from_table,
}
use rust_ethereum_indexer.Storage.Calls.{
  get_live_checkpoint, get_hot_block_hash, rollback_hot_from_block, prune_hot_before_block,
}
use rust_ethereum_indexer.Storage.Atomic.{
  rollback_hot_from_block-Settles, prune_hot_before_block-Settles,
}
use rust_ethereum_indexer.Storage.Effects.{heated, hot_rolled_back, pruned}
use rust_ethereum_indexer.Observability.Metrics.{record_rollback, record_reorg_detected}
use rust_ethereum_indexer.World.{Services, World, on_host, count}
use rust_ethereum_indexer.Rpc.Client.{get_latest_block_number}
use rust_ethereum_indexer.Ingestion.Engine.{BackfillEngine, numbers_from, compute_live_start_block}
use rust_ethereum_indexer.Ingestion.Steps.{
  fetch_block_metadata, handle_hot_reorg, check_hot, revalidate_hot, reconcile_hot_history,
}
use rust_ethereum_indexer.Ingestion.Payload.{RangePayload}
use rust_ethereum_indexer.Ingestion.Backfill.{Plain}
use rust_ethereum_indexer.Ingestion.Keeps.{
  Steady, Triple, Triple-pure, Triple-bind, Triple-fact, Triple-weaken, Triple-if, Triple-count,
  Triple-read, Triple-read_map, Triple-settles,
}
use rust_ethereum_indexer.Ingestion.Fetch.{
  Builds, Reported, Differs, bytes_eq-apart, fetch_block_metadata-Triple, with_retry-Triple,
}
use rust_ethereum_indexer.Rpc.Client.{BlockMetadata}
use rust_ethereum_indexer.Ingestion.Writes.{
  FinalizedWrites, FinalizedWrites-IsHot, FinalizedWrites-AddsNone,
}
use rust_ethereum_indexer.Ingestion.Hot.{IsHot, StoredBelow, pruned-IsHot, hot_rolled_back-IsHot}

-- What the provider may report: no head beyond `top`, and block numbers that an `i64` holds with
-- two partitions to spare. Of the other clients of the server only the backfill worker writes.
pub record Heads (sv : Services) (top : ℕ) : Type 0 where
  pub heads : (t n : ℕ) → sv.get_block_number t ≡ ok n → n ≤ top
  pub room : top + 2 * block_partition_size < i64_limit
  pub alone : (t : ℕ) (d : Database) → FinalizedWrites top d (sv.others t d)

-- A condition on the hot lane that goes along with the invariant: the backfill worker keeps it, and
-- so do a rollback and the commit of a range beyond the stored blocks, with a payload that the
-- provider accounts for.
pub record HotCarries (sv : Services) (e : BackfillEngine) (top : ℕ) (G : Database → Type 0)
    : Type 0 where
  pub kept : (t : ℕ) (d : Database) → IsHot top d → G d → G (sv.others t d)
  pub back :
      (n : ℕ) (d : Database)
      → IsHot top d
      → n ≤ top
      → Differs sv n d.hot_indexed_blocks
      → G d
      → G (hot_rolled_back n d)
  pub grown :
      (s c : ℕ) (p : RangePayload)
      → Builds sv e s c p
      → (d : Database) → IsHot top d
      → StoredBelow s d
      → s ≤ c
      → c ≤ top
      → G d
      → G (heated p.transfer_records p.indexed_blocks c d)

-- The same for the prune at the window of a head that the provider has reported.
abbrev pub Cuts : Services → BackfillEngine → ℕ → ℕ → (Database → Type 0) → Type 0
Cuts sv e start top G =
    (t latest : ℕ) (d : Database)
    → sv.get_block_number t ≡ ok latest
    → IsHot top d
    → G d
    → G (pruned (compute_live_start_block e start latest) d)

pub hot_trivial : {sv : Services} {e : BackfillEngine} {top : ℕ} → HotCarries sv e top Plain
hot_trivial = record {
  kept = λ t d inv h. tt;
  back = λ n d inv small differs h. tt;
  grown = λ s c p built d inv below le small h. tt;
}

module _ (sv : Services) (e : BackfillEngine) (top : ℕ) (limits : Heads sv top) where
  abbrev pub HotInv : Database → Type 0
  HotInv = IsHot top

  -- The invariant, with the checkpoint that was read. The backfill worker may move the checkpoint
  -- after that, but it stores no block.
  abbrev pub HotAt : ℕ → Database → Type 0
  HotAt cp d = HotInv d × StoredBelow (cp + 1) d × (cp ≤ top)

  pub moved : (t : ℕ) (d : Database) → HotInv d → HotInv (sv.others t d)
  moved t d inv = FinalizedWrites-IsHot limits.room (limits.alone t d) inv

  pub moved_below : (s t : ℕ) (d : Database) → StoredBelow s d → StoredBelow s (sv.others t d)
  moved_below s t d below z h found =
      below z h (FinalizedWrites-AddsNone (limits.alone t d) z h found)

  live_row_reads :
      (d d' : Database) (z : ℤ) → one_row d.live_indexer_checkpoint d ≡ ok (z, d') → d' ≡ d
  live_row_reads d d' z h = ground arith

  read_live :
      (cp : ℕ) (d : Database) (inv : HotInv d) (z : ℤ)
      → one_row d.live_indexer_checkpoint d ≡ ok (z, d)
      → cp ≡ as_u64 z
      → cp ≡ inv.cp
  unfolding as_u64
  read_live cp d inv z read e = ground (arith, inv.checkpoint)

  at_read : (cp : ℕ) (d : Database) (inv : HotInv d) → cp ≡ inv.cp → HotAt cp d
  at_read cp d inv same = (inv, below, omega (arith, inv.below))
    where
      below : StoredBelow (cp + 1) d
      below z h found = let (n, at, hi) = inv.bounded z h found in (n, at, omega arith)

  pub get_hot_block_hash-Triple :
      {P E : Database → Type 0} (steady : Steady sv.others P E) (n : ℕ)
      → Triple P
          (on_host sv.others (get_hot_block_hash sv.answer n))
          (λ o d. (o ≡ select_hash (as_i64 n) d.hot_indexed_blocks) × P d)
          E
  unfolding get_hot_block_hash get_block_hash_from_table
  get_hot_block_hash-Triple steady n =
      Triple-weaken _ (λ d h. h) (λ o d (read, p). (ground arith, p))
        (Triple-read sv.others steady sv.answer
          (reads (λ d. select_hash (as_i64 n) d.hot_indexed_blocks)) (λ d d' a h. ground arith))

  module _ {G : Database → Type 0} (carries : HotCarries sv e top G) where
    -- The invariant and the condition that goes along, also with the checkpoint that was read.
    abbrev pub HotHeld : Database → Type 0
    HotHeld d = HotInv d × G d

    abbrev pub HotHeldAt : ℕ → Database → Type 0
    HotHeldAt cp d = HotAt cp d × G d

    HotHeld-Steady : Steady sv.others HotHeld HotHeld
    HotHeld-Steady = record {
      safe = λ d h. h;
      kept = λ t d (inv, g). (moved t d inv, carries.kept t d inv g);
    }

    pub get_live_checkpoint-Triple :
        Triple HotHeld (on_host sv.others (get_live_checkpoint sv.answer)) HotHeldAt HotHeld
    unfolding get_live_checkpoint
    get_live_checkpoint-Triple =
        Triple-weaken _ (λ d h. h)
          (λ cp d (read, (inv, g)). (at_read cp d inv (read_live cp d inv read.0 read.1 read.2), g))
          (Triple-read_map sv.others HotHeld-Steady sv.answer
            (λ d. one_row d.live_indexer_checkpoint d) as_u64 live_row_reads)

    pub prune_hot_before_block-Triple :
        (n : ℕ)
        → ((d : Database) → IsHot top d → G d → G (pruned n d))
        → Triple HotHeld
            (on_host sv.others (prune_hot_before_block sv.answer n))
            (λ _. HotHeld)
            HotHeld
    prune_hot_before_block-Triple n cuts =
        Triple-settles sv.others HotHeld-Steady (prune_hot_before_block sv.answer n) (λ _. tt)
          (pruned n) (λ h _. prune_hot_before_block-Settles sv.answer n h) cut cut
      where
        cut : (d : Database) → HotHeld d → HotHeld (pruned n d)
        cut d (inv, g) = (pruned-IsHot top limits.room n d inv, cuts d inv g)

    -- The block `n` is to be rolled back, unless the backfill worker has done so.
    abbrev Wrong : ℕ → Database → Type 0
    Wrong n d = Differs sv n d.hot_indexed_blocks × HotHeld d

    Wrong-Steady : (n : ℕ) → Steady sv.others (Wrong n) HotHeld
    Wrong-Steady n = record {
      safe = λ d h. h.1;
      kept = λ t d ((b, number, reported, differs), held). (
        (
          b,
          number,
          reported,
          λ h found. differs h (FinalizedWrites-AddsNone (limits.alone t d) (pos n) h found),
        ),
        HotHeld-Steady.kept t d held,
      );
    }

    handle_hot_reorg-Triple :
        (n : ℕ) → n ≤ top → Triple (Wrong n) (handle_hot_reorg sv e n) (λ _. HotHeld) HotHeld
    unfolding handle_hot_reorg
    handle_hot_reorg-Triple n small =
        Triple-bind (count record_rollback) _ (λ _. Wrong n) (Triple-count _)
          λ _.
            Triple-settles sv.others (Wrong-Steady n) (rollback_hot_from_block sv.answer n)
              (λ _. tt) (hot_rolled_back n) (λ h _. rollback_hot_from_block-Settles sv.answer n h)
              back back
      where
        back : (d : Database) → Wrong n d → HotHeld (hot_rolled_back n d)
        back d (differs, (inv, g)) = (
          hot_rolled_back-IsHot top limits.room n d inv small,
          carries.back n d inv small differs g,
        )

    -- The hash that was read is still the stored one, or none is.
    abbrev Seen : ℕ → Bytes → Database → Type 0
    Seen n hash d = (h : Bytes) → select_hash (pos n) d.hot_indexed_blocks ≡ some h → h ≡ hash

    SeenHeld-Steady :
        (n : ℕ) (hash : Bytes) → Steady sv.others (λ d. Seen n hash d × HotHeld d) HotHeld
    SeenHeld-Steady n hash = record {
      safe = λ d h. h.1;
      kept = λ t d (seen, held). (
        λ h found. seen h (FinalizedWrites-AddsNone (limits.alone t d) (pos n) h found),
        HotHeld-Steady.kept t d held,
      );
    }

    check_hot-Triple :
        (n : ℕ) (next : Exec World Bool) (o : Option Bytes)
        → n ≤ top
        → Triple HotHeld next (λ _. HotHeld) HotHeld
        → Triple
            (λ d. (o ≡ select_hash (as_i64 n) d.hot_indexed_blocks) × HotHeld d)
            (check_hot sv e n next o)
            (λ _. HotHeld)
            HotHeld
    check_hot-Triple n next none small rest = Triple-weaken _ (λ d h. h.1) (λ a d h. h) rest
    check_hot-Triple n next (some hash) small rest =
        Triple-bind (fetch_block_metadata sv e n) _ _
          (Triple-weaken _ (λ d (read, held). (seen d read, held)) (λ a d h. h)
            (fetch_block_metadata-Triple (SeenHeld-Steady n hash).safe sv e n))
          λ b. Triple-fact _ λ fetched.
            Triple-if (bytes_eq hash b.hash) _ _
              (λ _. Triple-weaken _ (λ d h. h.1) (λ a d h. h) rest)
              (λ differs.
                Triple-bind (count record_reorg_detected) _ (λ _. Wrong n)
                  (Triple-weaken _ (λ d (same, held). (wrong b fetched differs d same, held))
                    (λ a d h. h) (Triple-count _))
                  λ _.
                    Triple-bind (handle_hot_reorg sv e n) _ _ (handle_hot_reorg-Triple n small)
                      λ _. Triple-pure true)
      where
        seen :
            (d : Database) → some hash ≡ select_hash (as_i64 n) d.hot_indexed_blocks → Seen n hash d
        seen d read h found =
            let room : top + 2 * block_partition_size < i64_limit = limits.room in
            let at : some hash ≡ some h =
              read
              ∙ ap (λ z. select_hash z d.hot_indexed_blocks) (as_i64-eq_pos n (omega arith))
              ∙ found in
            ground arith

        wrong :
            (b : BlockMetadata)
            → (b.number ≡ n) × Reported sv b
            → bytes_eq hash b.hash ≡ false
            → (d : Database) → Seen n hash d
            → Differs sv n d.hot_indexed_blocks
        wrong b (number, reported) differs d same = (
          b,
          number,
          reported,
          λ h found eq. bytes_eq-apart hash b.hash differs (sym (same h found) ∙ eq),
        )

    revalidate_hot-Triple :
        (k n : ℕ)
        → (0 < k → n + k ≤ top + 1)
        → Triple HotHeld (revalidate_hot sv e (numbers_from n k)) (λ _. HotHeld) HotHeld
    unfolding revalidate_hot numbers_from
    revalidate_hot-Triple zero n small = Triple-pure false
    revalidate_hot-Triple (suc k) n small =
        let below : n + suc k ≤ top + 1 = small (omega arith) in
        let rest = revalidate_hot-Triple k (suc n) (λ more. omega arith) in
        Triple-bind (on_host sv.others (get_hot_block_hash sv.answer n)) _ _
          (get_hot_block_hash-Triple HotHeld-Steady n)
          λ o. check_hot-Triple n _ o (omega arith) rest

    pub reconcile_hot_history-Triple :
        (start : ℕ) → Triple HotHeld (reconcile_hot_history sv e start) (λ _. HotHeld) HotHeld
    unfolding reconcile_hot_history get_latest_block_number
    reconcile_hot_history-Triple start =
        Triple-bind _ _ _ (with_retry-Triple (λ d h. h) e.max_retries sv.get_block_number) λ latest.
          Triple-fact _ λ (t, replied).
            let small : latest ≤ top = limits.heads t latest replied in
            revalidate_hot-Triple _ _ (λ some_left. omega arith)
