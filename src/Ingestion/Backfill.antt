-- ===== src/Ingestion/Backfill.antt =====
-- `run_backfill` keeps the finalized lane in order, whatever the provider reports and whichever
-- requests fail.
use rust_ethereum_indexer.Prelude.{
  as_i64-eq_pos, pos, sym, ap, some, Bytes, Option, ℕ, zero, suc, ◌+◌, ◌-◌, ◌*◌, ◌≤◌, ◌<◌, max,
  true, false, ◌≡◌, ◌∙◌, arith, ℤ, as_i64, as_u64, i64_limit, ok,
}
use rust_ethereum_indexer.Storage.Tables.{Database, select_hash}
use rust_ethereum_indexer.Storage.Statements.{
  block_partition_size, one_row, reads, get_block_hash_from_table,
}
use rust_ethereum_indexer.Storage.Calls.{get_checkpoint, get_block_hash, rollback_from_block}
use rust_ethereum_indexer.Storage.Atomic.{rollback_from_block-Settles}
use rust_ethereum_indexer.Storage.Effects.{finalized, rolled_back}
use rust_ethereum_indexer.Observability.Metrics.{record_rollback, record_reorg_detected}
use rust_ethereum_indexer.World.{Services, on_host, count}
use rust_ethereum_indexer.Ingestion.Engine.{
  BackfillEngine, numbers_from, is_valid, finalized_validation_start,
}
use rust_ethereum_indexer.Ingestion.Steps.{
  fetch_block_metadata, handle_finalized_reorg, revalidate_finalized, reconcile_finalized_history,
}
use rust_ethereum_indexer.Rpc.Client.{BlockMetadata}
use rust_ethereum_indexer.Ingestion.Payload.{RangePayload}
use rust_ethereum_indexer.Ingestion.Keeps.{
  Steady, Triple, Triple-pure, Triple-bind, Triple-fact, Triple-weaken, Triple-if, Triple-count,
  Triple-read, Triple-read_map, Triple-settles,
}
use rust_ethereum_indexer.Ingestion.Fetch.{
  Builds, Reported, Differs, bytes_eq-apart, fetch_block_metadata-Triple,
}
use rust_ethereum_indexer.Ingestion.Finalized.{IsFinalized, rolled_back-IsFinalized}
use rust_ethereum_indexer.Ingestion.Writes.{LiveWrites, LiveWrites-SameFinalized, IsFinalized-moved}

-- What the provider may report: with `confirmation_depth` blocks taken off, no head beyond `top`,
-- and block numbers that an `i64` holds with two partitions to spare. Of the other clients of the
-- server only the live worker writes.
pub record Confirms (sv : Services) (e : BackfillEngine) (top : ℕ) : Type 0 where
  pub confirmed : (t n : ℕ) → sv.get_block_number t ≡ ok n → n - e.confirmation_depth ≤ top
  pub room : top + 2 * block_partition_size < i64_limit
  pub alone : (t : ℕ) (d : Database) → LiveWrites d (sv.others t d)

-- A condition on the finalized lane that goes along with the invariant: the live worker keeps it, a
-- rollback from a block that the checkpoint has reached, and that is not stored as the provider
-- reported it, keeps it, and so does the commit of the next
-- range, with a payload that the provider accounts for.
pub record Carries (sv : Services) (e : BackfillEngine) (start top : ℕ) (G : Database → Type 0)
    : Type 0 where
  pub kept : (t : ℕ) (d : Database) → G d → G (sv.others t d)
  pub back :
      (n : ℕ) (d : Database) (inv : IsFinalized start top d)
      → start ≤ n
      → n ≤ inv.cp
      → Differs sv n d.indexed_blocks
      → G d
      → G (rolled_back n d)
  pub grown :
      (s c : ℕ) (p : RangePayload)
      → Builds sv e s c p
      → (d : Database) (inv : IsFinalized start top d) → s ≡ max (inv.cp + 1) start
      → s ≤ c
      → c ≤ top
      → G d
      → G (finalized p.transfer_records p.indexed_blocks s c d)

-- The condition that always holds.
abbrev pub Plain : Database → Type 0
Plain d = Unit

pub plain : {sv : Services} {e : BackfillEngine} {start top : ℕ} → Carries sv e start top Plain
plain = record {
  kept = λ t d h. tt;
  back = λ n d inv lo hi differs h. tt;
  grown = λ s c p built d inv next le small h. tt;
}

module _ (sv : Services) (e : BackfillEngine) (start top : ℕ) (positive : 0 < start)
    (limits : Confirms sv e top) where
  abbrev pub Inv : Database → Type 0
  Inv = IsFinalized start top

  -- The invariant, with the checkpoint that was read.
  abbrev pub At : ℕ → Database → Type 0
  At cp d = (inv : Inv d) × (cp ≡ inv.cp)

  pub At-Inv : (cp : ℕ) (d : Database) → At cp d → Inv d
  At-Inv cp d h = h.0

  pub moved :
      (t : ℕ) (d : Database) (inv : Inv d) → (inv' : Inv (sv.others t d)) × (inv.cp ≡ inv'.cp)
  moved t d inv = IsFinalized-moved (LiveWrites-SameFinalized (limits.alone t d)) inv

  pub At-Steady : (cp : ℕ) → Steady sv.others (At cp) Inv
  At-Steady cp = record {
    safe = At-Inv cp;
    kept = λ t d (inv, same). let (inv', e) = moved t d inv in (inv', same ∙ e);
  }

  one_row_reads : (d d' : Database) (z : ℤ) → one_row d.indexer_checkpoint d ≡ ok (z, d') → d' ≡ d
  one_row_reads d d' z h = ground arith

  read_cp :
      (cp : ℕ) (d : Database) (inv : Inv d) (z : ℤ)
      → one_row d.indexer_checkpoint d ≡ ok (z, d)
      → cp ≡ as_u64 z
      → cp ≡ inv.cp
  unfolding as_u64
  read_cp cp d inv z read e = ground (arith, inv.checkpoint)

  pub get_block_hash-Triple :
      {P E : Database → Type 0} (steady : Steady sv.others P E) (n : ℕ)
      → Triple P
          (on_host sv.others (get_block_hash sv.answer n))
          (λ o d. (o ≡ select_hash (as_i64 n) d.indexed_blocks) × P d)
          E
  unfolding get_block_hash get_block_hash_from_table
  get_block_hash-Triple steady n =
      Triple-weaken _ (λ d h. h) (λ o d (read, p). (ground arith, p))
        (Triple-read sv.others steady sv.answer
          (reads (λ d. select_hash (as_i64 n) d.indexed_blocks)) (λ d d' a h. ground arith))

  module _ {G : Database → Type 0} (carries : Carries sv e start top G) where
    -- The invariant and the condition that goes along, also with the checkpoint that was read.
    abbrev pub Held : Database → Type 0
    Held d = Inv d × G d

    abbrev pub HeldAt : ℕ → Database → Type 0
    HeldAt cp d = At cp d × G d

    Held-Steady : Steady sv.others Held Held
    Held-Steady = record {
      safe = λ d h. h;
      kept = λ t d (inv, g). ((moved t d inv).0, carries.kept t d g);
    }

    HeldAt-Held : (cp : ℕ) (d : Database) → HeldAt cp d → Held d
    HeldAt-Held cp d h = (h.0.0, h.1)

    HeldAt-Steady : (cp : ℕ) → Steady sv.others (HeldAt cp) Held
    HeldAt-Steady cp = record {
      safe = HeldAt-Held cp;
      kept = λ t d (at, g). ((At-Steady cp).kept t d at, carries.kept t d g);
    }

    pub get_checkpoint-Triple :
        Triple Held (on_host sv.others (get_checkpoint sv.answer)) HeldAt Held
    unfolding get_checkpoint
    get_checkpoint-Triple =
        Triple-weaken _ (λ d h. h)
          (λ cp d (read, (inv, g)). ((inv, read_cp cp d inv read.0 read.1 read.2), g))
          (Triple-read_map sv.others Held-Steady sv.answer (λ d. one_row d.indexer_checkpoint d)
            as_u64 one_row_reads)

    -- The block `n` is to be rolled back.
    abbrev Wrong : ℕ → ℕ → Database → Type 0
    Wrong cp n d = Differs sv n d.indexed_blocks × HeldAt cp d

    Wrong-Steady : (cp n : ℕ) → Steady sv.others (Wrong cp n) Held
    Wrong-Steady cp n = record {
      safe = λ d h. HeldAt-Held cp d h.1;
      kept = λ t d ((b, number, reported, differs), held). (
        (
          b,
          number,
          reported,
          λ h found. differs h (
              ap (λ rows. select_hash (pos n) rows)
                (sym (LiveWrites-SameFinalized (limits.alone t d)).blocks)
              ∙ found),
        ),
        (HeldAt-Steady cp).kept t d held,
      );
    }

    -- A rollback from a block that the checkpoint has reached, and not below `start`.
    handle_finalized_reorg-Triple :
        (cp n : ℕ)
        → start ≤ n
        → n ≤ cp
        → Triple (Wrong cp n) (handle_finalized_reorg sv e n) (λ _. Held) Held
    unfolding handle_finalized_reorg
    handle_finalized_reorg-Triple cp n lo hi =
        Triple-bind (count record_rollback) _ (λ _. Wrong cp n) (Triple-count _)
          λ _.
            Triple-settles sv.others (Wrong-Steady cp n) (rollback_from_block sv.answer n) (λ _. tt)
              (rolled_back n) (λ h _. rollback_from_block-Settles sv.answer n h) back back
      where
        back : (d : Database) → Wrong cp n d → Held (rolled_back n d)
        back d (differs, ((inv, same), g)) = (
          rolled_back-IsFinalized start top limits.room n d inv (omega arith) (omega arith) lo,
          carries.back n d inv lo (omega arith) differs g,
        )

    -- The numbers of the range lie between `start` and the checkpoint.
    revalidate_finalized-Triple :
        (cp k n : ℕ)
        → start ≤ n
        → n + k ≤ cp + 1
        → Triple (HeldAt cp) (revalidate_finalized sv e (numbers_from n k)) (λ _. Held) Held
    unfolding revalidate_finalized numbers_from
    revalidate_finalized-Triple cp zero n lo hi =
        Triple-weaken _ (HeldAt-Held cp) (λ a d h. h) (Triple-pure false)
    revalidate_finalized-Triple cp (suc k) n lo hi =
        let rest = revalidate_finalized-Triple cp k (suc n) (omega arith) (omega arith) in
        Triple-bind (fetch_block_metadata sv e n) _ _
          (fetch_block_metadata-Triple (HeldAt-Held cp) sv e n)
          λ b. Triple-fact _ λ fetched.
            Triple-bind (on_host sv.others (get_block_hash sv.answer n)) _ _
              (get_block_hash-Triple (HeldAt-Steady cp) n)
              λ o.
                Triple-if (is_valid o b.hash) _ _
                  (λ _. Triple-weaken _ (λ d h. h.1) (λ a d h. h) rest)
                  (λ invalid.
                    Triple-bind (count record_reorg_detected) _ (λ _. Wrong cp n)
                      (Triple-weaken _ (λ d h. (wrong b fetched o invalid d h.1 h.0, h.1))
                        (λ a d h. h) (Triple-count _))
                      λ _.
                        Triple-bind (handle_finalized_reorg sv e n) _ _
                          (handle_finalized_reorg-Triple cp n lo (omega arith))
                          λ _. Triple-pure true)
      where
        wrong :
            (b : BlockMetadata)
            → (b.number ≡ n) × Reported sv b
            → (o : Option Bytes) → is_valid o b.hash ≡ false
            → (d : Database) → HeldAt cp d
            → o ≡ select_hash (as_i64 n) d.indexed_blocks
            → Differs sv n d.indexed_blocks
        wrong b (number, reported) o invalid d held read = (
          b,
          number,
          reported,
          λ h found.
              let room : top + 2 * block_partition_size < i64_limit = limits.room in
              let fits : n < i64_limit = omega (arith, held.0.1, held.0.0.below) in
              let at : o ≡ some h =
                read ∙ ap (λ z. select_hash z d.indexed_blocks) (as_i64-eq_pos n fits) ∙ found in
              bytes_eq-apart h b.hash (sym (ap (λ o. is_valid o b.hash) at) ∙ invalid),
        )

    pub reconcile_finalized_history-Triple :
        (cp : ℕ)
        → start ≤ cp
        → Triple (HeldAt cp) (reconcile_finalized_history sv e start cp) (λ _. Held) Held
    unfolding reconcile_finalized_history finalized_validation_start
    reconcile_finalized_history-Triple cp h =
        revalidate_finalized-Triple cp (suc cp - _) _ (omega arith) (omega arith)
