-- ===== src/Ingestion/Unbroken.antt =====
-- The hot lane without gaps: what the transactions of `run_live` of crates/ingestion/src/lib.rs
-- make of the blocks from a lower bound up to the live checkpoint.
use native.Mathlib.Decide.{dec_lt}
use rust_ethereum_indexer.Prelude.{
  ℕ, false, ◌+◌, ◌-◌, ◌≤◌, ◌<◌, ◌≡◌, refl, sym, ◌∙◌, inl, inr, some, List, Bytes, length, arith,
  pos, as_i64, as_i64-eq_pos, i64_limit, leb_ℤ, ltb_ℤ, Option-cases,
}
use rust_ethereum_indexer.Storage.Tables.{Transfer, Database, select_hash}
use rust_ethereum_indexer.Storage.Blocks.{
  or_else, select_hash-delete_blocks, select_hash-upsert_all,
}
use rust_ethereum_indexer.Storage.Effects.{bound_blocks, heated, hot_rolled_back, pruned}
use rust_ethereum_indexer.Rpc.Client.{BlockMetadata}
use rust_ethereum_indexer.Ingestion.Payload.{indexed_blocks_of}
use rust_ethereum_indexer.Ingestion.Gather.{Numbered, repeats-Numbered, select_hash-stored}

abbrev pub LiveCheckpoint : ℕ → Database → Type 0
LiveCheckpoint c d = d.live_indexer_checkpoint ≡ some (pos c)

abbrev pub HotStored : ℕ → Database → Type 0
HotStored n d = (h : Bytes) × (select_hash (pos n) d.hot_indexed_blocks ≡ some h)

-- Every block from `low` up to the live checkpoint is stored.
abbrev pub Unbroken : ℕ → Database → Type 0
Unbroken low d = (c : ℕ) → LiveCheckpoint c d → (n : ℕ) → low ≤ n → n ≤ c → HotStored n d

-- From `low` on the hot lane is as it was, and so is the live checkpoint.
pub record Spares (low : ℕ) (d d' : Database) : Type 0 where
  pub checkpoint : d'.live_indexer_checkpoint ≡ d.live_indexer_checkpoint
  pub blocks :
      (n : ℕ)
      → low ≤ n
      → select_hash (pos n) d'.hot_indexed_blocks ≡ select_hash (pos n) d.hot_indexed_blocks

pub one_live : (c c' : ℕ) (d : Database) → LiveCheckpoint c d → LiveCheckpoint c' d → c ≡ c'
one_live c c' d at at' = ground arith

pub Unbroken-spared :
    (low : ℕ) (d d' : Database) → Spares low d d' → Unbroken low d → Unbroken low d'
Unbroken-spared low d d' spared whole c at n lo hi =
    let (h, found) = whole c (sym spared.checkpoint ∙ at) n lo hi in (h, spared.blocks n lo ∙ found)

-- A prune takes the blocks below `n`.
pub pruned-Spares :
    (low n : ℕ) (d : Database) → n ≤ low → low < i64_limit → Spares low d (pruned n d)
unfolding pruned
pruned-Spares low n d le fits = record {
  checkpoint = refl;
  blocks = λ m lo.
      let late : ltb_ℤ (pos m) (as_i64 n) ≡ false =
        rw (as_i64-eq_pos n (omega arith)) (ground arith) in
      rw (select_hash-delete_blocks (λ z. ltb_ℤ z (as_i64 n)) (pos m) d.hot_indexed_blocks, late)
        refl;
}

-- A rollback from a block up to the checkpoint takes the blocks from it on, and the checkpoint.
pub hot_rolled_back-Unbroken :
    (low n c : ℕ) (d : Database)
    → n < i64_limit
    → 0 < low
    → LiveCheckpoint c d
    → n ≤ c
    → Unbroken low d
    → Unbroken low (hot_rolled_back n d)
unfolding hot_rolled_back
hot_rolled_back-Unbroken low n c d fits positive at n_le_c whole c' at' m lo hi =
    let new : c' ≡ n - 1 =
      one_live c' (n - 1) (hot_rolled_back n d) at'
        (rw (at, as_i64-eq_pos (n - 1) (omega arith)) refl) in
    let early : leb_ℤ (as_i64 n) (pos m) ≡ false =
      rw (as_i64-eq_pos n fits) (ground (arith, new, hi, lo, positive)) in
    let (h, found) = whole c at m lo (omega (arith, new)) in
    (h, rw (select_hash-delete_blocks (leb_ℤ (as_i64 n)) (pos m) d.hot_indexed_blocks, early) found)

-- A commit of the blocks from `s` to `c` fills the lane up to `c`, where `s` is next or the blocks
-- before it do not count.
module _ (low s c cp : ℕ) (bs : List BlockMetadata) (rs : List Transfer) (d : Database)
    (at : LiveCheckpoint cp d) (whole : Unbroken low d) (close : (n : ℕ) → low ≤ n → n < s → n ≤ cp)
    (numbered : Numbered s bs) (counted : s + length bs ≡ c + 1) (fits : c + 1 < i64_limit) where
  pub heated-LiveCheckpoint : LiveCheckpoint c (heated rs (indexed_blocks_of bs) c d)
  unfolding heated
  heated-LiveCheckpoint = rw (at, as_i64-eq_pos c (omega arith)) refl

  look :
      (n : ℕ)
      → select_hash (pos n) (heated rs (indexed_blocks_of bs) c d).hot_indexed_blocks
        ≡ or_else
            (select_hash (pos n) (bound_blocks (indexed_blocks_of bs)))
            (select_hash (pos n) d.hot_indexed_blocks)
  unfolding heated
  look n =
      select_hash-upsert_all (pos n) d.hot_indexed_blocks (bound_blocks (indexed_blocks_of bs))
        (repeats-Numbered s bs numbered (omega arith))

  kept : (n : ℕ) → HotStored n d → HotStored n (heated rs (indexed_blocks_of bs) c d)
  kept n (h, found) =
      elim (Option-cases (select_hash (pos n) (bound_blocks (indexed_blocks_of bs)))) [
        | inl old ↦ (h, look n ∙ rw old found)
        | inr (h', new) ↦ (h', look n ∙ rw new refl)
      ]

  pub heated-Unbroken : Unbroken low (heated rs (indexed_blocks_of bs) c d)
  heated-Unbroken c' at' n lo hi =
      let same : c' ≡ c =
        one_live c' c (heated rs (indexed_blocks_of bs) c d) at' heated-LiveCheckpoint in
      elim (dec_lt n s) [
        | yes before ↦ kept n (whole cp at n lo (close n lo before))
        | no after ↦
            let (h, found) =
              select_hash-stored s bs n numbered (omega arith) (omega arith)
                (omega (arith, same, hi)) in
            (h, look n ∙ rw found refl)
      ]
