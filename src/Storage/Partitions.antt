-- ===== src/Storage/Partitions.antt =====
-- `ensure_partitions_for_range_tx`: the partitions that the crate makes are aligned to
-- BLOCK_PARTITION_SIZE, so a new one never overlaps an old one, and the loop covers the range.
use rust_ethereum_indexer.Prelude.{
  ℕ, zero, suc, ◌+◌, ◌*◌, ◌≤◌, ◌<◌, true, false, ◌≡◌, refl, List, [], ◌∷◌, arith, ltb, ◌∙◌, ℤ, pos,
  i64_limit, add_i64, ==ℤ→eq, if◌then◌else◌, any_of, All, ok, Bool-cases, inl, inr, tests,
}
use rust_ethereum_indexer.Storage.Tables.{
  Partition, TransfersTable, create_partition, same_bounds, overlaps, in_partition,
}
use rust_ethereum_indexer.Storage.Statements.{block_partition_size, partition_from}

-- p is the partition number `k`, of the blocks from k * 100000 on.
pub record IsSlot (k : ℕ) (p : Partition) : Type 0 where
  pub start_eq : p.start ≡ pos (k * block_partition_size)
  pub stop_eq : p.stop ≡ pos (k * block_partition_size + block_partition_size)

abbrev pub IsAligned : Partition → Type 0
IsAligned p = (k : ℕ) × IsSlot k p

pub add_i64-pos : (a b : ℕ) → a + b < i64_limit → add_i64 (pos a) (pos b) ≡ pos (a + b)
unfolding add_i64
add_i64-pos a b h = ground arith

pub partition_from-IsSlot :
    (k : ℕ)
    → k * block_partition_size + block_partition_size < i64_limit
    → IsSlot k (partition_from (pos (k * block_partition_size)))
partition_from-IsSlot k h = record {
  start_eq = refl;
  stop_eq = add_i64-pos (k * block_partition_size) block_partition_size h;
}

slots_apart :
    (j k : ℕ) (p q : Partition)
    → IsSlot k p
    → IsSlot j q
    → same_bounds p q ≡ false
    → overlaps p q ≡ false
unfolding same_bounds overlaps
slots_apart j k p q hp hq h = rw (hp.start_eq, hp.stop_eq, hq.start_eq, hq.stop_eq) (ground arith)

-- The table once the partition is there.
unfoldable pub added : Partition → TransfersTable → TransfersTable
added p t =
    if any_of (same_bounds p) t.partitions then t else record t { partitions = p ∷ t.partitions }

rows-added : (p : Partition) (t : TransfersTable) → (added p t).rows ≡ t.rows
unfolding added
rows-added p t = ground arith

module _ (k : ℕ) (p : Partition) (slot : IsSlot k p) where
  overlaps_none :
      (ps : List Partition)
      → All IsAligned ps
      → any_of (same_bounds p) ps ≡ false
      → any_of (overlaps p) ps ≡ false
  unfolding any_of
  overlaps_none [] al h = refl
  overlaps_none (q ∷ ps) al h =
      ground (arith, slots_apart al.0.0 k p q slot al.0.1, overlaps_none ps al.1)

  -- On an aligned table CREATE TABLE IF NOT EXISTS succeeds.
  pub create_partition-added :
      (t : TransfersTable) → All IsAligned t.partitions → create_partition p t ≡ ok (added p t)
  unfolding create_partition added
  create_partition-added t al =
      ground (arith, slot.start_eq, slot.stop_eq, overlaps_none t.partitions al)

  pub added-IsAligned :
      (t : TransfersTable) → All IsAligned t.partitions → All IsAligned (added p t).partitions
  unfolding added
  added-IsAligned t al = elim (Bool-cases (any_of (same_bounds p) t.partitions)) [
    | inl e ↦ rw (e, added) al
    | inr e ↦ rw (e, added) ((k, slot), al)
  ]

  same_bounds-in_partition :
      (n : ℕ) (q : Partition)
      → k * block_partition_size ≤ n
      → n < k * block_partition_size + block_partition_size
      → same_bounds p q ≡ true
      → in_partition (pos n) q ≡ true
  unfolding same_bounds in_partition
  same_bounds-in_partition n q lo hi h =
      ground (arith, ==ℤ→eq p.start q.start, ==ℤ→eq p.stop q.stop, slot.start_eq, slot.stop_eq)

  found-in_partition :
      (n : ℕ) (ps : List Partition)
      → k * block_partition_size ≤ n
      → n < k * block_partition_size + block_partition_size
      → any_of (same_bounds p) ps ≡ true
      → any_of (in_partition (pos n)) ps ≡ true
  unfolding any_of
  found-in_partition n [] lo hi h = h
  found-in_partition n (q ∷ ps) lo hi h =
      ground (arith, same_bounds-in_partition n q lo hi, found-in_partition n ps lo hi)

  -- The new partition holds its blocks.
  pub added_holds :
      (n : ℕ) (t : TransfersTable)
      → k * block_partition_size ≤ n
      → n < k * block_partition_size + block_partition_size
      → any_of (in_partition (pos n)) (added p t).partitions ≡ true
  unfolding added any_of in_partition
  added_holds n t lo hi =
      ground (arith, found-in_partition n t.partitions lo hi, slot.start_eq, slot.stop_eq)

pub added_keeps :
    (p : Partition) (z : ℤ) (t : TransfersTable)
    → any_of (in_partition z) t.partitions ≡ true
    → any_of (in_partition z) (added p t).partitions ≡ true
unfolding added any_of
added_keeps p z t h = ground arith

abbrev pub slot : ℕ → Partition
slot k = partition_from (pos (k * block_partition_size))

-- The table after `rounds` rounds of the loop, from the partition number `k` on.
unfoldable pub opened : ℕ → ℕ → TransfersTable → TransfersTable
opened zero k t = t
opened (suc rounds) k t = opened rounds (suc k) (added (slot k) t)

pub rows-opened : (rounds k : ℕ) (t : TransfersTable) → (opened rounds k t).rows ≡ t.rows
unfolding opened
rows-opened zero k t = refl
rows-opened (suc rounds) k t = rows-opened rounds (suc k) (added (slot k) t) ∙ rows-added (slot k) t

pub opened_keeps :
    (rounds k : ℕ) (z : ℤ) (t : TransfersTable)
    → any_of (in_partition z) t.partitions ≡ true
    → any_of (in_partition z) (opened rounds k t).partitions ≡ true
unfolding opened
opened_keeps zero k z t h = h
opened_keeps (suc rounds) k z t h =
    opened_keeps rounds (suc k) z (added (slot k) t) (added_keeps (slot k) z t h)

-- Every block of the range has its partition afterwards.
pub opened_holds :
    (rounds k n : ℕ) (t : TransfersTable)
    → (k + rounds) * block_partition_size < i64_limit
    → k * block_partition_size ≤ n
    → n < (k + rounds) * block_partition_size
    → any_of (in_partition (pos n)) (opened rounds k t).partitions ≡ true
unfolding opened
opened_holds zero k n t room lo hi = absurd (omega arith)
opened_holds (suc rounds) k n t room lo hi =
    elim (Bool-cases (ltb n (k * block_partition_size + block_partition_size))) [
      | inl e ↦
          opened_keeps rounds (suc k) (pos n) (added (slot k) t)
            (added_holds k (slot k) (partition_from-IsSlot k (omega arith)) n t lo (omega tests))
      | inr e ↦
          opened_holds rounds (suc k) n (added (slot k) t) (omega arith) (ground arith)
            (omega arith)
    ]

pub opened-IsAligned :
    (rounds k : ℕ) (t : TransfersTable)
    → (k + rounds) * block_partition_size < i64_limit
    → All IsAligned t.partitions
    → All IsAligned (opened rounds k t).partitions
unfolding opened
opened-IsAligned zero k t room al = al
opened-IsAligned (suc rounds) k t room al =
    opened-IsAligned rounds (suc k) (added (slot k) t) (omega arith)
      (added-IsAligned k (slot k) (partition_from-IsSlot k (omega arith)) t al)
