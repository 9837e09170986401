-- ===== src/Storage/Loop.antt =====
-- The loop of `ensure_partitions_for_range_tx` of crates/storage/src/lib.rs ends, whatever
-- PostgreSQL answers: the fuel of the model is never used up.
use rust_ethereum_indexer.Prelude.{
  ℕ, zero, suc, ◌+◌, ◌*◌, ◌/◌, ◌≤◌, ◌<◌, true, false, Bool-cases, inl, inr, ◌≡◌, refl, arith, ℤ,
  pos, negsuc, pos_part, neg_part, leb_ℤ, add_i64, i64_limit,
}
use rust_ethereum_indexer.Storage.Tables.{TransfersName}
use rust_ethereum_indexer.Storage.Session.{Answer}
use rust_ethereum_indexer.Storage.Statements.{
  block_partition_size, create_partitions, partition_rounds,
}

-- `last` is less than `n` partitions beyond `start`.
abbrev Within : ℕ → ℤ → ℤ → Type 0
Within n start last =
    pos_part last + neg_part start < pos_part start + neg_part last + n * block_partition_size

add_i64_moves :
    (start : ℤ)
    → pos_part start + block_partition_size < i64_limit
    → neg_part start ≤ i64_limit
    → pos_part (add_i64 start (pos block_partition_size)) + neg_part start
      ≡ pos_part start + block_partition_size + neg_part (add_i64 start (pos block_partition_size))
unfolding add_i64
add_i64_moves (pos n) h k = ground arith
add_i64_moves (negsuc n) h k = ground arith

add_i64_neg :
    (start : ℤ)
    → pos_part start + block_partition_size < i64_limit
    → neg_part start ≤ i64_limit
    → neg_part (add_i64 start (pos block_partition_size)) ≤ neg_part start
unfolding add_i64
add_i64_neg (pos n) h k = ground arith
add_i64_neg (negsuc n) h k = ground arith

not_beyond :
    (start last : ℤ)
    → leb_ℤ start last ≡ true
    → pos_part last + block_partition_size < i64_limit
    → pos_part start + block_partition_size < i64_limit
not_beyond (pos n) last le room = ground arith
not_beyond (negsuc n) last le room = omega arith

module _ (answer : ℕ → Answer) (name : TransfersName) (last : ℤ)
    (room : pos_part last + block_partition_size < i64_limit) where
  -- Two runs with enough fuel are the same.
  create_partitions_fuel :
      (n fuel fuel' : ℕ) (start : ℤ)
      → Within n start last
      → neg_part start ≤ i64_limit
      → n < fuel
      → n < fuel'
      → create_partitions answer fuel name start last
        ≡ create_partitions answer fuel' name start last
  unfolding create_partitions
  create_partitions_fuel n zero fuel' start near low lt lt' = absurd (omega arith)
  create_partitions_fuel n (suc fuel) zero start near low lt lt' = absurd (omega arith)
  create_partitions_fuel zero (suc fuel) (suc fuel') start near low lt lt' =
      let stop : leb_ℤ start last ≡ false = ground arith in rw (stop, create_partitions) refl
  create_partitions_fuel (suc n) (suc fuel) (suc fuel') start near low lt lt' =
      elim (Bool-cases (leb_ℤ start last)) [
        | inl more ↦
            let fits = not_beyond start last more room in
            let moved = add_i64_moves start fits low in
            let rest =
              create_partitions_fuel n fuel fuel' (add_i64 start (pos block_partition_size))
                (omega (arith, moved)) (omega (arith, add_i64_neg start fits low)) (omega arith)
                (omega arith) in
            rw (more, create_partitions, rest) refl
        | inr stop ↦ rw (stop, create_partitions) refl
      ]

  -- The fuel of the model is enough, for any blocks of an `i64` that leave room for one partition
  -- more: whatever PostgreSQL answers and whatever the partitions are, the loop is the same with
  -- any fuel beyond it.
  pub create_partitions-rounds :
      (first : ℤ) (more : ℕ)
      → neg_part first ≤ i64_limit
      → create_partitions answer (partition_rounds first last + more) name first last
        ≡ create_partitions answer (partition_rounds first last) name first last
  unfolding partition_rounds
  create_partitions-rounds first more low =
      create_partitions_fuel (suc ((pos_part last + neg_part first) / block_partition_size)) _ _
        first (omega arith) low (omega arith) (omega arith)
