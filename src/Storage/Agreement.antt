-- ===== src/Storage/Agreement.antt =====
-- Each transaction body agrees, where it succeeds, with its run on the server that answers every
-- request.
use rust_ethereum_indexer.Prelude.{
  Bool-cases, ℕ, zero, suc, inl, inr, List, [], ◌∷◌, Bytes, ℤ, leb_ℤ,
}
use rust_ethereum_indexer.Storage.Tables.{Transfer, TransfersName, BlocksName}
use rust_ethereum_indexer.Storage.Session.{Answer, reliable}
use rust_ethereum_indexer.Storage.Statements.{
  partition_rounds, partition_start_of, create_partitions, ensure_partitions_for_range_tx,
  insert_transfers_into_tx, insert_blocks_into_tx, delete_range_from_lane_tx,
  delete_range_between_blocks_tx, update_checkpoint_tx, update_live_checkpoint_tx,
}
use rust_ethereum_indexer.Storage.Calls.{
  finalized_range_tx, hot_range_tx, rollback_tx, rollback_hot_tx, prune_tx,
}
use rust_ethereum_indexer.Storage.Faults.{Agrees, Agrees-pure, Agrees-bind, Agrees-execute}

ruleset agree_rules = (Agrees-pure, Agrees-bind, Agrees-execute)

module _ (answer : ℕ → Answer) where
  Agrees-create_partitions :
      (fuel : ℕ) (name : TransfersName) (start last : ℤ)
      → Agrees
          (create_partitions answer fuel name start last)
          (create_partitions reliable fuel name start last)
  unfolding create_partitions
  Agrees-create_partitions zero name start last = Agrees-pure tt
  Agrees-create_partitions (suc fuel) name start last = elim (Bool-cases (leb_ℤ start last)) [
    | inl e ↦
        rw (e, create_partitions)
          (Agrees-bind _ _ _ _ (Agrees-execute answer _)
            (λ _. Agrees-create_partitions fuel name _ last))
    | inr e ↦ rw (e, create_partitions) (Agrees-pure tt)
  ]

  Agrees-ensure :
      (name : TransfersName) (a b : ℤ)
      → Agrees
          (ensure_partitions_for_range_tx answer name a b)
          (ensure_partitions_for_range_tx reliable name a b)
  unfolding ensure_partitions_for_range_tx
  Agrees-ensure name a b =
      Agrees-create_partitions (partition_rounds (partition_start_of a) (partition_start_of b)) name
        (partition_start_of a) (partition_start_of b)

  Agrees-insert_transfers :
      (name : TransfersName) (rs : List Transfer)
      → Agrees (insert_transfers_into_tx answer name rs) (insert_transfers_into_tx reliable name rs)
  unfolding insert_transfers_into_tx
  Agrees-insert_transfers name [] = Agrees-pure 0
  Agrees-insert_transfers name (r ∷ rs) =
      Agrees-bind _ _ _ _ (Agrees-ensure name _ _) (λ _. Agrees-execute answer _)

  Agrees-insert_blocks :
      (name : BlocksName) (bs : List (ℕ × Bytes))
      → Agrees (insert_blocks_into_tx answer name bs) (insert_blocks_into_tx reliable name bs)
  unfolding insert_blocks_into_tx
  Agrees-insert_blocks name [] = Agrees-pure tt
  Agrees-insert_blocks name (b ∷ bs) = Agrees-execute answer _

  pub Agrees-rollback_tx : (n : ℕ) → Agrees (rollback_tx answer n) (rollback_tx reliable n)
  unfolding rollback_tx delete_range_from_lane_tx update_checkpoint_tx update_live_checkpoint_tx
  Agrees-rollback_tx n = search agree_rules

  pub Agrees-rollback_hot_tx :
      (n : ℕ) → Agrees (rollback_hot_tx answer n) (rollback_hot_tx reliable n)
  unfolding rollback_hot_tx delete_range_from_lane_tx update_live_checkpoint_tx
  Agrees-rollback_hot_tx n = search agree_rules

  pub Agrees-prune_tx : (n : ℕ) → Agrees (prune_tx answer n) (prune_tx reliable n)
  unfolding prune_tx
  Agrees-prune_tx n = search agree_rules

  pub Agrees-finalized_range_tx :
      (rs : List Transfer) (bs : List (ℕ × Bytes)) (s c : ℕ)
      → Agrees (finalized_range_tx answer rs bs s c) (finalized_range_tx reliable rs bs s c)
  unfolding finalized_range_tx delete_range_between_blocks_tx update_checkpoint_tx
  Agrees-finalized_range_tx rs bs s c =
      search (agree_rules, Agrees-insert_transfers, Agrees-insert_blocks)

  pub Agrees-hot_range_tx :
      (rs : List Transfer) (bs : List (ℕ × Bytes)) (c : ℕ)
      → Agrees (hot_range_tx answer rs bs c) (hot_range_tx reliable rs bs c)
  unfolding hot_range_tx update_live_checkpoint_tx
  Agrees-hot_range_tx rs bs c = search (agree_rules, Agrees-insert_transfers, Agrees-insert_blocks)
