-- ===== src/Examples/Race.antt =====
-- The theorem on the late commit, on a hot lane of two blocks.
use rust_ethereum_indexer.Prelude.{
  refl, sym, arith, ℤ, pos, ◌==ℤ◌, ==ℤ→eq, some, [], ◌∷◌, List, Bytes, ℕ, ◌≤◌, ◌≡◌, Bool-cases, inl,
  inr, false, none,
}
use rust_ethereum_indexer.Storage.Tables.{Database, migrated, select_hash}
use rust_ethereum_indexer.Storage.Session.{reliable}
use rust_ethereum_indexer.Storage.Calls.{rollback_from_block, commit_hot_range}
use rust_ethereum_indexer.Rpc.Client.{BlockMetadata}
use rust_ethereum_indexer.Ingestion.Payload.{indexed_blocks_of}
use rust_ethereum_indexer.Ingestion.Hot.{IsHot}
use rust_ethereum_indexer.Ingestion.Race.{HasHole, late_commit-HasHole}

abbrev pub hot_two : Database
hot_two = record migrated {
  hot_indexed_blocks = (pos 3, 9 ∷ []) ∷ (pos 4, 9 ∷ []) ∷ [];
  live_indexer_checkpoint = some (pos 4);
}

abbrev block_five : List BlockMetadata
block_five = record { number = 5; hash = 5 ∷ []; timestamp = 60 } ∷ []

four :
    (z : ℤ) (h : Bytes)
    → (pos 3 ==ℤ z) ≡ false
    → select_hash z hot_two.hot_indexed_blocks ≡ some h
    → z ≡ pos 4
unfolding select_hash
four z h not_three found = elim (Bool-cases (pos 4 ==ℤ z)) [
  | inl here ↦ sym (==ℤ→eq _ _ here)
  | inr gone ↦
      let missing : select_hash z hot_two.hot_indexed_blocks ≡ none = rw (not_three, gone) refl in
      absurd (cc (found, missing))
]

pub hot_two_below :
    (z : ℤ) (h : Bytes)
    → select_hash z hot_two.hot_indexed_blocks ≡ some h
    → (n : ℕ) × (z ≡ pos n) × (n ≤ 4)
hot_two_below z h found = elim (Bool-cases (pos 3 ==ℤ z)) [
  | inl three ↦ (3, sym (==ℤ→eq _ _ three), omega arith)
  | inr not_three ↦ (4, four z h not_three found, omega arith)
]

abbrev pub hot_two-IsHot : IsHot 5 hot_two
hot_two-IsHot = record {
  cp = 4;
  checkpoint = refl;
  below = omega arith;
  bounded = hot_two_below;
  aligned = tt;
  integrity = tt;
  unique = tt;
}

-- Block 3 is rolled back after the live worker has read the checkpoint 4.
late_commit-HasHole_example :
    HasHole 3 5 5
      (commit_hot_range reliable []
        (indexed_blocks_of block_five)
        5
        (rollback_from_block reliable 3 (record { database = hot_two; time = 0 })).1).1.database
late_commit-HasHole_example =
    late_commit-HasHole 5 3 5 5 (omega arith) block_five [] hot_two hot_two-IsHot (omega arith)
      (omega arith) (omega arith) (omega arith) (refl, tt) refl tt _ refl
