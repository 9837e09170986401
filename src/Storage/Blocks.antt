-- ===== src/Storage/Blocks.antt =====
-- The blocks tables, seen through the SELECT of a block's hash.
use rust_ethereum_indexer.Prelude.{
  Bool, false, ◌≡◌, refl, Option, none, some, List, [], ◌∷◌, Bytes, arith, ℤ, ◌==ℤ◌, ==ℤ→eq,
  ==ℤ-refl, if◌then◌else◌, keep_if, any_of,
}
use rust_ethereum_indexer.Storage.Tables.{
  BlockRow, delete_blocks, select_hash, upsert, upsert_all, repeats,
}

abbrev pub or_else {ℓ} : {A : Type ℓ} → Option A → Option A → Option A
or_else none o = o
or_else (some a) o = some a

pub select_hash-delete_blocks :
    (test : ℤ → Bool) (z : ℤ) (rows : List BlockRow)
    → select_hash z (delete_blocks test rows) ≡ (if test z then none else select_hash z rows)
unfolding select_hash delete_blocks keep_if
select_hash-delete_blocks test z [] = ground arith
select_hash-delete_blocks test z ((n, hash) ∷ rows) =
    ground (arith, ==ℤ→eq n z, select_hash-delete_blocks test z rows)

pub select_hash-upsert :
    (z k : ℤ) (v : Bytes) (rows : List BlockRow)
    → select_hash z (upsert rows k v) ≡ (if k ==ℤ z then some v else select_hash z rows)
unfolding select_hash upsert
select_hash-upsert z k v [] = refl
select_hash-upsert z k v ((n, hash) ∷ rows) =
    ground (arith, ==ℤ→eq n z, ==ℤ→eq n k, ==ℤ→eq k z, ==ℤ-refl z, select_hash-upsert z k v rows)

select_hash_absent :
    (z : ℤ) (rows : List BlockRow)
    → any_of (λ r. r.0 ==ℤ z) rows ≡ false
    → select_hash z rows ≡ none
unfolding select_hash any_of
select_hash_absent z [] h = refl
select_hash_absent z ((n, hash) ∷ rows) h = ground (arith, select_hash_absent z rows)

pub select_hash-upsert_all :
    (z : ℤ) (rows new : List BlockRow)
    → repeats new ≡ false
    → select_hash z (upsert_all rows new) ≡ or_else (select_hash z new) (select_hash z rows)
unfolding select_hash upsert_all repeats
select_hash-upsert_all z rows [] h = refl
select_hash-upsert_all z rows ((k, v) ∷ new) h = ground (
  arith,
  ==ℤ→eq k z,
  select_hash_absent z new,
  select_hash-upsert z k v rows,
  select_hash-upsert_all z (upsert rows k v) new,
)
