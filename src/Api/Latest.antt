-- ===== src/Api/Latest.antt =====
-- The status that the interface reports of a finalized lane in order.
use rust_ethereum_indexer.Prelude.{
  Exec, negsuc, none, Option, Result, ◌+◌, ap, ◌∙◌, ℕ, ◌≤◌, true, ◌≡◌, refl, some, List, [], ◌∷◌,
  Bytes, ℤ, pos, ◌==ℤ◌, ==ℤ→eq, ==ℤ-refl, ◌⊎◌, leb_ℤ, arith, Option-cases, Bool-cases, inl, inr, ok,
  ◌>>=◌,
}
use rust_ethereum_indexer.Storage.Tables.{BlockRow, Database, select_hash}
use rust_ethereum_indexer.Storage.Session.{Host, reliable, execute}
use rust_ethereum_indexer.Storage.Statements.{one_row}
use rust_ethereum_indexer.Ingestion.Finalized.{IsFinalized}
use rust_ethereum_indexer.Api.Status.{
  IndexerStatus, max_option, max_number, query, status_after, indexer_status,
}

-- The greatest number of a table is stored in it.
max_number-stored :
    (rows : List BlockRow) (m : ℤ)
    → max_number rows ≡ some m
    → (h : Bytes) × (select_hash m rows ≡ some h)
unfolding max_number max_option select_hash
max_number-stored [] m e = cc
max_number-stored ((z, hash) ∷ rows) m e =
    let deeper = max_number-stored rows m in
    elim (Bool-cases (z ==ℤ m)) [
      | inl here ↦ (hash, ground arith)
      | inr later ↦
          let below : max_number rows ≡ some m = ground (arith, ==ℤ-refl z) in
          let (h, found) = deeper below in (h, ground arith)
    ]

-- A stored number is not beyond the greatest.
max_number_greatest :
    (rows : List BlockRow) (z : ℤ) (h : Bytes)
    → select_hash z rows ≡ some h
    → (m : ℤ) × (max_number rows ≡ some m) × (leb_ℤ z m ≡ true)
unfolding max_number max_option select_hash
max_number_greatest [] z h e = cc
max_number_greatest ((n, hash) ∷ rows) z h e =
    let rest = max_number_greatest rows z h in
    elim (Option-cases (max_number rows)) [
      | inl alone ↦ (n, rw alone refl, ground (arith, ==ℤ→eq n z, rest))
      | inr (m, among) ↦
          let older : (n ==ℤ z ≡ true) ⊎ (leb_ℤ z m ≡ true) = ground (arith, rest) in
          elim (Bool-cases (leb_ℤ n m)) [
            | inl newer ↦ (m, ground arith, ground (arith, ==ℤ→eq n z))
            | inr newest ↦ (n, ground arith, ground (arith, ==ℤ→eq n z))
          ]
    ]

latest_of :
    (start top : ℕ) (db : Database) (inv : IsFinalized start top db)
    → start ≤ inv.cp
    → max_number db.indexed_blocks ≡ some (pos inv.cp)
latest_of start top db inv reached =
    let (h, last) = inv.stored_all inv.cp reached (omega arith) in
    let (m, greatest, le) = max_number_greatest db.indexed_blocks (pos inv.cp) h last in
    let (h', stored) = max_number-stored db.indexed_blocks m greatest in
    let (n, at, lo, hi) = inv.bounded m h' stored in
    greatest ∙ ap some (at ∙ ap pos (same n m at le hi))
  where
    same : (n : ℕ) (m : ℤ) → m ≡ pos n → leb_ℤ (pos inv.cp) m ≡ true → n ≤ inv.cp → n ≡ inv.cp
    same n m at le hi = ground arith

-- A status of a finalized lane with the first block `start` that is at `cp` or beyond: the latest
-- finalized block is not before the last processed one, both are blocks from `cp` to `top`, and the
-- latest available block is not before the latest finalized one.
pub record IsStatus (start top cp : ℕ) (r : Result IndexerStatus) : Type 0 where
  pub status : IndexerStatus
  pub returned : r ≡ ok status
  pub processed : ℕ
  pub latest : ℕ
  pub available : ℕ
  pub last_processed_block : status.last_processed_block ≡ pos processed
  pub latest_finalized_block : status.latest_finalized_block ≡ some (pos latest)
  pub latest_available_block : status.latest_available_block ≡ some (pos available)
  pub reached : (start ≤ processed) × (cp ≤ processed)
  pub in_order : (processed ≤ latest) × (latest ≤ available)
  pub below : latest ≤ top

-- The latest of the finalized and the hot blocks is not before the finalized one.
max_option_available :
    (n : ℕ) (o : Option ℤ) → (m : ℕ) × (max_option (some (pos n)) o ≡ some (pos m)) × (n ≤ m)
unfolding max_option
max_option_available n none = (n, refl, omega arith)
max_option_available n (some (pos m)) = elim (Bool-cases (leb_ℤ (pos n) (pos m))) [
  | inl e ↦ (m, rw e refl, ground arith)
  | inr e ↦ (n, rw e refl, omega arith)
]
max_option_available n (some (negsuc m)) = (n, ground arith, omega arith)

bind_step :
    {A B : Type 0} (m : Exec Host A) (next : A → Exec Host B) (h h' : Host) (a : A)
    → m h ≡ (ok a, h')
    → (m >>= next) h ≡ next a h'
unfolding ◌>>=◌
bind_step m next h h' a e = rw e refl

module _ (others : ℕ → Database → Database) (start top : ℕ)
    (moved : (t : ℕ) (d : Database) (inv : IsFinalized start top d)
      → (inv' : IsFinalized start top (others t d)) × (inv.cp ≤ inv'.cp)) where
  checkpoint_read :
      (h : Host) (c : ℕ)
      → (others h.time h.database).indexer_checkpoint ≡ some (pos c)
      → query others reliable (λ db. one_row db.indexer_checkpoint db) h
        ≡ (ok (pos c), record { database = others h.time h.database; time = h.time + 1 })
  unfolding query execute
  checkpoint_read h c e = rw e refl

  status_after-IsStatus :
      (h : Host) (inv : IsFinalized start top h.database) (cp : ℕ)
      → start ≤ inv.cp
      → cp ≤ inv.cp
      → IsStatus start top cp (status_after others reliable (pos inv.cp) h).0
  unfolding status_after query execute ◌>>=◌
  status_after-IsStatus h inv cp reached up =
      let d : Database = others h.time h.database in
      let (inv', up') = moved h.time h.database inv in
      let found = latest_of start top d inv' (omega arith) in
      let hot = max_number (others (h.time + 1) d).hot_indexed_blocks in
      let (available, is_max, le) = max_option_available inv'.cp hot in
      record {
        status = _;
        returned = refl;
        processed = inv.cp;
        latest = inv'.cp;
        available = available;
        last_processed_block = refl;
        latest_finalized_block = found;
        latest_available_block = ap (λ o. max_option o hot) found ∙ is_max;
        reached = (reached, up);
        in_order = (up', le);
        below = inv'.below;
      }

  -- On a server that answers, and while the other clients keep the finalized lane in order and its
  -- checkpoint does not go back between the five queries: once the lane has its first block,
  -- indexer_status returns a status. Its last processed block is not before the checkpoint at the
  -- beginning, its latest finalized block not before the last processed one, and its latest
  -- available block not before the latest finalized one.
  pub indexer_status-latest :
      (h : Host) (inv : IsFinalized start top h.database)
      → start ≤ inv.cp
      → IsStatus start top inv.cp (indexer_status others reliable h).0
  unfolding indexer_status
  indexer_status-latest h inv reached =
      let (inv₁, up) = moved h.time h.database inv in
      rw
        (bind_step _ (status_after others reliable) h _ _
          (checkpoint_read h inv₁.cp inv₁.checkpoint))
        (status_after-IsStatus (record { database = others h.time h.database; time = h.time + 1 })
          inv₁ inv.cp (omega arith) up)
