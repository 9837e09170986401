-- ===== src/Storage/Ranges.antt =====
-- The blocks of some rows, and the bounds that `insert_transfers_into_tx` computes from them.
use rust_ethereum_indexer.Prelude.{ℕ, min, max, ◌≤◌, ◌≡◌, List, [], ◌∷◌, arith, pos, All}
use rust_ethereum_indexer.Storage.Tables.{Transfer}
use rust_ethereum_indexer.Storage.Statements.{min_block, max_block}

-- The block lies in the range from `lo` to `hi`.
abbrev pub Within : ℕ → ℕ → Transfer → Type 0
Within lo hi r = (n : ℕ) × (r.block_number ≡ pos n) × (lo ≤ n) × (n ≤ hi)

-- The least and the greatest block of some rows, for the bounds of the loop.
pub record Spans (lo hi : ℕ) (r : Transfer) (rs : List Transfer) : Type 0 where
  pub least : ℕ
  pub greatest : ℕ
  pub min_eq : min_block r rs ≡ pos least
  pub max_eq : max_block r rs ≡ pos greatest
  pub lo_le : lo ≤ least
  pub le_hi : greatest ≤ hi
  pub le_all : least ≤ greatest
  pub within : All (Within least greatest) (r ∷ rs)

Within-wider :
    (lo hi lo' hi' : ℕ) (rs : List Transfer)
    → lo' ≤ lo
    → hi ≤ hi'
    → All (Within lo hi) rs
    → All (Within lo' hi') rs
Within-wider lo hi lo' hi' [] p q h = tt
Within-wider lo hi lo' hi' (r ∷ rs) p q h =
    ((h.0.0, h.0.1, omega arith, omega arith), Within-wider lo hi lo' hi' rs p q h.1)

Spans-more :
    (lo hi : ℕ) (r r' : Transfer) (rs : List Transfer)
    → Within lo hi r
    → Spans lo hi r' rs
    → Spans lo hi r (r' ∷ rs)
unfolding min_block max_block
Spans-more lo hi r r' rs (n, e, p, q) s = record {
  least = min n s.least;
  greatest = max n s.greatest;
  min_eq = ground (arith, s.min_eq);
  max_eq = ground (arith, s.max_eq);
  lo_le = omega (arith, s.lo_le);
  le_hi = omega (arith, s.le_hi);
  le_all = omega (arith, s.le_all);
  within = (
    (n, e, omega arith, omega arith),
    Within-wider s.least s.greatest _ _ (r' ∷ rs) (omega arith) (omega arith) s.within,
  );
}

pub spans :
    (lo hi : ℕ) (r : Transfer) (rs : List Transfer) → All (Within lo hi) (r ∷ rs) → Spans lo hi r rs
unfolding min_block max_block
spans lo hi r [] h = record {
  least = h.0.0;
  greatest = h.0.0;
  min_eq = h.0.1;
  max_eq = h.0.1;
  lo_le = omega (arith, h.0.2);
  le_hi = omega (arith, h.0.3);
  le_all = omega arith;
  within = ((h.0.0, h.0.1, omega arith, omega arith), tt);
}
spans lo hi r (r' ∷ rs) h = Spans-more lo hi r r' rs h.0 (spans lo hi r' rs h.1)
