-- ===== src/Api/Order.antt =====
-- The order of the rows that `erc20_transfers` of crates/api/src/schema.rs returns.
use rust_ethereum_indexer.Prelude.{
  true, false, ◌≡◌, List, [], ◌∷◌, All, All-map, arith, ◌≤ℤ◌, Bool-cases, inl, inr, ==ℤ→eq,
}
use rust_ethereum_indexer.Storage.Tables.{Transfer}
use rust_ethereum_indexer.Api.Query.{not_after, insert_latest, order_latest}

-- `a` may come before `b`: it is not of an earlier block, and in the same block its log index is
-- not smaller.
abbrev pub Latest : Transfer → Transfer → Type 0
Latest a b =
    (b.block_number ≤ℤ a.block_number)
    × (a.block_number ≡ b.block_number → b.log_index ≤ℤ a.log_index)

-- Latest first.
abbrev pub IsOrdered : List Transfer → Type 0
IsOrdered [] = Unit
IsOrdered (r ∷ rows) = All (λ q. Latest r q) rows × IsOrdered rows

Latest-here : (a b : Transfer) → not_after a b ≡ true → Latest a b
unfolding not_after
Latest-here a b h = (ground (arith, ==ℤ→eq a.block_number b.block_number), λ same. ground arith)

Latest-there : (a b : Transfer) → not_after a b ≡ false → Latest b a
unfolding not_after
Latest-there a b h = (ground (arith, ==ℤ→eq a.block_number b.block_number), λ same. ground arith)

Latest-trans : (a b c : Transfer) → Latest a b → Latest b c → Latest a c
Latest-trans a b c h k = (ground arith, λ same. ground arith)

pub insert_latest-All :
    (P : Transfer → Type 0) (r : Transfer) (rows : List Transfer)
    → P r
    → All P rows
    → All P (insert_latest r rows)
unfolding insert_latest
insert_latest-All P r [] p h = (p, tt)
insert_latest-All P r (q ∷ rows) p h = ground (arith, insert_latest-All P r rows p h.1)

insert_latest-IsOrdered :
    (r : Transfer) (rows : List Transfer) → IsOrdered rows → IsOrdered (insert_latest r rows)
unfolding insert_latest
insert_latest-IsOrdered r [] h = (tt, tt)
insert_latest-IsOrdered r (q ∷ rows) h =
    let rest = insert_latest-IsOrdered r rows h.1 in
    elim (Bool-cases (not_after r q)) [
      | inl e ↦
          let first = Latest-here r q e in
          rw (e, insert_latest)
            ((first, All-map _ _ rows (λ c k. Latest-trans r q c first k) h.0), h)
      | inr e ↦ rw (e, insert_latest) (insert_latest-All _ r rows (Latest-there r q e) h.0, rest)
    ]

pub order_latest-IsOrdered : (rows : List Transfer) → IsOrdered (order_latest rows)
unfolding order_latest
order_latest-IsOrdered [] = tt
order_latest-IsOrdered (r ∷ rows) =
    insert_latest-IsOrdered r (order_latest rows) (order_latest-IsOrdered rows)

pub order_latest-All :
    (P : Transfer → Type 0) (rows : List Transfer) → All P rows → All P (order_latest rows)
unfolding order_latest
order_latest-All P [] h = tt
order_latest-All P (r ∷ rows) h =
    insert_latest-All P r (order_latest rows) h.0 (order_latest-All P rows h.1)
