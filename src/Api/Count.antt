-- ===== src/Api/Count.antt =====
-- How often a list of rows holds a transfer, and that ordering and filtering keep it.
use rust_ethereum_indexer.Prelude.{
  ap, ◌∙◌, length-append, ◌+◌, Bool, true, ◌≡◌, refl, List, [], ◌∷◌, ◌++◌, keep_if, arith, length,
  Bool-cases, inl, inr, ℕ,
}
use rust_ethereum_indexer.Storage.Tables.{Transfer}
use rust_ethereum_indexer.Api.Query.{insert_latest, order_latest}

-- The number of the rows that pass the test.
abbrev pub count_if : (Transfer → Bool) → List Transfer → ℕ
count_if test rows = length (keep_if test rows)

count_insert_latest :
    (test : Transfer → Bool) (r : Transfer) (rows : List Transfer)
    → count_if test (insert_latest r rows) ≡ count_if test (r ∷ rows)
unfolding insert_latest keep_if
count_insert_latest test r [] = refl
count_insert_latest test r (q ∷ rows) = ground (arith, count_insert_latest test r rows)

pub count_order_latest :
    (test : Transfer → Bool) (rows : List Transfer)
    → count_if test (order_latest rows) ≡ count_if test rows
unfolding order_latest keep_if
count_order_latest test [] = refl
count_order_latest test (r ∷ rows) =
    count_insert_latest test r (order_latest rows) ∙ ground (arith, count_order_latest test rows)

keep_if-append :
    (test : Transfer → Bool) (rows more : List Transfer)
    → keep_if test (rows ++ more) ≡ keep_if test rows ++ keep_if test more
unfolding keep_if
keep_if-append test [] more = refl
keep_if-append test (r ∷ rows) more = ground (arith, keep_if-append test rows more)

pub count_append :
    (test : Transfer → Bool) (rows more : List Transfer)
    → count_if test (rows ++ more) ≡ count_if test rows + count_if test more
count_append test rows more =
    ap length (keep_if-append test rows more)
    ∙ length-append (keep_if test rows) (keep_if test more)

-- A filter that lets pass all that the test does.
pub count_kept :
    (test filter : Transfer → Bool) (rows : List Transfer)
    → ((r : Transfer) → test r ≡ true → filter r ≡ true)
    → count_if test (keep_if filter rows) ≡ count_if test rows
unfolding keep_if
count_kept test filter [] lets = refl
count_kept test filter (r ∷ rows) lets =
    let rest = count_kept test filter rows lets in
    elim (Bool-cases (test r)) [
      | inl passes ↦ let kept = lets r passes in ground (arith, rest)
      | inr stops ↦ ground (arith, rest)
    ]
