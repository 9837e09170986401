-- ===== src/Storage/Members.antt =====
-- Which rows a transfers table holds after INSERT … ON CONFLICT DO NOTHING.
use rust_ethereum_indexer.Prelude.{
  ◌≡◌, refl, ap, ◌∙◌, true, List, [], ◌∷◌, arith, any_of, Bool-cases, ◌⊎◌, inl, inr, In,
}
use rust_ethereum_indexer.Storage.Tables.{Transfer, same_key, has_key, insert_missing}
use rust_ethereum_indexer.Storage.Rows.{same_key_refl}

-- A row with the same key is found.
any_of-In :
    (r : Transfer) (rows : List Transfer)
    → any_of (same_key r) rows ≡ true
    → (q : Transfer) × In q rows × (same_key r q ≡ true)
unfolding any_of
any_of-In r [] found = absurd (ground arith)
any_of-In r (q ∷ rows) found = elim (Bool-cases (same_key r q)) [
  | inl same ↦ (q, inl refl, same)
  | inr other ↦ let (q', at, same) = any_of-In r rows (ground arith) in (q', inr at, same)
]

-- A row that was there stays.
pub insert_missing_old :
    (rs rows : List Transfer) (r : Transfer) → In r rows → In r (insert_missing rs rows).1
unfolding insert_missing
insert_missing_old [] rows r at = at
insert_missing_old (q ∷ rs) rows r at = elim (Bool-cases (has_key q rows)) [
  | inl e ↦ rw (e, insert_missing) (insert_missing_old rs rows r at)
  | inr e ↦ rw (e, insert_missing) (insert_missing_old rs (q ∷ rows) r (inr at))
]

-- A row was there, or is a given one.
pub In-insert_missing :
    (rs rows : List Transfer) (r : Transfer) → In r (insert_missing rs rows).1 → In r rs ⊎ In r rows
unfolding insert_missing
In-insert_missing [] rows r at = inr at
In-insert_missing (q ∷ rs) rows r at = elim (Bool-cases (has_key q rows)) [
  | inl e ↦ ground (arith, In-insert_missing rs rows r)
  | inr e ↦ ground (arith, In-insert_missing rs (q ∷ rows) r)
]

-- Some row has the key of `r`.
abbrev KeyIn : Transfer → List Transfer → Type 0
KeyIn r rows = (q : Transfer) × In q rows × (same_key r q ≡ true)

-- The first of the given rows: its key was there, or it is added.
first_in :
    (p r : Transfer) (rs rows : List Transfer)
    → r ≡ p
    → KeyIn p rows
    → KeyIn r (insert_missing rs rows).1
first_in p r rs rows same (q, found, key) =
    (q, insert_missing_old rs rows q found, ap (λ r. same_key r q) same ∙ key)

-- Of each given row there is one with its key afterwards.
pub insert_missing_new :
    (rs rows : List Transfer) (r : Transfer)
    → In r rs
    → (q : Transfer) × In q (insert_missing rs rows).1 × (same_key r q ≡ true)
unfolding insert_missing has_key
insert_missing_new [] rows r at = absurd at
insert_missing_new (p ∷ rs) rows r (inl same) = elim (Bool-cases (has_key p rows)) [
  | inl e ↦ rw (e, insert_missing) (first_in p r rs rows same (any_of-In p rows e))
  | inr e ↦ rw (e, insert_missing) (first_in p r rs (p ∷ rows) same (p, inl refl, same_key_refl p))
]
insert_missing_new (p ∷ rs) rows r (inr later) = elim (Bool-cases (has_key p rows)) [
  | inl e ↦ rw (e, insert_missing) (insert_missing_new rs rows r later)
  | inr e ↦ rw (e, insert_missing) (insert_missing_new rs (p ∷ rows) r later)
]
