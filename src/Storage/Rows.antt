-- ===== src/Storage/Rows.antt =====
-- The transfers tables: INSERT … ON CONFLICT DO NOTHING, and DELETE.
use mathlib.Core.Path.{subst}
use rust_ethereum_indexer.Prelude.{
  sym, ℕ, ◌+◌, ◌≤◌, Bool, true, false, ◌≡◌, refl, ap, List, [], ◌∷◌, arith, ==ℤ-refl, bytes_eq_refl,
  keep_if, any_of, All, length, Bool-cases, inl, inr,
}
use rust_ethereum_indexer.Storage.Tables.{Transfer, same_key, has_key, insert_missing}

pub same_key_refl : (r : Transfer) → same_key r r ≡ true
unfolding same_key
same_key_refl r =
    ground (arith, bytes_eq_refl r.txn_hash, ==ℤ-refl r.log_index, ==ℤ-refl r.block_number)

-- Every row that was there, and every row that is new, satisfies what all of them do.
pub All-insert_missing {κ} :
    (P : Transfer → Type κ) (rs rows : List Transfer)
    → All P rs
    → All P rows
    → All P (insert_missing rs rows).1
unfolding insert_missing
All-insert_missing P [] rows h k = k
All-insert_missing P (r ∷ rs) rows h k = elim (Bool-cases (has_key r rows)) [
  | inl e ↦ rw (e, insert_missing) (All-insert_missing P rs rows h.1 k)
  | inr e ↦ rw (e, insert_missing) (All-insert_missing P rs (r ∷ rows) h.1 (h.0, k))
]

-- The count that the server reports is the number of rows by which the table grew.
pub insert_missing_count :
    (rs rows : List Transfer)
    → length (insert_missing rs rows).1 ≡ (insert_missing rs rows).0 + length rows
unfolding insert_missing
insert_missing_count [] rows = omega arith
insert_missing_count (r ∷ rs) rows = elim (Bool-cases (has_key r rows)) [
  | inl e ↦ rw (e, insert_missing) (insert_missing_count rs rows)
  | inr e ↦ rw (e, insert_missing) (omega (arith, insert_missing_count rs (r ∷ rows)))
]

pub insert_missing-le : (rs rows : List Transfer) → (insert_missing rs rows).0 ≤ length rs
unfolding insert_missing
insert_missing-le [] rows = omega arith
insert_missing-le (r ∷ rs) rows = elim (Bool-cases (has_key r rows)) [
  | inl e ↦ rw (e, insert_missing) (omega (arith, insert_missing-le rs rows))
  | inr e ↦ rw (e, insert_missing) (omega (arith, insert_missing-le rs (r ∷ rows)))
]

-- A row is never dropped by an insert.
pub any_of-insert_missing :
    (test : Transfer → Bool) (rs rows : List Transfer)
    → any_of test rows ≡ true
    → any_of test (insert_missing rs rows).1 ≡ true
unfolding insert_missing any_of
any_of-insert_missing test [] rows h = h
any_of-insert_missing test (r ∷ rs) rows h = elim (Bool-cases (has_key r rows)) [
  | inl e ↦ rw (e, insert_missing) (any_of-insert_missing test rs rows h)
  | inr e ↦ rw (e, insert_missing) (any_of-insert_missing test rs (r ∷ rows) (ground arith))
]

insert_missing_skip :
    (r : Transfer) (rs rows : List Transfer)
    → has_key r rows ≡ true
    → insert_missing (r ∷ rs) rows ≡ insert_missing rs rows
unfolding insert_missing
insert_missing_skip r rs rows e = rw (e, insert_missing)

insert_missing_add :
    (r : Transfer) (rs rows : List Transfer)
    → has_key r rows ≡ false
    → (insert_missing (r ∷ rs) rows).1 ≡ (insert_missing rs (r ∷ rows)).1
unfolding insert_missing
insert_missing_add r rs rows e = rw (e, insert_missing)

abbrev pub Holds : List Transfer → List Transfer → Type 0
Holds rows rs = All (λ r. has_key r rows ≡ true) rs

-- Afterwards every given row is there, under its key.
pub insert_missing-Holds : (rs rows : List Transfer) → Holds (insert_missing rs rows).1 rs
unfolding has_key any_of
insert_missing-Holds [] rows = tt
insert_missing-Holds (r ∷ rs) rows = elim (Bool-cases (has_key r rows)) [
  | inl e ↦
      subst (λ t. Holds t (r ∷ rs))
        (ap (λ (t : ℕ × List Transfer). t.1) (sym (insert_missing_skip r rs rows e)))
        (any_of-insert_missing (same_key r) rs rows e, insert_missing-Holds rs rows)
  | inr e ↦
      subst (λ t. Holds t (r ∷ rs)) (sym (insert_missing_add r rs rows e))
        (
          any_of-insert_missing (same_key r) rs (r ∷ rows) (ground (arith, same_key_refl r)),
          insert_missing-Holds rs (r ∷ rows),
        )
]

-- Rows that are there already change nothing and are not counted.
pub insert_missing_present :
    (rs rows : List Transfer) → Holds rows rs → insert_missing rs rows ≡ (0, rows)
unfolding insert_missing
insert_missing_present [] rows h = refl
insert_missing_present (r ∷ rs) rows h =
    rw (h.0, insert_missing) (insert_missing_present rs rows h.1)

-- PRIMARY KEY (txn_hash, log_index, block_number)
abbrev pub UniqueKeys : List Transfer → Type 0
UniqueKeys [] = Unit
UniqueKeys (r ∷ rows) = (has_key r rows ≡ false) × UniqueKeys rows

pub insert_missing-UniqueKeys :
    (rs rows : List Transfer) → UniqueKeys rows → UniqueKeys (insert_missing rs rows).1
unfolding insert_missing
insert_missing-UniqueKeys [] rows h = h
insert_missing-UniqueKeys (r ∷ rs) rows h = elim (Bool-cases (has_key r rows)) [
  | inl e ↦ rw (e, insert_missing) (insert_missing-UniqueKeys rs rows h)
  | inr e ↦ rw (e, insert_missing) (insert_missing-UniqueKeys rs (r ∷ rows) (e, h))
]

any_of-keep_if {ℓ} :
    {A : Type ℓ} (test keep : A → Bool) (xs : List A)
    → any_of test xs ≡ false
    → any_of test (keep_if keep xs) ≡ false
unfolding any_of keep_if
any_of-keep_if test keep [] h = refl
any_of-keep_if test keep (x ∷ xs) h = ground (arith, any_of-keep_if test keep xs)

pub keep_if-UniqueKeys :
    (keep : Transfer → Bool) (rows : List Transfer)
    → UniqueKeys rows
    → UniqueKeys (keep_if keep rows)
unfolding keep_if has_key
keep_if-UniqueKeys keep [] h = tt
keep_if-UniqueKeys keep (r ∷ rows) h =
    ground (arith, keep_if-UniqueKeys keep rows h.1, any_of-keep_if (same_key r) keep rows h.0)
