-- ===== src/Storage/Session.antt =====
-- sqlx's `Pool` and `Transaction` over a server that may refuse any request, and that may lose the
-- reply to a commit. `answer t` is the server's answer to the request number `t`.
use rust_ethereum_indexer.Prelude.{ℕ, ◌+◌, Result, ok, err, sql, Exec}
use rust_ethereum_indexer.Storage.Tables.{Database}

-- `lost`: the request was carried out, and the client saw an error.
pub data Answer : Type 0 where
  done : Answer
  refused : ℕ → Answer
  lost : ℕ → Answer

-- `database`: what the server holds; within a transaction, what the transaction sees.
pub record Host : Type 0 where
  pub database : Database
  pub time : ℕ

abbrev pub Statement : Type 0 → Type 0
Statement A = Database → Result (A × Database)

abbrev pub tick : Host → Host
tick h = record h { time = h.time + 1 }

abbrev pub settle : {A : Type 0} → Host → Result (A × Database) → Result A × Host
settle h (ok (a, db)) = (ok a, record h { database = db })
settle h (err e) = (err e, h)

-- The server that answers every request.
abbrev pub reliable : ℕ → Answer
reliable t = done

module _ (answer : ℕ → Answer) where
  -- `.execute(…)`, `.fetch_one(…)`, `.fetch_optional(…)`: one statement
  unfoldable pub execute : {A : Type 0} → Statement A → Exec Host A
  execute st h = elim (answer h.time) [
    | done ↦ settle (tick h) (st h.database)
    | refused c ↦ (err (sql c), tick h)
    | lost c ↦ (err (sql c), tick h)
  ]

  -- `tx.commit()`: `before` is what the server held when the transaction began.
  unfoldable pub commit : {A : Type 0} → Database → A → Host → Result A × Host
  commit before a h = elim (answer h.time) [
    | done ↦ (ok a, tick h)
    | refused c ↦ (err (sql c), record (tick h) { database = before })
    | lost c ↦ (err (sql c), tick h)
  ]

  -- A transaction that is dropped with an error is rolled back.
  unfoldable pub close : {A : Type 0} → Database → Result A × Host → Result A × Host
  unfolding commit
  close before (ok a, h) = commit before a h
  close before (err e, h) = (err e, record h { database = before })

  -- let mut tx = db_pool.begin().await?; … tx.commit().await?;
  unfoldable pub transaction : {A : Type 0} → Exec Host A → Exec Host A
  unfolding close
  transaction body h = elim (answer h.time) [
    | done ↦ close h.database (body (tick h))
    | refused c ↦ (err (sql c), tick h)
    | lost c ↦ (err (sql c), tick h)
  ]
