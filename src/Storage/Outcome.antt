-- ===== src/Storage/Outcome.antt =====
-- What code does on the server that answers every request.
use rust_ethereum_indexer.Prelude.{◌≡◌, refl, arith, Result, ok, Exec, pure, ◌>>=◌}
use rust_ethereum_indexer.Storage.Tables.{Database}
use rust_ethereum_indexer.Storage.Session.{
  Host, Statement, tick, reliable, execute, commit, close, transaction,
}

-- A result and the database that is left; the clock may have moved.
pub record Ends {A : Type 0} (r : Result A × Host) (a : A) (db : Database) : Type 0 where
  pub result : r.0 ≡ ok a
  pub database : r.1.database ≡ db

pub Ends-pure : {A : Type 0} (a : A) (h : Host) → Ends (pure a h) a h.database
unfolding pure
Ends-pure a h = record { result = refl; database = refl }

pub Ends-execute :
    {A : Type 0} (st : Statement A) (h : Host) (a : A) (db : Database)
    → st h.database ≡ ok (a, db)
    → Ends (execute reliable st h) a db
unfolding execute
Ends-execute st h a db e = rw e (record { result = refl; database = refl })

pub Ends-bind :
    {A B : Type 0} (m : Exec Host A) (f : A → Exec Host B) (h : Host) (a : A) (b : B)
    (db db' : Database)
    → Ends (m h) a db
    → ((h' : Host) → h'.database ≡ db → Ends (f a h') b db')
    → Ends ((m >>= f) h) b db'
unfolding ◌>>=◌
Ends-bind m f h a b db db' e k = rw e.result (k (m h).1 e.database)

-- A transaction whose body ends well ends with what the body left.
pub Ends-transaction :
    {A : Type 0} (body : Exec Host A) (h : Host) (a : A) (db : Database)
    → ((h' : Host) → h'.database ≡ h.database → Ends (body h') a db)
    → Ends (transaction reliable body h) a db
unfolding transaction close commit
Ends-transaction body h a db k =
    let e = k (tick h) refl in
    record { result = ground (arith, e.result); database = ground (arith, e.result, e.database) }
