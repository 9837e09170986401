-- ===== src/Storage/Faults.antt =====
-- crates/storage over a server that fails: what a call did when it reports success, and that a
-- transaction is all or nothing.
use rust_ethereum_indexer.Prelude.{
  ℕ, ◌≡◌, refl, ap, ◌⊎◌, inl, arith, Result, ok, err, Exec, pure, continue, ◌>>=◌,
}
use rust_ethereum_indexer.Storage.Tables.{Database}
use rust_ethereum_indexer.Storage.Session.{
  Answer, Host, Statement, tick, reliable, execute, commit, close, transaction,
}

-- Where the code reports success, the server behaved as the reliable one, request by request.
pub record Agrees {A : Type 0} (m m' : Exec Host A) : Type 0 where
  pub at : (h : Host) (a : A) → (m h).0 ≡ ok a → m h ≡ m' h

pub Agrees-pure : {A : Type 0} (a : A) → Agrees (pure a) (pure a)
unfolding pure
Agrees-pure a = record { at = λ h b e. refl }

pub Agrees-bind :
    {A B : Type 0} (m m' : Exec Host A) (f f' : A → Exec Host B)
    → Agrees m m'
    → ((a : A) → Agrees (f a) (f' a))
    → Agrees (m >>= f) (m' >>= f')
unfolding ◌>>=◌
Agrees-bind {A} {B} m m' f f' km kf = record { at = λ h b e. step h b (m h) refl e }
  where
    step :
        (h : Host) (b : B) (r : Result A × Host)
        → m h ≡ r
        → (continue r.0 f r.1).0 ≡ ok b
        → (m >>= f) h ≡ (m' >>= f') h
    step h b (ok a, h') p e =
        rw (p, ← (km.at h a (ap (λ (r : Result A × Host). r.0) p)), p) ((kf a).at h' b e)
    step h b (err c, h') p e = ground arith

module _ (answer : ℕ → Answer) where
  pub Agrees-execute :
      {A : Type 0} (st : Statement A) → Agrees (execute answer st) (execute reliable st)
  unfolding execute
  Agrees-execute st = record { at = λ h a e. ground arith }

  module _ {A : Type 0} (body body' : Exec Host A) (agrees : Agrees body body') where
    close-Agrees :
        (before : Database) (h : Host) (r : Result A × Host)
        → body h ≡ r
        → (a : A) → (close answer before r).0 ≡ ok a
        → close answer before r ≡ close reliable before (body' h)
    unfolding close commit
    close-Agrees before h (ok b, h') p a e =
        ground (arith, agrees.at h b (ap (λ (r : Result A × Host). r.0) p))
    close-Agrees before h (err c, h') p a e = ground arith

    -- A transaction that reports success did what it does on the reliable server.
    pub Agrees-transaction : Agrees (transaction answer body) (transaction reliable body')
    unfolding transaction
    Agrees-transaction = record {
      at = λ h a e. ground (arith, close-Agrees h.database (tick h) (body (tick h)) refl a);
    }

    close_atomic :
        (before : Database) (h : Host) (r : Result A × Host)
        → body h ≡ r
        → ((close answer before r).1.database ≡ before)
          ⊎ ((close answer before r).1.database ≡ (close reliable before (body' h)).1.database)
    unfolding close commit
    close_atomic before h (ok b, h') p =
        ground (arith, agrees.at h b (ap (λ (r : Result A × Host). r.0) p))
    close_atomic before h (err c, h') p = inl refl

    -- Whatever requests fail, and if the reply to the commit is lost, the database is as before or
    -- as the whole transaction leaves it.
    pub transaction_atomic :
        (h : Host)
        → ((transaction answer body h).1.database ≡ h.database)
          ⊎ ((transaction answer body h).1.database ≡ (transaction reliable body' h).1.database)
    unfolding transaction
    transaction_atomic h = ground (arith, close_atomic h.database (tick h) (body (tick h)) refl)
