-- ===== src/Ingestion/Total.antt =====
-- Code of the workers that succeeds: the rules for triples whose condition for errors never holds.
use mathlib.Core.Path.{subst}
use rust_ethereum_indexer.Prelude.{ℕ, ◌≡◌, refl, sym, ◌∙◌, arith, Result, ok, err, Exec, lift}
use rust_ethereum_indexer.Storage.Tables.{Database}
use rust_ethereum_indexer.Storage.Session.{Host}
use rust_ethereum_indexer.Storage.Outcome.{Ends}
use rust_ethereum_indexer.World.{World, on_host}
use rust_ethereum_indexer.Rpc.Client.{with_retry}
use rust_ethereum_indexer.Rpc.Success.{Responds, Success, with_retry-Success}
use rust_ethereum_indexer.Ingestion.Keeps.{Post, HostPost, Triple, Triple-on_host}
use rust_ethereum_indexer.Ingestion.Fetch.{Replied}

abbrev pub Never : Database → Type 0
Never d = ⊥

module _ {A : Type 0} {P E : Database → Type 0} where
  -- A call of the storage crate that is known to succeed.
  pub Triple-ends :
      (others : ℕ → Database → Database) (m : Exec Host A) {Q : A → Database → Type 0}
      → ((t : ℕ) (d : Database) → P d → P (others t d))
      → ((h : Host) → P h.database → (a : A) × (d : Database) × Ends (m h) a d × Q a d)
      → Triple P (on_host others m) Q E
  Triple-ends others m {Q} kept f =
      Triple-on_host others m kept (λ h p. let (a, d, ends, q) = f h p in go a d (m h) ends q)
    where
      go : (a : A) (d : Database) (r : Result A × Host) → Ends r a d → Q a d → HostPost Q E r
      go a d (ok b, h) ends q =
          subst (λ b. Q b h.database) (ground (arith, ends.result))
            (subst (Q a) (sym ends.database) q)
      go a d (err c, h) ends q = absurd (ground (arith, ends.result))

  -- What holds if the code returns, and that it returns.
  pub Triple-total :
      (m : Exec World A) {E' : Database → Type 0} {Q Q' : A → Database → Type 0}
      → Triple P m Q E'
      → Triple P m Q' E
      → Triple P m (λ a d. Q a d × Q' a d) E
  Triple-total m {E'} {Q} {Q'} some_of all_of = record {
    at = λ w h. go (m w) (some_of.at w h) (all_of.at w h);
  }
    where
      go : (r : Result A × World) → Post Q E' r → Post Q' E r → Post (λ a d. Q a d × Q' a d) E r
      go (ok a, w) q q' = (q, q')
      go (err c, w) q q' = q'

  pub Triple-responds :
      (max_retries : ℕ) (op : ℕ → Result A)
      → Responds max_retries op
      → Triple P (with_retry max_retries op) (λ a d. Replied op a × P d) E
  Triple-responds m op responds = record {
    at = λ w h. go w h (with_retry m op w) (with_retry-Success op m w responds);
  }
    where
      go :
          (w : World)
          → P w.host.database
          → (r : Result A × World) → Success op w r
          → Post (λ a d. Replied op a × P d) E r
      go w h (ok a, w') s = ((s.time, s.replied ∙ sym s.result), subst P (sym s.untouched) h)
      go w h (err c, w') s = absurd (ground (arith, s.result))

  pub Triple-lift_ok :
      (r : Result A) (a : A) → r ≡ ok a → Triple P (lift r) (λ b d. (r ≡ ok b) × P d) E
  unfolding lift
  Triple-lift_ok (ok b) a e = record { at = λ w h. (refl, h) }
  Triple-lift_ok (err c) a e = absurd (ground arith)

  -- A fact that the condition implies.
  pub Triple-known :
      {F : Type 0} (m : Exec World A) {Q : A → Database → Type 0}
      → ((d : Database) → P d → F)
      → (F → Triple P m Q E)
      → Triple P m Q E
  Triple-known m fact t = record { at = λ w h. (t (fact w.host.database h)).at w h }
