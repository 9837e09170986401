-- ===== src/Ingestion/Keeps.antt =====
-- What code that acts on the world does to the database, whatever the services answer: triples of a
-- condition before, a condition on the value that is returned, and one for errors.
use rust_ethereum_indexer.Prelude.{
  ℕ, ◌+◌, ◌∙◌, Bool, true, false, ◌≡◌, refl, ap, inl, inr, if◌then◌else◌, Error, Result, ok, err,
  Exec, pure, raise, lift, continue, ◌>>=◌,
}
use rust_ethereum_indexer.Storage.Tables.{Database}
use rust_ethereum_indexer.Storage.Session.{Answer, done, refused, lost, Host, execute, settle, tick}
use rust_ethereum_indexer.Storage.Atomic.{Settles}
use rust_ethereum_indexer.World.{World, on_host, count, ask, read_clock}
use rust_ethereum_indexer.Observability.Metrics.{IndexerMetrics}

abbrev pub Post :
    {A : Type 0} → (A → Database → Type 0) → (Database → Type 0) → Result A × World → Type 0
Post Q E (ok a, w) = Q a w.host.database
Post Q E (err c, w) = E w.host.database

abbrev pub HostPost :
    {A : Type 0} → (A → Database → Type 0) → (Database → Type 0) → Result A × Host → Type 0
HostPost Q E (ok a, h) = Q a h.database
HostPost Q E (err c, h) = E h.database

pub record Triple {A : Type 0} (P : Database → Type 0) (m : Exec World A)
    (Q : A → Database → Type 0) (E : Database → Type 0) : Type 0 where
  pub at : (w : World) → P w.host.database → Post Q E (m w)

-- A condition that the other clients of the server keep, and that implies the one for errors.
pub record Steady (others : ℕ → Database → Database) (P E : Database → Type 0) : Type 0 where
  pub safe : (d : Database) → P d → E d
  pub kept : (t : ℕ) (d : Database) → P d → P (others t d)

module _ {E : Database → Type 0} where
  pub Triple-pure : {A : Type 0} (a : A) {Q : A → Database → Type 0} → Triple (Q a) (pure a) Q E
  unfolding pure
  Triple-pure a = record { at = λ w h. h }

  pub Triple-raise : {A : Type 0} (c : Error) {Q : A → Database → Type 0} → Triple E (raise c) Q E
  unfolding raise
  Triple-raise c = record { at = λ w h. h }

  pub Triple-bind :
      {A B : Type 0} (m : Exec World A) (f : A → Exec World B) {P : Database → Type 0}
      (Q : A → Database → Type 0) {R : B → Database → Type 0}
      → Triple P m Q E
      → ((a : A) → Triple (Q a) (f a) R E)
      → Triple P (m >>= f) R E
  unfolding ◌>>=◌
  Triple-bind {A} {B} m f {P} Q {R} tm tf = record { at = λ w h. go (m w) (tm.at w h) }
    where
      go : (r : Result A × World) → Post Q E r → Post R E (continue r.0 f r.1)
      go (ok a, w) h = (tf a).at w h
      go (err c, w) h = h

  pub Triple-weaken :
      {A : Type 0} (m : Exec World A) {P P' : Database → Type 0} {Q Q' : A → Database → Type 0}
      → ((d : Database) → P' d → P d)
      → ((a : A) (d : Database) → Q a d → Q' a d)
      → Triple P m Q E
      → Triple P' m Q' E
  Triple-weaken {A} m {P} {P'} {Q} {Q'} before after t = record {
    at = λ w h. go (m w) (t.at w (before w.host.database h));
  }
    where
      go : (r : Result A × World) → Post Q E r → Post Q' E r
      go (ok a, w) h = after a w.host.database h
      go (err c, w) h = h

  -- A part of the condition that is about no database.
  pub Triple-fact :
      {A F : Type 0} (m : Exec World A) {P : Database → Type 0} {Q : A → Database → Type 0}
      → (F → Triple P m Q E)
      → Triple (λ d. F × P d) m Q E
  Triple-fact m t = record { at = λ w h. (t h.0).at w h.1 }

  pub Triple-if :
      {A : Type 0} (b : Bool) (m n : Exec World A) {P : Database → Type 0}
      {Q : A → Database → Type 0}
      → (b ≡ true → Triple P m Q E)
      → (b ≡ false → Triple P n Q E)
      → Triple P (if b then m else n) Q E
  Triple-if true m n tm tn = tm refl
  Triple-if false m n tm tn = tn refl

  -- A fact that holds before may be used to choose the triple.
  pub Triple-given :
      {A : Type 0} (m : Exec World A) {P : Database → Type 0} {Q : A → Database → Type 0}
      → ((d : Database) → P d → Triple (λ d'. d' ≡ d) m Q E)
      → Triple P m Q E
  Triple-given m f = record { at = λ w h. (f w.host.database h).at w refl }

  pub Triple-count :
      (f : IndexerMetrics → IndexerMetrics) {P : Database → Type 0} → Triple P (count f) (λ _. P) E
  unfolding count
  Triple-count f = record { at = λ w h. h }

  pub Triple-clock :
      (clock : ℕ → ℕ) {P : Database → Type 0} → Triple P (read_clock clock) (λ _. P) E
  unfolding read_clock
  Triple-clock clock = record { at = λ w h. h }

  pub Triple-on_host :
      {A : Type 0} (others : ℕ → Database → Database) (m : Exec Host A) {P : Database → Type 0}
      {Q : A → Database → Type 0}
      → ((t : ℕ) (d : Database) → P d → P (others t d))
      → ((h : Host) → P h.database → HostPost Q E (m h))
      → Triple P (on_host others m) Q E
  unfolding on_host
  Triple-on_host {A} others m {P} {Q} kept f = record {
    at = λ w h. go w (m (met w)) (f (met w) (kept w.host.time w.host.database h));
  }
    where
      -- The server as the call finds it.
      met : World → Host
      met w = record w.host { database = others w.host.time w.host.database }

      go :
          (w : World) (r : Result A × Host)
          → HostPost Q E r
          → Post Q E (r.0, record w { host = r.1 })
      go w (ok a, h) p = p
      go w (err c, h) p = p

  -- Two conditions in one: the error condition holds whenever the code starts from `P`.
  module _ {P : Database → Type 0} (safe : (d : Database) → P d → E d) where
    pub Triple-lift : {A : Type 0} (r : Result A) → Triple P (lift r) (λ a d. (r ≡ ok a) × P d) E
    unfolding lift
    Triple-lift (ok a) = record { at = λ w h. (refl, h) }
    Triple-lift (err c) = record { at = λ w h. safe w.host.database h }

    pub Triple-ask :
        {A : Type 0} (op : ℕ → Result A)
        → Triple P (ask op) (λ a d. ((t : ℕ) × (op t ≡ ok a)) × P d) E
    unfolding ask
    Triple-ask {A} op = record { at = λ w h. go w h (op w.time) refl }
      where
        go :
            (w : World)
            → P w.host.database
            → (r : Result A) → op w.time ≡ r
            → Post
                (λ a d. ((t : ℕ) × (op t ≡ ok a)) × P d)
                E
                (r, record w { host = record w.host { time = w.time + 1 } })
        go w h (ok a) e = ((w.time, e), h)
        go w h (err c) e = safe w.host.database h

  -- What the other clients do keeps the condition, and it implies the one for errors.
  module _ {P : Database → Type 0} (others : ℕ → Database → Database)
      (steady : Steady others P E) where
    settle_post :
        {A : Type 0} (f : Database → Result (A × Database)) (h : Host)
        → ((d d' : Database) (a : A) → f d ≡ ok (a, d') → d' ≡ d)
        → P h.database
        → (r : Result (A × Database)) → f h.database ≡ r
        → HostPost (λ a d. (f d ≡ ok (a, d)) × P d) E (settle h r)
    settle_post f h reads_only p (ok (a, d')) e =
        let same : d' ≡ h.database = reads_only h.database d' a e in
        rw same (e ∙ ap (λ d. ok (a, d)) same, p)
    settle_post f h reads_only p (err c) e = steady.safe h.database p

    read_post :
        {A : Type 0} (answer : ℕ → Answer) (f : Database → Result (A × Database)) (h : Host)
        → ((d d' : Database) (a : A) → f d ≡ ok (a, d') → d' ≡ d)
        → P h.database
        → (reply : Answer) → answer h.time ≡ reply
        → HostPost (λ a d. (f d ≡ ok (a, d)) × P d) E (execute answer f h)
    unfolding execute
    read_post answer f h reads_only p done e =
        rw (e, execute) (settle_post f (tick h) reads_only p (f h.database) refl)
    read_post answer f h reads_only p (refused c) e = rw (e, execute) (steady.safe h.database p)
    read_post answer f h reads_only p (lost c) e = rw (e, execute) (steady.safe h.database p)

    -- A statement that reads.
    pub Triple-read :
        {A : Type 0} (answer : ℕ → Answer) (f : Database → Result (A × Database))
        → ((d d' : Database) (a : A) → f d ≡ ok (a, d') → d' ≡ d)
        → Triple P (on_host others (execute answer f)) (λ a d. (f d ≡ ok (a, d)) × P d) E
    Triple-read answer f reads_only =
        Triple-on_host others (execute answer f) steady.kept
          (λ h p. read_post answer f h reads_only p (answer h.time) refl)

    read_map_post :
        {A B : Type 0} (m : Exec Host A) (g : A → B) (f : Database → Result (A × Database))
        (h : Host)
        → HostPost (λ a d. (f d ≡ ok (a, d)) × P d) E (m h)
        → HostPost
            (λ b d. ((a : A) × (f d ≡ ok (a, d)) × (b ≡ g a)) × P d)
            E
            ((m >>= λ a. pure (g a)) h)
    unfolding ◌>>=◌
    read_map_post {A} {B} m g f h p = go (m h) p
      where
        go :
            (r : Result A × Host)
            → HostPost (λ a d. (f d ≡ ok (a, d)) × P d) E r
            → HostPost
                (λ b d. ((a : A) × (f d ≡ ok (a, d)) × (b ≡ g a)) × P d)
                E
                (continue r.0 (λ a. pure {S = Host} (g a)) r.1)
        go (ok a, h') q = ((a, q.0, refl), q.1)
        go (err c, h') q = q

    -- A statement that reads, and a value computed from what it gives.
    pub Triple-read_map :
        {A B : Type 0} (answer : ℕ → Answer) (f : Database → Result (A × Database)) (g : A → B)
        → ((d d' : Database) (a : A) → f d ≡ ok (a, d') → d' ≡ d)
        → Triple P
            (on_host others (execute answer f >>= λ a. pure (g a)))
            (λ b d. ((a : A) × (f d ≡ ok (a, d)) × (b ≡ g a)) × P d)
            E
    Triple-read_map answer f g reads_only = Triple-on_host others _ steady.kept (λ h p.
        read_map_post (execute answer f) g f h
          (read_post answer f h reads_only p (answer h.time) refl))

    -- A call that is all or nothing.
    pub Triple-settles :
        {A : Type 0} (m : Exec Host A) (a : Database → A) (after : Database → Database)
        {Q : Database → Type 0}
        → ((h : Host) → P h.database → Settles (m h) h.database (a h.database) (after h.database))
        → ((d : Database) → P d → E (after d))
        → ((d : Database) → P d → Q (after d))
        → Triple P (on_host others m) (λ _. Q) E
    Triple-settles {A} m a after {Q} s kept reached =
        Triple-on_host others m steady.kept (λ h p. go h p (m h) (s h p))
      where
        go :
            (h : Host)
            → P h.database
            → (r : Result A × Host) → Settles r h.database (a h.database) (after h.database)
            → HostPost (λ _. Q) E r
        go h p (ok b, h') t = rw (t.success b refl).1 (reached h.database p)
        go h p (err c, h') t = elim t.whole [
          | inl e ↦ rw e (steady.safe h.database p)
          | inr e ↦ rw e (kept h.database p)
        ]
