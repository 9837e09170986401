-- ===== src/Rpc/Success.antt =====
-- `with_retry` of crates/rpc/src/lib.rs, of an operation that does not fail too often.
use rust_ethereum_indexer.Prelude.{
  ℕ, zero, suc, ◌+◌, ◌≤◌, ◌≡◌, refl, ap, ◌∙◌, arith, Result, ok, err,
}
use rust_ethereum_indexer.World.{World}
use rust_ethereum_indexer.Rpc.Client.{retry_loop, with_retry}
use rust_ethereum_indexer.Rpc.Retry.{loop_good, loop_more, after_retry}

-- Of `m + 1` requests in a row at least one succeeds.
abbrev pub Responds : {A : Type 0} → ℕ → (ℕ → Result A) → Type 0
Responds {A} m op = (t : ℕ) → (k : ℕ) × (a : A) × (k ≤ m) × (op (t + k) ≡ ok a)

module _ {A : Type 0} (op : ℕ → Result A) where
  -- The outcome of a call that succeeds: the value is a reply.
  pub record Success (w : World) (r : Result A × World) : Type 0 where
    pub value : A
    pub result : r.0 ≡ ok value
    pub time : ℕ
    pub replied : op time ≡ ok value
    pub untouched : r.1.host.database ≡ w.host.database

  loop-Success :
      (k fuel m attempt : ℕ) (a : A) (w : World)
      → attempt + fuel ≡ m
      → k ≤ fuel
      → op (w.host.time + k) ≡ ok a
      → Success w (retry_loop (suc fuel) m attempt op w)
  loop-Success zero fuel m attempt a w e lim reply =
      rw (loop_good op fuel m attempt w a (ap op (omega arith) ∙ reply)) (record {
        value = a;
        result = refl;
        time = w.host.time + 0;
        replied = reply;
        untouched = refl;
      })
  loop-Success (suc k) zero m attempt a w e lim reply = absurd (omega arith)
  loop-Success (suc k) (suc fuel) m attempt a w e lim reply = go (op w.host.time) refl (
      loop-Success k fuel m (attempt + 1) a (after_retry op w) (omega arith) (omega arith)
        (ap op (omega arith) ∙ reply))
    where
      go :
          (r : Result A)
          → op w.host.time ≡ r
          → Success (after_retry op w) (retry_loop (suc fuel) m (attempt + 1) op (after_retry op w))
          → Success w (retry_loop (suc (suc fuel)) m attempt op w)
      go (ok b) p s =
          rw (loop_good op (suc fuel) m attempt w b p)
            (record { value = b; result = refl; time = w.host.time; replied = p; untouched = refl })
      go (err c) p s = rw (loop_more op (suc fuel) m attempt w c p (omega arith)) (record {
        value = s.value;
        result = s.result;
        time = s.time;
        replied = s.replied;
        untouched = s.untouched;
      })

  -- An operation that fails at most `max_retries` times in a row is retried until it succeeds.
  pub with_retry-Success :
      (max_retries : ℕ) (w : World)
      → Responds max_retries op
      → Success w (with_retry max_retries op w)
  unfolding with_retry
  with_retry-Success max_retries w responds =
      let (k, a, few, reply) = responds w.host.time in
      loop-Success k max_retries max_retries 0 a w (omega arith) few reply
