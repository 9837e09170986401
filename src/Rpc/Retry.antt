-- ===== src/Rpc/Retry.antt =====
-- What `with_retry` of crates/rpc/src/lib.rs promises: the first success among `max_retries + 1`
-- attempts, or the last error.
use rust_ethereum_indexer.Prelude.{
  ℕ, zero, suc, ◌+◌, ◌-◌, ◌≤◌, ◌<◌, ◌%◌, true, false, ◌≡◌, refl, ap, ◌∙◌, ◌⊎◌, inl, inr, arith, ltb,
  Error, Result, ok, err, pure, raise, ◌>>=◌, u64_mod,
}
use rust_ethereum_indexer.Observability.Metrics.{record_rpc_result, record_rpc_retry}
use rust_ethereum_indexer.World.{World, ask, count}
use rust_ethereum_indexer.Rpc.Client.{retry_loop, with_retry}

module _ {A : Type 0} (op : ℕ → Result A) where
  -- The attempts from the time `t` to before `t + k` fail.
  abbrev pub AllFail : ℕ → ℕ → Type 0
  AllFail t zero = Unit
  AllFail t (suc k) = ((c : Error) × (op t ≡ err c)) × AllFail (t + 1) k

  -- `r` is the outcome of a call at `w`, of `left` attempts at most: `failed` attempts failed, and
  -- the next one succeeded, or there was none.
  pub record Outcome (left : ℕ) (w : World) (r : Result A × World) : Type 0 where
    pub failed : ℕ
    pub failures : AllFail w.host.time failed
    pub answer :
        ((a : A) × (r.0 ≡ ok a)
          × (op (w.host.time + failed) ≡ ok a)
          × (failed < left)
          × (r.1.host.time ≡ w.host.time + failed + 1)
          × (r.1.metrics.rpc_retries ≡ (w.metrics.rpc_retries + failed) % u64_mod))
        ⊎ ((c : Error) × (r.0 ≡ err c)
            × (op (w.host.time + failed - 1) ≡ err c)
            × (failed ≡ left)
            × (r.1.host.time ≡ w.host.time + failed)
            × (r.1.metrics.rpc_retries ≡ (w.metrics.rpc_retries + (failed - 1)) % u64_mod))
    pub counted : r.1.metrics.rpc_failures ≡ (w.metrics.rpc_failures + failed) % u64_mod
    pub untouched : r.1.host.database ≡ w.host.database

  -- The counters are 64 bits wide.
  abbrev pub Fits : World → Type 0
  Fits w = (w.metrics.rpc_failures < u64_mod) × (w.metrics.rpc_retries < u64_mod)

  abbrev pub ticked : World → World
  ticked w = record w { host = record w.host { time = w.host.time + 1 } }

  abbrev pub after_failure : World → World
  after_failure w = record (ticked w) {
    metrics = record w.metrics { rpc_failures = (w.metrics.rpc_failures + 1) % u64_mod };
  }

  abbrev pub after_retry : World → World
  after_retry w = record (after_failure w) {
    metrics = record (after_failure w).metrics {
      rpc_retries = (w.metrics.rpc_retries + 1) % u64_mod;
    };
  }

  module _ (fuel m attempt : ℕ) (w : World) where
    pub loop_good :
        (a : A) → op w.host.time ≡ ok a → retry_loop (suc fuel) m attempt op w ≡ (ok a, ticked w)
    unfolding retry_loop ask count pure raise ◌>>=◌ record_rpc_result
    loop_good a p = rw (p, retry_loop) refl

    loop_stop :
        (c : Error)
        → op w.host.time ≡ err c
        → m < attempt + 1
        → retry_loop (suc fuel) m attempt op w ≡ (err c, after_failure w)
    unfolding retry_loop ask count pure raise ◌>>=◌ record_rpc_result
    loop_stop c p last =
        let stop : ltb m (attempt + 1) ≡ true = ground arith in rw (p, retry_loop, stop) refl

    pub loop_more :
        (c : Error)
        → op w.host.time ≡ err c
        → attempt + 1 ≤ m
        → retry_loop (suc fuel) m attempt op w ≡ retry_loop fuel m (attempt + 1) op (after_retry w)
    unfolding ask count pure raise ◌>>=◌ record_rpc_result record_rpc_retry
    loop_more c p left =
        let go : ltb m (attempt + 1) ≡ false = ground arith in
        unfold retry_loop in rw (p, retry_loop, go) refl

  module _ (left : ℕ) (c : Error) (w : World) (r : Result A × World)
      (p : op w.host.time ≡ err c) where
    one_failure : Outcome (suc left) (after_retry w) r → Outcome (suc (suc left)) w r
    one_failure o = record {
      failed = suc o.failed;
      failures = ((c, p), o.failures);
      answer = elim o.answer [
        | inl (a, result, at, lt, time, retries) ↦
            inl (a, result, ap op (omega arith) ∙ at, omega arith, omega arith, omega arith)
        | inr (d, result, at, all, time, retries) ↦
            inr (d, result, ap op (omega arith) ∙ at, omega arith, omega arith, omega arith)
      ];
      counted = omega (arith, o.counted);
      untouched = o.untouched;
    }

  good-Outcome :
      (fuel m attempt : ℕ) (w : World) (a : A)
      → Fits w
      → op w.host.time ≡ ok a
      → Outcome (suc fuel) w (retry_loop (suc fuel) m attempt op w)
  good-Outcome fuel m attempt w a fit p = rw (loop_good fuel m attempt w a p) (record {
    failed = 0;
    failures = tt;
    answer = inl (a, refl, ap op (omega arith) ∙ p, omega arith, omega arith, omega arith);
    counted = omega arith;
    untouched = refl;
  })

  stop-Outcome :
      (m attempt : ℕ) (w : World) (c : Error)
      → m < attempt + 1
      → Fits w
      → op w.host.time ≡ err c
      → Outcome 1 w (retry_loop 1 m attempt op w)
  stop-Outcome m attempt w c last fit p = rw (loop_stop 0 m attempt w c p last) (record {
    failed = 1;
    failures = ((c, p), tt);
    answer = inr (c, refl, ap op (omega arith) ∙ p, refl, refl, omega arith);
    counted = refl;
    untouched = refl;
  })

  loop-Outcome :
      (fuel max_retries attempt : ℕ) (w : World)
      → attempt + fuel ≡ max_retries
      → Fits w
      → Outcome (suc fuel) w (retry_loop (suc fuel) max_retries attempt op w)
  loop-Outcome zero m attempt w e fit = go (op w.host.time) refl
    where
      go : (r : Result A) → op w.host.time ≡ r → Outcome 1 w (retry_loop 1 m attempt op w)
      go (ok a) p = good-Outcome 0 m attempt w a fit p
      go (err c) p = stop-Outcome m attempt w c (omega arith) fit p
  loop-Outcome (suc fuel) m attempt w e fit =
      go (op w.host.time) refl
        (loop-Outcome fuel m (attempt + 1) (after_retry w) (omega arith) (omega arith))
    where
      go :
          (r : Result A)
          → op w.host.time ≡ r
          → Outcome
              (suc fuel)
              (after_retry w)
              (retry_loop (suc fuel) m (attempt + 1) op (after_retry w))
          → Outcome (suc (suc fuel)) w (retry_loop (suc (suc fuel)) m attempt op w)
      go (ok a) p o = good-Outcome (suc fuel) m attempt w a fit p
      go (err c) p o =
          rw (loop_more (suc fuel) m attempt w c p (omega arith)) (one_failure fuel c w _ p o)

  -- A call makes `max_retries + 1` attempts at most. It returns the reply of the first attempt that
  -- succeeds, or else the error of the last; it counts each failed attempt once, and each further
  -- attempt as one retry, where the counters are below 2 ^ 64 before; and it leaves the database
  -- alone.
  pub with_retry-Outcome :
      (max_retries : ℕ) (w : World)
      → Fits w
      → Outcome (suc max_retries) w (with_retry max_retries op w)
  unfolding with_retry
  with_retry-Outcome max_retries w fit = loop-Outcome max_retries max_retries 0 w (omega arith) fit
