-- ===== src/Observability/Rates.antt =====
-- `RollingThroughput` of crates/observability/src/lib.rs against its specification: the sums over
-- the batches of the last `window_secs` seconds.
use rust_ethereum_indexer.Prelude.{
  ℕ, ◌+◌, ◌-◌, ◌%◌, ◌≤◌, ◌<◌, max, true, false, Bool-cases, inl, inr, ◌≡◌, refl, ap, List, [], ◌∷◌,
  All, All-map, arith, ltb, leb, ◌==◌, if◌then◌else◌, u64_mod,
}
use rust_ethereum_indexer.Observability.Throughput.{
  Bucket, RollingThroughput, new, push_bucket, drop_older, oldest_second, prune, total,
  snapshot_for, record_batch, snapshot, wrapping_add,
}
use rust_ethereum_indexer.Observability.Window.{IsRolling, record_batch_rolls}

-- Batches, the latest first, as buckets of their own; the clock does not run backwards.
abbrev pub InTime : ℕ → List Bucket → Type 0
InTime now [] = Unit
InTime now (b ∷ history) = (b.second ≤ now) × InTime b.second history

-- The state after the batches.
unfoldable pub replay : ℕ → List Bucket → RollingThroughput
replay window_secs [] = new window_secs
replay window_secs (b ∷ history) =
    (record_batch (replay window_secs history) b.second b.blocks b.events).0

-- The sum over the batches from `oldest` on.
abbrev pub since : (Bucket → ℕ) → ℕ → List Bucket → ℕ
since f oldest [] = 0
since f oldest (b ∷ history) = (if leb oldest b.second then f b else 0) + since f oldest history

-- A number that is counted in the buckets.
record Counts (f : Bucket → ℕ) (now blocks events v : ℕ) : Type 0 where
  fresh : f (record { second = now; blocks = blocks; events = events }) ≡ v
  grown :
      (b : Bucket)
      → f (record b {
        blocks = wrapping_add b.blocks blocks;
        events = wrapping_add b.events events;
      })
        ≡ wrapping_add (f b) v

module _ (f : Bucket → ℕ) (now blocks events v : ℕ) (counts : Counts f now blocks events v) where
  total-push_bucket :
      (bs : List Bucket) → total f (push_bucket bs now blocks events) ≡ wrapping_add (total f bs) v
  unfolding total push_bucket
  total-push_bucket [] = rw counts.fresh (omega arith)
  total-push_bucket (b ∷ []) = elim (Bool-cases (b.second == now)) [
    | inl same ↦ rw (same, counts.grown b) (omega arith)
    | inr other ↦ rw (other, counts.fresh) (omega arith)
  ]
  total-push_bucket (b ∷ b' ∷ bs) = rw (total-push_bucket (b' ∷ bs)) (omega arith)

  -- A bucket that is not too old is counted, whatever is dropped.
  total_recent :
      (oldest : ℕ) (bs : List Bucket)
      → oldest ≤ now
      → total f (drop_older oldest (push_bucket bs now blocks events))
        ≡ wrapping_add (total f (drop_older oldest bs)) v
  unfolding total drop_older push_bucket
  total_recent oldest [] le =
      let kept : ltb now oldest ≡ false = ground arith in rw (kept, counts.fresh) (omega arith)
  total_recent oldest (b ∷ []) le =
      let kept : ltb now oldest ≡ false = ground arith in
      elim (Bool-cases (b.second == now)) [
        | inl same ↦
            let kept' : ltb b.second oldest ≡ false = ground arith in
            rw (same, kept', counts.grown b) (omega arith)
        | inr other ↦ elim (Bool-cases (ltb b.second oldest)) [
          | inl old ↦ rw (other, old, kept, counts.fresh) (omega arith)
          | inr young ↦ rw (other, young, counts.fresh) (omega arith)
        ]
      ]
  total_recent oldest (b ∷ b' ∷ bs) le =
      let rest = total_recent oldest (b' ∷ bs) le in
      elim (Bool-cases (ltb b.second oldest)) [
        | inl old ↦ rw old rest
        | inr young ↦ rw young (total-push_bucket (b ∷ b' ∷ bs))
      ]

-- What is dropped later makes up for what was dropped before.
drop_older-drop_older :
    (o₁ o : ℕ) (bs : List Bucket) → o₁ ≤ o → drop_older o (drop_older o₁ bs) ≡ drop_older o bs
unfolding drop_older
drop_older-drop_older o₁ o [] le = refl
drop_older-drop_older o₁ o (b ∷ bs) le =
    let rest = drop_older-drop_older o₁ o bs le in
    elim (Bool-cases (ltb b.second o₁)) [
      | inl old ↦ let older : ltb b.second o ≡ true = ground arith in rw (old, older) rest
      | inr young ↦ rw young refl
    ]

drop_older_each : (o : ℕ) (bs : List Bucket) → All (λ b. b.second < o) bs → drop_older o bs ≡ []
unfolding drop_older
drop_older_each o [] h = refl
drop_older_each o (b ∷ bs) h =
    let old : ltb b.second o ≡ true = ground (arith, h.0) in rw old (drop_older_each o bs h.1)

since_late :
    (f : Bucket → ℕ) (now o : ℕ) (history : List Bucket)
    → InTime now history
    → now < o
    → since f o history ≡ 0
since_late f now o [] times lt = refl
since_late f now o (b ∷ history) times lt =
    let late : leb o b.second ≡ false = ground (arith, times.0) in
    let rest = since_late f b.second o history times.1 (omega (arith, times.0)) in
    rw late (omega (arith, rest))

module _ (window_secs : ℕ) where
  -- The seconds that the window reaches back before the present one.
  abbrev pub reach : ℕ
  reach = max window_secs 1 - 1

  replay_window :
      (history : List Bucket) → (replay window_secs history).window_secs ≡ max window_secs 1
  unfolding replay new record_batch prune
  replay_window [] = refl
  replay_window (b ∷ history) = replay_window history

  replay-IsRolling :
      (history : List Bucket) (now : ℕ)
      → InTime now history
      → IsRolling now (replay window_secs history)
  unfolding replay new
  replay-IsRolling [] now times = record { window = omega arith; sorted = tt; past = tt }
  replay-IsRolling (b ∷ history) now times =
      let before = replay-IsRolling history b.second times.1 in
      let (after, _) =
        record_batch_rolls b.second b.blocks b.events (replay window_secs history) before in
      record {
        window = after.window;
        sorted = after.sorted;
        past = All-map _ _ _ (λ c le. omega (arith, times.0)) after.past;
      }

  module _ (f : Bucket → ℕ)
      (counts : (b : Bucket) → Counts f b.second b.blocks b.events (f b)) where
    one_more :
        (b : Bucket) (history : List Bucket) (o : ℕ)
        → InTime b.second history
        → b.second - reach ≤ o
        → total f (drop_older o (replay window_secs history).buckets) ≡ since f o history % u64_mod
        → total f (drop_older o (replay window_secs (b ∷ history)).buckets)
          ≡ since f o (b ∷ history) % u64_mod
    unfolding replay record_batch prune total
    one_more b history o times le before =
        let width = replay_window history in
        let again =
          drop_older-drop_older (oldest_second (replay window_secs history) b.second) o
            (push_bucket (replay window_secs history).buckets b.second b.blocks b.events)
            (omega (arith, width)) in
        elim (Bool-cases (leb o b.second)) [
          | inl recent ↦
              let step =
                total_recent f b.second b.blocks b.events (f b) (counts b) o
                  (replay window_secs history).buckets (ground arith) in
              rw (recent, again, step, before) (omega arith)
          | inr late ↦
              let lt : b.second < o = ground arith in
              let all = drop_older_each o (replay window_secs (b ∷ history)).buckets (
                All-map _ _ _ (λ c le. omega arith)
                  (replay-IsRolling (b ∷ history) b.second (omega arith, times)).past) in
              rw (late, since_late f b.second o history times lt) (ap (total f) all)
        ]

    replay-since :
        (history : List Bucket) (now o : ℕ)
        → InTime now history
        → now - reach ≤ o
        → total f (drop_older o (replay window_secs history).buckets) ≡ since f o history % u64_mod
    unfolding replay new drop_older total
    replay-since [] now o times le = refl
    replay-since (b ∷ history) now o times le =
        one_more b history o times.1 (omega (arith, times.0))
          (replay-since history b.second o times.1 (omega (arith, times.0)))

  -- On a clock that does not run backwards, and whatever was recorded: a snapshot counts the blocks
  -- and the events of the batches of the last `window_secs` seconds (of one second at least),
  -- modulo 2 ^ 64.
  pub snapshot-since :
      (history : List Bucket) (now : ℕ)
      → InTime now history
      → ((snapshot (replay window_secs history) now).1.blocks_per_second.numerator
          ≡ since (λ b. b.blocks) (now - reach) history % u64_mod)
        × ((snapshot (replay window_secs history) now).1.events_per_second.numerator
            ≡ since (λ b. b.events) (now - reach) history % u64_mod)
  unfolding snapshot snapshot_for prune
  snapshot-since history now times =
      let width = replay_window history in
      rw width (
        replay-since (λ b. b.blocks) (λ b. record { fresh = refl; grown = λ c. refl }) history now
            (now - reach) times (omega arith),
        replay-since (λ b. b.events) (λ b. record { fresh = refl; grown = λ c. refl }) history now
            (now - reach) times (omega arith),
      )
