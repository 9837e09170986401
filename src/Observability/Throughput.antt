-- ===== src/Observability/Throughput.antt =====
-- crates/observability/src/lib.rs, lines 493 to 569: `RollingThroughput`. The time of day is an
-- argument. A rate is kept as the two numbers that the code divides as `f64`.
use rust_ethereum_indexer.Prelude.{
  ℕ, ◌+◌, ◌-◌, ◌%◌, min, max, Option, none, some, List, [], ◌∷◌, ltb, ◌==◌, if◌then◌else◌,
  saturating_add, u64_mod,
}

-- numerator as f64 / denominator as f64
pub record Rate : Type 0 where
  pub numerator : ℕ
  pub denominator : ℕ

pub record RollingSnapshot : Type 0 where
  pub blocks_per_second : Rate
  pub events_per_second : Rate

pub record Bucket : Type 0 where
  pub second : ℕ
  pub blocks : ℕ
  pub events : ℕ

-- The front of the deque is the head of the list.
pub record RollingThroughput : Type 0 where
  pub window_secs : ℕ
  pub started_at_sec : Option ℕ
  pub buckets : List Bucket

unfoldable pub new : ℕ → RollingThroughput
new window_secs = record { window_secs = max window_secs 1; started_at_sec = none; buckets = [] }

-- `started_at_sec.get_or_insert(now)`
abbrev pub get_or_insert : Option ℕ → ℕ → Option ℕ
get_or_insert none now = some now
get_or_insert (some t) now = some t

abbrev pub wrapping_add : ℕ → ℕ → ℕ
wrapping_add a b = (a + b) % u64_mod

-- Adds to the bucket at the back if it is of this second, and pushes a new one otherwise.
unfoldable pub push_bucket : List Bucket → ℕ → ℕ → ℕ → List Bucket
push_bucket [] now blocks events = record { second = now; blocks = blocks; events = events } ∷ []
push_bucket (b ∷ []) now blocks events =
    if b.second == now
    then record b { blocks = wrapping_add b.blocks blocks; events = wrapping_add b.events events }
      ∷ []
    else b ∷ record { second = now; blocks = blocks; events = events } ∷ []
push_bucket (b ∷ b' ∷ bs) now blocks events = b ∷ push_bucket (b' ∷ bs) now blocks events

-- now.saturating_sub(self.window_secs.saturating_sub(1))
abbrev pub oldest_second : RollingThroughput → ℕ → ℕ
oldest_second r now = now - (r.window_secs - 1)

-- while the front is older than `oldest`, pop it
unfoldable pub drop_older : ℕ → List Bucket → List Bucket
drop_older oldest [] = []
drop_older oldest (b ∷ bs) =
    let rest = drop_older oldest bs in if ltb b.second oldest then rest else b ∷ bs

unfoldable pub prune : RollingThroughput → ℕ → RollingThroughput
prune r now = record r { buckets = drop_older (oldest_second r now) r.buckets }

unfoldable pub total : (Bucket → ℕ) → List Bucket → ℕ
total f [] = 0
total f (b ∷ bs) = wrapping_add (f b) (total f bs)

-- now - started + 1, saturating; 1 before the first batch
abbrev pub elapsed_secs : Option ℕ → ℕ → ℕ
elapsed_secs none now = 1
elapsed_secs (some started) now = saturating_add (now - started) 1

abbrev pub denominator_for : RollingThroughput → ℕ → ℕ
denominator_for r now = max (min (elapsed_secs r.started_at_sec now) r.window_secs) 1

unfoldable pub snapshot_for : RollingThroughput → ℕ → RollingSnapshot
snapshot_for r now = record {
  blocks_per_second = record {
    numerator = total (λ b. b.blocks) r.buckets;
    denominator = denominator_for r now;
  };
  events_per_second = record {
    numerator = total (λ b. b.events) r.buckets;
    denominator = denominator_for r now;
  };
}

abbrev pub stamped : RollingThroughput → ℕ → ℕ → ℕ → RollingThroughput
stamped r now blocks events = record r {
  started_at_sec = get_or_insert r.started_at_sec now;
  buckets = push_bucket r.buckets now blocks events;
}

-- `record`, at the time `now`
unfoldable pub record_batch : RollingThroughput → ℕ → ℕ → ℕ → RollingThroughput × RollingSnapshot
record_batch r now blocks events =
    let r' = prune (stamped r now blocks events) now in (r', snapshot_for r' now)

-- `snapshot`, at the time `now`
unfoldable pub snapshot : RollingThroughput → ℕ → RollingThroughput × RollingSnapshot
snapshot r now = let r' = prune r now in (r', snapshot_for r' now)
