-- ===== src/Observability/Window.antt =====
-- `RollingThroughput` of crates/observability/src/lib.rs, on a clock that does not run backwards.
use rust_ethereum_indexer.Prelude.{
  none, some, ◌+◌, ◌-◌, min, u64_mod, All-map, All-and, ℕ, ◌≤◌, ◌<◌, false, ◌≡◌, List, [], ◌∷◌,
  arith, All, ltb, Bool-cases, inl, inr,
}
use rust_ethereum_indexer.Observability.Throughput.{
  Bucket, Rate, RollingThroughput, push_bucket, drop_older, oldest_second, prune, record_batch,
  stamped, snapshot_for,
}

-- The buckets are of increasing seconds.
abbrev pub IsSorted : List Bucket → Type 0
IsSorted [] = Unit
IsSorted (b ∷ bs) = All (λ c. b.second < c.second) bs × IsSorted bs

-- They are of seconds from `lo` to `hi`.
abbrev pub Between : ℕ → ℕ → Bucket → Type 0
Between lo hi b = (lo ≤ b.second) × (b.second ≤ hi)

-- A window of at least a second, and buckets in order of which none is later than `now`.
pub record IsRolling (now : ℕ) (r : RollingThroughput) : Type 0 where
  pub window : 0 < r.window_secs
  pub sorted : IsSorted r.buckets
  pub past : All (λ b. b.second ≤ now) r.buckets

push_bucket-All :
    (P : ℕ → Type 0) (bs : List Bucket) (now blocks events : ℕ)
    → P now
    → All (λ b. P b.second) bs
    → All (λ b. P b.second) (push_bucket bs now blocks events)
unfolding push_bucket
push_bucket-All P [] now blocks events p h = (p, tt)
push_bucket-All P (b ∷ []) now blocks events p h = ground (arith, h.0, p)
push_bucket-All P (b ∷ b' ∷ bs) now blocks events p h =
    (h.0, push_bucket-All P (b' ∷ bs) now blocks events p h.1)

push_bucket-IsSorted :
    (bs : List Bucket) (now blocks events : ℕ)
    → IsSorted bs
    → All (λ b. b.second ≤ now) bs
    → IsSorted (push_bucket bs now blocks events)
unfolding push_bucket
push_bucket-IsSorted [] now blocks events s h = (tt, tt)
push_bucket-IsSorted (b ∷ []) now blocks events s h = ground (arith, h.0)
push_bucket-IsSorted (b ∷ b' ∷ bs) now blocks events s h = (
  push_bucket-All (λ n. b.second < n) (b' ∷ bs) now blocks events (omega (arith, s.0.0, h.1.0)) s.0,
  push_bucket-IsSorted (b' ∷ bs) now blocks events s.1 h.1,
)

drop_older-All :
    (P : Bucket → Type 0) (oldest : ℕ) (bs : List Bucket) → All P bs → All P (drop_older oldest bs)
unfolding drop_older
drop_older-All P oldest [] h = tt
drop_older-All P oldest (b ∷ bs) h = ground (arith, drop_older-All P oldest bs h.1)

drop_older-IsSorted :
    (oldest : ℕ) (bs : List Bucket) → IsSorted bs → IsSorted (drop_older oldest bs)
unfolding drop_older
drop_older-IsSorted oldest [] s = tt
drop_older-IsSorted oldest (b ∷ bs) s = ground (arith, drop_older-IsSorted oldest bs s.1)

-- In a sorted deque, popping from the front removes all that is too old.
drop_older_recent :
    (oldest : ℕ) (bs : List Bucket)
    → IsSorted bs
    → All (λ b. oldest ≤ b.second) (drop_older oldest bs)
unfolding drop_older
drop_older_recent oldest [] s = tt
drop_older_recent oldest (b ∷ bs) s =
    let rest = drop_older_recent oldest bs s.1 in
    let kept : ltb b.second oldest ≡ false → All (λ b'. oldest ≤ b'.second) (b ∷ bs) =
      λ e. (ground arith, later (ground arith)) in
    elim (Bool-cases (ltb b.second oldest)) [
      | inl e ↦ rw (e, drop_older) rest
      | inr e ↦ rw (e, drop_older) (kept e)
    ]
  where
    later : oldest ≤ b.second → All (λ b'. oldest ≤ b'.second) bs
    later le = All-map _ _ bs (λ b' lt. omega arith) s.0

prune-IsRolling :
    (now : ℕ) (r : RollingThroughput)
    → IsRolling now r
    → IsRolling now (prune r now) × All (Between (oldest_second r now) now) (prune r now).buckets
unfolding prune
prune-IsRolling now r i =
    let past = drop_older-All _ (oldest_second r now) r.buckets i.past in
    (
      record {
        window = i.window;
        sorted = drop_older-IsSorted (oldest_second r now) r.buckets i.sorted;
        past = past;
      },
      All-and _ _ _ (drop_older_recent (oldest_second r now) r.buckets i.sorted) past,
    )

-- The second lies in the last `window_secs` seconds, of which `now` is one.
abbrev pub InWindow : ℕ → ℕ → Bucket → Type 0
InWindow window_secs now b = (now < b.second + window_secs) × (b.second ≤ now)

-- A rate is over the seconds since the first batch, both ends counted, and at most over the window.
abbrev pub OverSeconds : RollingThroughput → ℕ → Rate → Type 0
OverSeconds r now rate =
    (r.started_at_sec ≡ none → rate.denominator ≡ 1)
    × ((t : ℕ)
        → r.started_at_sec ≡ some t
        → t ≤ now
        → rate.denominator ≡ min (now - t + 1) r.window_secs)

record_batch-OverSeconds :
    (now blocks events : ℕ) (r : RollingThroughput)
    → 0 < r.window_secs
    → now + 1 < u64_mod
    → (OverSeconds r now (record_batch r now blocks events).1.blocks_per_second)
      × (OverSeconds r now (record_batch r now blocks events).1.events_per_second)
unfolding record_batch snapshot_for prune
record_batch-OverSeconds now blocks events r window fits = (
  (λ e. rw e (omega arith), λ t e le. rw e (omega arith)),
  (λ e. rw e (omega arith), λ t e le. rw e (omega arith)),
)

pub record_batch_rolls :
    (now blocks events : ℕ) (r : RollingThroughput)
    → IsRolling now r
    → IsRolling now (record_batch r now blocks events).0
      × All (Between (oldest_second r now) now) (record_batch r now blocks events).0.buckets
unfolding record_batch
record_batch_rolls now blocks events r i =
    prune-IsRolling now (stamped r now blocks events) (record {
      window = i.window;
      sorted = push_bucket-IsSorted r.buckets now blocks events i.sorted i.past;
      past = push_bucket-All (λ n. n ≤ now) r.buckets now blocks events (omega arith) i.past;
    })

-- Each batch, at a time that is not before any bucket and below 2 ^ 64 - 1, leaves the buckets in
-- order, all of them of the last `window_secs` seconds. The rates are divided by the number of
-- seconds since the first batch, both ends counted, but by no more than `window_secs`; at the first
-- batch, by 1.
pub record_batch-IsRolling :
    (now blocks events : ℕ) (r : RollingThroughput)
    → IsRolling now r
    → now + 1 < u64_mod
    → IsRolling now (record_batch r now blocks events).0
      × All (InWindow r.window_secs now) (record_batch r now blocks events).0.buckets
      × OverSeconds r now (record_batch r now blocks events).1.blocks_per_second
      × OverSeconds r now (record_batch r now blocks events).1.events_per_second
record_batch-IsRolling now blocks events r i fits =
    let (after, recent) = record_batch_rolls now blocks events r i in
    let (blocks_rate, events_rate) = record_batch-OverSeconds now blocks events r i.window fits in
    (
      after,
      All-map _ _ _ (λ b between. (omega (arith, between.0, i.window), between.1)) recent,
      blocks_rate,
      events_rate,
    )
