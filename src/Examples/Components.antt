-- ===== src/Examples/Components.antt =====
-- The theorems on the crates decoder, rpc and observability, at concrete inputs.
use rust_ethereum_indexer.Prelude.{
  ℕ, zero, suc, ◌^◌, ◌<◌, ◌≡◌, ◌↔◌, some, [], ◌∷◌, arith, Result, ok, err, rpc, All,
}
use rust_ethereum_indexer.Decoder.{decode_erc20_transfer}
use rust_ethereum_indexer.Decoder.Roundtrip.{
  encode, to_be, DecodesTo, decode-encode, decode-DecodesTo, decode-bounds,
}
use rust_ethereum_indexer.Rpc.Client.{with_retry}
use rust_ethereum_indexer.Rpc.Retry.{Outcome, with_retry-Outcome}
use rust_ethereum_indexer.Observability.Metrics
use rust_ethereum_indexer.Observability.Throughput.{RollingThroughput, record_batch}
use rust_ethereum_indexer.Observability.Window.{
  InWindow, OverSeconds, IsRolling, record_batch-IsRolling,
}
use rust_ethereum_indexer.Examples.Fixtures.{payment, bare_log, fresh_world}

decode-encode_example : decode_erc20_transfer (encode bare_log payment) ≡ some payment
decode-encode_example = decode-encode bare_log payment (omega arith)

decode-DecodesTo_example :
    decode_erc20_transfer (encode bare_log payment) ≡ some payment
    ↔ DecodesTo (encode bare_log payment) payment
decode-DecodesTo_example = decode-DecodesTo (encode bare_log payment) payment

payload_bytes : All (λ b. b < 256) (encode bare_log payment).payload
unfolding encode to_be
payload_bytes = ground arith

decode-bounds_example : payment.value < 2 ^ 256
decode-bounds_example =
    decode-bounds (encode bare_log payment) payment payload_bytes
      (decode-encode bare_log payment (omega arith))

-- A provider that fails twice, and answers from then on.
abbrev third_time : ℕ → Result ℕ
third_time zero = err (rpc 429)
third_time (suc zero) = err (rpc 503)
third_time (suc (suc t)) = ok 5

with_retry-Outcome_example : Outcome third_time 3 fresh_world (with_retry 2 third_time fresh_world)
unfolding Metrics.new
with_retry-Outcome_example = with_retry-Outcome third_time 2 fresh_world (omega arith)

abbrev two_buckets : RollingThroughput
two_buckets = record {
  window_secs = 10;
  started_at_sec = some 3;
  buckets =
      record { second = 3; blocks = 1; events = 4 }
      ∷ record { second = 8; blocks = 2; events = 5 }
      ∷ [];
}

two_buckets-IsRolling : IsRolling 14 two_buckets
two_buckets-IsRolling = record { window = omega arith; sorted = ground arith; past = ground arith }

record_batch-IsRolling_example :
    IsRolling 14 (record_batch two_buckets 14 6 7).0
    × All (InWindow 10 14) (record_batch two_buckets 14 6 7).0.buckets
    × OverSeconds two_buckets 14 (record_batch two_buckets 14 6 7).1.blocks_per_second
    × OverSeconds two_buckets 14 (record_batch two_buckets 14 6 7).1.events_per_second
record_batch-IsRolling_example =
    record_batch-IsRolling 14 6 7 two_buckets two_buckets-IsRolling (omega arith)
