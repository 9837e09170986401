-- ===== src/Examples/Exporter.antt =====
-- What the exporter is sent for a retry, a failed request and a batch that failed.
use rust_ethereum_indexer.Prelude.{false, List, [], ◌∷◌, All}
use rust_ethereum_indexer.Observability.Exported.{Call, counters, samples, Agrees, counters-Agrees}
use rust_ethereum_indexer.Observability.Described.{IsDescribed, samples-IsDescribed}

-- The latest first.
abbrev five_calls : List Call
five_calls =
    Call.batch_failure "hot" 7
    ∷ Call.rpc_retry "eth_getLogs"
    ∷ Call.rpc_result "eth_getLogs" 900 false
    ∷ Call.duplicate_inserts "finalized" 3
    ∷ Call.checkpoint_resume "finalized" 12 10
    ∷ []

counters-Agrees_example : Agrees (counters 60 five_calls) (samples 60 five_calls)
counters-Agrees_example = counters-Agrees 60 five_calls

samples-IsDescribed_example : All IsDescribed (samples 60 five_calls)
samples-IsDescribed_example = samples-IsDescribed 60 five_calls
