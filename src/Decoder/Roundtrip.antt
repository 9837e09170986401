-- ===== src/Decoder/Roundtrip.antt =====
-- crates/decoder/src/lib.rs: which logs decode, and to what.
use rust_ethereum_indexer.Prelude.{
  sym, ℕ, zero, suc, ◌+◌, ◌*◌, ◌/◌, ◌%◌, ◌^◌, ◌<◌, true, ◌≡◌, refl, ap, ◌∙◌, ◌↔◌, some, List, [],
  ◌∷◌, ◌++◌, Bytes, bytes_eq, bytes_eq_refl, bytes_eq→eq, length, length-append, ◌==◌, drop, arith,
  All,
}
use mathlib.Core.Option.{some-injective}
use native.Mathlib.Nat.{pow-suc, add-zero, add-suc, suc-add}
use rust_ethereum_indexer.Decoder.{
  Log, Erc20TransferEvent, erc20_transfer_event_signature, from_be, decode_topics,
  decode_erc20_transfer,
}

-- The big-endian bytes of a number, `k` of them.
unfoldable pub to_be : ℕ → ℕ → Bytes
to_be zero v = []
to_be (suc k) v = to_be k (v / 256) ++ (v % 256) ∷ []

length-to_be : (k v : ℕ) → length (to_be k v) ≡ k
unfolding to_be
length-to_be zero v = refl
length-to_be (suc k) v =
    omega (arith, length-append (to_be k (v / 256)) ((v % 256) ∷ []), length-to_be k (v / 256))

from_be-append :
    (acc : ℕ) (xs : Bytes) (b : ℕ) → from_be acc (xs ++ b ∷ []) ≡ from_be acc xs * 256 + b
unfolding from_be
from_be-append acc [] b = refl
from_be-append acc (x ∷ xs) b = from_be-append (acc * 256 + x) xs b

from_be-to_be : (k v : ℕ) → v < 256 ^ k → from_be 0 (to_be k v) ≡ v
unfolding to_be from_be
from_be-to_be zero v h = omega arith
from_be-to_be (suc k) v h =
    let small : v / 256 < 256 ^ k = omega (arith, pow-suc 256 k) in
    from_be-append 0 (to_be k (v / 256)) (v % 256) ∙ omega (arith, from_be-to_be k (v / 256) small)

from_be-lt :
    (acc : ℕ) (k : ℕ) (xs : Bytes)
    → acc < 256 ^ k
    → All (λ b. b < 256) xs
    → from_be acc xs < 256 ^ (k + length xs)
unfolding from_be
from_be-lt acc k [] h bytes = rw add-zero h
from_be-lt acc k (x ∷ xs) h bytes =
    rw (add-suc k (length xs), ← suc-add k (length xs))
      (from_be-lt (acc * 256 + x) (suc k) xs (omega (arith, pow-suc 256 k, bytes.0)) bytes.1)

decode_shape :
    (s a b payload : Bytes)
    → length payload ≡ 32
    → bytes_eq s erc20_transfer_event_signature ≡ true
    → decode_topics (s ∷ a ∷ b ∷ []) payload
      ≡ some (record { from = drop 12 a; to = drop 12 b; value = from_be 0 payload })
unfolding decode_topics
decode_shape s a b payload width signed =
    let tested : (length payload == 32) ≡ true = ground arith in rw (tested, signed) refl

-- The topic of an address: twelve zero bytes, and its twenty bytes.
abbrev pub topic_of : Bytes → Bytes
topic_of address = 0 ∷ 0 ∷ 0 ∷ 0 ∷ 0 ∷ 0 ∷ 0 ∷ 0 ∷ 0 ∷ 0 ∷ 0 ∷ 0 ∷ address

-- The log that the ERC-20 standard prescribes for a transfer, among the other fields of `log`.
unfoldable pub encode : Log → Erc20TransferEvent → Log
encode log event = record log {
  topics = erc20_transfer_event_signature ∷ topic_of event.from ∷ topic_of event.to ∷ [];
  payload = to_be 32 event.value;
}

-- The log of a transfer decodes to that transfer, for every value of 256 bits.
pub decode-encode :
    (log : Log) (event : Erc20TransferEvent)
    → event.value < 2 ^ 256
    → decode_erc20_transfer (encode log event) ≡ some event
unfolding decode_erc20_transfer encode
decode-encode log event h =
    let width : length (to_be 32 event.value) ≡ 32 = length-to_be 32 event.value in
    let value : from_be 0 (to_be 32 event.value) ≡ event.value = from_be-to_be 32 event.value h in
    rw
      (
        decode_shape _ _ _ (to_be 32 event.value) width
            (bytes_eq_refl erc20_transfer_event_signature),
        value,
      )
      refl

-- What a decoded event says of its log.
pub record DecodesTo (log : Log) (event : Erc20TransferEvent) : Type 0 where
  pub from_topic : Bytes
  pub to_topic : Bytes
  pub topics_eq : log.topics ≡ erc20_transfer_event_signature ∷ from_topic ∷ to_topic ∷ []
  pub payload_length : length log.payload ≡ 32
  pub from_eq : event.from ≡ drop 12 from_topic
  pub to_eq : event.to ≡ drop 12 to_topic
  pub value_eq : event.value ≡ from_be 0 log.payload

decode_three :
    (s a b payload : Bytes) (event : Erc20TransferEvent)
    → decode_topics (s ∷ a ∷ b ∷ []) payload ≡ some event
    → (length payload ≡ 32) × (bytes_eq s erc20_transfer_event_signature ≡ true)
unfolding decode_topics
decode_three s a b payload event h = ground arith

decode_topics-some :
    (topics : List Bytes) (payload : Bytes) (event : Erc20TransferEvent)
    → decode_topics topics payload ≡ some event
    → (a : Bytes) × (b : Bytes) × (topics ≡ erc20_transfer_event_signature ∷ a ∷ b ∷ [])
      × (length payload ≡ 32)
      × (event ≡ record { from = drop 12 a; to = drop 12 b; value = from_be 0 payload })
unfolding decode_topics
decode_topics-some (s ∷ a ∷ b ∷ []) payload event h =
    let (width, signed) = decode_three s a b payload event h in
    (
      a,
      b,
      ap (λ (t : Bytes). t ∷ a ∷ b ∷ []) (bytes_eq→eq s erc20_transfer_event_signature signed),
      width,
      some-injective _ _ (sym h ∙ decode_shape s a b payload width signed),
    )
decode_topics-some _ payload event h = cc

-- A log decodes exactly when it has three topics, the first of them the signature of the Transfer
-- event, and 32 bytes of data; its addresses are then the last twenty bytes of the other topics,
-- and its value is the data, read as a big-endian number.
pub decode-DecodesTo :
    (log : Log) (event : Erc20TransferEvent)
    → decode_erc20_transfer log ≡ some event ↔ DecodesTo log event
unfolding decode_erc20_transfer
decode-DecodesTo log event = (onto, back)
  where
    onto : decode_topics log.topics log.payload ≡ some event → DecodesTo log event
    onto h =
        let (a, b, t, width, e) = decode_topics-some log.topics log.payload event h in
        record {
          from_topic = a;
          to_topic = b;
          topics_eq = t;
          payload_length = width;
          from_eq = ap (λ (v : Erc20TransferEvent). v.from) e;
          to_eq = ap (λ (v : Erc20TransferEvent). v.to) e;
          value_eq = ap (λ (v : Erc20TransferEvent). v.value) e;
        }

    back : DecodesTo log event → decode_topics log.topics log.payload ≡ some event
    back d =
        rw
          (
            d.topics_eq,
            decode_shape _ d.from_topic d.to_topic log.payload d.payload_length
                (bytes_eq_refl erc20_transfer_event_signature),
            ← d.from_eq,
            ← d.to_eq,
            ← d.value_eq,
          )
          refl

-- The value of a decoded event is below 2 ^ 256, whatever the log: the store can hold it.
pub decode-bounds :
    (log : Log) (event : Erc20TransferEvent)
    → All (λ b. b < 256) log.payload
    → decode_erc20_transfer log ≡ some event
    → event.value < 2 ^ 256
unfolding decode_erc20_transfer
decode-bounds log event bytes h =
    let (a, b, t, width, e) = decode_topics-some log.topics log.payload event h in
    let below : from_be 0 log.payload < 256 ^ (0 + length log.payload) =
      from_be-lt 0 0 log.payload (omega arith) bytes in
    let bounded : from_be 0 log.payload < 2 ^ 256 = rw width at below in rw e bounded
