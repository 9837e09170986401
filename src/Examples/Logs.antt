-- ===== src/Examples/Logs.antt =====
-- A chain with one log, in a block of choice, and what a provider of it reports.
use mathlib.Core.Path.{subst}
use rust_ethereum_indexer.Prelude.{
  ℕ, true, false, Result, if◌then◌else◌, ◌==◌, ◌≤◌, ◌&&◌, leb, ◌≡◌, refl, sym, ap, ◌∙◌, some,
  Option, List, [], ◌∷◌, arith, ok, In, inl, inr, Bool-cases, All,
}
use rust_ethereum_indexer.Decoder.{Log}
use rust_ethereum_indexer.Decoder.Roundtrip.{encode}
use rust_ethereum_indexer.World.{Services, Header, Filter}
use rust_ethereum_indexer.Ingestion.Serving.{Wanted}
use rust_ethereum_indexer.Ingestion.ChainLogs.{AsksFor, Reports}
use rust_ethereum_indexer.Examples.Fixtures.{small_engine, bare_log, payment}
use rust_ethereum_indexer.Examples.Convergence.{small_headers}

-- The one log of the chain, in block `k`
abbrev pub log_at : ℕ → Log
log_at k = encode (record bare_log { block_number = some k }) payment

abbrev pub logs_at : ℕ → ℕ → List Log
logs_at k n = if n == k then log_at k ∷ [] else []

abbrev pub range_logs : ℕ → ℕ → ℕ → List Log
range_logs k s c = if leb s k && leb k c then log_at k ∷ [] else []

module _ (k : ℕ) where
  at_k : (n : ℕ) (log : Log) → In log (logs_at k n) → (n ≡ k) × (log ≡ log_at k)
  at_k n log at = elim (Bool-cases (n == k)) [
    | inl here ↦ (ground arith, only_one (subst (λ ls. In log ls) (chosen here) at))
    | inr apart ↦ absurd (subst (λ ls. In log ls) (missing apart) at)
  ]
    where
      chosen : (n == k) ≡ true → logs_at k n ≡ log_at k ∷ []
      chosen here = ground arith

      missing : (n == k) ≡ false → logs_at k n ≡ []
      missing apart = ground arith

      only_one : In log (log_at k ∷ []) → log ≡ log_at k
      only_one (inl same) = same
      only_one (inr nowhere) = absurd nowhere

  there : In (log_at k) (logs_at k k)
  there =
      let here : logs_at k k ≡ log_at k ∷ [] = ground arith in
      subst (λ ls. In (log_at k) ls) (sym here) (inl refl)

  module _ (s c : ℕ) where
    in_range : s ≤ k → k ≤ c → range_logs k s c ≡ log_at k ∷ []
    in_range lo hi = ground arith

    pub holds_all :
        (n : ℕ) (log : Log) → s ≤ n → n ≤ c → In log (logs_at k n) → In log (range_logs k s c)
    holds_all n log lo hi at =
        let (same, one) = at_k n log at in rw (in_range (omega arith) (omega arith)) (inl one)

    pub holds_only :
        (log : Log) → In log (range_logs k s c) → (n : ℕ) × (s ≤ n) × (n ≤ c) × In log (logs_at k n)
    holds_only log at = elim (Bool-cases (leb s k && leb k c)) [
      | inl inside ↦
          let lo : s ≤ k = ground arith in
          let hi : k ≤ c = ground arith in
          (k, lo, hi, one (subst (λ ls. In log ls) (in_range lo hi) at))
      | inr outside ↦
          let empty : range_logs k s c ≡ [] = ground arith in
          absurd (subst (λ ls. In log ls) empty at)
    ]
      where
        one : In log (log_at k ∷ []) → In log (logs_at k k)
        one (inl same) = subst (λ l. In l (logs_at k k)) (sym same) there
        one (inr nowhere) = absurd nowhere

-- A provider that reports the headers of the small chain, and this log, serves one chain.
pub logs_at-Reports :
    (sv : Services) (k top : ℕ)
    → sv.get_block_by_number ≡ (λ n t. ok (some (small_headers n)))
    → sv.get_logs ≡ (λ f t. ok (range_logs k f.from_block f.to_block))
    → Reports sv small_engine top small_headers (logs_at k)
unfolding encode
logs_at-Reports sv k top headers logs = record {
  blocks = λ t n header le e.
      let known = sym (ap (λ (g : ℕ → ℕ → Result (Option Header)). g n t) headers) ∙ e in
      ground arith;
  all_logs = λ s c f t ls le asks e n log lo hi at.
      subst (λ ls. In log ls) (answered s c f t ls asks e) (holds_all k s c n log lo hi at);
  only_logs = λ s c f t ls le asks e log at.
      holds_only k s c log (subst (λ ls. In log ls) (sym (answered s c f t ls asks e)) at);
  numbered = λ n log at. let (same, one) = at_k k n log at in rw (same, one) refl;
  small = λ n i log at e.
      let (same, one) = at_k k n log at in
      let index : some 0 ≡ some i = sym (ap (λ (l : Log). l.log_index) one) ∙ e in ground arith;
  distinct = λ n i a b at_a at_b e e'. (at_k k n a at_a).1 ∙ sym ((at_k k n b at_b).1);
}
  where
    answered :
        (s c : ℕ) (f : Filter) (t : ℕ) (ls : List Log)
        → AsksFor small_engine s c f
        → sv.get_logs f t ≡ ok ls
        → range_logs k s c ≡ ls
    answered s c f t ls asks e =
        let from = asks.from in
        let to = asks.to in
        let known = sym (ap (λ (g : Filter → ℕ → Result (List Log)). g f t) logs) ∙ e in
        ground arith

-- The log answers each filter that its block passes.
pub range_logs-Wanted :
    (k : ℕ) (f : Filter) (ls : List Log)
    → range_logs k f.from_block f.to_block ≡ ls
    → All (Wanted f) ls
unfolding encode
range_logs-Wanted k f ls e = elim (Bool-cases (leb f.from_block k && leb k f.to_block)) [
  | inl inside ↦
      let one : ls ≡ log_at k ∷ [] = ground arith in
      rw one (
        record {
          number = k;
          block_number = refl;
          not_before = ground arith;
          not_after = ground arith;
          txn_hash = 9 ∷ [];
          transaction_hash = refl;
          index = 0;
          log_index = refl;
        },
        tt,
      )
  | inr outside ↦ let empty : ls ≡ [] = ground arith in rw empty tt
]
