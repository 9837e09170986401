-- ===== src/Ingestion/HotClean.antt =====
-- `reconcile_hot_history` of crates/ingestion/src/lib.rs while PostgreSQL and the provider serve,
-- on a lane that is on the chain: nothing is rolled back.
use rust_ethereum_indexer.Prelude.{
  ℕ, zero, suc, ◌+◌, ◌*◌, ◌≤◌, ◌<◌, Bool, false, ◌≡◌, refl, sym, ap, ◌∙◌, Option, none, some, Bytes,
  bytes_eq, bytes_eq_refl, arith, as_i64, as_i64-eq_pos, i64_limit, Exec,
}
use rust_ethereum_indexer.Storage.Tables.{Database, select_hash}
use rust_ethereum_indexer.Storage.Statements.{block_partition_size}
use rust_ethereum_indexer.Storage.Calls.{get_hot_block_hash}
use rust_ethereum_indexer.World.{Services, World, Header, on_host}
use rust_ethereum_indexer.Rpc.Client.{get_latest_block_number}
use rust_ethereum_indexer.Ingestion.Engine.{BackfillEngine, numbers_from}
use rust_ethereum_indexer.Ingestion.Steps.{
  fetch_block_metadata, check_hot, revalidate_hot, reconcile_hot_history,
}
use rust_ethereum_indexer.Ingestion.Keeps.{
  Triple, Triple-pure, Triple-bind, Triple-fact, Triple-weaken, Triple-if,
}
use rust_ethereum_indexer.Ingestion.Total.{Never, Triple-responds, Triple-known}
use rust_ethereum_indexer.Ingestion.Serving.{IsServing, fetch_block_metadata-serves}
use rust_ethereum_indexer.Ingestion.Live.{Heads}
use rust_ethereum_indexer.Ingestion.HotCalls.{HotOnChain, get_hot_block_hash-serves}

module _ (sv : Services) (e : BackfillEngine) (top : ℕ) (limits : Heads sv top) (latest : ℕ)
    (chain : ℕ → Header) (serving : IsServing sv e top latest chain) (P : Database → Type 0)
    (kept : (t : ℕ) (d : Database) → P d → P (sv.others t d))
    (on_chain : (d : Database) → P d → HotOnChain chain d) where
  check_hot-clean :
      (n : ℕ) (next : Exec World Bool) (o : Option Bytes)
      → n ≤ top
      → ((hash : Bytes) → o ≡ some hash → hash ≡ (chain n).hash)
      → Triple P next (λ changed d. (changed ≡ false) × P d) Never
      → Triple P (check_hot sv e n next o) (λ changed d. (changed ≡ false) × P d) Never
  check_hot-clean n next none small agrees rest = rest
  check_hot-clean n next (some hash) small agrees rest =
      Triple-bind (fetch_block_metadata sv e n) _ _
        (fetch_block_metadata-serves sv e top latest chain serving n small)
        λ b. Triple-fact _ λ fetched. rw fetched (
          Triple-if (bytes_eq hash (chain n).hash) _ _ (λ _. rest)
            (λ differs.
              let same = bytes_eq_refl (chain n).hash in
              absurd (ground (arith, differs, same, agrees hash refl))))

  revalidate_hot-clean :
      (k n : ℕ)
      → (0 < k → n + k ≤ top + 1)
      → Triple P
          (revalidate_hot sv e (numbers_from n k))
          (λ changed d. (changed ≡ false) × P d)
          Never
  unfolding revalidate_hot numbers_from
  revalidate_hot-clean zero n small =
      Triple-weaken _ (λ d h. (refl, h)) (λ a d h. h) (Triple-pure false)
  revalidate_hot-clean (suc k) n small =
      let fits : n + suc k ≤ top + 1 = small (omega arith) in
      let inside : n ≤ top = omega arith in
      let rest = revalidate_hot-clean k (suc n) (λ more. omega arith) in
      Triple-bind (on_host sv.others (get_hot_block_hash sv.answer n)) _ _
        (get_hot_block_hash-serves sv serving.answers n kept)
        λ o.
          Triple-known _ (λ d (read, h). agrees o d inside read h)
            λ same.
              Triple-weaken _ (λ d h. h.1) (λ a d h. h) (check_hot-clean n _ o inside same rest)
    where
      agrees :
          (o : Option Bytes) (d : Database)
          → n ≤ top
          → o ≡ select_hash (as_i64 n) d.hot_indexed_blocks
          → P d
          → (hash : Bytes) → o ≡ some hash
          → hash ≡ (chain n).hash
      agrees o d inside read h hash found =
          let room : top + 2 * block_partition_size < i64_limit = limits.room in
          let cast = as_i64-eq_pos n (omega arith) in
          on_chain d h n hash
            (ap (λ z. select_hash z d.hot_indexed_blocks) (sym cast) ∙ (sym read ∙ found))

  pub reconcile_hot_history-clean :
      (start : ℕ)
      → Triple P (reconcile_hot_history sv e start) (λ changed d. (changed ≡ false) × P d) Never
  unfolding reconcile_hot_history get_latest_block_number
  reconcile_hot_history-clean start =
      Triple-bind _ _ _ (Triple-responds e.max_retries sv.get_block_number serving.heads) λ head.
        Triple-fact _ λ (t, replied).
          let small : head ≤ top = limits.heads t head replied in
          revalidate_hot-clean _ _ (λ some_left. omega arith)
