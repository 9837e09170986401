-- ===== src/Ingestion/FaithfulBatch.antt =====
-- The commit of a batch by a worker of crates/ingestion/src/lib.rs, while the provider reports one
-- chain: it stores the row of each log of the new blocks, and no other.
use mathlib.Core.Path.{subst}
use rust_ethereum_indexer.Prelude.{
  ℤ, All, Bytes, ℕ, suc, ◌+◌, ◌-◌, ◌*◌, ◌≤◌, ◌<◌, true, ◌≡◌, sym, ap, ◌∙◌, some, List, [], arith,
  length, pos, i64_limit, ok, Option-cases, ==ℤ→eq, inl, inr, In, All-In,
}
use rust_ethereum_indexer.Storage.Tables.{
  BlockRow, Transfer, BlockRow, select_hash, upsert_all, same_key, insert_missing,
}
use rust_ethereum_indexer.Storage.Statements.{block_partition_size}
use rust_ethereum_indexer.Storage.Blocks.{or_else, select_hash-upsert_all}
use rust_ethereum_indexer.Storage.Members.{
  insert_missing_old, insert_missing_new, In-insert_missing,
}
use rust_ethereum_indexer.Storage.Effects.{bound_blocks}
use rust_ethereum_indexer.Decoder.{Log}
use rust_ethereum_indexer.World.{Services, Header}
use rust_ethereum_indexer.Rpc.Client.{BlockMetadata}
use rust_ethereum_indexer.Ingestion.Payload.{RangePayload, Gathered, gather, indexed_blocks_of}
use rust_ethereum_indexer.Ingestion.Engine.{BackfillEngine}
use rust_ethereum_indexer.Ingestion.Gather.{Numbered, repeats-Numbered, select_hash-within}
use rust_ethereum_indexer.Ingestion.Fetch.{Builds}
use rust_ethereum_indexer.Ingestion.Reports.{Fetched-Numbered}
use rust_ethereum_indexer.Ingestion.Finalized.{Refers}
use rust_ethereum_indexer.Ingestion.ChainLogs.{IsRowOf, IsTransferAt, Reports, Exact, IsFaithful}
use rust_ethereum_indexer.Ingestion.Faithful.{row_unique, of_chain, same_row}
use rust_ethereum_indexer.Ingestion.GatherRows.{IsRowIn, Gathers, gather-Gathers}

module _ (sv : Services) (e : BackfillEngine) (top : ℕ)
    (room : top + 2 * block_partition_size < i64_limit) (chain : ℕ → Header)
    (logs_of : ℕ → List Log) (reports : Reports sv e top chain logs_of) where
  -- The blocks from `s` to `c` are added to the tables of a lane, all of whose blocks are before.
  module _ (s c : ℕ) (p : RangePayload) (built : Builds sv e s c p) (s_le_c : s ≤ c)
      (c_le_top : c ≤ top) (blocks : List BlockRow) (rows : List Transfer)
      (refers : All (Refers blocks) rows)
      (before : (z : ℤ) (h : Bytes)
        → select_hash z blocks ≡ some h
        → (n : ℕ) × (z ≡ pos n) × (n < s)) where
    abbrev bs : List BlockMetadata
    bs = p.block_metadata

    abbrev final : Gathered
    final = record { records = p.transfer_records; unique_transactions = built.unique_transactions }

    numbers : Numbered s bs × (length bs ≡ suc c - s)
    numbers = Fetched-Numbered sv (suc c - s) s bs built.fetched

    gathers :
        Gathers chain s
          (suc c - s)
          (omega (arith, room, c_le_top, s_le_c))
          built.logs
          (record { records = []; unique_transactions = [] })
          final
    gathers =
        gather-Gathers chain s (suc c - s) (omega (arith, room, c_le_top, s_le_c)) built.logs _ _ (
          subst
            (λ bs.
              gather bs built.logs (record { records = []; unique_transactions = [] }) ≡ ok final)
            (of_chain sv e top chain logs_of reports (suc c - s) s bs
              (omega (arith, s_le_c, c_le_top)) built.fetched)
            built.gathered)

    -- What is known of a given row.
    record Given (r : Transfer) : Type 0 where
      number : ℕ
      from_first : s ≤ number
      to_last : number ≤ c
      at : r.block_number ≡ pos number
      is_transfer : IsTransferAt chain logs_of number r

    account_of : (r : Transfer) → In r p.transfer_records → Given r
    account_of r at = elim (gathers.only r at) [
      | inl nowhere ↦ absurd nowhere
      | inr (log, at_log, is_row) ↦ of_log log at_log is_row
    ]
      where
        of_log : (log : Log) → In log built.logs → IsRowIn chain s (suc c - s) log r → Given r
        of_log log at_log is_row =
            let (t, asked) = built.asked in
            let (n, lo, hi, at_n) =
              reports.only_logs s c built.filter t built.logs c_le_top built.asks asked log
                at_log in
            let same : is_row.number ≡ n =
              ground (arith, is_row.block_number, reports.numbered n log at_n) in
            record {
              number = n;
              from_first = lo;
              to_last = hi;
              at = ap (λ (r : Transfer). r.block_number) is_row.is_row.row ∙ ap pos same;
              is_transfer = (log, at_n, subst (λ n. IsRowOf (chain n) n log r) same is_row.is_row);
            }

    all_given :
        (n : ℕ) (r : Transfer)
        → s ≤ n
        → n ≤ c
        → IsTransferAt chain logs_of n r
        → In r p.transfer_records
    all_given n r lo hi (log, at, row) =
        let (t, asked) = built.asked in
        let there : In log built.logs =
          reports.all_logs s c built.filter t built.logs c_le_top built.asks asked n log lo hi at in
        let (q, at_q, is_row) = gathers.all log row.event there row.decoded in
        let same : is_row.number ≡ n =
          ground (arith, is_row.block_number, reports.numbered n log at) in
        let row_q = subst (λ n. IsRowOf (chain n) n log q) same is_row.is_row in
        subst (λ q. In q p.transfer_records) (row_unique (chain n) n log q r row_q row) at_q

    -- A row that was there is one of an earlier block.
    earlier : (n : ℕ) (r : Transfer) → In r rows → r.block_number ≡ pos n → n < s
    earlier n r at here =
        let found = All-In (Refers blocks) rows r refers at in
        let (m, same, lt) = before r.block_number r.block_hash found in
        let eq : n ≡ m = ground (arith, same) in omega arith

    abbrev after : List Transfer
    after = (insert_missing p.transfer_records rows).1

    given_now :
        (n : ℕ) (r : Transfer)
        → s ≤ n
        → In r after
        → r.block_number ≡ pos n
        → In r p.transfer_records
    given_now n r lo at here = elim (In-insert_missing p.transfer_records _ r at) [
      | inl given ↦ given
      | inr old ↦ let early : n < s = earlier n r old here in absurd (omega arith)
    ]

    transfer_now :
        (n : ℕ) (r : Transfer)
        → In r p.transfer_records
        → r.block_number ≡ pos n
        → IsTransferAt chain logs_of n r
    transfer_now n r at here =
        let g = account_of r at in
        let same : g.number ≡ n = ground (arith, g.at) in
        subst (λ n. IsTransferAt chain logs_of n r) same g.is_transfer

    block_of : (n : ℕ) (r : Transfer) → IsTransferAt chain logs_of n r → r.block_number ≡ pos n
    block_of n r (log, at, row) = ap (λ (r : Transfer). r.block_number) row.row

    -- A row of the new blocks is stored: no other row has its key.
    stored_now :
        (n : ℕ) (r : Transfer) → s ≤ n → n ≤ c → IsTransferAt chain logs_of n r → In r after
    unfolding same_key
    stored_now n r lo hi is_transfer =
        let given = all_given n r lo hi is_transfer in
        let (q, at, key) = insert_missing_new p.transfer_records rows r given in
        let here : q.block_number ≡ pos n = key_block q key in
        let other = transfer_now n q (given_now n q lo at here) here in
        subst (λ r. In r after)
          (sym (same_row sv e top chain logs_of reports n r q is_transfer other key)) at
      where
        key_block : (q : Transfer) → same_key r q ≡ true → q.block_number ≡ pos n
        key_block q key =
            sym (==ℤ→eq r.block_number q.block_number (ground arith)) ∙ block_of n r is_transfer

    shown_now :
        (n : ℕ) (r : Transfer)
        → s ≤ n
        → n ≤ c
        → (In r after → r.block_number ≡ pos n → IsTransferAt chain logs_of n r)
          × (IsTransferAt chain logs_of n r → In r after)
    shown_now n r lo hi = (
      λ at here. transfer_now n r (given_now n r lo at here) here,
      λ is_transfer. stored_now n r lo hi is_transfer,
    )

    kept_before :
        (n : ℕ) (r : Transfer)
        → n < s
        → Exact chain logs_of n rows
        → (In r after → r.block_number ≡ pos n → IsTransferAt chain logs_of n r)
          × (IsTransferAt chain logs_of n r → In r after)
    kept_before n r early exact = (
      λ at here. elim (In-insert_missing p.transfer_records _ r at) [
        | inl given ↦
            let g = account_of r given in
            let same : g.number ≡ n = ground (arith, g.at) in absurd (omega (arith, g.from_first))
        | inr old ↦ (exact r).0 old here
      ],
      λ is_transfer. insert_missing_old p.transfer_records _ r ((exact r).1 is_transfer),
    )

    pub grown-IsFaithful :
        IsFaithful chain logs_of blocks rows
        → IsFaithful chain logs_of (upsert_all blocks (bound_blocks p.indexed_blocks)) after
    grown-IsFaithful f n found r = elim (Option-cases (select_hash (pos n) new)) [
      | inr (h, is_new) ↦
          let (m, same, lo, hi) = select_hash-within s bs (pos n) h numbers.0 fits is_new in
          let eq : n ≡ m = ground arith in shown_now n r (omega arith) (omega (arith, numbers.1))
      | inl none_new ↦
          let old : select_hash (pos n) blocks ≡ some (chain n).hash =
            ground (arith, looked n, found) in
          let (m, same, lt) = before (pos n) (chain n).hash old in
          let eq : n ≡ m = ground arith in kept_before n r (omega arith) (f n old)
    ]
      where
        new : List BlockRow
        new = bound_blocks (indexed_blocks_of bs)

        fits : s + length bs ≤ i64_limit
        fits = omega (arith, numbers.1, room)

        looked :
            (n : ℕ)
            → select_hash (pos n) (upsert_all blocks (bound_blocks p.indexed_blocks))
              ≡ or_else (select_hash (pos n) new) (select_hash (pos n) blocks)
        looked n =
            rw built.indexed
              (select_hash-upsert_all (pos n) blocks _ (repeats-Numbered s bs numbers.0 fits))
