-- ===== src/Api/Pages.antt =====
-- What the query `erc20_transfers` of crates/api/src/schema.rs returns.
use rust_ethereum_indexer.Prelude.{
  leb_ℤ, ◌↔◌, Text, Option, none, some, ℤ, pos, negsuc, ◌≤ℤ◌, Bytes, bytes_eq, bytes_eq_refl,
  bytes_eq→eq, ◌+◌, ◌<◌, min, Error, Result, ok, err, Exec, lift, raise, ◌>>=◌, keep_if_passes, ℕ,
  zero, suc, Bool, true, ◌≡◌, refl, sym, ap, ◌∙◌, List, [], ◌∷◌, ◌++◌, All, All-map, keep_if, arith,
  length, take, drop, Bool-cases, inl, inr,
}
use mathlib.Core.Path.{subst}
use rust_ethereum_indexer.Storage.Tables.{Transfer, Database}
use rust_ethereum_indexer.Storage.Session.{Answer, done, refused, lost, Host, execute}
use rust_ethereum_indexer.Storage.Statements.{reads}
use rust_ethereum_indexer.Api.Address.{parse_optional}
use rust_ethereum_indexer.Api.Query.{
  Arguments, if_given, normalize_limit, normalize_offset, is_inverted, erc20_transfers, Filters,
  passes, order_latest, select_transfers,
}
use rust_ethereum_indexer.Api.Order.{IsOrdered, order_latest-IsOrdered, order_latest-All}
use rust_ethereum_indexer.Api.Count.{count_if, count_order_latest, count_append, count_kept}

module _ {A B : Type 0} (next : A → Exec Host B) (h : Host) (b : B) where
  -- A step on pure data that the chain has passed.
  pub lift_passed :
      (r : Result A) → ((lift r >>= next) h).0 ≡ ok b → (a : A) × (r ≡ ok a) × ((next a h).0 ≡ ok b)
  unfolding ◌>>=◌
  lift_passed (ok a) e = (a, refl, e)
  lift_passed (err c) e = cc

pub raise_passed :
    {A : Type 0} (c : Error) (h : Host) (a : A) → (raise {S = Host} {A = A} c h).0 ≡ ok a → ⊥
unfolding raise
raise_passed c h a e = cc

execute_passed :
    {A : Type 0} (answer : ℕ → Answer) (read : Database → A) (h : Host) (a : A)
    → (execute answer (reads read) h).0 ≡ ok a
    → a ≡ read h.database
unfolding execute
execute_passed answer read h a e = go (answer h.time) refl
  where
    go : (reply : Answer) → answer h.time ≡ reply → a ≡ read h.database
    go done q = ground (arith, rw (q, execute) at e)
    go (refused c) q = ground (arith, rw (q, execute) at e)
    go (lost c) q = ground (arith, rw (q, execute) at e)

-- How many rows are returned at most: 50 where no limit is given, and never more than 500.
abbrev pub LimitIs : Option ℤ → ℕ → Type 0
LimitIs none limit = limit ≡ 50
LimitIs (some z) limit = (n : ℕ) × (z ≡ pos n) × (0 < n) × (limit ≡ min n 500)

abbrev pub OffsetIs : Option ℤ → ℕ → Type 0
OffsetIs none offset = offset ≡ 0
OffsetIs (some z) offset = z ≡ pos offset

normalize_limit-LimitIs :
    (limit : Option ℤ) (n : ℕ) → normalize_limit limit ≡ ok n → LimitIs limit n
unfolding normalize_limit
normalize_limit-LimitIs none n h = ground arith
normalize_limit-LimitIs (some (pos zero)) n h = cc
normalize_limit-LimitIs (some (pos (suc m))) n h = (suc m, refl, omega arith, ground arith)
normalize_limit-LimitIs (some (negsuc m)) n h = cc

normalize_offset-OffsetIs :
    (offset : Option ℤ) (n : ℕ) → normalize_offset offset ≡ ok n → OffsetIs offset n
unfolding normalize_offset
normalize_offset-OffsetIs none n h = ground arith
normalize_offset-OffsetIs (some (pos m)) n h = ground arith
normalize_offset-OffsetIs (some (negsuc m)) n h = cc

-- The row is from, to and of the addresses that are asked for, and not before the smallest nor
-- beyond the greatest block, as far as these are given.
pub record Matches (address_from_str : Text → Option Bytes) (a : Arguments) (r : Transfer)
    : Type 0 where
  pub from :
      (b : Bytes)
      → parse_optional address_from_str a.from_address ≡ ok (some b)
      → r.from_address ≡ b
  pub to :
      (b : Bytes) → parse_optional address_from_str a.to_address ≡ ok (some b) → r.to_address ≡ b
  pub contract :
      (b : Bytes)
      → parse_optional address_from_str a.contract_address ≡ ok (some b)
      → r.contract_address ≡ b
  pub not_before : (z : ℤ) → a.min_block ≡ some z → z ≤ℤ r.block_number
  pub not_beyond : (z : ℤ) → a.max_block ≡ some z → r.block_number ≤ℤ z

-- What a client may rely on, of the rows that a query with the arguments `a` returned: they are the
-- part from the offset on, and up to the limit, of all the rows of both lanes that match, latest
-- first.
pub record IsPage (address_from_str : Text → Option Bytes) (a : Arguments) (db : Database)
    (rows : List Transfer) : Type 0 where
  pub limit : ℕ
  pub offset : ℕ
  pub limit_is : LimitIs a.limit limit
  pub offset_is : OffsetIs a.offset offset
  pub all : List Transfer
  pub part : rows ≡ take limit (drop offset all)
  pub ordered : IsOrdered all
  pub matching : All (Matches address_from_str a) all
  pub counted :
      (test : Transfer → Bool)
      → ((r : Transfer) → test r ≡ true → Matches address_from_str a r)
      → count_if test all
        ≡ count_if test db.erc20_transfers.rows + count_if test db.hot_erc20_transfers.rows

equal_given :
    (x : Bytes) (o : Option Bytes)
    → if_given (bytes_eq x) o ≡ true
    → (b : Bytes) → o ≡ some b
    → x ≡ b
equal_given x none e b given = cc
equal_given x (some c) e b given = let same = bytes_eq→eq x c e in ground arith

given_equal :
    (x : Bytes) (o : Option Bytes)
    → ((b : Bytes) → o ≡ some b → x ≡ b)
    → if_given (bytes_eq x) o ≡ true
given_equal x none h = refl
given_equal x (some c) h = rw (h c refl) (bytes_eq_refl c)

above_given :
    (x : ℤ) (o : Option ℤ) → (if_given (λ z. leb_ℤ z x) o ≡ true) ↔ ((z : ℤ) → o ≡ some z → z ≤ℤ x)
above_given x none = (λ e z given. absurd (cc given), λ h. refl)
above_given x (some c) = (λ e z given. ground arith, λ h. ground (arith, h c refl))

below_given :
    (x : ℤ) (o : Option ℤ) → (if_given (λ z. leb_ℤ x z) o ≡ true) ↔ ((z : ℤ) → o ≡ some z → x ≤ℤ z)
below_given x none = (λ e z given. absurd (cc given), λ h. refl)
below_given x (some c) = (λ e z given. ground arith, λ h. ground (arith, h c refl))

-- The value of a result.
known : {A : Type 0} (r : Result A) (x y : A) → r ≡ ok x → r ≡ ok y → x ≡ y
known r x y e e' = ground arith

module _ (address_from_str : Text → Option Bytes) (a : Arguments) (f : Filters)
    (from_eq : parse_optional address_from_str a.from_address ≡ ok f.from_address)
    (to_eq : parse_optional address_from_str a.to_address ≡ ok f.to_address)
    (contract_eq : parse_optional address_from_str a.contract_address ≡ ok f.contract_address)
    (min_eq : f.min_block ≡ a.min_block) (max_eq : f.max_block ≡ a.max_block) where
  passes-Matches : (r : Transfer) → passes f r ≡ true → Matches address_from_str a r
  unfolding passes
  passes-Matches r e = record {
    from = λ b given.
        equal_given r.from_address f.from_address (ground arith) b (known _ _ _ from_eq given);
    to =
        λ b given. equal_given r.to_address f.to_address (ground arith) b (known _ _ _ to_eq given);
    contract = λ b given.
        equal_given r.contract_address f.contract_address (ground arith) b
          (known _ _ _ contract_eq given);
    not_before =
        λ z given. (above_given r.block_number f.min_block).0 (ground arith) z (min_eq ∙ given);
    not_beyond =
        λ z given. (below_given r.block_number f.max_block).0 (ground arith) z (max_eq ∙ given);
  }

  Matches-passes : (r : Transfer) → Matches address_from_str a r → passes f r ≡ true
  unfolding passes
  Matches-passes r m =
      let from = given_equal r.from_address f.from_address (λ b o. m.from b (from_eq ∙ ap ok o)) in
      let to = given_equal r.to_address f.to_address (λ b o. m.to b (to_eq ∙ ap ok o)) in
      let contract =
        given_equal r.contract_address f.contract_address
          (λ b o. m.contract b (contract_eq ∙ ap ok o)) in
      let low =
        (above_given r.block_number f.min_block).1 (λ z o. m.not_before z (sym min_eq ∙ o)) in
      let high =
        (below_given r.block_number f.max_block).1 (λ z o. m.not_beyond z (sym max_eq ∙ o)) in
      rw (from, to, contract, low, high) refl

  -- The rows before LIMIT and OFFSET.
  abbrev all_rows : Database → List Transfer
  all_rows db =
      order_latest (keep_if (passes f) (db.erc20_transfers.rows ++ db.hot_erc20_transfers.rows))

  all_rows-IsOrdered : (db : Database) → IsOrdered (all_rows db)
  all_rows-IsOrdered db =
      order_latest-IsOrdered
        (keep_if (passes f) (db.erc20_transfers.rows ++ db.hot_erc20_transfers.rows))

  all_rows-Matches : (db : Database) → All (Matches address_from_str a) (all_rows db)
  all_rows-Matches db =
      order_latest-All _ _ (All-map _ _ _ passes-Matches (keep_if_passes (passes f) _))

  all_rows_counted :
      (db : Database) (test : Transfer → Bool)
      → ((r : Transfer) → test r ≡ true → Matches address_from_str a r)
      → count_if test (all_rows db)
        ≡ count_if test db.erc20_transfers.rows + count_if test db.hot_erc20_transfers.rows
  all_rows_counted db test lets =
      count_order_latest test _
      ∙ count_kept test (passes f) (db.erc20_transfers.rows ++ db.hot_erc20_transfers.rows)
          (λ r e. Matches-passes r (lets r e))
      ∙ count_append test db.erc20_transfers.rows db.hot_erc20_transfers.rows

-- A query that returns rows returns those from the offset on, as many as the limit says (50 where
-- none is given, and never more than 500), of a list that holds each transfer that matches as often
-- as both lanes together and nothing else, latest block first and within a block the greatest log
-- index first. A transfer matches that has the sender, recipient and contract that the addresses in
-- the arguments parse to and is between the smallest and the greatest block, as far as they are
-- given.
pub erc20_transfers-IsPage :
    (answer : ℕ → Answer) (address_from_str : Text → Option Bytes) (a : Arguments) (h : Host)
    (rows : List Transfer)
    → (erc20_transfers answer address_from_str a h).0 ≡ ok rows
    → IsPage address_from_str a h.database rows
unfolding erc20_transfers select_transfers
erc20_transfers-IsPage answer address_from_str a h rows e =
    elim (Bool-cases (is_inverted a.min_block a.max_block)) [
      | inl inverted ↦ absurd (refused_page inverted)
      | inr fine ↦
          let (from, from_eq, e₁) = lift_passed _ h rows _ (rw fine at e) in
          let (to, to_eq, e₂) = lift_passed _ h rows _ e₁ in
          let (contract, contract_eq, e₃) = lift_passed _ h rows _ e₂ in
          let (limit, limit_eq, e₄) = lift_passed _ h rows _ e₃ in
          let (offset, offset_eq, e₅) = lift_passed _ h rows _ e₄ in
          let f : Filters = record {
            from_address = from;
            to_address = to;
            contract_address = contract;
            min_block = a.min_block;
            max_block = a.max_block;
          } in
          record {
            limit = limit;
            offset = offset;
            limit_is = normalize_limit-LimitIs a.limit limit limit_eq;
            offset_is = normalize_offset-OffsetIs a.offset offset offset_eq;
            all = all_rows address_from_str a f from_eq to_eq contract_eq refl refl h.database;
            part = execute_passed answer _ h rows e₅;
            ordered =
                all_rows-IsOrdered address_from_str a f from_eq to_eq contract_eq refl refl
                  h.database;
            matching =
                all_rows-Matches address_from_str a f from_eq to_eq contract_eq refl refl
                  h.database;
            counted =
                all_rows_counted address_from_str a f from_eq to_eq contract_eq refl refl
                  h.database;
          }
    ]
  where
    refused_page : is_inverted a.min_block a.max_block ≡ true → ⊥
    refused_page inverted = raise_passed _ h rows (rw inverted at e)

one_limit : (o : Option ℤ) (limit limit' : ℕ) → LimitIs o limit → LimitIs o limit' → limit ≡ limit'
one_limit none limit limit' h h' = omega (arith, h, h')
one_limit (some z) limit limit' (n, at, _, is) (m, at', _, is') = ground arith

-- A list of which fewer rows are taken than may be is taken whole.
take_whole : (n : ℕ) (rows : List Transfer) → length (take n rows) < n → take n rows ≡ rows
take_whole zero rows lt = absurd (omega arith)
take_whole (suc n) [] lt = refl
take_whole (suc n) (r ∷ rows) lt = ap (λ rs. r ∷ rs) (take_whole n rows (omega arith))

-- A query without an offset that returns fewer rows than its limit returns a transfer that matches
-- as often as both lanes together hold it: one that is in both is returned twice.
pub erc20_transfers-counted :
    (answer : ℕ → Answer) (address_from_str : Text → Option Bytes) (a : Arguments) (h : Host)
    (rows : List Transfer) (limit : ℕ)
    → (erc20_transfers answer address_from_str a h).0 ≡ ok rows
    → a.offset ≡ none
    → LimitIs a.limit limit
    → length rows < limit
    → (test : Transfer → Bool) → ((r : Transfer) → test r ≡ true → Matches address_from_str a r)
    → count_if test rows
      ≡ count_if test h.database.erc20_transfers.rows
        + count_if test h.database.hot_erc20_transfers.rows
erc20_transfers-counted answer address_from_str a h rows limit e no_offset limit_is lt test lets =
    let page = erc20_transfers-IsPage answer address_from_str a h rows e in
    let same = one_limit a.limit page.limit limit page.limit_is limit_is in
    let front : page.offset ≡ 0 = subst (λ o. OffsetIs o page.offset) no_offset page.offset_is in
    let part : rows ≡ take limit page.all =
      page.part
      ∙ ap (λ n. take n (drop page.offset page.all)) same
      ∙ ap (λ n. take limit (drop n page.all)) front in
    let whole : rows ≡ page.all =
      part ∙ take_whole limit page.all (subst (λ rs. length rs < limit) part lt) in
    ap (count_if test) whole ∙ page.counted test lets
