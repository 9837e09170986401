-- ===== src/Prelude/Int.antt =====
-- Signed integers over the native numbers, and the casts between `u64` and `i64`.
use Prim.Native.Nat.{ℕ, suc, ◌+◌, ◌-◌, ◌%◌, ◌^◌, ◌≤◌, ◌<◌, compare, Ordering, min}
use mathlib.Core.Path.{◌≡◌}
use mathlib.Core.Bool.{Bool, true, false}
use native.Mathlib.Omega.{arith}
use rust_ethereum_indexer.Prelude.Tests.{ltb, leb, if◌then◌else◌}

-- `negsuc n` is -(n + 1).
pub data ℤ : Type 0 where
  pos : ℕ → ℤ
  negsuc : ℕ → ℤ

abbrev pub pos_part : ℤ → ℕ
pos_part (pos n) = n
pos_part (negsuc n) = 0

abbrev pub neg_part : ℤ → ℕ
neg_part (pos n) = 0
neg_part (negsuc n) = suc n

infix 50 ◌≤ℤ◌ ◌==ℤ◌
abbrev pub ◌≤ℤ◌ : ℤ → ℤ → Type 0
a ≤ℤ b = pos_part a + neg_part b ≤ pos_part b + neg_part a

abbrev pub ltb_ℤ : ℤ → ℤ → Bool
ltb_ℤ a b = ltb (pos_part a + neg_part b) (pos_part b + neg_part a)

abbrev pub leb_ℤ : ℤ → ℤ → Bool
leb_ℤ a b = leb (pos_part a + neg_part b) (pos_part b + neg_part a)

abbrev pub ◌==ℤ◌ : ℤ → ℤ → Bool
a ==ℤ b = elim (compare (pos_part a + neg_part b) (pos_part b + neg_part a)) [
  | Ordering.eq ↦ true
  | _ ↦ false
]

pub ==ℤ→eq : (a b : ℤ) → (a ==ℤ b) ≡ true → a ≡ b
==ℤ→eq a b h = ground arith

pub ==ℤ-refl : (a : ℤ) → (a ==ℤ a) ≡ true
==ℤ-refl a = ground arith

abbrev pub u64_mod : ℕ
u64_mod = 2 ^ 64

abbrev pub i64_limit : ℕ
i64_limit = 2 ^ 63

-- `n as i64` on a `u64`: the same 64 bits, read in two's complement.
unfoldable pub as_i64 : ℕ → ℤ
as_i64 n = if ltb n i64_limit then pos n else negsuc (u64_mod - 1 - n)

-- `z as u64` on an `i64`.
unfoldable pub as_u64 : ℤ → ℕ
as_u64 (pos n) = n
as_u64 (negsuc n) = u64_mod - 1 - n

-- a + b on `i64` in a release build: the sum of the bit patterns.
unfoldable pub add_i64 : ℤ → ℤ → ℤ
unfolding as_i64 as_u64
add_i64 a b = as_i64 ((as_u64 a + as_u64 b) % u64_mod)

-- The checkpoints are read back as they were written, over the whole range of `u64`.
pub as_u64-as_i64 : (n : ℕ) → n < u64_mod → as_u64 (as_i64 n) ≡ n
unfolding as_i64 as_u64
as_u64-as_i64 n h = ground arith

-- Below 2^63 the cast keeps the value, and with it the order that the queries test.
pub as_i64-eq_pos : (n : ℕ) → n < i64_limit → as_i64 n ≡ pos n
unfolding as_i64
as_i64-eq_pos n h = ground arith

pub ruleset casts = (as_u64-as_i64, as_i64-eq_pos)

-- `u64::saturating_add`; `saturating_sub` is the subtraction of ℕ.
abbrev pub saturating_add : ℕ → ℕ → ℕ
saturating_add a b = min (a + b) (u64_mod - 1)

-- a + b - 1 on `u64` in a release build.
unfoldable pub add_sub_one : ℕ → ℕ → ℕ
add_sub_one a b = (a + b + (u64_mod - 1)) % u64_mod

pub add_sub_one-eq : (a b : ℕ) → 0 < b → a + b ≤ u64_mod → add_sub_one a b ≡ a + b - 1
unfolding add_sub_one
add_sub_one-eq a b p h = omega arith
