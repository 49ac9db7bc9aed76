-- ===== src/Base/Int.antt =====
-- `long long` values as signed integers over the native numbers, and the 64-bit wrap-around.
use Prim.Native.Nat.{ℕ, suc, ◌+◌, ◌-◌, ◌%◌, ◌^◌, ◌≤◌}
use mathlib.Core.Path.{◌≡◌}
use mathlib.Core.Bool.{Bool}
use native.Mathlib.Omega.{arith}
use true_store.Base.Tests.{ltb, leb, if◌then◌else◌}

-- `negsuc n` is -(n + 1).
pub data ℤ : Type 0 where
  pos : ℕ → ℤ
  negsuc : ℕ → ℤ

abbrev pub pos_part : ℤ → ℕ
pos_part (pos n) = n
pos_part (negsuc n) = 0

abbrev pub neg_part : ℤ → ℕ
neg_part (pos n) = 0
neg_part (negsuc n) = suc n

abbrev pub sub_ℕ : ℕ → ℕ → ℤ
sub_ℕ a b = if leb b a then pos (a - b) else negsuc (b - a - 1)

infixl 65 ◌+ℤ◌ ◌-ℤ◌
infix 50 ◌≤ℤ◌
abbrev pub ◌+ℤ◌ : ℤ → ℤ → ℤ
a +ℤ b = sub_ℕ (pos_part a + pos_part b) (neg_part a + neg_part b)

abbrev pub ◌-ℤ◌ : ℤ → ℤ → ℤ
a -ℤ b = sub_ℕ (pos_part a + neg_part b) (neg_part a + pos_part b)

abbrev pub ◌≤ℤ◌ : ℤ → ℤ → Type 0
a ≤ℤ b = pos_part a + neg_part b ≤ pos_part b + neg_part a

abbrev pub ltb_ℤ : ℤ → ℤ → Bool
ltb_ℤ a b = ltb (pos_part a + neg_part b) (pos_part b + neg_part a)

abbrev pub leb_ℤ : ℤ → ℤ → Bool
leb_ℤ a b = leb (pos_part a + neg_part b) (pos_part b + neg_part a)

abbrev pub is_negative : ℤ → Bool
is_negative (pos n) = ltb 1 0
is_negative (negsuc n) = ltb 0 1

-- The integer that a pattern of `w` bits stands for.
abbrev pub of_bits : ℕ → ℕ → ℤ
of_bits half n = if ltb n half then pos n else negsuc (half + half - n - 1)

-- A true result reduced to int64_t, the way two's complement hardware stores it.
unfoldable pub wrap_i64 : ℤ → ℤ
wrap_i64 a = of_bits (2 ^ 63) ((pos_part a + (2 ^ 64 - neg_part a % 2 ^ 64)) % 2 ^ 64)

-- A value that fits is stored unchanged.
pub wrap_i64_fits : (n : ℕ) → n ≤ 2 ^ 63 - 1 → wrap_i64 (pos n) ≡ pos n
unfolding wrap_i64
wrap_i64_fits n h = ground arith
