-- ===== src/Prelude/Ints.antt =====
-- Signed integers over the native numbers, and the C conversions between bit patterns and values.
use Prim.Native.Nat.{ℕ, suc, ◌+◌, ◌-◌, ◌%◌, ◌^◌, ◌≤◌, ◌<◌}
use mathlib.Core.Path.{◌≡◌}
use mathlib.Core.Logic.{◌≢◌, ◌↔◌}
use mathlib.Core.Bool.{false, Bool, true}
use native.Mathlib.Omega.{arith}
use libbaalue.Prelude.Tests.{ltb, leb, ◌==◌, if◌then◌else◌}

-- `negsuc n` is -(n + 1).
pub data ℤ : Type 0 where
  pos : ℕ → ℤ
  negsuc : ℕ → ℤ

abbrev pub pos_part : ℤ → ℕ
pos_part (pos n) = n
pos_part (negsuc n) = 0

abbrev pub neg_part : ℤ → ℕ
neg_part (pos n) = 0
neg_part (negsuc n) = suc n

-- a - b, as an integer.
abbrev pub sub_ℕ : ℕ → ℕ → ℤ
sub_ℕ a b = if leb b a then pos (a - b) else negsuc (b - a - 1)

infixl 65 ◌+ℤ◌ ◌-ℤ◌
infix 50 ◌≤ℤ◌ ◌<ℤ◌
abbrev pub ◌+ℤ◌ : ℤ → ℤ → ℤ
a +ℤ b = sub_ℕ (pos_part a + pos_part b) (neg_part a + neg_part b)

abbrev pub ◌-ℤ◌ : ℤ → ℤ → ℤ
a -ℤ b = sub_ℕ (pos_part a + neg_part b) (neg_part a + pos_part b)

abbrev pub ◌≤ℤ◌ : ℤ → ℤ → Type 0
a ≤ℤ b = pos_part a + neg_part b ≤ pos_part b + neg_part a

abbrev pub ◌<ℤ◌ : ℤ → ℤ → Type 0
a <ℤ b = pos_part a + neg_part b < pos_part b + neg_part a

abbrev pub ltb_ℤ : ℤ → ℤ → Bool
ltb_ℤ a b = ltb (pos_part a + neg_part b) (pos_part b + neg_part a)

abbrev pub eqb_ℤ : ℤ → ℤ → Bool
eqb_ℤ a b = pos_part a + neg_part b == pos_part b + neg_part a

-- The value that a two's complement pattern of `w` bits, below 2 ^ w, stands for.
abbrev pub signed8 : ℕ → ℤ
signed8 n = if ltb n (2 ^ 7) then pos n else negsuc (2 ^ 8 - n - 1)

abbrev pub signed16 : ℕ → ℤ
signed16 n = if ltb n (2 ^ 15) then pos n else negsuc (2 ^ 16 - n - 1)

abbrev pub signed32 : ℕ → ℤ
signed32 n = if ltb n (2 ^ 31) then pos n else negsuc (2 ^ 32 - n - 1)

abbrev pub signed64 : ℕ → ℤ
signed64 n = if ltb n (2 ^ 63) then pos n else negsuc (2 ^ 64 - n - 1)

-- The pattern of a value converted to an unsigned type of 8, 16, 32 or 64 bits.
abbrev pub to_u8 : ℤ → ℕ
to_u8 z = (pos_part z + (2 ^ 8 - neg_part z % 2 ^ 8)) % 2 ^ 8

abbrev pub to_u16 : ℤ → ℕ
to_u16 z = (pos_part z + (2 ^ 16 - neg_part z % 2 ^ 16)) % 2 ^ 16

abbrev pub to_u32 : ℤ → ℕ
to_u32 z = (pos_part z + (2 ^ 32 - neg_part z % 2 ^ 32)) % 2 ^ 32

abbrev pub to_u64 : ℤ → ℕ
to_u64 z = (pos_part z + (2 ^ 64 - neg_part z % 2 ^ 64)) % 2 ^ 64

-- The values of an `int`.
abbrev pub IsInt : ℤ → Type 0
IsInt z = (neg_part z ≤ 2 ^ 31) × (pos_part z < 2 ^ 31)

pub signed32-to_u32 : (z : ℤ) → IsInt z → signed32 (to_u32 z) ≡ z
signed32-to_u32 (pos n) h = ground arith
signed32-to_u32 (negsuc n) h = ground arith

pub eqb_ℤ_iff : (a b : ℤ) → (eqb_ℤ a b ≡ true) ↔ (a ≡ b)
eqb_ℤ_iff a b = ground arith

pub eqb_ℤ_ne : (a b : ℤ) → a ≢ b → eqb_ℤ a b ≡ false
eqb_ℤ_ne a b h = ground (arith, eqb_ℤ_iff a b)
