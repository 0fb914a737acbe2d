-- ===== src/Prelude/Int.antt =====
-- The integers of Python that actions carry, over the native numbers. `negsuc n` is -(n + 1).
use Prim.Native.Nat.{◌/◌}
use desktop_worker.Prelude.{ℕ, zero, suc, ◌+◌, ◌-◌, Bool, true, false, nat_beq, leb, if◌then◌else◌}

pub data ℤ : Type 0 where
  pos : ℕ → ℤ
  negsuc : ℕ → ℤ

abbrev pub is_zero : ℤ → Bool
is_zero (pos n) = nat_beq n 0
is_zero (negsuc n) = false

abbrev pub is_negative : ℤ → Bool
is_negative (pos n) = false
is_negative (negsuc n) = true

-- The number that an integer is, with 0 in place of a negative one.
abbrev pub pos_part : ℤ → ℕ
pos_part (pos n) = n
pos_part (negsuc n) = 0

abbrev pub neg_part : ℤ → ℕ
neg_part (pos n) = 0
neg_part (negsuc n) = suc n

-- a - b, as an integer.
abbrev pub sub_ℕ : ℕ → ℕ → ℤ
sub_ℕ a b = if leb b a then pos (a - b) else negsuc (b - a - 1)

infixl 65 ◌+ℤ◌ ◌-ℤ◌
unfoldable pub ◌+ℤ◌ : ℤ → ℤ → ℤ
a +ℤ b = sub_ℕ (pos_part a + pos_part b) (neg_part a + neg_part b)

unfoldable pub ◌-ℤ◌ : ℤ → ℤ → ℤ
a -ℤ b = sub_ℕ (pos_part a + neg_part b) (neg_part a + pos_part b)

-- `a <= b` and `a < b`
abbrev pub leb_ℤ : ℤ → ℤ → Bool
leb_ℤ a b = leb (pos_part a + neg_part b) (pos_part b + neg_part a)

abbrev pub ltb_ℤ : ℤ → ℤ → Bool
ltb_ℤ a b = leb (pos_part a + neg_part b + 1) (pos_part b + neg_part a)

-- `a // 2`, towards minus infinity, and `int(a / 2)`, towards 0.
unfoldable pub half_down : ℤ → ℤ
half_down (pos n) = pos (n / 2)
half_down (negsuc n) = negsuc (n / 2)

abbrev pub minus_ℕ : ℕ → ℤ
minus_ℕ zero = pos 0
minus_ℕ (suc n) = negsuc n

unfoldable pub half : ℤ → ℤ
half (pos n) = pos (n / 2)
half (negsuc n) = minus_ℕ ((n + 1) / 2)
