-- ===== src/Prelude/Int.antt =====
-- Signed integers over the native numbers, and their two's complement of `8 * w` bits.
use Prim.Native.Nat.{ℕ, suc, ◌+◌, ◌-◌, ◌≤◌, ◌<◌, ◌*◌}
use mathlib.Core.Path.{◌≡◌, ap}
use mathlib.Core.Bool.{Bool}
use native.Mathlib.Omega.{arith}
use solana.Prelude.Tests.{leb, if◌then◌else◌}

-- `negsuc n` is -(n + 1).
pub data ℤ : Type 0 where
  pos : ℕ → ℤ
  negsuc : ℕ → ℤ

abbrev pub pos_part : ℤ → ℕ
pos_part (pos n) = n
pos_part (negsuc n) = 0

abbrev pub neg_part : ℤ → ℕ
neg_part (pos n) = 0
neg_part (negsuc n) = suc n

abbrev pub sub_ℕ : ℕ → ℕ → ℤ
sub_ℕ a b = if leb b a then pos (a - b) else negsuc (b - a - 1)

infixl 65 ◌+ℤ◌
infix 50 ◌≤ℤ◌
abbrev pub ◌+ℤ◌ : ℤ → ℤ → ℤ
a +ℤ b = sub_ℕ (pos_part a + pos_part b) (neg_part a + neg_part b)

abbrev pub ◌≤ℤ◌ : ℤ → ℤ → Type 0
a ≤ℤ b = pos_part a + neg_part b ≤ pos_part b + neg_part a

abbrev pub leb_ℤ : ℤ → ℤ → Bool
leb_ℤ a b = leb (pos_part a + neg_part b) (pos_part b + neg_part a)

-- The bit pattern of an integer in a word of `m` values: its two's complement.
abbrev pub twos : ℕ → ℤ → ℕ
twos m (pos n) = n
twos m (negsuc n) = m - suc n

-- The range of a signed word of `2 * half` values.
abbrev pub Fits : ℕ → ℤ → Type 0
Fits half (pos n) = n < half
Fits half (negsuc n) = n < half

pub twos-lt : (half : ℕ) (z : ℤ) → Fits half z → twos (2 * half) z < 2 * half
twos-lt half (pos n) h = omega arith
twos-lt half (negsuc n) h = omega arith

-- In range, different integers have different bit patterns.
pub twos_inj :
    (half : ℕ) (a b : ℤ) → Fits half a → Fits half b → twos (2 * half) a ≡ twos (2 * half) b → a ≡ b
twos_inj half (pos a) (pos b) ha hb e = ap pos e
twos_inj half (pos a) (negsuc b) ha hb e = absurd (omega arith)
twos_inj half (negsuc a) (pos b) ha hb e = absurd (omega arith)
twos_inj half (negsuc a) (negsuc b) ha hb e = ap negsuc (omega arith)
