-- ===== src/Prelude/ByteString.antt =====
-- Byte strings, and the little-endian encoding of a number in a fixed width.
use Prim.Native.Nat.{ℕ, zero, suc, ◌+◌, ◌*◌, ◌/◌, ◌%◌, ◌^◌, ◌<◌}
use Prim.Native.Char.{code}
use Prim.Native.String.{String}
use mathlib.Core.Path.{◌≡◌, refl, ap}
use mathlib.Core.Bool.{Bool, true, false, ◌&&◌}
use mathlib.Core.Logic.{◌≢◌, ◌⊎◌, inl, inr}
use mathlib.Core.List.{List, [], ◌∷◌}
use native.Mathlib.Omega.{arith}
use native.Mathlib.Nat.{pow-succ'}
use solana.Prelude.Tests.{◌==◌, Bool-cases}
use solana.Prelude.Lists.{length}

-- A byte string: each element is below 256.
abbrev pub Bytes : Type 0
Bytes = List ℕ

-- `b"..."` and `"...".as_bytes()` of an ASCII literal.
abbrev pub ascii : String → Bytes
ascii String.[] = []
ascii (String.◌∷◌ c s) = code c ∷ ascii s

-- `to_le_bytes` in `w` bytes.
unfoldable pub le_bytes : ℕ → ℕ → Bytes
le_bytes zero n = []
le_bytes (suc w) n = n % 256 ∷ le_bytes w (n / 256)

-- `from_le_bytes`
unfoldable pub from_le_bytes : Bytes → ℕ
from_le_bytes [] = 0
from_le_bytes (b ∷ bs) = b + 256 * from_le_bytes bs

-- Equality of byte strings.
abbrev pub bytes_eq : Bytes → Bytes → Bool
bytes_eq [] [] = true
bytes_eq [] (b ∷ bs) = false
bytes_eq (a ∷ as_) [] = false
bytes_eq (a ∷ as_) (b ∷ bs) = a == b && bytes_eq as_ bs

pub bytes_eq→eq : (xs ys : Bytes) → bytes_eq xs ys ≡ true → xs ≡ ys
bytes_eq→eq [] [] h = refl
bytes_eq→eq [] (b ∷ bs) h = cc
bytes_eq→eq (a ∷ xs) [] h = cc
bytes_eq→eq (a ∷ xs) (b ∷ bs) h = ground (arith, bytes_eq→eq xs bs)

pub bytes_eq_refl : (xs : Bytes) → bytes_eq xs xs ≡ true
bytes_eq_refl [] = refl
bytes_eq_refl (a ∷ xs) = ground (arith, bytes_eq_refl xs)

pub length-le_bytes : (w n : ℕ) → length (le_bytes w n) ≡ w
unfolding le_bytes
length-le_bytes zero n = refl
length-le_bytes (suc w) n = ap suc (length-le_bytes w (n / 256))

pow_256_suc : (w : ℕ) → 256 ^ suc w ≡ 256 * 256 ^ w
pow_256_suc w = pow-succ' 256 w

-- A number that fits is read back.
pub from_le_bytes-le_bytes : (w n : ℕ) → n < 256 ^ w → from_le_bytes (le_bytes w n) ≡ n
unfolding le_bytes from_le_bytes
from_le_bytes-le_bytes zero n h = omega arith
from_le_bytes-le_bytes (suc w) n h =
    omega (arith, from_le_bytes-le_bytes w (n / 256) (omega (arith, pow_256_suc w)))

-- Numbers that fit have different encodings.
pub le_bytes_inj : (w m n : ℕ) → m < 256 ^ w → n < 256 ^ w → le_bytes w m ≡ le_bytes w n → m ≡ n
le_bytes_inj w m n hm hn e =
    cc (from_le_bytes-le_bytes w m hm, from_le_bytes-le_bytes w n hn, ap from_le_bytes e)

-- A public key is a number below 2 ^ 256; its bytes are its digits to the base 256, in order.
abbrev pub Pubkey : Type 0
Pubkey = ℕ

abbrev pub key_bytes : Pubkey → Bytes
key_bytes k = le_bytes 32 k

abbrev pub IsKey : Pubkey → Type 0
IsKey k = k < 256 ^ 32

-- `Pubkey::default()`
abbrev pub default_key : Pubkey
default_key = 0

-- Two different inputs with one hash.
abbrev pub Collision : (Bytes → Bytes) → Type 0
Collision h = (x : Bytes) × (y : Bytes) × (x ≢ y) × (h x ≡ h y)

-- Equal hashes come from equal inputs, or they show a collision.
pub hash_binding : (h : Bytes → Bytes) (x y : Bytes) → h x ≡ h y → (x ≡ y) ⊎ Collision h
hash_binding h x y e = elim (Bool-cases (bytes_eq x y)) [
  | inl same ↦ inl (bytes_eq→eq x y same)
  | inr other ↦ inr (x, y, (λ p. true≢false_at (p) other), e)
]
  where
    true≢false_at : x ≡ y → bytes_eq x y ≡ false → ⊥
    true≢false_at p other = cc (other, bytes_eq_refl y, ap (λ (z : Bytes). bytes_eq z y) p)
