-- ===== src/Common/Words.antt =====
-- Machine words as native numbers, and their bytes: x86-64, so native order is little-endian and
-- `usize` has 64 bits.
use Prim.Native.Nat.{ℕ, ◌+◌, ◌*◌, ◌/◌, ◌%◌, ◌^◌, ◌<◌}
use mathlib.Core.Path.{◌≡◌}
use mathlib.Core.List.{List, [], ◌∷◌}
use native.Mathlib.Omega.{arith}

abbrev pub u16_mod : ℕ
u16_mod = 2 ^ 16

abbrev pub u32_mod : ℕ
u32_mod = 2 ^ 32

abbrev pub usize_mod : ℕ
usize_mod = 2 ^ 64

abbrev pub Bytes : Type 0
Bytes = List ℕ

-- Every element is a byte.
abbrev pub IsBytes : Bytes → Type 0
IsBytes [] = Unit
IsBytes (b ∷ bs) = (b < 256) × IsBytes bs

-- `u32::from_ne_bytes`
unfoldable pub from_ne_bytes : ℕ → ℕ → ℕ → ℕ → ℕ
from_ne_bytes b0 b1 b2 b3 = b0 + b1 * 256 + b2 * 65536 + b3 * 16777216

abbrev pub byte_of : ℕ → ℕ → ℕ
byte_of v i = v / 256 ^ i % 256

-- `u32::to_ne_bytes`
unfoldable pub to_ne_bytes : ℕ → Bytes
to_ne_bytes v = byte_of v 0 ∷ byte_of v 1 ∷ byte_of v 2 ∷ byte_of v 3 ∷ []

pub from-to_ne_bytes :
    (v : ℕ)
    → v < u32_mod
    → from_ne_bytes (byte_of v 0) (byte_of v 1) (byte_of v 2) (byte_of v 3) ≡ v
unfolding from_ne_bytes
from-to_ne_bytes v h = omega arith

pub byte_of-from_ne_bytes :
    (b0 b1 b2 b3 : ℕ)
    → b0 < 256
    → b1 < 256
    → b2 < 256
    → b3 < 256
    → (byte_of (from_ne_bytes b0 b1 b2 b3) 0 ≡ b0)
      × (byte_of (from_ne_bytes b0 b1 b2 b3) 1 ≡ b1)
      × (byte_of (from_ne_bytes b0 b1 b2 b3) 2 ≡ b2)
      × (byte_of (from_ne_bytes b0 b1 b2 b3) 3 ≡ b3)
unfolding from_ne_bytes
byte_of-from_ne_bytes b0 b1 b2 b3 h0 h1 h2 h3 = omega arith

pub from_ne_bytes-lt :
    (b0 b1 b2 b3 : ℕ)
    → b0 < 256
    → b1 < 256
    → b2 < 256
    → b3 < 256
    → from_ne_bytes b0 b1 b2 b3 < u32_mod
unfolding from_ne_bytes
from_ne_bytes-lt b0 b1 b2 b3 h0 h1 h2 h3 = omega arith
