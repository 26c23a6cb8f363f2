-- ===== src/Common/Bits.antt =====
-- Masks on one byte as arithmetic; each is a table of at most 256 entries, checked by evaluation.
use Prim.Native.Nat.{ℕ, zero, suc, ◌+◌, ◌%◌, ◌<◌, bit_and, bit_or}
use mathlib.Core.Path.{◌≡◌, refl}
use mathlib.Core.Bool.{Bool, true, false}
use mathlib.Core.Logic.{ite}
use native.Mathlib.Decide.{ℕ_discrete}
use native.Mathlib.Omega.{arith}

module _ (f g : ℕ → ℕ) where
  agree_below : ℕ → Bool
  unfolding ℕ_discrete
  agree_below zero = true
  agree_below (suc n) = ite (ℕ_discrete (f n) (g n)) (agree_below n) false

  agree_below→eq : (n : ℕ) → agree_below n ≡ true → (i : ℕ) → i < n → f i ≡ g i
  unfolding agree_below
  agree_below→eq zero e i h = absurd (omega arith)
  agree_below→eq (suc n) e i h = ground (arith, agree_below→eq n (ground arith) i)

-- The masks that select the data bits of a first byte, by the number of bits kept.
pub bit_and-low7 : (b : ℕ) → b < 256 → bit_and b 0x7f ≡ b % 128
unfolding agree_below
bit_and-low7 = agree_below→eq _ _ 256 refl

pub bit_and-low6 : (b : ℕ) → b < 256 → bit_and b 0x3f ≡ b % 64
unfolding agree_below
bit_and-low6 = agree_below→eq _ _ 256 refl

pub bit_and-low5 : (b : ℕ) → b < 256 → bit_and b 0x1f ≡ b % 32
unfolding agree_below
bit_and-low5 = agree_below→eq _ _ 256 refl

pub bit_and-low4 : (b : ℕ) → b < 256 → bit_and b 0xf ≡ b % 16
unfolding agree_below
bit_and-low4 = agree_below→eq _ _ 256 refl

pub bit_and-low3 : (b : ℕ) → b < 256 → bit_and b 0x7 ≡ b % 8
unfolding agree_below
bit_and-low3 = agree_below→eq _ _ 256 refl

pub bit_and-low2 : (b : ℕ) → b < 256 → bit_and b 0x3 ≡ b % 4
unfolding agree_below
bit_and-low2 = agree_below→eq _ _ 256 refl

pub bit_and-low1 : (b : ℕ) → b < 256 → bit_and b 0x1 ≡ b % 2
unfolding agree_below
bit_and-low1 = agree_below→eq _ _ 256 refl

-- The tags of a first byte: leading ones over data bits that are clear of them.
pub bit_or-tag1 : (d : ℕ) → d < 64 → bit_or 0x80 d ≡ 128 + d
unfolding agree_below
bit_or-tag1 = agree_below→eq _ _ 64 refl

pub bit_or-tag2 : (d : ℕ) → d < 32 → bit_or 0xc0 d ≡ 192 + d
unfolding agree_below
bit_or-tag2 = agree_below→eq _ _ 32 refl

pub bit_or-tag3 : (d : ℕ) → d < 16 → bit_or 0xe0 d ≡ 224 + d
unfolding agree_below
bit_or-tag3 = agree_below→eq _ _ 16 refl

pub bit_or-tag4 : (d : ℕ) → d < 8 → bit_or 0xf0 d ≡ 240 + d
unfolding agree_below
bit_or-tag4 = agree_below→eq _ _ 8 refl

pub bit_or-tag5 : (d : ℕ) → d < 4 → bit_or 0xf8 d ≡ 248 + d
unfolding agree_below
bit_or-tag5 = agree_below→eq _ _ 4 refl

pub bit_or-tag6 : (d : ℕ) → d < 2 → bit_or 0xfc d ≡ 252 + d
unfolding agree_below
bit_or-tag6 = agree_below→eq _ _ 2 refl

pub bit_or-tag7 : (d : ℕ) → d < 1 → bit_or 0xfe d ≡ 254 + d
unfolding agree_below
bit_or-tag7 = agree_below→eq _ _ 1 refl
