-- ===== src/Varint/Encode.antt =====
-- What `AppendVarint` writes, in plain arithmetic.
use moqsub.Common.{
  ℕ, zero, suc, ◌+◌, ◌-◌, ◌*◌, ◌/◌, ◌%◌, ◌^◌, ◌≤◌, ◌<◌, ◌≡◌, List, [], ◌∷◌, ◌++◌, arith, IsU64,
  IsByte, All, length, refl, ap, ◌==◌, if◌then◌else◌, append_assoc,
}
use moqsub.Common.Bits.{
  bit_or-tag1, bit_or-tag2, bit_or-tag3, bit_or-tag4, bit_or-tag5, bit_or-tag6, bit_or-tag7,
}
use moqsub.Varint.{varint_size, append_sized, append_varint}

-- The k low bytes of v, the highest first.
abbrev pub be_bytes : ℕ → ℕ → List ℕ
be_bytes zero v = []
be_bytes (suc k) v = (v / 2 ^ (8 * k) % 256) ∷ be_bytes k v

-- The form of n bytes: n - 1 leading ones and a zero, then the bits of v. The zero is missing at 9.
abbrev pub encoding : ℕ → ℕ → List ℕ
encoding n v = (256 - 2 ^ (9 - n) + v / 2 ^ (8 * (n - 1))) ∷ be_bytes (n - 1) v

-- The values that a form of n bytes has room for.
abbrev pub Fits : ℕ → ℕ → Type 0
Fits n v = v < (if n == 9 then 2 ^ 64 else 2 ^ (7 * n))

-- Whatever length the `switch` is given, if v fits it.
pub append_sized-encoding :
    (b : List ℕ) (n v : ℕ) → 1 ≤ n → n ≤ 9 → Fits n v → append_sized b v n ≡ b ++ encoding n v
unfolding append_sized
append_sized-encoding b zero v lo hi h = absurd (omega arith)
append_sized-encoding b (suc zero) v lo hi h = ground arith
append_sized-encoding b (suc (suc zero)) v lo hi h =
    rw append_assoc (ground (arith, bit_or-tag1 (v / 2 ^ 8 % 256)))
append_sized-encoding b (suc (suc (suc zero))) v lo hi h =
    rw append_assoc (ground (arith, bit_or-tag2 (v / 2 ^ 16 % 256)))
append_sized-encoding b (suc (suc (suc (suc zero)))) v lo hi h =
    rw append_assoc (ground (arith, bit_or-tag3 (v / 2 ^ 24 % 256)))
append_sized-encoding b (suc (suc (suc (suc (suc zero))))) v lo hi h =
    rw append_assoc (ground (arith, bit_or-tag4 (v / 2 ^ 32 % 256)))
append_sized-encoding b (suc (suc (suc (suc (suc (suc zero)))))) v lo hi h =
    rw append_assoc (ground (arith, bit_or-tag5 (v / 2 ^ 40 % 256)))
append_sized-encoding b (suc (suc (suc (suc (suc (suc (suc zero))))))) v lo hi h =
    rw append_assoc (ground (arith, bit_or-tag6 (v / 2 ^ 48 % 256)))
append_sized-encoding b (suc (suc (suc (suc (suc (suc (suc (suc zero)))))))) v lo hi h =
    rw append_assoc (ground (arith, bit_or-tag7 (v / 2 ^ 56 % 256)))
append_sized-encoding b (suc (suc (suc (suc (suc (suc (suc (suc (suc zero))))))))) v lo hi h =
    rw append_assoc (ground arith)
append_sized-encoding b (suc (suc (suc (suc (suc (suc (suc (suc (suc (suc n)))))))))) v lo hi h =
    absurd (omega arith)

-- `varint_size` is the least length that has room.
pub varint_size_bounds :
    (v : ℕ) → IsU64 v → (1 ≤ varint_size v) × (varint_size v ≤ 9) × Fits (varint_size v) v
unfolding varint_size
varint_size_bounds v h = ground arith

pub varint_size-le : (n v : ℕ) → 1 ≤ n → n ≤ 9 → Fits n v → varint_size v ≤ n
unfolding varint_size
varint_size-le zero v lo hi h = absurd (omega arith)
varint_size-le (suc zero) v lo hi h = ground arith
varint_size-le (suc (suc zero)) v lo hi h = ground arith
varint_size-le (suc (suc (suc zero))) v lo hi h = ground arith
varint_size-le (suc (suc (suc (suc zero)))) v lo hi h = ground arith
varint_size-le (suc (suc (suc (suc (suc zero))))) v lo hi h = ground arith
varint_size-le (suc (suc (suc (suc (suc (suc zero)))))) v lo hi h = ground arith
varint_size-le (suc (suc (suc (suc (suc (suc (suc zero))))))) v lo hi h = ground arith
varint_size-le (suc (suc (suc (suc (suc (suc (suc (suc zero)))))))) v lo hi h = ground arith
varint_size-le (suc (suc (suc (suc (suc (suc (suc (suc (suc zero))))))))) v lo hi h = ground arith
varint_size-le (suc (suc (suc (suc (suc (suc (suc (suc (suc (suc n)))))))))) v lo hi h =
    absurd (omega arith)

-- `AppendVarint` keeps the slice and appends the shortest form of v.
pub append_varint-encoding :
    (b : List ℕ) (v : ℕ) → IsU64 v → append_varint b v ≡ b ++ encoding (varint_size v) v
unfolding append_varint
append_varint-encoding b v h =
    let (lo, hi, fits) = varint_size_bounds v h in
    append_sized-encoding b (varint_size v) v lo hi fits

pub length-be_bytes : (k v : ℕ) → length (be_bytes k v) ≡ k
length-be_bytes zero v = refl
length-be_bytes (suc k) v = ap suc (length-be_bytes k v)

be_bytes-IsByte : (k v : ℕ) → All IsByte (be_bytes k v)
be_bytes-IsByte zero v = tt
be_bytes-IsByte (suc k) v = (omega arith, be_bytes-IsByte k v)

pub length-encoding : (n v : ℕ) → 1 ≤ n → length (encoding n v) ≡ n
length-encoding n v lo = omega (arith, length-be_bytes (n - 1) v)

-- A value that fits any form fits 64 bits, and the form is of bytes.
pub Fits-IsU64 : (n v : ℕ) → 1 ≤ n → n ≤ 9 → Fits n v → IsU64 v × All IsByte (encoding n v)
Fits-IsU64 zero v lo hi h = absurd (omega arith)
Fits-IsU64 (suc zero) v lo hi h = (omega arith, (omega arith, be_bytes-IsByte 0 v))
Fits-IsU64 (suc (suc zero)) v lo hi h = (omega arith, (omega arith, be_bytes-IsByte 1 v))
Fits-IsU64 (suc (suc (suc zero))) v lo hi h = (omega arith, (omega arith, be_bytes-IsByte 2 v))
Fits-IsU64 (suc (suc (suc (suc zero)))) v lo hi h =
    (omega arith, (omega arith, be_bytes-IsByte 3 v))
Fits-IsU64 (suc (suc (suc (suc (suc zero))))) v lo hi h =
    (omega arith, (omega arith, be_bytes-IsByte 4 v))
Fits-IsU64 (suc (suc (suc (suc (suc (suc zero)))))) v lo hi h =
    (omega arith, (omega arith, be_bytes-IsByte 5 v))
Fits-IsU64 (suc (suc (suc (suc (suc (suc (suc zero))))))) v lo hi h =
    (omega arith, (omega arith, be_bytes-IsByte 6 v))
Fits-IsU64 (suc (suc (suc (suc (suc (suc (suc (suc zero)))))))) v lo hi h =
    (omega arith, (omega arith, be_bytes-IsByte 7 v))
Fits-IsU64 (suc (suc (suc (suc (suc (suc (suc (suc (suc zero))))))))) v lo hi h =
    (omega arith, (omega arith, be_bytes-IsByte 8 v))
Fits-IsU64 (suc (suc (suc (suc (suc (suc (suc (suc (suc (suc n)))))))))) v lo hi h =
    absurd (omega arith)
