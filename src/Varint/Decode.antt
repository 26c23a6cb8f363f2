-- ===== src/Varint/Decode.antt =====
-- `ReadVarint` and `ParseVarint` read back every form of a number, the shortest or not.
use moqsub.Common.{
  ℕ, zero, suc, ◌+◌, ◌-◌, ◌*◌, ◌/◌, ◌^◌, ◌≤◌, ◌≡◌, List, [], ◌∷◌, length, arith, All, IsByte,
}
use moqsub.Common.Bits.{
  bit_and-low1, bit_and-low2, bit_and-low3, bit_and-low4, bit_and-low5, bit_and-low6, bit_and-low7,
}
use moqsub.Varint.{extra_bytes, decode_varint_bytes}
use moqsub.Varint.Encode.{be_bytes, encoding, Fits}

-- The first byte of a form of n bytes asks for n - 1 more.
pub extra_bytes-encoding :
    (n v : ℕ)
    → 1 ≤ n
    → n ≤ 9
    → Fits n v
    → extra_bytes (256 - 2 ^ (9 - n) + v / 2 ^ (8 * (n - 1))) ≡ n - 1
unfolding extra_bytes
extra_bytes-encoding zero v lo hi h = absurd (omega arith)
extra_bytes-encoding (suc zero) v lo hi h = ground arith
extra_bytes-encoding (suc (suc zero)) v lo hi h = ground arith
extra_bytes-encoding (suc (suc (suc zero))) v lo hi h = ground arith
extra_bytes-encoding (suc (suc (suc (suc zero)))) v lo hi h = ground arith
extra_bytes-encoding (suc (suc (suc (suc (suc zero))))) v lo hi h = ground arith
extra_bytes-encoding (suc (suc (suc (suc (suc (suc zero)))))) v lo hi h = ground arith
extra_bytes-encoding (suc (suc (suc (suc (suc (suc (suc zero))))))) v lo hi h = ground arith
extra_bytes-encoding (suc (suc (suc (suc (suc (suc (suc (suc zero)))))))) v lo hi h = ground arith
extra_bytes-encoding (suc (suc (suc (suc (suc (suc (suc (suc (suc zero))))))))) v lo hi h =
    ground arith
extra_bytes-encoding (suc (suc (suc (suc (suc (suc (suc (suc (suc (suc n)))))))))) v lo hi h =
    absurd (omega arith)

-- The data bytes of a form decode to its value.
pub decode_varint_bytes-encoding :
    (n v : ℕ)
    → 1 ≤ n
    → n ≤ 9
    → Fits n v
    → decode_varint_bytes (256 - 2 ^ (9 - n) + v / 2 ^ (8 * (n - 1))) (be_bytes (n - 1) v) (n - 1)
      ≡ v
unfolding decode_varint_bytes
decode_varint_bytes-encoding zero v lo hi h = absurd (omega arith)
decode_varint_bytes-encoding (suc zero) v lo hi h = ground (arith, bit_and-low7 (0 + v / 2 ^ 0))
decode_varint_bytes-encoding (suc (suc zero)) v lo hi h =
    ground (arith, bit_and-low6 (128 + v / 2 ^ 8))
decode_varint_bytes-encoding (suc (suc (suc zero))) v lo hi h =
    ground (arith, bit_and-low5 (192 + v / 2 ^ 16))
decode_varint_bytes-encoding (suc (suc (suc (suc zero)))) v lo hi h =
    ground (arith, bit_and-low4 (224 + v / 2 ^ 24))
decode_varint_bytes-encoding (suc (suc (suc (suc (suc zero))))) v lo hi h =
    ground (arith, bit_and-low3 (240 + v / 2 ^ 32))
decode_varint_bytes-encoding (suc (suc (suc (suc (suc (suc zero)))))) v lo hi h =
    ground (arith, bit_and-low2 (248 + v / 2 ^ 40))
decode_varint_bytes-encoding (suc (suc (suc (suc (suc (suc (suc zero))))))) v lo hi h =
    ground (arith, bit_and-low1 (252 + v / 2 ^ 48))
decode_varint_bytes-encoding (suc (suc (suc (suc (suc (suc (suc (suc zero)))))))) v lo hi h =
    ground arith
decode_varint_bytes-encoding (suc (suc (suc (suc (suc (suc (suc (suc (suc zero))))))))) v lo hi h =
    ground arith
decode_varint_bytes-encoding (suc (suc (suc (suc (suc (suc (suc (suc (suc (suc n)))))))))) v lo hi
      h =
    absurd (omega arith)

pub extra_bytes-le : (first : ℕ) → extra_bytes first ≤ 8
unfolding extra_bytes
extra_bytes-le first = ground arith

-- Every first byte and as many bytes as it asks for are a form of the value that they decode to.
pub decode_varint_bytes-inverse :
    (first : ℕ) (rest : List ℕ)
    → IsByte first
    → All IsByte rest
    → extra_bytes first ≡ length rest
    → let n = suc (length rest) in
      let v = decode_varint_bytes first rest (length rest) in
      Fits n v × (first ∷ rest ≡ encoding n v)
unfolding decode_varint_bytes extra_bytes
decode_varint_bytes-inverse first [] h hs e = ground (arith, bit_and-low7 first)
decode_varint_bytes-inverse first (b1 ∷ []) h hs e = ground (arith, bit_and-low6 first)
decode_varint_bytes-inverse first (b1 ∷ b2 ∷ []) h hs e = ground (arith, bit_and-low5 first)
decode_varint_bytes-inverse first (b1 ∷ b2 ∷ b3 ∷ []) h hs e = ground (arith, bit_and-low4 first)
decode_varint_bytes-inverse first (b1 ∷ b2 ∷ b3 ∷ b4 ∷ []) h hs e =
    ground (arith, bit_and-low3 first)
decode_varint_bytes-inverse first (b1 ∷ b2 ∷ b3 ∷ b4 ∷ b5 ∷ []) h hs e =
    ground (arith, bit_and-low2 first)
decode_varint_bytes-inverse first (b1 ∷ b2 ∷ b3 ∷ b4 ∷ b5 ∷ b6 ∷ []) h hs e =
    ground (arith, bit_and-low1 first)
decode_varint_bytes-inverse first (b1 ∷ b2 ∷ b3 ∷ b4 ∷ b5 ∷ b6 ∷ b7 ∷ []) h hs e = ground arith
decode_varint_bytes-inverse first (b1 ∷ b2 ∷ b3 ∷ b4 ∷ b5 ∷ b6 ∷ b7 ∷ b8 ∷ []) h hs e = ground arith
decode_varint_bytes-inverse first (b1 ∷ b2 ∷ b3 ∷ b4 ∷ b5 ∷ b6 ∷ b7 ∷ b8 ∷ b9 ∷ bs) h hs e =
    absurd (ground (arith, extra_bytes-le first))
