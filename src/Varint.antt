-- ===== src/Varint.antt =====
-- internal/moqt/draft18/varint.go: MoQ's variable-length integers, whose length is the number of
-- leading ones of the first byte. A byte slice is a list of numbers; `uint64` arithmetic that could
-- wrap is written with its modulus.
pub mod Encode
pub mod Decode
pub mod RoundTrip
pub mod Accepts
pub mod Truncation
use moqsub.Common.{
  ℕ, ◌+◌, ◌-◌, ◌*◌, ◌/◌, ◌%◌, ◌^◌, bit_and, bit_or, List, [], ◌∷◌, ◌++◌, ltb, leb, ◌==◌,
  if◌then◌else◌, length, get_or, set, take, drop, replicate, copy_at,
}
use moqsub.Common.Result.{Result, ok, err, unexpected_eof, ◌>>=◌}
use moqsub.Reader.{Reader, read_full}

-- `binary.BigEndian.PutUint64` into an array of eight bytes.
unfoldable pub put_uint64 : ℕ → List ℕ
put_uint64 v =
    (v / 2 ^ 56 % 256)
    ∷ (v / 2 ^ 48 % 256)
    ∷ (v / 2 ^ 40 % 256)
    ∷ (v / 2 ^ 32 % 256)
    ∷ (v / 2 ^ 24 % 256)
    ∷ (v / 2 ^ 16 % 256)
    ∷ (v / 2 ^ 8 % 256)
    ∷ (v % 256)
    ∷ []

-- `binary.BigEndian.Uint64` of the first eight bytes; every call of it passes eight.
unfoldable pub uint64_of : List ℕ → ℕ
uint64_of b =
    get_or b 0 0 * 2 ^ 56
    + get_or b 1 0 * 2 ^ 48
    + get_or b 2 0 * 2 ^ 40
    + get_or b 3 0 * 2 ^ 32
    + get_or b 4 0 * 2 ^ 24
    + get_or b 5 0 * 2 ^ 16
    + get_or b 6 0 * 2 ^ 8
    + get_or b 7 0

-- `bits.LeadingZeros8`.
unfoldable pub leading_zeros8 : ℕ → ℕ
leading_zeros8 x =
    if leb 0x80 x
    then 0
    else if leb 0x40 x
    then 1
    else if leb 0x20 x
    then 2
    else if leb 0x10 x
    then 3
    else if leb 0x08 x
    then 4
    else if leb 0x04 x
    then 5
    else if leb 0x02 x
    then 6
    else if leb 0x01 x
    then 7
    else 8

unfoldable pub varint_size : ℕ → ℕ
varint_size x =
    if leb x 0x7f
    then 1
    else if leb x 0x3fff
    then 2
    else if leb x 0x1f_ffff
    then 3
    else if leb x 0x0fff_ffff
    then 4
    else if leb x 0x07_ffff_ffff
    then 5
    else if leb x 0x03ff_ffff_ffff
    then 6
    else if leb x 0x01_ffff_ffff_ffff
    then 7
    else if leb x 0x00ff_ffff_ffff_ffff
    then 8
    else 9

-- The `default` branch of `AppendVarint` for a length of n, of which `tmp[8-(n-1):]` is in range for 1 to 9,
-- as `varint_size` is; beyond them Go panics, and this does not: `mask` is a uint16 and `^mask` its
-- complement.
unfoldable pub append_tagged : List ℕ → ℕ → ℕ → List ℕ
unfolding put_uint64
append_tagged b v n =
    let first_data = v / 2 ^ ((n - 1) * 8) % 256 in
    let mask = (2 ^ (9 - n) + 2 ^ 16 - 1) % 2 ^ 16 in
    let tag = (2 ^ 16 - 1 - mask) % 256 in
    (b ++ bit_or tag first_data ∷ []) ++ drop (8 - (n - 1)) (put_uint64 v)

-- The `switch n` of `AppendVarint`.
unfoldable pub append_sized : List ℕ → ℕ → ℕ → List ℕ
unfolding append_tagged put_uint64
append_sized b v n =
    if n == 1
    then b ++ (v % 256) ∷ []
    else if n == 9
    then (b ++ 0xff ∷ []) ++ put_uint64 v
    else append_tagged b v n

unfoldable pub append_varint : List ℕ → ℕ → List ℕ
append_varint b v = append_sized b v (varint_size v)

unfoldable pub decode_varint_bytes : ℕ → List ℕ → ℕ → ℕ
unfolding uint64_of
decode_varint_bytes first rest extra =
    if extra == 0
    then bit_and first 0x7f
    else if extra == 8
    then uint64_of rest
    else if extra == 7
    then uint64_of (copy_at 1 rest (replicate 8 0))
    else (let n = extra in
        let mask = 0xff / 2 ^ (n + 1) in
        uint64_of (copy_at (8 - n) rest (set (replicate 8 0) (8 - 1 - n) (bit_and first mask))))

-- The number of bytes behind the first: `^first` on a byte is 255 - first.
unfoldable pub extra_bytes : ℕ → ℕ
unfolding leading_zeros8
extra_bytes first = let ones = leading_zeros8 (255 - first) in if ltb 8 ones then 8 else ones

unfoldable pub parse_varint : List ℕ → Result (ℕ × ℕ)
parse_varint b =
    if length b == 0
    then err unexpected_eof
    else (let first = get_or b 0 0 in
        let extra = extra_bytes first in
        let total = 1 + extra in
        if ltb (length b) total
        then err unexpected_eof
        else ok (decode_varint_bytes first (drop 1 (take total b)) extra, total))

unfoldable pub read_varint : Reader → Result (ℕ × Reader)
unfolding read_full
read_varint r = do
  (first, r1) ← read_full 1 r
  let extra = extra_bytes (get_or first 0 0)
  if extra == 0 then ok (bit_and (get_or first 0 0) 0x7f, r1) else do
    (rest, r2) ← read_full extra r1
    ok (decode_varint_bytes (get_or first 0 0) rest extra, r2)
