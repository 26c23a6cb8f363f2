-- ===== src/Reader.antt =====
-- Go's `io.Reader` as the code uses it: a `bytes.Reader` over a message body, or a QUIC stream that
-- yields its bytes and then fails for good, with `io.EOF` where the peer has finished it.
pub mod Laws
use moqsub.Common.{ℕ, ◌^◌, List, [], ◌∷◌, ◌++◌, leb, ltb, if◌then◌else◌, length, take, drop}
use moqsub.Common.Result.{Error, Result, eof, unexpected_eof, ok, err, panic, equals_eof}

-- `make([]byte, n)` panics on a length above the largest allocation of Go's run time, 2 ^ 48 bytes on
-- the 64-bit platforms. Memory is otherwise taken to be enough.
abbrev pub max_alloc : ℕ
max_alloc = 2 ^ 48

abbrev pub make_bytes : ℕ → Result (Unit {0})
make_bytes n = if ltb max_alloc n then panic else ok tt

-- What is still to be read, and the error behind it.
pub record Reader : Type 0 where
  pub bytes : List ℕ
  pub fin : Error

-- `bytes.NewReader(payload)`
abbrev pub bytes_reader : List ℕ → Reader
bytes_reader payload = record { bytes = payload; fin = eof }

-- The same source with more bytes to come.
abbrev pub extend : Reader → List ℕ → Reader
extend r more = record r { bytes = r.bytes ++ more }

-- How `io.ReadFull` fails when the source ends before the buffer is full.
unfoldable pub short_read : List ℕ → Error → Error
short_read [] e = e
short_read (b ∷ bs) e = if equals_eof e then unexpected_eof else e

-- `io.ReadFull(r, buf)` for a buffer of n bytes: the bytes and the reader behind them. No caller
-- reads on after an error, so the reader is not kept beside one.
unfoldable pub read_full : ℕ → Reader → Result (List ℕ × Reader)
read_full n r =
    if leb n (length r.bytes)
    then ok (take n r.bytes, record r { bytes = drop n r.bytes })
    else err (short_read r.bytes r.fin)

-- `io.ReadAll(r)`: the end of the source is no error.
unfoldable pub read_all : Reader → Result (List ℕ)
unfolding equals_eof
read_all r = if equals_eof r.fin then ok r.bytes else err r.fin
