-- ===== src/Frame.antt =====
-- internal/moqt/draft18/codec.go, the framing of control messages: a varint message type, a 16-bit
-- big-endian length and the body.
pub mod RoundTrip
pub mod Truncation
use moqsub.Common.{
  ℕ, ◌+◌, ◌-◌, ◌*◌, ◌/◌, ◌%◌, ◌^◌, List, [], ◌∷◌, ◌++◌, Option, none, some, ltb, if◌then◌else◌,
  length, get_or,
}
use moqsub.Common.Result.{num, Error, message, Result, ok, err, stuck, ◌>>=◌}
use moqsub.Reader.{Reader, read_full}
use moqsub.Varint.{append_varint, read_varint}

abbrev pub max_frame_len : ℕ
max_frame_len = 2 ^ 16 - 1

-- How a `Write` fails: it returns an error, or it never returns, as on a QUIC stream for which the peer
-- gives no credit.
pub data Fault : Type 0 where
  fails : Error → Fault
  blocks : Fault

-- What a `Write` comes to on a fault.
unfoldable pub fault_result : {A : Type 0} → Fault → Result A
fault_result (fails e) = err e
fault_result blocks = stuck

-- An `io.Writer`: what has been written, and the fault of its next `Write`, if any.
pub record Writer : Type 0 where
  pub written : List ℕ
  pub fault : Option Fault

abbrev pub write : Writer → List ℕ → Result Writer
write w buf = elim w.fault [
  | none ↦ ok (record w { written = w.written ++ buf })
  | some f ↦ fault_result f
]

-- `binary.BigEndian.AppendUint16` and `binary.BigEndian.Uint16`.
unfoldable pub append_uint16 : List ℕ → ℕ → List ℕ
append_uint16 b v = b ++ (v / 2 ^ 8 % 256) ∷ (v % 256) ∷ []

unfoldable pub uint16_of : List ℕ → ℕ
uint16_of b = get_or b 0 0 * 2 ^ 8 + get_or b 1 0

unfoldable pub write_frame : Writer → ℕ → List ℕ → Result Writer
write_frame w msg_type payload =
    if ltb max_frame_len (length payload)
    then err (message "payload too large: %d" (num (length payload) ∷ []))
    else (let buf = append_varint [] msg_type in
        let buf = append_uint16 buf (length payload % 2 ^ 16) in write w (buf ++ payload))

unfoldable pub read_frame_body : Reader → Result (List ℕ × Reader)
read_frame_body r = do (len_buf, r1) ← read_full 2 r; read_full (uint16_of len_buf) r1

unfoldable pub read_frame : Reader → Result (ℕ × List ℕ × Reader)
read_frame r = do
  (msg_type, r1) ← read_varint r
  (payload, r2) ← read_frame_body r1
  ok (msg_type, payload, r2)
