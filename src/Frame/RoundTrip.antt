-- ===== src/Frame/RoundTrip.antt =====
-- `ReadFrame` against `WriteFrame`.
use moqsub.Common.{
  ℕ, ◌+◌, ◌*◌, ◌/◌, ◌%◌, ◌≤◌, ◌<◌, ◌≡◌, refl, List, [], ◌∷◌, ◌++◌, none, arith, length,
  append_assoc, IsU64,
}
use moqsub.Common.Result.{num, Error, message, ok, err}
use moqsub.Reader.Laws.{read_full-append}
use moqsub.Varint.{append_varint}
use moqsub.Varint.RoundTrip.{read_varint-append_varint}
use moqsub.Frame.{
  max_frame_len, Writer, append_uint16, uint16_of, write_frame, read_frame_body, read_frame,
}

-- The layout of a control message: type, length and body.
abbrev pub length_bytes : List ℕ → List ℕ
length_bytes p = (length p / 256) ∷ (length p % 256) ∷ []

abbrev pub frame : ℕ → List ℕ → List ℕ
frame t p = append_varint [] t ++ (length_bytes p ++ p)

-- `WriteFrame` writes a frame in one piece if the body fits, and nothing otherwise.
pub write_frame-frame :
    (w : Writer) (t : ℕ) (p : List ℕ)
    → w.fault ≡ none
    → length p ≤ max_frame_len
    → write_frame w t p ≡ ok (record w { written = w.written ++ frame t p })
unfolding write_frame append_uint16
write_frame-frame w t p good h = rw (append_assoc (append_varint [] t)) (ground arith)

pub write_frame_too_large :
    (w : Writer) (t : ℕ) (p : List ℕ)
    → max_frame_len < length p
    → write_frame w t p ≡ err (message "payload too large: %d" (num (length p) ∷ []))
unfolding write_frame
write_frame_too_large w t p h = ground arith

module _ (p rest : List ℕ) (fin : Error) (h : length p ≤ max_frame_len) where
  pub read_frame_body-frame :
      read_frame_body (record { bytes = length_bytes p ++ (p ++ rest); fin = fin })
      ≡ ok (p, record { bytes = rest; fin = fin })
  unfolding read_frame_body uint16_of
  read_frame_body-frame =
      let len : length p / 256 * 256 + length p % 256 ≡ length p = omega arith in
      rw (read_full-append (length_bytes p) (p ++ rest) fin) (rw len (read_full-append p rest fin))

  -- `ReadFrame` reads the type and the body of a frame, and leaves the reader right behind it.
  pub read_frame-frame :
      (t : ℕ)
      → IsU64 t
      → read_frame (record { bytes = frame t p ++ rest; fin = fin })
        ≡ ok (t, p, record { bytes = rest; fin = fin })
  unfolding read_frame
  read_frame-frame t u = rw (
    append_assoc (append_varint [] t) (length_bytes p ++ p) rest,
    read_varint-append_varint t _ fin u,
    read_frame_body-frame,
  )

-- A message that `WriteFrame` takes, with a body of at most 65535 bytes, arrives: `ReadFrame` on what
-- the writer was handed gives back the type and the body, with what follows left to be read.
pub read_frame-write_frame :
    (t : ℕ) (p rest : List ℕ) (fin : Error)
    → IsU64 t
    → length p ≤ max_frame_len
    → (buf : List ℕ) × (write_frame (record { written = []; fault = none }) t p
        ≡ ok (record { written = buf; fault = none }))
      × (read_frame (record { bytes = buf ++ rest; fin = fin })
          ≡ ok (t, p, record { bytes = rest; fin = fin }))
read_frame-write_frame t p rest fin u h = (
  frame t p,
  write_frame-frame (record { written = []; fault = none }) t p refl h,
  read_frame-frame p rest fin h t u,
)
