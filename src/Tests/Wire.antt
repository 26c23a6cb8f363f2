-- ===== src/Tests/Wire.antt =====
-- Varints and frames at concrete inputs; the vectors are those of varint_test.go.
use moqsub.Common.{ℕ, ◌≤◌, ◌≡◌, refl, List, [], ◌∷◌, ◌++◌, ◌⊎◌, arith, drop, length, All, IsByte}
use moqsub.Common.Result.{Error, eof, unexpected_eof, ok, err}
use moqsub.Common.{none}
use moqsub.Reader.{bytes_reader}
use moqsub.Varint.{
  append_varint, append_sized, parse_varint, read_varint, varint_size, extra_bytes,
  decode_varint_bytes,
}
use moqsub.Varint.Encode.{Fits, encoding}
use moqsub.Varint.RoundTrip.{as_read, parse_varint-eq-read_varint, read_varint-append_varint}
use moqsub.Varint.Accepts.{parse_varint-eq_ok, append_varint_shortest}
use moqsub.Frame.{write_frame, read_frame}
use moqsub.Frame.RoundTrip.{frame, length_bytes, read_frame-write_frame}
use moqsub.Frame.Truncation.{read_frame_truncated, read_frame_eof_inside}

-- 0xed7f with 15293, a form of two bytes; 0x00 and 0x8000 with 0.
two_bytes_parse : parse_varint (0xbb ∷ 0xbd ∷ []) ≡ ok (15293, 2)
unfolding parse_varint extra_bytes decode_varint_bytes
two_bytes_parse = refl

long_zero_parse : parse_varint (0x80 ∷ 0x00 ∷ 9 ∷ []) ≡ ok (0, 2)
unfolding parse_varint extra_bytes decode_varint_bytes
long_zero_parse = refl

long_zero-IsByte : All IsByte (0x80 ∷ 0x00 ∷ 9 ∷ [])
long_zero-IsByte = (omega arith, (omega arith, (omega arith, tt)))

read_varint-append_varint_example :
    read_varint (record { bytes = append_varint [] 15293 ++ 7 ∷ []; fin = eof })
    ≡ ok (15293, record { bytes = 7 ∷ []; fin = eof })
read_varint-append_varint_example = read_varint-append_varint 15293 (7 ∷ []) eof (omega arith)

parse_varint-eq_ok_example :
    (1 ≤ 2)
    × (2 ≤ 9)
    × Fits 2 0
    × (0x80 ∷ 0x00 ∷ 9 ∷ [] ≡ encoding 2 0 ++ drop 2 (0x80 ∷ 0x00 ∷ 9 ∷ []))
parse_varint-eq_ok_example =
    parse_varint-eq_ok (0x80 ∷ 0x00 ∷ 9 ∷ []) 0 2 long_zero-IsByte long_zero_parse

append_varint_shortest_example :
    (1 ≤ varint_size 15293)
    × (varint_size 15293 ≤ 9)
    × (length (append_varint [] 15293) ≡ varint_size 15293)
    × ((b : List ℕ) (n : ℕ) → All IsByte b → parse_varint b ≡ ok (15293, n) → varint_size 15293 ≤ n)
append_varint_shortest_example = append_varint_shortest 15293 (omega arith)

read_frame-write_frame_example :
    (buf : List ℕ) × (write_frame (record { written = []; fault = none }) 3 (8 ∷ 9 ∷ [])
      ≡ ok (record { written = buf; fault = none }))
    × (read_frame (record { bytes = buf ++ 5 ∷ []; fin = eof })
        ≡ ok (3, 8 ∷ 9 ∷ [], record { bytes = 5 ∷ []; fin = eof }))
read_frame-write_frame_example =
    read_frame-write_frame 3 (8 ∷ 9 ∷ []) (5 ∷ []) eof (omega arith) (omega arith)

three_bytes_frame : frame 3 (8 ∷ 9 ∷ []) ≡ (3 ∷ 0 ∷ 2 ∷ 8 ∷ []) ++ 9 ∷ []
unfolding append_varint append_sized varint_size
three_bytes_frame = refl

read_frame_truncated_example :
    (e : Error) × (read_frame (bytes_reader (3 ∷ 0 ∷ 2 ∷ 8 ∷ [])) ≡ err e)
    × ((e ≡ eof) ⊎ (e ≡ unexpected_eof))
read_frame_truncated_example =
    read_frame_truncated 3 (8 ∷ 9 ∷ []) (3 ∷ 0 ∷ 2 ∷ 8 ∷ []) 9 [] (omega arith) (omega arith)
      three_bytes_frame

read_frame_eof_inside_example :
    (read_frame (bytes_reader (append_varint [] 3)) ≡ err eof)
    × (read_frame (bytes_reader (append_varint [] 3 ++ length_bytes (8 ∷ 9 ∷ []))) ≡ err eof)
    × (read_frame (bytes_reader []) ≡ err eof)
read_frame_eof_inside_example = read_frame_eof_inside 3 8 (9 ∷ []) (omega arith) (omega arith)

parse_varint-eq-read_varint_example :
    read_varint (bytes_reader (0x80 ∷ 0x00 ∷ 9 ∷ []))
    ≡ as_read (0x80 ∷ 0x00 ∷ 9 ∷ []) (parse_varint (0x80 ∷ 0x00 ∷ 9 ∷ []))
parse_varint-eq-read_varint_example = parse_varint-eq-read_varint (0x80 ∷ 0x00 ∷ 9 ∷ [])
