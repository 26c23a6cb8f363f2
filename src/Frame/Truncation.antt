-- ===== src/Frame/Truncation.antt =====
-- Frames that the stream cuts off.
use moqsub.Common.{
  ℕ, ◌≤◌, ◌<◌, ◌≡◌, ◌⊎◌, inl, inr, refl, List, [], ◌∷◌, ◌++◌, arith, length, append-nil,
  length-append, IsU64, ap, sym, ◌∙◌,
}
use moqsub.Common.Result.{
  Error, Result, eof, unexpected_eof, ok, err, ◌>>=◌, >>=-eq-ok, EofOnly, EofOnly-bind,
  EofOnly-cases,
}
use moqsub.Reader.{Reader, bytes_reader, extend, read_full, short_read}
use moqsub.Reader.Laws.{read_full-append_ok, read_full-EofOnly, read_full_takes}
use moqsub.Varint.{append_varint, read_varint}
use moqsub.Varint.RoundTrip.{read_varint-append_varint, read_varint-nil}
use moqsub.Varint.Accepts.{read_varint_takes}
use moqsub.Varint.Truncation.{read_varint-append_ok, read_varint-EofOnly}
use moqsub.Frame.{max_frame_len, uint16_of, read_frame_body, read_frame}
use moqsub.Frame.RoundTrip.{length_bytes, frame, read_frame-frame}

-- More bytes behind the input do not change a read that succeeded.
pub read_frame_body-append_ok :
    (r : Reader) (more : List ℕ) (p : List ℕ) (r' : Reader)
    → read_frame_body r ≡ ok (p, r')
    → read_frame_body (extend r more) ≡ ok (p, extend r' more)
unfolding read_frame_body
read_frame_body-append_ok r more p r' e =
    let ((l, r1), e1, e2) = >>=-eq-ok (read_full 2 r) (λ (l, r1). read_full (uint16_of l) r1) e in
    rw (read_full-append_ok 2 r more l r1 e1) (read_full-append_ok (uint16_of l) r1 more p r' e2)

pub read_frame-append_ok :
    (r : Reader) (more : List ℕ) (t : ℕ) (p : List ℕ) (r' : Reader)
    → read_frame r ≡ ok (t, p, r')
    → read_frame (extend r more) ≡ ok (t, p, extend r' more)
unfolding read_frame
read_frame-append_ok r more t p r' e =
    let ((t1, r1), e1, e') =
      >>=-eq-ok (read_varint r) (λ (t, r1). read_frame_body r1 >>= λ (p, r2). ok (t, p, r2)) e in
    let ((p1, r2), e2, e3) = >>=-eq-ok (read_frame_body r1) (λ (p, r2). ok (t1, p, r2)) e' in
    rw (read_varint-append_ok r more t1 r1 e1, read_frame_body-append_ok r1 more p1 r2 e2)
      (ground arith)

-- A source that ends by `io.EOF` fails a read by one of the two end-of-file errors only.
pub read_frame_body-EofOnly : (r : Reader) → r.fin ≡ eof → EofOnly (read_frame_body r)
unfolding read_frame_body
read_frame_body-EofOnly r h = EofOnly-bind (read_full 2 r) _ (read_full-EofOnly 2 r h) λ (l, r1) e.
    read_full-EofOnly (uint16_of l) r1 (sym (read_full_takes 2 r.bytes r.fin l r1 e).1 ∙ h)

pub read_frame-EofOnly : (r : Reader) → r.fin ≡ eof → EofOnly (read_frame r)
unfolding read_frame
read_frame-EofOnly r h = EofOnly-bind (read_varint r) _ (read_varint-EofOnly r h) λ (t, r1) e.
    EofOnly-bind (read_frame_body r1) _
      (read_frame_body-EofOnly r1 (sym (read_varint_takes r.bytes r.fin t r1 e).1 ∙ h)) (λ _ _. tt)

-- A frame that the stream cuts off anywhere before its last byte is not accepted: the error is one
-- of the two end-of-file errors.
pub read_frame_truncated :
    (t : ℕ) (p front : List ℕ) (x : ℕ) (back : List ℕ)
    → IsU64 t
    → length p ≤ max_frame_len
    → frame t p ≡ front ++ x ∷ back
    → (e : Error) × (read_frame (bytes_reader front) ≡ err e) × ((e ≡ eof) ⊎ (e ≡ unexpected_eof))
read_frame_truncated t p front x back u h shape =
    elim (EofOnly-cases (read_frame (bytes_reader front))
      (read_frame-EofOnly (bytes_reader front) refl)) [
        | inl ((t', p', r), e) ↦ absurd (not_shorter t' p' r e)
        | inr failed ↦ failed
      ]
  where
    whole : read_frame (bytes_reader (frame t p)) ≡ ok (t, p, bytes_reader [])
    whole = rw append-nil at (read_frame-frame p [] eof h t u)

    not_shorter :
        (t' : ℕ) (p' : List ℕ) (r : Reader) → read_frame (bytes_reader front) ≡ ok (t', p', r) → ⊥
    not_shorter t' p' r e =
        let longer = read_frame-append_ok (bytes_reader front) (x ∷ back) t' p' r e in
        let both : ◌≡◌ {A = Result (ℕ × List ℕ × Reader)} (ok (t, p, bytes_reader []))
            (ok (t', p', extend r (x ∷ back))) =
          sym whole ∙ ap (λ l. read_frame (bytes_reader l)) shape ∙ longer in
        let bytes : [] ≡ r.bytes ++ x ∷ back = cc both in
        omega (arith, ap length bytes, length-append r.bytes (x ∷ back))

-- A stream that ends behind the message type, or behind the length of a body that is not empty, is
-- reported by `io.EOF`, as one that ends between two messages is.
pub read_frame_eof_inside :
    (t x : ℕ) (p : List ℕ)
    → IsU64 t
    → length p < max_frame_len
    → (read_frame (bytes_reader (append_varint [] t)) ≡ err eof)
      × (read_frame (bytes_reader (append_varint [] t ++ length_bytes (x ∷ p))) ≡ err eof)
      × (read_frame (bytes_reader []) ≡ err eof)
unfolding read_frame read_frame_body read_full short_read uint16_of
read_frame_eof_inside t x p u h = (
  rw (← append-nil (append_varint [] t), read_varint-append_varint t [] eof u),
  rw (read_varint-append_varint t (length_bytes (x ∷ p)) eof u) (ground arith),
  rw read_varint-nil,
)
