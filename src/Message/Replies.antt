-- ===== src/Message/Replies.antt =====
-- What the decoders of SUBSCRIBE_OK and REQUEST_ERROR return, on every branch.
use moqsub.Common.{
  ℕ, ◌≡◌, List, [], ◌∷◌, ◌++◌, arith, length, IsU64, take, drop, leb, if◌then◌else◌, Bool-cases,
  inl, inr, ltb, false,
}
use moqsub.Common.Result.{num, message, wrapped, eof, ok, err, wrap, Ends, Ends-bind, Ends-wrap}
use moqsub.Reader.{max_alloc, Reader, bytes_reader, read_full, read_all, short_read}
use moqsub.Reader.Laws.{read_full-Ends}
use moqsub.Varint.{append_varint, read_varint}
use moqsub.Varint.RoundTrip.{read_varint-append_varint}
use moqsub.Varint.Truncation.{read_varint-Ends}
use moqsub.Message.{decode_subscribe_ok, decode_request_error}

-- The body of a SUBSCRIBE_OK: alias and number of parameters, then what is kept as it is.
abbrev pub subscribe_ok_body : ℕ → ℕ → List ℕ → List ℕ
subscribe_ok_body alias n rest = append_varint [] alias ++ (append_varint [] n ++ rest)

-- `DecodeSubscribeOK` reads the two varints of a body and keeps all that follows them.
pub decode_subscribe_ok-body :
    (alias n : ℕ) (rest : List ℕ)
    → IsU64 alias
    → IsU64 n
    → decode_subscribe_ok (subscribe_ok_body alias n rest)
      ≡ ok (record { track_alias = alias; num_params = n; track_properties = rest })
unfolding decode_subscribe_ok read_all
decode_subscribe_ok-body alias n rest ua un =
    rw (read_varint-append_varint alias _ eof ua, read_varint-append_varint n rest eof un)

abbrev pub request_error_body : ℕ → ℕ → ℕ → List ℕ → List ℕ
request_error_body code retry len rest =
    append_varint [] code ++ (append_varint [] retry ++ (append_varint [] len ++ rest))

-- On a body whose three varints are there `DecodeRequestError` refuses a reason that is announced with
-- more than 1024 bytes, and one that the body cuts off; any other it takes, and all that follows is
-- the redirect, whatever the code says.
pub decode_request_error-body :
    (code retry len : ℕ) (rest : List ℕ)
    → IsU64 code
    → IsU64 retry
    → IsU64 len
    → decode_request_error (request_error_body code retry len rest) ≡ (
        if ltb 1024 len
        then err (message "reason phrase too long: %d" (num len ∷ []))
        else if leb len (length rest)
        then ok (record {
          code = code;
          retry_interval = retry;
          reason = take len rest;
          redirect = drop len rest;
        })
        else err (wrapped "reason bytes: %w" [] (short_read rest eof)))
unfolding decode_request_error read_all read_full
decode_request_error-body code retry len rest uc ur ul =
    rw
      (
        read_varint-append_varint code _ eof uc,
        read_varint-append_varint retry _ eof ur,
        read_varint-append_varint len rest eof ul,
      )
      (ground arith)

-- A length that is not refused can be allocated.
small_reason : (len : ℕ) → ltb 1024 len ≡ false → ltb max_alloc len ≡ false
small_reason len h = ground arith

read_all-Ends : (r : Reader) → Ends (read_all r)
unfolding read_all
read_all-Ends r = ground arith

-- Neither decoder panics, on any body.
pub decode_subscribe_ok-Ends : (payload : List ℕ) → Ends (decode_subscribe_ok payload)
unfolding decode_subscribe_ok
decode_subscribe_ok-Ends payload =
    Ends-bind (wrap "track alias: %w" [] (read_varint (bytes_reader payload))) _
      (Ends-wrap _ _ _ (read_varint-Ends (bytes_reader payload)))
      λ (a, r1) _.
        Ends-bind (wrap "number of parameters: %w" [] (read_varint r1)) _
          (Ends-wrap _ _ _ (read_varint-Ends r1))
          λ (n, r2) _. Ends-bind (read_all r2) _ (read_all-Ends r2) (λ _ _. tt)

pub decode_request_error-Ends : (payload : List ℕ) → Ends (decode_request_error payload)
unfolding decode_request_error
decode_request_error-Ends payload =
    Ends-bind (wrap "error code: %w" [] (read_varint (bytes_reader payload))) _
      (Ends-wrap _ _ _ (read_varint-Ends (bytes_reader payload)))
      λ (a, r1) _.
        Ends-bind (wrap "retry interval: %w" [] (read_varint r1)) _
          (Ends-wrap _ _ _ (read_varint-Ends r1))
          λ (n, r2) _.
            Ends-bind (wrap "reason length: %w" [] (read_varint r2)) _
              (Ends-wrap _ _ _ (read_varint-Ends r2))
              λ (len, r3) _. elim (Bool-cases (ltb 1024 len)) [
                | inl long ↦ rw long tt
                | inr short ↦
                    rw (short, small_reason len short)
                      (Ends-bind (wrap "reason bytes: %w" [] (read_full len r3)) _
                        (Ends-wrap _ _ _ (read_full-Ends len r3))
                        λ (reason, r4) _. Ends-bind (read_all r4) _ (read_all-Ends r4) (λ _ _. tt))
              ]
