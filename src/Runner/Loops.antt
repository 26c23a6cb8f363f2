-- ===== src/Runner/Loops.antt =====
-- The loops of the control stream and of a request stream come to an end.
use moqsub.Common.{
  ℕ, zero, suc, ◌≤◌, ◌<◌, ◌≡◌, refl, subst, inl, inr, ◌⊎◌, List, Bool, true, false, Bool-cases,
  some, ◌==◌, arith, length, get_elem?,
}
use moqsub.Common.Result.{Error, is_eof, Result, ok, err, panic, stuck, Ends, Ends-bind, >>=-eq-ok}
use moqsub.Reader.{Reader, read_full}
use moqsub.Reader.Laws.{read_full_takes, read_full-Ends}
use moqsub.Varint.{read_varint}
use moqsub.Varint.Accepts.{read_varint_takes}
use moqsub.Varint.Truncation.{read_varint-Ends}
use moqsub.Frame.{read_frame, read_frame_body, uint16_of}
use moqsub.KeyValue.{SetupMessage, decode_setup}
use moqsub.KeyValue.Decodes.{decode_setup-Ends}
use moqsub.Registry.{TrackSubscription, Pointer}
use moqsub.Runner.{Runner, Outcome, and_then}
use moqsub.Message.{SubscribeOkMessage, RequestErrorMessage}
use moqsub.Message.Replies.{decode_subscribe_ok-Ends, decode_request_error-Ends}
use moqsub.Runner.Requests.{
  msg_subscribe_ok, msg_request_error, on_subscribe_ok, on_request_error, on_request_message, go_on,
  request_loop, read_request_stream,
}
use moqsub.Runner.Control.{
  msg_setup, msg_go_away, on_setup, dispatch_control_message, control_loop, handle_control_stream,
}

read_frame_body_takes :
    (r : Reader) (payload : List ℕ) (r' : Reader)
    → read_frame_body r ≡ ok (payload, r')
    → length r'.bytes ≤ length r.bytes
unfolding read_frame_body
read_frame_body_takes r payload r' e =
    let ((len_buf, r1), e1, e2) = >>=-eq-ok (read_full 2 r) _ e in
    omega (
      arith,
      (read_full_takes 2 r.bytes r.fin len_buf r1 e1).0,
      (read_full_takes (uint16_of len_buf) r1.bytes r1.fin payload r' e2).0,
    )

read_frame_takes :
    (r : Reader) (msg_type : ℕ) (payload : List ℕ) (r' : Reader)
    → read_frame r ≡ ok (msg_type, payload, r')
    → length r'.bytes < length r.bytes
unfolding read_frame
read_frame_takes r msg_type payload r' e =
    let ((t, r1), e1, e2) = >>=-eq-ok (read_varint r) _ e in
    let ((body, r2), e3, e4) = >>=-eq-ok (read_frame_body r1) _ e2 in
    let q : r2 ≡ r' = cc in
    subst (λ (w : Reader). length w.bytes < length r.bytes) q
      (omega
        (arith, (read_varint_takes r.bytes r.fin t r1 e1).0, read_frame_body_takes r1 body r2 e3))

read_frame_body-Ends : (r : Reader) → Ends (read_frame_body r)
unfolding read_frame_body
read_frame_body-Ends r =
    Ends-bind (read_full 2 r) _ (read_full-Ends 2 r) (λ (l, r1) _. read_full-Ends (uint16_of l) r1)

pub read_frame-Ends : (r : Reader) → Ends (read_frame r)
unfolding read_frame
read_frame-Ends r =
    Ends-bind (read_varint r) _ (read_varint-Ends r)
      (λ (t, r1) _. Ends-bind (read_frame_body r1) _ (read_frame_body-Ends r1) (λ _ _. tt))

-- Splits a result that ends.
pub Ends-cases :
    {A : Type 0} (m : Result A) → Ends m → ((a : A) × (m ≡ ok a)) ⊎ ((e : Error) × (m ≡ err e))
Ends-cases (ok a) h = inl (a, refl)
Ends-cases (err e) h = inr (e, refl)
Ends-cases panic h = absurd h
Ends-cases stuck h = absurd h

module _ {W : Type 0} where
  and_then-Ends :
      (o : Outcome W) (k : Runner W → Outcome W)
      → Ends o.1
      → ((r : Runner W) → Ends (k r).1)
      → Ends (and_then o k).1
  unfolding and_then
  and_then-Ends (r, ok x) k h f = f r
  and_then-Ends (r, err e) k h f = tt
  and_then-Ends (r, panic) k h f = h
  and_then-Ends (r, stuck) k h f = h

  on_setup-Ends : (m : Result SetupMessage) (r : Runner W) → Ends m → Ends (on_setup m r).1
  unfolding on_setup
  on_setup-Ends (ok setup) r h = tt
  on_setup-Ends (err e) r h = tt
  on_setup-Ends panic r h = h
  on_setup-Ends stuck r h = h

  dispatch_control_message-Ends :
      (msg_type : ℕ) (payload : List ℕ) (r : Runner W)
      → Ends (dispatch_control_message msg_type payload r).1
  unfolding dispatch_control_message
  dispatch_control_message-Ends t payload r = elim (Bool-cases (t == msg_setup)) [
    | inl h ↦ rw h (on_setup-Ends (decode_setup payload) r (decode_setup-Ends payload))
    | inr h ↦ rw h (elim (Bool-cases (t == msg_go_away)) [ inl g ↦ rw g tt | inr g ↦ rw g tt ])
  ]

  control_loop-Ends :
      (fuel : ℕ) (stream : Reader) (r : Runner W)
      → length stream.bytes < fuel
      → Ends (control_loop fuel stream r).1
  unfolding control_loop
  control_loop-Ends zero stream r h = absurd (omega arith)
  control_loop-Ends (suc fuel) stream r h =
      elim (Ends-cases (read_frame stream) (read_frame-Ends stream)) [
        | inl ((t, payload, rest), e) ↦
            rw (Ends, e)
              (and_then-Ends (dispatch_control_message t payload r) _
                (dispatch_control_message-Ends t payload r)
                (λ r1.
                  control_loop-Ends fuel rest r1
                    (omega (arith, read_frame_takes stream t payload rest e))))
        | inr (x, e) ↦
            rw (Ends, e) (elim (Bool-cases (is_eof x)) [ inl t ↦ rw t tt | inr f ↦ rw f tt ])
      ]

  -- The handler of the control stream comes to an end on every stream, with or without an error,
  -- and never with a panic.
  pub handle_control_stream-Ends :
      (stream : Reader) (first_msg_type : ℕ) (r : Runner W)
      → Ends (handle_control_stream stream first_msg_type r).1
  unfolding handle_control_stream
  handle_control_stream-Ends stream t r =
      elim (Ends-cases (read_frame_body stream) (read_frame_body-Ends stream)) [
        | inl ((body, rest), e) ↦
            rw (Ends, e)
              (and_then-Ends (dispatch_control_message t body r) _
                (dispatch_control_message-Ends t body r)
                (λ r1. control_loop-Ends (suc (length rest.bytes)) rest r1 (omega arith)))
        | inr (x, e) ↦ rw (Ends, e) tt
      ]

  go_on-Ends :
      (o : Result Bool × Runner W) (k : Runner W → Outcome W)
      → Ends o.0
      → ((r : Runner W) → Ends (k r).1)
      → Ends (go_on o k).1
  unfolding go_on
  go_on-Ends (ok true, r) k h f = f r
  go_on-Ends (ok false, r) k h f = tt
  go_on-Ends (err e, r) k h f = tt
  go_on-Ends (panic, r) k h f = h
  go_on-Ends (stuck, r) k h f = h

  on_subscribe_ok-Ends :
      (stream_id : ℕ) (p : Pointer) (sub : TrackSubscription) (m : Result SubscribeOkMessage)
      (r : Runner W)
      → Ends m
      → Ends (on_subscribe_ok stream_id p sub m r).0
  unfolding on_subscribe_ok
  on_subscribe_ok-Ends stream_id p sub (ok msg) r h = tt
  on_subscribe_ok-Ends stream_id p sub (err e) r h = tt
  on_subscribe_ok-Ends stream_id p sub panic r h = h
  on_subscribe_ok-Ends stream_id p sub stuck r h = h

  on_request_error-Ends :
      (p : Pointer) (sub : TrackSubscription) (m : Result RequestErrorMessage) (r : Runner W)
      → Ends m
      → Ends (on_request_error p sub m r).0
  unfolding on_request_error
  on_request_error-Ends p sub (ok msg) r h = tt
  on_request_error-Ends p sub (err e) r h = tt
  on_request_error-Ends p sub panic r h = h
  on_request_error-Ends p sub stuck r h = h

  on_request_message-Ends :
      (stream_id : ℕ) (p : Pointer) (sub : TrackSubscription) (t : ℕ) (payload : List ℕ)
      (r : Runner W)
      → Ends (on_request_message stream_id p sub t payload r).0
  unfolding on_request_message
  on_request_message-Ends stream_id p sub t payload r = elim (Bool-cases (t == msg_subscribe_ok)) [
    | inl e ↦ rw e (on_subscribe_ok-Ends stream_id p sub _ r (decode_subscribe_ok-Ends payload))
    | inr e ↦ rw e (elim (Bool-cases (t == msg_request_error)) [
      | inl e1 ↦ rw e1 (on_request_error-Ends p sub _ r (decode_request_error-Ends payload))
      | inr e1 ↦ rw e1 tt
    ])
  ]

  request_loop-Ends :
      (fuel stream_id : ℕ) (p : Pointer) (sub : TrackSubscription) (stream : Reader) (r : Runner W)
      → length stream.bytes < fuel
      → Ends (request_loop fuel stream_id p sub stream r).1
  unfolding request_loop
  request_loop-Ends zero stream_id p sub stream r h = absurd (omega arith)
  request_loop-Ends (suc fuel) stream_id p sub stream r h =
      elim (Ends-cases (read_frame stream) (read_frame-Ends stream)) [
        | inl ((t, payload, rest), e) ↦
            rw (Ends, e)
              (go_on-Ends (on_request_message stream_id p sub t payload r) _
                (on_request_message-Ends stream_id p sub t payload r)
                (λ r1.
                  request_loop-Ends fuel stream_id p sub rest r1
                    (omega (arith, read_frame_takes stream t payload rest e))))
        | inr (x, e) ↦ rw (Ends, e) tt
      ]

  -- The reader of the request stream of a subscription that exists comes to an end on every
  -- stream, whatever messages it carries, and never with a panic: neither decoder of its messages
  -- panics.
  pub read_request_stream-Ends :
      (stream_id : ℕ) (p : Pointer) (sub : TrackSubscription) (stream : Reader) (r : Runner W)
      → get_elem? r.subs.heap p ≡ some sub
      → Ends (read_request_stream stream_id p stream r).1
  unfolding read_request_stream
  read_request_stream-Ends stream_id p sub stream r h =
      rw (Ends, h)
        (request_loop-Ends (suc (length stream.bytes)) stream_id p sub stream r (omega arith))
