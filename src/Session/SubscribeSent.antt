-- ===== src/Session/SubscribeSent.antt =====
-- What the relay gets of `sendSubscribeMessage`.
use moqsub.Common.{
  ℕ, ◌+◌, ◌*◌, ◌≤◌, ◌<◌, ◌≡◌, refl, List, [], ◌∷◌, ◌++◌, Option, none, some, arith, length,
  length-append, get_elem?, append-nil, subst, IsU64, All,
}
use moqsub.Common.Result.{Error, ok}
use moqsub.Varint.{append_varint}
use moqsub.Varint.Accepts.{append_varint_shape}
use moqsub.Frame.{Fault, max_frame_len, read_frame}
use moqsub.Frame.RoundTrip.{frame, write_frame-frame, read_frame-frame}
use moqsub.Message.{SubscribeMessage}
use moqsub.Message.Layout.{texts_wire, text_wire, total_length, read_subscribe, IsSubscribe}
use moqsub.Message.Subscribe.{
  IsNamespace, subscribe_wire, encode_subscribe-wire, read_subscribe-wire,
}
use moqsub.Namespace.{split_namespace}
use moqsub.Namespace.Fields.{IsField, track_namespace-fields}
use moqsub.Registry.{TrackSubscription, Pointer}
use moqsub.Runner.{Runner, rich_add}
use moqsub.Session.{Streams}
use moqsub.Session.Subscribe.{
  msg_subscribe, write_subscribe, after_subscribe, send_subscribe_message,
}

length-text_wire : (f : List ℕ) → IsU64 (length f) → length (text_wire f) ≤ 9 + length f
unfolding text_wire
length-text_wire f u =
    let (_, len, _, hi, _) = append_varint_shape [] (length f) u in
    omega (arith, length-append (append_varint [] (length f)) f)

length-texts_wire :
    (fs : List (List ℕ))
    → total_length fs ≤ 4096
    → length (texts_wire fs) ≤ 9 * length fs + total_length fs
unfolding texts_wire
length-texts_wire [] h = omega arith
length-texts_wire (f ∷ fs) h =
    let here = length-text_wire f (omega arith) in
    let rest = length-texts_wire fs (omega arith) in
    omega (arith, length-append (text_wire f) (texts_wire fs))

-- The message that is sent for a subscription.
abbrev pub message_of : (namespace : List ℕ) → TrackSubscription → SubscribeMessage
message_of namespace sub = record {
  request_id = sub.request_id;
  track_namespace = split_namespace namespace;
  track_name = sub.track_name;
  parameters_raw = [];
}

fields_not_empty : (fs : List (List ℕ)) → All IsField fs → All (λ f. 0 < length f) fs
fields_not_empty [] h = tt
fields_not_empty (f ∷ fs) h = (h.0.0, fields_not_empty fs h.1)

module _ (namespace : List ℕ) (sub : TrackSubscription) (id : IsU64 sub.request_id)
    (few : length (split_namespace namespace) ≤ 32)
    (short : total_length (split_namespace namespace) ≤ 4096)
    (name : length sub.track_name ≤ 60000) where
  is_namespace : IsNamespace (split_namespace namespace)
  is_namespace = (
    few,
    fields_not_empty (split_namespace namespace) (track_namespace-fields namespace).1,
    short,
  )

  is_subscribe : IsSubscribe (message_of namespace sub)
  is_subscribe = (id, omega arith, omega arith)

  body : List ℕ
  body = subscribe_wire (message_of namespace sub) 0

  length-body : length body ≤ max_frame_len
  unfolding body subscribe_wire
  length-body =
      let (_, len1, _, hi1, _) = append_varint_shape [] sub.request_id id in
      let (_, len2, _, hi2, _) =
        append_varint_shape [] (length (split_namespace namespace)) (omega arith) in
      let (_, len3, _, hi3, _) = append_varint_shape [] 0 (omega arith) in
      let texts = length-texts_wire (split_namespace namespace) short in
      let text = length-text_wire sub.track_name (omega arith) in
      rw (length-append, length-append, length-append, length-append, length-append)
        (omega (arith, len1, hi1, len2, hi2, len3, hi3, texts, text))

  write_subscribe-frame :
      (fault : Option Fault)
      → fault ≡ none
      → write_subscribe (ok (record { written = []; fault = fault })) namespace sub
        ≡ ok (record { written = frame msg_subscribe body; fault = fault })
  unfolding write_subscribe body
  write_subscribe-frame fault good =
      rw
        (
          (track_namespace-fields namespace).0,
          encode_subscribe-wire (message_of namespace sub) 0 is_subscribe is_namespace refl,
          write_frame-frame (record { written = []; fault = fault }) msg_subscribe body good
              length-body,
        )
        refl

-- On a fresh request stream, for a subscription in the registry: where the namespace has at most 32 fields
-- with 4096 bytes in all, and the track name at most 60000 bytes, `sendSubscribeMessage` returns without an
-- error, and the relay reads from the stream one frame of type SUBSCRIBE and nothing behind it, with the
-- subscription's request ID and track name, the namespace's parts that are not empty, and no parameters.
pub send_subscribe_message-read :
    {W : Type 0} (net : Streams) (p : Pointer) (r : Runner W) (sub : TrackSubscription)
    (fin : Error)
    → get_elem? r.subs.heap p ≡ some sub
    → net.open_request (length r.sent) ≡ ok (record { written = []; fault = none })
    → IsU64 sub.request_id
    → length (split_namespace r.namespace) ≤ 32
    → total_length (split_namespace r.namespace) ≤ 4096
    → length sub.track_name ≤ 60000
    → (bytes : List ℕ) × (payload : List ℕ) × ((send_subscribe_message net p r).1 ≡ ok tt)
      × ((send_subscribe_message net p r).0.sent ≡ r.sent ++ bytes ∷ [])
      × (read_frame (record { bytes = bytes; fin = fin })
          ≡ ok (msg_subscribe, payload, record { bytes = []; fin = fin }))
      × (read_subscribe payload ≡ ok (message_of r.namespace sub, 0))
unfolding send_subscribe_message after_subscribe rich_add body
send_subscribe_message-read net p r sub fin at fresh id few short name =
    let wrote = write_subscribe-frame r.namespace sub id few short name none refl in
    let payload = body r.namespace sub id few short name in
    (
      frame msg_subscribe payload,
      payload,
      rw (send_subscribe_message, at, fresh, wrote) refl,
      rw (send_subscribe_message, at, fresh, wrote) refl,
      subst
          (λ b.
            read_frame (record { bytes = b; fin = fin })
            ≡ ok (msg_subscribe, payload, record { bytes = []; fin = fin }))
          (append-nil (frame msg_subscribe payload))
          (read_frame-frame payload [] fin (length-body r.namespace sub id few short name)
            msg_subscribe (omega arith)),
      read_subscribe-wire (message_of r.namespace sub) 0
          (is_subscribe r.namespace sub id few short name)
          (is_namespace r.namespace sub id few short name) refl,
    )
