-- ===== src/Runner/Requests.antt =====
-- internal/app/subscriptions.go: `readRequestStream` and what it calls, `logSubscribeRejected` of run.go
-- included.
use moqsub.Common.{
  ℕ, zero, suc, String, List, [], ◌∷◌, Bool, true, false, none, some, ◌==◌, if◌then◌else◌, length,
  get_elem?,
}
use moqsub.Common.Result.{Error, message, num, text, literal, Result, ok, err, panic, stuck}
use moqsub.Reader.{Reader}
use moqsub.Frame.{read_frame}
use moqsub.Message.{
  SubscribeOkMessage, RequestErrorMessage, decode_subscribe_ok, decode_request_error,
}
use moqsub.ErrorCodes.{request_error_code_name}
use moqsub.RichLog.{Event, dir_recv}
use moqsub.Registry.{
  TrackRole, role_catalog, role_init, role_media, TrackSubscription, Pointer, bind_alias,
  offer_result,
}
use moqsub.Runner.{Runner, Outcome, fmt, field, rich_add, change_sub}

abbrev pub msg_subscribe_ok : ℕ
msg_subscribe_ok = 0x04

abbrev pub msg_request_error : ℕ
msg_request_error = 0x05

-- `trackRole.String`
unfoldable pub role_string : TrackRole → String
role_string role_catalog = "catalog"
role_string role_init = "init"
role_string role_media = "media"

unfoldable pub format_subscribe_reject_error :
    (namespace track : List ℕ) → TrackRole → RequestErrorMessage → Error
format_subscribe_reject_error namespace track role req_err =
    message "subscribe rejected namespace=%q track=%q role=%s code=%d (%s) retry=%d reason=%q" (
      text namespace
      ∷ text track
      ∷ literal (role_string role)
      ∷ num req_err.code
      ∷ request_error_code_name req_err.code
      ∷ num req_err.retry_interval
      ∷ text req_err.reason
      ∷ [])

unfoldable pub subscribe_ok_event :
    (stream_id : ℕ) → (track_name : List ℕ) → SubscribeOkMessage → Event
subscribe_ok_event stream_id track_name msg = record {
  dir = dir_recv;
  channel = fmt "request stream %d" (num stream_id ∷ []);
  name = "SUBSCRIBE_OK";
  summary = fmt "track %s accepted · alias %d" (text track_name ∷ num msg.track_alias ∷ []);
  fields =
      field "track (from request)" "%s" (text track_name ∷ [])
      ∷ field "track_alias" "%d" (num msg.track_alias ∷ [])
      ∷ field "num_parameters" "%d" (num msg.num_params ∷ [])
      ∷ field "track_properties_bytes" "%d" (num (length msg.track_properties) ∷ [])
      ∷ [];
  body = [];
  objects = none;
}

-- The event that `logSubscribeRejected` records of a subscription.
unfoldable pub rejected_event : RequestErrorMessage → TrackSubscription → Event
rejected_event req_err sub = record {
  dir = dir_recv;
  channel = fmt "request stream (request %d)" (num sub.request_id ∷ []);
  name = "REQUEST_ERROR";
  summary =
      fmt "code %d (%s): %s"
        (num req_err.code ∷ request_error_code_name req_err.code ∷ text req_err.reason ∷ []);
  fields =
      field "error_code" "%d (%s)" (num req_err.code ∷ request_error_code_name req_err.code ∷ [])
      ∷ field "retry_interval" "%d" (num req_err.retry_interval ∷ [])
      ∷ field "reason" "%s" (text req_err.reason ∷ [])
      ∷ field "track" "%s/%s" (text sub.namespace ∷ text sub.track_name ∷ [])
      ∷ field "role" "%s" (literal (role_string sub.role) ∷ [])
      ∷ [];
  body = [];
  objects = none;
}

module _ {W : Type 0} where
  -- Whether the loop goes on behind a message; a panic of the decoder is one of the loop.
  unfoldable pub on_subscribe_ok :
      (stream_id : ℕ)
      → Pointer
      → TrackSubscription
      → Result SubscribeOkMessage
      → Runner W
      → Result Bool × Runner W
  on_subscribe_ok stream_id p sub (ok msg) r =
      let r1 = rich_add (subscribe_ok_event stream_id sub.track_name msg) r in
      let r2 : Runner W = record r1 { subs = bind_alias r1.subs p msg.track_alias } in
      (ok true, change_sub (offer_result (record { alias = msg.track_alias; failure = none })) p r2)
  on_subscribe_ok stream_id p sub (err e) r = (ok false, r)
  on_subscribe_ok stream_id p sub panic r = (panic, r)
  on_subscribe_ok stream_id p sub stuck r = (stuck, r)

  unfoldable pub on_request_error :
      Pointer → TrackSubscription → Result RequestErrorMessage → Runner W → Result Bool × Runner W
  on_request_error p sub (ok msg) r =
      let r1 = rich_add (rejected_event msg sub) r in
      let failure = format_subscribe_reject_error sub.namespace sub.track_name sub.role msg in
      (ok false, change_sub (offer_result (record { alias = 0; failure = some failure })) p r1)
  on_request_error p sub (err e) r = (ok false, r)
  on_request_error p sub panic r = (panic, r)
  on_request_error p sub stuck r = (stuck, r)

  -- The body of the loop behind `ReadFrame`: on to the next message, or back to the caller.
  unfoldable pub on_request_message :
      (stream_id : ℕ)
      → Pointer
      → TrackSubscription
      → (msg_type : ℕ) → (payload : List ℕ) → Runner W
      → Result Bool × Runner W
  on_request_message stream_id p sub msg_type payload r =
      if msg_type == msg_subscribe_ok
      then on_subscribe_ok stream_id p sub (decode_subscribe_ok payload) r
      else if msg_type == msg_request_error
      then on_request_error p sub (decode_request_error payload) r
      else (ok true, r)

  -- `k` is the rest of the loop.
  unfoldable pub go_on : Result Bool × Runner W → (Runner W → Outcome W) → Outcome W
  go_on (ok true, r) k = k r
  go_on (ok false, r) k = (r, ok tt)
  go_on (err e, r) k = (r, err e)
  go_on (panic, r) k = (r, panic)
  go_on (stuck, r) k = (r, stuck)

  unfoldable pub request_loop :
      (fuel stream_id : ℕ) → Pointer → TrackSubscription → Reader → Runner W → Outcome W
  request_loop zero stream_id p sub stream r = (r, stuck)
  request_loop (suc fuel) stream_id p sub stream r = elim (read_frame stream) [
    | err e ↦ (r, ok tt)
    | panic ↦ (r, panic)
    | stuck ↦ (r, stuck)
    | ok (msg_type, payload, rest) ↦
        go_on (on_request_message stream_id p sub msg_type payload r)
          (λ r1. request_loop fuel stream_id p sub rest r1)
  ]

  -- The fields of the subscription that the loop reads never change. Each message takes a byte at
  -- least.
  unfoldable pub read_request_stream : (stream_id : ℕ) → Pointer → Reader → Runner W → Outcome W
  read_request_stream stream_id p stream r = elim (get_elem? r.subs.heap p) [
    | none ↦ (r, panic)
    | some sub ↦ request_loop (suc (length stream.bytes)) stream_id p sub stream r
  ]
