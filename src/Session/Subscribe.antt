-- ===== src/Session/Subscribe.antt =====
-- internal/app/subscriptions.go: `newTrackSubscription` on the session and `sendSubscribeMessage`.
use moqsub.Common.{ℕ, List, [], ◌∷◌, ◌++◌, none, some, length, get_elem?}
use moqsub.Common.Result.{text, texts, num, literal, Result, ok, err, panic, stuck, wrap, ◌>>=◌}
use moqsub.Frame.{Writer, write_frame}
use moqsub.Message.{encode_subscribe}
use moqsub.Namespace.{split_namespace, track_namespace}
use moqsub.RichLog.{Event, dir_sent}
use moqsub.Registry.{TrackSubscription, Pointer}
use moqsub.Runner.{Runner, Outcome, fmt, field, rich_add}
use moqsub.Runner.Requests.{role_string}
use moqsub.Session.{Streams}

abbrev pub msg_subscribe : ℕ
msg_subscribe = 0x03

unfoldable pub subscribe_event : (stream_id : ℕ) → (namespace : List ℕ) → TrackSubscription → Event
subscribe_event stream_id namespace sub = record {
  dir = dir_sent;
  channel = fmt "request stream %d" (num stream_id ∷ []);
  name = "SUBSCRIBE";
  summary = fmt "track %s/%s (%s) · request %d" (
      text namespace
      ∷ text sub.track_name
      ∷ literal (role_string sub.role)
      ∷ num sub.request_id
      ∷ []);
  fields =
      field "request_id" "%d" (num sub.request_id ∷ [])
      ∷ field "track_namespace" "%v" (texts (split_namespace namespace) ∷ [])
      ∷ field "track_name" "%s" (text sub.track_name ∷ [])
      ∷ field "role (local)" "%s" (literal (role_string sub.role) ∷ [])
      ∷ field "stream_id" "%d" (num stream_id ∷ [])
      ∷ [];
  body = [];
  objects = none;
}

-- The stream with the frame of SUBSCRIBE behind the calls that can fail, in their order.
unfoldable pub write_subscribe :
    Result Writer → (namespace : List ℕ) → TrackSubscription → Result Writer
write_subscribe opened namespace sub = do
  ns ← track_namespace namespace
  payload ← wrap "encode subscribe: %w" [] (
      encode_subscribe (record {
        request_id = sub.request_id;
        track_namespace = ns;
        track_name = sub.track_name;
        parameters_raw = [];
      }))
  stream ← wrap "open request stream: %w" [] opened
  wrap "write subscribe: %w" [] (write_frame stream msg_subscribe payload)

module _ {W : Type 0} (net : Streams) where
  unfoldable pub after_subscribe : TrackSubscription → Result Writer → Runner W → Outcome W
  after_subscribe sub (ok written) r = (
    rich_add (subscribe_event (net.request_id (length r.sent)) r.namespace sub)
        (record r { sent = r.sent ++ written.written ∷ [] }),
    ok tt,
  )
  after_subscribe sub (err e) r = (r, err e)
  after_subscribe sub panic r = (r, panic)
  after_subscribe sub stuck r = (r, stuck)

  -- The goroutine that it starts, `readRequestStream`, is a step of its own.
  unfoldable pub send_subscribe_message : Pointer → Runner W → Outcome W
  send_subscribe_message p r = elim (get_elem? r.subs.heap p) [
    | none ↦ (r, panic)
    | some sub ↦
        after_subscribe sub (write_subscribe (net.open_request (length r.sent)) r.namespace sub) r
  ]
