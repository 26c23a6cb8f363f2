-- ===== src/Tests/Start.antt =====
-- A session from its start at concrete inputs.
use moqsub.Common.{
  ℕ, ◌*◌, inl, inr, ◌≡◌, ◌<◌, ◌≤◌, refl, subst, List, [], ◌∷◌, ◌++◌, false, Option, none, some,
  arith, length,
}
use moqsub.Common.Result.{eof, Result, ok, err, panic, stuck}
use moqsub.Reader.{Reader}
use moqsub.Frame.{read_frame}
use moqsub.KeyValue.{SetupOption, decode_setup}
use moqsub.Message.{
  SubscribeOkMessage, RequestErrorMessage, decode_subscribe_ok, decode_request_error,
}
use moqsub.Message.Layout.{read_subscribe}
use moqsub.Namespace.{split_namespace, split, trim_left, trim_right, without_empty, to_first}
use moqsub.Registry.{
  TrackRole, role_catalog, TrackSubscription, new_subscription_registry, lookup_alias,
}
use moqsub.Registry.Laws.{IsRegistry}
use moqsub.Catalog.{CatalogRoot}
use moqsub.Runner.{Runner, Outcome, deliver_subgroup_object, change_sub}
use moqsub.Runner.Control.{msg_setup}
use moqsub.Runner.Requests.{
  msg_subscribe_ok, msg_request_error, on_request_message, format_subscribe_reject_error,
}
use moqsub.Media.{mode_stdout}
use moqsub.Client.{scheme_moqt}
use moqsub.Session.{Url, Streams}
use moqsub.Session.Setup.{client_path, send_client_setup}
use moqsub.Session.SetupSent.{IsMeant, send_client_setup-read}
use moqsub.Session.Subscribe.{msg_subscribe, send_subscribe_message}
use moqsub.Session.SubscribeSent.{message_of, send_subscribe_message-read}
use moqsub.Session.Start.{Config}
use moqsub.Session.Waits.{timed_out, received, drain_object, wait_subscribe_ok, wait_first_object}
use moqsub.Session.Machine.{
  Phase, awaiting_setup, after_send, start_bootstrap, resume, resume_setup, begin,
}
use moqsub.Session.Advance.{wait_all}
use moqsub.Session.Answers.{wait_subscribe_ok-on_request_message, wait_first_object-deliver}
use moqsub.Session.Reach.{Written, Reach, began, resumed}
use moqsub.Session.InitFirst.{Reach-Written, Reach-IsRegistry}
use moqsub.Tests.Session.{write_to, elapsed}
use moqsub.Tests.Session as Delivered
use moqsub.Media.{mode_stdout}
use moqsub.RichLog.{add, set_meta}
use moqsub.Session.Start.{
  Config, session, start, connect, start_on, set_session_meta, recorder_of, new_runner,
}

-- Streams that take what they are handed.
abbrev net : Streams
net = record {
  open_control = ok (record { written = []; fault = none });
  control_id = 2;
  open_request = λ n. ok (record { written = []; fault = none });
  request_id = λ n. 4 * n;
}

-- "moqt://a/b?c"
abbrev pub url : Url
url = record {
  scheme = scheme_moqt;
  host = 97 ∷ [];
  hostname = 97 ∷ [];
  port = [];
  escaped_path = 47 ∷ 98 ∷ [];
  raw_query = 99 ∷ [];
}

abbrev unmarshal : List ℕ → Result CatalogRoot
unmarshal payload = err eof

abbrev indent : List ℕ → Option (List ℕ)
indent payload = none

abbrev Published : TrackRole → List ℕ → Type 0
Published role payload = 0 < length payload

abbrev fresh : Runner (List (List ℕ))
fresh = Delivered.session new_subscription_registry

abbrev begun : Phase × Runner (List (List ℕ))
begun = begin write_to elapsed net unmarshal indent url fresh

-- A catalog track that waits.
abbrev waiting : TrackSubscription
waiting = record {
  request_id = 0;
  namespace = 97 ∷ [];
  track_name = 99 ∷ [];
  role = role_catalog;
  ok_ch = none;
  first_obj_ch = some none;
  got_first = false;
}

abbrev subscribed : Runner (List (List ℕ))
subscribed =
    Delivered.session
      (record { heap = waiting ∷ []; by_request = (0, 0) ∷ []; by_alias = []; next_id = 2 })

-- The phase behind a call that returned without an error.
after_send_ok :
    (phase : Phase) (o : Outcome (List (List ℕ))) → o.1 ≡ ok tt → (after_send phase o).0 ≡ phase
unfolding after_send
after_send_ok phase (r, ok x) h = refl
after_send_ok phase (r, err e) h = cc
after_send_ok phase (r, panic) h = cc
after_send_ok phase (r, stuck) h = cc

-- A session that writes to stdout, without a rich log.
abbrev config : Config
config = record {
  relay_uri = [];
  namespace = 97 ∷ [];
  output = record { mode = mode_stdout; ffmpeg_cmd = []; ffplay_cmd = []; pipe_cmd = [] };
  client = record {
    relay_uri = [];
    insecure_skip_tls = false;
    alpn = [];
    handshake_timeout = none;
  };
  rich_log_path = [];
}

begun_starts :
    start write_to elapsed net unmarshal indent config (ok (49 ∷ [], url)) (ok [])
    ≡ session begun.0 begun.1
unfolding start connect start_on set_session_meta recorder_of set_meta add new_runner
begun_starts = refl

begun_waits : begun.0 ≡ awaiting_setup
unfolding begin client_path
begun_waits =
    let (_, _, _, sent, _, _, _, _) =
      send_client_setup-read net url (47 ∷ 98 ∷ 63 ∷ 99 ∷ []) fresh eof refl
        (47 ∷ 98 ∷ [], inr (omega arith, refl), inr (omega arith, refl))
        (omega arith, (omega arith, (omega arith, (omega arith, tt)))) (omega arith, tt)
        (omega arith) (omega arith) in
    after_send_ok awaiting_setup (send_client_setup net url fresh) sent

-- The peer's SETUP does not come, and the catalog is subscribed to.
abbrev bootstrapped : Phase × Runner (List (List ℕ))
bootstrapped = start_bootstrap write_to elapsed net unmarshal indent begun.1

bootstrapped-Reach :
    (P : TrackRole → List ℕ → Type 0)
    → Reach write_to elapsed P [] net unmarshal indent bootstrapped.0 bootstrapped.1
unfolding resume resume_setup
bootstrapped-Reach P =
    resumed timed_out awaiting_setup bootstrapped.0 begun.1 bootstrapped.1
      (subst (λ (phase : Phase). Reach write_to elapsed P [] net unmarshal indent phase begun.1)
        begun_waits (began config (ok (49 ∷ [], url)) begun.0 begun.1 begun_starts))
      refl

Reach-Written_example : Written write_to elapsed Published [] bootstrapped.0 bootstrapped.1.sink
Reach-Written_example =
    Reach-Written write_to elapsed Published [] net unmarshal indent bootstrapped.0 bootstrapped.1
      (bootstrapped-Reach Published)

Reach-IsRegistry_example : IsRegistry bootstrapped.1.subs × (length bootstrapped.1.subs.heap ≤ 3)
Reach-IsRegistry_example =
    Reach-IsRegistry write_to elapsed Published [] net unmarshal indent bootstrapped.0
      bootstrapped.1 (bootstrapped-Reach Published)

-- A subgroup stream with one object.
abbrev one_object : Reader
one_object = record { bytes = 0x14 ∷ 0 ∷ 9 ∷ 2 ∷ 128 ∷ 0 ∷ 1 ∷ 7 ∷ []; fin = eof }

-- The bootstrap's waits, at a relay that never answers.
abbrev ended : Phase × Runner (List (List ℕ))
ended =
    wait_all write_to elapsed net unmarshal indent (λ n. received) (λ n r. r) 6 0
      (begin write_to elapsed net unmarshal indent url fresh)

send_subscribe_message-read_example :
    (bytes : List ℕ) × (payload : List ℕ) × ((send_subscribe_message net 0 subscribed).1 ≡ ok tt)
    × ((send_subscribe_message net 0 subscribed).0.sent ≡ [] ++ bytes ∷ [])
    × (read_frame (record { bytes = bytes; fin = eof })
        ≡ ok (msg_subscribe, payload, record { bytes = []; fin = eof }))
    × (read_subscribe payload ≡ ok (message_of (97 ∷ []) waiting, 0))
unfolding split_namespace trim_left trim_right split to_first without_empty
send_subscribe_message-read_example =
    send_subscribe_message-read net 0 subscribed waiting eof refl refl (omega arith) (omega arith)
      (omega arith) (omega arith)

-- "/b?c"
abbrev path : List ℕ
path = 47 ∷ 98 ∷ 63 ∷ 99 ∷ []

send_client_setup-read_example :
    (bytes : List ℕ) × (payload : List ℕ) × (options : List SetupOption) × ((send_client_setup net
        url fresh).1
      ≡ ok tt)
    × ((send_client_setup net url fresh).0.control_sent ≡ some bytes)
    × (read_frame (record { bytes = bytes; fin = eof })
        ≡ ok (msg_setup, payload, record { bytes = []; fin = eof }))
    × (decode_setup payload ≡ ok (record { options = options }))
    × IsMeant path (97 ∷ []) options
send_client_setup-read_example =
    send_client_setup-read net url path fresh eof refl
      (47 ∷ 98 ∷ [], inr (omega arith, refl), inr (omega arith, refl))
      (omega arith, (omega arith, (omega arith, (omega arith, tt)))) (omega arith, tt) (omega arith)
      (omega arith)

wait_subscribe_ok-on_request_message_example :
    (wait_subscribe_ok received 0 subscribed ≡ none)
    × ((payload : List ℕ) (m : SubscribeOkMessage)
        → decode_subscribe_ok payload ≡ ok m
        → (r1 : Runner (List (List ℕ))) × (wait_subscribe_ok received 0
              (on_request_message 4 0 waiting msg_subscribe_ok payload subscribed).1
            ≡ some (r1, ok tt))
          × (lookup_alias r1.subs m.track_alias ≡ some 0))
    × ((payload : List ℕ) (m : RequestErrorMessage)
        → decode_request_error payload ≡ ok m
        → (r1 : Runner (List (List ℕ))) × (wait_subscribe_ok received 0
              (on_request_message 4 0 waiting msg_request_error payload subscribed).1
            ≡ some (r1, err (format_subscribe_reject_error (97 ∷ []) (99 ∷ []) role_catalog m))))
wait_subscribe_ok-on_request_message_example =
    wait_subscribe_ok-on_request_message 0 waiting 4 subscribed refl refl

abbrev first_delivered : Runner (List (List ℕ))
first_delivered = (deliver_subgroup_object write_to elapsed 0 (7 ∷ []) subscribed).0

wait_first_object-deliver_example :
    (wait_first_object received 0 subscribed ≡ none)
    × (wait_first_object received 0 first_delivered
        ≡ some (change_sub drain_object 0 first_delivered, ok (7 ∷ [])))
    × (wait_first_object received 0
          (deliver_subgroup_object write_to elapsed 0
            (8 ∷ [])
            (change_sub drain_object 0 first_delivered)).0
        ≡ none)
wait_first_object-deliver_example =
    wait_first_object-deliver write_to elapsed 0 waiting (7 ∷ []) (8 ∷ []) subscribed refl
      (inl refl) refl refl
