-- ===== src/Session/Start.antt =====
-- internal/app/run.go: `New`, and `Run` up to the sending of SETUP.
use moqsub.Common.{
  ℕ, List, [], ◌∷◌, false, Option, none, some, ◌==◌, if◌then◌else◌, length, ◌≡◌, subst,
}
use moqsub.Common.Result.{Error, wrapped, text, Result, ok, err, panic, stuck}
use moqsub.RichLog.{Recorder, Event, dir_local, add, new_recorder, set_meta}
use moqsub.Registry.{new_subscription_registry}
use moqsub.Media.{OutputConfig}
use moqsub.Client.{ClientConfig}
use moqsub.Runner.{Runner, fmt, field}
use moqsub.Session.{Url, Streams}
use moqsub.Session.Machine.{Phase, begin}
use moqsub.Catalog.{CatalogRoot}

-- "relay"
abbrev pub meta_relay : List ℕ
meta_relay = 114 ∷ 101 ∷ 108 ∷ 97 ∷ 121 ∷ []

-- "namespace"
abbrev pub meta_namespace : List ℕ
meta_namespace = 110 ∷ 97 ∷ 109 ∷ 101 ∷ 115 ∷ 112 ∷ 97 ∷ 99 ∷ 101 ∷ []

-- "output"
abbrev pub meta_output : List ℕ
meta_output = 111 ∷ 117 ∷ 116 ∷ 112 ∷ 117 ∷ 116 ∷ []

-- `app.Config`
pub record Config : Type 0 where
  pub relay_uri : List ℕ
  pub namespace : List ℕ
  pub output : OutputConfig
  pub client : ClientConfig
  pub rich_log_path : List ℕ

-- The recorder of `New`.
unfoldable pub recorder_of : Config → Option Recorder
recorder_of cfg = if length cfg.rich_log_path == 0 then none else some new_recorder

unfoldable pub set_session_meta : Config → Option Recorder → Option Recorder
set_session_meta cfg rich =
    set_meta (set_meta (set_meta rich meta_relay cfg.relay_uri) meta_namespace cfg.namespace)
      meta_output cfg.output.mode

unfoldable pub connected_event : (remote alpn : List ℕ) → Event
connected_event remote alpn = record {
  dir = dir_local;
  channel = fmt "quic connection" [];
  name = "CONNECTED";
  summary = fmt "QUIC connection to %s established" (text remote ∷ []);
  fields = field "remote" "%s" (text remote ∷ []) ∷ field "alpn" "%s" (text alpn ∷ []) ∷ [];
  body = [];
  objects = none;
}

-- The state of a new session on an output.
unfoldable pub new_runner : {W : Type 0} → Config → Option Recorder → W → Runner W
new_runner cfg rich w = record {
  namespace = cfg.namespace;
  subs = new_subscription_registry;
  stats = record {
    bytes_written = 0;
    objects_seen = 0;
    groups_seen = 0;
    gap_hints = 0;
    status_objects = 0;
    stream_resets = 0;
    first_object_nanos = 0;
  };
  sink = w;
  clock = 0;
  peer_setup_seen = false;
  rich = rich;
  control_sent = none;
  sent = [];
}

-- How far a start came: `Run` returned without an output, with the recorder that it leaves, panicked or
-- does not return, or a session stands in a phase.
pub data Started (W : Type 0) : Type 0 where
  failed : Error → Option Recorder → Started W
  panicked hangs : Option Recorder → Started W
  session : Phase → Runner W → Started W

module _ {W : Type 0} (write_to : List ℕ → W → Option Error × W) (elapsed : ℕ → ℕ) (net : Streams)
    (unmarshal : List ℕ → Result CatalogRoot) (indent : List ℕ → Option (List ℕ)) where
  -- Behind `media.NewSink`.
  unfoldable pub start_on : Config → Url → Option Recorder → Result W → Started W
  start_on cfg url rich (ok w) =
      let (phase, r) = begin write_to elapsed net unmarshal indent url (new_runner cfg rich w) in
      session phase r
  start_on cfg url rich (err e) = failed (wrapped "output sink: %w" [] e) rich
  start_on cfg url rich panic = panicked rich
  start_on cfg url rich stuck = hangs rich

  -- Behind `client.Dial`.
  unfoldable pub connect : Config → Option Recorder → Result (List ℕ × Url) → Result W → Started W
  connect cfg rich (ok (remote, url)) opened =
      start_on cfg url (add rich (connected_event remote cfg.client.alpn)) opened
  connect cfg rich (err e) opened = failed e rich
  connect cfg rich panic opened = panicked rich
  connect cfg rich stuck opened = panicked rich

  -- `Run` with what the client's `Dial` and `media.NewSink` return.
  unfoldable pub start : Config → Result (List ℕ × Url) → Result W → Started W
  start cfg dialed opened = connect cfg (set_session_meta cfg (recorder_of cfg)) dialed opened

-- P of the phase and the state of a session that started.
abbrev pub AtSession : {W : Type 0} → (Phase × Runner W → Type 0) → Started W → Type 0
AtSession P (failed e rich) = ⊥
AtSession P (panicked rich) = ⊥
AtSession P (hangs rich) = ⊥
AtSession P (session phase r) = P (phase, r)

module _ {W : Type 0} (write_to : List ℕ → W → Option Error × W) (elapsed : ℕ → ℕ) (net : Streams)
    (unmarshal : List ℕ → Result CatalogRoot) (indent : List ℕ → Option (List ℕ)) where
  -- What holds behind the sending of SETUP in every new state holds of a session that starts.
  pub start-AtSession :
      (P : Phase × Runner W → Type 0) (w : W)
      → ((url : Url) (cfg : Config) (rich : Option Recorder)
          → P (begin write_to elapsed net unmarshal indent url (new_runner cfg rich w)))
      → (cfg : Config) (dialed : Result (List ℕ × Url)) (phase : Phase) (r : Runner W)
      → start write_to elapsed net unmarshal indent cfg dialed (ok w) ≡ session phase r
      → P (phase, r)
  unfolding start connect start_on
  start-AtSession P w h cfg (ok (remote, url)) phase r e = subst (AtSession P) e (h url cfg _)
  start-AtSession P w h cfg (err x) phase r e = cc
  start-AtSession P w h cfg panic phase r e = cc
  start-AtSession P w h cfg stuck phase r e = cc
