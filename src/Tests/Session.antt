-- ===== src/Tests/Session.antt =====
-- A session, its registry, its recorder and its catalog at concrete inputs.
use moqsub.Common.{
  All, ℕ, ◌+◌, ◌*◌, ◌%◌, ◌<◌, ◌^◌, ◌≡◌, ◌≢◌, ◌⊎◌, refl, List, [], ◌∷◌, ◌++◌, true, false, Option,
  none, some, if◌then◌else◌, arith, length,
}
use moqsub.Common.Result.{stream_error, Error, eof, ok, err, Ends, message}
use moqsub.Subgroup.{SubgroupHeader}
use moqsub.Varint.{append_varint, append_sized, varint_size}
use moqsub.Subgroup.Layout.{
  Sent, payload, status, object_wire, extensions_wire, content_len, content_body,
}
use moqsub.Subgroup.Objects.{objects_wire, AllFollow, all_received}
use moqsub.Registry.{
  role_media, TrackSubscription, Pointer, SubscriptionRegistry, new_subscription_registry,
  lookup_alias, lookup_delivery, new_track_subscription, register, alloc_request_id, find,
}
use moqsub.Registry.Laws.{IsRegistry, lookup_delivery-cases}
use moqsub.RichLog.{Recorder}
use moqsub.Catalog.{
  CatalogRoot, CatalogTrack, resolve_media_track, init_track_name, default_init_track,
}
use moqsub.Catalog.Choice.{
  is_other, is_other_video, announces_init, is_named, IsFirst, Fails, resolve_media_track-cases,
  init_track_name-cases,
}
use moqsub.Runner.{Runner}
use moqsub.Runner.Subgroups.{receive_objects}
use moqsub.Runner.Requests.{read_request_stream}
use moqsub.Runner.Control.{run_loop, is_canceled, is_stream_error}
use moqsub.Runner.Media.{
  receive_all, receive_objects-objects_wire, payloads, total, write_all, receive_all-media,
}
use moqsub.Runner.Errors.{run_loop_first_error}
use moqsub.Runner.Loops.{read_request_stream-Ends}
use moqsub.Runner.Steps.{subscribe}

-- An output that keeps what is written, and a clock.
abbrev pub write_to : List ℕ → List (List ℕ) → Option Error × List (List ℕ)
write_to p w = (none, w ++ p ∷ [])

abbrev pub elapsed : ℕ → ℕ
elapsed n = 5 + n

abbrev video : TrackSubscription
video = record {
  request_id = 0;
  namespace = 97 ∷ [];
  track_name = 118 ∷ [];
  role = role_media;
  ok_ch = none;
  first_obj_ch = none;
  got_first = false;
}

abbrev registry : SubscriptionRegistry
registry = record { heap = video ∷ []; by_request = (0, 0) ∷ []; by_alias = []; next_id = 2 }

registry-IsRegistry : IsRegistry registry
registry-IsRegistry = record { numbered = (refl, tt); registered = refl; next = refl; bound = tt }

abbrev pub session : SubscriptionRegistry → Runner (List (List ℕ))
session reg = record {
  namespace = 97 ∷ [];
  subs = reg;
  stats = record {
    bytes_written = 0;
    objects_seen = 0;
    groups_seen = 0;
    gap_hints = 0;
    status_objects = 0;
    stream_resets = 0;
    first_object_nanos = 0;
  };
  sink = [];
  clock = 0;
  peer_setup_seen = false;
  rich = none;
  control_sent = none;
  sent = [];
}

abbrev media_header : SubgroupHeader
media_header = record {
  kind = 0x14;
  track_alias = 0;
  group_id = 9;
  subgroup_id = 2;
  has_subgroup_id = true;
  has_extensions = false;
  uses_first_object_id = false;
  end_of_group = false;
  publisher_priority = 128;
}

abbrev fragments : List Sent
fragments =
    record { id = 0; extensions = []; content = payload 8 (9 ∷ []) }
    ∷ record { id = 3; extensions = []; content = status 3 }
    ∷ []

fragments-AllFollow : AllFollow none fragments
fragments-AllFollow = (
  (omega arith, omega arith, omega arith, omega arith),
  ((omega arith, omega arith, omega arith, omega arith), tt),
)

fragments_short : length (objects_wire false none fragments) < 100
unfolding objects_wire object_wire extensions_wire content_len content_body append_varint
    append_sized varint_size
fragments_short = omega arith

receive_objects-objects_wire_example :
    receive_objects write_to elapsed 100 15 media_header
      (some 0)
      (record {
        r = record { bytes = objects_wire false none fragments; fin = eof };
        has_extensions = false;
        prev_object_id = none;
      })
      (session registry)
    ≡ receive_all write_to elapsed 15 media_header
        (some 0)
        (all_received false none fragments)
        (session registry)
receive_objects-objects_wire_example =
    receive_objects-objects_wire write_to elapsed 15 media_header (some 0) 100 false none fragments
      (session registry) fragments-AllFollow fragments_short

receive_all-media_example :
    (r' : Runner (List (List ℕ))) × (receive_all write_to elapsed 15 media_header
        (some 0)
        (all_received false none fragments)
        (session registry)
      ≡ (r', ok tt))
    × (r'.sink
        ≡ write_all write_to elapsed
            (payloads write_to elapsed (all_received false none fragments))
            [])
    × (r'.stats.bytes_written
        ≡ (0
            + total write_to elapsed
                (payloads write_to elapsed (all_received false none fragments)))
          % 2 ^ 64)
receive_all-media_example =
    receive_all-media write_to elapsed 15 media_header 0 video refl (λ _ _. refl)
      (all_received false none fragments) (session registry) refl (omega arith)

read_request_stream-Ends_example : Ends (
    (read_request_stream 0 0
      (record { bytes = 4 ∷ 0 ∷ 2 ∷ 0 ∷ 0 ∷ []; fin = eof })
      (session registry)).1)
read_request_stream-Ends_example =
    read_request_stream-Ends 0 0 video (record { bytes = 4 ∷ 0 ∷ 2 ∷ 0 ∷ 0 ∷ []; fin = eof })
      (session registry) refl

abbrev fresh : Runner (List (List ℕ))
fresh = session new_subscription_registry

one_subscription : 0 < length (subscribe (118 ∷ []) role_media fresh).subs.heap
unfolding subscribe new_track_subscription register alloc_request_id
one_subscription = omega arith

lookup_delivery-cases_example :
    ((p : Pointer) × (p < 1)
      × (lookup_alias registry 0 ≡ some p)
      × (lookup_delivery registry 0 ≡ (some p, false)))
    ⊎ ((p : Pointer) × (p < 1)
        × (lookup_alias registry 0 ≡ none)
        × (0 ≡ 2 * p)
        × (lookup_delivery registry 0 ≡ (some p, true)))
    ⊎ ((lookup_alias registry 0 ≡ none)
        × ((k : Pointer) → k < 1 → 0 ≢ 2 * k)
        × (lookup_delivery registry 0 ≡ (none, false)))
lookup_delivery-cases_example = lookup_delivery-cases registry 0 registry-IsRegistry

no_alias : lookup_alias registry 0 ≡ none
unfolding lookup_alias find
no_alias = refl

-- A track ".catalog", an audio track and a video track.
abbrev track : List ℕ → List ℕ → List ℕ → CatalogTrack
track name init codec = record {
  name = name;
  init_track = init;
  selection_params = record { codec = codec; width = 0; height = 0 };
}

abbrev catalog : CatalogRoot
catalog = record {
  version = 1;
  common_track_fields = record { namespace = []; packaging = [] };
  tracks =
      track (97 ∷ []) [] (109 ∷ [])
      ∷ track (118 ∷ []) (105 ∷ []) (97 ∷ 118 ∷ 99 ∷ 49 ∷ 46 ∷ [])
      ∷ [];
}

resolve_media_track-cases_example :
    ((t : CatalogTrack) × IsFirst is_other_video t catalog.tracks
      × (resolve_media_track catalog [] ≡ ok t.name))
    ⊎ ((t : CatalogTrack) × Fails is_other_video catalog.tracks
        × IsFirst is_other t catalog.tracks
        × (resolve_media_track catalog [] ≡ ok t.name))
    ⊎ (Fails is_other catalog.tracks
        × (resolve_media_track catalog [] ≡ err (message "catalog contains no media tracks" [])))
resolve_media_track-cases_example = resolve_media_track-cases catalog

init_track_name-cases_example :
    ((t : CatalogTrack) × IsFirst (is_named (118 ∷ [])) t catalog.tracks
      × (init_track_name catalog (118 ∷ []) ≡ t.init_track))
    ⊎ ((t : CatalogTrack) × Fails (is_named (118 ∷ [])) catalog.tracks
        × IsFirst announces_init t catalog.tracks
        × (init_track_name catalog (118 ∷ []) ≡ t.init_track))
    ⊎ (Fails announces_init catalog.tracks
        × (init_track_name catalog (118 ∷ []) ≡ default_init_track))
init_track_name-cases_example = init_track_name-cases catalog 118 []

abbrev recorder : Recorder
recorder = record { meta = []; events = []; groups = [] }

run_loop_first_error_example :
    ((run_loop ((stream_error 7 ∷ []) ++ eof ∷ []) (session registry)).0
      ≡ (if is_canceled eof then none else some eof))
    × ((run_loop ((stream_error 7 ∷ []) ++ eof ∷ []) (session registry)).1.stats.stream_resets
        ≡ (0 + length {A = Error} (stream_error 7 ∷ [])) % 2 ^ 64)
run_loop_first_error_example =
    run_loop_first_error (stream_error 7 ∷ []) eof [] (session registry) one_reset no_reset
      (omega arith)
  where
    one_reset :
        All (λ x. (is_canceled x ≡ false) × (is_stream_error x ≡ true)) (stream_error 7 ∷ [])
    one_reset = unfold is_canceled is_stream_error in ((refl, refl), tt)

    no_reset : is_stream_error eof ≡ false
    no_reset = unfold is_stream_error in refl
