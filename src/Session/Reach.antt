-- ===== src/Session/Reach.antt =====
-- A session as steps of its goroutines in any order: `Run` goes from one wait to the next, and between any
-- two of its steps the streams' goroutines take objects and messages.
use moqsub.Common.{ℕ, ◌<◌, ◌≤◌, ◌≡◌, ◌⊎◌, List, ◌∷◌, Option, some, All, length, get_elem?}
use moqsub.Common.Result.{Error, Result, ok}
use moqsub.Subgroup.{SubgroupHeader, SubgroupObject}
use moqsub.Registry.{
  TrackRole, role_init, role_media, TrackSubscription, Pointer, SubscriptionRegistry,
}
use moqsub.Registry.Laws.{IsRegistry}
use moqsub.Catalog.{CatalogRoot}
use moqsub.Runner.{Runner}
use moqsub.Runner.Subgroups.{receive_object}
use moqsub.Runner.Requests.{on_request_message}
use moqsub.Runner.Control.{dispatch_control_message}
use moqsub.Runner.Media.{write_all}
use moqsub.Session.{Url, Streams}
use moqsub.Session.Waits.{Wake}
use moqsub.Session.Start.{Config, session, start}
use moqsub.Session.Machine.{
  Phase, awaiting_setup, receiving, stopped, awaiting_catalog_ok, awaiting_catalog,
  awaiting_media_ok, awaiting_init_ok, awaiting_init, finished, resume,
}
use moqsub.Session.Heap.{RoleAt, Holds}

-- The subscriptions that were made, at most.
unfoldable pub made : Phase → ℕ
made awaiting_setup = 0
made (awaiting_catalog_ok p) = 1
made (awaiting_catalog p) = 1
made (awaiting_init_ok p init media) = 2
made (awaiting_init p init media) = 2
made (awaiting_media_ok p) = 3
made receiving = 3
made (finished e) = 3
made (stopped why) = 3

-- The wait for an init segment is on the subscription of an init track.
unfoldable pub Placed : Phase → List TrackSubscription → Type 0
Placed awaiting_setup heap = Unit {0}
Placed (awaiting_catalog_ok p) heap = Unit {0}
Placed (awaiting_catalog p) heap = Unit {0}
Placed (awaiting_init_ok p init media) heap = RoleAt role_init p heap
Placed (awaiting_init p init media) heap = RoleAt role_init p heap
Placed (awaiting_media_ok p) heap = Unit {0}
Placed receiving heap = Unit {0}
Placed (finished e) heap = Unit {0}
Placed (stopped why) heap = Unit {0}

-- `Published role payload` says of a payload that the relay sent it as an object of a track of that role,
-- and `w0` is the output that is opened.
module _ {W : Type 0} (write_to : List ℕ → W → Option Error × W) (elapsed : ℕ → ℕ)
    (Published : TrackRole → List ℕ → Type 0) (w0 : W) where
  -- Behind the writes of an init track's object and of objects of media tracks, in this order.
  abbrev pub InitFirst : W → Type 0
  InitFirst w =
      (init : List ℕ) × (fragments : List (List ℕ)) × Published role_init init
      × All (Published role_media) fragments
      × (w ≡ write_all write_to elapsed (init ∷ fragments) w0)

  -- What was written when `Run` stands in a phase.
  unfoldable pub Written : Phase → W → Type 0
  Written awaiting_setup w = w ≡ w0
  Written (awaiting_catalog_ok p) w = w ≡ w0
  Written (awaiting_catalog p) w = w ≡ w0
  Written (awaiting_init_ok p init media) w = w ≡ w0
  Written (awaiting_init p init media) w = w ≡ w0
  Written (awaiting_media_ok p) w = InitFirst w
  Written receiving w = InitFirst w
  Written (finished e) w = (w ≡ w0) ⊎ InitFirst w
  Written (stopped why) w = (w ≡ w0) ⊎ InitFirst w

  -- No media track was subscribed to, and nothing was written.
  unfoldable pub Silent : List TrackSubscription → W → Type 0
  Silent heap w = All (λ (s : TrackSubscription). ¬ (s.role ≡ role_media)) heap × (w ≡ w0)

  unfoldable pub Output : Phase → List TrackSubscription → W → Type 0
  Output awaiting_setup heap w = Silent heap w
  Output (awaiting_catalog_ok p) heap w = Silent heap w
  Output (awaiting_catalog p) heap w = Silent heap w
  Output (awaiting_init_ok p init media) heap w = Silent heap w
  Output (awaiting_init p init media) heap w = Silent heap w
  Output (awaiting_media_ok p) heap w = InitFirst w
  Output receiving heap w = InitFirst w
  Output (finished e) heap w = Silent heap w ⊎ InitFirst w
  Output (stopped why) heap w = Silent heap w ⊎ InitFirst w

  pub record Kept (phase : Phase) (reg : SubscriptionRegistry) (w : W) : Type 0 where
    pub registry : IsRegistry reg
    pub few : length reg.heap ≤ made phase
    pub held : All (Holds Published) reg.heap
    pub placed : Placed phase reg.heap
    pub output : Output phase reg.heap w

  module _ (net : Streams) (unmarshal : List ℕ → Result CatalogRoot)
      (indent : List ℕ → Option (List ℕ)) where
    -- The phase of `Run` and the state of a session behind any steps from its start on.
    pub data Reach : Phase → Runner W → Type 0 where
      began :
          (cfg : Config) (dialed : Result (List ℕ × Url)) (phase : Phase) (r : Runner W)
          → start write_to elapsed net unmarshal indent cfg dialed (ok w0) ≡ session phase r
          → Reach phase r
      resumed :
          (wake : Wake) (phase phase' : Phase) (r r' : Runner W)
          → Reach phase r
          → resume write_to elapsed net unmarshal indent wake phase r ≡ some (phase', r')
          → Reach phase' r'
      object :
          (phase : Phase) (r : Runner W) (stream_id : ℕ) (header : SubgroupHeader)
          (sub : Option Pointer) (obj : SubgroupObject)
          → Reach phase r
          → ((p : Pointer) (s : TrackSubscription)
              → sub ≡ some p
              → get_elem? r.subs.heap p ≡ some s
              → Published s.role obj.payload)
          → Reach phase (receive_object write_to elapsed stream_id header sub obj r).0
      request_message :
          (phase : Phase) (r : Runner W) (stream_id : ℕ) (p : Pointer) (sub : TrackSubscription)
          (msg_type : ℕ) (payload : List ℕ)
          → Reach phase r
          → p < length r.subs.heap
          → Reach phase (on_request_message stream_id p sub msg_type payload r).1
      control_message :
          (phase : Phase) (r : Runner W) (msg_type : ℕ) (payload : List ℕ)
          → Reach phase r
          → Reach phase (dispatch_control_message msg_type payload r).0
