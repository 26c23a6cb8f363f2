-- ===== src/Runner.antt =====
-- internal/app/run.go: the state of a session and the delivery of an object. The output is the
-- parameter `write_to`, a write to stdout or to a command's pipe, with the error it returns; the clock is
-- the parameter `elapsed`, the nanoseconds since the start at the n-th reading.
pub mod Subgroups
pub mod Requests
pub mod Control
pub mod Delivery
pub mod Media
pub mod Loops
pub mod Keeps
pub mod Steps
pub mod Streams
pub mod Errors
pub mod FirstObject
use moqsub.Common.{
  ℕ, ◌+◌, ◌%◌, ◌^◌, String, List, [], ◌∷◌, Bool, true, false, not, Option, none, some, ltb, ◌==◌,
  if◌then◌else◌, length, get_elem?,
}
use moqsub.Common.Result.{Error, wrapped, Arg, Result, ok, err, panic, stuck}
use moqsub.Subgroup.{SubgroupObject}
use moqsub.RichLog.{Recorder, Event, Text, add}
use moqsub.Registry.{
  TrackRole, role_catalog, role_init, role_media, TrackSubscription, Pointer, SubscriptionRegistry,
  change, keep_first,
}

-- The counters are uint64, and `first_object_nanos` an int64.
pub record Stats : Type 0 where
  pub bytes_written : ℕ
  pub objects_seen : ℕ
  pub groups_seen : ℕ
  pub gap_hints : ℕ
  pub status_objects : ℕ
  pub stream_resets : ℕ
  pub first_object_nanos : ℕ

-- The fields that a session reads or changes. `clock` counts the readings of the clock; `control_sent`
-- is what the control stream was handed, once it is open, and `sent` what each request stream was, in
-- the order in which they were opened.
pub record Runner (W : Type 0) : Type 0 where
  pub namespace : List ℕ
  pub subs : SubscriptionRegistry
  pub stats : Stats
  pub sink : W
  pub clock : ℕ
  pub peer_setup_seen : Bool
  pub rich : Option Recorder
  pub control_sent : Option (List ℕ)
  pub sent : List (List ℕ)

-- A handler's end: the state it leaves and what it returns.
abbrev pub Outcome : Type 0 → Type 0
Outcome W = Runner W × Result (Unit {0})

-- `atomic.AddUint64`
abbrev pub add_uint64 : ℕ → ℕ → ℕ
add_uint64 n d = (n + d) % 2 ^ 64

abbrev pub fmt : String → List Arg → Text
fmt f a = record { format = f; args = a }

unfoldable pub count_written : ℕ → Stats → Stats
count_written n st = record st { bytes_written = add_uint64 st.bytes_written n }

-- The counters of an object that was read.
unfoldable pub count_object : SubgroupObject → Stats → Stats
count_object obj st = record st {
  objects_seen = add_uint64 st.objects_seen 1;
  gap_hints = (if ltb 0 obj.object_id_delta then add_uint64 st.gap_hints 1 else st.gap_hints);
  status_objects =
      (if obj.is_status_object then add_uint64 st.status_objects 1 else st.status_objects);
}

abbrev pub field : String → String → List Arg → Text × Text
field key f args = (fmt key [], fmt f args)

module _ {W : Type 0} where
  -- What follows a call that may fail, where its error is returned.
  unfoldable pub and_then : Outcome W → (Runner W → Outcome W) → Outcome W
  and_then (r, ok x) k = k r
  and_then (r, err e) k = (r, err e)
  and_then (r, panic) k = (r, panic)
  and_then (r, stuck) k = (r, stuck)

  unfoldable pub rich_add : Event → Runner W → Runner W
  rich_add ev r = record r { rich = add r.rich ev }

  unfoldable pub change_sub :
      (TrackSubscription → TrackSubscription) → Pointer → Runner W → Runner W
  change_sub f p r =
      let subs = record (r.subs) { heap = change f p r.subs.heap } in record r { subs = subs }

module _ {W : Type 0} (write_to : List ℕ → W → Option Error × W) (elapsed : ℕ → ℕ) where
  unfoldable pub write_payload : List ℕ → Runner W → Option Error × Runner W
  write_payload payload r =
      let (failure, w) = write_to payload r.sink in (failure, record r { sink = w })

  unfoldable pub record_first_object : Runner W → Runner W
  record_first_object r =
      if not (r.stats.first_object_nanos == 0)
      then r
      else (let st = record (r.stats) { first_object_nanos = elapsed r.clock } in
          record r { stats = st; clock = r.clock + 1 })

  unfoldable pub count_if_written : ℕ → Option Error × Runner W → Outcome W
  count_if_written n (some e, r) = (r, err e)
  count_if_written n (none, r) = (record r { stats = count_written n r.stats }, ok tt)

  unfoldable pub deliver_as : TrackRole → Pointer → List ℕ → Runner W → Outcome W
  deliver_as role_catalog p payload r = (change_sub (keep_first payload) p r, ok tt)
  deliver_as role_init p payload r = (change_sub (keep_first payload) p r, ok tt)
  deliver_as role_media p payload r =
      count_if_written (length payload) (write_payload payload (record_first_object r))

  -- A pointer outside the heap would be no pointer of Go.
  unfoldable pub deliver_subgroup_object : Pointer → List ℕ → Runner W → Outcome W
  deliver_subgroup_object p payload r = elim (get_elem? r.subs.heap p) [
    | none ↦ (r, panic)
    | some sub ↦ deliver_as sub.role p payload r
  ]
