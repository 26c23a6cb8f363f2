-- ===== src/RichLog/Log.antt =====
-- A log of what a session tells the recorder.
use moqsub.Common.{
  ℕ, ◌+◌, ◌%◌, ◌^◌, ◌≡◌, refl, ap, inl, inr, List, [], ◌∷◌, ◌++◌, map, false, Bool-cases, Option,
  none, some, if◌then◌else◌, if-eq_true, if-eq_false, arith,
}
use moqsub.RichLog.{GroupKey, ObjectRow, ObjectGroup, Recorder, Event, same_key, add, add_object}
use moqsub.RichLog.Groups.{same_key_refl}

-- A call of `AddObject`.
pub record Delivery : Type 0 where
  pub stream_id : ℕ
  pub track : List ℕ
  pub track_alias : ℕ
  pub group_id : ℕ
  pub object_id : ℕ
  pub payload_bytes : ℕ

abbrev pub key_of : Delivery → GroupKey
key_of d = (d.stream_id, d.group_id)

abbrev pub row_of : Delivery → ObjectRow
row_of d = record { object_id = d.object_id; bytes = d.payload_bytes }

abbrev pub record_one : Option Recorder → Delivery → Option Recorder
record_one rec d =
    add_object rec d.stream_id d.track d.track_alias d.group_id d.object_id d.payload_bytes

-- What a session tells the recorder: a message's event, which names no group, or a delivery.
pub data Call : Type 0 where
  message : (ev : Event) → ev.objects ≡ none → Call
  delivery : Delivery → Call

unfoldable pub record_call : Option Recorder → Call → Option Recorder
record_call rec (message ev plain) = add rec ev
record_call rec (delivery d) = record_one rec d

unfoldable pub record_all : Option Recorder → List Call → Option Recorder
record_all rec [] = rec
record_all rec (c ∷ cs) = record_all (record_call rec c) cs

-- The deliveries of a group, in their order.
unfoldable pub deliveries_of : GroupKey → List Call → List Delivery
deliveries_of k [] = []
deliveries_of k (message ev plain ∷ cs) = deliveries_of k cs
deliveries_of k (delivery d ∷ cs) =
    let rest = deliveries_of k cs in if same_key k (key_of d) then d ∷ rest else rest

abbrev pub sum_bytes : List Delivery → ℕ
sum_bytes [] = 0
sum_bytes (d ∷ ds) = d.payload_bytes + sum_bytes ds

-- A group shows these deliveries: it has the names of the first, a row of each, and the sum of their
-- sizes in 64 bits. Without deliveries there is no group.
unfoldable pub Shows : Option ObjectGroup → List Delivery → Type 0
Shows none [] = Unit {0}
Shows none (d ∷ ds) = ⊥
Shows (some grp) [] = ⊥
Shows (some grp) (d ∷ ds) =
    (grp.stream_id ≡ d.stream_id)
    × (grp.track ≡ d.track)
    × (grp.track_alias ≡ d.track_alias)
    × (grp.group_id ≡ d.group_id)
    × (grp.rows ≡ map row_of (d ∷ ds))
    × (grp.total_bytes ≡ sum_bytes (d ∷ ds) % 2 ^ 64)

pub deliveries_of-append :
    (k : GroupKey) (cs : List Call) (c : Call)
    → deliveries_of k (cs ++ c ∷ []) ≡ deliveries_of k cs ++ deliveries_of k (c ∷ [])
unfolding deliveries_of
deliveries_of-append k [] c = refl
deliveries_of-append k (message ev plain ∷ cs) c = deliveries_of-append k cs c
deliveries_of-append k (delivery d ∷ cs) c = elim (Bool-cases (same_key k (key_of d))) [
  | inl e ↦ rw e (ap (λ ds. d ∷ ds) (deliveries_of-append k cs c))
  | inr e ↦ rw e (deliveries_of-append k cs c)
]

pub deliveries_of-same : (d : Delivery) → deliveries_of (key_of d) (delivery d ∷ []) ≡ d ∷ []
unfolding deliveries_of
deliveries_of-same d = if-eq_true (same_key (key_of d) (key_of d)) _ _ (same_key_refl (key_of d))

pub deliveries_of-other :
    (k : GroupKey) (d : Delivery)
    → same_key k (key_of d) ≡ false
    → deliveries_of k (delivery d ∷ []) ≡ []
unfolding deliveries_of
deliveries_of-other k d e = if-eq_false (same_key k (key_of d)) _ _ e

pub map-append_one :
    (ds : List Delivery) (d : Delivery) → map row_of (ds ++ d ∷ []) ≡ map row_of ds ++ row_of d ∷ []
map-append_one [] d = refl
map-append_one (x ∷ ds) d = ap (λ rows. row_of x ∷ rows) (map-append_one ds d)

pub sum_bytes-append_one :
    (ds : List Delivery) (d : Delivery) → sum_bytes (ds ++ d ∷ []) ≡ sum_bytes ds + d.payload_bytes
sum_bytes-append_one [] d = omega arith
sum_bytes-append_one (x ∷ ds) d = let rest = sum_bytes-append_one ds d in omega (arith, rest)
