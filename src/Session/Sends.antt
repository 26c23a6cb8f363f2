-- ===== src/Session/Sends.antt =====
-- The two messages that a session sends: where the calls on their streams return, so does the sending, with
-- or without an error.
use moqsub.Common.{
  ℕ, ◌+◌, ◌≡◌, ◌≢◌, refl, sym, subst, inl, inr, List, [], ◌∷◌, ◌++◌, Bool, true, false, Bool-cases,
  some, Option, none, All, ltb, ◌==◌, if◌then◌else◌, length, get_elem?, bytes_eq, arith,
}
use moqsub.Common.Result.{
  Result, ok, err, panic, stuck, Ends, Ends-bind, Ends-wrap, Result-cases, wrap, ok-injective,
}
use moqsub.Varint.{append_varint}
use moqsub.Frame.{max_frame_len, Fault, fails, blocks, fault_result, Writer, write, write_frame}
use moqsub.KeyValue.Encodes.{IsIncreasing, HasValue, encode_setup_accepts}
use moqsub.Message.{
  SubscribeMessage, encode_fields, encode_track_namespace, append_parameters, encode_subscribe,
}
use moqsub.Namespace.{track_namespace}
use moqsub.Namespace.Fields.{track_namespace-fields}
use moqsub.Registry.{TrackSubscription, Pointer}
use moqsub.Runner.{Runner}
use moqsub.Session.{Url, Streams}
use moqsub.Session.Setup.{
  root_path, client_path, setup_options, write_client_setup, after_setup, send_client_setup,
}
use moqsub.Session.Subscribe.{write_subscribe, after_subscribe, send_subscribe_message}

either-Ends : {A : Type 0} (b : Bool) (m n : Result A) → Ends m → Ends n → Ends (if b then m else n)
either-Ends true m n h k = h
either-Ends false m n h k = k

-- The call that opens a stream returns, and so does a write on the stream.
abbrev pub Answers : Result Writer → Type 0
Answers (ok w) = w.fault ≢ some blocks
Answers (err e) = Unit {0}
Answers panic = ⊥
Answers stuck = ⊥

Answers-Ends : (m : Result Writer) → Answers m → Ends m
Answers-Ends (ok w) h = tt
Answers-Ends (err e) h = tt
Answers-Ends panic h = h
Answers-Ends stuck h = h

fault-Ends :
    (w : Writer) (buf : List ℕ) (fault : Option Fault)
    → w.fault ≡ fault
    → fault ≢ some blocks
    → Ends (write w buf)
unfolding fault_result
fault-Ends w buf none e h = rw (Ends, e) tt
fault-Ends w buf (some (fails x)) e h = rw (Ends, e) tt
fault-Ends w buf (some blocks) e h = absurd (h refl)

write_frame-Ends :
    (w : Writer) (t : ℕ) (p : List ℕ) → w.fault ≢ some blocks → Ends (write_frame w t p)
unfolding write_frame
write_frame-Ends w t p h = elim (Bool-cases (ltb max_frame_len (length p))) [
  | inl e ↦ rw e tt
  | inr e ↦ rw e (fault-Ends w _ w.fault refl h)
]

encode_fields-Ends : (b : List ℕ) (full : ℕ) (fs : List (List ℕ)) → Ends (encode_fields b full fs)
unfolding encode_fields
encode_fields-Ends b full [] = either-Ends (ltb 4096 full) _ _ tt tt
encode_fields-Ends b full (f ∷ fs) =
    either-Ends (length f == 0) _ _ tt
      (encode_fields-Ends (append_varint b (length f) ++ f) (full + length f) fs)

append_parameters-Ends : (payload raw : List ℕ) → raw ≡ [] → Ends (append_parameters payload raw)
unfolding append_parameters
append_parameters-Ends payload raw e = rw e tt

encode_subscribe-Ends : (m : SubscribeMessage) → m.parameters_raw ≡ [] → Ends (encode_subscribe m)
unfolding encode_subscribe encode_track_namespace
encode_subscribe-Ends m none_given =
    Ends-bind (encode_track_namespace m.track_namespace) _
      (either-Ends (ltb 32 (length m.track_namespace)) _ _ tt
        (encode_fields-Ends _ 0 m.track_namespace))
      (λ ns _. append_parameters-Ends _ m.parameters_raw none_given)

opened_stream :
    (opened : Result Writer) (stream : Writer)
    → Answers opened
    → wrap "open request stream: %w" [] opened ≡ ok stream
    → stream.fault ≢ some blocks
opened_stream (ok w) stream h e = subst (λ (s : Writer). s.fault ≢ some blocks) (ok-injective e) h
opened_stream (err x) stream h e = cc
opened_stream panic stream h e = cc
opened_stream stuck stream h e = cc

write_subscribe-Ends :
    (opened : Result Writer) (namespace : List ℕ) (sub : TrackSubscription)
    → Answers opened
    → Ends (write_subscribe opened namespace sub)
unfolding write_subscribe
write_subscribe-Ends opened namespace sub h =
    Ends-bind (track_namespace namespace) _
      (subst Ends (sym (track_namespace-fields namespace).0) tt)
      (λ ns _.
        Ends-bind _ _ (Ends-wrap "encode subscribe: %w" [] _ (encode_subscribe-Ends _ refl))
          (λ payload _.
            Ends-bind _ _ (Ends-wrap "open request stream: %w" [] opened (Answers-Ends opened h))
              (λ stream e.
                Ends-wrap "write subscribe: %w" [] _
                  (write_frame-Ends stream _ payload (opened_stream opened stream h e)))))

setup_options-accepted :
    (path authority : List ℕ)
    → IsIncreasing (setup_options path authority) × All HasValue (setup_options path authority)
unfolding setup_options
setup_options-accepted path authority = elim (Bool-cases (bytes_eq path root_path)) [
  | inl e ↦ rw e ((omega arith, tt), (inl refl, (inl refl, tt)))
  | inr e ↦ rw e ((omega arith, (omega arith, tt)), (inl refl, (inl refl, (inl refl, tt))))
]

write_client_setup-Ends :
    (stream : Writer) (path authority : List ℕ)
    → stream.fault ≢ some blocks
    → Ends (write_client_setup stream path authority)
unfolding write_client_setup
write_client_setup-Ends stream path authority h =
    let (payload, e) =
      (encode_setup_accepts (record { options = setup_options path authority })).1
        (setup_options-accepted path authority) in
    Ends-bind _ _ (Ends-wrap "encode setup: %w" [] _ (subst Ends (sym e) tt))
      (λ bytes _. Ends-wrap "write setup frame: %w" [] _ (write_frame-Ends stream _ bytes h))

module _ {W : Type 0} (net : Streams) where
  after_subscribe-Ends :
      (sub : TrackSubscription) (m : Result Writer) (r : Runner W)
      → Ends m
      → Ends (after_subscribe net sub m r).1
  unfolding after_subscribe
  after_subscribe-Ends sub (ok w) r h = tt
  after_subscribe-Ends sub (err e) r h = tt
  after_subscribe-Ends sub panic r h = h
  after_subscribe-Ends sub stuck r h = h

  pub send_subscribe_message-Ends :
      (p : Pointer) (r : Runner W) (sub : TrackSubscription)
      → get_elem? r.subs.heap p ≡ some sub
      → Answers (net.open_request (length r.sent))
      → Ends (send_subscribe_message net p r).1
  unfolding send_subscribe_message
  send_subscribe_message-Ends p r sub at h =
      rw (Ends, at)
        (after_subscribe-Ends sub _ r
          (write_subscribe-Ends (net.open_request (length r.sent)) r.namespace sub h))

  after_setup-Ends :
      (path authority : List ℕ) (stream : Writer) (m : Result Writer) (r : Runner W)
      → Ends m
      → Ends (after_setup net path authority stream m r).1
  unfolding after_setup
  after_setup-Ends path authority stream (ok w) r h = tt
  after_setup-Ends path authority stream (err e) r h = tt
  after_setup-Ends path authority stream panic r h = h
  after_setup-Ends path authority stream stuck r h = h

  pub send_client_setup-Ends :
      (url : Url) (r : Runner W) → Answers net.open_control → Ends (send_client_setup net url r).1
  unfolding send_client_setup
  send_client_setup-Ends url r h = elim (Result-cases net.open_control) [
    | inl (stream, e) ↦
        rw (Ends, e)
          (after_setup-Ends (client_path url) url.host stream _ r
            (write_client_setup-Ends stream (client_path url) url.host (subst Answers e h)))
    | inr (inl (x, e)) ↦ rw (Ends, e) tt
    | inr (inr (inl e)) ↦ absurd (subst Answers e h)
    | inr (inr (inr e)) ↦ absurd (subst Answers e h)
  ]
