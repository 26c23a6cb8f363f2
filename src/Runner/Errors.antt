-- ===== src/Runner/Errors.antt =====
-- The error loop of `Run`.
use moqsub.Common.{
  ◌+◌, ◌%◌, ◌^◌, ◌<◌, ◌≡◌, refl, inl, inr, List, [], ◌∷◌, ◌++◌, true, false, Bool-cases, none, some,
  if◌then◌else◌, arith, length, All,
}
use moqsub.Common.Result.{Error}
use moqsub.Runner.{Runner, add_uint64}
use moqsub.Runner.Control.{is_canceled, is_stream_error, run_loop}

-- `Run` goes on behind the reset of a stream and counts it, and the first error of another kind ends it:
-- without an error where it says that the context was canceled, else with that error.
pub run_loop_first_error :
    {W : Type 0} (resets : List Error) (e : Error) (more : List Error) (r : Runner W)
    → All (λ x. (is_canceled x ≡ false) × (is_stream_error x ≡ true)) resets
    → is_stream_error e ≡ false
    → r.stats.stream_resets < 2 ^ 64
    → ((run_loop (resets ++ e ∷ more) r).0 ≡ (if is_canceled e then none else some e))
      × ((run_loop (resets ++ e ∷ more) r).1.stats.stream_resets
          ≡ (r.stats.stream_resets + length resets) % 2 ^ 64)
unfolding run_loop
run_loop_first_error [] e more r h other small = elim (Bool-cases (is_canceled e)) [
  | inl c ↦ rw c (refl, omega arith)
  | inr c ↦ rw (c, other) (refl, omega arith)
]
run_loop_first_error (x ∷ resets) e more r h other small =
    let st = record (r.stats) { stream_resets = add_uint64 r.stats.stream_resets 1 } in
    let (result, count) =
      run_loop_first_error resets e more (record r { stats = st }) h.1 other (omega arith) in
    rw (h.0.0, h.0.1) (result, omega (arith, count))
