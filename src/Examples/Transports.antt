-- ===== src/Examples/Transports.antt =====
-- src/transport.rs: copies of the host-staged adapter between two partitions.
use faber_runtime.Base.{ℕ, ◌≡◌, refl, none, some, List, [], ◌∷◌, take, drop, arith}
use faber_runtime.Base.Key.{Text, text}
use faber_runtime.Base.Map.{insert, remove, lookup}
use faber_runtime.Base.Decimal.{decimal}
use faber_runtime.Transaction.Mirror.{h2d, f32, dense}
use faber_runtime.Transaction.State.{ok, err, panic, operation}
use faber_runtime.Transport.{TransferSpec, SourceValue}
use faber_runtime.Transport.Rejection.{validate_before_copy, range_out_of_bounds}
use faber_runtime.Transport.Rates.{expected_copy_time_nanos, t1}
use faber_runtime.Transport.Staging.{allocate, release}
use faber_runtime.Transport.Peer.{is_admitted, empty}
use faber_runtime.Transport.Errors.{
  timeout, budget_exceeded, debug_duration, into_backend_error, peer_not_admitted,
}
use faber_runtime.Transport.Adapter.{
  HostStagedAdapter, new, TransferOutcome, copy, copy_validated, run_staged_copy, move_staged,
  account, record_fixture_measurement, peer_copy,
}
use faber_runtime.Transport.Copied.{IsRange, Facts}
use faber_runtime.Transport.Settled.{IsSettled, copy-IsSettled}
use faber_runtime.Transport.Succeeds.{copy_panics, copy_succeeds}
use faber_runtime.Transport.Budget.{
  Call, copy_call, delay_call, measurement_call, run, IsWithin, run-new-IsWithin,
}

abbrev decode : Text
decode = text "decode"

abbrev prefill : Text
prefill = text "prefill"

abbrev spec_of : ℕ → ℕ → TransferSpec
spec_of offset length = record {
  transfer_ref = text "kv";
  source_owner = prefill;
  destination = decode;
  range = record { offset = offset; length = length };
  direction = h2d;
  dtype = f32;
  layout = dense;
  generation = 3;
  path_label = faber_runtime.Transaction.Mirror.host_staged;
  timeout = 5000;
}

abbrev source : SourceValue
source = record {
  owner = prefill;
  dtype = f32;
  layout = dense;
  generation = 3;
  bytes = 1 ∷ 2 ∷ 3 ∷ 4 ∷ [];
}

abbrev adapter : HostStagedAdapter
adapter = record {
  declared_budget = record { bytes = 8; time_nanos = 10000 };
  used_bytes = 0;
  used_time_nanos = 0;
  staging_pool = faber_runtime.Transport.Staging.empty;
  rates = t1;
  next_engine = 0;
  next_event = 0;
  records = [];
  rate_observations = [];
  simulated_delay = 0;
  simulated_failure = none;
}

-- The expected time of two bytes is the latency.
expected_time : expected_copy_time_nanos 2 h2d t1 ≡ 1300
unfolding expected_copy_time_nanos
expected_time = refl

-- 9.8 GB take a second and the latency of a large copy.
expected_large : expected_copy_time_nanos 9800000000 h2d t1 ≡ 1000005000
unfolding expected_copy_time_nanos
expected_large = refl

beyond :
    validate_before_copy (spec_of 3 2) source decode
    ≡ err (range_out_of_bounds (text "kv") (spec_of 3 2).range 4)
unfolding validate_before_copy
beyond = refl

late : (copy adapter (spec_of 1 2) source decode 5001).0 ≡ err (timeout (text "kv") 5000 5001)
unfolding copy validate_before_copy copy_validated run_staged_copy move_staged account
    expected_copy_time_nanos allocate release insert remove take drop
late = refl

seconds : debug_duration 1500000000 ≡ text "1.5s"
unfolding debug_duration decimal
seconds = refl

millis : debug_duration 2050000 ≡ text "2.05ms"
unfolding debug_duration decimal
millis = refl

as_backend_error :
    into_backend_error (budget_exceeded (text "kv") 8 7 2) prefill
    ≡ operation prefill
        (text "transfer kv exceeds the declared transfer budget (used 7 of 8 bytes, needs 2 more)")
unfolding into_backend_error decimal
as_backend_error = refl

-- No pair is admitted.
unmeasured :
    peer_copy (record { registry = empty }) (spec_of 1 2) source decode
    ≡ err (peer_not_admitted (prefill, decode))
unfolding peer_copy validate_before_copy is_admitted lookup
unmeasured = refl

abbrev two_words : IsRange (spec_of 1 2).range
two_words = record { offset_word = omega arith; length_word = omega arith }

abbrev four_words : IsRange (spec_of 0 4).range
four_words = record { offset_word = omega arith; length_word = omega arith }

abbrev facts : Facts (spec_of 1 2) source decode
facts = record {
  same_dtype = refl;
  same_layout = refl;
  in_range = omega arith;
  same_generation = refl;
  same_owner = refl;
  same_destination = refl;
}

copy-IsSettled_example :
    IsSettled adapter (spec_of 1 2) source decode 10 (copy adapter (spec_of 1 2) source decode 10)
copy-IsSettled_example = copy-IsSettled adapter (spec_of 1 2) source decode 10 refl two_words

copy_succeeds_example :
    (o : TransferOutcome) × ((copy adapter (spec_of 1 2) source decode 10).0 ≡ ok o)
unfolding expected_copy_time_nanos
copy_succeeds_example =
    copy_succeeds adapter (spec_of 1 2) source decode 10 facts two_words (omega arith) refl refl
      (omega arith)

-- The range of two bytes that starts at the largest word ends at 1.
copy_panics_example : (copy adapter (spec_of 18446744073709551615 2) source decode 10).0 ≡ panic
unfolding expected_copy_time_nanos
copy_panics_example =
    copy_panics adapter (spec_of 18446744073709551615 2) source decode 10
      (record { offset_word = omega arith; length_word = omega arith })
      (record {
        facts = record {
          same_dtype = refl;
          same_layout = refl;
          in_range = omega arith;
          same_generation = refl;
          same_owner = refl;
          same_destination = refl;
        };
        fits = refl;
        no_failure = refl;
        wraps = omega arith;
      })

-- A copy, one that runs out of time, and one that the budget refuses.
abbrev calls : List Call
calls =
    copy_call (spec_of 1 2) source decode 10
    ∷ delay_call 6000
    ∷ copy_call (spec_of 0 4) source decode 10
    ∷ measurement_call h2d 4 100
    ∷ copy_call (spec_of 0 4) source decode 10
    ∷ []

abbrev after : HostStagedAdapter
after = elim (run (new (record { bytes = 8; time_nanos = 10000 })) calls) [
  | none ↦ adapter
  | some a ↦ a
]

run-new-IsWithin_example : IsWithin (record { bytes = 8; time_nanos = 10000 }) after
unfolding copy validate_before_copy copy_validated run_staged_copy move_staged account
    expected_copy_time_nanos allocate release insert remove take drop new record_fixture_measurement
run-new-IsWithin_example =
    run-new-IsWithin (record { bytes = 8; time_nanos = 10000 }) calls after
      (two_words, (tt, (four_words, (tt, (four_words, tt))))) refl
