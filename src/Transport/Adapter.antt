-- ===== src/Transport/Adapter.antt =====
-- src/transport.rs: the host-staged adapter, which copies through a pinned host buffer, and the peer
-- adapter, which never copies. A clock is an argument: the nanoseconds that a copy took beside the
-- simulated delay.
use faber_runtime.Base.{
  ℕ, ◌+◌, ◌/◌, Bool, ◌||◌, Option, none, some, List, [], ◌∷◌, ◌++◌, ltb, ◌==◌, if◌then◌else◌,
}
use faber_runtime.Base.Key.{Text, text}
use faber_runtime.Base.Result.{Result}
use faber_runtime.Base.Word.{u64, saturating_add}
use faber_runtime.BoundPlan.{LogicalPartitionId}
use faber_runtime.Transaction.Mirror.{TransferRef, TransferDirectionMirror}
use faber_runtime.Transaction.State.{Outcome, ok, err, panic}
use faber_runtime.Transport.{Duration, TransferSpec, SourceValue, slice}
use faber_runtime.Transport.Rejection.{validate_before_copy}
use faber_runtime.Transport.Rates.{
  MeasuredRates, t1, with_rate, saturating_mul, expected_copy_time_nanos,
}
use faber_runtime.Transport.Staging.{
  EngineId, EventId, StagingBufferRecord, StagingPool, empty as empty_pool, allocate, release,
}
use faber_runtime.Transport.Peer.{
  DirectedPair, PeerPairMeasurement, PeerPairRegistry, PairAdmissionError, CopyPath, host_staged,
  empty as empty_registry, admit, is_admitted,
}
use faber_runtime.Transport.Errors.{
  TransferError, rejected, timeout, failed, peer_not_admitted, peer_not_attempted, budget_exceeded,
}

pub record SelectedTransferRecord : Type 0 where
  pub transfer_ref : TransferRef
  pub copy_path : CopyPath
  pub staging : StagingBufferRecord
  pub engine : EngineId
  pub event : EventId
  pub declared_timeout : Duration
  pub bytes : ℕ
  pub elapsed_nanos : ℕ
  pub expected_nanos : ℕ
  pub direction : TransferDirectionMirror
  pub destination : LogicalPartitionId

pub record TransferOutcome : Type 0 where
  pub transfer_record : SelectedTransferRecord
  pub destination_bytes : List ℕ

pub record TransferBudget : Type 0 where
  pub bytes : ℕ
  pub time_nanos : ℕ

pub record RateObservation : Type 0 where
  pub direction : TransferDirectionMirror
  pub bytes : ℕ
  pub elapsed_nanos : ℕ
  pub measured_bytes_per_sec : ℕ

pub record HostStagedAdapter : Type 0 where
  pub declared_budget : TransferBudget
  pub used_bytes : ℕ
  pub used_time_nanos : ℕ
  pub staging_pool : StagingPool
  pub rates : MeasuredRates
  pub next_engine : ℕ
  pub next_event : ℕ
  pub records : List SelectedTransferRecord
  pub rate_observations : List RateObservation
  pub simulated_delay : Duration
  pub simulated_failure : Option Text

unfoldable pub new : TransferBudget → HostStagedAdapter
new budget = record {
  declared_budget = budget;
  used_bytes = 0;
  used_time_nanos = 0;
  staging_pool = empty_pool;
  rates = t1;
  next_engine = 0;
  next_event = 0;
  records = [];
  rate_observations = [];
  simulated_delay = 0;
  simulated_failure = none;
}

abbrev pub set_simulated_delay : HostStagedAdapter → Duration → HostStagedAdapter
set_simulated_delay a delay = record a { simulated_delay = delay }

abbrev pub set_simulated_failure : HostStagedAdapter → Option Text → HostStagedAdapter
set_simulated_failure a detail = record a { simulated_failure = detail }

unfoldable pub record_fixture_measurement :
    HostStagedAdapter → TransferDirectionMirror → ℕ → ℕ → HostStagedAdapter
record_fixture_measurement a direction bytes elapsed =
    let measured = saturating_mul bytes 1000000000 / elapsed in
    let seen : RateObservation = record {
      direction = direction;
      bytes = bytes;
      elapsed_nanos = elapsed;
      measured_bytes_per_sec = measured;
    } in
    if elapsed == 0 then a else record a {
      rate_observations = a.rate_observations ++ seen ∷ [];
      rates = with_rate a.rates direction measured;
    }

pub record TransportReceipt : Type 0 where
  pub records : List SelectedTransferRecord
  pub budget_bytes : ℕ
  pub budget_time_nanos : ℕ
  pub used_bytes : ℕ
  pub used_time_nanos : ℕ
  pub rates : MeasuredRates
  pub rate_observations : List RateObservation

unfoldable pub transport_receipt : HostStagedAdapter → TransportReceipt
transport_receipt a = record {
  records = a.records;
  budget_bytes = a.declared_budget.bytes;
  budget_time_nanos = a.declared_budget.time_nanos;
  used_bytes = a.used_bytes;
  used_time_nanos = a.used_time_nanos;
  rates = a.rates;
  rate_observations = a.rate_observations;
}

-- What a staged copy ends with: the buffer, the bytes and the time that it took.
abbrev pub StagedEnd : Type 0
StagedEnd = Outcome (StagingBufferRecord × List ℕ × Duration) TransferError

-- After the delay, over the pool that holds the buffer. A slice that panics leaves it there.
unfoldable pub move_staged :
    HostStagedAdapter
    → TransferSpec
    → StagingBufferRecord
    → StagingPool
    → ℕ
    → Option Text
    → Option (List ℕ)
    → StagedEnd × HostStagedAdapter
move_staged a spec staging pool elapsed (some detail) sliced =
    (err (failed spec.transfer_ref detail), record a { staging_pool = release pool staging.id })
move_staged a spec staging pool elapsed none none = (panic, record a { staging_pool = pool })
move_staged a spec staging pool elapsed none (some bytes) = (
  if ltb spec.timeout elapsed
      then err (timeout spec.transfer_ref spec.timeout (u64 elapsed))
      else ok (staging, bytes, elapsed),
  record a { staging_pool = release pool staging.id },
)

unfoldable pub run_staged_copy :
    HostStagedAdapter → TransferSpec → SourceValue → ℕ → ℕ → StagedEnd × HostStagedAdapter
unfolding move_staged
run_staged_copy a spec source bytes ticks =
    let (staging, pool) = allocate a.staging_pool bytes in
    let elapsed = a.simulated_delay + ticks in
    move_staged a spec staging pool elapsed a.simulated_failure (slice source spec.range)

abbrev pub CopyEnd : Type 0
CopyEnd = Outcome TransferOutcome TransferError

-- Steps 4 and 5 of a copy: the budget and the record.
unfoldable pub account :
    HostStagedAdapter
    → TransferSpec
    → LogicalPartitionId
    → ℕ
    → StagedEnd
    → CopyEnd × HostStagedAdapter
account a spec destination expected panic = (panic, a)
account a spec destination expected (err e) = (err e, a)
account a spec destination expected (ok (staging, landed, elapsed)) =
    let entry : SelectedTransferRecord = record {
      transfer_ref = spec.transfer_ref;
      copy_path = host_staged;
      staging = staging;
      engine = u64 (a.next_engine + 1);
      event = u64 (a.next_event + 1);
      declared_timeout = spec.timeout;
      bytes = spec.range.length;
      elapsed_nanos = u64 elapsed;
      expected_nanos = expected;
      direction = spec.direction;
      destination = destination;
    } in
    (
      ok (record { transfer_record = entry; destination_bytes = landed }),
      record a {
        used_bytes = saturating_add a.used_bytes spec.range.length;
        used_time_nanos = saturating_add a.used_time_nanos expected;
        next_engine = entry.engine;
        next_event = entry.event;
        records = a.records ++ entry ∷ [];
      },
    )

abbrev pub over_budget : HostStagedAdapter → ℕ → ℕ → Bool
over_budget a bytes expected =
    ltb a.declared_budget.bytes (saturating_add a.used_bytes bytes)
    || ltb a.declared_budget.time_nanos (saturating_add a.used_time_nanos expected)

-- Steps 2 to 5, once the transfer is validated.
unfoldable pub copy_validated :
    HostStagedAdapter
    → TransferSpec
    → SourceValue
    → LogicalPartitionId
    → ℕ
    → ℕ
    → CopyEnd × HostStagedAdapter
unfolding run_staged_copy account
copy_validated a spec source destination ticks expected =
    let (staged, a') = run_staged_copy a spec source spec.range.length ticks in
    let refused =
      budget_exceeded spec.transfer_ref a.declared_budget.bytes a.used_bytes spec.range.length in
    let done = account a' spec destination expected staged in
    if over_budget a spec.range.length expected then (err refused, a) else done

unfoldable pub copy :
    HostStagedAdapter
    → TransferSpec
    → SourceValue
    → LogicalPartitionId
    → ℕ
    → CopyEnd × HostStagedAdapter
unfolding copy_validated
copy a spec source destination ticks =
    let expected = expected_copy_time_nanos spec.range.length spec.direction a.rates in
    elim (validate_before_copy spec source destination) [
      | panic ↦ (panic, a)
      | err rejection ↦ (err (rejected rejection), a)
      | ok valid ↦ copy_validated a spec source destination ticks expected
    ]

pub record PeerAdapter : Type 0 where
  pub registry : PeerPairRegistry

abbrev new_peer : PeerAdapter
new_peer = record { registry = empty_registry }

abbrev admit_pair : PeerAdapter → PeerPairMeasurement → Result PeerPairRegistry PairAdmissionError
admit_pair p m = admit p.registry m

abbrev pair_admitted : PeerAdapter → DirectedPair → Bool
pair_admitted p pair = is_admitted p.registry pair

-- No byte is copied, so the adapter stays as it is.
unfoldable pub peer_copy : PeerAdapter → TransferSpec → SourceValue → LogicalPartitionId → CopyEnd
unfolding is_admitted
peer_copy p spec source destination =
    let pair : DirectedPair = (spec.source_owner, destination) in
    let detail =
      text "real peer copies require a real same-host "
      ++ (226 ∷ 137 ∷ 165 ∷ text "2-GPU topology (lane queue ")
      ++ (194 ∷ 167 ∷ text "5b); never fabricated") in
    elim (validate_before_copy spec source destination) [
      | panic ↦ panic
      | err rejection ↦ err (rejected rejection)
      | ok valid ↦
          if is_admitted p.registry pair
          then err (peer_not_attempted pair detail)
          else err (peer_not_admitted pair)
    ]
