-- ===== src/Transaction/Reservation.antt =====
-- src/execution_transaction/reservation.rs: the bytes that each partition reserves for a plan. The
-- additions wrap at 64 bits, as in a build without overflow checks.
pub mod Exact
use faber_runtime.Base.{ℕ, ◌+◌, Bool, Option, none, some, List, [], ◌∷◌, if◌then◌else◌}
use faber_runtime.Base.Word.{u64}
use faber_runtime.Base.Key.{Text, same, text_key}
use faber_runtime.Base.Map.{Map, Set, lookup, insert, keys}
use faber_runtime.BoundPlan.{LogicalPartitionId}
use faber_runtime.Transaction.Mirror.{
  TransactionOperation, launch, transfer, collective_broadcast, barrier, StagedWrite, OutputRef,
}
use faber_runtime.Transaction.Operation.{partitions, staged_writes}

abbrev pub event_object_bytes : ℕ
event_object_bytes = 64

abbrev pub transaction_scratch_bytes_per_partition : ℕ
transaction_scratch_bytes_per_partition = 4096

pub data BudgetClass : Type 0 where
  transfer_staging activation_scratch : BudgetClass

abbrev pub ledger_class : BudgetClass → ℕ
ledger_class transfer_staging = 6
ledger_class activation_scratch = 3

pub record ReservationRecord : Type 0 where
  pub transfer_staging_bytes : ℕ
  pub output_buffer_bytes : ℕ
  pub event_bytes : ℕ
  pub transaction_scratch_bytes : ℕ

abbrev pub class_six_bytes : ReservationRecord → ℕ
class_six_bytes r = r.transfer_staging_bytes

abbrev pub class_three_bytes : ReservationRecord → ℕ
class_three_bytes r =
    u64 (u64 (r.output_buffer_bytes + r.event_bytes) + r.transaction_scratch_bytes)

-- `get(..).copied().unwrap_or(0)`.
abbrev pub amount : LogicalPartitionId → Map LogicalPartitionId ℕ → ℕ
amount p m = elim (lookup p m) [ none ↦ 0 | some n ↦ n ]

-- `*entry(..).or_insert(0) += n`.
unfoldable pub bump : LogicalPartitionId → ℕ → Map LogicalPartitionId ℕ → Map LogicalPartitionId ℕ
bump p n m = insert p (u64 (amount p m + n)) m

unfoldable pub bump_each :
    List LogicalPartitionId → ℕ → Map LogicalPartitionId ℕ → Map LogicalPartitionId ℕ
bump_each [] n m = m
bump_each (p ∷ ps) n m = bump_each ps n (bump p n m)

-- The participants of a broadcast but its source.
unfoldable pub bump_others :
    LogicalPartitionId
    → List LogicalPartitionId
    → ℕ
    → Map LogicalPartitionId ℕ
    → Map LogicalPartitionId ℕ
bump_others source [] n m = m
bump_others source (p ∷ ps) n m = bump_others source ps n (if same p source then m else bump p n m)

-- The three tables of `derive_reservation`.
pub record Tables : Type 0 where
  pub staging : Map LogicalPartitionId ℕ
  pub outputs : Map LogicalPartitionId ℕ
  pub events : Map LogicalPartitionId ℕ

unfoldable pub charge_staging :
    TransactionOperation → Map LogicalPartitionId ℕ → Map LogicalPartitionId ℕ
charge_staging (launch p r n) m = m
charge_staging (transfer t) m = bump t.destination t.byte_count (bump t.source t.byte_count m)
charge_staging (collective_broadcast b) m = bump_each (keys b.participants) b.byte_count m
charge_staging (barrier r ps) m = m

unfoldable pub charge_outputs :
    TransactionOperation → Map LogicalPartitionId ℕ → Map LogicalPartitionId ℕ
charge_outputs (launch p r n) m = bump p n m
charge_outputs (transfer t) m = bump t.destination t.byte_count m
charge_outputs (collective_broadcast b) m =
    bump_others b.source (keys b.participants) b.byte_count m
charge_outputs (barrier r ps) m = m

unfoldable pub charge_events :
    TransactionOperation → Map LogicalPartitionId ℕ → Map LogicalPartitionId ℕ
charge_events op m = bump_each (keys (partitions op)) event_object_bytes m

-- The loop over the operations.
unfoldable pub charge : List TransactionOperation → Tables → Tables
charge [] t = t
charge (op ∷ ops) t = charge ops (record {
  staging = charge_staging op t.staging;
  outputs = charge_outputs op t.outputs;
  events = charge_events op t.events;
})

unfoldable pub record_of : Tables → LogicalPartitionId → ReservationRecord
record_of t p = record {
  transfer_staging_bytes = amount p t.staging;
  output_buffer_bytes = amount p t.outputs;
  event_bytes = amount p t.events;
  transaction_scratch_bytes = transaction_scratch_bytes_per_partition;
}

unfoldable pub collect_records :
    Tables → List LogicalPartitionId → Map LogicalPartitionId ReservationRecord
collect_records t [] = []
collect_records t (p ∷ ps) = insert p (record_of t p) (collect_records t ps)

unfoldable pub derive_reservation :
    List TransactionOperation → Set LogicalPartitionId → Map LogicalPartitionId ReservationRecord
unfolding charge charge_staging charge_outputs charge_events record_of collect_records bump
    bump_each bump_others
derive_reservation ops referenced =
    collect_records (charge ops (record { staging = []; outputs = []; events = [] }))
      (keys referenced)

unfoldable pub insert_writes :
    List StagedWrite → Map OutputRef StagedWrite → Map OutputRef StagedWrite
insert_writes [] m = m
insert_writes (w ∷ ws) m = insert_writes ws (insert w.output_ref w m)

unfoldable pub insert_all :
    List TransactionOperation → Map OutputRef StagedWrite → Map OutputRef StagedWrite
insert_all [] m = m
insert_all (op ∷ ops) m = insert_all ops (insert_writes (staged_writes op) m)

unfoldable pub derive_declared_write_set : List TransactionOperation → Map OutputRef StagedWrite
unfolding insert_all insert_writes
derive_declared_write_set ops = insert_all ops []
