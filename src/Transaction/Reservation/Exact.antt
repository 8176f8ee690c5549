-- ===== src/Transaction/Reservation/Exact.antt =====
-- The tables of src/execution_transaction/reservation.rs against sums over the plan, partition by
-- partition.
use native.Mathlib.Nat.{add_assoc, add-zero, zero-add}
use faber_runtime.Base.{
  ℕ, ◌+◌, ◌≡◌, refl, sym, ap, ◌∙◌, inl, inr, Bool-cases, none, some, List, [], ◌∷◌, All, arith,
  if◌then◌else◌,
}
use faber_runtime.Base.Word.{u64}
use faber_runtime.Base.Key.{same, same→eq, text_key}
use faber_runtime.Base.Map.{
  Map, Set, lookup, keys, lookup-insert, contains, any_same, any_same-keys, All-insert,
}
use faber_runtime.BoundPlan.{LogicalPartitionId}
use faber_runtime.Transaction.Mirror.{
  TransactionOperation, launch, transfer, collective_broadcast, barrier,
}
use faber_runtime.Transaction.Operation.{partitions}
use faber_runtime.Transaction.Reservation.{
  event_object_bytes, transaction_scratch_bytes_per_partition, ReservationRecord, amount, bump,
  bump_each, bump_others, Tables, charge, charge_staging, charge_outputs, charge_events, record_of,
  collect_records, derive_reservation,
}

-- `n` bytes for each time that the partition stands in the list.
abbrev pub tally : LogicalPartitionId → List LogicalPartitionId → ℕ → ℕ
tally j [] n = 0
tally j (p ∷ ps) n = (if same p j then n else 0) + tally j ps n

abbrev pub tally_others : LogicalPartitionId → LogicalPartitionId → List LogicalPartitionId → ℕ → ℕ
tally_others j source [] n = 0
tally_others j source (p ∷ ps) n =
    (if same p source then 0 else if same p j then n else 0) + tally_others j source ps n

-- What one operation takes of a partition, without a bound.
abbrev pub staging_of : LogicalPartitionId → TransactionOperation → ℕ
staging_of j (launch p r n) = 0
staging_of j (transfer t) = tally j (t.source ∷ t.destination ∷ []) t.byte_count
staging_of j (collective_broadcast b) = tally j (keys b.participants) b.byte_count
staging_of j (barrier r ps) = 0

abbrev pub output_of : LogicalPartitionId → TransactionOperation → ℕ
output_of j (launch p r n) = tally j (p ∷ []) n
output_of j (transfer t) = tally j (t.destination ∷ []) t.byte_count
output_of j (collective_broadcast b) = tally_others j b.source (keys b.participants) b.byte_count
output_of j (barrier r ps) = 0

abbrev pub events_of : LogicalPartitionId → TransactionOperation → ℕ
events_of j op = tally j (keys (partitions op)) event_object_bytes

abbrev pub total : (TransactionOperation → ℕ) → List TransactionOperation → ℕ
total f [] = 0
total f (op ∷ ops) = f op + total f ops

bump_lem :
    (j p : LogicalPartitionId) (n k : ℕ) (m : Map LogicalPartitionId ℕ)
    → amount j m ≡ u64 k
    → amount j (bump p n m) ≡ u64 (k + (if same p j then n else 0))
unfolding bump
bump_lem j p n k m e = ground (arith, lookup-insert p j (u64 (amount p m + n)) m, same→eq p j)

bump_each_lem :
    (j : LogicalPartitionId) (ps : List LogicalPartitionId) (n k : ℕ) (m : Map LogicalPartitionId ℕ)
    → amount j m ≡ u64 k
    → amount j (bump_each ps n m) ≡ u64 (k + tally j ps n)
unfolding bump_each
bump_each_lem j [] n k m e = ground arith
bump_each_lem j (p ∷ ps) n k m e =
    bump_each_lem j ps n (k + (if same p j then n else 0)) (bump p n m) (bump_lem j p n k m e)
    ∙ ap u64 (add_assoc k (if same p j then n else 0) (tally j ps n))

bump_others_lem :
    (j source : LogicalPartitionId) (ps : List LogicalPartitionId) (n k : ℕ)
    (m : Map LogicalPartitionId ℕ)
    → amount j m ≡ u64 k
    → amount j (bump_others source ps n m) ≡ u64 (k + tally_others j source ps n)
unfolding bump_others
bump_others_lem j source [] n k m e = ground arith
bump_others_lem j source (p ∷ ps) n k m e =
    let here : ℕ = if same p source then 0 else if same p j then n else 0 in
    bump_others_lem j source ps n (k + here) (if same p source then m else bump p n m)
      (elim (Bool-cases (same p source)) [
        | inl own ↦ rw own (e ∙ ap u64 (sym (add-zero k)))
        | inr other ↦ rw other (bump_lem j p n k m e)
      ])
    ∙ ap u64 (add_assoc k here (tally_others j source ps n))

charge_staging_lem :
    (j : LogicalPartitionId) (op : TransactionOperation) (k : ℕ) (m : Map LogicalPartitionId ℕ)
    → amount j m ≡ u64 k
    → amount j (charge_staging op m) ≡ u64 (k + staging_of j op)
unfolding charge_staging
charge_staging_lem j (launch p r n) k m e = e ∙ ap u64 (sym (add-zero k))
charge_staging_lem j (transfer t) k m e =
    unfold bump_each in bump_each_lem j (t.source ∷ t.destination ∷ []) t.byte_count k m e
charge_staging_lem j (collective_broadcast b) k m e =
    bump_each_lem j (keys b.participants) b.byte_count k m e
charge_staging_lem j (barrier r ps) k m e = e ∙ ap u64 (sym (add-zero k))

charge_outputs_lem :
    (j : LogicalPartitionId) (op : TransactionOperation) (k : ℕ) (m : Map LogicalPartitionId ℕ)
    → amount j m ≡ u64 k
    → amount j (charge_outputs op m) ≡ u64 (k + output_of j op)
unfolding charge_outputs
charge_outputs_lem j (launch p r n) k m e = unfold bump_each in bump_each_lem j (p ∷ []) n k m e
charge_outputs_lem j (transfer t) k m e =
    unfold bump_each in bump_each_lem j (t.destination ∷ []) t.byte_count k m e
charge_outputs_lem j (collective_broadcast b) k m e =
    bump_others_lem j b.source (keys b.participants) b.byte_count k m e
charge_outputs_lem j (barrier r ps) k m e = e ∙ ap u64 (sym (add-zero k))

-- The tables hold, for the partition, sums that begin at these three numbers.
record Holds (j : LogicalPartitionId) (s o v : ℕ) (t : Tables) : Type 0 where
  staged : amount j t.staging ≡ u64 s
  output : amount j t.outputs ≡ u64 o
  event : amount j t.events ≡ u64 v

charge_lem :
    (j : LogicalPartitionId) (ops : List TransactionOperation) (s o v : ℕ) (t : Tables)
    → Holds j s o v t
    → Holds j
        (s + total (staging_of j) ops)
        (o + total (output_of j) ops)
        (v + total (events_of j) ops)
        (charge ops t)
unfolding charge
charge_lem j [] s o v t h = rw (add-zero s, add-zero o, add-zero v) h
charge_lem j (op ∷ ops) s o v t h =
    rw
      (
        ← add_assoc s (staging_of j op) (total (staging_of j) ops),
        ← add_assoc o (output_of j op) (total (output_of j) ops),
        ← add_assoc v (events_of j op) (total (events_of j) ops),
      )
      (charge_lem j ops (s + staging_of j op) (o + output_of j op) (v + events_of j op) _ (record {
        staged = charge_staging_lem j op s t.staging h.staged;
        output = charge_outputs_lem j op o t.outputs h.output;
        event =
            unfold charge_events in
            bump_each_lem j (keys (partitions op)) event_object_bytes v t.events h.event;
      }))

lookup-collect_records :
    (t : Tables) (j : LogicalPartitionId) (ps : List LogicalPartitionId)
    → lookup j (collect_records t ps) ≡ (if any_same j ps then some (record_of t j) else none)
unfolding collect_records lookup any_same
lookup-collect_records t j [] = refl
lookup-collect_records t j (p ∷ ps) = ground (
  arith,
  lookup-insert p j (record_of t p) (collect_records t ps),
  lookup-collect_records t j ps,
  same→eq p j,
)

-- The reservation that a plan asks of a partition: the sums over all its operations, cut to 64
-- bits.
abbrev pub exact_record : List TransactionOperation → LogicalPartitionId → ReservationRecord
exact_record ops j = record {
  transfer_staging_bytes = u64 (total (staging_of j) ops);
  output_buffer_bytes = u64 (total (output_of j) ops);
  event_bytes = u64 (total (events_of j) ops);
  transaction_scratch_bytes = transaction_scratch_bytes_per_partition;
}

record_of_lem :
    (ops : List TransactionOperation) (t : Tables) (j : LogicalPartitionId)
    → Holds j
        (0 + total (staging_of j) ops)
        (0 + total (output_of j) ops)
        (0 + total (events_of j) ops)
        t
    → record_of t j ≡ exact_record ops j
unfolding record_of
record_of_lem ops t j h = rw (h.staged, h.output, h.event) (simp zero-add)

-- The derived reservation holds exactly the referenced partitions, each with the sums over all
-- the operations of the plan, cut to 64 bits, and with the fixed scratch.
pub derive_reservation_lem :
    (ops : List TransactionOperation) (referenced : Set LogicalPartitionId) (j : LogicalPartitionId)
    → lookup j (derive_reservation ops referenced)
      ≡ (if contains j referenced then some (exact_record ops j) else none)
unfolding derive_reservation lookup
derive_reservation_lem ops referenced j =
    let start : Tables = record { staging = []; outputs = []; events = [] } in
    let h = charge_lem j ops 0 0 0 start (record { staged = refl; output = refl; event = refl }) in
    rw (
      lookup-collect_records (charge ops start) j (keys referenced),
      any_same-keys,
      record_of_lem ops (charge ops start) j h,
    )

All-collect_records :
    (P : LogicalPartitionId → Type 0) (t : Tables) (ps : List LogicalPartitionId)
    → All P ps
    → All P (keys (collect_records t ps))
unfolding collect_records
All-collect_records P t [] h = tt
All-collect_records P t (p ∷ ps) h =
    All-insert P p (record_of t p) (collect_records t ps) h.0 (All-collect_records P t ps h.1)

-- Every entry of the derived reservation is one of a referenced partition.
pub derive_reservation-All :
    (P : LogicalPartitionId → Type 0) (ops : List TransactionOperation)
    (referenced : Set LogicalPartitionId)
    → All P (keys referenced)
    → All P (keys (derive_reservation ops referenced))
unfolding derive_reservation
derive_reservation-All P ops referenced h = All-collect_records P _ (keys referenced) h
