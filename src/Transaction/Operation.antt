-- ===== src/Transaction/Operation.antt =====
-- src/execution_transaction/mirror.rs: the order of references and events, and the methods of one
-- operation of the accepted plan.
use Prim.Native.Nat.Ordering.{eq}
use faber_runtime.Base.{
  ℕ, ◌*◌, ◌-◌, List, [], ◌∷◌, ◌++◌, arith, Ordering, compare, length, if◌then◌else◌, ◌≡◌, map,
}
use faber_runtime.Base.Word.{u64}
use faber_runtime.Base.Key.{
  Key, Text, text, same, then_with, cmp_text, cmp_text_refl, eq_of_cmp_text, text_key, nat_refl,
}
use faber_runtime.Base.Map.{Set, of_list, keys}
use faber_runtime.BoundPlan.{LogicalPartitionId}
use faber_runtime.Transaction.Mirror.{
  OperationRef, launch_op, transfer_op, collective_op, barrier_op, BoundaryRef, barrier_bound,
  launch_bound, OperationEvent, launch_completed, transfer_completed, broadcast_completed,
  barrier_completed, StagedWrite, TransactionOperation, launch, transfer, collective_broadcast,
  barrier, CollectiveBroadcastMirror,
}

-- The derived order of a reference: by constructor, then by text.
abbrev ref_tag : OperationRef → ℕ
ref_tag (launch_op r) = 0
ref_tag (transfer_op r) = 1
ref_tag (collective_op r) = 2
ref_tag (barrier_op r) = 3

abbrev ref_text : OperationRef → Text
ref_text (launch_op r) = r
ref_text (transfer_op r) = r
ref_text (collective_op r) = r
ref_text (barrier_op r) = r

abbrev pub cmp_ref : OperationRef → OperationRef → Ordering
cmp_ref a b = then_with (compare (ref_tag a) (ref_tag b)) (cmp_text (ref_text a) (ref_text b))

pub cmp_ref_refl : (a : OperationRef) → cmp_ref a a ≡ eq
cmp_ref_refl a = ground (arith, nat_refl (ref_tag a), cmp_text_refl (ref_text a))

pub eq_of_cmp_ref : (a b : OperationRef) → cmp_ref a b ≡ eq → a ≡ b
eq_of_cmp_ref a b h = ground (arith, eq_of_cmp_text (ref_text a) (ref_text b))

instance abbrev pub operation_ref_key : Key OperationRef
operation_ref_key = record { cmp = cmp_ref; cmp_refl = cmp_ref_refl; eq_of_cmp = eq_of_cmp_ref }

abbrev bound_tag : BoundaryRef → ℕ
bound_tag (barrier_bound r) = 0
bound_tag (launch_bound r) = 1

abbrev bound_text : BoundaryRef → Text
bound_text (barrier_bound r) = r
bound_text (launch_bound r) = r

abbrev pub cmp_bound : BoundaryRef → BoundaryRef → Ordering
cmp_bound a b =
    then_with (compare (bound_tag a) (bound_tag b)) (cmp_text (bound_text a) (bound_text b))

pub cmp_bound_refl : (a : BoundaryRef) → cmp_bound a a ≡ eq
cmp_bound_refl a = ground (arith, nat_refl (bound_tag a), cmp_text_refl (bound_text a))

pub eq_of_cmp_bound : (a b : BoundaryRef) → cmp_bound a b ≡ eq → a ≡ b
eq_of_cmp_bound a b h = ground (arith, eq_of_cmp_text (bound_text a) (bound_text b))

instance abbrev pub boundary_ref_key : Key BoundaryRef
boundary_ref_key = record {
  cmp = cmp_bound;
  cmp_refl = cmp_bound_refl;
  eq_of_cmp = eq_of_cmp_bound;
}

abbrev event_tag : OperationEvent → ℕ
event_tag (launch_completed p r) = 0
event_tag (transfer_completed p r) = 1
event_tag (broadcast_completed p r) = 2
event_tag (barrier_completed p r) = 3

abbrev event_partition : OperationEvent → Text
event_partition (launch_completed p r) = p
event_partition (transfer_completed p r) = p
event_partition (broadcast_completed p r) = p
event_partition (barrier_completed p r) = p

abbrev event_text : OperationEvent → Text
event_text (launch_completed p r) = r
event_text (transfer_completed p r) = r
event_text (broadcast_completed p r) = r
event_text (barrier_completed p r) = r

abbrev pub cmp_event : OperationEvent → OperationEvent → Ordering
cmp_event a b = then_with (compare (event_tag a) (event_tag b)) (
    then_with (cmp_text (event_partition a) (event_partition b))
      (cmp_text (event_text a) (event_text b)))

pub cmp_event_refl : (a : OperationEvent) → cmp_event a a ≡ eq
cmp_event_refl a =
    ground (
      arith,
      nat_refl (event_tag a),
      cmp_text_refl (event_partition a),
      cmp_text_refl (event_text a),
    )

pub eq_of_cmp_event : (a b : OperationEvent) → cmp_event a b ≡ eq → a ≡ b
eq_of_cmp_event a b h = ground (
  arith,
  eq_of_cmp_text (event_partition a) (event_partition b),
  eq_of_cmp_text (event_text a) (event_text b),
)

instance abbrev pub event_key : Key OperationEvent
event_key = record { cmp = cmp_event; cmp_refl = cmp_event_refl; eq_of_cmp = eq_of_cmp_event }

unfoldable pub operation_ref : TransactionOperation → OperationRef
operation_ref (launch p r n) = launch_op r
operation_ref (transfer t) = transfer_op t.id
operation_ref (collective_broadcast b) = collective_op b.id
operation_ref (barrier r ps) = barrier_op r

unfoldable pub partitions : TransactionOperation → Set LogicalPartitionId
partitions (launch p r n) = of_list (p ∷ [])
partitions (transfer t) = of_list (t.source ∷ t.destination ∷ [])
partitions (collective_broadcast b) = b.participants
partitions (barrier r ps) = ps

-- Bytes moved across the mesh: a broadcast reaches every participant but its source.
unfoldable pub byte_count : TransactionOperation → ℕ
byte_count (launch p r n) = 0
byte_count (barrier r ps) = 0
byte_count (transfer t) = t.byte_count
byte_count (collective_broadcast b) = u64 (b.byte_count * (length b.participants - 1))

unfoldable pub completed_events : TransactionOperation → Set OperationEvent
completed_events (launch p r n) = of_list (launch_completed p r ∷ [])
completed_events (transfer t) =
    of_list (transfer_completed t.source t.id ∷ transfer_completed t.destination t.id ∷ [])
completed_events (collective_broadcast b) =
    of_list (map (λ p. broadcast_completed p b.id) (keys b.participants))
completed_events (barrier r ps) = of_list (map (λ p. barrier_completed p r) (keys ps))

-- The writes of a broadcast to the participants other than its source.
broadcast_writes : CollectiveBroadcastMirror → List LogicalPartitionId → List StagedWrite
broadcast_writes b [] = []
broadcast_writes b (p ∷ ps) =
    let rest = broadcast_writes b ps in
    if same p b.source
    then rest
    else record {
      partition = p;
      output_ref = text "broadcast:" ++ (b.id ++ (text ":" ++ p));
      byte_count = b.byte_count;
    }
      ∷ rest

unfoldable pub staged_writes : TransactionOperation → List StagedWrite
unfolding broadcast_writes
staged_writes (launch p r n) =
    record { partition = p; output_ref = text "launch:" ++ (r ++ text ":output"); byte_count = n }
    ∷ []
staged_writes (transfer t) =
    record {
      partition = t.destination;
      output_ref = text "transfer:" ++ (t.id ++ text ":destination");
      byte_count = t.byte_count;
    }
    ∷ []
staged_writes (collective_broadcast b) = broadcast_writes b (keys b.participants)
staged_writes (barrier r ps) = []
