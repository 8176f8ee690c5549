-- ===== src/Transaction/Mirror/Encoding.antt =====
-- The canonical bytes of src/execution_transaction/mirror.rs: different operations have different
-- bytes.
use mathlib.Core.List.{append_assoc}
use faber_runtime.Base.{ℕ, ◌≡◌, refl, sym, ap, ◌∙◌, List, ◌∷◌, ◌++◌}
use faber_runtime.Base.Key.{Text}
use faber_runtime.Base.Map.{Set}
use faber_runtime.Bytes.Reading.{
  u64_bytes, str_bytes, Short, push_u64_lem, push_str_lem, push_strs_lem, cons_inv,
}
use faber_runtime.Bytes.Reads.{
  IsReadable, then_bytes, Both, then_bytes-IsReadable, IsReadable-through, IsWord,
  u64_bytes-IsReadable, str_bytes-IsReadable, set_bytes, IsShortSet, set_bytes-IsReadable,
}
use faber_runtime.Transaction.Mirror.{
  TransferDirectionMirror, direction_tag, MirroredDtype, dtype_tag, MirroredStorageLayout,
  layout_tag, TransportPathMirror, path_tag, TransactionCommitBoundary, boundary_bytes,
  TransferOperationMirror, transfer_bytes, CollectiveBroadcastMirror, broadcast_bytes,
  TransactionOperation, launch, transfer, collective_broadcast, barrier, operation_bytes,
}
use faber_runtime.Transaction.Mirror.Tags.{
  direction-IsReadable, dtype-IsReadable, layout-IsReadable, path-IsReadable,
}

-- The boundary: two sets.
abbrev boundary_parts : TransactionCommitBoundary → Set Text × Set Text
boundary_parts b = (b.barriers, b.launches)

boundary_bytes_lem :
    (b : TransactionCommitBoundary)
    → boundary_bytes b ≡ then_bytes set_bytes set_bytes (boundary_parts b)
unfolding boundary_bytes
boundary_bytes_lem b = simp (push_strs_lem, push_u64_lem, append_assoc)

-- A transfer: its fields in their order.
abbrev transfer_parts :
    TransferOperationMirror
    → Text
      × (Text
          × (Text
              × (ℕ
                  × (TransferDirectionMirror
                      × (MirroredDtype
                          × (MirroredStorageLayout
                              × (TransportPathMirror × (ℕ × (ℕ × (Set Text × Set Text))))))))))
transfer_parts t = (
  t.id,
  (
    t.source,
    (
      t.destination,
      (
        t.byte_count,
        (
          t.direction,
          (
            t.element_dtype,
            (
              t.layout,
              (
                t.path_label,
                (
                  t.producer_generation,
                  (t.consumer_generation, boundary_parts t.completion_boundary),
                ),
              ),
            ),
          ),
        ),
      ),
    ),
  ),
)

abbrev IsFree : {A : Type 0} → A → Type 0
IsFree a = Unit {0}

abbrev TransferFits : TransferOperationMirror → Type 0
TransferFits t =
    Both Short
      (Both Short (
        Both Short (
          Both IsWord (
            Both IsFree (
              Both IsFree (
                Both IsFree
                  (Both IsFree (Both IsWord (Both IsWord (Both IsShortSet IsShortSet))))))))))
      (transfer_parts t)

abbrev transfer_code : TransferOperationMirror → List ℕ
transfer_code t =
    then_bytes str_bytes
      (then_bytes str_bytes (
        then_bytes str_bytes (
          then_bytes u64_bytes (
            then_bytes (λ d. u64_bytes (direction_tag d))
              (then_bytes (λ d. u64_bytes (dtype_tag d))
                (then_bytes (λ l. u64_bytes (layout_tag l))
                  (then_bytes (λ l. u64_bytes (path_tag l))
                    (then_bytes u64_bytes
                      (then_bytes u64_bytes (then_bytes set_bytes set_bytes))))))))))
      (transfer_parts t)

transfer_code-IsReadable : IsReadable TransferFits transfer_code
transfer_code-IsReadable =
    IsReadable-through _ _ transfer_parts
      (λ p. record {
        id = p.0;
        source = p.1.0;
        destination = p.1.1.0;
        byte_count = p.1.1.1.0;
        direction = p.1.1.1.1.0;
        element_dtype = p.1.1.1.1.1.0;
        layout = p.1.1.1.1.1.1.0;
        path_label = p.1.1.1.1.1.1.1.0;
        producer_generation = p.1.1.1.1.1.1.1.1.0;
        consumer_generation = p.1.1.1.1.1.1.1.1.1.0;
        completion_boundary = record {
          barriers = p.1.1.1.1.1.1.1.1.1.1.0;
          launches = p.1.1.1.1.1.1.1.1.1.1.1;
        };
      })
      (λ t. refl)
      (then_bytes-IsReadable _ _ _ _ str_bytes-IsReadable (
        then_bytes-IsReadable _ _ _ _ str_bytes-IsReadable (
          then_bytes-IsReadable _ _ _ _ str_bytes-IsReadable (
            then_bytes-IsReadable _ _ _ _ u64_bytes-IsReadable (
              then_bytes-IsReadable _ _ _ _ direction-IsReadable (
                then_bytes-IsReadable _ _ _ _ dtype-IsReadable (
                  then_bytes-IsReadable _ _ _ _ layout-IsReadable (
                    then_bytes-IsReadable _ _ _ _ path-IsReadable (
                      then_bytes-IsReadable _ _ _ _ u64_bytes-IsReadable (
                        then_bytes-IsReadable _ _ _ _ u64_bytes-IsReadable (
                          then_bytes-IsReadable _ _ _ _ set_bytes-IsReadable
                            set_bytes-IsReadable)))))))))))

transfer_bytes_lem : (t : TransferOperationMirror) → transfer_bytes t ≡ transfer_code t
unfolding transfer_bytes
transfer_bytes_lem t = simp (push_str_lem, push_strs_lem, push_u64_lem, append_assoc)

-- A broadcast.
abbrev broadcast_parts : CollectiveBroadcastMirror → Text × (Text × (Set Text × ℕ))
broadcast_parts b = (b.id, (b.source, (b.participants, b.byte_count)))

abbrev BroadcastFits : CollectiveBroadcastMirror → Type 0
BroadcastFits b = Both Short (Both Short (Both IsShortSet IsWord)) (broadcast_parts b)

abbrev broadcast_code : CollectiveBroadcastMirror → List ℕ
broadcast_code b =
    then_bytes str_bytes (then_bytes str_bytes (then_bytes set_bytes u64_bytes)) (broadcast_parts b)

broadcast_code-IsReadable : IsReadable BroadcastFits broadcast_code
broadcast_code-IsReadable =
    IsReadable-through _ _ broadcast_parts
      (λ p. record { id = p.0; source = p.1.0; participants = p.1.1.0; byte_count = p.1.1.1 })
      (λ b. refl)
      (then_bytes-IsReadable _ _ _ _ str_bytes-IsReadable (
        then_bytes-IsReadable _ _ _ _ str_bytes-IsReadable
          (then_bytes-IsReadable _ _ _ _ set_bytes-IsReadable u64_bytes-IsReadable)))

broadcast_bytes_lem : (b : CollectiveBroadcastMirror) → broadcast_bytes b ≡ broadcast_code b
unfolding broadcast_bytes
broadcast_bytes_lem b = simp (push_str_lem, push_u64_lem, push_strs_lem, append_assoc)

launch-IsReadable :
    IsReadable
      (Both Short (Both Short IsWord))
      (then_bytes str_bytes (then_bytes str_bytes u64_bytes))
launch-IsReadable =
    then_bytes-IsReadable _ _ _ _ str_bytes-IsReadable
      (then_bytes-IsReadable _ _ _ _ str_bytes-IsReadable u64_bytes-IsReadable)

barrier-IsReadable : IsReadable (Both Short IsShortSet) (then_bytes str_bytes set_bytes)
barrier-IsReadable = then_bytes-IsReadable _ _ _ _ str_bytes-IsReadable set_bytes-IsReadable

-- The numbers of an operation are 64-bit words, and no text or set of it is longer than 64 bits can
-- say.
abbrev pub OperationFits : TransactionOperation → Type 0
OperationFits (launch p r n) = Both Short (Both Short IsWord) (p, (r, n))
OperationFits (transfer t) = TransferFits t
OperationFits (collective_broadcast b) = BroadcastFits b
OperationFits (barrier r ps) = Both Short IsShortSet (r, ps)

abbrev operation_code : TransactionOperation → List ℕ
operation_code (launch p r n) =
    0 ∷ then_bytes str_bytes (then_bytes str_bytes u64_bytes) (p, (r, n))
operation_code (transfer t) = 1 ∷ transfer_code t
operation_code (collective_broadcast b) = 2 ∷ broadcast_code b
operation_code (barrier r ps) = 3 ∷ then_bytes str_bytes set_bytes (r, ps)

operation_bytes_lem : (op : TransactionOperation) → operation_bytes op ≡ operation_code op
unfolding operation_bytes
operation_bytes_lem (launch p r n) = simp (push_str_lem, push_u64_lem, append_assoc)
operation_bytes_lem (transfer t) = ap (λ x. 1 ∷ x) (transfer_bytes_lem t)
operation_bytes_lem (collective_broadcast b) = ap (λ x. 2 ∷ x) (broadcast_bytes_lem b)
operation_bytes_lem (barrier r ps) = simp (push_str_lem, push_u64_lem, push_strs_lem, append_assoc)

operation_code_inv :
    (a b : TransactionOperation) (r s : List ℕ)
    → OperationFits a
    → OperationFits b
    → operation_code a ++ r ≡ operation_code b ++ s
    → (a ≡ b) × (r ≡ s)
operation_code_inv (launch p r n) (launch p' r' n') x y f g e =
    let (tag, body) = cons_inv 0 0 _ _ e in
    let (same_parts, rest) = launch-IsReadable (p, (r, n)) (p', (r', n')) x y f g body in
    (ap (λ (q : Text × (Text × ℕ)). launch q.0 q.1.0 q.1.1) same_parts, rest)
operation_code_inv (transfer t) (transfer t') x y f g e =
    let (tag, body) = cons_inv 1 1 _ _ e in
    let (same_transfer, rest) = transfer_code-IsReadable t t' x y f g body in
    (ap transfer same_transfer, rest)
operation_code_inv (collective_broadcast b) (collective_broadcast b') x y f g e =
    let (tag, body) = cons_inv 2 2 _ _ e in
    let (same_broadcast, rest) = broadcast_code-IsReadable b b' x y f g body in
    (ap collective_broadcast same_broadcast, rest)
operation_code_inv (barrier r ps) (barrier r' ps') x y f g e =
    let (tag, body) = cons_inv 3 3 _ _ e in
    let (same_parts, rest) = barrier-IsReadable (r, ps) (r', ps') x y f g body in
    (ap (λ (q : Text × Set Text). barrier q.0 q.1) same_parts, rest)
operation_code_inv (launch p r n) (transfer t) x y f g e = cc
operation_code_inv (launch p r n) (collective_broadcast b) x y f g e = cc
operation_code_inv (launch p r n) (barrier r' ps) x y f g e = cc
operation_code_inv (transfer t) (launch p r n) x y f g e = cc
operation_code_inv (transfer t) (collective_broadcast b) x y f g e = cc
operation_code_inv (transfer t) (barrier r ps) x y f g e = cc
operation_code_inv (collective_broadcast b) (launch p r n) x y f g e = cc
operation_code_inv (collective_broadcast b) (transfer t) x y f g e = cc
operation_code_inv (collective_broadcast b) (barrier r ps) x y f g e = cc
operation_code_inv (barrier r ps) (launch p r' n) x y f g e = cc
operation_code_inv (barrier r ps) (transfer t) x y f g e = cc
operation_code_inv (barrier r ps) (collective_broadcast b) x y f g e = cc

-- The canonical bytes of an operation, with anything after them, determine the operation, if its
-- numbers are 64-bit words and no text or set of it is longer than 64 bits can say.
pub operation_bytes_inv :
    (a b : TransactionOperation) (r s : List ℕ)
    → OperationFits a
    → OperationFits b
    → operation_bytes a ++ r ≡ operation_bytes b ++ s
    → (a ≡ b) × (r ≡ s)
operation_bytes_inv a b r s f g e =
    operation_code_inv a b r s f g (
      sym (ap (λ x. x ++ r) (operation_bytes_lem a)) ∙ e ∙ ap (λ x. x ++ s) (operation_bytes_lem b))
