-- ===== src/Transaction/Finish/Aborted.antt =====
-- What `abort` of src/execution_transaction/transaction.rs answers and undoes.
use faber_runtime.Base.{ℕ, ◌≡◌, refl, ◌∙◌, ◌≢◌, ◌↔◌, ◌||◌, true, none, some, List, [], ◌∷◌, arith}
use faber_runtime.Base.Steps.{Steps}
use faber_runtime.Base.Key.{Text, text_key}
use faber_runtime.Base.Map.{keys, add_all, contains, any_same, contains-add_all}
use faber_runtime.BoundPlan.{LogicalPartitionId}
use faber_runtime.Transaction.State.{
  TransactionFailure, cancelled_for, TransactionState, new, prepared, executing, failed, AbortError,
  TransactionDecision, TransactionReceipt, Outcome, ok,
}
use faber_runtime.Transaction.Backend.{
  DeviceExecutionBackend, FakeExecutionBackend, fake_backend, fake_release, fake_retire,
}
use faber_runtime.Transaction.Plan.{ExecutionTransaction}
use faber_runtime.Transaction.Coordinator.{difference, reserved_partitions, build_receipt}
use faber_runtime.Transaction.Finish.{
  release_all, retire_all, finish, staged_partitions, abort_live, abort_in, abort,
}
use faber_runtime.Transaction.Finish.Undone.{
  IsReleased, IsRetired, HasStagedIn, HasReserved, release_all-Steps, retire_all-Steps,
  staged_partitions_lem, difference_lem,
}

-- The failure that an abort records: the first one, or the reason of the call.
abbrev pub first_failure : TransactionState → Text → TransactionFailure
first_failure (failed f) reason = f
first_failure _ reason = cancelled_for reason

abbrev pub IsLive : TransactionState → Type 0
IsLive TransactionState.committed = ⊥
IsLive (TransactionState.aborted f) = ⊥
IsLive _ = Unit {0}

module _ {TR S : Type 0} (b : DeviceExecutionBackend S) where
  -- The backend once the staged partitions are retired and the other reserved ones released.
  abbrev pub undone : ExecutionTransaction TR → TransactionFailure → S → S
  undone t f s =
      release_all b (difference (keys (reserved_partitions t)) (staged_partitions t))
        (retire_all b (keys (staged_partitions t)) f s)

  pub record Aborted (t : ExecutionTransaction TR) (s : S) (f : TransactionFailure)
      (end : Outcome (TransactionReceipt TR) AbortError) (t' : ExecutionTransaction TR) (s' : S)
      : Type 0 where
    pub receipt : TransactionReceipt TR
    pub answers : end ≡ ok receipt
    pub kept : t'.receipt ≡ some receipt
    pub decided : receipt.decision ≡ TransactionDecision.aborted f
    pub is_aborted : t'.state ≡ TransactionState.aborted f
    pub not_published : receipt.publish_summary ≡ t.publish_summary
    pub retired : List LogicalPartitionId
    pub released : List LogicalPartitionId
    pub between : S
    pub retires : Steps (IsRetired b f) retired s between
    pub releases : Steps (IsReleased b) released between s'
    pub retired_are : (p : LogicalPartitionId) → (any_same p retired ≡ true) ↔ HasStagedIn t p
    pub released_are :
        (p : LogicalPartitionId)
        → (any_same p released ≡ true) ↔ (HasReserved t p × ¬ HasStagedIn t p)
    pub retired_noted :
        (p : LogicalPartitionId)
        → contains p receipt.teardown.retired_partitions
          ≡ (any_same p retired || contains p t.teardown.retired_partitions)
    pub released_noted :
        (p : LogicalPartitionId)
        → contains p receipt.teardown.released_partitions
          ≡ (any_same p released || contains p t.teardown.released_partitions)

  abort_live_lem :
      (f : TransactionFailure) (nanos : ℕ) (t : ExecutionTransaction TR) (s : S)
      → let (end, t', s') = abort_live b f nanos t s in Aborted t s f end t' s'
  unfolding abort_live finish build_receipt
  abort_live_lem f nanos t s = record {
    receipt = _;
    answers = refl;
    kept = refl;
    decided = refl;
    is_aborted = refl;
    not_published = refl;
    retired = keys (staged_partitions t);
    released = difference (keys (reserved_partitions t)) (staged_partitions t);
    between = retire_all b (keys (staged_partitions t)) f s;
    retires = retire_all-Steps b (keys (staged_partitions t)) f s;
    releases =
        release_all-Steps b (difference (keys (reserved_partitions t)) (staged_partitions t))
          (retire_all b (keys (staged_partitions t)) f s);
    retired_are = staged_partitions_lem t;
    released_are = difference_lem t;
    retired_noted =
        λ p. contains-add_all (keys (staged_partitions t)) p t.teardown.retired_partitions;
    released_noted = λ p.
        contains-add_all (difference (keys (reserved_partitions t)) (staged_partitions t)) p
          t.teardown.released_partitions;
  }

  abort_in_lem :
      (x : TransactionState) (reason : Text) (nanos : ℕ) (t : ExecutionTransaction TR) (s : S)
      → IsLive x
      → let (end, t', s') = abort_in b x reason nanos t s in
        Aborted t s (first_failure x reason) end t' s'
  unfolding abort_in
  abort_in_lem TransactionState.committed reason nanos t s h = absurd h
  abort_in_lem (TransactionState.aborted f) reason nanos t s h = absurd h
  abort_in_lem (failed f) reason nanos t s h = abort_live_lem f nanos t s
  abort_in_lem new reason nanos t s h = abort_live_lem (cancelled_for reason) nanos t s
  abort_in_lem prepared reason nanos t s h = abort_live_lem (cancelled_for reason) nanos t s
  abort_in_lem executing reason nanos t s h = abort_live_lem (cancelled_for reason) nanos t s

  -- An abort of a transaction that is neither committed nor aborted answers with a receipt, which
  -- is kept. The failure that it records is the first one, or the reason of the call, and the
  -- publish summary is as before. The backend has first retired exactly the partitions that a staged
  -- write is to, and then released exactly the reserved ones that none is to; nothing else was asked
  -- of it. The receipt adds just these partitions to the ones retired and released before.
  pub abort_lem :
      (reason : Text) (nanos : ℕ) (t : ExecutionTransaction TR) (s : S)
      → IsLive t.state
      → let (end, t', s') = abort b reason nanos t s in
        Aborted t s (first_failure t.state reason) end t' s'
  unfolding abort
  abort_lem reason nanos t s h = abort_in_lem t.state reason nanos t s h

  -- If an aborted transaction has its receipt: a second abort answers what the first one did, for
  -- any reason and at any time, and changes neither the transaction nor the backend.
  pub abort_again :
      (reason later : Text) (nanos n : ℕ) (t : ExecutionTransaction TR) (s : S)
      → ((f : TransactionFailure) → t.state ≡ TransactionState.aborted f → t.receipt ≢ none)
      → let (end, t', s') = abort b reason nanos t s in abort b later n t' s' ≡ (end, t', s')
  unfolding abort abort_in abort_live finish build_receipt
  abort_again reason later nanos n t s h = ground (arith, h)

pub release_all-published :
    (ps : List LogicalPartitionId) (s : FakeExecutionBackend)
    → ((release_all fake_backend ps s).published_writes ≡ s.published_writes)
      × ((release_all fake_backend ps s).published_once ≡ s.published_once)
      × ((release_all fake_backend ps s).staged_writes ≡ s.staged_writes)
unfolding release_all fake_release
release_all-published [] s = (refl, refl, refl)
release_all-published (p ∷ ps) s = release_all-published ps (fake_release p s)

retire_all-published :
    (ps : List LogicalPartitionId) (f : TransactionFailure) (s : FakeExecutionBackend)
    → ((retire_all fake_backend ps f s).published_writes ≡ s.published_writes)
      × ((retire_all fake_backend ps f s).published_once ≡ s.published_once)
unfolding retire_all fake_retire
retire_all-published [] f s = (refl, refl)
retire_all-published (p ∷ ps) f s = retire_all-published ps f (fake_retire p f s)

module _ {TR : Type 0} where
  abort_live-published :
      (f : TransactionFailure) (nanos : ℕ) (t : ExecutionTransaction TR) (s : FakeExecutionBackend)
      → let (end, t', s') = abort_live fake_backend f nanos t s in
        (s'.published_writes ≡ s.published_writes) × (s'.published_once ≡ s.published_once)
  unfolding abort_live finish build_receipt
  abort_live-published f nanos t s =
      let staged = keys (staged_partitions t) in
      let others = difference (keys (reserved_partitions t)) (staged_partitions t) in
      let (writes, once) = retire_all-published staged f s in
      let (writes', once', _) = release_all-published others (retire_all fake_backend staged f s) in
      (writes' ∙ writes, once' ∙ once)

  abort_in-published :
      (x : TransactionState) (reason : Text) (nanos : ℕ) (t : ExecutionTransaction TR)
      (s : FakeExecutionBackend)
      → let (end, t', s') = abort_in fake_backend x reason nanos t s in
        (s'.published_writes ≡ s.published_writes) × (s'.published_once ≡ s.published_once)
  unfolding abort_in
  abort_in-published TransactionState.committed reason nanos t s = (refl, refl)
  abort_in-published (TransactionState.aborted f) reason nanos t s = (refl, refl)
  abort_in-published (failed f) reason nanos t s = abort_live-published f nanos t s
  abort_in-published new reason nanos t s = abort_live-published (cancelled_for reason) nanos t s
  abort_in-published prepared reason nanos t s =
      abort_live-published (cancelled_for reason) nanos t s
  abort_in-published executing reason nanos t s =
      abort_live-published (cancelled_for reason) nanos t s

  -- With the fake backend: whatever the transaction staged, an abort publishes none of it.
  pub abort-published :
      (reason : Text) (nanos : ℕ) (t : ExecutionTransaction TR) (s : FakeExecutionBackend)
      → let (end, t', s') = abort fake_backend reason nanos t s in
        (s'.published_writes ≡ s.published_writes) × (s'.published_once ≡ s.published_once)
  unfolding abort
  abort-published reason nanos t s = abort_in-published t.state reason nanos t s

module _ {TR S : Type 0} (b : DeviceExecutionBackend S) where
  undone_nothing :
      (f : TransactionFailure) (t : ExecutionTransaction TR) (s : S)
      → t.reservation ≡ none
      → t.staged_write_set ≡ []
      → undone b t f s ≡ s
  unfolding reserved_partitions staged_partitions release_all retire_all add_all
  undone_nothing f t s nothing_reserved nothing_staged = rw (nothing_reserved, nothing_staged) refl

  abort_in_untouched :
      (x : TransactionState) (reason : Text) (nanos : ℕ) (t : ExecutionTransaction TR) (s : S)
      → t.reservation ≡ none
      → t.staged_write_set ≡ []
      → (abort_in b x reason nanos t s).2 ≡ s
  unfolding abort_in abort_live finish build_receipt
  abort_in_untouched TransactionState.committed reason nanos t s h k = refl
  abort_in_untouched (TransactionState.aborted f) reason nanos t s h k = refl
  abort_in_untouched (failed f) reason nanos t s h k = undone_nothing f t s h k
  abort_in_untouched new reason nanos t s h k = undone_nothing (cancelled_for reason) t s h k
  abort_in_untouched prepared reason nanos t s h k = undone_nothing (cancelled_for reason) t s h k
  abort_in_untouched executing reason nanos t s h k = undone_nothing (cancelled_for reason) t s h k

  -- An abort that has nothing reserved and nothing staged on record asks nothing of the backend.
  pub abort_untouched :
      (reason : Text) (nanos : ℕ) (t : ExecutionTransaction TR) (s : S)
      → t.reservation ≡ none
      → t.staged_write_set ≡ []
      → (abort b reason nanos t s).2 ≡ s
  unfolding abort
  abort_untouched reason nanos t s h k = abort_in_untouched t.state reason nanos t s h k
