-- ===== src/Transaction/Finish/Undone.antt =====
-- Which partitions `commit` and `abort` of src/execution_transaction/transaction.rs retire and
-- release.
use faber_runtime.Base.{
  ℕ, zero, suc, ◌≡◌, refl, sym, ◌∙◌, ◌↔◌, inl, inr, Bool, true, false, not, ◌&&◌, Option, none,
  some, List, [], ◌∷◌, map, get_elem?, Bool-cases, both_true, arith,
}
use faber_runtime.Base.Steps.{Steps}
use faber_runtime.Base.Key.{same, same→eq, same_refl, text_key}
use faber_runtime.Base.Map.{
  Map, Set, keys, values, contains, contains_key, of_list, any_same, any_same-keys,
  any_same-map_keys, contains-of_list,
}
use faber_runtime.BoundPlan.{LogicalPartitionId}
use faber_runtime.Transaction.Mirror.{StagedWrite}
use faber_runtime.Transaction.Reservation.{ReservationRecord}
use faber_runtime.Transaction.State.{TransactionFailure}
use faber_runtime.Transaction.Backend.{DeviceExecutionBackend}
use faber_runtime.Transaction.Plan.{ExecutionTransaction}
use faber_runtime.Transaction.Coordinator.{difference, reserved_partitions}
use faber_runtime.Transaction.Finish.{release_all, retire_all, staged_partitions}

module _ {S : Type 0} (b : DeviceExecutionBackend S) where
  abbrev pub IsReleased : LogicalPartitionId → S → S → Type 0
  IsReleased p s s' = s' ≡ b.release p s

  abbrev pub IsRetired : TransactionFailure → LogicalPartitionId → S → S → Type 0
  IsRetired f p s s' = s' ≡ b.retire p f s

  pub release_all-Steps :
      (ps : List LogicalPartitionId) (s : S) → Steps IsReleased ps s (release_all b ps s)
  unfolding release_all
  release_all-Steps [] s = refl
  release_all-Steps (p ∷ ps) s = (b.release p s, refl, release_all-Steps ps (b.release p s))

  pub retire_all-Steps :
      (ps : List LogicalPartitionId) (f : TransactionFailure) (s : S)
      → Steps (IsRetired f) ps s (retire_all b ps f s)
  unfolding retire_all
  retire_all-Steps [] f s = refl
  retire_all-Steps (p ∷ ps) f s = (b.retire p f s, refl, retire_all-Steps ps f (b.retire p f s))

-- Some write of the list is to the partition.
abbrev pub WritesTo : List StagedWrite → LogicalPartitionId → Type 0
WritesTo ws p = (i : ℕ) × (w : StagedWrite) × (get_elem? ws i ≡ some w) × (w.partition ≡ p)

any_same-WritesTo :
    (ws : List StagedWrite) (p : LogicalPartitionId)
    → any_same p (map (λ w. w.partition) ws) ≡ true
    → WritesTo ws p
unfolding any_same
any_same-WritesTo [] p h = absurd (cc)
any_same-WritesTo (w ∷ ws) p h = elim (Bool-cases (same w.partition p)) [
  | inl e ↦ (0, w, refl, same→eq w.partition p e)
  | inr n ↦ let (i, x, found, at) = any_same-WritesTo ws p (ground arith) in (suc i, x, found, at)
]

WritesTo-any_same :
    (ws : List StagedWrite) (p : LogicalPartitionId)
    → WritesTo ws p
    → any_same p (map (λ w. w.partition) ws) ≡ true
unfolding any_same
WritesTo-any_same [] p (i, w, e, at) = absurd (cc)
WritesTo-any_same (x ∷ ws) p (zero, w, e, at) = ground (arith, same_refl p)
WritesTo-any_same (x ∷ ws) p (suc i, w, e, at) =
    ground (arith, WritesTo-any_same ws p (i, w, e, at))

any_same-difference :
    (ps : List LogicalPartitionId) (s : Set LogicalPartitionId) (p : LogicalPartitionId)
    → any_same p (difference ps s) ≡ (any_same p ps && not (contains p s))
unfolding any_same
any_same-difference [] s p = refl
any_same-difference (q ∷ ps) s p = ground (arith, any_same-difference ps s p, same→eq q p)

none_is_not_some :
    {m : Map LogicalPartitionId ReservationRecord}
    → ◌≡◌ {A = Option (Map LogicalPartitionId ReservationRecord)} none (some m)
    → ⊥
none_is_not_some e = cc

held_lem :
    (o : Option (Map LogicalPartitionId ReservationRecord)) (p : LogicalPartitionId)
    → (any_same p
          (keys (elim o as (λ x. Set LogicalPartitionId) [ none ↦ [] | some m ↦ of_list (keys m) ]))
        ≡ true)
      ↔ ((m : Map LogicalPartitionId ReservationRecord) × (o ≡ some m) × (contains_key p m ≡ true))
unfolding any_same
held_lem none p = (λ h. absurd (cc), λ h. absurd (none_is_not_some h.1))
held_lem (some m) p =
    let e =
      any_same-keys p (of_list (keys m)) ∙ contains-of_list (keys m) p ∙ any_same-map_keys p m in
    (λ h. (m, refl, sym e ∙ h), λ h. ground (arith, e, h.1, h.2))

not_both : (c : Bool) → c ≡ true → not c ≡ true → ⊥
not_both c h k = ground arith

outside : (c : Bool) → ¬ (c ≡ true) → c ≡ false
outside c h = ground arith

module _ {TR : Type 0} where
  -- A write to the partition is staged.
  abbrev pub HasStagedIn : ExecutionTransaction TR → LogicalPartitionId → Type 0
  HasStagedIn t p = WritesTo (values t.staged_write_set) p

  -- The partition is in the reservation that is held.
  abbrev pub HasReserved : ExecutionTransaction TR → LogicalPartitionId → Type 0
  HasReserved t p =
      (m : Map LogicalPartitionId ReservationRecord) × (t.reservation ≡ some m)
      × (contains_key p m ≡ true)

  contains-staged_partitions :
      (t : ExecutionTransaction TR) (p : LogicalPartitionId)
      → contains p (staged_partitions t)
        ≡ any_same p (map (λ w. w.partition) (values t.staged_write_set))
  unfolding staged_partitions
  contains-staged_partitions t p =
      contains-of_list (map (λ w. w.partition) (values t.staged_write_set)) p

  pub staged_partitions_lem :
      (t : ExecutionTransaction TR) (p : LogicalPartitionId)
      → (any_same p (keys (staged_partitions t)) ≡ true) ↔ HasStagedIn t p
  staged_partitions_lem t p =
      let e = any_same-keys p (staged_partitions t) ∙ contains-staged_partitions t p in
      (
        λ h. any_same-WritesTo (values t.staged_write_set) p (sym e ∙ h),
        λ h. e ∙ WritesTo-any_same (values t.staged_write_set) p h,
      )

  pub reserved_partitions_lem :
      (t : ExecutionTransaction TR) (p : LogicalPartitionId)
      → (any_same p (keys (reserved_partitions t)) ≡ true) ↔ HasReserved t p
  unfolding reserved_partitions
  reserved_partitions_lem t p = held_lem t.reservation p

  -- What an abort releases: what is reserved and has no staged write.
  pub difference_lem :
      (t : ExecutionTransaction TR) (p : LogicalPartitionId)
      → (any_same p (difference (keys (reserved_partitions t)) (staged_partitions t)) ≡ true)
        ↔ (HasReserved t p × ¬ HasStagedIn t p)
  difference_lem t p =
      let parts = any_same-difference (keys (reserved_partitions t)) (staged_partitions t) p in
      let staged = any_same-keys p (staged_partitions t) in
      let (to_staged, from_staged) = staged_partitions_lem t p in
      let (to_held, from_held) = reserved_partitions_lem t p in
      (
        λ h.
            let (held, free) =
              both_true (any_same p (keys (reserved_partitions t)))
                (not (contains p (staged_partitions t))) (sym parts ∙ h) in
            (
              to_held held,
              λ w. not_both (contains p (staged_partitions t)) (sym staged ∙ from_staged w) free,
            ),
        λ h.
            parts
            ∙ rw (
              from_held h.0,
              outside (contains p (staged_partitions t)) (λ c. h.1 (to_staged (staged ∙ c))),
            ),
      )
