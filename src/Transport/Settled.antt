-- ===== src/Transport/Settled.antt =====
-- src/transport.rs: what a copy of the host-staged adapter leaves, whichever way it ends.
use faber_runtime.Base.{
  ℕ, ◌+◌, ◌≤◌, ◌<◌, ◌≡◌, ◌⊎◌, inl, inr, refl, Bool, true, false, Option, none, some, List, [], ◌∷◌,
  ◌++◌, ltb, take, drop, Bool-cases, if◌then◌else◌, arith,
}
use faber_runtime.Base.Key.{Text}
use faber_runtime.Base.Word.{u64, u64_mod, saturating_add}
use faber_runtime.BoundPlan.{LogicalPartitionId}
use faber_runtime.Transaction.State.{Outcome-cases, ok, err, panic}
use faber_runtime.Transport.{TransferSpec, SourceValue, total_bytes, slice}
use faber_runtime.Transport.Rejection.{validate_before_copy}
use faber_runtime.Transport.Rates.{expected_copy_time_nanos}
use faber_runtime.Transport.Staging.{StagingBufferRecord, StagingPool, allocate, release}
use faber_runtime.Transport.Errors.{timeout}
use faber_runtime.Transport.Adapter.{
  HostStagedAdapter, TransferOutcome, CopyEnd, move_staged, run_staged_copy, account, over_budget,
  copy_validated, copy,
}
use faber_runtime.Transport.Copied.{
  IsRange, slice_lem, release-allocate, Facts, validate_before_copy-Facts,
  validate_before_copy_total,
}

-- An error leaves the accounts and the records, and no buffer in flight.
pub record Unmoved (a a' : HostStagedAdapter) : Type 0 where
  pub budget : a'.declared_budget ≡ a.declared_budget
  pub used : a'.used_bytes ≡ a.used_bytes
  pub used_time : a'.used_time_nanos ≡ a.used_time_nanos
  pub records : a'.records ≡ a.records
  pub idle : a'.staging_pool.active ≡ []

idle-Unmoved : (a : HostStagedAdapter) → a.staging_pool.active ≡ [] → Unmoved a a
idle-Unmoved a idle = record {
  budget = refl;
  used = refl;
  used_time = refl;
  records = refl;
  idle = idle;
}

module _ (a : HostStagedAdapter) (spec : TransferSpec) (source : SourceValue)
    (destination : LogicalPartitionId) (ticks : ℕ) where
  abbrev pub expected : ℕ
  expected = expected_copy_time_nanos spec.range.length spec.direction a.rates

  -- A copy that succeeds.
  pub record Landed (o : TransferOutcome) (a' : HostStagedAdapter) : Type 0 where
    pub facts : Facts spec source destination
    pub within : spec.range.offset + spec.range.length ≤ total_bytes source
    pub landed : o.destination_bytes ≡ take spec.range.length (drop spec.range.offset source.bytes)
    pub in_time : a.simulated_delay + ticks ≤ spec.timeout
    pub records : a'.records ≡ a.records ++ o.transfer_record ∷ []
    pub entry_bytes : o.transfer_record.bytes ≡ spec.range.length
    pub entry_time : o.transfer_record.expected_nanos ≡ expected
    pub budget : a'.declared_budget ≡ a.declared_budget
    pub used : a'.used_bytes ≡ saturating_add a.used_bytes spec.range.length
    pub used_time : a'.used_time_nanos ≡ saturating_add a.used_time_nanos expected
    pub bytes_fit : a'.used_bytes ≤ a.declared_budget.bytes
    pub time_fit : a'.used_time_nanos ≤ a.declared_budget.time_nanos
    pub idle : a'.staging_pool.active ≡ []

  -- The one way into a panic: a validated range whose end wraps.
  pub record Wrapped : Type 0 where
    pub facts : Facts spec source destination
    pub fits : over_budget a spec.range.length expected ≡ false
    pub no_failure : a.simulated_failure ≡ none
    pub wraps : u64_mod ≤ spec.range.offset + spec.range.length

  abbrev pub Settled : CopyEnd → HostStagedAdapter → Type 0
  Settled (ok o) a' = Landed o a'
  Settled (err e) a' = Unmoved a a'
  Settled panic a' = Wrapped

  abbrev pub IsSettled : CopyEnd × HostStagedAdapter → Type 0
  IsSettled p = Settled p.0 p.1

  abbrev staging : StagingBufferRecord
  staging = (allocate a.staging_pool spec.range.length).0

  abbrev pool : StagingPool
  pool = (allocate a.staging_pool spec.range.length).1

  abbrev Sliced : Option (List ℕ) → Type 0
  Sliced sliced =
      ((spec.range.offset + spec.range.length < u64_mod)
        × (sliced ≡ some (take spec.range.length (drop spec.range.offset source.bytes))))
      ⊎ ((u64_mod ≤ spec.range.offset + spec.range.length) × (sliced ≡ none))

  module _ (idle : a.staging_pool.active ≡ []) (facts : Facts spec source destination)
      (fits : over_budget a spec.range.length expected ≡ false) where
    landed-Settled :
        (bytes : List ℕ)
        → spec.range.offset + spec.range.length < u64_mod
        → bytes ≡ take spec.range.length (drop spec.range.offset source.bytes)
        → (late : Bool) → ltb spec.timeout (a.simulated_delay + ticks) ≡ late
        → IsSettled (
            account
              (record a { staging_pool = release pool staging.id })
              spec
              destination
              expected
              (if late
                then err (timeout spec.transfer_ref spec.timeout (u64 (a.simulated_delay + ticks)))
                else ok (staging, bytes, a.simulated_delay + ticks)))
    unfolding account
    landed-Settled bytes small e true late = record {
      budget = refl;
      used = refl;
      used_time = refl;
      records = refl;
      idle = release-allocate a.staging_pool spec.range.length idle;
    }
    landed-Settled bytes small e false late =
        let in_range = facts.in_range in
        record {
          facts = facts;
          within = omega arith;
          landed = e;
          in_time = ground arith;
          records = refl;
          entry_bytes = refl;
          entry_time = refl;
          budget = refl;
          used = refl;
          used_time = refl;
          bytes_fit = ground arith;
          time_fit = ground arith;
          idle = release-allocate a.staging_pool spec.range.length idle;
        }

    moved-Settled :
        (failure : Option Text) (sliced : Option (List ℕ))
        → a.simulated_failure ≡ failure
        → Sliced sliced
        → let moved = move_staged a spec staging pool (a.simulated_delay + ticks) failure sliced in
          IsSettled (account moved.1 spec destination expected moved.0)
    unfolding move_staged account
    moved-Settled (some detail) sliced f s = record {
      budget = refl;
      used = refl;
      used_time = refl;
      records = refl;
      idle = release-allocate a.staging_pool spec.range.length idle;
    }
    moved-Settled none none f (inl s) = absurd (cc)
    moved-Settled none none f (inr s) = record {
      facts = facts;
      fits = fits;
      no_failure = f;
      wraps = s.0;
    }
    moved-Settled none (some bytes) f (inl s) =
        landed-Settled bytes s.0 (cc) (ltb spec.timeout (a.simulated_delay + ticks)) refl
    moved-Settled none (some bytes) f (inr s) = absurd (cc)

    within_budget-Settled :
        IsRange spec.range → IsSettled (copy_validated a spec source destination ticks expected)
    unfolding copy_validated run_staged_copy
    within_budget-Settled r =
        let sliced = slice_lem source spec.range r facts.in_range in
        rw fits (moved-Settled a.simulated_failure (slice source spec.range) refl sliced)

  validated-Settled :
      a.staging_pool.active ≡ []
      → Facts spec source destination
      → IsRange spec.range
      → IsSettled (copy_validated a spec source destination ticks expected)
  unfolding copy_validated
  validated-Settled idle facts r = elim (Bool-cases (over_budget a spec.range.length expected)) [
    | inl e ↦ rw e (idle-Unmoved a idle)
    | inr n ↦ within_budget-Settled idle facts n r
  ]

  -- Over an idle staging pool, with an offset and a length that are words: a copy that succeeds
  -- has facts that agree, lands just the declared bytes in time, adds one record, and moves the
  -- accounts by it within the budget; an error leaves the budget, accounts and records; a panic has
  -- a validated range whose offset and length add up to 2^64 or more. No success or error leaves a
  -- buffer in flight.
  pub copy-IsSettled :
      a.staging_pool.active ≡ []
      → IsRange spec.range
      → IsSettled (copy a spec source destination ticks)
  unfolding copy
  copy-IsSettled idle r = elim (Outcome-cases (validate_before_copy spec source destination)) [
    | inl (u, e) ↦
        rw (e, copy)
          (validated-Settled idle (validate_before_copy-Facts spec source destination e) r)
    | inr (inl (x, e)) ↦ rw (e, copy) (idle-Unmoved a idle)
    | inr (inr e) ↦ absurd (validate_before_copy_total spec source destination e)
  ]
