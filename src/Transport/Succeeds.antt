-- ===== src/Transport/Succeeds.antt =====
-- src/transport.rs: when a copy of the host-staged adapter succeeds, and when it panics.
use faber_runtime.Base.{ℕ, ◌+◌, ◌≤◌, ◌<◌, ◌≡◌, inl, inr, refl, false, none, ltb, arith}
use faber_runtime.Base.Word.{u64_mod}
use faber_runtime.BoundPlan.{LogicalPartitionId}
use faber_runtime.Transaction.State.{ok, panic}
use faber_runtime.Transport.{TransferSpec, SourceValue, slice}
use faber_runtime.Transport.Staging.{allocate}
use faber_runtime.Transport.Adapter.{
  HostStagedAdapter, TransferOutcome, move_staged, run_staged_copy, account, over_budget,
  copy_validated, copy,
}
use faber_runtime.Transport.Copied.{IsRange, slice_lem, Facts, Facts-validate_before_copy}
use faber_runtime.Transport.Settled.{expected, Wrapped}

module _ (a : HostStagedAdapter) (spec : TransferSpec) (source : SourceValue)
    (destination : LogicalPartitionId) (ticks : ℕ) where
  -- What is left of a copy that nothing refuses.
  admitted_copy :
      Facts spec source destination
      → over_budget a spec.range.length (expected a spec source destination ticks) ≡ false
      → copy a spec source destination ticks ≡ (
          let (staging, pool) = allocate a.staging_pool spec.range.length in
          let moved =
            move_staged a spec staging pool
              (a.simulated_delay + ticks)
              a.simulated_failure
              (slice source spec.range) in
          account moved.1 spec destination (expected a spec source destination ticks) moved.0)
  unfolding copy copy_validated run_staged_copy
  admitted_copy facts fits =
      rw (Facts-validate_before_copy spec source destination facts, fits, copy)

  -- An offset and a length that are words but add up to 2^64 or more: if the transfer is validated
  -- and within the budget, and no failure is simulated, the copy panics and is not rejected.
  pub copy_panics :
      IsRange spec.range
      → Wrapped a spec source destination ticks
      → (copy a spec source destination ticks).0 ≡ panic
  unfolding move_staged account
  copy_panics r w = elim (slice_lem source spec.range r w.facts.in_range) [
    | inl s ↦ let wraps = w.wraps in absurd (omega arith)
    | inr s ↦ rw (admitted_copy w.facts w.fits, w.no_failure, s.1)
  ]

  -- A copy whose facts agree, whose offset and length are words and add up to less than 2^64, that
  -- is within the budget and in time, and for which no failure is simulated, succeeds.
  pub copy_succeeds :
      Facts spec source destination
      → IsRange spec.range
      → spec.range.offset + spec.range.length < u64_mod
      → over_budget a spec.range.length (expected a spec source destination ticks) ≡ false
      → a.simulated_failure ≡ none
      → a.simulated_delay + ticks ≤ spec.timeout
      → (o : TransferOutcome) × ((copy a spec source destination ticks).0 ≡ ok o)
  unfolding move_staged account
  copy_succeeds facts r small fits ready in_time =
      elim (slice_lem source spec.range r facts.in_range) [
        | inl s ↦
            let early : ltb spec.timeout (a.simulated_delay + ticks) ≡ false = ground arith in
            rw (admitted_copy facts fits, ready, s.1, early) (_, refl)
        | inr s ↦ absurd (omega arith)
      ]
