-- ===== src/Transport/Budget.antt =====
-- src/transport.rs: the accounts of the host-staged adapter over any history of calls.
use faber_runtime.Base.{
  ℕ, ◌+◌, ◌-◌, ◌≤◌, ◌≡◌, refl, sym, ap, ◌∙◌, subst, Bool, true, false, ◌==◌, Option, none, some,
  List, [], ◌∷◌, ◌++◌, map, ltb, if◌then◌else◌, All, arith,
}
use faber_runtime.Base.Key.{Text}
use faber_runtime.Base.Word.{u64_mod, saturating_add}
use faber_runtime.BoundPlan.{LogicalPartitionId}
use faber_runtime.Transaction.Mirror.{TransferDirectionMirror}
use faber_runtime.Transaction.State.{ok, err, panic}
use faber_runtime.Transport.{Duration, TransferSpec, SourceValue}
use faber_runtime.Transport.Rates.{MeasuredRates}
use faber_runtime.Transport.Adapter.{
  HostStagedAdapter, SelectedTransferRecord, TransferBudget, RateObservation, CopyEnd, new,
  set_simulated_delay, set_simulated_failure, record_fixture_measurement, copy,
}
use faber_runtime.Transport.Copied.{IsRange}
use faber_runtime.Transport.Settled.{IsSettled, copy-IsSettled, expected}

pub data Call : Type 0 where
  copy_call : TransferSpec → SourceValue → LogicalPartitionId → ℕ → Call
  measurement_call : TransferDirectionMirror → ℕ → ℕ → Call
  delay_call : Duration → Call
  failure_call : Option Text → Call

-- A copy whatever it ends with, unless it panics.
abbrev unless_panic : CopyEnd × HostStagedAdapter → Option HostStagedAdapter
unless_panic (ok o, a) = some a
unless_panic (err e, a) = some a
unless_panic (panic, a) = none

abbrev pub call : HostStagedAdapter → Call → Option HostStagedAdapter
call a (copy_call spec source destination ticks) =
    unless_panic (copy a spec source destination ticks)
call a (measurement_call direction bytes elapsed) =
    some (record_fixture_measurement a direction bytes elapsed)
call a (delay_call delay) = some (set_simulated_delay a delay)
call a (failure_call detail) = some (set_simulated_failure a detail)

-- A panic ends the history.
abbrev pub run : HostStagedAdapter → List Call → Option HostStagedAdapter
run a [] = some a
run a (c ∷ cs) = elim (call a c) [ none ↦ none | some b ↦ run b cs ]

-- The declared offset and length are words.
abbrev pub IsCall : Call → Type 0
IsCall (copy_call spec source destination ticks) = IsRange spec.range
IsCall (measurement_call direction bytes elapsed) = Unit
IsCall (delay_call delay) = Unit
IsCall (failure_call detail) = Unit

abbrev pub total : List ℕ → ℕ
total [] = 0
total (n ∷ ns) = n + total ns

-- At most the largest word.
abbrev pub saturated : ℕ → ℕ
saturated n = if ltb n u64_mod then n else u64_mod - 1

abbrev pub bytes_of : List SelectedTransferRecord → ℕ
bytes_of rs = total (map (λ r. r.bytes) rs)

abbrev pub time_of : List SelectedTransferRecord → ℕ
time_of rs = total (map (λ r. r.expected_nanos) rs)

pub record IsWithin (budget : TransferBudget) (a : HostStagedAdapter) : Type 0 where
  pub declared : a.declared_budget ≡ budget
  pub used : a.used_bytes ≡ saturated (bytes_of a.records)
  pub used_time : a.used_time_nanos ≡ saturated (time_of a.records)
  pub bytes_fit : a.used_bytes ≤ budget.bytes
  pub time_fit : a.used_time_nanos ≤ budget.time_nanos
  pub idle : a.staging_pool.active ≡ []

module _ (f : SelectedTransferRecord → ℕ) where
  total-append :
      (rs : List SelectedTransferRecord) (r : SelectedTransferRecord)
      → total (map f (rs ++ r ∷ [])) ≡ total (map f rs) + f r
  total-append [] r = omega arith
  total-append (q ∷ rs) r = omega (arith, total-append rs r)

  saturated-append :
      (rs : List SelectedTransferRecord) (r : SelectedTransferRecord)
      → saturating_add (saturated (total (map f rs))) (f r)
        ≡ saturated (total (map f (rs ++ r ∷ [])))
  saturated-append rs r = ground (arith, total-append rs r)

module _ (budget : TransferBudget) where
  abbrev Kept : Option HostStagedAdapter → Type 0
  Kept none = Unit
  Kept (some a) = IsWithin budget a

  copied-Kept :
      (a : HostStagedAdapter) (spec : TransferSpec) (source : SourceValue)
      (destination : LogicalPartitionId) (ticks : ℕ)
      → IsWithin budget a
      → (p : CopyEnd × HostStagedAdapter) → IsSettled a spec source destination ticks p
      → Kept (unless_panic p)
  copied-Kept a spec source destination ticks w (panic, b) s = tt
  copied-Kept a spec source destination ticks w (err e, b) s = record {
    declared = s.budget ∙ w.declared;
    used = s.used ∙ w.used ∙ sym (ap (λ x. saturated (bytes_of x)) s.records);
    used_time = s.used_time ∙ w.used_time ∙ sym (ap (λ x. saturated (time_of x)) s.records);
    bytes_fit = ground (arith, s.used, w.bytes_fit);
    time_fit = ground (arith, s.used_time, w.time_fit);
    idle = s.idle;
  }
  copied-Kept a spec source destination ticks w (ok o, b) s = record {
    declared = s.budget ∙ w.declared;
    used =
        s.used
        ∙ ap (λ x. saturating_add x spec.range.length) w.used
        ∙ ap (saturating_add (saturated (bytes_of a.records))) (sym s.entry_bytes)
        ∙ saturated-append (λ r. r.bytes) a.records o.transfer_record
        ∙ sym (ap (λ x. saturated (bytes_of x)) s.records);
    used_time =
        s.used_time
        ∙ ap (λ x. saturating_add x (expected a spec source destination ticks)) w.used_time
        ∙ ap (saturating_add (saturated (time_of a.records))) (sym s.entry_time)
        ∙ saturated-append (λ r. r.expected_nanos) a.records o.transfer_record
        ∙ sym (ap (λ x. saturated (time_of x)) s.records);
    bytes_fit = subst (λ x. b.used_bytes ≤ x.bytes) w.declared s.bytes_fit;
    time_fit = subst (λ x. b.used_time_nanos ≤ x.time_nanos) w.declared s.time_fit;
    idle = s.idle;
  }

  -- The rates and the simulated delay and failure are no part of the accounts.
  readjusted-IsWithin :
      (a : HostStagedAdapter) (rates : MeasuredRates) (seen : List RateObservation)
      (delay : Duration) (failure : Option Text)
      → IsWithin budget a
      → IsWithin budget (record a {
        rates = rates;
        rate_observations = seen;
        simulated_delay = delay;
        simulated_failure = failure;
      })
  readjusted-IsWithin a rates seen delay failure w = record {
    declared = w.declared;
    used = w.used;
    used_time = w.used_time;
    bytes_fit = w.bytes_fit;
    time_fit = w.time_fit;
    idle = w.idle;
  }

  if-IsWithin :
      (b : Bool) {x y : HostStagedAdapter}
      → IsWithin budget x
      → IsWithin budget y
      → IsWithin budget (if b then x else y)
  if-IsWithin true v w = v
  if-IsWithin false v w = w

  call-Kept : (a : HostStagedAdapter) (c : Call) → IsCall c → IsWithin budget a → Kept (call a c)
  unfolding record_fixture_measurement
  call-Kept a (copy_call spec source destination ticks) i w =
      copied-Kept a spec source destination ticks w (copy a spec source destination ticks)
        (copy-IsSettled a spec source destination ticks w.idle i)
  call-Kept a (measurement_call direction bytes elapsed) i w =
      if-IsWithin (elapsed == 0) w (readjusted-IsWithin a _ _ _ _ w)
  call-Kept a (delay_call delay) i w = readjusted-IsWithin a _ _ _ _ w
  call-Kept a (failure_call detail) i w = readjusted-IsWithin a _ _ _ _ w

  run-Kept :
      (cs : List Call) (a : HostStagedAdapter) → All IsCall cs → IsWithin budget a → Kept (run a cs)
  run-Kept [] a i w = w
  run-Kept (c ∷ cs) a i w = next cs (call a c) (call-Kept a c i.0 w) (λ b k. run-Kept cs b i.1 k)
    where
      next :
          (cs : List Call) (o : Option HostStagedAdapter)
          → Kept o
          → ((b : HostStagedAdapter) → IsWithin budget b → Kept (run b cs))
          → Kept (elim o as (λ x. Option HostStagedAdapter) [ none ↦ none | some b ↦ run b cs ])
      next cs none k rest = tt
      next cs (some b) k rest = rest b k

  new-IsWithin : IsWithin budget (new budget)
  unfolding new
  new-IsWithin = record {
    declared = refl;
    used = refl;
    used_time = refl;
    bytes_fit = omega arith;
    time_fit = omega arith;
    idle = refl;
  }

  -- Whatever copies (of offsets and lengths that are words), measurements and simulations a new
  -- adapter goes through without a panic: its budget is the declared one, the bytes and the time in
  -- use are the sums over its records, at most the largest word, and within the budget, and no
  -- staging buffer is in flight.
  pub run-new-IsWithin :
      (cs : List Call) (b : HostStagedAdapter)
      → All IsCall cs
      → run (new budget) cs ≡ some b
      → IsWithin budget b
  run-new-IsWithin cs b i e = subst Kept e (run-Kept cs (new budget) i new-IsWithin)
