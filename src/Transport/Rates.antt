-- ===== src/Transport/Rates.antt =====
-- src/transport.rs: the measured rates, and the time that a copy is expected to take at them.
use faber_runtime.Base.{ℕ, ◌-◌, ◌*◌, ◌/◌, Option, none, some, ltb, leb, ◌==◌, if◌then◌else◌}
use faber_runtime.Base.Word.{u64_mod, saturating_add}
use faber_runtime.Transaction.Mirror.{TransferDirectionMirror, h2d, d2h, bidi}

abbrev small_copy_bytes : ℕ
small_copy_bytes = 16384

abbrev small_copy_latency_nanos : ℕ
small_copy_latency_nanos = 1300

abbrev large_copy_latency_nanos : ℕ
large_copy_latency_nanos = 5000

pub record MeasuredRates : Type 0 where
  pub h2d_bytes_per_sec : ℕ
  pub d2h_bytes_per_sec : ℕ
  pub bidi_bytes_per_sec : ℕ

abbrev pub t1 : MeasuredRates
t1 = record {
  h2d_bytes_per_sec = 9800000000;
  d2h_bytes_per_sec = 11000000000;
  bidi_bytes_per_sec = 12100000000;
}

abbrev pub rate_for : MeasuredRates → TransferDirectionMirror → ℕ
rate_for r h2d = r.h2d_bytes_per_sec
rate_for r d2h = r.d2h_bytes_per_sec
rate_for r bidi = r.bidi_bytes_per_sec

abbrev pub with_rate : MeasuredRates → TransferDirectionMirror → ℕ → MeasuredRates
with_rate r h2d rate = record r { h2d_bytes_per_sec = rate }
with_rate r d2h rate = record r { d2h_bytes_per_sec = rate }
with_rate r bidi rate = record r { bidi_bytes_per_sec = rate }

-- `u64::saturating_mul` and `u64::checked_div`.
abbrev pub saturating_mul : ℕ → ℕ → ℕ
saturating_mul a b = if ltb (a * b) u64_mod then a * b else u64_mod - 1

abbrev checked_div : ℕ → ℕ → Option ℕ
checked_div a b = if b == 0 then none else some (a / b)

abbrev unwrap_or : Option ℕ → ℕ → ℕ
unwrap_or none d = d
unwrap_or (some a) d = a

unfoldable pub expected_copy_time_nanos : ℕ → TransferDirectionMirror → MeasuredRates → ℕ
expected_copy_time_nanos bytes direction rates =
    let fixed =
      if leb bytes small_copy_bytes then small_copy_latency_nanos else large_copy_latency_nanos in
    let transfer =
      unwrap_or (checked_div (saturating_mul bytes 1000000000) (rate_for rates direction)) 0 in
    saturating_add fixed transfer
