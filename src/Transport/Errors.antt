-- ===== src/Transport/Errors.antt =====
-- src/transport.rs: what a copy ends with when it does not succeed, and how the coordinator sees it.
use faber_runtime.Base.{ℕ, zero, suc, ◌+◌, ◌/◌, ◌%◌, [], ◌∷◌, ◌++◌, ltb, ◌==◌, if◌then◌else◌}
use faber_runtime.Base.Key.{Text, text}
use faber_runtime.Base.Decimal.{decimal}
use faber_runtime.BoundPlan.{LogicalPartitionId}
use faber_runtime.Transaction.Mirror.{TransferRef}
use faber_runtime.Transaction.State.{BackendError, operation, timeout as backend_timeout}
use faber_runtime.Transport.{Duration}
use faber_runtime.Transport.Rejection.{TransferRejection, display as display_rejection}
use faber_runtime.Transport.Peer.{DirectedPair, display as display_pair}

pub data TransferError : Type 0 where
  rejected : TransferRejection → TransferError
  -- The declared timeout and the measured time.
  timeout : TransferRef → Duration → ℕ → TransferError
  failed : TransferRef → Text → TransferError
  peer_not_admitted : DirectedPair → TransferError
  peer_not_attempted : DirectedPair → Text → TransferError
  -- The bytes of the budget, those in use and those needed.
  budget_exceeded : TransferRef → ℕ → ℕ → ℕ → TransferError

-- The standard library's `Debug` of a duration: at most nine digits behind the point.
fraction_digits : ℕ → ℕ → ℕ → Text
fraction_digits zero part divisor = []
fraction_digits (suc fuel) part divisor =
    let rest = fraction_digits fuel (part % divisor) (divisor / 10) in
    if part == 0 then [] else (48 + part / divisor) ∷ rest

debug_parts : ℕ → ℕ → ℕ → Text → Text
unfolding fraction_digits
debug_parts whole part divisor suffix =
    let point = if part == 0 then [] else text "." ++ fraction_digits 9 part divisor in
    decimal whole ++ point ++ suffix

unfoldable pub debug_duration : Duration → Text
unfolding debug_parts
debug_duration n =
    if ltb n 1000
    then debug_parts n 0 1 (text "ns")
    else if ltb n 1000000
    then debug_parts (n / 1000) (n % 1000) 100 (194 ∷ 181 ∷ text "s")
    else if ltb n 1000000000
    then debug_parts (n / 1000000) (n % 1000000) 100000 (text "ms")
    else debug_parts (n / 1000000000) (n % 1000000000) 100000000 (text "s")

-- The section sign and the dash, as bytes.
abbrev not_attempted : Text
not_attempted =
    text " is not admitted (T2 "
    ++ (194 ∷ 167 ∷ text "6 ")
    ++ (226 ∷ 128 ∷ 148 ∷ text " NOT ATTEMPTED)")

unfoldable pub into_backend_error : TransferError → LogicalPartitionId → BackendError
into_backend_error (rejected r) partition =
    operation partition (text "typed/ranged transfer rejected before copy: " ++ display_rejection r)
into_backend_error (timeout t declared elapsed) partition = backend_timeout partition (
    text "transfer "
    ++ t
    ++ text " exceeded its declared "
    ++ debug_duration declared
    ++ text " timeout ("
    ++ decimal elapsed
    ++ text " ns elapsed)")
into_backend_error (failed t detail) partition =
    operation partition (text "transfer " ++ t ++ text " failed: " ++ detail)
into_backend_error (peer_not_admitted pair) partition =
    operation partition
      (text "peer transfer on unmeasured directed pair " ++ display_pair pair ++ not_attempted)
into_backend_error (peer_not_attempted pair detail) partition = operation partition (
    text "peer transfer on admitted pair "
    ++ display_pair pair
    ++ text " is not attempted: "
    ++ detail)
into_backend_error (budget_exceeded t budget used needed) partition = operation partition (
    text "transfer "
    ++ t
    ++ text " exceeds the declared transfer budget (used "
    ++ decimal used
    ++ text " of "
    ++ decimal budget
    ++ text " bytes, needs "
    ++ decimal needed
    ++ text " more)")

display : TransferError → Text
display (rejected r) = display_rejection r
display (timeout t declared elapsed) =
    text "transfer "
    ++ t
    ++ text " timed out after "
    ++ decimal elapsed
    ++ text " ns (declared "
    ++ debug_duration declared
    ++ text ")"
display (failed t detail) = text "transfer " ++ t ++ text " failed: " ++ detail
display (peer_not_admitted pair) =
    text "peer transfer on unmeasured directed pair "
    ++ display_pair pair
    ++ text " rejected (NOT ATTEMPTED)"
display (peer_not_attempted pair detail) =
    text "peer transfer on pair " ++ display_pair pair ++ text " not attempted: " ++ detail
display (budget_exceeded t budget used needed) =
    text "transfer "
    ++ t
    ++ text " exceeds the declared transfer budget ("
    ++ decimal used
    ++ text "/"
    ++ decimal budget
    ++ text " bytes used, needs "
    ++ decimal needed
    ++ text ")"
