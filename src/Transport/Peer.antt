-- ===== src/Transport/Peer.antt =====
-- src/transport.rs: the directed pairs that were measured and admitted, and the path that a pair
-- takes.
use faber_runtime.Base.{ℕ, Bool, ◌||◌, Option, List, [], ◌∷◌, ◌++◌, ◌==◌, if◌then◌else◌}
use faber_runtime.Base.Key.{Text, text, text_key, pair_key, same}
use faber_runtime.Base.Result.{Result, ok, err}
use faber_runtime.Base.Map.{Map, lookup, insert, contains_key, keys}
use faber_runtime.BoundPlan.{LogicalPartitionId}

-- The source and the destination, in the derived order.
abbrev pub DirectedPair : Type 0
DirectedPair = LogicalPartitionId × LogicalPartitionId

abbrev pub display : DirectedPair → Text
display pair = pair.0 ++ text "->" ++ pair.1

pub record PeerPairMeasurement : Type 0 where
  pub pair : DirectedPair
  pub probe_provenance : Text
  pub directional_bandwidth_bytes_per_sec : ℕ
  pub latency_nanos : ℕ
  pub evidence_reference : Text

pub data PairAdmissionError : Type 0 where
  self_pair missing_bandwidth_or_latency missing_evidence : DirectedPair → PairAdmissionError

pub record PeerPairRegistry : Type 0 where
  pub admitted : Map DirectedPair PeerPairMeasurement

abbrev pub empty : PeerPairRegistry
empty = record { admitted = [] }

abbrev is_empty : Text → Bool
is_empty [] = Bool.true
is_empty (x ∷ xs) = Bool.false

unfoldable pub admit :
    PeerPairRegistry → PeerPairMeasurement → Result PeerPairRegistry PairAdmissionError
admit r m =
    if same m.pair.0 m.pair.1
    then err (self_pair m.pair)
    else if (m.directional_bandwidth_bytes_per_sec == 0) || (m.latency_nanos == 0)
    then err (missing_bandwidth_or_latency m.pair)
    else if is_empty m.evidence_reference
    then err (missing_evidence m.pair)
    else ok (record { admitted = insert m.pair m r.admitted })

unfoldable pub is_admitted : PeerPairRegistry → DirectedPair → Bool
is_admitted r pair = contains_key pair r.admitted

unfoldable pub measurement : PeerPairRegistry → DirectedPair → Option PeerPairMeasurement
measurement r pair = lookup pair r.admitted

admitted_pairs : PeerPairRegistry → List DirectedPair
admitted_pairs r = keys r.admitted

pub data CopyPath : Type 0 where
  host_staged peer : CopyPath

path_spelling : CopyPath → Text
path_spelling host_staged = text "host-staged"
path_spelling peer = text "peer"

unfoldable pub select_copy_path : DirectedPair → PeerPairRegistry → CopyPath
unfolding is_admitted
select_copy_path pair registry = if is_admitted registry pair then peer else host_staged
