-- ===== src/Session.antt =====
-- src/session.rs: the identities of an inference session, the two residency keys, and the
-- transactional commit of a token.
pub mod Commit
use faber_runtime.Base.{
  ℕ, zero, suc, ◌+◌, ◌-◌, ◌==◌, Bool, true, false, not, ◌&&◌, Option, none, some, List, [], ◌∷◌,
  ◌++◌, length, if◌then◌else◌,
}
use faber_runtime.Base.Word.{u32, u64}
use faber_runtime.Base.Result
use faber_runtime.Base.Key.{Text, text}
use faber_runtime.Kv.{KvCacheLayout}
use faber_runtime.Transaction.Mirror.{TransactionCommitBoundary, is_empty}

-- The token ids of a model: `i64`.
pub data I64 : Type 0 where
  pos negsuc : ℕ → I64

abbrev pub same_i64 : I64 → I64 → Bool
same_i64 (pos a) (pos b) = a == b
same_i64 (negsuc a) (negsuc b) = a == b
same_i64 _ _ = false

pub record ModelInstance : Type 0 where
  pub model_id : Text
  pub bytes_sha256 : List ℕ
  pub bytes_len : ℕ

pub record ModelResidencyKey : Type 0 where
  pub session_id : ℕ
  pub model_epoch : ℕ

pub record SequenceResidencyKey : Type 0 where
  pub session_id : ℕ
  pub sequence_id : ℕ
  pub epoch : ℕ

pub model_weights_reusable : ModelResidencyKey → ModelResidencyKey → Bool
model_weights_reusable a b = (a.session_id == b.session_id) && (a.model_epoch == b.model_epoch)

pub sequence_kv_reusable : SequenceResidencyKey → SequenceResidencyKey → Bool
sequence_kv_reusable a b =
    (a.session_id == b.session_id) && ((a.sequence_id == b.sequence_id) && (a.epoch == b.epoch))

pub record SequenceState : Type 0 where
  pub sequence_id : ℕ
  pub position : ℕ
  pub token_history : List I64
  pub kv_generations : ℕ

unfoldable pub new : ℕ → List I64 → SequenceState
new id prompt = record {
  sequence_id = id;
  position = u32 (length prompt);
  token_history = prompt;
  kv_generations = u64 (length prompt);
}

pub record TokenCommit : Type 0 where
  pub token : I64
  pub position : ℕ
  pub kv_generation : ℕ
  pub publication_boundary : TransactionCommitBoundary

pub data SequenceCommitOutcome : Type 0 where
  applied idempotent_replay : SequenceCommitOutcome

pub data SequenceCommitError : Type 0 where
  no_publication_boundary : SequenceCommitError
  out_of_order_position kv_generation_gap : ℕ → ℕ → SequenceCommitError

-- `self.token_history.last() == Some(&token)`.
unfoldable pub ends_with : I64 → List I64 → Bool
ends_with x [] = false
ends_with x (y ∷ []) = same_i64 y x
ends_with x (y ∷ z ∷ ys) = ends_with x (z ∷ ys)

-- `saturating_sub` is the subtraction of ℕ. The additions wrap, as in a build without overflow
-- checks.
unfoldable pub commit :
    SequenceState
    → TokenCommit
    → Result.Result SequenceCommitOutcome SequenceCommitError × SequenceState
unfolding ends_with
commit s c =
    if is_empty c.publication_boundary
    then (Result.err no_publication_boundary, s)
    else if (c.position == s.position - 1)
        && ((c.kv_generation == s.kv_generations) && ends_with c.token s.token_history)
    then (Result.ok idempotent_replay, s)
    else if not (c.position == s.position)
    then (Result.err (out_of_order_position s.position c.position), s)
    else if not (c.kv_generation == u64 (s.kv_generations + 1))
    then (Result.err (kv_generation_gap (u64 (s.kv_generations + 1)) c.kv_generation), s)
    else (
      Result.ok applied,
      record s {
        token_history = s.token_history ++ c.token ∷ [];
        position = u32 (s.position + 1);
        kv_generations = u64 (s.kv_generations + 1);
      },
    )

pub data InvocationMode : Type 0 where
  prefill scalar_decode : InvocationMode

pub data InvocationOutput : Type 0 where
  logits selected_token : InvocationOutput

pub record Invocation : Type 0 where
  pub mode : InvocationMode
  pub sequence_id : ℕ
  pub token : I64
  pub position : ℕ
  pub output : InvocationOutput

pub record ExecutionSession : Type 0 where
  pub session_id : ℕ
  pub model : ModelInstance
  pub kv_layout : KvCacheLayout
  pub model_epoch : ℕ
  pub sequence_epoch : ℕ
  pub sequence : SequenceState

pub model_residency_key : ExecutionSession → ModelResidencyKey
model_residency_key s = record { session_id = s.session_id; model_epoch = s.model_epoch }

pub sequence_residency_key : ExecutionSession → SequenceResidencyKey
sequence_residency_key s = record {
  session_id = s.session_id;
  sequence_id = s.sequence.sequence_id;
  epoch = s.sequence_epoch;
}

-- The state that `sequence_mut` hands out, put back.
pub with_sequence : ExecutionSession → SequenceState → ExecutionSession
with_sequence s q = record s { sequence = q }
