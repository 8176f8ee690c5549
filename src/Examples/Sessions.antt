-- ===== src/Examples/Sessions.antt =====
-- src/session.rs on a short decode.
use faber_runtime.Base.{◌≡◌, refl, ◌≢◌, ◌⊎◌, [], ◌∷◌}
use faber_runtime.Base.Result
use faber_runtime.Base.Key.{text, text_key}
use faber_runtime.Transaction.Mirror.{TransactionCommitBoundary, is_empty}
use faber_runtime.Session.{
  pos, SequenceState, new, TokenCommit, SequenceCommitOutcome, applied, SequenceCommitError,
  out_of_order_position, commit,
}
use faber_runtime.Session.Commit.{advanced, IsNext, commit_moves, run, InStep, run-new-InStep}

-- Two tokens of a prompt, and the commit of a third one behind one barrier.
abbrev prompted : SequenceState
prompted = record {
  sequence_id = 7;
  position = 2;
  token_history = pos 11 ∷ pos 12 ∷ [];
  kv_generations = 2;
}

abbrev one_barrier : TransactionCommitBoundary
one_barrier = record { barriers = (text "step", tt) ∷ []; launches = [] }

abbrev third : TokenCommit
third = record {
  token = pos 13;
  position = 2;
  kv_generation = 3;
  publication_boundary = one_barrier;
}

abbrev skipped : TokenCommit
skipped = record third { position = 5 }

abbrev after_third : SequenceState
after_third = record {
  sequence_id = 7;
  position = 3;
  token_history = pos 11 ∷ pos 12 ∷ pos 13 ∷ [];
  kv_generations = 3;
}

commit_test : commit prompted third ≡ (Result.ok applied, after_third)
unfolding commit is_empty
commit_test = refl

skip_test : commit prompted skipped ≡ (Result.err (out_of_order_position 2 5), prompted)
unfolding commit is_empty
skip_test = refl

new_test : new 7 (pos 11 ∷ pos 12 ∷ []) ≡ prompted
unfolding new
new_test = refl

abbrev answer : Result.Result SequenceCommitOutcome SequenceCommitError
answer = Result.ok applied

commit_moves_example :
    ((answer ≡ Result.ok applied)
      × IsNext prompted third
      × (after_third ≡ advanced prompted (pos 13)))
    ⊎ ((answer ≢ Result.ok applied) × (after_third ≡ prompted))
commit_moves_example = commit_moves prompted after_third third answer commit_test

run-new-InStep_example : InStep (run (new 7 (pos 11 ∷ pos 12 ∷ [])) (third ∷ skipped ∷ third ∷ []))
run-new-InStep_example = run-new-InStep 7 (pos 11 ∷ pos 12 ∷ []) (third ∷ skipped ∷ third ∷ [])
