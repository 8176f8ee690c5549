-- ===== src/Session/Commit.antt =====
-- What `SequenceState::commit` of src/session.rs moves, and what a run of commits keeps.
use mathlib.Core.List.{append-nil, append_assoc}
use faber_runtime.Base.{
  ℕ, ◌+◌, ◌<◌, ◌≡◌, refl, sym, ap, ◌∙◌, ◌≢◌, ◌⊎◌, inl, inr, true, false, List, [], ◌∷◌, ◌++◌,
  length, length-append, arith, ==_iff,
}
use faber_runtime.Base.Word.{u32_mod, u32, u64}
use faber_runtime.Base.Result
use faber_runtime.Transaction.Mirror.{is_empty}
use faber_runtime.Session.{
  I64, pos, negsuc, same_i64, SequenceState, new, TokenCommit, SequenceCommitOutcome, applied,
  idempotent_replay, SequenceCommitError, ends_with, commit, ExecutionSession, with_sequence,
  model_residency_key, sequence_residency_key, model_weights_reusable, sequence_kv_reusable,
}

-- The sequence with one token more.
abbrev pub advanced : SequenceState → I64 → SequenceState
advanced s x = record s {
  token_history = s.token_history ++ x ∷ [];
  position = u32 (s.position + 1);
  kv_generations = u64 (s.kv_generations + 1);
}

-- A commit is applied only inside a boundary, at the position and the generation that are next.
pub record IsNext (s : SequenceState) (c : TokenCommit) : Type 0 where
  pub bounded : is_empty c.publication_boundary ≡ false
  pub in_order : c.position ≡ s.position
  pub next_generation : c.kv_generation ≡ u64 (s.kv_generations + 1)

-- A commit that is applied has a boundary that is not empty and names the position and the
-- generation that are next, and then token, position and generation move together. Any other
-- answer leaves the state as it was.
pub commit_moves :
    (s s' : SequenceState) (c : TokenCommit)
    (end : Result.Result SequenceCommitOutcome SequenceCommitError)
    → commit s c ≡ (end, s')
    → ((end ≡ Result.ok applied) × IsNext s c × (s' ≡ advanced s c.token))
      ⊎ ((end ≢ Result.ok applied) × (s' ≡ s))
unfolding commit
commit_moves s s' c end e = ground arith

same_i64_refl : (x : I64) → same_i64 x x ≡ true
same_i64_refl (pos n) = (==_iff n n).1 refl
same_i64_refl (negsuc n) = (==_iff n n).1 refl

ends_with-append : (xs : List I64) (x : I64) → ends_with x (xs ++ x ∷ []) ≡ true
unfolding ends_with
ends_with-append [] x = same_i64_refl x
ends_with-append (y ∷ []) x = same_i64_refl x
ends_with-append (y ∷ z ∷ ys) x = ends_with-append (z ∷ ys) x

-- A commit that is applied and then sent again is answered as a replay and moves nothing, as long
-- as the position after it fits in 32 bits.
pub commit_replay :
    (s s' : SequenceState) (c : TokenCommit)
    → s.position + 1 < u32_mod
    → commit s c ≡ (Result.ok applied, s')
    → commit s' c ≡ (Result.ok idempotent_replay, s')
unfolding commit
commit_replay s s' c fits e = ground (arith, ends_with-append s.token_history c.token)

-- The commits of a decode, in order; an answer other than `Applied` does not stop it here.
abbrev pub run : SequenceState → List TokenCommit → SequenceState
run s [] = s
run s (c ∷ cs) = run (commit s c).1 cs

-- Position and generations count the history.
pub record InStep (s : SequenceState) : Type 0 where
  pub counted : s.position ≡ u32 (length s.token_history)
  pub generated : s.kv_generations ≡ u64 (length s.token_history)

advanced-InStep : (s : SequenceState) (x : I64) → InStep s → InStep (advanced s x)
advanced-InStep s x h = record {
  counted = omega (arith, h.counted, length-append s.token_history (x ∷ []));
  generated = omega (arith, h.generated, length-append s.token_history (x ∷ []));
}

commit-InStep : (s : SequenceState) (c : TokenCommit) → InStep s → InStep (commit s c).1
commit-InStep s c h = elim (commit_moves s (commit s c).1 c (commit s c).0 refl) [
  | inl (_, _, e) ↦ rw e (advanced-InStep s c.token h)
  | inr (_, e) ↦ rw e h
]

run-InStep : (s : SequenceState) (cs : List TokenCommit) → InStep s → InStep (run s cs)
run-InStep s [] h = h
run-InStep s (c ∷ cs) h = run-InStep (commit s c).1 cs (commit-InStep s c h)

new-InStep : (id : ℕ) (prompt : List I64) → InStep (new id prompt)
unfolding new
new-InStep id prompt = record { counted = refl; generated = refl }

-- Whatever commits reach a sequence that starts from a prompt, its position and its generations
-- count its history, each cut to its width.
pub run-new-InStep :
    (id : ℕ) (prompt : List I64) (cs : List TokenCommit) → InStep (run (new id prompt) cs)
run-new-InStep id prompt cs = run-InStep (new id prompt) cs (new-InStep id prompt)

-- The tokens of the commits that were applied.
abbrev pub tokens : SequenceState → List TokenCommit → List I64
tokens s [] = []
tokens s (c ∷ cs) =
    let rest = tokens (commit s c).1 cs in
    elim (commit s c).0 [ Result.ok applied ↦ c.token ∷ rest | _ ↦ rest ]

commit_keeps :
    (s : SequenceState) (c : TokenCommit)
    → ((commit s c).1.sequence_id ≡ s.sequence_id)
      × ((commit s c).1.token_history ≡ s.token_history ++ tokens s (c ∷ []))
unfolding commit
commit_keeps s c = ground (arith, append-nil s.token_history)

tokens_step :
    (s : SequenceState) (c : TokenCommit) (cs : List TokenCommit)
    → tokens s (c ∷ cs) ≡ tokens s (c ∷ []) ++ tokens (commit s c).1 cs
unfolding commit
tokens_step s c cs = ground arith

-- A run of commits only appends: the tokens of the applied ones, each once and in order. The
-- identity of the sequence stays.
pub run-history :
    (s : SequenceState) (cs : List TokenCommit)
    → ((run s cs).token_history ≡ s.token_history ++ tokens s cs)
      × ((run s cs).sequence_id ≡ s.sequence_id)
run-history s [] = (sym (append-nil s.token_history), refl)
run-history s (c ∷ cs) =
    let (history, id) = run-history (commit s c).1 cs in
    let (same_id, one) = commit_keeps s c in
    (
      history
          ∙ ap (λ xs. xs ++ tokens (commit s c).1 cs) one
          ∙ append_assoc s.token_history (tokens s (c ∷ [])) (tokens (commit s c).1 cs)
          ∙ ap (λ xs. s.token_history ++ xs) (sym (tokens_step s c cs)),
      id ∙ same_id,
    )

-- Commits never touch a residency key: the resident weights and the resident KV state of the
-- session stay reusable after any run of them.
pub run-reusable :
    (x : ExecutionSession) (cs : List TokenCommit)
    → let y = with_sequence x (run x.sequence cs) in
      (model_weights_reusable (model_residency_key x) (model_residency_key y) ≡ true)
      × (sequence_kv_reusable (sequence_residency_key x) (sequence_residency_key y) ≡ true)
unfolding with_sequence model_residency_key sequence_residency_key model_weights_reusable
    sequence_kv_reusable
run-reusable x cs = rw (run-history x.sequence cs).1 (ground arith)
