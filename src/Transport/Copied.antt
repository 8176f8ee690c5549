-- ===== src/Transport/Copied.antt =====
-- src/transport.rs: what a copy of the host-staged adapter leaves, whichever way it ends.
use faber_runtime.Base.{
  ℕ, ◌+◌, ◌-◌, ◌<◌, ◌≤◌, ◌≡◌, ◌⊎◌, inl, inr, true, false, none, some, [], ltb, leb, take, drop,
  Bool-cases, arith,
}
use faber_runtime.Base.Key.{nat_key, same_refl, same→eq, text_key}
use faber_runtime.Base.Map.{insert, remove}
use faber_runtime.Base.Word.{u64_mod}
use faber_runtime.BoundPlan.{LogicalPartitionId}
use faber_runtime.Transaction.State.{ok, panic}
use faber_runtime.Transport.{ByteRange, end, TransferSpec, SourceValue, total_bytes, slice}
use faber_runtime.Transport.Rejection.{validate_before_copy}
use faber_runtime.Transport.Staging.{StagingPool, allocate, release}

pub record IsRange (r : ByteRange) : Type 0 where
  pub offset_word : r.offset < u64_mod
  pub length_word : r.length < u64_mod

slice-eq-some :
    (s : SourceValue) (r : ByteRange)
    → end r ≡ r.offset + r.length
    → end r ≤ total_bytes s
    → slice s r ≡ some (take r.length (drop r.offset s.bytes))
slice-eq-some s r e h =
    let first : leb r.offset (end r) ≡ true = ground arith in
    let last : leb (end r) (total_bytes s) ≡ true = ground arith in
    let count : end r - r.offset ≡ r.length = omega arith in rw (first, last, count)

slice-eq-none : (s : SourceValue) (r : ByteRange) → end r < r.offset → slice s r ≡ none
slice-eq-none s r h = let first : leb r.offset (end r) ≡ false = ground arith in rw first

-- Whether the end of a range wraps decides whether the slice is there.
pub slice_lem :
    (s : SourceValue) (r : ByteRange)
    → IsRange r
    → end r ≤ total_bytes s
    → ((r.offset + r.length < u64_mod) × (slice s r ≡ some (take r.length (drop r.offset s.bytes))))
      ⊎ ((u64_mod ≤ r.offset + r.length) × (slice s r ≡ none))
slice_lem s r w h = elim (Bool-cases (ltb (r.offset + r.length) u64_mod)) [
  | inl e ↦
      let small : r.offset + r.length < u64_mod = ground arith in
      inl (small, slice-eq-some s r (omega arith) h)
  | inr n ↦
      let large : u64_mod ≤ r.offset + r.length = ground arith in
      let first = w.offset_word in
      let second = w.length_word in inr (large, slice-eq-none s r (omega arith))
]

-- A buffer that is given back leaves an idle pool idle.
pub release-allocate :
    (p : StagingPool) (bytes : ℕ)
    → p.active ≡ []
    → (release (allocate p bytes).1 (allocate p bytes).0.id).active ≡ []
unfolding release allocate insert remove
release-allocate p bytes h = ground (arith)

-- What a validated transfer declares of the source and the destination.
pub record Facts (spec : TransferSpec) (source : SourceValue) (destination : LogicalPartitionId)
    : Type 0 where
  pub same_dtype : spec.dtype ≡ source.dtype
  pub same_layout : spec.layout ≡ source.layout
  pub in_range : end spec.range ≤ total_bytes source
  pub same_generation : spec.generation ≡ source.generation
  pub same_owner : spec.source_owner ≡ source.owner
  pub same_destination : spec.destination ≡ destination

module _ (spec : TransferSpec) (source : SourceValue) (destination : LogicalPartitionId) where
  pub validate_before_copy-Facts :
      validate_before_copy spec source destination ≡ ok tt → Facts spec source destination
  unfolding validate_before_copy
  validate_before_copy-Facts h = record {
    same_dtype = ground (arith);
    same_layout = ground (arith);
    in_range = ground arith;
    same_generation = ground arith;
    same_owner = ground (arith, same→eq spec.source_owner source.owner);
    same_destination = ground (arith, same→eq spec.destination destination);
  }

  pub Facts-validate_before_copy :
      Facts spec source destination → validate_before_copy spec source destination ≡ ok tt
  unfolding validate_before_copy
  Facts-validate_before_copy f =
      let first = f.same_dtype in
      let second = f.same_layout in
      let third = f.in_range in
      let fourth = f.same_generation in
      let fifth = f.same_owner in
      let sixth = f.same_destination in
      ground (arith, same_refl source.owner, same_refl destination)

  pub validate_before_copy_total : validate_before_copy spec source destination ≡ panic → ⊥
  unfolding validate_before_copy
  validate_before_copy_total h = ground arith
