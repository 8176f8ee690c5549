-- ===== src/Transport/Staging.antt =====
-- src/transport.rs: the pool of pinned host staging buffers.
use faber_runtime.Base.{ℕ, ◌+◌, Bool, true, [], length}
use faber_runtime.Base.Key.{nat_key}
use faber_runtime.Base.Map.{Map, insert, remove}
use faber_runtime.Base.Word.{u64}

-- Newtypes over `u64`.
abbrev pub StagingBufferId : Type 0
StagingBufferId = ℕ

abbrev pub EngineId : Type 0
EngineId = ℕ

abbrev pub EventId : Type 0
EventId = ℕ

pub record StagingBufferRecord : Type 0 where
  pub id : StagingBufferId
  pub capacity_bytes : ℕ
  pub pinned : Bool

pub record StagingPool : Type 0 where
  pub next_id : ℕ
  pub allocations : ℕ
  pub active : Map StagingBufferId StagingBufferRecord

abbrev pub empty : StagingPool
empty = record { next_id = 0; allocations = 0; active = [] }

-- The buffer, and the pool that holds it.
unfoldable pub allocate : StagingPool → ℕ → StagingBufferRecord × StagingPool
allocate p bytes =
    let buffer : StagingBufferRecord = record {
      id = u64 (p.next_id + 1);
      capacity_bytes = bytes;
      pinned = true;
    } in
    (
      buffer,
      record {
        next_id = buffer.id;
        allocations = u64 (p.allocations + 1);
        active = insert buffer.id buffer p.active;
      },
    )

unfoldable pub release : StagingPool → StagingBufferId → StagingPool
release p id = record p { active = remove id p.active }

abbrev pub active_count : StagingPool → ℕ
active_count p = length p.active
