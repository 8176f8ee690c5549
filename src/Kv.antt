-- ===== src/Kv.antt =====
-- src/kv_cache.rs: the typed layout of the key/value cache and its byte accounting. The products
-- wrap at 64 bits, as in a build without overflow checks.
pub mod Bytes
use faber_runtime.Base.{ℕ, ◌+◌, ◌*◌, Bool, ◌||◌, Option, none, some, ◌==◌, if◌then◌else◌}
use faber_runtime.Base.Word.{u64, checked_add, checked_mul}
use faber_runtime.Base.Key.{Text, text}

pub data KvCacheDtype : Type 0 where
  f32 : KvCacheDtype

abbrev pub byte_size : KvCacheDtype → ℕ
byte_size f32 = 4

abbrev pub spelling : KvCacheDtype → Text
spelling f32 = text "f32"

pub data KvReservePolicy : Type 0 where
  fixed : ℕ → KvReservePolicy

abbrev pub bytes : KvReservePolicy → ℕ
bytes (fixed n) = n

pub record KvCacheLayout : Type 0 where
  pub slots : ℕ  -- u32
  pub context_length : ℕ  -- u32
  pub layer_count : ℕ  -- u32
  pub kv_head_count : ℕ  -- u32
  pub head_dim : ℕ  -- u32
  pub dtype : KvCacheDtype
  pub reserve_policy : KvReservePolicy

unfoldable pub new : ℕ → ℕ → ℕ → ℕ → ℕ → KvCacheDtype → KvReservePolicy → Option KvCacheLayout
new slots context_length layer_count kv_head_count head_dim dtype reserve_policy =
    if slots == 0 || context_length == 0 || layer_count == 0 || kv_head_count == 0 || head_dim == 0
    then none
    else some (record {
      slots = slots;
      context_length = context_length;
      layer_count = layer_count;
      kv_head_count = kv_head_count;
      head_dim = head_dim;
      dtype = dtype;
      reserve_policy = reserve_policy;
    })

unfoldable pub elements_per_slot : KvCacheLayout → ℕ
elements_per_slot l =
    let per_layer = u64 (u64 (l.context_length * l.kv_head_count) * l.head_dim) in
    u64 (u64 (per_layer * l.layer_count) * 2)

unfoldable pub storage_bytes_per_slot : KvCacheLayout → ℕ
unfolding elements_per_slot
storage_bytes_per_slot l = u64 (elements_per_slot l * byte_size l.dtype)

unfoldable pub total_bytes : KvCacheLayout → Option ℕ
unfolding storage_bytes_per_slot
total_bytes l = checked_mul (storage_bytes_per_slot l) l.slots

pub admitted_bytes : KvCacheLayout → Option ℕ
unfolding total_bytes
admitted_bytes l = elim (total_bytes l) [
  | none ↦ none
  | some total ↦ checked_add total (bytes l.reserve_policy)
]
