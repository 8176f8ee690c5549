-- ===== src/Examples/Storage.antt =====
-- src/arena.rs, src/kv_cache.rs, src/partition.rs and src/device_identity.rs on small inputs.
use faber_runtime.Base.{
  ℕ, ◌+◌, ◌*◌, ◌≡◌, refl, ◌≤◌, ◌<◌, none, some, List, [], ◌∷◌, length, arith, if◌then◌else◌,
}
use faber_runtime.Base.Word.{u32_mod, u64, checked_add, checked_mul}
use faber_runtime.Base.Result.{ok}
use faber_runtime.Base.Key.{text}
use faber_runtime.Arena.{
  Arena, ArenaHandle, live, free, new, insert, fill, get, remove, same_handle,
}
use faber_runtime.Arena.Invariant.{IsValid, Inserted}
use faber_runtime.Arena.Store.{insert-Inserted, get-remove}
use faber_runtime.Arena.History.{Call, inserts, removes, step, run, run-new-IsValid}
use faber_runtime.Arena.History.Stale.{run_stale}
use faber_runtime.Arena.Recycle.{recycle, recycle_revives}
use faber_runtime.Kv as Kv
use faber_runtime.Kv.{
  KvCacheLayout, f32, fixed, bytes, elements_per_slot, storage_bytes_per_slot, total_bytes,
  admitted_bytes,
}
use faber_runtime.Kv.Bytes.{new-IsLayout, exact_slot, admitted_bytes_exact, total_bytes_wraps}
use faber_runtime.Device.{PhysicalDeviceId, metal, cuda}
use faber_runtime.Device.Encoding.{canonical_bytes_inv}
use faber_runtime.Partition as Partition
use faber_runtime.Partition.{
  PartitionBudgetLedger, AdmissionRequest, VirtualDevicePartition, active, admit,
}
use faber_runtime.Partition.Admission.{ledger_sum, IsAdmitted, admit_sound}

-- Slots 0 and 2 are live, slot 1 is free.
abbrev arena : Arena ℕ
arena = record {
  slots = live 0 10 ∷ free 1 none ∷ live 3 30 ∷ [];
  free_head = some 1;
  live_count = 2;
}

abbrev last : ArenaHandle
last = record { index = 2; generation = 3 }

get_test : get arena last ≡ some 30
unfolding get
get_test = refl

arena-IsValid : IsValid arena
arena-IsValid = record {
  chain = 1 ∷ [];
  linked = (1, none, refl, refl, (refl, tt));
  distinct = (tt, tt);
  counted = refl;
  covered = refl;
}

insert-Inserted_example :
    (b : Arena ℕ) × (h : ArenaHandle) × (insert arena 99 ≡ some (b, h))
    × Inserted arena 99 b h
    × (length b.slots ≤ length arena.slots + 1)
insert-Inserted_example = insert-Inserted arena 99 arena-IsValid (omega arith)

get-remove_example :
    get (remove arena last).1 last ≡ (if same_handle last last then none else get arena last)
get-remove_example = get-remove arena last last

run-new-IsValid_example :
    (b : Arena ℕ) × (run new (inserts 1 ∷ inserts 2 ∷ removes last ∷ inserts 3 ∷ []) ≡ some b)
    × IsValid b
run-new-IsValid_example =
    run-new-IsValid (inserts 1 ∷ inserts 2 ∷ removes last ∷ inserts 3 ∷ []) (omega arith)

-- The slot is reused, another value is removed and its slot reused.
abbrev calls : List (Call ℕ)
calls = inserts 5 ∷ removes (record { index = 0; generation = 0 }) ∷ inserts 6 ∷ inserts 7 ∷ []

abbrev arena_after : Arena ℕ
arena_after = record {
  slots = live 1 6 ∷ live 1 7 ∷ live 4 5 ∷ [];
  free_head = none;
  live_count = 3;
}

calls_test : run (remove arena last).1 calls ≡ some arena_after
unfolding run step insert fill remove
calls_test = refl

run_stale_example : get arena_after last ≡ none
run_stale_example =
    run_stale arena arena_after last 30 calls get_test (omega arith) (omega arith) calls_test

recycle_revives_example :
    (b : Arena ℕ) × (z : ℕ) × (recycle u32_mod arena last 77 ≡ some (b, last))
    × (get b last ≡ some z)
recycle_revives_example = recycle_revives arena last 77 30 get_test (omega arith)

abbrev layout : KvCacheLayout
layout = record {
  slots = 2;
  context_length = 128;
  layer_count = 2;
  kv_head_count = 4;
  head_dim = 64;
  dtype = f32;
  reserve_policy = fixed 100;
}

layout_test : Kv.new 2 128 2 4 64 f32 (fixed 100) ≡ some layout
unfolding Kv.new
layout_test = refl

admitted_bytes_exact_example : admitted_bytes layout ≡ checked_add (exact_slot layout * 2) 100
admitted_bytes_exact_example =
    admitted_bytes_exact layout (new-IsLayout 2 128 2 4 64 f32 (fixed 100) layout_test)
      (omega arith)

abbrev huge : KvCacheLayout
huge = record {
  slots = 1;
  context_length = 2147483648;
  layer_count = 1;
  kv_head_count = 2147483648;
  head_dim = 4;
  dtype = f32;
  reserve_policy = fixed 0;
}

huge_test : Kv.new 1 2147483648 1 2147483648 (4 * 1) f32 (fixed 0) ≡ some huge
unfolding Kv.new
huge_test = refl

-- 2^66 bytes a slot.
total_bytes_wraps_example :
    (total_bytes huge ≡ checked_mul (u64 (exact_slot huge)) huge.slots)
    × (u64 (exact_slot huge) * huge.slots < exact_slot huge * huge.slots)
total_bytes_wraps_example =
    total_bytes_wraps huge (new-IsLayout 1 2147483648 1 2147483648 4 f32 (fixed 0) huge_test)
      (omega arith)

huge_total : total_bytes huge ≡ some 0
unfolding total_bytes storage_bytes_per_slot elements_per_slot
huge_total = refl

abbrev gpu : PhysicalDeviceId
gpu = record { facts = metal (record { registry_id = text "gpu" }) }

abbrev card : PhysicalDeviceId
card = record { facts = cuda (record { pci_uuid = text "card"; driver_uuid = some (text "d") }) }

canonical_bytes_inv_example : (card ≡ card) × (◌≡◌ {A = List ℕ} (1 ∷ []) (1 ∷ []))
canonical_bytes_inv_example =
    canonical_bytes_inv card card (1 ∷ []) (1 ∷ []) (omega arith, omega arith)
      (omega arith, omega arith) refl

abbrev ledger : PartitionBudgetLedger
ledger = record {
  weight_bytes = 10;
  kv_cache_bytes = 20;
  activation_scratch_bytes = 30;
  module_storage_bytes = 0;
  allocator_overhead_bytes = 5;
  transfer_staging_bytes = 7;
  concurrent_state_bytes = 0;
}

abbrev request : AdmissionRequest
request = record { partition_id = 1; bound_device = gpu; declared = ledger }

abbrev partition : VirtualDevicePartition
partition = record { id = 1; bound_device = gpu; ledger = ledger; safe_limit = 72; state = active }

admit_test : admit request 72 ≡ ok partition
unfolding admit Partition.total_bytes
admit_test = refl

admit_sound_example : (ledger_sum ledger ≤ 72) × IsAdmitted request 72 partition
admit_sound_example = admit_sound request 72 admit_test
