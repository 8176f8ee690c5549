-- ===== src/Kv/Bytes.antt =====
-- The byte figures of src/kv_cache.rs against the exact product of a layout's dimensions.
use native.Mathlib.Nat.{mod-eq_of_lt, add-mul-mod_self_right}
use faber_runtime.Base.{ℕ, ◌+◌, ◌/◌, sym, ap, ◌∙◌, ◌*◌, ◌<◌, ◌≤◌, ◌≡◌, refl, some, arith, lt→ltb}
use faber_runtime.Base.Word.{u64_mod, u64, checked_add, checked_mul}
use faber_runtime.Kv.{
  KvCacheLayout, KvCacheDtype, f32, KvReservePolicy, bytes, new, elements_per_slot,
  storage_bytes_per_slot, byte_size, total_bytes, admitted_bytes,
}

-- The layouts that `new` builds.
pub record IsLayout (l : KvCacheLayout) : Type 0 where
  pub slots_pos : 0 < l.slots
  pub context_pos : 0 < l.context_length
  pub layers_pos : 0 < l.layer_count
  pub heads_pos : 0 < l.kv_head_count
  pub dim_pos : 0 < l.head_dim

pub new-IsLayout :
    (s c n h d : ℕ) (t : KvCacheDtype) (r : KvReservePolicy) {l : KvCacheLayout}
    → new s c n h d t r ≡ some l
    → IsLayout l
unfolding new
new-IsLayout s c n h d t r e = ground arith

-- Two resident caches of 4-byte elements: the figure without any wrap-around.
abbrev pub exact_slot : KvCacheLayout → ℕ
exact_slot l = l.context_length * l.kv_head_count * l.head_dim * l.layer_count * 2 * 4

lt_of_mul : (a b : ℕ) → 0 < b → a * b < u64_mod → a < u64_mod
lt_of_mul a b p h = grind arith

byte_size_lem : (t : KvCacheDtype) → byte_size t ≡ 4
byte_size_lem f32 = refl

storage_exact :
    (l : KvCacheLayout)
    → IsLayout l
    → exact_slot l < u64_mod
    → storage_bytes_per_slot l ≡ exact_slot l
unfolding storage_bytes_per_slot elements_per_slot
storage_exact l v fits =
    let e5 =
      lt_of_mul (l.context_length * l.kv_head_count * l.head_dim * l.layer_count * 2) 4
        (omega arith) fits in
    let e4 =
      lt_of_mul (l.context_length * l.kv_head_count * l.head_dim * l.layer_count) 2 (omega arith)
        e5 in
    let e3 =
      lt_of_mul (l.context_length * l.kv_head_count * l.head_dim) l.layer_count v.layers_pos e4 in
    let e2 = lt_of_mul (l.context_length * l.kv_head_count) l.head_dim v.dim_pos e3 in
    rw (
      byte_size_lem,
      mod-eq_of_lt e2,
      mod-eq_of_lt e3,
      mod-eq_of_lt e4,
      mod-eq_of_lt e5,
      mod-eq_of_lt fits,
    )

-- The figure is the exact product whenever that fits 64 bits.
pub total_bytes_exact :
    (l : KvCacheLayout)
    → IsLayout l
    → exact_slot l * l.slots < u64_mod
    → total_bytes l ≡ some (exact_slot l * l.slots)
unfolding total_bytes
total_bytes_exact l v fits =
    rw (storage_exact l v (lt_of_mul (exact_slot l) l.slots v.slots_pos fits), lt→ltb _ _ fits)

-- If the exact product of a layout fits 64 bits, the admitted figure is that product and the
-- reserve, and is refused just if this sum does not fit.
pub admitted_bytes_exact :
    (l : KvCacheLayout)
    → IsLayout l
    → exact_slot l * l.slots < u64_mod
    → admitted_bytes l ≡ checked_add (exact_slot l * l.slots) (bytes l.reserve_policy)
unfolding admitted_bytes
admitted_bytes_exact l v fits = rw (total_bytes_exact l v fits, admitted_bytes)

-- A factor that was cut to 64 bits makes no difference to a product that is.
split_product : (q r b : ℕ) → (r + q * u64_mod) * b ≡ r * b + q * b * u64_mod
split_product q r b = omega arith

u64-u64 : (a b : ℕ) → u64 (u64 a * b) ≡ u64 (a * b)
u64-u64 a b =
    let parts : a ≡ u64 a + a / u64_mod * u64_mod = omega arith in
    sym (add-mul-mod_self_right (u64 a * b) (a / u64_mod * b) u64_mod)
    ∙ ap u64 (sym (split_product (a / u64_mod) (u64 a) b))
    ∙ ap (λ x. u64 (x * b)) (sym parts)

storage_cut : (l : KvCacheLayout) → storage_bytes_per_slot l ≡ u64 (exact_slot l)
unfolding storage_bytes_per_slot elements_per_slot
storage_cut l =
    let p2 = l.context_length * l.kv_head_count in
    let p3 = p2 * l.head_dim in
    let p4 = p3 * l.layer_count in
    rw (
      byte_size_lem,
      u64-u64 p2 l.head_dim,
      u64-u64 p3 l.layer_count,
      u64-u64 p4 2,
      u64-u64 (p4 * 2) 4,
    )

total_bytes_cut : (l : KvCacheLayout) → total_bytes l ≡ checked_mul (u64 (exact_slot l)) l.slots
unfolding total_bytes
total_bytes_cut l = ap (λ n. checked_mul n l.slots) (storage_cut l)

lt-mul : (a b c : ℕ) → a < b → 0 < c → a * c < b * c
lt-mul a b c h p = grind arith

-- A layout of at least 2^64 bytes a slot is not refused for that. Its figure is the bytes of a slot
-- cut to 64 bits, times the slots, which is less than the layout takes; only that last product is
-- checked.
pub total_bytes_wraps :
    (l : KvCacheLayout)
    → IsLayout l
    → u64_mod ≤ exact_slot l
    → (total_bytes l ≡ checked_mul (u64 (exact_slot l)) l.slots)
      × (u64 (exact_slot l) * l.slots < exact_slot l * l.slots)
total_bytes_wraps l v h = (
  total_bytes_cut l,
  lt-mul (u64 (exact_slot l)) (exact_slot l) l.slots (omega arith) v.slots_pos,
)
