-- ===== src/Gguf.antt =====
-- src/gguf.rs: the digest of whole files, which the bound plan uses too. The file has a table of
-- constants, initial words, a compression and a padding of its own, beside those of
-- src/discovery.rs. The eight words stand in the record of the other hasher.
pub mod Agreement
use Prim.Native.Nat.{bit_xor, bit_and}
use faber_runtime.Base.{
  ℕ, zero, suc, ◌+◌, ◌-◌, ◌*◌, ◌/◌, ◌%◌, ◌^◌, List, [], ◌∷◌, ◌++◌, length, get_or, take, drop, leb,
  ◌==◌, if◌then◌else◌,
}
use faber_runtime.Base.Word.{u32, u64}
use faber_runtime.Base.Key.{Text}
use faber_runtime.Base.Decimal.{hex_bytes}
use faber_runtime.Discovery.Sha256.{Words, rotate_right, complement}

abbrev pub sha256_k : List ℕ
sha256_k =
    0x428a2f98 ∷ 0x71374491 ∷ 0xb5c0fbcf ∷ 0xe9b5dba5 ∷ 0x3956c25b ∷ 0x59f111f1 ∷ 0x923f82a4
    ∷ 0xab1c5ed5 ∷ 0xd807aa98 ∷ 0x12835b01 ∷ 0x243185be ∷ 0x550c7dc3 ∷ 0x72be5d74 ∷ 0x80deb1fe
    ∷ 0x9bdc06a7 ∷ 0xc19bf174 ∷ 0xe49b69c1 ∷ 0xefbe4786 ∷ 0x0fc19dc6 ∷ 0x240ca1cc ∷ 0x2de92c6f
    ∷ 0x4a7484aa ∷ 0x5cb0a9dc ∷ 0x76f988da ∷ 0x983e5152 ∷ 0xa831c66d ∷ 0xb00327c8 ∷ 0xbf597fc7
    ∷ 0xc6e00bf3 ∷ 0xd5a79147 ∷ 0x06ca6351 ∷ 0x14292967 ∷ 0x27b70a85 ∷ 0x2e1b2138 ∷ 0x4d2c6dfc
    ∷ 0x53380d13 ∷ 0x650a7354 ∷ 0x766a0abb ∷ 0x81c2c92e ∷ 0x92722c85 ∷ 0xa2bfe8a1 ∷ 0xa81a664b
    ∷ 0xc24b8b70 ∷ 0xc76c51a3 ∷ 0xd192e819 ∷ 0xd6990624 ∷ 0xf40e3585 ∷ 0x106aa070 ∷ 0x19a4c116
    ∷ 0x1e376c08 ∷ 0x2748774c ∷ 0x34b0bcb5 ∷ 0x391c0cb3 ∷ 0x4ed8aa4a ∷ 0x5b9cca4f ∷ 0x682e6ff3
    ∷ 0x748f82ee ∷ 0x78a5636f ∷ 0x84c87814 ∷ 0x8cc70208 ∷ 0x90befffa ∷ 0xa4506ceb ∷ 0xbef9a3f7
    ∷ 0xc67178f2 ∷ []

abbrev pub initial : Words
initial = record {
  a = 0x6a09e667;
  b = 0xbb67ae85;
  c = 0x3c6ef372;
  d = 0xa54ff53a;
  e = 0x510e527f;
  f = 0x9b05688c;
  g = 0x1f83d9ab;
  h = 0x5be0cd19;
}

-- The words of the message, `u32::from_be_bytes` of four bytes each.
pub load : ℕ → List ℕ → List ℕ
load (suc n) (x0 ∷ x1 ∷ x2 ∷ x3 ∷ rest) = (x0 * 16777216 + x1 * 65536 + x2 * 256 + x3) ∷ load n rest
load _ _ = []

-- `w[j]` from the words before it.
pub scheduled : ℕ → List ℕ → ℕ
scheduled j w =
    let w15 = get_or w (j - 15) 0 in
    let w2 = get_or w (j - 2) 0 in
    let s0 = bit_xor (bit_xor (rotate_right w15 7) (rotate_right w15 18)) (w15 / 2 ^ 3) in
    let s1 = bit_xor (bit_xor (rotate_right w2 17) (rotate_right w2 19)) (w2 / 2 ^ 10) in
    u32 (u32 (u32 (get_or w (j - 16) 0 + s0) + get_or w (j - 7) 0) + s1)

-- `for j in 16..64`, as rounds that are left and the index.
pub schedule : ℕ → ℕ → List ℕ → List ℕ
unfolding scheduled
schedule zero j w = w
schedule (suc n) j w = schedule n (suc j) (w ++ scheduled j w ∷ [])

-- The loop over the table, with the word of the same index.
pub mix : List ℕ → List ℕ → Words → Words
mix (k ∷ ks) (w ∷ ws) v =
    let s1 = bit_xor (bit_xor (rotate_right v.e 6) (rotate_right v.e 11)) (rotate_right v.e 25) in
    let ch = bit_xor (bit_and v.e v.f) (bit_and (complement v.e) v.g) in
    let t1 = u32 (u32 (u32 (u32 (v.h + s1) + ch) + k) + w) in
    let s0 = bit_xor (bit_xor (rotate_right v.a 2) (rotate_right v.a 13)) (rotate_right v.a 22) in
    let maj = bit_xor (bit_xor (bit_and v.a v.b) (bit_and v.a v.c)) (bit_and v.b v.c) in
    let t2 = u32 (s0 + maj) in
    mix ks ws (record {
      a = u32 (t1 + t2);
      b = v.a;
      c = v.b;
      d = v.c;
      e = u32 (v.d + t1);
      f = v.e;
      g = v.f;
      h = v.g;
    })
mix _ _ v = v

unfoldable pub compress : Words → List ℕ → Words
unfolding load schedule mix
compress h block =
    let v = mix sha256_k (schedule 48 16 (load 16 block)) h in
    record {
      a = u32 (h.a + v.a);
      b = u32 (h.b + v.b);
      c = u32 (h.c + v.c);
      d = u32 (h.d + v.d);
      e = u32 (h.e + v.e);
      f = u32 (h.f + v.f);
      g = u32 (h.g + v.g);
      h = u32 (h.h + v.h);
    }

-- `chunks_exact(64)` and the remainder; the fuel is the length of the data.
unfoldable pub chunks : ℕ → Words → List ℕ → Words × List ℕ
chunks zero h rem = (h, rem)
chunks (suc fuel) h rem =
    let rest = chunks fuel (compress h (take 64 rem)) (drop 64 rem) in
    if leb 64 (length rem) then rest else (h, rem)

-- `while n % 64 != 56`, over the part of the tail that is in use.
unfoldable pub pad_tail : ℕ → List ℕ → List ℕ
pad_tail zero tail = tail
pad_tail (suc fuel) tail =
    let longer = pad_tail fuel (tail ++ 0 ∷ []) in if length tail % 64 == 56 then tail else longer

-- `to_be_bytes` of 64 and of 32 bits.
abbrev pub u64_be_bytes : ℕ → List ℕ
u64_be_bytes n =
    (n / 2 ^ 56 % 256)
    ∷ (n / 2 ^ 48 % 256)
    ∷ (n / 2 ^ 40 % 256)
    ∷ (n / 2 ^ 32 % 256)
    ∷ (n / 2 ^ 24 % 256)
    ∷ (n / 2 ^ 16 % 256)
    ∷ (n / 2 ^ 8 % 256)
    ∷ (n % 256)
    ∷ []

abbrev u32_be_bytes : ℕ → List ℕ
u32_be_bytes n = (n / 2 ^ 24 % 256) ∷ (n / 2 ^ 16 % 256) ∷ (n / 2 ^ 8 % 256) ∷ (n % 256) ∷ []

unfoldable pub out_bytes : Words → List ℕ
out_bytes h =
    u32_be_bytes h.a
    ++ u32_be_bytes h.b
    ++ u32_be_bytes h.c
    ++ u32_be_bytes h.d
    ++ u32_be_bytes h.e
    ++ u32_be_bytes h.f
    ++ u32_be_bytes h.g
    ++ u32_be_bytes h.h

unfoldable pub sha256 : List ℕ → List ℕ
unfolding chunks pad_tail out_bytes
sha256 input =
    let (h, rem) = chunks (length input) initial input in
    let bit_len = u64 (u64 (length input) * 8) in
    let tail = pad_tail 64 (rem ++ 0x80 ∷ []) ++ u64_be_bytes bit_len in
    out_bytes (chunks (length tail) h tail).0

pub hex : List ℕ → Text
hex bytes = hex_bytes bytes
