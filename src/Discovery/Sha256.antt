-- ===== src/Discovery/Sha256.antt =====
-- The digest of src/discovery.rs: `Sha256`, its buffering and its compression of blocks. The field
-- `buf` holds the first `buf_len` bytes of the source's array, the only ones that it reads.
pub mod Streaming
pub mod Padding
use Prim.Native.Nat.{bit_xor, bit_and}
use faber_runtime.Base.{
  ℕ, zero, suc, ◌+◌, ◌-◌, ◌*◌, ◌/◌, ◌%◌, ◌^◌, min, List, [], ◌∷◌, ◌++◌, length, get_or, take, drop,
  ltb, leb, ◌==◌, if◌then◌else◌,
}
use faber_runtime.Base.Word.{u32, u64, u32_mod}

-- The eight words of the chaining value, and the working variables of a round.
pub record Words : Type 0 where
  pub a : ℕ
  pub b : ℕ
  pub c : ℕ
  pub d : ℕ
  pub e : ℕ
  pub f : ℕ
  pub g : ℕ
  pub h : ℕ

pub record Sha256 : Type 0 where
  pub state : Words
  pub buf : List ℕ
  pub total_len : ℕ

abbrev pub sha256_k : List ℕ
sha256_k =
    0x428a2f98 ∷ 0x71374491 ∷ 0xb5c0fbcf ∷ 0xe9b5dba5 ∷ 0x3956c25b ∷ 0x59f111f1 ∷ 0x923f82a4
    ∷ 0xab1c5ed5 ∷ 0xd807aa98 ∷ 0x12835b01 ∷ 0x243185be ∷ 0x550c7dc3 ∷ 0x72be5d74 ∷ 0x80deb1fe
    ∷ 0x9bdc06a7 ∷ 0xc19bf174 ∷ 0xe49b69c1 ∷ 0xefbe4786 ∷ 0x0fc19dc6 ∷ 0x240ca1cc ∷ 0x2de92c6f
    ∷ 0x4a7484aa ∷ 0x5cb0a9dc ∷ 0x76f988da ∷ 0x983e5152 ∷ 0xa831c66d ∷ 0xb00327c8 ∷ 0xbf597fc7
    ∷ 0xc6e00bf3 ∷ 0xd5a79147 ∷ 0x06ca6351 ∷ 0x14292967 ∷ 0x27b70a85 ∷ 0x2e1b2138 ∷ 0x4d2c6dfc
    ∷ 0x53380d13 ∷ 0x650a7354 ∷ 0x766a0abb ∷ 0x81c2c92e ∷ 0x92722c85 ∷ 0xa2bfe8a1 ∷ 0xa81a664b
    ∷ 0xc24b8b70 ∷ 0xc76c51a3 ∷ 0xd192e819 ∷ 0xd6990624 ∷ 0xf40e3585 ∷ 0x106aa070 ∷ 0x19a4c116
    ∷ 0x1e376c08 ∷ 0x2748774c ∷ 0x34b0bcb5 ∷ 0x391c0cb3 ∷ 0x4ed8aa4a ∷ 0x5b9cca4f ∷ 0x682e6ff3
    ∷ 0x748f82ee ∷ 0x78a5636f ∷ 0x84c87814 ∷ 0x8cc70208 ∷ 0x90befffa ∷ 0xa4506ceb ∷ 0xbef9a3f7
    ∷ 0xc67178f2 ∷ []

unfoldable pub new : Sha256
new = record {
  state = record {
    a = 0x6a09e667;
    b = 0xbb67ae85;
    c = 0x3c6ef372;
    d = 0xa54ff53a;
    e = 0x510e527f;
    f = 0x9b05688c;
    g = 0x1f83d9ab;
    h = 0x5be0cd19;
  };
  buf = [];
  total_len = 0;
}

-- `u32::rotate_right`, for a rotation of less than a whole word.
abbrev pub rotate_right : ℕ → ℕ → ℕ
rotate_right x k = x / 2 ^ k + (x % 2 ^ k) * 2 ^ (32 - k)

abbrev pub complement : ℕ → ℕ
complement x = u32_mod - 1 - x

unfoldable pub be_words : List ℕ → List ℕ
be_words (p ∷ q ∷ r ∷ s ∷ rest) = (p * 16777216 + q * 65536 + r * 256 + s) ∷ be_words rest
be_words _ = []

-- The next word of the message schedule, from the words before it.
unfoldable pub next_word : List ℕ → ℕ
next_word w =
    let i = length w in
    let w15 = get_or w (i - 15) 0 in
    let w2 = get_or w (i - 2) 0 in
    let s0 = bit_xor (bit_xor (rotate_right w15 7) (rotate_right w15 18)) (w15 / 2 ^ 3) in
    let s1 = bit_xor (bit_xor (rotate_right w2 17) (rotate_right w2 19)) (w2 / 2 ^ 10) in
    u32 (u32 (u32 (get_or w (i - 16) 0 + s0) + get_or w (i - 7) 0) + s1)

unfoldable pub extend : ℕ → List ℕ → List ℕ
extend zero w = w
extend (suc n) w = extend n (w ++ next_word w ∷ [])

unfoldable pub round : Words → ℕ → ℕ → Words
round v k w =
    let s1 = bit_xor (bit_xor (rotate_right v.e 6) (rotate_right v.e 11)) (rotate_right v.e 25) in
    let ch = bit_xor (bit_and v.e v.f) (bit_and (complement v.e) v.g) in
    let temp1 = u32 (u32 (u32 (u32 (v.h + s1) + ch) + k) + w) in
    let s0 = bit_xor (bit_xor (rotate_right v.a 2) (rotate_right v.a 13)) (rotate_right v.a 22) in
    let maj = bit_xor (bit_xor (bit_and v.a v.b) (bit_and v.a v.c)) (bit_and v.b v.c) in
    let temp2 = u32 (s0 + maj) in
    record {
      a = u32 (temp1 + temp2);
      b = v.a;
      c = v.b;
      d = v.c;
      e = u32 (v.d + temp1);
      f = v.e;
      g = v.f;
      h = v.g;
    }

unfoldable pub rounds : List ℕ → List ℕ → Words → Words
rounds (k ∷ ks) (w ∷ ws) v = rounds ks ws (round v k w)
rounds _ _ v = v

unfoldable pub compress : Words → List ℕ → Words
unfolding be_words next_word extend round rounds
compress s block =
    let v = rounds sha256_k (extend 48 (take 16 (be_words block))) s in
    record {
      a = u32 (s.a + v.a);
      b = u32 (s.b + v.b);
      c = u32 (s.c + v.c);
      d = u32 (s.d + v.d);
      e = u32 (s.e + v.e);
      f = u32 (s.f + v.f);
      g = u32 (s.g + v.g);
      h = u32 (s.h + v.h);
    }

-- `while data.len() >= 64`; the fuel is the length of the data.
unfoldable pub absorb : ℕ → Words → List ℕ → Words × List ℕ
absorb zero s input = (s, input)
absorb (suc fuel) s input =
    let rest = absorb fuel (compress s (take 64 input)) (drop 64 input) in
    if leb 64 (length input) then rest else (s, input)

-- The first `if` of `update`: the buffer is filled up, and compressed once it is full.
unfoldable pub fill : Words → List ℕ → List ℕ → Words × List ℕ × List ℕ
fill s buf input =
    let taken = min (64 - length buf) (length input) in
    let filled = buf ++ take taken input in
    if ltb 0 (length buf)
    then (if length filled == 64
        then (compress s filled, [], drop taken input)
        else (s, filled, drop taken input))
    else (s, buf, input)

-- The end of `update`: what is left of the data becomes the buffer.
unfoldable pub keep : List ℕ → List ℕ → List ℕ
keep buf [] = buf
keep buf (x ∷ rest) = x ∷ rest

unfoldable pub update : Sha256 → List ℕ → Sha256
update self input =
    let (filled, buf, rest) = fill self.state self.buf input in
    let (absorbed, left) = absorb (length rest) filled rest in
    record {
      state = absorbed;
      buf = keep buf left;
      total_len = u64 (self.total_len + length input);
    }

-- `while tail.len() % 64 != 56`; 64 rounds are enough.
unfoldable pub pad : ℕ → List ℕ → List ℕ
pad zero tail = tail
pad (suc fuel) tail =
    let longer = pad fuel (tail ++ 0 ∷ []) in if length tail % 64 == 56 then tail else longer

abbrev pub be_u64 : ℕ → List ℕ
be_u64 n =
    (n / 2 ^ 56 % 256)
    ∷ (n / 2 ^ 48 % 256)
    ∷ (n / 2 ^ 40 % 256)
    ∷ (n / 2 ^ 32 % 256)
    ∷ (n / 2 ^ 24 % 256)
    ∷ (n / 2 ^ 16 % 256)
    ∷ (n / 2 ^ 8 % 256)
    ∷ (n % 256)
    ∷ []

abbrev pub be_u32 : ℕ → List ℕ
be_u32 n = (n / 2 ^ 24 % 256) ∷ (n / 2 ^ 16 % 256) ∷ (n / 2 ^ 8 % 256) ∷ (n % 256) ∷ []

unfoldable pub words_bytes : Words → List ℕ
words_bytes v =
    be_u32 v.a
    ++ be_u32 v.b
    ++ be_u32 v.c
    ++ be_u32 v.d
    ++ be_u32 v.e
    ++ be_u32 v.f
    ++ be_u32 v.g
    ++ be_u32 v.h

unfoldable pub finalize : Sha256 → List ℕ
finalize self =
    let bit_len = be_u64 (u64 (self.total_len * 8)) in
    let tail = pad 64 (self.buf ++ 0x80 ∷ []) ++ bit_len in
    words_bytes (absorb (length tail) self.state tail).0

unfoldable pub digest : List ℕ → List ℕ
unfolding new update finalize
digest input = finalize (update new input)
