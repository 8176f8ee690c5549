-- ===== src/Gguf/Agreement.antt =====
-- The two digests of the runtime, of src/gguf.rs and of src/discovery.rs.
use faber_runtime.Base.{
  ℕ, zero, suc, ◌+◌, ◌*◌, ◌≡◌, refl, ◌∙◌, sym, ap, List, [], ◌∷◌, ◌++◌, length, take, drop, leb,
  ◌==◌, ◌%◌, ◌≤◌, inl, inr, Bool-cases, length-append, if◌then◌else◌, arith,
}
use faber_runtime.Base.Word.{u32, u64}
use faber_runtime.Discovery.Sha256 as Discovery
use faber_runtime.Discovery.Sha256.{
  Words, new, be_words, next_word, extend, round, rounds, absorb, fill, pad, be_u64, words_bytes,
  update, finalize, digest,
}
use faber_runtime.Discovery.Sha256.Streaming.{length-take, keep_nil}
use faber_runtime.Gguf.{
  sha256_k, initial, load, scheduled, schedule, mix, compress, chunks, pad_tail, u64_be_bytes,
  out_bytes, sha256,
}

load-eq-take : (n : ℕ) (block : List ℕ) → load n block ≡ take n (be_words block)
unfolding load be_words take
load-eq-take zero block = refl
load-eq-take (suc n) [] = refl
load-eq-take (suc n) (p ∷ []) = refl
load-eq-take (suc n) (p ∷ q ∷ []) = refl
load-eq-take (suc n) (p ∷ q ∷ r ∷ []) = refl
load-eq-take (suc n) (p ∷ q ∷ r ∷ s ∷ rest) =
    ap (λ ws. (p * 16777216 + q * 65536 + r * 256 + s) ∷ ws) (load-eq-take n rest)

mix-eq-rounds : (ks ws : List ℕ) (v : Words) → mix ks ws v ≡ rounds ks ws v
unfolding mix rounds round
mix-eq-rounds [] ws v = refl
mix-eq-rounds (k ∷ ks) [] v = refl
mix-eq-rounds (k ∷ ks) (w ∷ ws) v = mix-eq-rounds ks ws (round v k w)

length-load : (n : ℕ) (block : List ℕ) → n * 4 ≤ length block → length (load n block) ≡ n
unfolding load
length-load zero block h = refl
length-load (suc n) [] h = absurd (omega arith)
length-load (suc n) (p ∷ []) h = absurd (omega arith)
length-load (suc n) (p ∷ q ∷ []) h = absurd (omega arith)
length-load (suc n) (p ∷ q ∷ r ∷ []) h = absurd (omega arith)
length-load (suc n) (p ∷ q ∷ r ∷ s ∷ rest) h = ap suc (length-load n rest (omega arith))

-- The index counts the words that are there.
schedule-eq-extend : (n j : ℕ) (w : List ℕ) → length w ≡ j → schedule n j w ≡ extend n w
unfolding schedule extend scheduled next_word
schedule-eq-extend zero j w e = refl
schedule-eq-extend (suc n) j w e =
    let word : scheduled j w ≡ next_word w = ap (λ i. scheduled i w) (sym e) in
    schedule-eq-extend n (suc j) (w ++ scheduled j w ∷ [])
      (omega (arith, length-append w (scheduled j w ∷ [])))
    ∙ ap (λ x. extend n (w ++ x ∷ [])) word

added : Words → Words → Words
added h v = record {
  a = u32 (h.a + v.a);
  b = u32 (h.b + v.b);
  c = u32 (h.c + v.c);
  d = u32 (h.d + v.d);
  e = u32 (h.e + v.e);
  f = u32 (h.f + v.f);
  g = u32 (h.g + v.g);
  h = u32 (h.h + v.h);
}

compress-eq-compress :
    (h : Words) (block : List ℕ) → 64 ≤ length block → compress h block ≡ Discovery.compress h block
unfolding compress Discovery.compress added
compress-eq-compress h block long =
    let words = load 16 block in
    ap (added h) (
      mix-eq-rounds sha256_k (schedule 48 16 words) h
      ∙ ap (λ w. rounds sha256_k w h)
          (schedule-eq-extend 48 16 words (length-load 16 block (omega arith))
            ∙ ap (extend 48) (load-eq-take 16 block)))

chunks-eq-absorb : (fuel : ℕ) (h : Words) (rem : List ℕ) → chunks fuel h rem ≡ absorb fuel h rem
unfolding chunks absorb
chunks-eq-absorb zero h rem = refl
chunks-eq-absorb (suc fuel) h rem = elim (Bool-cases (leb 64 (length rem))) [
  | inr e ↦ rw e refl
  | inl e ↦
      let long : 64 ≤ length rem = ground arith in
      let taken = length-take 64 rem long in
      rw e (
        ap (λ x. chunks fuel x (drop 64 rem)) (compress-eq-compress h (take 64 rem) (omega arith))
        ∙ chunks-eq-absorb fuel (Discovery.compress h (take 64 rem)) (drop 64 rem))
]

pad_tail-eq-pad : (fuel : ℕ) (tail : List ℕ) → pad_tail fuel tail ≡ pad fuel tail
unfolding pad_tail pad
pad_tail-eq-pad zero tail = refl
pad_tail-eq-pad (suc fuel) tail =
    ap (λ l. if length tail % 64 == 56 then tail else l) (pad_tail-eq-pad fuel (tail ++ 0 ∷ []))

-- Both end in this way, from the chaining value, the bytes left over and the length in bits.
closing : Words → List ℕ → ℕ → List ℕ
closing s rem bits =
    let tail = pad 64 (rem ++ 0x80 ∷ []) ++ be_u64 bits in
    words_bytes (absorb (length tail) s tail).0

closed-eq-closing :
    (s : Words) (rem : List ℕ) (bits : ℕ)
    → (let tail = pad_tail 64 (rem ++ 0x80 ∷ []) ++ u64_be_bytes bits in
        out_bytes (chunks (length tail) s tail).0)
      ≡ closing s rem bits
unfolding closing out_bytes words_bytes
closed-eq-closing s rem bits =
    ap (λ p. let tail = p ++ u64_be_bytes bits in out_bytes (chunks (length tail) s tail).0)
      (pad_tail-eq-pad 64 (rem ++ 0x80 ∷ []))
    ∙ (let tail = pad 64 (rem ++ 0x80 ∷ []) ++ be_u64 bits in
        ap (λ (x : Words × List ℕ). words_bytes x.0) (chunks-eq-absorb (length tail) s tail))

-- The digest of src/gguf.rs, made in one call with the constants, compression and padding of that
-- file, and the digest of the hasher of src/discovery.rs are the same on every input.
pub sha256-eq-digest : (input : List ℕ) → sha256 input ≡ digest input
unfolding sha256 digest update finalize fill new closing
sha256-eq-digest input =
    let c = chunks (length input) initial input in
    let r = absorb (length input) new.state input in
    let start : c ≡ r = chunks-eq-absorb (length input) initial input in
    let bits : u64 (u64 (length input) * 8) ≡ u64 (u64 (new.total_len + length input) * 8) =
      omega arith in
    closed-eq-closing c.0 c.1 (u64 (u64 (length input) * 8))
    ∙ ap (λ (x : Words × List ℕ). closing x.0 x.1 (u64 (u64 (length input) * 8))) start
    ∙ ap (λ (n : ℕ). closing r.0 r.1 n) bits
    ∙ ap (λ (rem : List ℕ). closing r.0 rem (u64 (u64 (new.total_len + length input) * 8)))
        (sym (keep_nil r.1))
