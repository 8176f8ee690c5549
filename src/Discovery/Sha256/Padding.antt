-- ===== src/Discovery/Sha256/Padding.antt =====
-- The digest of src/discovery.rs: its padding, and the digest as one pass over the padded message.
use mathlib.Core.List.{append_assoc, append-nil}
use faber_runtime.Base.{
  ℕ, zero, suc, ◌+◌, ◌-◌, ◌*◌, ◌%◌, ◌≤◌, ◌<◌, ◌≡◌, refl, sym, ap, ◌∙◌, List, [], ◌∷◌, ◌++◌, length,
  arith, length-append, ◌==◌, if◌then◌else◌,
}
use faber_runtime.Base.Word.{u64}
use faber_runtime.Discovery.Sha256.{
  Words, compress, new, pad, be_u64, words_bytes, finalize, digest,
}
use faber_runtime.Discovery.Sha256.Streaming.{
  feed_all, feed_short, feed_all-append, absorb_lem, update_lem, fed, feed_all-room,
}

zeros : ℕ → List ℕ
zeros zero = []
zeros (suc n) = 0 ∷ zeros n

-- The padding of a message of `n` bytes: a one bit, zeros up to eight bytes short of a block, and
-- the length in bits.
pub padding : ℕ → List ℕ
unfolding zeros
padding n = 0x80 ∷ zeros ((119 - n % 64) % 64) ++ be_u64 (u64 (n * 8))

-- The loop stops after `k` zeros, if `k` is the least number that fills up a block but for 8 bytes.
pad_lem :
    (k fuel : ℕ) (tail : List ℕ)
    → k < 64
    → k ≤ fuel
    → (length tail + k) % 64 ≡ 56
    → pad fuel tail ≡ tail ++ zeros k
unfolding pad zeros
pad_lem zero zero tail h f e = sym (append-nil tail)
pad_lem zero (suc fuel) tail h f e = ground (arith, append-nil tail)
pad_lem (suc k) zero tail h f e = absurd (omega arith)
pad_lem (suc k) (suc fuel) tail h f e = ground (
  arith,
  pad_lem k fuel (tail ++ 0 ∷ []),
  length-append tail (0 ∷ []),
  append_assoc tail (0 ∷ []) (zeros k),
)

feed_all-count :
    (s : Words) (buf xs : List ℕ)
    → length (feed_all s buf xs).1 % 64 ≡ (length buf + length xs) % 64
unfolding feed_all
feed_all-count s buf [] = omega arith
feed_all-count s buf (x ∷ xs) =
    let more = buf ++ x ∷ [] in
    let full = length more == 64 in
    let rest =
      feed_all-count (if full then compress s more else s) (if full then [] else more) xs in
    ground (arith, rest, length-append buf (x ∷ []))

-- A full buffer is never kept, so a pass may start from the bytes that are held back.
feed_all-buffer :
    (s : Words) (buf xs : List ℕ) → length buf < 64 → feed_all s [] (buf ++ xs) ≡ feed_all s buf xs
feed_all-buffer s buf xs h =
    rw (feed_all-append s [] buf xs, feed_short s [] buf (omega arith)) refl

tail_lem :
    (buf : List ℕ) (n : ℕ)
    → length buf < 64
    → length buf % 64 ≡ n % 64
    → pad 64 (buf ++ 0x80 ∷ []) ++ be_u64 (u64 (u64 n * 8)) ≡ buf ++ padding n
unfolding padding
tail_lem buf n h e =
    let k = (119 - n % 64) % 64 in
    let bits : u64 (u64 n * 8) ≡ u64 (n * 8) = omega arith in
    let padded =
      pad_lem k 64 (buf ++ 0x80 ∷ []) (omega arith) (omega arith)
        (omega (arith, length-append buf (0x80 ∷ []))) in
    rw (padded, bits) (simp append_assoc)

finalize_lem :
    (s : Words) (buf : List ℕ) (n : ℕ)
    → length buf < 64
    → length buf % 64 ≡ n % 64
    → finalize (fed (s, buf) (u64 n)) ≡ words_bytes (feed_all s buf (padding n)).0
unfolding finalize fed
finalize_lem s buf n h e =
    rw
      (
        tail_lem buf n h e,
        absorb_lem (length (buf ++ padding n)) s (buf ++ padding n) (omega arith),
        feed_all-buffer s buf (padding n) h,
      )
      refl

-- The digest of a message is the chaining value after one pass over the message with its padding,
-- as bytes: the buffering leaves no trace.
pub digest_lem :
    (input : List ℕ)
    → digest input ≡ words_bytes (feed_all new.state [] (input ++ padding (length input))).0
unfolding digest new
digest_lem input =
    let r = feed_all new.state [] input in
    let count : length r.1 % 64 ≡ length input % 64 =
      omega (arith, feed_all-count new.state [] input) in
    let zeroth : new.total_len + length input ≡ length input = omega arith in
    ap finalize (update_lem new input (omega arith))
    ∙ ap (λ (n : ℕ). finalize (fed r (u64 n))) zeroth
    ∙ finalize_lem r.0 r.1 (length input) (feed_all-room new.state [] input (omega arith)) count
    ∙ ap (λ (v : Words × List ℕ). words_bytes v.0)
        (sym (feed_all-append new.state [] input (padding (length input))))
