-- ===== src/Discovery/Sha256/Streaming.antt =====
-- The digest of src/discovery.rs: its buffering, against a hasher that takes one byte at a time.
use mathlib.Core.Path.{ap₂}
use mathlib.Core.List.{append_assoc, append-nil}
use faber_runtime.Base.{
  ℕ, zero, suc, ◌+◌, ◌≤◌, ◌<◌, ◌-◌, min, ==_iff, lt→ltb, ◌≡◌, refl, sym, ap, ◌∙◌, inl, inr, List,
  [], ◌∷◌, ◌++◌, length, take, drop, leb, ◌==◌, if◌then◌else◌, arith, Bool-cases, length-append,
}
use faber_runtime.Base.Word.{u64}
use faber_runtime.Discovery.Sha256.{Words, Sha256, compress, absorb, fill, keep, update}

-- The hasher of reference: a byte joins the buffer, and a buffer of 64 bytes is compressed.
unfoldable pub feed_all : Words → List ℕ → List ℕ → Words × List ℕ
feed_all s buf [] = (s, buf)
feed_all s buf (x ∷ xs) =
    let more = buf ++ x ∷ [] in
    let full = length more == 64 in
    feed_all (if full then compress s more else s) (if full then [] else more) xs

pub feed_short :
    (s : Words) (buf xs : List ℕ) → length buf + length xs < 64 → feed_all s buf xs ≡ (s, buf ++ xs)
unfolding feed_all
feed_short s buf [] h = rw (append-nil buf)
feed_short s buf (x ∷ xs) h = ground (
  arith,
  length-append buf (x ∷ []),
  feed_short s (buf ++ x ∷ []) xs,
  append_assoc buf (x ∷ []) xs,
)

pub feed_full :
    (s : Words) (buf p rest : List ℕ)
    → length buf < 64
    → length buf + length p ≡ 64
    → feed_all s buf (p ++ rest) ≡ feed_all (compress s (buf ++ p)) [] rest
unfolding feed_all
feed_full s buf [] rest h e = absurd (omega arith)
feed_full s buf (x ∷ []) rest h e = ground (arith, length-append buf (x ∷ []))
feed_full s buf (x ∷ y ∷ p) rest h e = ground (
  arith,
  length-append buf (x ∷ []),
  feed_full s (buf ++ x ∷ []) (y ∷ p) rest,
  append_assoc buf (x ∷ []) (y ∷ p),
)

pub feed_all-append :
    (s : Words) (buf xs ys : List ℕ)
    → feed_all s buf (xs ++ ys) ≡ feed_all (feed_all s buf xs).0 (feed_all s buf xs).1 ys
unfolding feed_all
feed_all-append s buf [] ys = refl
feed_all-append s buf (x ∷ xs) ys =
    let more = buf ++ x ∷ [] in
    let full = length more == 64 in
    feed_all-append (if full then compress s more else s) (if full then [] else more) xs ys

pub take-append-drop : (n : ℕ) (l : List ℕ) → take n l ++ drop n l ≡ l
unfolding take drop
take-append-drop zero l = refl
take-append-drop (suc n) [] = refl
take-append-drop (suc n) (x ∷ xs) = ap (◌∷◌ x) (take-append-drop n xs)

pub length-take : (n : ℕ) (l : List ℕ) → n ≤ length l → length (take n l) ≡ n
unfolding take
length-take zero l h = refl
length-take (suc n) [] h = absurd (omega arith)
length-take (suc n) (x ∷ xs) h = omega (arith, length-take n xs (omega arith))

length-drop : (n : ℕ) (l : List ℕ) → n ≤ length l → length (drop n l) + n ≡ length l
unfolding drop
length-drop zero l h = omega arith
length-drop (suc n) [] h = absurd (omega arith)
length-drop (suc n) (x ∷ xs) h = omega (arith, length-drop n xs (omega arith))

take_all : (n : ℕ) (l : List ℕ) → length l ≡ n → take n l ≡ l
unfolding take
take_all zero [] e = refl
take_all zero (x ∷ l) e = absurd (omega arith)
take_all (suc n) [] e = refl
take_all (suc n) (x ∷ l) e = ap (◌∷◌ x) (take_all n l (omega arith))

drop_all : (n : ℕ) (l : List ℕ) → length l ≡ n → drop n l ≡ []
unfolding drop
drop_all zero [] e = refl
drop_all zero (x ∷ l) e = absurd (omega arith)
drop_all (suc n) [] e = refl
drop_all (suc n) (x ∷ l) e = drop_all n l (omega arith)

-- The loop over whole blocks does what the bytes one by one do.
pub absorb_lem :
    (fuel : ℕ) (s : Words) (input : List ℕ)
    → length input ≤ fuel
    → absorb fuel s input ≡ feed_all s [] input
unfolding absorb
absorb_lem zero s [] h = sym (feed_short s [] [] (omega arith))
absorb_lem zero s (x ∷ l) h = absurd (omega arith)
absorb_lem (suc fuel) s input h = elim (Bool-cases (leb 64 (length input))) [
  | inl whole ↦
      let enough : 64 ≤ length input = ground arith in
      let size = length-take 64 input enough in
      let left = length-drop 64 input enough in
      rw whole (
        absorb_lem fuel (compress s (take 64 input)) (drop 64 input) (omega (arith, left))
        ∙ sym (feed_full s [] (take 64 input) (drop 64 input) (omega arith) (omega (arith, size)))
        ∙ ap (feed_all s []) (take-append-drop 64 input))
  | inr short ↦ rw short (sym (feed_short s [] input (ground arith)))
]

pub keep_nil : (l : List ℕ) → keep [] l ≡ l
unfolding keep
keep_nil [] = refl
keep_nil (x ∷ l) = refl

-- What `update` makes of the chaining value and the buffer.
buffered : Words → List ℕ → List ℕ → Words × List ℕ
buffered s buf input =
    let (filled, more, rest) = fill s buf input in
    let (absorbed, left) = absorb (length rest) filled rest in (absorbed, keep more left)

buffered_empty : (s : Words) (input : List ℕ) → buffered s [] input ≡ feed_all s [] input
unfolding buffered fill
buffered_empty s input = rw (absorb_lem (length input) s input (omega arith), keep_nil)

fill_full :
    (s : Words) (buf input : List ℕ)
    → 0 < length buf
    → length buf < 64
    → 64 ≤ length buf + length input
    → let n = 64 - length buf in
      fill s buf input ≡ (compress s (buf ++ take n input), [], drop n input)
unfolding fill
fill_full s buf input some_bytes room enough =
    let n = 64 - length buf in
    let taken : min n (length input) ≡ n = omega arith in
    let size : length (buf ++ take n input) ≡ 64 =
      omega (arith, length-append buf (take n input), length-take n input (omega arith)) in
    rw (taken, (==_iff (length (buf ++ take n input)) 64).1 size, lt→ltb _ _ some_bytes) refl

fill_short :
    (s : Words) (buf input : List ℕ)
    → 0 < length buf
    → length buf + length input < 64
    → fill s buf input ≡ (s, buf ++ input, [])
unfolding fill
fill_short s buf input some_bytes room =
    let taken : min (64 - length buf) (length input) ≡ length input = omega arith in
    rw (taken, take_all (length input) input refl, drop_all (length input) input refl)
      (ground (arith, length-append buf input))

buffered_full :
    (s : Words) (buf input : List ℕ)
    → 0 < length buf
    → length buf < 64
    → 64 ≤ length buf + length input
    → buffered s buf input ≡ feed_all s buf input
unfolding buffered
buffered_full s buf input some_bytes h enough =
    let n = 64 - length buf in
    let rest = drop n input in
    rw
      (
        fill_full s buf input some_bytes h enough,
        absorb_lem (length rest) (compress s (buf ++ take n input)) rest (omega arith),
        keep_nil,
      )
      (sym
          (feed_full s buf (take n input) rest h (omega (arith, length-take n input (omega arith))))
        ∙ ap (feed_all s buf) (take-append-drop n input))

buffered_short :
    (s : Words) (buf input : List ℕ)
    → 0 < length buf
    → length buf + length input < 64
    → buffered s buf input ≡ feed_all s buf input
unfolding buffered absorb keep
buffered_short s buf input some_bytes room =
    rw (fill_short s buf input some_bytes room) (sym (feed_short s buf input room))

buffered_lem :
    (s : Words) (buf input : List ℕ) → length buf < 64 → buffered s buf input ≡ feed_all s buf input
buffered_lem s [] input h = buffered_empty s input
buffered_lem s (x ∷ buf) input h = elim (Bool-cases (leb 64 (length (x ∷ buf) + length input))) [
  | inl full ↦ buffered_full s (x ∷ buf) input (omega arith) h (ground arith)
  | inr room ↦ buffered_short s (x ∷ buf) input (omega arith) (ground arith)
]

-- What a hasher is after `update`, by the reference.
unfoldable pub fed : Words × List ℕ → ℕ → Sha256
fed r n = record { state = r.0; buf = r.1; total_len = n }

pub update_lem :
    (self : Sha256) (input : List ℕ)
    → length self.buf < 64
    → update self input
      ≡ fed (feed_all self.state self.buf input) (u64 (self.total_len + length input))
unfolding update fed
update_lem self input h =
    let e = buffered_lem self.state self.buf input h in
    unfold buffered in ap (λ (r : Words × List ℕ). fed r (u64 (self.total_len + length input))) e

pub feed_all-room :
    (s : Words) (buf xs : List ℕ) → length buf < 64 → length (feed_all s buf xs).1 < 64
unfolding feed_all
feed_all-room s buf [] h = h
feed_all-room s buf (x ∷ xs) h =
    let more = buf ++ x ∷ [] in
    let full = length more == 64 in
    feed_all-room (if full then compress s more else s) (if full then [] else more) xs
      (ground (arith, length-append buf (x ∷ [])))

-- A hasher that was fed keeps fewer than 64 bytes back.
pub update-room :
    (self : Sha256) (input : List ℕ) → length self.buf < 64 → length (update self input).buf < 64
unfolding fed
update-room self input h = rw (update_lem self input h) (feed_all-room self.state self.buf input h)

-- Feeding a hasher whose buffer is not full with two pieces, one after the other, leaves it as
-- feeding it with both pieces at once.
pub update-update :
    (self : Sha256) (xs ys : List ℕ)
    → length self.buf < 64
    → update (update self xs) ys ≡ update self (xs ++ ys)
unfolding fed
update-update self xs ys h =
    let once = update_lem self xs h in
    rw (update_lem (update self xs) ys (update-room self xs h), once, update_lem self (xs ++ ys) h)
      (ap₂ fed (sym (feed_all-append self.state self.buf xs ys))
        (omega (arith, length-append xs ys)))
