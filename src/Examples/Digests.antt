-- ===== src/Examples/Digests.antt =====
-- Runs of the digest of src/discovery.rs at the published test vectors.
use faber_runtime.Base.{◌≡◌, refl, ◌++◌, [], ◌∷◌, take, drop, length}
use faber_runtime.Base.Key.{text}
use faber_runtime.Discovery.Sha256.{
  Sha256, new, absorb, fill, keep, pad, digest, words_bytes, compress,
}
use faber_runtime.Discovery.Sha256.Streaming.{feed_all}
use faber_runtime.Discovery.Sha256.Padding.{padding, digest_lem}

digest-nil :
    digest []
    ≡ 227 ∷ 176 ∷ 196 ∷ 66 ∷ 152 ∷ 252 ∷ 28 ∷ 20 ∷ 154 ∷ 251 ∷ 244 ∷ 200 ∷ 153 ∷ 111 ∷ 185 ∷ 36 ∷ 39
      ∷ 174 ∷ 65 ∷ 228 ∷ 100 ∷ 155 ∷ 147 ∷ 76 ∷ 164 ∷ 149 ∷ 153 ∷ 27 ∷ 120 ∷ 82 ∷ 184 ∷ 85 ∷ []
unfolding digest absorb fill keep pad words_bytes compress take drop
digest-nil = refl

digest-abc :
    digest (text "abc")
    ≡ 186 ∷ 120 ∷ 22 ∷ 191 ∷ 143 ∷ 1 ∷ 207 ∷ 234 ∷ 65 ∷ 65 ∷ 64 ∷ 222 ∷ 93 ∷ 174 ∷ 34 ∷ 35 ∷ 176 ∷ 3
      ∷ 97 ∷ 163 ∷ 150 ∷ 23 ∷ 122 ∷ 156 ∷ 180 ∷ 16 ∷ 255 ∷ 97 ∷ 242 ∷ 0 ∷ 21 ∷ 173 ∷ []
unfolding digest absorb fill keep pad words_bytes compress take drop
digest-abc = refl

-- Two blocks.
digest_two_blocks :
    digest (text "abcdbcdecdefdefgefghfghighijhijkijkljklmklmnlmnomnopnopq")
    ≡ 36 ∷ 141 ∷ 106 ∷ 97 ∷ 210 ∷ 6 ∷ 56 ∷ 184 ∷ 229 ∷ 192 ∷ 38 ∷ 147 ∷ 12 ∷ 62 ∷ 96 ∷ 57 ∷ 163 ∷ 60
      ∷ 228 ∷ 89 ∷ 100 ∷ 255 ∷ 33 ∷ 103 ∷ 246 ∷ 236 ∷ 237 ∷ 212 ∷ 25 ∷ 219 ∷ 6 ∷ 193 ∷ []
unfolding digest absorb fill keep pad words_bytes compress take drop
digest_two_blocks = refl

digest_lem_example :
    digest (text "abc")
    ≡ words_bytes (feed_all new.state [] (text "abc" ++ padding (length (text "abc")))).0
digest_lem_example = digest_lem (text "abc")

abbrev half_fed : Sha256
half_fed = record { state = new.state; buf = text "ab"; total_len = 2 }
