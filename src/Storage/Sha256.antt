-- ===== src/Storage/Sha256.antt =====
-- The SHA-256 of server/storage.c. A `uint32_t` is a number below 2 ^ 32, and sums wrap around.
use Prim.Native.Nat.{bit_and, bit_or, bit_xor, ◌^◌}
use asciigame.Base.{
  ℕ, zero, suc, ◌+◌, ◌-◌, ◌*◌, ◌/◌, ◌%◌, List, [], ◌∷◌, ◌++◌, length, get_or, take, drop, replicate,
  ltb, if◌then◌else◌,
}
use asciigame.Text.{Text}

abbrev pub u32 : ℕ → ℕ
u32 n = n % 2 ^ 32

abbrev pub sha256_k : List ℕ
sha256_k =
    0x428a2f98 ∷ 0x71374491 ∷ 0xb5c0fbcf ∷ 0xe9b5dba5 ∷ 0x3956c25b ∷ 0x59f111f1 ∷ 0x923f82a4
    ∷ 0xab1c5ed5 ∷ 0xd807aa98 ∷ 0x12835b01 ∷ 0x243185be ∷ 0x550c7dc3 ∷ 0x72be5d74 ∷ 0x80deb1fe
    ∷ 0x9bdc06a7 ∷ 0xc19bf174 ∷ 0xe49b69c1 ∷ 0xefbe4786 ∷ 0x0fc19dc6 ∷ 0x240ca1cc ∷ 0x2de92c6f
    ∷ 0x4a7484aa ∷ 0x5cb0a9dc ∷ 0x76f988da ∷ 0x983e5152 ∷ 0xa831c66d ∷ 0xb00327c8 ∷ 0xbf597fc7
    ∷ 0xc6e00bf3 ∷ 0xd5a79147 ∷ 0x06ca6351 ∷ 0x14292967 ∷ 0x27b70a85 ∷ 0x2e1b2138 ∷ 0x4d2c6dfc
    ∷ 0x53380d13 ∷ 0x650a7354 ∷ 0x766a0abb ∷ 0x81c2c92e ∷ 0x92722c85 ∷ 0xa2bfe8a1 ∷ 0xa81a664b
    ∷ 0xc24b8b70 ∷ 0xc76c51a3 ∷ 0xd192e819 ∷ 0xd6990624 ∷ 0xf40e3585 ∷ 0x106aa070 ∷ 0x19a4c116
    ∷ 0x1e376c08 ∷ 0x2748774c ∷ 0x34b0bcb5 ∷ 0x391c0cb3 ∷ 0x4ed8aa4a ∷ 0x5b9cca4f ∷ 0x682e6ff3
    ∷ 0x748f82ee ∷ 0x78a5636f ∷ 0x84c87814 ∷ 0x8cc70208 ∷ 0x90befffa ∷ 0xa4506ceb ∷ 0xbef9a3f7
    ∷ 0xc67178f2 ∷ []

abbrev pub rotr : ℕ → ℕ → ℕ
rotr x n = bit_or (x / 2 ^ n) (u32 (x * 2 ^ (32 - n)))

-- `~x` is `x ^ 0xffffffff`.
abbrev pub ch : ℕ → ℕ → ℕ → ℕ
ch x y z = bit_xor (bit_and x y) (bit_and (bit_xor x 0xffffffff) z)

abbrev pub maj : ℕ → ℕ → ℕ → ℕ
maj x y z = bit_xor (bit_xor (bit_and x y) (bit_and x z)) (bit_and y z)

abbrev pub ep0 : ℕ → ℕ
ep0 x = bit_xor (bit_xor (rotr x 2) (rotr x 13)) (rotr x 22)

abbrev pub ep1 : ℕ → ℕ
ep1 x = bit_xor (bit_xor (rotr x 6) (rotr x 11)) (rotr x 25)

abbrev pub sig0 : ℕ → ℕ
sig0 x = bit_xor (bit_xor (rotr x 7) (rotr x 18)) (x / 2 ^ 3)

abbrev pub sig1 : ℕ → ℕ
sig1 x = bit_xor (bit_xor (rotr x 17) (rotr x 19)) (x / 2 ^ 10)

-- Four bytes, the first one highest.
abbrev pub words : ℕ → List ℕ → List ℕ
words zero bytes = []
words (suc n) bytes =
    (get_or bytes 0 0 * 2 ^ 24
      + get_or bytes 1 0 * 2 ^ 16
      + get_or bytes 2 0 * 2 ^ 8
      + get_or bytes 3 0)
    ∷ words n (drop 4 bytes)

-- `m[i]` for `n` more indices `i` from the length of `m` on.
abbrev pub schedule : ℕ → List ℕ → List ℕ
schedule zero m = m
schedule (suc n) m =
    let i = length m in
    let next = u32 (
      sig1 (get_or m (i - 2) 0)
      + get_or m (i - 7) 0
      + sig0 (get_or m (i - 15) 0)
      + get_or m (i - 16) 0) in
    schedule n (m ++ (next ∷ []))

-- `state[8]`, and also the working variables a to h.
pub record State : Type 0 where
  pub a : ℕ
  pub b : ℕ
  pub c : ℕ
  pub d : ℕ
  pub e : ℕ
  pub f : ℕ
  pub g : ℕ
  pub h : ℕ

abbrev pub round : ℕ → ℕ → State → State
round k m s =
    let t1 = u32 (s.h + ep1 s.e + ch s.e s.f s.g + k + m) in
    let t2 = u32 (ep0 s.a + maj s.a s.b s.c) in
    record {
      a = u32 (t1 + t2);
      b = s.a;
      c = s.b;
      d = s.c;
      e = u32 (s.d + t1);
      f = s.e;
      g = s.f;
      h = s.g;
    }

abbrev pub rounds : List ℕ → List ℕ → State → State
rounds (k ∷ ks) (m ∷ ms) s = rounds ks ms (round k m s)
rounds _ _ s = s

unfoldable pub sha256_transform : State → List ℕ → State
sha256_transform s bytes =
    let t = rounds sha256_k (schedule 48 (words 16 bytes)) s in
    record {
      a = u32 (s.a + t.a);
      b = u32 (s.b + t.b);
      c = u32 (s.c + t.c);
      d = u32 (s.d + t.d);
      e = u32 (s.e + t.e);
      f = u32 (s.f + t.f);
      g = u32 (s.g + t.g);
      h = u32 (s.h + t.h);
    }

abbrev pub first_state : State
first_state = record {
  a = 0x6a09e667;
  b = 0xbb67ae85;
  c = 0x3c6ef372;
  d = 0xa54ff53a;
  e = 0x510e527f;
  f = 0x9b05688c;
  g = 0x1f83d9ab;
  h = 0x5be0cd19;
}

-- `n` bytes of a number, the highest first.
abbrev pub big_endian : ℕ → ℕ → List ℕ
big_endian zero x = []
big_endian (suc n) x = big_endian n (x / 256) ++ (x % 256 ∷ [])

abbrev pub padded_len : ℕ → ℕ
padded_len len = ((len + 8) / 64 + 1) * 64

-- The text, the byte 0x80, zeros, and the number of bits.
abbrev pub padded : Text → List ℕ
padded input =
    let len = length input in
    input ++ 0x80 ∷ (replicate (padded_len len - len - 9) 0 ++ big_endian 8 (len * 8))

abbrev pub blocks : ℕ → List ℕ → State → State
blocks zero bytes s = s
blocks (suc n) bytes s = blocks n (drop 64 bytes) (sha256_transform s (take 64 bytes))

-- A digit of %x.
abbrev pub hex_digit : ℕ → ℕ
hex_digit n = if ltb n 10 then b'0' + n else b'a' + (n - 10)

abbrev pub hex_digits : ℕ → ℕ → Text
hex_digits zero x = []
hex_digits (suc n) x = hex_digits n (x / 16) ++ (hex_digit (x % 16) ∷ [])

-- `sprintf(output + i * 8, "%08x", state[i])` for each word.
abbrev pub hex_words : List ℕ → Text
hex_words [] = []
hex_words (w ∷ ws) = hex_digits 8 w ++ hex_words ws

abbrev pub hex_state : State → Text
hex_state s = hex_words (s.a ∷ s.b ∷ s.c ∷ s.d ∷ s.e ∷ s.f ∷ s.g ∷ s.h ∷ [])

-- The memory for the padding is taken to be there.
unfoldable pub sha256 : Text → Text
unfolding sha256_transform
sha256 input = hex_state (blocks (padded_len (length input) / 64) (padded input) first_state)
