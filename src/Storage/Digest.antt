-- ===== src/Storage/Digest.antt =====
-- The digest fits in its place in the record.
use asciigame.Base.{
  ℕ, zero, suc, ◌/◌, ◌%◌, ◌≡◌, refl, ◌*◌, List, [], ◌∷◌, length, length-append, arith,
}
use asciigame.Text.{Text}
use asciigame.Storage.Sha256.{
  sha256, hex_digits, hex_digit, hex_words, hex_state, State, blocks, padded_len, padded,
  first_state,
}

length-hex_digits : (n x : ℕ) → length (hex_digits n x) ≡ n
length-hex_digits zero x = refl
length-hex_digits (suc n) x = omega (
  arith,
  length-append (hex_digits n (x / 16)) (hex_digit (x % 16) ∷ []),
  length-hex_digits n (x / 16),
)

length-hex_words : (ws : List ℕ) → length (hex_words ws) ≡ 8 * length ws
length-hex_words [] = refl
length-hex_words (w ∷ ws) = omega (
  arith,
  length-append (hex_digits 8 w) (hex_words ws),
  length-hex_digits 8 w,
  length-hex_words ws,
)

length-hex_state : (s : State) → length (hex_state s) ≡ 64
length-hex_state s = length-hex_words (s.a ∷ s.b ∷ s.c ∷ s.d ∷ s.e ∷ s.f ∷ s.g ∷ s.h ∷ [])

-- Whatever the password, the digest has 64 bytes, so that it fits in `password_hash[65]`.
pub length-sha256 : (s : Text) → length (sha256 s) ≡ 64
unfolding sha256
length-sha256 s = length-hex_state (blocks (padded_len (length s) / 64) (padded s) first_state)
