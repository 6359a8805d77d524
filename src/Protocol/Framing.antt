-- ===== src/Protocol/Framing.antt =====
-- Cutting a byte stream into messages.
use asciigame.Base.{
  ℕ, suc, ◌+◌, ◌<◌, ◌≤◌, ◌≡◌, refl, false, [], ◌∷◌, ◌++◌, arith, ◌==◌, All, length, drop,
  take-length-append, some, none,
}
use asciigame.Text.{Text}
use asciigame.Protocol.{find_newline, protocol_extract_message, extracted, no_message, too_long}

abbrev pub NoNewline : Text → Type 0
NoNewline = All (λ c. (c == 10) ≡ false)

find_newline-append :
    (s rest : Text) → NoNewline s → find_newline (s ++ 10 ∷ rest) ≡ some (length s)
unfolding find_newline
find_newline-append [] rest h = refl
find_newline-append (c ∷ s) rest h = rw (h.0, find_newline-append s rest h.1)

find_newline-none : (s : Text) → NoNewline s → find_newline s ≡ none
unfolding find_newline
find_newline-none [] h = refl
find_newline-none (c ∷ s) h = rw (h.0, find_newline-none s h.1)

drop_past : (s rest : Text) → drop (length s + 1) (s ++ 10 ∷ rest) ≡ rest
drop_past s rest = let e : length s + 1 ≡ suc (length s) = omega arith in rw e (go s)
  where
    go : (t : Text) → drop (suc (length t)) (t ++ 10 ∷ rest) ≡ rest
    go [] = refl
    go (c ∷ t) = go t

-- A buffer that begins with a line gives that line without its newline if it fits, and is reported
-- as too long if not; either way exactly what follows the line is left in the buffer.
pub extract_first_line :
    (s rest : Text) (max_len : ℕ)
    → NoNewline s
    → let (buf, r) = protocol_extract_message (s ++ 10 ∷ rest) max_len in
      (buf ≡ rest)
      × (length s + 1 ≤ max_len → r ≡ extracted s)
      × (max_len < length s + 1 → r ≡ too_long)
unfolding protocol_extract_message
extract_first_line s rest max_len h =
    rw (find_newline-append s rest h, protocol_extract_message)
      (ground (arith, drop_past s rest, take-length-append s (10 ∷ rest)))

-- A buffer without a newline is left as it is, whatever its length.
pub extract_incomplete :
    (s : Text) (max_len : ℕ) → NoNewline s → protocol_extract_message s max_len ≡ (s, no_message)
unfolding protocol_extract_message
extract_incomplete s max_len h = rw (find_newline-none s h, protocol_extract_message)
