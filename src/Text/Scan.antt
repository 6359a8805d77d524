-- ===== src/Text/Scan.antt =====
-- sscanf with the conversions that the code uses: %d, %*d and %*[^c]. Also strtok_r one call at a
-- time, strncmp against a fixed beginning, and strstr.
use Prim.Native.String.{String}
pub mod Printed
pub mod Mixed
use asciigame.Base.{
  ℕ, zero, suc, ◌≡◌, refl, Bool, true, false, List, [], ◌∷◌, ◌++◌, Option, none, some, ℤ, pos, ◌-ℤ◌,
  ◌==◌, if◌then◌else◌, length,
}
use asciigame.Text.{Text, codes}
use asciigame.Text.Decimal.{is_digit, scan_nat, skip_space, drop_digits}

-- An ordinary byte of a format, or a conversion.
pub data Directive : Type 0 where
  byte : ℕ → Directive
  int : Directive
  skip_int : Directive
  skip_until : ℕ → Directive

-- A literal piece of a format in front of the rest.
abbrev pub expect : Text → List Directive → List Directive
expect [] ds = ds
expect (c ∷ s) ds = byte c ∷ expect s ds

abbrev pub starts_digit : Text → Bool
starts_digit [] = false
starts_digit (c ∷ s) = is_digit c

-- A number without leading space, and what follows it.
unfoldable pub number_at : Text → Option (ℤ × Text)
unfolding scan_nat drop_digits ◌-ℤ◌
number_at [] = none
number_at (c ∷ s) =
    if c == b'-'
    then if starts_digit s then some (pos 0 -ℤ pos (scan_nat 0 s), drop_digits s) else none
    else if c == b'+'
    then if starts_digit s then some (pos (scan_nat 0 s), drop_digits s) else none
    else if is_digit c
    then some (pos (scan_nat 0 (c ∷ s)), drop_digits (c ∷ s))
    else none

-- %*[^d] without its first byte.
unfoldable pub drop_until : ℕ → Text → Text
drop_until d [] = []
drop_until d (c ∷ s) = let rest = drop_until d s in if c == d then c ∷ s else rest

-- The numbers that sscanf assigns, in order; their count is its return value where that is compared
-- with a positive number.
unfoldable pub sscanf : List Directive → Text → List ℤ
unfolding number_at drop_until skip_space
sscanf [] s = []
sscanf (byte d ∷ ds) [] = []
sscanf (byte d ∷ ds) (c ∷ s) = let rest = sscanf ds s in if c == d then rest else []
sscanf (int ∷ ds) s = elim (number_at (skip_space s)) [
  | none ↦ []
  | some (z, rest) ↦ z ∷ sscanf ds rest
]
sscanf (skip_int ∷ ds) s = elim (number_at (skip_space s)) [
  | none ↦ []
  | some (z, rest) ↦ sscanf ds rest
]
sscanf (skip_until d ∷ ds) [] = []
sscanf (skip_until d ∷ ds) (c ∷ s) =
    let rest = sscanf ds (drop_until d s) in if c == d then [] else rest

-- A text up to the delimiter, and what follows the delimiter.
unfoldable pub cut : ℕ → Text → Text × Text
cut d [] = ([], [])
cut d (c ∷ s) = let (f, rest) = cut d s in if c == d then ([], s) else (c ∷ f, rest)

-- One call of strtok_r: the next non-empty field, and the position after it.
unfoldable pub strtok : ℕ → Text → Option (Text × Text)
unfolding cut
strtok d [] = none
strtok d (c ∷ s) = let rest = strtok d s in if c == d then rest else some (cut d (c ∷ s))

-- `strncmp(s, prefix, strlen(prefix)) == 0`, and then `s + strlen(prefix)`.
unfoldable pub strip_prefix : Text → Text → Option Text
strip_prefix [] s = some s
strip_prefix (d ∷ p) [] = none
strip_prefix (d ∷ p) (c ∷ s) = let rest = strip_prefix p s in if c == d then rest else none

-- What follows the first occurrence of a text; `none` is the NULL of strstr.
unfoldable pub after_first : Text → Text → Option Text
unfolding strip_prefix
after_first p [] = strip_prefix p []
after_first p (c ∷ s) =
    let later = after_first p s in
    elim (strip_prefix p (c ∷ s)) as (λ _. Option Text) [ none ↦ later | some rest ↦ some rest ]
