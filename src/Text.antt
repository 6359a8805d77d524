-- ===== src/Text.antt =====
-- C strings as the list of their bytes, without the final NUL, and what the code takes from
-- string.h, stdio.h and stdlib.h: strcmp, strncpy, strtok_r, the %d conversion and atoi.
pub mod Decimal
pub mod Fields
pub mod Scan
use Prim.Native.Char.{code}
use Prim.Native.String.{String}
use asciigame.Base.{
  ℕ, suc, ◌-◌, ◌≡◌, refl, ◌↔◌, Bool, true, false, ◌&&◌, List, [], ◌∷◌, ◌++◌, arith, ◌==◌,
  if◌then◌else◌, take,
}

abbrev pub Text : Type 0
Text = List ℕ

-- The bytes of a literal.
abbrev pub codes : String → Text
codes String.[] = []
codes (String.◌∷◌ c s) = code c ∷ codes s

-- `strcmp(s, t) == 0`
unfoldable pub text_eq : Text → Text → Bool
text_eq [] [] = true
text_eq [] (d ∷ t) = false
text_eq (c ∷ s) [] = false
text_eq (c ∷ s) (d ∷ t) = c == d && text_eq s t

pub text_eq_iff : (s t : Text) → (text_eq s t ≡ true) ↔ (s ≡ t)
unfolding text_eq
text_eq_iff [] [] = (λ _. refl, λ _. refl)
text_eq_iff [] (d ∷ t) = (λ e. cc, λ e. cc)
text_eq_iff (c ∷ s) [] = (λ e. cc, λ e. cc)
text_eq_iff (c ∷ s) (d ∷ t) =
    (λ e. ground (arith, (text_eq_iff s t).0), λ e. ground (arith, (text_eq_iff s t).1))

pub text_eq_refl : (s : Text) → text_eq s s ≡ true
text_eq_refl s = (text_eq_iff s s).1 refl

-- `strncpy` into an array of `n` bytes that is then ended by NUL at its last byte.
abbrev pub copy_into : ℕ → Text → Text
copy_into n s = take (n - 1) s

-- The text that `snprintf` leaves in a buffer of `n` bytes.
abbrev pub snprintf : ℕ → Text → Text
snprintf n s = take (n - 1) s
