-- ===== src/Text/Scan/Printed.antt =====
-- Reading back what was printed: one lemma for each piece of a format.
use mathlib.Core.List.{append-nil}
use asciigame.Base.{
  ℕ, suc, ◌≡◌, refl, sym, ap, ◌∙◌, true, false, List, [], ◌∷◌, ◌++◌, some, arith, ℤ, pos, negsuc,
  length, ◌<◌, ◌-ℤ◌, ◌==◌,
}
use asciigame.Text.{Text}
use asciigame.Text.Decimal.{
  is_digit, Ends, print_nat, print_int, drop_digits, drop_digits-print_nat, scan_nat, skip_space,
  scan_nat-print_nat, print_nat-head, print_int-All_ne,
}
use asciigame.Text.Fields.{Without}
use asciigame.Text.Scan.{
  Directive, byte, int, skip_int, skip_until, expect, number_at, starts_digit, drop_until, sscanf,
  cut, strtok,
}

number_at-digits :
    (c : ℕ) (s : Text)
    → is_digit c ≡ true
    → number_at (c ∷ s) ≡ some (pos (scan_nat 0 (c ∷ s)), drop_digits (c ∷ s))
unfolding number_at
number_at-digits c s h = ground arith

number_at-print_nat :
    (n : ℕ) (rest : Text) → Ends rest → number_at (print_nat n ++ rest) ≡ some (pos n, rest)
number_at-print_nat n rest e =
    let (c, s, p, d) = print_nat-head n in
    ap (λ (t : Text). number_at (t ++ rest)) p
    ∙ number_at-digits c (s ++ rest) d
    ∙ ap (λ (t : Text). some (pos (scan_nat 0 (t ++ rest)), drop_digits (t ++ rest))) (sym p)
    ∙ rw (scan_nat-print_nat n rest e, drop_digits-print_nat n rest e)

number_at-sign :
    (t : Text)
    → starts_digit t ≡ true
    → number_at (b'-' ∷ t) ≡ some (pos 0 -ℤ pos (scan_nat 0 t), drop_digits t)
unfolding number_at
number_at-sign t h = rw h refl

number_at-minus :
    (n : ℕ) (rest : Text)
    → Ends rest
    → number_at (b'-' ∷ (print_nat n ++ rest)) ≡ some (pos 0 -ℤ pos n, rest)
number_at-minus n rest e =
    let (c, s, p, d) = print_nat-head n in
    let starts : starts_digit (print_nat n ++ rest) ≡ true =
      ap (λ (t : Text). starts_digit (t ++ rest)) p ∙ d in
    number_at-sign (print_nat n ++ rest) starts
    ∙ rw (scan_nat-print_nat n rest e, drop_digits-print_nat n rest e) refl

-- A printed number is read back, and nothing after it.
pub number_at-print_int :
    (z : ℤ) (rest : Text) → Ends rest → number_at (print_int z ++ rest) ≡ some (z, rest)
unfolding print_int
number_at-print_int (pos n) rest e = number_at-print_nat n rest e
number_at-print_int (negsuc n) rest e =
    let negated : pos 0 -ℤ pos (suc n) ≡ negsuc n = unfold ◌-ℤ◌ in ground arith in
    number_at-minus (suc n) rest e ∙ ap (λ z. some (z, rest)) negated

skip_space-digit : (c : ℕ) (s : Text) → is_digit c ≡ true → skip_space (c ∷ s) ≡ c ∷ s
unfolding skip_space
skip_space-digit c s h = ground arith

pub skip_space-print_int :
    (z : ℤ) (rest : Text) → skip_space (print_int z ++ rest) ≡ print_int z ++ rest
unfolding print_int skip_space
skip_space-print_int (pos n) rest =
    let (c, s, p, d) = print_nat-head n in
    ap (λ (t : Text). skip_space (t ++ rest)) p
    ∙ skip_space-digit c (s ++ rest) d
    ∙ ap (λ (t : Text). t ++ rest) (sym p)
skip_space-print_int (negsuc n) rest = refl

module _ (ds : List Directive) where
  pub sscanf-int :
      (z : ℤ) (rest : Text)
      → Ends rest
      → sscanf (int ∷ ds) (print_int z ++ rest) ≡ z ∷ sscanf ds rest
  unfolding sscanf
  sscanf-int z rest e = rw (skip_space-print_int z rest, number_at-print_int z rest e, sscanf) refl

  pub sscanf-skip_int :
      (z : ℤ) (rest : Text)
      → Ends rest
      → sscanf (skip_int ∷ ds) (print_int z ++ rest) ≡ sscanf ds rest
  unfolding sscanf
  sscanf-skip_int z rest e =
      rw (skip_space-print_int z rest, number_at-print_int z rest e, sscanf) refl

  pub sscanf-expect : (s rest : Text) → sscanf (expect s ds) (s ++ rest) ≡ sscanf ds rest
  unfolding sscanf
  sscanf-expect [] rest = refl
  sscanf-expect (c ∷ s) rest = rw (refl_test c) (sscanf-expect s rest)
    where
      refl_test : (c : ℕ) → (c == c) ≡ true
      refl_test c = ground arith

  drop_until-field : (d : ℕ) (f rest : Text) → Without d f → drop_until d (f ++ d ∷ rest) ≡ d ∷ rest
  unfolding drop_until
  drop_until-field d [] rest h = ground arith
  drop_until-field d (c ∷ f) rest h = rw h.0 (drop_until-field d f rest h.1)

  pub sscanf-skip_until :
      (d c : ℕ) (f rest : Text)
      → Without d (c ∷ f)
      → sscanf (skip_until d ∷ ds) (c ∷ (f ++ d ∷ rest)) ≡ sscanf ds (d ∷ rest)
  unfolding sscanf
  sscanf-skip_until d c f rest h = rw (h.0, drop_until-field d f rest h.1) refl

pub cut-field : (d : ℕ) (f rest : Text) → Without d f → cut d (f ++ d ∷ rest) ≡ (f, rest)
unfolding cut
cut-field d [] rest h = ground arith
cut-field d (c ∷ f) rest h = rw (h.0, cut-field d f rest h.1) refl

-- A field without the delimiter is the next token.
pub strtok-field :
    (d : ℕ) (f rest : Text) → Without d f → 0 < length f → strtok d (f ++ d ∷ rest) ≡ some (f, rest)
unfolding strtok
strtok-field d [] rest h l = absurd (omega arith)
strtok-field d (c ∷ f) rest h l = rw (h.0, cut-field d f rest h.1) refl

print_nat_filled : (n : ℕ) → 0 < length (print_nat n)
print_nat_filled n = let (c, s, p, d) = print_nat-head n in rw p (omega arith)

pub print_int_filled : (z : ℤ) → 0 < length (print_int z)
unfolding print_int
print_int_filled (pos n) = print_nat_filled n
print_int_filled (negsuc n) = omega arith

-- A printed number is the next token.
pub strtok-print_int :
    (d : ℕ) (z : ℤ) (rest : Text)
    → is_digit d ≡ false
    → (b'-' == d) ≡ false
    → strtok d (print_int z ++ d ∷ rest) ≡ some (print_int z, rest)
strtok-print_int d z rest h m =
    strtok-field d (print_int z) rest (print_int-All_ne d h m z) (print_int_filled z)

-- A key, a number, and then the rest of the format on the rest of the text.
pub sscanf-read :
    (ds : List Directive) (key : Text) (z : ℤ) (rest : Text)
    → Ends rest
    → sscanf (expect key (int ∷ ds)) (key ++ (print_int z ++ rest)) ≡ z ∷ sscanf ds rest
sscanf-read ds key z rest e =
    sscanf-expect (int ∷ ds) key (print_int z ++ rest) ∙ sscanf-int ds z rest e

-- A key and a number at the end.
pub sscanf-read_last :
    (key : Text) (z : ℤ) → sscanf (expect key (int ∷ [])) (key ++ print_int z) ≡ z ∷ []
unfolding sscanf
sscanf-read_last key z =
    ap (λ (t : Text). sscanf (expect key (int ∷ [])) (key ++ t)) (sym (append-nil (print_int z)))
    ∙ sscanf-read [] key z [] tt

-- A field that is skipped with the delimiter after it.
pub sscanf-skip_field :
    (ds : List Directive) (d : ℕ) (f rest : Text)
    → Without d f
    → 0 < length f
    → sscanf (skip_until d ∷ byte d ∷ ds) (f ++ d ∷ rest) ≡ sscanf ds rest
sscanf-skip_field ds d [] rest h l = absurd (omega arith)
sscanf-skip_field ds d (c ∷ f) rest h l =
    sscanf-skip_until (byte d ∷ ds) d c f rest h ∙ sscanf-expect ds (d ∷ []) rest

-- A key and a number at the end of the format.
pub sscanf-read_end :
    (key : Text) (z : ℤ) (rest : Text)
    → Ends rest
    → sscanf (expect key (int ∷ [])) (key ++ (print_int z ++ rest)) ≡ z ∷ []
unfolding sscanf
sscanf-read_end key z rest e = sscanf-read [] key z rest e
