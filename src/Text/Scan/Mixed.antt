-- ===== src/Text/Scan/Mixed.antt =====
-- sscanf with %d and the conversions %[^c] and %63[^c] into texts.
use asciigame.Base.{
  ℕ, zero, suc, ◌≡◌, refl, ap, true, List, [], ◌∷◌, ◌++◌, none, some, ℤ, arith, ◌==◌, ◌<◌, ◌≤◌,
  length, length-append, if◌then◌else◌,
}
use asciigame.Text.{Text}
use asciigame.Text.Decimal.{skip_space, Ends, print_int}
use asciigame.Text.Fields.{Without}
use asciigame.Text.Scan.{number_at}
use asciigame.Text.Scan.Printed.{number_at-print_int, skip_space-print_int}

-- `field n d` takes at most `n` bytes, and none of them is `d`; `word d` takes any number of bytes.
pub data Part : Type 0 where
  lit : ℕ → Part
  num : Part
  field : ℕ → ℕ → Part
  word : ℕ → Part

pub data Value : Type 0 where
  number : ℤ → Value
  text : Text → Value

-- At most `n` bytes before the delimiter, and what follows them.
unfoldable pub cut_at_most : ℕ → ℕ → Text → Text × Text
cut_at_most zero d s = ([], s)
cut_at_most (suc n) d [] = ([], [])
cut_at_most (suc n) d (c ∷ s) =
    let (f, rest) = cut_at_most n d s in if c == d then ([], c ∷ s) else (c ∷ f, rest)

-- A text of no byte is a failed conversion.
abbrev shown : Text → List Value → List Value
shown [] rest = []
shown (c ∷ f) rest = text (c ∷ f) ∷ rest

-- The values assigned, in order.
unfoldable pub scan_parts : List Part → Text → List Value
unfolding number_at skip_space cut_at_most
scan_parts [] s = []
scan_parts (lit d ∷ ps) [] = []
scan_parts (lit d ∷ ps) (c ∷ s) = let rest = scan_parts ps s in if c == d then rest else []
scan_parts (num ∷ ps) s = elim (number_at (skip_space s)) [
  | none ↦ []
  | some (z, rest) ↦ number z ∷ scan_parts ps rest
]
scan_parts (field n d ∷ ps) s =
    let (taken, rest) = cut_at_most n d s in shown taken (scan_parts ps rest)
scan_parts (word d ∷ ps) s =
    let (taken, rest) = cut_at_most (length s) d s in shown taken (scan_parts ps rest)

module _ (ps : List Part) where
  pub scan_parts-num :
      (z : ℤ) (rest : Text)
      → Ends rest
      → scan_parts (num ∷ ps) (print_int z ++ rest) ≡ number z ∷ scan_parts ps rest
  unfolding scan_parts
  scan_parts-num z rest e =
      rw (skip_space-print_int z rest, number_at-print_int z rest e, scan_parts) refl

  pub scan_parts-lit :
      (d : ℕ) (rest : Text) → scan_parts (lit d ∷ ps) (d ∷ rest) ≡ scan_parts ps rest
  unfolding scan_parts
  scan_parts-lit d rest = let e : (d == d) ≡ true = ground arith in rw e refl

  cut_at_most-field :
      (n d : ℕ) (f rest : Text)
      → Without d f
      → length f ≤ n
      → cut_at_most n d (f ++ d ∷ rest) ≡ (f, d ∷ rest)
  unfolding cut_at_most
  cut_at_most-field zero d [] rest h l = refl
  cut_at_most-field (suc n) d [] rest h l = let e : (d == d) ≡ true = ground arith in rw e refl
  cut_at_most-field zero d (c ∷ f) rest h l = absurd (omega arith)
  cut_at_most-field (suc n) d (c ∷ f) rest h l =
      rw (h.0, cut_at_most-field n d f rest h.1 (omega arith)) refl

  pub scan_parts-word :
      (d : ℕ) (f rest : Text)
      → Without d f
      → 0 < length f
      → scan_parts (word d ∷ ps) (f ++ d ∷ rest) ≡ text f ∷ scan_parts ps (d ∷ rest)
  unfolding scan_parts
  scan_parts-word d [] rest h k = absurd (omega arith)
  scan_parts-word d (c ∷ f) rest h k =
      ap (λ (q : Text × Text). shown q.0 (scan_parts ps q.1))
        (cut_at_most-field (length (c ∷ f ++ d ∷ rest)) d (c ∷ f) rest h
          (omega (arith, length-append (c ∷ f) (d ∷ rest))))
