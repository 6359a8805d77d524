-- ===== src/Text/Fields.antt =====
-- strtok_r with one delimiter: the non-empty fields of a text.
use asciigame.Base.{ℕ, ◌≡◌, refl, false, List, [], ◌∷◌, ◌++◌, arith, ◌==◌, if◌then◌else◌, All}

-- A byte is put at the head of the first field.
abbrev pub extend_first : ℕ → List (List ℕ) → List (List ℕ)
extend_first c [] = (c ∷ []) ∷ []
extend_first c (f ∷ fs) = (c ∷ f) ∷ fs

unfoldable pub split : ℕ → List ℕ → List (List ℕ)
split d [] = [] ∷ []
split d (c ∷ s) = let rest = split d s in if c == d then [] ∷ rest else extend_first c rest

abbrev pub drop_empty : List (List ℕ) → List (List ℕ)
drop_empty [] = []
drop_empty ([] ∷ fs) = drop_empty fs
drop_empty ((c ∷ f) ∷ fs) = (c ∷ f) ∷ drop_empty fs

-- All the tokens that repeated calls of `strtok_r` give.
unfoldable pub tokens : ℕ → List ℕ → List (List ℕ)
unfolding split
tokens d s = drop_empty (split d s)

-- The byte does not occur in the text.
abbrev pub Without : ℕ → List ℕ → Type 0
Without d = All (λ c. (c == d) ≡ false)

pub split-no_delimiter : (d : ℕ) (f : List ℕ) → Without d f → split d f ≡ f ∷ []
unfolding split
split-no_delimiter d [] h = refl
split-no_delimiter d (c ∷ f) h = rw (h.0, split-no_delimiter d f h.1)

pub split-append :
    (d : ℕ) (f rest : List ℕ) → Without d f → split d (f ++ d ∷ rest) ≡ f ∷ split d rest
unfolding split
split-append d [] rest h = ground arith
split-append d (c ∷ f) rest h = rw (h.0, split-append d f rest h.1)
