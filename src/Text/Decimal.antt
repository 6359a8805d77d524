-- ===== src/Text/Decimal.antt =====
-- %d and %ld of printf, and atoi, over mathematical integers.
use asciigame.Base.{
  ℕ, zero, suc, ◌+◌, ◌-◌, ◌*◌, ◌/◌, ◌%◌, ◌<◌, ◌≡◌, refl, sym, ◌∙◌, ap, inl, inr, Bool, true, false,
  ◌&&◌, List, [], ◌∷◌, ◌++◌, arith, ℤ, pos, negsuc, ◌-ℤ◌, leb, ltb, ◌==◌, All, ◌≤◌, length,
  pos_part, neg_part, if◌then◌else◌, Bool-cases,
}

abbrev pub is_digit : ℕ → Bool
is_digit c = leb b'0' c && leb c b'9'

-- The digits of `n`, the last ones first read off; `fuel` bounds their number.
digits_loop : ℕ → ℕ → List ℕ → List ℕ
digits_loop zero n out = out
digits_loop (suc fuel) n out =
    let rest = digits_loop fuel (n / 10) ((b'0' + n % 10) ∷ out) in
    if ltb n 10 then (b'0' + n) ∷ out else rest

unfoldable pub print_nat : ℕ → List ℕ
unfolding digits_loop
print_nat n = digits_loop (suc n) n []

unfoldable pub print_int : ℤ → List ℕ
unfolding print_nat
print_int (pos n) = print_nat n
print_int (negsuc n) = b'-' ∷ print_nat (suc n)

-- The digits at the head of a text, added to `acc`.
unfoldable pub scan_nat : ℕ → List ℕ → ℕ
scan_nat acc [] = acc
scan_nat acc (c ∷ s) =
    let rest = scan_nat (acc * 10 + (c - b'0')) s in if is_digit c then rest else acc

unfoldable pub drop_digits : List ℕ → List ℕ
drop_digits [] = []
drop_digits (c ∷ s) = let rest = drop_digits s in if is_digit c then rest else c ∷ s

unfoldable pub skip_space : List ℕ → List ℕ
skip_space [] = []
skip_space (c ∷ s) =
    let rest = skip_space s in
    if c == b' ' then rest else if leb 9 c && leb c 13 then rest else c ∷ s

signed : List ℕ → ℤ
signed [] = pos 0
signed (c ∷ s) =
    if c == b'-'
    then pos 0 -ℤ pos (scan_nat 0 s)
    else if c == b'+'
    then pos (scan_nat 0 s)
    else pos (scan_nat 0 (c ∷ s))

unfoldable pub atoi : List ℕ → ℤ
unfolding scan_nat skip_space signed ◌-ℤ◌
atoi s = signed (skip_space s)

-- What follows a printed number: the end of the text, or a byte that is no digit.
abbrev pub Ends : List ℕ → Type 0
Ends [] = Unit
Ends (c ∷ s) = is_digit c ≡ false

scan_nat-end : (acc : ℕ) (rest : List ℕ) → Ends rest → scan_nat acc rest ≡ acc
unfolding scan_nat
scan_nat-end acc [] e = refl
scan_nat-end acc (c ∷ s) e = rw e

-- With enough fuel the digits are those of `n`, whatever number stands before them.
scan_nat-digits_loop :
    (fuel n : ℕ) (out : List ℕ) → n < fuel → scan_nat 0 (digits_loop fuel n out) ≡ scan_nat n out
unfolding scan_nat digits_loop
scan_nat-digits_loop zero n out h = absurd (omega arith)
scan_nat-digits_loop (suc fuel) n out h = elim (Bool-cases (ltb n 10)) [
  | inl small ↦ rw small (ground (arith))
  | inr large ↦
      rw large
        (scan_nat-digits_loop fuel (n / 10) ((b'0' + n % 10) ∷ out) (ground arith) ∙ ground (arith))
]

digits_loop-append :
    (fuel n : ℕ) (out rest : List ℕ)
    → digits_loop fuel n (out ++ rest) ≡ digits_loop fuel n out ++ rest
unfolding digits_loop
digits_loop-append zero n out rest = refl
digits_loop-append (suc fuel) n out rest = elim (Bool-cases (ltb n 10)) [
  | inl small ↦ rw small
  | inr large ↦ rw large (digits_loop-append fuel (n / 10) ((b'0' + n % 10) ∷ out) rest)
]

-- The first byte is a digit.
digits_loop-head :
    (fuel n : ℕ) (out : List ℕ)
    → n < fuel
    → (c : ℕ) × (s : List ℕ) × (digits_loop fuel n out ≡ c ∷ s) × (is_digit c ≡ true)
unfolding digits_loop
digits_loop-head zero n out h = absurd (omega arith)
digits_loop-head (suc fuel) n out h = elim (Bool-cases (ltb n 10)) [
  | inl small ↦ rw small (b'0' + n, out, refl, ground (arith))
  | inr large ↦ rw large (digits_loop-head fuel (n / 10) ((b'0' + n % 10) ∷ out) (ground arith))
]

atoi-digits : (c : ℕ) (s : List ℕ) → is_digit c ≡ true → atoi (c ∷ s) ≡ pos (scan_nat 0 (c ∷ s))
unfolding atoi
atoi-digits c s h = ground arith

atoi-minus : (s : List ℕ) → atoi (b'-' ∷ s) ≡ pos 0 -ℤ pos (scan_nat 0 s)
unfolding atoi
atoi-minus s = refl

drop_digits-digits_loop :
    (fuel n : ℕ) (out : List ℕ) → n < fuel → drop_digits (digits_loop fuel n out) ≡ drop_digits out
unfolding drop_digits digits_loop
drop_digits-digits_loop zero n out h = absurd (omega arith)
drop_digits-digits_loop (suc fuel) n out h = elim (Bool-cases (ltb n 10)) [
  | inl small ↦ rw small (ground arith)
  | inr large ↦
      rw large (
        drop_digits-digits_loop fuel (n / 10) ((b'0' + n % 10) ∷ out) (ground arith) ∙ ground arith)
]

drop_digits-end : (rest : List ℕ) → Ends rest → drop_digits rest ≡ rest
unfolding drop_digits
drop_digits-end [] e = refl
drop_digits-end (c ∷ s) e = rw e

-- The digits of a number are dropped, and nothing after them.
pub drop_digits-print_nat :
    (n : ℕ) (rest : List ℕ) → Ends rest → drop_digits (print_nat n ++ rest) ≡ rest
unfolding print_nat
drop_digits-print_nat n rest e =
    ap drop_digits (sym (digits_loop-append (suc n) n [] rest))
    ∙ drop_digits-digits_loop (suc n) n rest (omega arith)
    ∙ drop_digits-end rest e

pub scan_nat-print_nat : (n : ℕ) (rest : List ℕ) → Ends rest → scan_nat 0 (print_nat n ++ rest) ≡ n
unfolding print_nat
scan_nat-print_nat n rest e =
    ap (scan_nat 0) (sym (digits_loop-append (suc n) n [] rest))
    ∙ scan_nat-digits_loop (suc n) n rest (omega arith)
    ∙ scan_nat-end n rest e

pub print_nat-head : (n : ℕ) → (c : ℕ) × (s : List ℕ) × (print_nat n ≡ c ∷ s) × (is_digit c ≡ true)
unfolding print_nat
print_nat-head n = digits_loop-head (suc n) n [] (omega arith)

atoi-print_nat : (n : ℕ) (rest : List ℕ) → Ends rest → atoi (print_nat n ++ rest) ≡ pos n
atoi-print_nat n rest e =
    let (c, s, p, d) = print_nat-head n in
    ap (λ (t : List ℕ). atoi (t ++ rest)) p
    ∙ atoi-digits c (s ++ rest) d
    ∙ ap (λ (t : List ℕ). pos (scan_nat 0 (t ++ rest))) (sym p)
    ∙ ap pos (scan_nat-print_nat n rest e)

-- `atoi` reads back what %d printed, whatever text that starts with no digit follows.
pub atoi-print_int : (z : ℤ) (rest : List ℕ) → Ends rest → atoi (print_int z ++ rest) ≡ z
unfolding print_int
atoi-print_int (pos n) rest e = atoi-print_nat n rest e
atoi-print_int (negsuc n) rest e =
    atoi-minus (print_nat (suc n) ++ rest)
    ∙ ap (λ k. pos 0 -ℤ pos k) (scan_nat-print_nat (suc n) rest e)
    ∙ unfold ◌-ℤ◌ in ground arith

module _ (d : ℕ) (other : is_digit d ≡ false) where
  digits_loop-All_ne :
      (fuel n : ℕ) (out : List ℕ)
      → All (λ c. (c == d) ≡ false) out
      → All (λ c. (c == d) ≡ false) (digits_loop fuel n out)
  unfolding digits_loop
  digits_loop-All_ne zero n out h = h
  digits_loop-All_ne (suc fuel) n out h = elim (Bool-cases (ltb n 10)) [
    | inl small ↦ rw small (ground arith, h)
    | inr large ↦
        rw large (digits_loop-All_ne fuel (n / 10) ((b'0' + n % 10) ∷ out) (ground arith, h))
  ]

  -- A printed number holds no byte but digits and the sign.
  pub print_int-All_ne : (b'-' == d) ≡ false → (z : ℤ) → All (λ c. (c == d) ≡ false) (print_int z)
  unfolding print_int print_nat
  print_int-All_ne m (pos n) = digits_loop-All_ne (suc n) n [] tt
  print_int-All_ne m (negsuc n) = (m, digits_loop-All_ne (suc (suc n)) (suc n) [] tt)

abbrev pub pow10 : ℕ → ℕ
pow10 zero = 1
pow10 (suc k) = 10 * pow10 k

length-digits_loop :
    (fuel n k : ℕ) (out : List ℕ)
    → n < pow10 (suc k)
    → length (digits_loop fuel n out) ≤ suc k + length out
unfolding digits_loop
length-digits_loop zero n k out h = omega arith
length-digits_loop (suc fuel) n zero out h = elim (Bool-cases (ltb n 10)) [
  | inl small ↦ rw small (omega arith)
  | inr large ↦ absurd (ground arith)
]
length-digits_loop (suc fuel) n (suc k) out h = elim (Bool-cases (ltb n 10)) [
  | inl small ↦ rw small (omega arith)
  | inr large ↦
      let next = (b'0' + n % 10) ∷ out in
      let shorter : n / 10 < pow10 (suc k) = omega arith in
      rw large (omega (arith, length-digits_loop fuel (n / 10) k next shorter))
]

-- At most k digits.
abbrev pub Fits : ℕ → ℤ → Type 0
Fits k z = (pos_part z < pow10 k) × (neg_part z < pow10 k)

-- A number of at most k digits takes at most one byte more.
pub length-print_int : (k : ℕ) (z : ℤ) → Fits (suc k) z → length (print_int z) ≤ suc (suc k)
unfolding print_int print_nat
length-print_int k (pos n) h = omega (arith, length-digits_loop (suc n) n k [] h.0)
length-print_int k (negsuc n) h = omega (arith, length-digits_loop (suc (suc n)) (suc n) k [] h.1)
