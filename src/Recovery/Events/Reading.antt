-- ===== src/Recovery/Events/Reading.antt =====
-- Each parser reads back what the server wrote.
use asciigame.Base.{
  ℕ, ◌≡◌, refl, ap, ◌∙◌, Option, Bool, true, false, List, [], ◌∷◌, ◌++◌, some, none, ℤ, ◌==◌,
  All-append, length-append, arith,
}
use asciigame.Text.{Text, codes}
use asciigame.Text.Fields.{Without}
use asciigame.Room.{entry}
use asciigame.Text.Decimal.{print_int, print_int-All_ne, is_digit}
use asciigame.Text.Scan.{Directive, int, expect, sscanf, after_first, strip_prefix}
use asciigame.Text.Scan.Printed.{
  sscanf-expect, sscanf-read, sscanf-read_last, sscanf-read_end, sscanf-skip_field,
}
use asciigame.Recovery.Parse.{
  move_format, damage_format, spawn_format, pickup_format, use_format, skip_field, contains,
}
use asciigame.Recovery.Events.{
  moves, is_damaged, loses_shield, dies, shrinks, spawns, picks_up, uses, text_of,
}

pub scan-uses :
    (pid item idx : ℤ) → sscanf use_format (text_of (uses pid item idx)) ≡ pid ∷ item ∷ idx ∷ []
scan-uses pid item idx =
    sscanf-read _ (codes "pid=") pid _ refl
    ∙ ap (λ (l : List ℤ). pid ∷ l)
        (sscanf-read _ (codes ",item=") item _ refl
          ∙ ap (λ (l : List ℤ). item ∷ l) (sscanf-read_last (codes ",idx=") idx))

pub scan-picks_up :
    (pid item x y : ℤ)
    → sscanf pickup_format (text_of (picks_up pid item x y)) ≡ pid ∷ item ∷ x ∷ y ∷ []
scan-picks_up pid item x y =
    sscanf-read _ (codes "pid=") pid _ refl
    ∙ ap (λ (l : List ℤ). pid ∷ l)
        (sscanf-read _ (codes ",item=") item _ refl
          ∙ ap (λ (l : List ℤ). item ∷ l)
              (sscanf-read _ (codes ",x=") x _ refl
                ∙ ap (λ (l : List ℤ). x ∷ l) (sscanf-read_last (codes ",y=") y)))

pub scan-spawns :
    (type x y : ℤ) → sscanf spawn_format (text_of (spawns type x y)) ≡ type ∷ x ∷ y ∷ []
scan-spawns type x y =
    sscanf-read _ (codes "type=") type _ refl
    ∙ ap (λ (l : List ℤ). type ∷ l)
        (sscanf-read _ (codes ",x=") x _ refl
          ∙ ap (λ (l : List ℤ). x ∷ l) (sscanf-read_last (codes ",y=") y))

pub scan-dies :
    (pid killer : ℤ)
    → sscanf (expect (codes "pid=") (int ∷ [])) (text_of (dies pid killer)) ≡ pid ∷ []
scan-dies pid killer = sscanf-read_end (codes "pid=") pid _ refl

pub scan-shrinks :
    (radius : ℤ)
    → sscanf (expect (codes "radius=") (int ∷ [])) (text_of (shrinks radius)) ≡ radius ∷ []
scan-shrinks radius = sscanf-read_last (codes "radius=") radius

pub Without-entry :
    (d : ℕ) (key : Text) (z : ℤ)
    → Without d key
    → is_digit d ≡ false
    → (b'-' == d) ≡ false
    → (b'=' == d) ≡ false
    → Without d (entry key z)
Without-entry d key z h g m e =
    All-append (λ c. c == d) key (b'=' ∷ print_int z) h (e, print_int-All_ne d g m z)

-- An entry with a comma after it is skipped.
pub skip-entry :
    (ds : List Directive) (key : Text) (z : ℤ) (rest : Text)
    → Without b',' key
    → sscanf (skip_field ds) (entry key z ++ b',' ∷ rest) ≡ sscanf ds rest
skip-entry ds key z rest h =
    sscanf-skip_field ds b',' (entry key z) rest (Without-entry b',' key z h refl refl refl)
      (omega (arith, length-append key (b'=' ∷ print_int z)))

pub scan-moves :
    (pid : ℤ) (direction : ℕ) (ox oy nx ny : ℤ)
    → (direction == b',') ≡ false
    → sscanf move_format (text_of (moves pid direction ox oy nx ny)) ≡ pid ∷ nx ∷ ny ∷ []
scan-moves pid direction ox oy nx ny h =
    sscanf-read _ (codes "pid=") pid _ refl
    ∙ ap (λ (l : List ℤ). pid ∷ l)
        (sscanf-expect _ (codes ",") _
          ∙ sscanf-skip_field _ b',' (codes "dir=" ++ direction ∷ []) _
              (refl, (refl, (refl, (refl, (h, tt))))) (omega arith)
          ∙ skip-entry _ (codes "ox") ox _ (refl, (refl, tt))
          ∙ skip-entry _ (codes "oy") oy _ (refl, (refl, tt))
          ∙ sscanf-read _ (codes "nx=") nx _ refl
          ∙ ap (λ (l : List ℤ). nx ∷ l) (sscanf-read_last (codes ",ny=") ny))

pub scan-is_damaged :
    (atk vic dmg hp : ℤ)
    → sscanf damage_format (text_of (is_damaged atk vic dmg hp)) ≡ vic ∷ hp ∷ []
scan-is_damaged atk vic dmg hp =
    skip-entry _ (codes "atk") atk _ (refl, (refl, (refl, tt)))
    ∙ sscanf-read _ (codes "vic=") vic _ refl
    ∙ ap (λ (l : List ℤ). vic ∷ l)
        (sscanf-expect _ (codes ",") _
          ∙ skip-entry _ (codes "dmg") dmg _ (refl, (refl, (refl, tt)))
          ∙ sscanf-read_last (codes "hp=") hp)

pub scan-loses_shield :
    (atk vic hp : ℤ) → sscanf damage_format (text_of (loses_shield atk vic hp)) ≡ vic ∷ hp ∷ []
scan-loses_shield atk vic hp =
    skip-entry _ (codes "atk") atk _ (refl, (refl, (refl, tt)))
    ∙ sscanf-read _ (codes "vic=") vic _ refl
    ∙ ap (λ (l : List ℤ). vic ∷ l)
        (sscanf-expect _ (codes ",") _
          ∙ sscanf-skip_field _ b',' (codes "dmg=0") _ (refl, (refl, (refl, (refl, (refl, tt)))))
              (omega arith)
          ∙ sscanf-read_end (codes "hp=") hp _ refl)

strip_prefix_other : (d c : ℕ) (p s : Text) → (c == d) ≡ false → strip_prefix (d ∷ p) (c ∷ s) ≡ none
unfolding strip_prefix
strip_prefix_other d c p s h = rw h refl

pub after_first-step :
    (d c : ℕ) (p s : Text) → (c == d) ≡ false → after_first (d ∷ p) (c ∷ s) ≡ after_first (d ∷ p) s
unfolding after_first
after_first-step d c p s h = rw (strip_prefix_other d c p s h, after_first) refl

-- A text is searched past a part without the first byte of what is sought.
pub after_first-past :
    (d : ℕ) (p f rest : Text)
    → Without d f
    → after_first (d ∷ p) (f ++ rest) ≡ after_first (d ∷ p) rest
after_first-past d p [] rest h = refl
after_first-past d p (c ∷ f) rest h =
    after_first-step d c p (f ++ rest) h.0 ∙ after_first-past d p f rest h.1

after_first-none : (d : ℕ) (p f : Text) → Without d f → after_first (d ∷ p) f ≡ none
after_first-none d p [] h = unfold after_first strip_prefix in refl
after_first-none d p (c ∷ f) h = after_first-step d c p f h.0 ∙ after_first-none d p f h.1

abbrev shield_broken : Text
shield_broken = codes "hield_broken=1"

-- Past an entry, with the comma before it.
past-entry :
    (key : Text) (z : ℤ) (rest : Text)
    → Without b's' key
    → after_first (b's' ∷ shield_broken) (b',' ∷ (entry key z ++ rest))
      ≡ after_first (b's' ∷ shield_broken) rest
past-entry key z rest h =
    after_first-past b's' shield_broken (b',' ∷ entry key z) rest
      (refl, Without-entry b's' key z h refl refl refl)

-- The texts of the two kinds of damage begin alike.
past-hit :
    (atk vic : ℤ) (rest : Text)
    → after_first
        (b's' ∷ shield_broken)
        (entry (codes "atk") atk ++ b',' ∷ (entry (codes "vic") vic ++ rest))
      ≡ after_first (b's' ∷ shield_broken) rest
past-hit atk vic rest =
    after_first-past b's' shield_broken (entry (codes "atk") atk) _
      (Without-entry b's' (codes "atk") atk (refl, (refl, (refl, tt))) refl refl refl)
    ∙ past-entry (codes "vic") vic rest (refl, (refl, (refl, tt)))

is_found : Option Text → Bool
is_found o = elim o [ none ↦ false | some _ ↦ true ]

pub contains-is_damaged :
    (atk vic dmg hp : ℤ)
    → contains (codes "shield_broken=1") (text_of (is_damaged atk vic dmg hp)) ≡ false
unfolding is_found
contains-is_damaged atk vic dmg hp = ap is_found (
    past-hit atk vic _
    ∙ past-entry (codes "dmg") dmg _ (refl, (refl, (refl, tt)))
    ∙ after_first-none b's' shield_broken (b',' ∷ entry (codes "hp") hp)
        (refl, Without-entry b's' (codes "hp") hp (refl, (refl, tt)) refl refl refl))

pub contains-loses_shield :
    (atk vic hp : ℤ) → contains (codes "shield_broken=1") (text_of (loses_shield atk vic hp)) ≡ true
unfolding is_found
contains-loses_shield atk vic hp = ap is_found (
    past-hit atk vic _
    ∙ after_first-past b's' shield_broken (codes ",dmg=0") _
        (refl, (refl, (refl, (refl, (refl, (refl, tt))))))
    ∙ past-entry (codes "hp") hp _ (refl, (refl, tt))
    ∙ found)
  where
    found : after_first (b's' ∷ shield_broken) (codes ",shield_broken=1") ≡ some []
    found = unfold after_first strip_prefix in refl
