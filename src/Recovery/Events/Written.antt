-- ===== src/Recovery/Events/Written.antt =====
-- The texts of the events fit in the buffers of the server and hold no line end.
use asciigame.Base.{
  ℕ, ◌*◌, ◌<◌, ◌≤◌, ◌≡◌, refl, true, false, List, [], ◌∷◌, ◌++◌, ℤ, ◌==◌, All, All-append, length,
  length-append, arith, all, not, leb, leb→le, All-all-not, take_all, ◌-◌,
}
use asciigame.Text.{Text, codes, snprintf}
use asciigame.Text.Decimal.{print_int, Fits, length-print_int}
use asciigame.Room.{entry, commas}
use asciigame.Wal.Records.RoundTrip.{IsLine, ends_line, print_int-IsLine}
use asciigame.Recovery.Events.{
  GameEvent, moves, is_damaged, loses_shield, dies, shrinks, spawns, picks_up, uses, entries,
  text_of,
}

-- An `int` of 32 bits has at most ten digits.
abbrev pub IsInt : ℤ → Type 0
IsInt = Fits 10

-- The numbers are of type int. A direction is a byte that is neither a comma nor a line end.
abbrev pub IsWritten : GameEvent → Type 0
IsWritten (moves pid direction ox oy nx ny) =
    (IsInt pid × IsInt ox × IsInt oy × IsInt nx × IsInt ny)
    × ((direction == b',') ≡ false)
    × (ends_line direction ≡ false)
IsWritten (is_damaged atk vic dmg hp) = IsInt atk × IsInt vic × IsInt dmg × IsInt hp
IsWritten (loses_shield atk vic hp) = IsInt atk × IsInt vic × IsInt hp
IsWritten (dies pid killer) = IsInt pid × IsInt killer
IsWritten (shrinks radius) = IsInt radius
IsWritten (spawns type x y) = IsInt type × IsInt x × IsInt y
IsWritten (picks_up pid item x y) = IsInt pid × IsInt item × IsInt x × IsInt y
IsWritten (uses pid item idx) = IsInt pid × IsInt item × IsInt idx

-- A short entry without a line end.
record IsEntry (e : Text) : Type 0 where
  short : length e ≤ 20
  line : IsLine e

entry-IsEntry : (key : Text) (z : ℤ) → length key ≤ 8 → IsLine key → IsInt z → IsEntry (entry key z)
entry-IsEntry key z l h i = record {
  short = omega (arith, length-append key (b'=' ∷ print_int z), length-print_int 9 z i);
  line = All-append ends_line key (b'=' ∷ print_int z) h (refl, print_int-IsLine z);
}

abbrev AllEntries : List Text → Type 0
AllEntries = All IsEntry

length-commas : (es : List Text) → AllEntries es → length (commas es) ≤ 21 * length es
length-commas [] h = omega arith
length-commas (e ∷ []) h = omega (arith, h.0.short)
length-commas (e ∷ f ∷ es) h =
    omega (arith, h.0.short, length-append e (b',' ∷ commas (f ∷ es)), length-commas (f ∷ es) h.1)

commas-IsLine : (es : List Text) → AllEntries es → IsLine (commas es)
commas-IsLine [] h = tt
commas-IsLine (e ∷ []) h = h.0.line
commas-IsLine (e ∷ f ∷ es) h =
    All-append ends_line e (b',' ∷ commas (f ∷ es)) h.0.line (refl, commas-IsLine (f ∷ es) h.1)

-- A key is tested by evaluation.
number :
    (key : Text) (z : ℤ)
    → leb (length key) 8 ≡ true
    → all (λ c. not (ends_line c)) key ≡ true
    → IsInt z
    → IsEntry (entry key z)
number key z l t i = entry-IsEntry key z (leb→le (length key) 8 l) (All-all-not ends_line key t) i

direction-IsEntry :
    (direction : ℕ) → ends_line direction ≡ false → IsEntry (codes "dir=" ++ direction ∷ [])
direction-IsEntry direction h = record {
  short = omega arith;
  line = (refl, (refl, (refl, (refl, (h, tt)))));
}

fixed-IsEntry :
    (e : Text) → leb (length e) 20 ≡ true → all (λ c. not (ends_line c)) e ≡ true → IsEntry e
fixed-IsEntry e l t = record { short = leb→le (length e) 20 l; line = All-all-not ends_line e t }

entries-AllEntries : (e : GameEvent) → IsWritten e → AllEntries (entries e)
entries-AllEntries (moves pid direction ox oy nx ny) ((a, b, c, d, e), f, g) = (
  number (codes "pid") pid refl refl a,
  (
    direction-IsEntry direction g,
    (
      number (codes "ox") ox refl refl b,
      (
        number (codes "oy") oy refl refl c,
        (number (codes "nx") nx refl refl d, (number (codes "ny") ny refl refl e, tt)),
      ),
    ),
  ),
)
entries-AllEntries (is_damaged atk vic dmg hp) (a, b, c, d) = (
  number (codes "atk") atk refl refl a,
  (
    number (codes "vic") vic refl refl b,
    (number (codes "dmg") dmg refl refl c, (number (codes "hp") hp refl refl d, tt)),
  ),
)
entries-AllEntries (loses_shield atk vic hp) (a, b, c) = (
  number (codes "atk") atk refl refl a,
  (
    number (codes "vic") vic refl refl b,
    (
      fixed-IsEntry (codes "dmg=0") refl refl,
      (number (codes "hp") hp refl refl c, (fixed-IsEntry (codes "shield_broken=1") refl refl, tt)),
    ),
  ),
)
entries-AllEntries (dies pid killer) (a, b) =
    (number (codes "pid") pid refl refl a, (number (codes "killer") killer refl refl b, tt))
entries-AllEntries (shrinks radius) a = (number (codes "radius") radius refl refl a, tt)
entries-AllEntries (spawns type x y) (a, b, c) = (
  number (codes "type") type refl refl a,
  (number (codes "x") x refl refl b, (number (codes "y") y refl refl c, tt)),
)
entries-AllEntries (picks_up pid item x y) (a, b, c, d) = (
  number (codes "pid") pid refl refl a,
  (
    number (codes "item") item refl refl b,
    (number (codes "x") x refl refl c, (number (codes "y") y refl refl d, tt)),
  ),
)
entries-AllEntries (uses pid item idx) (a, b, c) = (
  number (codes "pid") pid refl refl a,
  (number (codes "item") item refl refl b, (number (codes "idx") idx refl refl c, tt)),
)

few_entries : (e : GameEvent) → length (entries e) ≤ 6
few_entries (moves pid direction ox oy nx ny) = omega arith
few_entries (is_damaged atk vic dmg hp) = omega arith
few_entries (loses_shield atk vic hp) = omega arith
few_entries (dies pid killer) = omega arith
few_entries (shrinks radius) = omega arith
few_entries (spawns type x y) = omega arith
few_entries (picks_up pid item x y) = omega arith
few_entries (uses pid item idx) = omega arith

pub text_of-IsLine : (e : GameEvent) → IsWritten e → IsLine (text_of e)
text_of-IsLine e h = commas-IsLine (entries e) (entries-AllEntries e h)

pub length-text_of : (e : GameEvent) → IsWritten e → length (text_of e) ≤ 126
length-text_of e h =
    omega (arith, few_entries e, length-commas (entries e) (entries-AllEntries e h))

-- The buffer that server/game.c has for the text; for a death the smaller of its two.
abbrev pub buffer_size : GameEvent → ℕ
buffer_size (moves pid direction ox oy nx ny) = 256
buffer_size (is_damaged atk vic dmg hp) = 256
buffer_size (loses_shield atk vic hp) = 256
buffer_size (dies pid killer) = 64
buffer_size (shrinks radius) = 64
buffer_size (spawns type x y) = 128
buffer_size (picks_up pid item x y) = 128
buffer_size (uses pid item idx) = 128

-- No text is cut, whatever its numbers: each buffer has room for the numbers of type int.
pub snprintf-text_of :
    (e : GameEvent) → IsWritten e → snprintf (buffer_size e) (text_of e) ≡ text_of e
snprintf-text_of e h =
    take_all (buffer_size e - 1) (text_of e)
      (omega (arith, sized e, length-commas (entries e) (entries-AllEntries e h)))
  where
    sized : (e : GameEvent) → 21 * length (entries e) < buffer_size e
    sized (moves pid direction ox oy nx ny) = omega arith
    sized (is_damaged atk vic dmg hp) = omega arith
    sized (loses_shield atk vic hp) = omega arith
    sized (dies pid killer) = omega arith
    sized (shrinks radius) = omega arith
    sized (spawns type x y) = omega arith
    sized (picks_up pid item x y) = omega arith
    sized (uses pid item idx) = omega arith
