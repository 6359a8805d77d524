-- ===== src/Client/State/Tokens.antt =====
-- The entries of a GAME_STATE message: what the server prints, the client's strtok_r and sscanf give
-- back.
use asciigame.Base.{
  ℕ, ◌<◌, ◌≡◌, refl, ap, ◌∙◌, Bool, true, false, List, [], ◌∷◌, ℤ, arith, ◌==◌, All, All-append,
  length, length-append, map,
}
use mathlib.Core.List.{append-nil}
use asciigame.Text.{Text}
use asciigame.Text.Decimal.{is_digit, print_int, print_int-All_ne}
use asciigame.Text.Fields.{split, tokens, drop_empty, Without, split-append, split-no_delimiter}
use asciigame.Text.Scan.{byte, sscanf}
use asciigame.Text.Scan.Printed.{sscanf-int, sscanf-expect, sscanf-read_last, print_int_filled}
use asciigame.Room.{commas}
use asciigame.Game.Broadcast.{entries_text}
use asciigame.Protocol.RoundTrip.{is_special, Plain}
use asciigame.Client.State.{int_list}

abbrev pub numbers_entry : List ℤ → Text
numbers_entry numbers = commas (map print_int numbers)

pub sscanf-entry :
    (z : ℤ) (zs : List ℤ) → sscanf (int_list (length zs)) (numbers_entry (z ∷ zs)) ≡ z ∷ zs
sscanf-entry z [] = sscanf-read_last [] z
sscanf-entry z (y ∷ zs) =
    let more = int_list (length zs) in
    sscanf-int (byte b',' ∷ more) z (b',' ∷ numbers_entry (y ∷ zs)) refl
    ∙ ap (◌∷◌ z) (sscanf-expect more (b',' ∷ []) (numbers_entry (y ∷ zs)) ∙ sscanf-entry y zs)

module _ (d : ℕ) (digit : is_digit d ≡ false) (minus : (b'-' == d) ≡ false)
    (comma : (b',' == d) ≡ false) where
  pub entry-Without : (zs : List ℤ) → Without d (numbers_entry zs)
  entry-Without [] = tt
  entry-Without (z ∷ []) = print_int-All_ne d digit minus z
  entry-Without (z ∷ y ∷ zs) =
      All-append (λ c. c == d) (print_int z) (b',' ∷ numbers_entry (y ∷ zs))
        (print_int-All_ne d digit minus z) (comma, entry-Without (y ∷ zs))

abbrev pub Filled : List ℤ → Type 0
Filled zs = 0 < length (numbers_entry zs)

pub entry_nonempty : (zs : List ℤ) → 0 < length zs → Filled zs
entry_nonempty [] h = absurd (omega arith)
entry_nonempty (z ∷ []) h = print_int_filled z
entry_nonempty (z ∷ y ∷ zs) h =
    omega (arith, print_int_filled z, length-append (print_int z) (b',' ∷ numbers_entry (y ∷ zs)))

split-entries :
    (e : List ℤ) (es : List (List ℤ))
    → split b';' (entries_text true (e ∷ es)) ≡ map numbers_entry (e ∷ es)
split-entries e [] =
    ap (split b';') (append-nil (numbers_entry e))
    ∙ split-no_delimiter b';' (numbers_entry e) (entry-Without b';' refl refl refl e)
split-entries e (f ∷ es) =
    split-append b';' (numbers_entry e) (entries_text true (f ∷ es))
      (entry-Without b';' refl refl refl e)
    ∙ ap (◌∷◌ (numbers_entry e)) (split-entries f es)

pub drop_empty_kept :
    (t : Text) (ts : List Text) → 0 < length t → drop_empty (t ∷ ts) ≡ t ∷ drop_empty ts
drop_empty_kept [] ts l = absurd (omega arith)
drop_empty_kept (c ∷ t) ts l = refl

drop_empty-entries :
    (es : List (List ℤ)) → All Filled es → drop_empty (map numbers_entry es) ≡ map numbers_entry es
drop_empty-entries [] h = refl
drop_empty-entries (e ∷ es) h =
    drop_empty_kept (numbers_entry e) (map numbers_entry es) h.0
    ∙ ap (◌∷◌ (numbers_entry e)) (drop_empty-entries es h.1)

pub tokens-entries :
    (es : List (List ℤ)) → All Filled es → tokens b';' (entries_text true es) ≡ map numbers_entry es
unfolding tokens
tokens-entries [] h = refl
tokens-entries (e ∷ es) h = ap drop_empty (split-entries e es) ∙ drop_empty-entries (e ∷ es) h

none_special : (t : Text) → Without b'|' t → Without 10 t → Without 13 t → Plain t
none_special [] h k l = tt
none_special (c ∷ t) h k l = (ground (arith, h.0, k.0, l.0), none_special t h.1 k.1 l.1)

pub entry-Plain : (zs : List ℤ) → Plain (numbers_entry zs)
entry-Plain zs =
    none_special (numbers_entry zs) (entry-Without b'|' refl refl refl zs)
      (entry-Without 10 refl refl refl zs) (entry-Without 13 refl refl refl zs)

pub entries-Plain : (first : Bool) (es : List (List ℤ)) → Plain (entries_text first es)
entries-Plain first [] = tt
entries-Plain true (e ∷ es) =
    All-append (λ c. is_special c) (numbers_entry e) (entries_text false es) (entry-Plain e)
      (entries-Plain false es)
entries-Plain false (e ∷ es) = (
  refl,
  All-append (λ c. is_special c) (numbers_entry e) (entries_text false es) (entry-Plain e)
      (entries-Plain false es),
)
