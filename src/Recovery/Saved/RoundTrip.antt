-- ===== src/Recovery/Saved/RoundTrip.antt =====
-- What is saved of a player is what the player gets back.
use asciigame.Base.{
  ℕ, zero, suc, ◌<◌, ◌≡◌, refl, ap, sym, ◌∙◌, true, ◌&&◌, List, [], ◌∷◌, ◌++◌, Option, none, some,
  ℤ, pos, negsuc, All, get_or, length, map, arith, if◌then◌else◌, Bool-cases, Option-cases, inl,
  inr,
}
use mathlib.Core.List.{append-nil}
use asciigame.Text.{Text, codes, text_eq}
use asciigame.Text.Decimal.{print_int, atoi, atoi-print_int}
use asciigame.Text.Fields.{Without}
use asciigame.Text.Scan.{strip_prefix, after_first}
use asciigame.Text.Scan.Mixed.{
  lit, word, number, text, scan_parts, scan_parts-num, scan_parts-lit, scan_parts-word,
}
use asciigame.Room.{commas}
use asciigame.Game.Broadcast.{player_status_number}
use asciigame.Recovery.{RecoveryState, RecoveredPlayer, RecoveredItem}
use asciigame.Recovery.Saved.{
  is_living, alive_count, keyed, time_remaining, saved_numbers, saved_text, item_lines, row_text,
  saved_name, recovery_lines, save_recovery_info,
}
use asciigame.Recovery.Saved.Reading.{
  SavedPlayer, num_list, numbers_of, saved_player, player_of, saved_of, player_in_lines,
  is_recovery_file, recovery_get_player_state,
}

-- What is kept of a player: the numbers, and the time for which the potion still works.
abbrev pub as_saved : ℤ → RecoveredPlayer → SavedPlayer
as_saved now p = record {
  pid = p.id;
  username = p.username;
  x = p.x;
  y = p.y;
  hp = p.hp;
  max_hp = p.max_hp;
  atk = p.atk;
  def = p.def;
  has_shield = p.has_shield;
  status = player_status_number p.status;
  inv_count = pos p.inventory_count;
  inventory =
      get_or p.inventory 0 (pos 0)
      ∷ get_or p.inventory 1 (pos 0)
      ∷ get_or p.inventory 2 (pos 0)
      ∷ get_or p.inventory 3 (pos 0)
      ∷ get_or p.inventory 4 (pos 0)
      ∷ [];
  base_atk = p.base_atk;
  atk_buff_remain = time_remaining now p;
}

-- The first living player of the name.
abbrev pub first_living : Text → List RecoveredPlayer → Option RecoveredPlayer
first_living username [] = none
first_living username (p ∷ ps) =
    let next = first_living username ps in
    if text_eq p.username username && is_living p then some p else next

abbrev pub map_option : {A B : Type 0} → (A → B) → Option A → Option B
map_option f none = none
map_option f (some a) = some (f a)

-- A name is a word without commas.
abbrev pub IsName : Text → Type 0
IsName name = Without b',' name × (0 < length name)

-- A line that says nothing of the room's identifier or of a player.
abbrev pub IsOtherLine : Text → Type 0
IsOtherLine line =
    (strip_prefix (codes "room_id=") line ≡ none) × (strip_prefix (codes "player=") line ≡ none)

pub record IsSavable (state : RecoveryState) : Type 0 where
  pub names : All (λ (p : RecoveredPlayer). IsName p.username) state.players
  pub rows : All (λ row. IsOtherLine (row_text row)) state.grid

abbrev numbers_text : List ℤ → Text
numbers_text zs = commas (map print_int zs)

scan_numbers :
    (n : ℕ) (zs : List ℤ)
    → length zs ≡ suc n
    → numbers_of (scan_parts (num_list n) (numbers_text zs)) ≡ zs
unfolding scan_parts
scan_numbers n [] e = absurd (omega arith)
scan_numbers zero (z ∷ []) e =
    ap (λ t. numbers_of (scan_parts (num_list 0) t)) (sym (append-nil (print_int z)))
    ∙ ap numbers_of (scan_parts-num [] z [] tt)
scan_numbers zero (z ∷ y ∷ zs) e = absurd (omega arith)
scan_numbers (suc n) (z ∷ []) e = absurd (omega arith)
scan_numbers (suc n) (z ∷ y ∷ zs) e =
    ap numbers_of (scan_parts-num (lit b',' ∷ num_list n) z (b',' ∷ numbers_text (y ∷ zs)) refl)
    ∙ ap (λ vs. z ∷ numbers_of vs) (scan_parts-lit (num_list n) b',' (numbers_text (y ∷ zs)))
    ∙ ap (◌∷◌ z) (scan_numbers n (y ∷ zs) (omega arith))

saved_player-text :
    (now : ℤ) (p : RecoveredPlayer)
    → IsName p.username
    → saved_player (saved_text now p) ≡ some (as_saved now p)
unfolding saved_player
saved_player-text now p (w, k) =
    let numbers = numbers_text (saved_numbers now p) in
    let tail = lit b',' ∷ num_list 15 in
    ap player_of (
      scan_parts-num (lit b',' ∷ word b',' ∷ tail) p.id (b',' ∷ (p.username ++ b',' ∷ numbers)) refl
      ∙ ap (◌∷◌ (number p.id)) (
          scan_parts-lit (word b',' ∷ tail) b',' (p.username ++ b',' ∷ numbers)
          ∙ scan_parts-word tail b',' p.username numbers w k
          ∙ ap (◌∷◌ (text p.username)) (scan_parts-lit (num_list 15) b',' numbers)))
    ∙ ap (saved_of p.id p.username) (scan_numbers 15 (saved_numbers now p) refl)

skip_line :
    (username : Text) (room_id : ℤ) (line : Text) (lines : List Text)
    → IsOtherLine line
    → player_in_lines username room_id (line ∷ lines) ≡ player_in_lines username room_id lines
unfolding player_in_lines
skip_line username room_id line lines (h, k) = rw (h, k) refl

skip_lines :
    (username : Text) (room_id : ℤ) (others lines : List Text)
    → All IsOtherLine others
    → player_in_lines username room_id (others ++ lines) ≡ player_in_lines username room_id lines
skip_lines username room_id [] lines h = refl
skip_lines username room_id (o ∷ others) lines (h, k) =
    skip_line username room_id o (others ++ lines) h ∙ skip_lines username room_id others lines k

-- The players' lines, with others behind them.
found_in_lines :
    (now : ℤ) (username : Text) (room_id : ℤ) (ps : List RecoveredPlayer) (others : List Text)
    → All (λ (p : RecoveredPlayer). IsName p.username) ps
    → All IsOtherLine others
    → player_in_lines username room_id (map (λ p. codes "player=" ++ saved_text now p) ps ++ others)
      ≡ map_option (λ p. (room_id, as_saved now p)) (first_living username ps)
unfolding player_in_lines
found_in_lines now username room_id [] others h k =
    ap (player_in_lines username room_id) (sym (append-nil others))
    ∙ skip_lines username room_id others [] k
found_in_lines now username room_id (p ∷ ps) others (h, hs) k =
    elim (Bool-cases (text_eq p.username username && is_living p)) [
      | inl takes ↦ rw (saved_player-text now p h, takes) refl
      | inr other ↦
          rw (saved_player-text now p h, other) (found_in_lines now username room_id ps others hs k)
    ]

item_lines-IsOtherLine : (is : List RecoveredItem) → All IsOtherLine (item_lines is)
unfolding strip_prefix
item_lines-IsOtherLine [] = tt
item_lines-IsOtherLine (i ∷ is) = elim (Bool-cases i.active) [
  | inl takes ↦ rw takes ((refl, refl), item_lines-IsOtherLine is)
  | inr other ↦ rw other (item_lines-IsOtherLine is)
]

rows-IsOtherLine :
    (rows : List Text)
    → All (λ row. IsOtherLine (row_text row)) rows
    → All IsOtherLine (map row_text rows)
rows-IsOtherLine [] h = tt
rows-IsOtherLine (r ∷ rows) (h, k) = (h, rows-IsOtherLine rows k)

named_file : (s : Text) → is_recovery_file (s ++ codes ".recovery") ≡ true
unfolding after_first strip_prefix
named_file [] = refl
named_file (c ∷ s) =
    elim (Option-cases (strip_prefix (codes ".recovery") (c ∷ (s ++ codes ".recovery")))) [
      | inl later ↦ rw (is_recovery_file, after_first, later) (named_file s)
      | inr (rest, here) ↦ rw (is_recovery_file, after_first, here) refl
    ]

first_line :
    (username : Text) (room_id : ℤ) (lines : List Text)
    → player_in_lines username (negsuc 0) ((codes "room_id=" ++ print_int room_id) ∷ lines)
      ≡ player_in_lines username room_id lines
unfolding player_in_lines
first_line username room_id lines =
    ap (λ t. player_in_lines username (atoi t) lines) (sym (append-nil (print_int room_id)))
    ∙ ap (λ z. player_in_lines username z lines) (atoi-print_int room_id [] tt)

head_lines : RecoveryState → List Text
head_lines state =
    (codes "room_name=" ++ saved_name state)
    ∷ keyed (codes "poison_radius=") state.poison_radius
    ∷ keyed (codes "player_count=") (pos (length state.players))
    ∷ keyed (codes "alive_count=") (pos (alive_count state.players))
    ∷ codes "map_start"
    ∷ []

player_in_lines-recovery_lines :
    (now : ℤ) (username : Text) (state : RecoveryState)
    → IsSavable state
    → player_in_lines username (negsuc 0) (recovery_lines now state)
      ≡ map_option (λ p. (state.room_id, as_saved now p)) (first_living username state.players)
unfolding recovery_lines head_lines strip_prefix
player_in_lines-recovery_lines now username state v =
    let others = keyed (codes "item_count=") (pos (length state.items)) ∷ item_lines state.items in
    let players = map (λ p. codes "player=" ++ saved_text now p) state.players ++ others in
    let rows = map row_text state.grid in
    first_line username state.room_id (head_lines state ++ (rows ++ codes "map_end" ∷ players))
    ∙ skip_lines username state.room_id (head_lines state) (rows ++ codes "map_end" ∷ players)
        ((refl, refl), ((refl, refl), ((refl, refl), ((refl, refl), ((refl, refl), tt)))))
    ∙ skip_lines username state.room_id rows (codes "map_end" ∷ players)
        (rows-IsOtherLine state.grid v.rows)
    ∙ skip_line username state.room_id (codes "map_end") players (refl, refl)
    ∙ found_in_lines now username state.room_id state.players others v.names
        ((refl, refl), item_lines-IsOtherLine state.items)

-- From the file that is saved of a game, a user gets back the first living player of that name with
-- the game's room: every number as it was, and the potion for as long as it still worked. A name of
-- which no player lives gets nothing. The names are words without commas, and no row of the map
-- begins like a line about the room or a player.
pub recovery_get_player_state-save_recovery_info :
    (now room_id : ℤ) (username : Text) (state : RecoveryState)
    → IsSavable state
    → recovery_get_player_state username (save_recovery_info now room_id state ∷ [])
      ≡ map_option (λ p. (state.room_id, as_saved now p)) (first_living username state.players)
unfolding recovery_get_player_state save_recovery_info
recovery_get_player_state-save_recovery_info now room_id username state v =
    let found = player_in_lines-recovery_lines now username state v in
    let named = named_file (codes "room_" ++ print_int room_id) in
    rw (named, recovery_get_player_state, save_recovery_info, found) (same _)
  where
    same :
        {A : Type 0} (o : Option A)
        → (elim o as (λ _. Option A) [ none ↦ none | some q ↦ some q ]) ≡ o
    same none = refl
    same (some q) = refl
