-- ===== src/Recovery/Listing/Complete.antt =====
-- The rooms that are listed for recovery are the right ones.
use asciigame.Base.{
  ◌<◌, ◌≤◌, ◌≡◌, refl, ap, sym, ◌∙◌, Bool, true, false, not, ◌&&◌, ◌||◌, List, [], ◌∷◌, ◌++◌,
  Option, none, some, ℤ, pos, ◌==ℤ◌, ==ℤ_refl, ltb_ℤ, ltb, arith, length, length-append, take_all,
  Bool-cases, Option-cases, ◌%◌, ◌^◌, negsuc, ◌<ℤ◌, ◌≤ℤ◌, inl, inr, All,
}
use mathlib.Core.Path.{subst}
use asciigame.Config.{max_rooms}
use asciigame.Text.{Text, codes, text_eq}
use asciigame.Text.Decimal.{skip_space}
use asciigame.Text.Scan.{strip_prefix, number_at}
use asciigame.Snapshot.{Snapshot}
use asciigame.Recovery.Listing.{
  int_of, long_of, room_of_file, member, is_recoverable, note_file, scan_names,
  recovery_list_recoverable_rooms,
}

int_of_max : (z : ℤ) → int_of z <ℤ pos 2147483648
int_of_max (pos n) = elim (Bool-cases (ltb (n % 2 ^ 32) (2 ^ 31))) [
  | inl h ↦ rw h (ground arith)
  | inr h ↦ rw h (omega arith)
]
int_of_max (negsuc n) = elim (Bool-cases (ltb (n % 2 ^ 32) (2 ^ 31))) [
  | inl h ↦ rw h (omega arith)
  | inr h ↦ rw h (ground arith)
]

-- What is read of a name is of type int.
abbrev AtMostInt : Option ℤ → Type 0
AtMostInt none = Unit
AtMostInt (some id) = id <ℤ pos 2147483648

room_of_file_max : (name : Text) → AtMostInt (room_of_file name)
unfolding room_of_file
room_of_file_max name = elim (Option-cases (strip_prefix (codes "room_") name)) [
  | inl n ↦ rw n tt
  | inr (s, e) ↦ rw e (elim (Option-cases (number_at (skip_space s))) [
    | inl n ↦ rw n tt
    | inr ((id, end), k) ↦
        rw k (elim (Bool-cases (text_eq end (codes ".wal") || text_eq end (codes ".snap"))) [
          | inl h ↦ rw h (int_of_max (long_of id))
          | inr h ↦ rw h tt
        ])
  ])
]

-- An identifier is a number of type int that is not negative.
abbrev pub IsId : ℤ → Type 0
IsId id = (pos 0 ≤ℤ id) × (id <ℤ pos 2147483648)

last-AllIds : (id : ℤ) (found : List ℤ) → IsId id → All IsId found → All IsId (found ++ (id ∷ []))
last-AllIds id [] h k = (h, tt)
last-AllIds id (x ∷ found) h (a, b) = (a, last-AllIds id found h b)

-- No room stands twice.
abbrev pub IsUnique : List ℤ → Type 0
IsUnique [] = Unit
IsUnique (x ∷ xs) = (member x xs ≡ false) × IsUnique xs

same_swapped : (a b : ℤ) → (a ==ℤ b) ≡ (b ==ℤ a)
same_swapped a b = ground arith

member_last : (id x : ℤ) (xs : List ℤ) → member id (xs ++ (x ∷ [])) ≡ (member id xs || x ==ℤ id)
member_last id x [] = ground arith
member_last id x (y ∷ xs) = rw (member_last id x xs) (ground arith)

last-IsUnique :
    (x : ℤ) (xs : List ℤ) → member x xs ≡ false → IsUnique xs → IsUnique (xs ++ (x ∷ []))
last-IsUnique x [] h k = (refl, tt)
last-IsUnique x (y ∷ xs) h (a, b) = (
  rw (member_last y x xs) (ground (arith, h, a, same_swapped x y)),
  last-IsUnique x xs (ground (arith, h)) b,
)

module _ (logs : ℤ → Option (List Text)) (snapshots : ℤ → Option Snapshot) where
  record IsListing (found : List ℤ) : Type 0 where
    unique : IsUnique found
    ids : All IsId found
    rooms : All (λ id. is_recoverable logs snapshots id ≡ true) found
    few : length found ≤ max_rooms

  last-All :
      (id : ℤ) (found : List ℤ)
      → is_recoverable logs snapshots id ≡ true
      → All (λ i. is_recoverable logs snapshots i ≡ true) found
      → All (λ i. is_recoverable logs snapshots i ≡ true) (found ++ (id ∷ []))
  last-All id [] h k = (h, tt)
  last-All id (x ∷ found) h (a, b) = (a, last-All id found h b)

  -- A file that is noted, and one that is not.
  note_file-IsListing :
      (o : Option ℤ) (found : List ℤ)
      → AtMostInt o
      → length found < max_rooms
      → IsListing found
      → IsListing (note_file logs snapshots o found)
  note_file-IsListing none found i l v = v
  note_file-IsListing (some id) found i l v =
      elim (Bool-cases
        (not (ltb_ℤ id (pos 0)) && (not (member id found) && is_recoverable logs snapshots id))) [
          | inr other ↦ rw other v
          | inl fresh ↦
              let parts =
                three (ltb_ℤ id (pos 0)) (member id found) (is_recoverable logs snapshots id)
                  fresh in
              rw fresh (record {
                unique = last-IsUnique id found parts.1 v.unique;
                ids = last-AllIds id found (ground (arith, parts.0), i) v.ids;
                rooms = last-All id found parts.2 v.rooms;
                few = omega (arith, length-append found (id ∷ []));
              })
        ]
    where
      three :
          (a b c : Bool) → (not a && (not b && c)) ≡ true → (a ≡ false) × (b ≡ false) × (c ≡ true)
      three false false true e = (refl, refl, refl)
      three false false false e = absurd (cc)
      three false true c e = absurd (cc)
      three true b c e = absurd (cc)

  scan_names-IsListing :
      (names : List Text) (found : List ℤ)
      → IsListing found
      → IsListing (scan_names logs snapshots names found)
  unfolding scan_names
  scan_names-IsListing [] found v = v
  scan_names-IsListing (name ∷ names) found v = elim (Bool-cases (ltb (length found) max_rooms)) [
    | inr full ↦ rw full v
    | inl more ↦ rw more (
        scan_names-IsListing names (note_file logs snapshots (room_of_file name) found)
          (note_file-IsListing (room_of_file name) found (room_of_file_max name) (ground arith) v))
  ]

  -- What is found stays.
  note_file-member :
      (o : Option ℤ) (found : List ℤ) (id : ℤ)
      → member id found ≡ true
      → member id (note_file logs snapshots o found) ≡ true
  note_file-member none found id h = h
  note_file-member (some new) found id h =
      elim (Bool-cases (
        not (ltb_ℤ new (pos 0)) && (not (member new found) && is_recoverable logs snapshots new))) [
          | inr other ↦ rw other h
          | inl fresh ↦ rw (fresh, member_last id new found, h) refl
        ]

  scan_names-member :
      (names : List Text) (found : List ℤ) (id : ℤ)
      → member id found ≡ true
      → member id (scan_names logs snapshots names found) ≡ true
  unfolding scan_names
  scan_names-member [] found id h = h
  scan_names-member (name ∷ names) found id h = elim (Bool-cases (ltb (length found) max_rooms)) [
    | inr full ↦ rw full h
    | inl more ↦ rw more (
        scan_names-member names (note_file logs snapshots (room_of_file name) found) id
          (note_file-member (room_of_file name) found id h))
  ]

  note_file-noted :
      (found : List ℤ) (id : ℤ)
      → ltb_ℤ id (pos 0) ≡ false
      → is_recoverable logs snapshots id ≡ true
      → member id (note_file logs snapshots (some id) found) ≡ true
  note_file-noted found id p r = elim (Bool-cases (member id found)) [
    | inl known ↦ rw (p, known) known
    | inr fresh ↦ rw (p, fresh, r, member_last id id found, ==ℤ_refl id, fresh) refl
  ]

  -- Every file of a recoverable room, when there is room for more.
  abbrev pub Listed : List ℤ → Text → Type 0
  Listed found name =
      (id : ℤ)
      → room_of_file name ≡ some id
      → ltb_ℤ id (pos 0) ≡ false
      → is_recoverable logs snapshots id ≡ true
      → member id found ≡ true

  scan_full :
      (name : Text) (names : List Text) (found : List ℤ)
      → ltb (length found) max_rooms ≡ false
      → scan_names logs snapshots (name ∷ names) found ≡ found
  unfolding scan_names
  scan_full name names found full = rw full refl

  scan_more :
      (name : Text) (names : List Text) (found : List ℤ)
      → ltb (length found) max_rooms ≡ true
      → scan_names logs snapshots (name ∷ names) found
        ≡ scan_names logs snapshots names (note_file logs snapshots (room_of_file name) found)
  unfolding scan_names
  scan_more name names found more = rw more refl

  scan_names-Listed :
      (names : List Text) (found : List ℤ)
      → length (scan_names logs snapshots names found) < max_rooms
      → All (Listed (scan_names logs snapshots names found)) names
  scan_names-Listed [] found l = tt
  scan_names-Listed (name ∷ names) found l =
      let noted = note_file logs snapshots (room_of_file name) found in
      elim (Bool-cases (ltb (length found) max_rooms)) [
        | inr full ↦ absurd (ground (arith, ap length (scan_full name names found full), l, full))
        | inl more ↦
            let e = scan_more name names found more in
            let later = scan_names-Listed names noted (rw (← e) l) in
            (
              λ id n p r.
                  ap (member id) e
                  ∙ scan_names-member names noted id (
                      ap (λ o. member id (note_file logs snapshots o found)) n
                      ∙ note_file-noted found id p r),
              subst (λ r. All (Listed r) names) (sym e) later,
            )
      ]

  fresh-IsListing : IsListing []
  fresh-IsListing = record { unique = tt; ids = tt; rooms = tt; few = omega arith }

-- Of the files in the directory the recovery lists rooms without repetition, at most as many as there
-- can be. Their identifiers are numbers of type int that are not negative, whatever the number in
-- the name of the file, and each of them has a log without an end of the game or a snapshot without
-- a log. Unless the list is full, no such room that has a log or a snapshot among the files is missing.
pub recovery_list_recoverable_rooms_lem :
    (logs : ℤ → Option (List Text)) (snapshots : ℤ → Option Snapshot) (names : List Text)
    → let found = recovery_list_recoverable_rooms logs snapshots max_rooms names in
      IsUnique found
      × All IsId found
      × All (λ id. is_recoverable logs snapshots id ≡ true) found
      × (length found ≤ max_rooms)
      × (length found < max_rooms → All (Listed logs snapshots found) names)
unfolding recovery_list_recoverable_rooms
recovery_list_recoverable_rooms_lem logs snapshots names =
    let v = scan_names-IsListing logs snapshots names [] (fresh-IsListing logs snapshots) in
    let whole = take_all max_rooms (scan_names logs snapshots names []) v.few in
    rw whole (v.unique, v.ids, v.rooms, v.few, λ l. scan_names-Listed logs snapshots names [] l)
