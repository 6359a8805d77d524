-- ===== src/Recovery/Mapping.antt =====
-- The rooms that were made for recovered games: a table from old to new identifiers.
use asciigame.Base.{
  ℕ, ◌≡◌, refl, ◌∙◌, sym, ap, inl, inr, true, false, List, [], ◌∷◌, ◌++◌, ℤ, negsuc, All, ltb,
  ◌==ℤ◌, if◌then◌else◌, length, Bool-cases, arith, ◌<◌, ==ℤ_refl,
}

abbrev max_recovery_mappings : ℕ
max_recovery_mappings = 32

pub record RoomMapping : Type 0 where
  pub original_room_id : ℤ
  pub new_room_id : ℤ

unfoldable pub find_recovery_room : ℤ → List RoomMapping → ℤ
find_recovery_room id [] = negsuc 0
find_recovery_room id (m ∷ ms) =
    let rest = find_recovery_room id ms in if m.original_room_id ==ℤ id then m.new_room_id else rest

unfoldable pub add_recovery_room_mapping : ℤ → ℤ → List RoomMapping → List RoomMapping
add_recovery_room_mapping original new_id ms =
    if ltb (length ms) max_recovery_mappings
    then ms ++ (record { original_room_id = original; new_room_id = new_id } ∷ [])
    else ms

abbrev before_last : RoomMapping → List RoomMapping → List RoomMapping
before_last m [] = m ∷ []
before_last m (l ∷ ms) = l ∷ m ∷ ms

-- The last entry moves to the front.
rotate : List RoomMapping → List RoomMapping
rotate [] = []
rotate (m ∷ ms) = before_last m (rotate ms)

-- The last entry takes the place of the one that is removed.
unfoldable pub remove_recovery_room_mapping : ℤ → List RoomMapping → List RoomMapping
unfolding rotate
remove_recovery_room_mapping id [] = []
remove_recovery_room_mapping id (m ∷ ms) =
    let rest = remove_recovery_room_mapping id ms in
    if m.original_room_id ==ℤ id then rotate ms else m ∷ rest

-- The entry is not about the identifier.
abbrev pub IsOther : ℤ → RoomMapping → Type 0
IsOther id m = (m.original_room_id ==ℤ id) ≡ false

-- Each old identifier stands once.
abbrev pub IsMapping : List RoomMapping → Type 0
IsMapping [] = Unit
IsMapping (m ∷ ms) = All (IsOther m.original_room_id) ms × IsMapping ms

find_other :
    (id : ℤ) (ms : List RoomMapping) → All (IsOther id) ms → find_recovery_room id ms ≡ negsuc 0
unfolding find_recovery_room
find_other id [] h = refl
find_other id (m ∷ ms) (g, h) = rw g (find_other id ms h)

before_last-All :
    (id : ℤ) (m : RoomMapping) (ms : List RoomMapping)
    → IsOther id m
    → All (IsOther id) ms
    → All (IsOther id) (before_last m ms)
before_last-All id m [] g h = (g, tt)
before_last-All id m (l ∷ ms) g (a, b) = (a, (g, b))

rotate-All : (id : ℤ) (ms : List RoomMapping) → All (IsOther id) ms → All (IsOther id) (rotate ms)
unfolding rotate
rotate-All id [] h = tt
rotate-All id (m ∷ ms) (g, h) = before_last-All id m (rotate ms) g (rotate-All id ms h)

-- Two entries about different rooms may stand in either order.
find-before_last :
    (id : ℤ) (m : RoomMapping) (ms : List RoomMapping)
    → All (IsOther m.original_room_id) ms
    → find_recovery_room id (before_last m ms) ≡ find_recovery_room id (m ∷ ms)
unfolding find_recovery_room
find-before_last id m [] h = refl
find-before_last id m (l ∷ ms) (a, b) = elim (Bool-cases (l.original_room_id ==ℤ id)) [
  | inr f ↦ rw f refl
  | inl f ↦ elim (Bool-cases (m.original_room_id ==ℤ id)) [
    | inl e ↦ absurd (ground arith)
    | inr e ↦ rw (e, f) refl
  ]
]

find-next :
    (id : ℤ) (m : RoomMapping) (xs ys : List RoomMapping)
    → find_recovery_room id xs ≡ find_recovery_room id ys
    → find_recovery_room id (m ∷ xs) ≡ find_recovery_room id (m ∷ ys)
unfolding find_recovery_room
find-next id m xs ys e = ap (λ (z : ℤ). if m.original_room_id ==ℤ id then m.new_room_id else z) e

find-rotate :
    (id : ℤ) (ms : List RoomMapping)
    → IsMapping ms
    → find_recovery_room id (rotate ms) ≡ find_recovery_room id ms
unfolding rotate
find-rotate id [] h = refl
find-rotate id (m ∷ ms) (g, h) =
    find-before_last id m (rotate ms) (rotate-All m.original_room_id ms g)
    ∙ find-next id m (rotate ms) ms (find-rotate id ms h)

find_past :
    (id : ℤ) (m : RoomMapping) (ms : List RoomMapping)
    → IsOther id m
    → find_recovery_room id (m ∷ ms) ≡ find_recovery_room id ms
unfolding find_recovery_room
find_past id m ms g = rw g refl

-- In a table in which each old identifier stands once, a removed one is found no more, and what is
-- found for any other stays.
pub remove_recovery_room_mapping_lem :
    (id : ℤ) (ms : List RoomMapping)
    → IsMapping ms
    → (find_recovery_room id (remove_recovery_room_mapping id ms) ≡ negsuc 0)
      × ((other : ℤ)
          → (other ==ℤ id) ≡ false
          → find_recovery_room other (remove_recovery_room_mapping id ms)
            ≡ find_recovery_room other ms)
unfolding remove_recovery_room_mapping
remove_recovery_room_mapping_lem id [] h = (find_other id [] tt, λ other n. refl)
remove_recovery_room_mapping_lem id (m ∷ ms) (g, h) =
    elim (Bool-cases (m.original_room_id ==ℤ id)) [
      | inl e ↦
          let same : m.original_room_id ≡ id = ground arith in
          let rest : All (IsOther id) ms = rw (← same) g in
          rw (e, remove_recovery_room_mapping)
            (
              find-rotate id ms h ∙ find_other id ms rest,
              λ other n. find-rotate other ms h ∙ sym (find_past other m ms (ground arith)),
            )
      | inr e ↦
          let (gone, kept) = remove_recovery_room_mapping_lem id ms h in
          rw (e, remove_recovery_room_mapping)
            (find_past id m _ e ∙ gone, λ other n. find-next other m _ ms (kept other n))
    ]

-- A new old identifier in a table that is not full is found under its new one, and what is found for any
-- other stays.
pub add_recovery_room_mapping_lem :
    (original new_id : ℤ) (ms : List RoomMapping)
    → length ms < max_recovery_mappings
    → All (IsOther original) ms
    → let after = add_recovery_room_mapping original new_id ms in
      (find_recovery_room original after ≡ new_id)
      × ((other : ℤ)
          → (original ==ℤ other) ≡ false
          → find_recovery_room other after ≡ find_recovery_room other ms)
unfolding add_recovery_room_mapping find_recovery_room
add_recovery_room_mapping_lem original new_id ms l h =
    let room : ltb (length ms) max_recovery_mappings ≡ true = ground arith in
    rw (room, add_recovery_room_mapping) (added ms h, λ other n. others other n ms)
  where
    entry : RoomMapping
    entry = record { original_room_id = original; new_room_id = new_id }

    added :
        (ms : List RoomMapping)
        → All (IsOther original) ms
        → find_recovery_room original (ms ++ (entry ∷ [])) ≡ new_id
    added [] h = rw (==ℤ_refl original) refl
    added (m ∷ ms) (g, h) = find_past original m (ms ++ (entry ∷ [])) g ∙ added ms h

    others :
        (other : ℤ)
        → (original ==ℤ other) ≡ false
        → (ms : List RoomMapping)
        → find_recovery_room other (ms ++ (entry ∷ [])) ≡ find_recovery_room other ms
    others other n [] = find_past other entry [] n
    others other n (m ∷ ms) = find-next other m (ms ++ (entry ∷ [])) ms (others other n ms)
