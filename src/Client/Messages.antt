-- ===== src/Client/Messages.antt =====
-- The ring of messages keeps the last ones in their order.
use asciigame.Base.{
  ℕ, ◌+◌, ◌%◌, ◌<◌, ◌≤◌, ◌≡◌, ◌≢◌, refl, ◌∙◌, inl, inr, some, Option, arith, get_elem?,
  get_elem?-set_self, get_elem?-set_ne, length, length-set, ltb, Bool-cases, set,
}
use asciigame.Text.{Text, copy_into}
use asciigame.Client.{GameState, ChatMessage, max_messages, game_add_message}

-- The i-th message from the oldest.
abbrev pub nth_message : GameState → ℕ → Option ChatMessage
nth_message g i = get_elem? g.messages ((g.msg_head + i) % max_messages)

pub record IsRing (g : GameState) : Type 0 where
  pub places : length g.messages ≡ max_messages
  pub head : g.msg_head < max_messages
  pub count : g.msg_count ≤ max_messages

abbrev message : Text → Text → ChatMessage
message sender text = record { sender = copy_into 32 sender; text = copy_into 256 text }

-- The index of a message older than the one written.
other_place : (h i k : ℕ) → i < k → k < i + 50 → (h + k) % 50 ≢ (h + i) % 50
other_place h i k a b e = omega arith

next_place : (h i : ℕ) → ((h + 1) % 50 + i) % 50 ≡ (h + (i + 1)) % 50
next_place h i = omega arith

-- What stands in the ring after a write behind `k` messages.
written :
    (g : GameState) (m : ChatMessage) (k : ℕ)
    → IsRing g
    → get_elem?
        (set g.messages ((g.msg_head + k) % max_messages) m)
        ((g.msg_head + k) % max_messages)
      ≡ some m
written g m k v = get_elem?-set_self g.messages ((g.msg_head + k) % 50) m (omega (arith, v.places))

kept :
    (g : GameState) (m : ChatMessage) (i k : ℕ)
    → i < k
    → k < i + 50
    → get_elem?
        (set g.messages ((g.msg_head + k) % max_messages) m)
        ((g.msg_head + i) % max_messages)
      ≡ nth_message g i
kept g m i k a b =
    get_elem?-set_ne g.messages ((g.msg_head + k) % 50) ((g.msg_head + i) % 50) m
      (other_place g.msg_head i k a b)

-- A message that is added to a ring of messages is the newest one. While the ring is not full all the
-- others keep their places; when it is full the oldest one is lost and each other moves up by one.
pub game_add_message_lem :
    (sender text : Text) (g : GameState)
    → IsRing g
    → let h = game_add_message sender text g in
      IsRing h
      × ((g.msg_count < max_messages)
          → (h.msg_count ≡ g.msg_count + 1)
            × (nth_message h g.msg_count ≡ some (message sender text))
            × ((i : ℕ) → i < g.msg_count → nth_message h i ≡ nth_message g i))
      × ((g.msg_count ≡ max_messages)
          → (h.msg_count ≡ max_messages)
            × (nth_message h 49 ≡ some (message sender text))
            × ((i : ℕ) → i < 49 → nth_message h i ≡ nth_message g (i + 1)))
unfolding game_add_message
game_add_message_lem sender text g v = elim (Bool-cases (ltb g.msg_count max_messages)) [
  | inl free ↦ rw free (
    record { places = length-set g.messages _ _ ∙ v.places; head = v.head; count = ground arith },
    λ c. (
      refl,
      written g (message sender text) g.msg_count v,
      λ i l. kept g _ i g.msg_count l (omega (arith, c)),
    ),
    λ e. absurd (ground arith),
  )
  | inr full ↦
      let c : g.msg_count ≡ 50 = ground (arith, v.count) in
      rw full (
        record {
          places = length-set g.messages _ _ ∙ v.places;
          head = omega arith;
          count = v.count;
        },
        λ l. absurd (omega (arith, c)),
        λ e. (
          c,
          rw (next_place g.msg_head 49, c) (written g (message sender text) 50 v),
          λ i l. rw (next_place g.msg_head i, c) (kept g _ (i + 1) 50 (omega arith) (omega arith)),
        ),
      )
]
