-- ===== src/Client/Stream.antt =====
-- The receiving thread and the pieces in which the bytes arrive.
use asciigame.Base.{
  ℕ, zero, suc, ◌+◌, ◌<◌, ◌≤◌, ◌≡◌, refl, ap, sym, ◌∙◌, ◌⊎◌, inl, inr, List, [], ◌∷◌, ◌++◌, ℤ,
  arith, ◌==◌, Bool-cases, length, length-append, map,
}
use mathlib.Core.List.{append_assoc, append-nil}
use asciigame.Protocol.Framing.{NoNewline, extract_first_line, extract_incomplete}
use asciigame.Client.{GameState}
use asciigame.Client.Update.{game_update_from_server, take_messages, read, recv_thread_func}

-- A buffer begins with a line, or holds no newline.
abbrev Cut : List ℕ → Type 0
Cut buf = NoNewline buf ⊎ ((s : List ℕ) × (rest : List ℕ) × (buf ≡ s ++ 10 ∷ rest) × NoNewline s)

line_or_none : (buf : List ℕ) → Cut buf
line_or_none [] = inl tt
line_or_none (c ∷ buf) = elim (Bool-cases (c == 10)) [
  | inl e ↦ inr ([], buf, ap (λ d. d ∷ buf) (ground (arith, e)), tt)
  | inr e ↦ elim (line_or_none buf) as (λ _. Cut (c ∷ buf)) [
    | inl h ↦ inl (e, h)
    | inr (s, rest, f, h) ↦ inr (c ∷ s, rest, ap (◌∷◌ c) f, (e, h))
  ]
]

length-line : (s rest buf : List ℕ) → buf ≡ s ++ 10 ∷ rest → length buf ≡ length s + length rest + 1
length-line s rest buf e = ap length e ∙ omega (arith, length-append s (10 ∷ rest))

module _ (now : ℤ) (junk : ℕ → ℤ) where
  take_line :
      (n : ℕ) (s rest : List ℕ) (g : GameState)
      → NoNewline s
      → length s < 4096
      → take_messages now junk (suc n) (s ++ 10 ∷ rest) g
        ≡ take_messages now junk n rest (game_update_from_server now junk s g)
  unfolding take_messages
  take_line n s rest g h l =
      let first = extract_first_line s rest 4096 h in
      rw (take_messages, first.1 (omega arith), first.0) refl

  take_none :
      (n : ℕ) (s : List ℕ) (g : GameState)
      → NoNewline s
      → take_messages now junk (suc n) s g ≡ (s, g)
  unfolding take_messages
  take_none n s g h =
      let none_left = extract_incomplete s 4096 h in
      rw (take_messages, ap (λ q. q.1) none_left, ap (λ q. q.0) none_left) refl

  -- Fuel above the length of the buffer is enough.
  take_messages-fuel :
      (n m : ℕ) (buf : List ℕ) (g : GameState)
      → length buf < n
      → length buf < m
      → length buf ≤ 4096
      → take_messages now junk n buf g ≡ take_messages now junk m buf g
  take_messages-fuel zero m buf g k l w = absurd (omega arith)
  take_messages-fuel (suc n) zero buf g k l w = absurd (omega arith)
  take_messages-fuel (suc n) (suc m) buf g k l w = elim (line_or_none buf) [
    | inl h ↦ take_none n buf g h ∙ sym (take_none m buf g h)
    | inr (s, rest, e, h) ↦
        let size = length-line s rest buf e in
        rw e (
          take_line n s rest g h (omega (arith, size))
          ∙ take_messages-fuel n m rest (game_update_from_server now junk s g) (omega (arith, size))
              (omega (arith, size)) (omega (arith, size))
          ∙ sym (take_line m s rest g h (omega (arith, size))))
  ]

  -- The messages of a longer buffer are the messages of its first bytes, and then those of the bytes
  -- they leave with the others behind them.
  take_messages-append :
      (n : ℕ) (buf more : List ℕ) (g : GameState)
      → length buf < n
      → length (buf ++ more) ≤ 4096
      → let (rest, h) = take_messages now junk n buf g in
        (length rest ≤ length buf)
        × (take_messages now junk (length (buf ++ more) + 1) (buf ++ more) g
            ≡ take_messages now junk (length (rest ++ more) + 1) (rest ++ more) h)
  take_messages-append zero buf more g k w = absurd (omega arith)
  take_messages-append (suc n) buf more g k w = elim (line_or_none buf) [
    | inl h ↦ rw (take_none n buf g h) (omega arith, refl)
    | inr (s, rest, e, h) ↦
        let size = length-line s rest buf e in
        let all = length-append buf more in
        let g' = game_update_from_server now junk s g in
        let later =
          take_messages-append n rest more g' (omega (arith, size))
            (omega (arith, size, all, length-append rest more)) in
        let line =
          ap (λ t. take_messages now junk (suc n) t g) e
          ∙ take_line n s rest g h (omega (arith, size, all)) in
        let behind = length-append rest more in
        let line_and_rest = s ++ 10 ∷ (rest ++ more) in
        let whole : buf ++ more ≡ line_and_rest =
          ap (λ t. t ++ more) e ∙ append_assoc s (10 ∷ rest) more in
        let whole_size = length-append s (10 ∷ (rest ++ more)) in
        rw line (
          omega (arith, size, later.0),
          ap (λ t. take_messages now junk (length t + 1) t g) whole
              ∙ take_messages-fuel (length line_and_rest + 1) (suc (length line_and_rest))
                  line_and_rest g (omega arith) (omega arith)
                  (omega (arith, whole_size, behind, size, all))
              ∙ take_line (length line_and_rest) s (rest ++ more) g h (omega (arith, size, all))
              ∙ take_messages-fuel (length line_and_rest) (length (rest ++ more) + 1) (rest ++ more)
                  g' (omega (arith, whole_size)) (omega arith) (omega (arith, behind, size, all))
              ∙ later.1,
        )
  ]

  abbrev joined_reads : List (List ℕ) → List ℕ
  joined_reads [] = []
  joined_reads (bytes ∷ reads) = bytes ++ joined_reads reads

  -- However the same bytes are cut into reads, one or more, the client ends in the state that one read
  -- of them all gives, when the bytes of the buffer and of the reads are 4096 at most.
  pub recv_thread_func_lem :
      (bytes : List ℕ) (reads : List (List ℕ)) (buf : List ℕ) (g : GameState)
      → length (buf ++ joined_reads (bytes ∷ reads)) ≤ 4096
      → recv_thread_func now junk (map read (bytes ∷ reads)) buf g
        ≡ recv_thread_func now junk (read (joined_reads (bytes ∷ reads)) ∷ []) buf g
  unfolding recv_thread_func
  recv_thread_func_lem bytes [] buf g w =
      ap (λ t. (take_messages now junk (length (buf ++ t) + 1) (buf ++ t) g).1)
        (sym (append-nil bytes))
  recv_thread_func_lem bytes (next ∷ reads) buf g w =
      let more = joined_reads (next ∷ reads) in
      let split = append_assoc buf bytes more in
      let first = take_messages now junk (length (buf ++ bytes) + 1) (buf ++ bytes) g in
      let fits : length ((buf ++ bytes) ++ more) ≤ 4096 = rw split w in
      let cut =
        take_messages-append (length (buf ++ bytes) + 1) (buf ++ bytes) more g (omega arith) fits in
      recv_thread_func_lem next reads first.0 first.1
        (omega (arith, length-append first.0 more, length-append (buf ++ bytes) more, cut.0, fits))
      ∙ ap (λ q. q.1) (sym cut.1)
      ∙ ap (λ t. (take_messages now junk (length t + 1) t g).1) split
