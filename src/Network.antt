-- ===== src/Network.antt =====
-- server/network.c: `send_all` and `recv_to_buffer`. What the calls of the system give is a parameter.
use asciigame.Base.{
  ℕ, zero, suc, ◌+◌, ◌-◌, ◌≤◌, ◌≡◌, ◌⊎◌, inl, inr, refl, false, List, ◌++◌, ℤ, pos, negsuc, arith,
  ltb, leb, if◌then◌else◌, Bool-cases, length,
}

-- A call of `send`: the number of bytes it took, none of a full buffer, or another error. It gives 0
-- on a closed connection.
pub data Sent : Type 0 where
  took : ℕ → Sent
  would_block send_failed : Sent

-- What `send_all` returns when not all is sent: the bytes sent, or the error if there are none.
abbrev pub sent_or : ℕ → ℤ → ℤ
sent_or zero error = error
sent_or (suc total) error = pos (suc total)

-- What becomes of a call, with the rest of the loop for one that took bytes.
abbrev pub after_send : ℕ → Sent → (ℕ → ℤ) → ℤ
after_send total (took zero) rest = sent_or total (negsuc 0)
after_send total (took (suc n)) rest = rest (suc n)
after_send total would_block rest = sent_or total (negsuc 1)
after_send total send_failed rest = negsuc 0

-- The k-th call is asked for so many bytes. Each call takes one byte at least, so fuel `len` is enough.
unfoldable pub send_all : (ℕ → ℕ → Sent) → ℕ → ℕ → ℕ → ℕ → ℤ
send_all calls len zero k total = pos total
send_all calls len (suc fuel) k total =
    if ltb total len
    then after_send total (calls k (len - total)) (λ n. send_all calls len fuel (suc k) (total + n))
    else pos total

-- `got` holds one byte at least and no more than were asked for.
pub data Received : Type 0 where
  got : List ℕ → Received
  closed receive_again receive_failed : Received

-- `len` is the length of the buffer. A full buffer is an error.
unfoldable pub recv_to_buffer : ℕ → List ℕ → Received → List ℕ × Received
recv_to_buffer max_len buf received =
    if leb max_len (length buf)
    then (buf, receive_failed)
    else elim received as (λ _. List ℕ × Received) [
      | got bytes ↦ (buf ++ bytes, got bytes)
      | closed ↦ (buf, closed)
      | receive_again ↦ (buf, receive_again)
      | receive_failed ↦ (buf, receive_failed)
    ]

-- `send` takes no more than it is asked for.
abbrev pub IsBounded : (ℕ → ℕ → Sent) → Type 0
IsBounded calls = (k m n : ℕ) → calls k m ≡ took n → n ≤ m

-- An error, or a number of bytes.
abbrev pub IsResult : ℕ → ℤ → Type 0
IsResult len r = (r ≡ negsuc 0) ⊎ ((r ≡ negsuc 1) ⊎ ((n : ℕ) × (r ≡ pos n) × (n ≤ len)))

-- What was sent before is less than all.
sent_or-IsResult :
    (len total : ℕ) (e : ℤ)
    → (e ≡ negsuc 0) ⊎ (e ≡ negsuc 1)
    → total ≤ len
    → IsResult len (sent_or total e)
sent_or-IsResult len zero e (inl h) l = inl h
sent_or-IsResult len zero e (inr h) l = inr (inl h)
sent_or-IsResult len (suc total) e h l = inr (inr (suc total, refl, l))

after_send-same :
    (total : ℕ) (r : Sent) (f g : ℕ → ℤ)
    → ((n : ℕ) → f (suc n) ≡ g (suc n))
    → after_send total r f ≡ after_send total r g
after_send-same total (took zero) f g h = refl
after_send-same total (took (suc n)) f g h = h n
after_send-same total would_block f g h = refl
after_send-same total send_failed f g h = refl

module _ (calls : ℕ → ℕ → Sent) (len : ℕ) where
  send_all-fuel :
      (n m k total : ℕ)
      → len - total ≤ n
      → len - total ≤ m
      → send_all calls len n k total ≡ send_all calls len m k total
  unfolding send_all
  send_all-fuel zero zero k total h l = refl
  send_all-fuel zero (suc m) k total h l =
      let done : ltb total len ≡ false = ground arith in rw done refl
  send_all-fuel (suc n) zero k total h l =
      let done : ltb total len ≡ false = ground arith in rw done refl
  send_all-fuel (suc n) (suc m) k total h l = elim (Bool-cases (ltb total len)) [
    | inr done ↦ rw done refl
    | inl more ↦ rw more (
        after_send-same total (calls k (len - total)) _ _
          (λ i. send_all-fuel n m (suc k) (total + suc i) (ground arith) (ground arith)))
  ]

  after_send-IsResult :
      (total : ℕ) (r : Sent) (f : ℕ → ℤ)
      → total ≤ len
      → ((n : ℕ) → r ≡ took (suc n) → IsResult len (f (suc n)))
      → IsResult len (after_send total r f)
  after_send-IsResult total (took zero) f l h = sent_or-IsResult len total (negsuc 0) (inl refl) l
  after_send-IsResult total (took (suc n)) f l h = h n refl
  after_send-IsResult total would_block f l h = sent_or-IsResult len total (negsuc 1) (inr refl) l
  after_send-IsResult total send_failed f l h = inl refl

  send_all-IsResult :
      (n k total : ℕ) → IsBounded calls → total ≤ len → IsResult len (send_all calls len n k total)
  unfolding send_all
  send_all-IsResult zero k total b l = inr (inr (total, refl, l))
  send_all-IsResult (suc n) k total b l = elim (Bool-cases (ltb total len)) [
    | inr done ↦ rw done (inr (inr (total, refl, l)))
    | inl more ↦ rw more (
        after_send-IsResult total (calls k (len - total)) _ l (λ i e.
          send_all-IsResult n (suc k) (total + suc i) b
            (let taken = b k (len - total) (suc i) e in omega (arith, taken))))
  ]

-- Where each call takes no more than it is asked for, the loop ends within one call for each byte:
-- more fuel than there are bytes changes nothing. Its result is one of the two errors or a number of
-- bytes, no more than were to be sent.
pub send_all_ends :
    (calls : ℕ → ℕ → Sent) (len more : ℕ)
    → IsBounded calls
    → (send_all calls len (len + more) 0 0 ≡ send_all calls len len 0 0)
      × IsResult len (send_all calls len len 0 0)
send_all_ends calls len more b = (
  send_all-fuel calls len (len + more) len 0 0 (omega arith) (omega arith),
  send_all-IsResult calls len len 0 0 b (omega arith),
)
