-- ===== src/Game/Buffs/Expiry.antt =====
-- When the attack buff of a player ends, and what is sent then.
use asciigame.Base.{
  All-all-not, All-append, ℕ, zero, suc, ◌/◌, ◌≡◌, refl, ap, true, false, not, ◌&&◌, List, [], ◌∷◌,
  ◌++◌, take, some, ℤ, pos, pos_part, ltb_ℤ, leb_ℤ, ◌-ℤ◌, ◌==◌,
}
use asciigame.Text.{Text, codes}
use asciigame.Text.Decimal.{print_int, print_int-All_ne}
use asciigame.Player.{Player, player_at}
use asciigame.Player.Update.{player_at-update_self}
use asciigame.Protocol.{protocol_build_game_event, protocol_extract_message, no_message}
use asciigame.Protocol.Framing.{NoNewline, extract_incomplete}
use asciigame.Protocol.RoundTrip.{body, line-body}
use asciigame.Room.{Arena}
use asciigame.Game.Event.{bars}
use asciigame.Game.Buffs.{drop_newline, send_buff_event, expire_buff, warn_buff, game_update_buffs}

NoNewline-take : (n : ℕ) (s : Text) → NoNewline s → NoNewline (take n s)
NoNewline-take zero s h = tt
NoNewline-take (suc n) [] h = tt
NoNewline-take (suc n) (c ∷ s) h = (h.0, NoNewline-take n s h.1)

NoNewline-bars : (ns : List ℤ) → NoNewline (bars ns)
NoNewline-bars [] = tt
NoNewline-bars (n ∷ []) = print_int-All_ne 10 refl refl n
NoNewline-bars (n ∷ (m ∷ ns)) =
    All-append (λ c. c == 10) (print_int n) (b'|' ∷ bars (m ∷ ns)) (print_int-All_ne 10 refl refl n)
      (refl, NoNewline-bars (m ∷ ns))

-- A line loses its newline, whether or not it is cut.
drop_newline-NoNewline :
    (n : ℕ) (s : Text) → NoNewline s → NoNewline (drop_newline (take n (s ++ 10 ∷ [])))
unfolding drop_newline
drop_newline-NoNewline zero s h = tt
drop_newline-NoNewline (suc zero) [] h = tt
drop_newline-NoNewline (suc (suc n)) [] h = tt
drop_newline-NoNewline (suc zero) (c ∷ s) h = rw h.0 (h.0, tt)
drop_newline-NoNewline (suc (suc n)) (c ∷ []) h = (h.0, drop_newline-NoNewline (suc n) [] tt)
drop_newline-NoNewline (suc (suc n)) (c ∷ (d ∷ s)) h =
    (h.0, drop_newline-NoNewline (suc n) (d ∷ s) h.1)

-- Neither of the two events is a message for who reads the connection: the newline is gone.
event_unframed :
    (name : Text) (ns : List ℤ) (max_len : ℕ)
    → NoNewline name
    → let m = drop_newline (protocol_build_game_event 128 name (take 63 (bars ns))) in
      protocol_extract_message m max_len ≡ (m, no_message)
unfolding protocol_build_game_event
event_unframed name ns max_len h =
    let shown = take 63 (bars ns) in
    let text = body (codes "GAME_EVENT") (name ∷ shown ∷ []) in
    let plain : NoNewline text =
      All-append (λ c. c == 10) (codes "GAME_EVENT") (b'|' ∷ (name ++ b'|' ∷ shown))
        (All-all-not (λ c. c == 10) (codes "GAME_EVENT") refl)
        (
          refl,
          All-append (λ c. c == 10) name (b'|' ∷ shown) h
              (refl, NoNewline-take 63 (bars ns) (NoNewline-bars ns)),
        ) in
    let e : protocol_build_game_event 128 name shown ≡ take 127 (text ++ 10 ∷ []) =
      ap (take 127) (line-body (codes "GAME_EVENT") (name ∷ shown ∷ [])) in
    extract_incomplete (drop_newline (protocol_build_game_event 128 name shown)) max_len
      (rw e (drop_newline-NoNewline 127 text plain))

-- An attack buff that is not running stays as it is. One whose time is over is ended: the attack is
-- the base attack again, and one message is sent. In the last five seconds the player is warned
-- once. Before, nothing happens. No message sent here holds a newline, so that a reader of the
-- connection that has received nothing else finds no message in it, whatever its buffer size.
pub game_update_buffs_lem :
    (now : ℤ) (s : ℕ) (a : Arena) (p : Player) (max_len : ℕ)
    → player_at a.players s ≡ some p
    → let b = game_update_buffs now s a in
      let Sent : Type 0 =
        (m : Text) × (b.sent ≡ (p.fd, m) ∷ a.sent)
        × (protocol_extract_message m max_len ≡ (m, no_message)) in
      let remaining = p.atk_buff_expire -ℤ now in
      (ltb_ℤ (pos 0) p.atk_buff_expire ≡ false → b ≡ a)
      × (ltb_ℤ (pos 0) p.atk_buff_expire ≡ true
          → leb_ℤ remaining (pos 0) ≡ true
          → (player_at b.players s
              ≡ some
                  (record p { atk = p.base_atk; atk_buff_expire = pos 0; atk_buff_warned = false }))
            × Sent)
      × (ltb_ℤ (pos 0) p.atk_buff_expire ≡ true
          → leb_ℤ remaining (pos 0) ≡ false
          → (leb_ℤ remaining (pos 5000) && not p.atk_buff_warned) ≡ true
          → (player_at b.players s ≡ some (record p { atk_buff_warned = true })) × Sent)
      × (ltb_ℤ (pos 0) p.atk_buff_expire ≡ true
          → leb_ℤ remaining (pos 0) ≡ false
          → (leb_ℤ remaining (pos 5000) && not p.atk_buff_warned) ≡ false
          → b ≡ a)
unfolding game_update_buffs send_buff_event expire_buff warn_buff
game_update_buffs_lem now s a p max_len e =
    let remaining = p.atk_buff_expire -ℤ now in
    let expired =
      event_unframed (codes "BUFF_EXPIRED") (p.id ∷ []) max_len
        (All-all-not (λ c. c == 10) (codes "BUFF_EXPIRED") refl) in
    let warned =
      event_unframed (codes "BUFF_WARNING") (p.id ∷ pos (pos_part remaining / 1000) ∷ []) max_len
        (All-all-not (λ c. c == 10) (codes "BUFF_WARNING") refl) in
    rw (e, game_update_buffs)
      (
        λ h. simp h refl,
        λ h g. simp (h, g) (player_at-update_self a.players s expire_buff p e, (_, refl, expired)),
        λ h g k.
            simp (h, g, k) (player_at-update_self a.players s warn_buff p e, (_, refl, warned)),
        λ h g k. simp (h, g, k) refl,
      )
