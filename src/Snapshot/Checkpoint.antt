-- ===== src/Snapshot/Checkpoint.antt =====
-- What a replay makes of the checkpoint at the head of the log.
use asciigame.Base.{
  ◌<◌, ◌≤◌, ◌≡◌, refl, ◌∙◌, [], ◌∷◌, ◌++◌, ℤ, negsuc, some, ◌<◌, length, arith, length-append,
  take_all,
}
use asciigame.Config.{max_room_name}
use asciigame.Text.{Text, codes, snprintf}
use asciigame.Text.Decimal.{print_int, Fits, length-print_int}
use asciigame.Text.Fields.{Without}
use asciigame.Text.Scan.{sscanf, byte, skip_until, after_first, strip_prefix}
use asciigame.Text.Scan.Printed.{cut-field}
use asciigame.Recovery.{RecoveryState}
use asciigame.Recovery.Start.{checkpoint_radius, checkpoint_name, radius_format, parse_checkpoint}
use asciigame.Recovery.Events.Reading.{skip-entry, Without-entry, after_first-past}
use asciigame.Room.{entry}
use asciigame.Snapshot.{checkpoint_text}

first_field :
    (t : ℤ) (name : Text) (r : ℤ)
    → sscanf (skip_until b',' ∷ byte b',' ∷ radius_format) (checkpoint_text t name r) ≡ []
unfolding sscanf
first_field t name r =
    skip-entry radius_format (codes "snapshot_time") t
      ((codes "room_name=" ++ name) ++ b',' ∷ entry (codes "poison_radius") r)
      (
        refl,
        (
          refl,
          (
            refl,
            (refl, (refl, (refl, (refl, (refl, (refl, (refl, (refl, (refl, (refl, tt)))))))))),
          ),
        ),
      )
    ∙ refl

at_start : (t : ℤ) (name : Text) (r : ℤ) → sscanf radius_format (checkpoint_text t name r) ≡ []
unfolding sscanf
at_start t name r = refl

unread_radius :
    (text : Text)
    → sscanf (skip_until b',' ∷ byte b',' ∷ radius_format) text ≡ []
    → sscanf radius_format text ≡ []
    → checkpoint_radius text ≡ negsuc 0
unread_radius text e f = rw (e, f, checkpoint_radius) refl

-- What stands behind the key of the name.
after_name :
    (t : ℤ) (name : Text) (r : ℤ)
    → after_first (codes "room_name=") (checkpoint_text t name r)
      ≡ some (name ++ b',' ∷ entry (codes "poison_radius") r)
unfolding after_first strip_prefix
after_name t name r =
    after_first-past b'r' (codes "oom_name=") (entry (codes "snapshot_time") t) _ (
      Without-entry b'r' (codes "snapshot_time") t
        (
          refl,
          (
            refl,
            (
              refl,
              (refl, (refl, (refl, (refl, (refl, (refl, (refl, (refl, (refl, (refl, tt)))))))))),
            ),
          ),
        )
        refl refl refl)
    ∙ refl

read_name :
    (text name rest : Text)
    → after_first (codes "room_name=") text ≡ some (name ++ b',' ∷ rest)
    → Without b',' name
    → length name < max_room_name
    → checkpoint_name text ≡ name
read_name text name rest e h l =
    rw (e, cut-field b',' name rest h, checkpoint_name) (take_all 31 name (omega arith))

named :
    (text name : Text) (state : RecoveryState)
    → checkpoint_name text ≡ name
    → checkpoint_radius text ≡ negsuc 0
    → 0 < length name
    → parse_checkpoint text state ≡ record state { room_name = name }
unfolding parse_checkpoint
named text [] state e f l = absurd (omega arith)
named text (c ∷ name) state e f l = rw (e, f, parse_checkpoint) refl

-- The checkpoint that `snapshot_save` writes at the head of the new log is not cut, for a time of
-- type long and a radius of type int. A replay takes the room name from it, where that is not empty,
-- holds no comma and fits its field, and nothing else: the radius of the safe zone, which stands
-- third in the text, is not read, and the state keeps the one it has.
pub parse_checkpoint-checkpoint_text :
    (t : ℤ) (name : Text) (r : ℤ) (state : RecoveryState)
    → Fits 19 t
    → Fits 10 r
    → Without b',' name
    → 0 < length name
    → length name < max_room_name
    → parse_checkpoint (snprintf 256 (checkpoint_text t name r)) state
      ≡ record state { room_name = name }
parse_checkpoint-checkpoint_text t name r state f g h l m =
    let whole : snprintf 256 (checkpoint_text t name r) ≡ checkpoint_text t name r =
      take_all 255 (checkpoint_text t name r) (sized t name r f g m) in
    rw whole (
      named (checkpoint_text t name r) name state
        (read_name (checkpoint_text t name r) name _ (after_name t name r) h m)
        (unread_radius (checkpoint_text t name r) (first_field t name r) (at_start t name r)) l)
  where
    sized :
        (t : ℤ) (name : Text) (r : ℤ)
        → Fits 19 t
        → Fits 10 r
        → length name < max_room_name
        → length (checkpoint_text t name r) ≤ 255
    sized t name r f g m =
        let tail = entry (codes "poison_radius") r in
        omega (
          arith,
          length-append (print_int t) (b',' ∷ ((codes "room_name=" ++ name) ++ b',' ∷ tail)),
          length-append name (b',' ∷ tail),
          length-print_int 18 t f,
          length-print_int 9 r g,
        )
