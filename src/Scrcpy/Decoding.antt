-- ===== src/Scrcpy/Decoding.antt =====
-- What a receiver of the control messages reads: the fields of each message at their offsets in
-- the scrcpy wire format, independent of the builders.
use aylink_extra.Prelude.{ℕ, List, if◌then◌else◌, ◌==◌, ◌&&◌, length, Option, none, some}
use aylink_extra.Prelude.Bytes.{get_uint}

pub record TouchFields : Type 0 where
  pub action : ℕ
  pub pointer_id : ℕ
  pub x : ℕ
  pub y : ℕ
  pub screen_width : ℕ
  pub screen_height : ℕ
  pub pressure : ℕ
  pub action_button : ℕ
  pub buttons : ℕ

pub data ControlMessage : Type 0 where
  inject_keycode : (action keycode repeat meta_state : ℕ) → ControlMessage
  inject_touch : TouchFields → ControlMessage
  set_power : ℕ → ControlMessage
  resize : (width height : ℕ) → ControlMessage

unfoldable pub read_touch : List ℕ → TouchFields
read_touch m = record {
  action = get_uint 1 1 m;
  pointer_id = get_uint 2 8 m;
  x = get_uint 10 4 m;
  y = get_uint 14 4 m;
  screen_width = get_uint 18 2 m;
  screen_height = get_uint 20 2 m;
  pressure = get_uint 22 2 m;
  action_button = get_uint 24 4 m;
  buttons = get_uint 28 4 m;
}

-- A message of a known type and of exactly its length, or none.
unfoldable pub decode : List ℕ → Option ControlMessage
decode m =
    let kind = get_uint 0 1 m in
    if kind == 0 && length m == 14
    then some (inject_keycode (get_uint 1 1 m) (get_uint 2 4 m) (get_uint 6 4 m) (get_uint 10 4 m))
    else if kind == 2 && length m == 32
    then some (inject_touch (read_touch m))
    else if kind == 10 && length m == 2
    then some (set_power (get_uint 1 1 m))
    else if kind == 21 && length m == 5
    then some (resize (get_uint 1 2 m) (get_uint 3 2 m))
    else none
