-- ===== src/Hid/Session.antt =====
-- The session of AYLink.Web/src/lib/input/hidSession.ts. The closure's variables are a record, and
-- every call of a send callback appends to `sent`; the getters of the options are a record that each
-- operation is given. A `pressedKeys` set is the list of its elements in the order of insertion.
use Prim.Native.Nat.{bit_and, bit_or}
use aylink_extra.Prelude.{
  ℕ, ◌-◌, List, [], ◌∷◌, ◌++◌, Bool, true, false, not, ◌&&◌, ◌||◌, ◌==◌, ltb, if◌then◌else◌, Option,
  none, some, get_or_else, any, keep,
}
use aylink_extra.Prelude.Double.{Double, whole, minus}
use aylink_extra.Prelude.Int.{ℤ, pos}
use aylink_extra.Prelude.Text.{String}
use aylink_extra.Hid.Protocol.{
  scrcpy_hid_mouse_id, scrcpy_hid_keyboard_id, relative_mouse_report_desc, keyboard_report_desc,
  hid_device_name, build_uhid_create_message, build_uhid_input_message, build_uhid_destroy_message,
  build_hid_mouse_report, build_hid_keyboard_report, map_browser_code_to_hid_key,
  map_mouse_button_to_hid_mask, clamp_signed_byte,
}

pub data MousePhase : Type 0 where
  mouse_down mouse_up mouse_move mouse_wheel : MousePhase

pub record HidMouseEventPayload : Type 0 where
  pub phase : MousePhase
  pub button : Option ℕ
  pub dx : Option Double
  pub dy : Option Double
  pub wheel_x : Option Double
  pub wheel_y : Option Double

pub data KeyPhase : Type 0 where
  key_down key_up : KeyPhase

-- What the session reads of an `RTCDataChannel`.
pub record Channel : Type 0 where
  pub label : ℕ
  pub is_open : Bool
  pub buffered_amount : ℕ

pub record HidSessionOptions : Type 0 where
  pub is_keyboard_enabled : Bool
  pub is_mouse_enabled : Bool
  pub pointer_move_channel : Option Channel
  pub default_control_channel : Option Channel
  pub pointer_move_buffer_limit : ℕ

pub data Sent : Type 0 where
  meta : List ℕ → Sent
  binary : List ℕ → Sent
  binary_on : List ℕ → Option Channel → Sent

pub record HidSession : Type 0 where
  pub current_mouse_buttons : ℕ
  pub pressed_keys : List ℕ
  pub is_mouse_created : Bool
  pub is_keyboard_created : Bool
  pub sent : List Sent

unfoldable pub create_hid_session : HidSession
create_hid_session = record {
  current_mouse_buttons = 0;
  pressed_keys = [];
  is_mouse_created = false;
  is_keyboard_created = false;
  sent = [];
}

abbrev pub send : Sent → HidSession → HidSession
send message s = record s { sent = s.sent ++ message ∷ [] }

-- `set.add(key)` and `set.delete(key)`
abbrev pub add_key : ℕ → List ℕ → List ℕ
add_key key keys = if any (λ k. k == key) keys then keys else keys ++ key ∷ []

abbrev pub delete_key : ℕ → List ℕ → List ℕ
delete_key key keys = keep (λ k. not (k == key)) keys

unfoldable pub get_high_frequency_channel : HidSessionOptions → Option Channel
get_high_frequency_channel options = elim options.pointer_move_channel [
  | some channel ↦ if channel.is_open then some channel else options.default_control_channel
  | none ↦ options.default_control_channel
]

-- `channel?.bufferedAmount && channel.bufferedAmount > limit`
abbrev pub is_congested : Option Channel → ℕ → Bool
is_congested none limit = false
is_congested (some channel) limit =
    ltb 0 channel.buffered_amount && ltb limit channel.buffered_amount

-- `buttons & ~mask`: the bits of the mask that are set are taken away.
abbrev pub clear_bits : ℕ → ℕ → ℕ
clear_bits buttons mask = buttons - bit_and buttons mask

module _ (encode : String → List ℕ) where
  unfoldable pub initialize_mouse : HidSessionOptions → HidSession → HidSession
  initialize_mouse options s =
      if options.is_mouse_enabled && not s.is_mouse_created
      then record (send
          (meta (
            build_uhid_create_message encode scrcpy_hid_mouse_id relative_mouse_report_desc
              hid_device_name))
          s) { current_mouse_buttons = 0; is_mouse_created = true }
      else s

  unfoldable pub initialize_keyboard : HidSessionOptions → HidSession → HidSession
  initialize_keyboard options s =
      if options.is_keyboard_enabled && not s.is_keyboard_created
      then record (send
          (meta (
            build_uhid_create_message encode scrcpy_hid_keyboard_id keyboard_report_desc
              hid_device_name))
          s) { pressed_keys = []; is_keyboard_created = true }
      else s

  unfoldable pub initialize_devices : HidSessionOptions → HidSession → HidSession
  initialize_devices options s = initialize_keyboard options (initialize_mouse options s)

abbrev pub mouse_report : HidSession → ℤ → ℤ → ℤ → ℤ → List ℕ
mouse_report s dx dy v_wheel h_wheel =
    build_uhid_input_message scrcpy_hid_mouse_id
      (build_hid_mouse_report s.current_mouse_buttons dx dy v_wheel h_wheel)

abbrev pub keyboard_report : HidSession → List ℕ
keyboard_report s =
    build_uhid_input_message scrcpy_hid_keyboard_id (build_hid_keyboard_report s.pressed_keys)

abbrev pub release_buttons : HidSession → HidSession
release_buttons s = record s { current_mouse_buttons = 0 }

abbrev pub release_keys : HidSession → HidSession
release_keys s = record s { pressed_keys = [] }

unfoldable pub reset_mouse : HidSession → HidSession
reset_mouse s =
    if s.is_mouse_created
    then send
        (binary (
          build_uhid_input_message scrcpy_hid_mouse_id
            (build_hid_mouse_report 0 (pos 0) (pos 0) (pos 0) (pos 0))))
        (release_buttons s)
    else s

unfoldable pub reset_keyboard : HidSession → HidSession
reset_keyboard s =
    if s.is_keyboard_created
    then send (binary (keyboard_report (release_keys s))) (release_keys s)
    else s

unfoldable pub reset_inputs : HidSession → HidSession
reset_inputs s = reset_keyboard (reset_mouse s)

unfoldable pub destroy_mouse : HidSession → HidSession
destroy_mouse s =
    if s.is_mouse_created
    then record (send (meta (build_uhid_destroy_message scrcpy_hid_mouse_id)) s) {
      is_mouse_created = false;
    }
    else s

unfoldable pub destroy_keyboard : HidSession → HidSession
destroy_keyboard s =
    if s.is_keyboard_created
    then record (send (meta (build_uhid_destroy_message scrcpy_hid_keyboard_id)) s) {
      is_keyboard_created = false;
    }
    else s

unfoldable pub release_devices : HidSession → HidSession
release_devices s =
    release_keys (release_buttons (destroy_keyboard (destroy_mouse (reset_inputs s))))

abbrev pub press : KeyPhase → ℕ → HidSession → HidSession
press key_down key s = record s { pressed_keys = add_key key s.pressed_keys }
press key_up key s = record s { pressed_keys = delete_key key s.pressed_keys }

unfoldable pub send_keyboard_code :
    HidSessionOptions → KeyPhase → String → HidSession → HidSession × Bool
send_keyboard_code options phase code s =
    let hid_key = map_browser_code_to_hid_key code in
    let pressed = press phase hid_key s in
    if not options.is_keyboard_enabled || not s.is_keyboard_created
    then (s, false)
    else if hid_key == 0
    then (s, false)
    else (send (binary (keyboard_report pressed)) pressed, true)

abbrev pub hold_button : MousePhase → ℕ → HidSession → HidSession
hold_button mouse_down mask s = record s {
  current_mouse_buttons = bit_or s.current_mouse_buttons mask;
}
hold_button _ mask s = record s { current_mouse_buttons = clear_bits s.current_mouse_buttons mask }

unfoldable pub send_button : MousePhase → ℕ → HidSession → HidSession × Bool
send_button phase mask s =
    let held = hold_button phase mask s in
    if mask == 0
    then (s, false)
    else (send (binary (mouse_report held (pos 0) (pos 0) (pos 0) (pos 0))) held, true)

-- A `move` or `wheel` report, which a congested channel drops.
unfoldable pub send_motion : HidSessionOptions → List ℕ → HidSession → HidSession × Bool
send_motion options report s =
    let channel = get_high_frequency_channel options in
    if is_congested channel options.pointer_move_buffer_limit
    then (s, true)
    else (send (binary_on report channel) s, true)

abbrev pub clamped : Option Double → ℤ
clamped value = clamp_signed_byte (get_or_else value (whole (pos 0)))

unfoldable pub dispatch_mouse :
    MousePhase → HidSessionOptions → HidMouseEventPayload → HidSession → HidSession × Bool
dispatch_mouse mouse_down options payload s =
    send_button mouse_down (map_mouse_button_to_hid_mask (get_or_else payload.button 0)) s
dispatch_mouse mouse_up options payload s =
    send_button mouse_up (map_mouse_button_to_hid_mask (get_or_else payload.button 0)) s
dispatch_mouse mouse_move options payload s =
    send_motion options (mouse_report s (clamped payload.dx) (clamped payload.dy) (pos 0) (pos 0)) s
dispatch_mouse mouse_wheel options payload s =
    send_motion options
      (mouse_report s (pos 0) (pos 0)
        (clamp_signed_byte (minus (get_or_else payload.wheel_y (whole (pos 0)))))
        (clamped payload.wheel_x))
      s

unfoldable pub send_mouse_event :
    HidSessionOptions → HidMouseEventPayload → HidSession → HidSession × Bool
unfolding dispatch_mouse
send_mouse_event options payload s =
    if not options.is_mouse_enabled || not s.is_mouse_created
    then (s, false)
    else dispatch_mouse payload.phase options payload s
