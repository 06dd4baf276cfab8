-- ===== src/Scrcpy/Protocol.antt =====
-- The message builders of AYLink.Web/src/features/screencast/scrcpyControlProtocol.ts. A message is
-- the list of its bytes; a `number` that is an integer is a ℤ, where the code converts it.
use aylink_extra.Prelude.{ℕ, List, Bool, if◌then◌else◌, ◌^◌}
use aylink_extra.Prelude.Int.{ℤ, pos, min_ℤ, max_ℤ, wrap, pos_part}
use aylink_extra.Prelude.Bytes.{new_buffer, set_uint}
use aylink_extra.Prelude.Numbers.{Numbers}

abbrev pub scrcpy_primary_button : ℕ
scrcpy_primary_button = 1

abbrev pub scrcpy_msg_inject_keycode : ℕ
scrcpy_msg_inject_keycode = 0

abbrev pub scrcpy_msg_inject_touch_event : ℕ
scrcpy_msg_inject_touch_event = 2

abbrev pub scrcpy_msg_set_screen_power_mode : ℕ
scrcpy_msg_set_screen_power_mode = 10

abbrev pub scrcpy_msg_resize_display : ℕ
scrcpy_msg_resize_display = 21

abbrev pub scrcpy_action_down : ℕ
scrcpy_action_down = 0

abbrev pub scrcpy_action_up : ℕ
scrcpy_action_up = 1

abbrev pub scrcpy_action_move : ℕ
scrcpy_action_move = 2

-- `Math.max(0, Math.min(0xffff, value))`
abbrev pub clamp_uint16 : ℤ → ℕ
clamp_uint16 value = pos_part (max_ℤ (pos 0) (min_ℤ (pos 0xffff) value))

unfoldable pub write_uint16_be : List ℕ → ℕ → ℤ → List ℕ
unfolding set_uint
write_uint16_be view offset value = set_uint 2 view offset (clamp_uint16 value)

-- `value >>> 0` keeps 32 bits of the two's complement.
unfoldable pub write_uint32_be : List ℕ → ℕ → ℤ → List ℕ
unfolding set_uint
write_uint32_be view offset value = set_uint 4 view offset (wrap (2 ^ 32) value)

-- Scrcpy pointer ids are non-negative `bigint`s; `setBigUint64` keeps 64 bits.
unfoldable pub write_uint64_be : List ℕ → ℕ → ℕ → List ℕ
unfolding set_uint
write_uint64_be view offset value = set_uint 8 view offset value

unfoldable pub build_inject_keycode_message : ℕ → ℤ → ℤ → ℤ → List ℕ
unfolding set_uint write_uint32_be
build_inject_keycode_message action keycode repeat meta_state =
    let view = new_buffer 14 in
    let view1 = set_uint 1 view 0 scrcpy_msg_inject_keycode in
    let view2 = set_uint 1 view1 1 action in
    let view3 = write_uint32_be view2 2 keycode in
    let view4 = write_uint32_be view3 6 repeat in write_uint32_be view4 10 meta_state

unfoldable pub build_screen_power_message : Bool → List ℕ
unfolding set_uint
build_screen_power_message is_on =
    let payload = new_buffer 2 in
    let payload1 = set_uint 1 payload 0 scrcpy_msg_set_screen_power_mode in
    set_uint 1 payload1 1 (if is_on then 1 else 0)

unfoldable pub build_resize_display_message : ℤ → ℤ → List ℕ
unfolding set_uint write_uint16_be
build_resize_display_message width height =
    let view = new_buffer 5 in
    let view1 = set_uint 1 view 0 scrcpy_msg_resize_display in
    let view2 = write_uint16_be view1 1 width in write_uint16_be view2 3 height

module _ (n : Numbers) where
  open n use {Num, int, least, greatest, times, round}

  -- `Math.round(Math.max(0, Math.min(1, pressure)) * 0xffff)`
  abbrev pub pressure_units : Num → ℤ
  pressure_units pressure =
      round (times (greatest (int (pos 0)) (least (int (pos 1)) pressure)) (int (pos 0xffff)))

  unfoldable pub build_touch_message : ℕ → ℕ → ℤ → ℤ → ℤ → ℤ → Num → ℤ → ℤ → List ℕ
  unfolding set_uint write_uint16_be write_uint32_be write_uint64_be
  build_touch_message action pointer_id x y screen_width screen_height pressure action_button
        buttons =
      let view = new_buffer 32 in
      let view1 = set_uint 1 view 0 scrcpy_msg_inject_touch_event in
      let view2 = set_uint 1 view1 1 action in
      let view3 = write_uint64_be view2 2 pointer_id in
      let view4 = write_uint32_be view3 10 x in
      let view5 = write_uint32_be view4 14 y in
      let view6 = write_uint16_be view5 18 screen_width in
      let view7 = write_uint16_be view6 20 screen_height in
      let view8 = write_uint16_be view7 22 (pressure_units pressure) in
      let view9 = write_uint32_be view8 24 action_button in write_uint32_be view9 28 buttons
