-- ===== src/Scrcpy/RoundTrip.antt =====
-- The control messages of AYLink.Web/src/features/screencast/scrcpyControlProtocol.ts against their
-- reader.
use aylink_extra.Prelude.{
  ℕ, List, ◌≡◌, refl, arith, Bool, true, false, length, ◌<◌, ◌^◌, ◌%◌, ◌∙◌, some, if◌then◌else◌,
}
use aylink_extra.Prelude.Int.{ℤ, pos, negsuc, wrap}
use aylink_extra.Prelude.Bytes.{get_uint, get_uint-slice, be_bytes, slice, from_be}
use aylink_extra.Prelude.Numbers.{Numbers}
use aylink_extra.Scrcpy.Protocol.{
  clamp_uint16, pressure_units, build_inject_keycode_message, build_screen_power_message,
  build_resize_display_message, build_touch_message,
}
use aylink_extra.Scrcpy.Decoding.{
  TouchFields, inject_keycode, inject_touch, set_power, resize, read_touch, decode,
}

wrap32_fits : (v : ℤ) → wrap (2 ^ 32) v % 256 ^ 4 ≡ wrap (2 ^ 32) v
wrap32_fits (pos v) = omega arith
wrap32_fits (negsuc v) = omega arith

clamp_fits : (v : ℤ) → clamp_uint16 v % 256 ^ 2 ≡ clamp_uint16 v
clamp_fits (pos v) = ground arith
clamp_fits (negsuc v) = ground arith

-- The bytes of a field, read back where the field's value fits.
read :
    (offset width v : ℕ) (buffer : List ℕ)
    → v % 256 ^ width ≡ v
    → slice offset width buffer ≡ be_bytes width v
    → get_uint offset width buffer ≡ v
read offset width v buffer fits here = get_uint-slice offset width v buffer here ∙ fits

module _ (action : ℕ) (keycode repeat meta_state : ℤ) where
  abbrev message_of_keycode : List ℕ
  message_of_keycode = build_inject_keycode_message action keycode repeat meta_state

  keycode_head :
      (get_uint 0 1 message_of_keycode ≡ 0)
      × (length message_of_keycode ≡ 14)
      × (get_uint 2 4 message_of_keycode ≡ wrap (2 ^ 32) keycode)
      × (get_uint 6 4 message_of_keycode ≡ wrap (2 ^ 32) repeat)
      × (get_uint 10 4 message_of_keycode ≡ wrap (2 ^ 32) meta_state)
  unfolding build_inject_keycode_message be_bytes
  keycode_head = (
    read 0 1 0 _ refl refl,
    refl,
    read 2 4 _ _ (wrap32_fits keycode) refl,
    read 6 4 _ _ (wrap32_fits repeat) refl,
    read 10 4 _ _ (wrap32_fits meta_state) refl,
  )

  keycode_action : action < 256 → get_uint 1 1 message_of_keycode ≡ action
  unfolding build_inject_keycode_message be_bytes
  keycode_action h = read 1 1 _ _ (omega arith) refl

  -- A key event message is read back with the action, the key code, the repeat count and the meta
  -- state that it was built from, the last three as unsigned 32-bit numbers, for an action below 256.
  pub decode-build_inject_keycode_message :
      action < 256
      → decode (build_inject_keycode_message action keycode repeat meta_state)
        ≡ some (
            inject_keycode action
              (wrap (2 ^ 32) keycode)
              (wrap (2 ^ 32) repeat)
              (wrap (2 ^ 32) meta_state))
  unfolding decode
  decode-build_inject_keycode_message h =
      let (kind, size, code, again, meta) = keycode_head in
      rw (kind, size, keycode_action h, code, again, meta)

module _ (n : Numbers) (action pointer_id : ℕ) (x y screen_width screen_height : ℤ)
    (pressure : n.Num) (action_button buttons : ℤ) where
  abbrev message_of_touch : List ℕ
  message_of_touch =
      build_touch_message n action pointer_id x y screen_width screen_height pressure action_button
        buttons

  touch_numbers :
      (get_uint 10 4 message_of_touch ≡ wrap (2 ^ 32) x)
      × (get_uint 14 4 message_of_touch ≡ wrap (2 ^ 32) y)
      × (get_uint 18 2 message_of_touch ≡ clamp_uint16 screen_width)
      × (get_uint 20 2 message_of_touch ≡ clamp_uint16 screen_height)
      × (get_uint 22 2 message_of_touch ≡ clamp_uint16 (pressure_units n pressure))
      × (get_uint 24 4 message_of_touch ≡ wrap (2 ^ 32) action_button)
      × (get_uint 28 4 message_of_touch ≡ wrap (2 ^ 32) buttons)
  unfolding build_touch_message be_bytes
  touch_numbers = (
    read 10 4 _ _ (wrap32_fits x) refl,
    read 14 4 _ _ (wrap32_fits y) refl,
    read 18 2 _ _ (clamp_fits screen_width) refl,
    read 20 2 _ _ (clamp_fits screen_height) refl,
    read 22 2 _ _ (clamp_fits (pressure_units n pressure)) refl,
    read 24 4 _ _ (wrap32_fits action_button) refl,
    read 28 4 _ _ (wrap32_fits buttons) refl,
  )

  touch_head :
      action < 256
      → pointer_id < 2 ^ 64
      → (get_uint 0 1 message_of_touch ≡ 2)
        × (length message_of_touch ≡ 32)
        × (get_uint 1 1 message_of_touch ≡ action)
        × (get_uint 2 8 message_of_touch ≡ pointer_id)
  unfolding build_touch_message be_bytes
  touch_head h k = (
    read 0 1 2 _ refl refl,
    refl,
    read 1 1 _ _ (omega arith) refl,
    read 2 8 _ _ (omega arith) refl,
  )

  abbrev pub fields_of_touch : TouchFields
  fields_of_touch = record {
    action = action;
    pointer_id = pointer_id;
    x = wrap (2 ^ 32) x;
    y = wrap (2 ^ 32) y;
    screen_width = clamp_uint16 screen_width;
    screen_height = clamp_uint16 screen_height;
    pressure = clamp_uint16 (pressure_units n pressure);
    action_button = wrap (2 ^ 32) action_button;
    buttons = wrap (2 ^ 32) buttons;
  }

  read_touch_lem :
      action < 256 → pointer_id < 2 ^ 64 → read_touch message_of_touch ≡ fields_of_touch
  unfolding read_touch
  read_touch_lem h k =
      let (at_x, at_y, at_w, at_h, at_p, at_a, at_b) = touch_numbers in
      let (kind, size, act, pid) = touch_head h k in
      rw (act, pid, at_x, at_y, at_w, at_h, at_p, at_a, at_b)

  -- A touch message is read back with the nine values that it was built from: coordinates and
  -- buttons as unsigned 32-bit numbers, the screen size and the pressure cut to 16 bits, for an
  -- action below 256 and a pointer id below 2^64.
  pub decode-build_touch_message :
      action < 256
      → pointer_id < 2 ^ 64
      → decode message_of_touch ≡ some (inject_touch fields_of_touch)
  unfolding decode
  decode-build_touch_message h k =
      let (kind, size, act, pid) = touch_head h k in rw (kind, size, read_touch_lem h k)

module _ (width height : ℤ) where
  abbrev message_of_resize : List ℕ
  message_of_resize = build_resize_display_message width height

  resize_head :
      (get_uint 0 1 message_of_resize ≡ 21)
      × (length message_of_resize ≡ 5)
      × (get_uint 1 2 message_of_resize ≡ clamp_uint16 width)
      × (get_uint 3 2 message_of_resize ≡ clamp_uint16 height)
  unfolding build_resize_display_message be_bytes
  resize_head = (
    read 0 1 21 _ refl refl,
    refl,
    read 1 2 _ _ (clamp_fits width) refl,
    read 3 2 _ _ (clamp_fits height) refl,
  )

  -- A resize message is read back with the width and the height, each cut to the range 0 to 65535.
  pub decode-build_resize_display_message :
      decode (build_resize_display_message width height)
      ≡ some (resize (clamp_uint16 width) (clamp_uint16 height))
  unfolding decode
  decode-build_resize_display_message =
      let (kind, size, w, h) = resize_head in rw (kind, size, w, h)

-- A power message is read back with 1 for a screen that is to be on, and 0 for one to be off.
pub decode-build_screen_power_message :
    (is_on : Bool)
    → decode (build_screen_power_message is_on) ≡ some (set_power (if is_on then 1 else 0))
unfolding decode build_screen_power_message be_bytes get_uint from_be
decode-build_screen_power_message true = refl
decode-build_screen_power_message false = refl
