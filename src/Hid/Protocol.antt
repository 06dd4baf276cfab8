-- ===== src/Hid/Protocol.antt =====
-- The UHID messages and reports of AYLink.Web/src/lib/input/hidProtocol.ts.
use Prim.Native.Nat.{bit_or}
use aylink_extra.Prelude.{
  ℕ, zero, suc, ◌+◌, ◌-◌, ◌^◌, ◌%◌, List, [], ◌∷◌, Bool, ◌&&◌, leb, ltb, if◌then◌else◌, get_or_else,
  length, set, take,
}
use aylink_extra.Prelude.Double.{Double, whole, least, greatest, truncated}
use aylink_extra.Prelude.Int.{ℤ, pos, negsuc, wrap}
use aylink_extra.Prelude.Bytes.{new_buffer, put_bytes, set_uint}
use aylink_extra.Prelude.Text.{String, lookup}

abbrev pub scrcpy_msg_uhid_create : ℕ
scrcpy_msg_uhid_create = 12

abbrev pub scrcpy_msg_uhid_input : ℕ
scrcpy_msg_uhid_input = 13

abbrev pub scrcpy_msg_uhid_destroy : ℕ
scrcpy_msg_uhid_destroy = 14

abbrev pub scrcpy_hid_mouse_id : ℕ
scrcpy_hid_mouse_id = 1

abbrev pub scrcpy_hid_keyboard_id : ℕ
scrcpy_hid_keyboard_id = 2

abbrev pub hid_device_name : String
hid_device_name = "AYLink"

abbrev pub hid_device_vendor_id : ℕ
hid_device_vendor_id = 0

abbrev pub hid_device_product_id : ℕ
hid_device_product_id = 0

unfoldable pub relative_mouse_report_desc : List ℕ
relative_mouse_report_desc =
    0x05 ∷ 0x01 ∷ 0x09 ∷ 0x02 ∷ 0xa1 ∷ 0x01 ∷ 0x09 ∷ 0x01 ∷ 0xa1 ∷ 0x00 ∷ 0x05 ∷ 0x09 ∷ 0x19 ∷ 0x01
    ∷ 0x29 ∷ 0x05 ∷ 0x15 ∷ 0x00 ∷ 0x25 ∷ 0x01 ∷ 0x95 ∷ 0x05 ∷ 0x75 ∷ 0x01 ∷ 0x81 ∷ 0x02 ∷ 0x95
    ∷ 0x01 ∷ 0x75 ∷ 0x03 ∷ 0x81 ∷ 0x01 ∷ 0x05 ∷ 0x01 ∷ 0x09 ∷ 0x30 ∷ 0x09 ∷ 0x31 ∷ 0x09 ∷ 0x38
    ∷ 0x15 ∷ 0x81 ∷ 0x25 ∷ 0x7f ∷ 0x75 ∷ 0x08 ∷ 0x95 ∷ 0x03 ∷ 0x81 ∷ 0x06 ∷ 0x05 ∷ 0x0c ∷ 0x0a
    ∷ 0x38 ∷ 0x02 ∷ 0x15 ∷ 0x81 ∷ 0x25 ∷ 0x7f ∷ 0x75 ∷ 0x08 ∷ 0x95 ∷ 0x01 ∷ 0x81 ∷ 0x06 ∷ 0xc0
    ∷ 0xc0 ∷ []

unfoldable pub keyboard_report_desc : List ℕ
keyboard_report_desc =
    0x05 ∷ 0x01 ∷ 0x09 ∷ 0x06 ∷ 0xa1 ∷ 0x01 ∷ 0x05 ∷ 0x07 ∷ 0x19 ∷ 0xe0 ∷ 0x29 ∷ 0xe7 ∷ 0x15 ∷ 0x00
    ∷ 0x25 ∷ 0x01 ∷ 0x75 ∷ 0x01 ∷ 0x95 ∷ 0x08 ∷ 0x81 ∷ 0x02 ∷ 0x95 ∷ 0x01 ∷ 0x75 ∷ 0x08 ∷ 0x81
    ∷ 0x01 ∷ 0x95 ∷ 0x05 ∷ 0x75 ∷ 0x01 ∷ 0x05 ∷ 0x08 ∷ 0x19 ∷ 0x01 ∷ 0x29 ∷ 0x05 ∷ 0x91 ∷ 0x02
    ∷ 0x95 ∷ 0x01 ∷ 0x75 ∷ 0x03 ∷ 0x91 ∷ 0x01 ∷ 0x95 ∷ 0x06 ∷ 0x75 ∷ 0x08 ∷ 0x15 ∷ 0x00 ∷ 0x25
    ∷ 0x65 ∷ 0x05 ∷ 0x07 ∷ 0x19 ∷ 0x00 ∷ 0x29 ∷ 0x65 ∷ 0x81 ∷ 0x00 ∷ 0xc0 ∷ []

-- The values that are written are not negative, so `Math.max(0, …)` leaves them.
unfoldable pub write_uint16_be : List ℕ → ℕ → ℕ → List ℕ
write_uint16_be view offset value =
    set_uint 2 view offset (if leb value 0xffff then value else 0xffff)

-- `encode` is the host's `TextEncoder`.
unfoldable pub build_uhid_create_message : (String → List ℕ) → ℕ → List ℕ → String → List ℕ
build_uhid_create_message encode id report_desc name =
    let name_bytes = take 0x7f (encode name) in
    let view = new_buffer (1 + 2 + 2 + 2 + 1 + length name_bytes + 2 + length report_desc) in
    let view1 = set_uint 1 view 0 scrcpy_msg_uhid_create in
    let view2 = write_uint16_be view1 1 id in
    let view3 = write_uint16_be view2 3 hid_device_vendor_id in
    let view4 = write_uint16_be view3 5 hid_device_product_id in
    let view5 = set_uint 1 view4 7 (length name_bytes) in
    let view6 = put_bytes view5 8 name_bytes in
    let view7 = write_uint16_be view6 (8 + length name_bytes) (length report_desc) in
    put_bytes view7 (10 + length name_bytes) report_desc

unfoldable pub build_uhid_input_message : ℕ → List ℕ → List ℕ
build_uhid_input_message id bytes =
    let view = new_buffer (1 + 2 + 2 + length bytes) in
    let view1 = set_uint 1 view 0 scrcpy_msg_uhid_input in
    let view2 = write_uint16_be view1 1 id in
    let view3 = write_uint16_be view2 3 (length bytes) in put_bytes view3 5 bytes

unfoldable pub build_uhid_destroy_message : ℕ → List ℕ
build_uhid_destroy_message id =
    let view = new_buffer 3 in
    let view1 = set_uint 1 view 0 scrcpy_msg_uhid_destroy in write_uint16_be view1 1 id

-- `value & 0xff`
abbrev pub low_byte : ℤ → ℕ
low_byte value = wrap 256 value

unfoldable pub build_hid_mouse_report : ℕ → ℤ → ℤ → ℤ → ℤ → List ℕ
build_hid_mouse_report buttons dx dy v_wheel h_wheel =
    buttons % 256 ∷ low_byte dx ∷ low_byte dy ∷ low_byte v_wheel ∷ low_byte h_wheel ∷ []

abbrev pub is_modifier : ℕ → Bool
is_modifier key = leb 0xe0 key && leb key 0xe7

-- The loop over the pressed keys: the report, the modifiers and the index of the next free slot.
-- A store into a `Uint8Array` keeps the low byte.
unfoldable pub report_keys : List ℕ → ℕ → ℕ → List ℕ → List ℕ
report_keys report modifiers key_index [] = set report 0 (modifiers % 256)
report_keys report modifiers key_index (key ∷ keys) =
    let modifier = report_keys report (bit_or modifiers (2 ^ (key - 0xe0))) key_index keys in
    let stored = report_keys (set report key_index (key % 256)) modifiers (key_index + 1) keys in
    let full = report_keys report modifiers key_index keys in
    if is_modifier key then modifier else if ltb key_index 8 then stored else full

unfoldable pub build_hid_keyboard_report : List ℕ → List ℕ
unfolding report_keys
build_hid_keyboard_report pressed_keys = report_keys (new_buffer 8) 0 2 pressed_keys

abbrev pub hid_keys : List (String × ℕ)
hid_keys =
    ("KeyA", 0x04)
    ∷ ("KeyB", 0x05)
    ∷ ("KeyC", 0x06)
    ∷ ("KeyD", 0x07)
    ∷ ("KeyE", 0x08)
    ∷ ("KeyF", 0x09)
    ∷ ("KeyG", 0x0a)
    ∷ ("KeyH", 0x0b)
    ∷ ("KeyI", 0x0c)
    ∷ ("KeyJ", 0x0d)
    ∷ ("KeyK", 0x0e)
    ∷ ("KeyL", 0x0f)
    ∷ ("KeyM", 0x10)
    ∷ ("KeyN", 0x11)
    ∷ ("KeyO", 0x12)
    ∷ ("KeyP", 0x13)
    ∷ ("KeyQ", 0x14)
    ∷ ("KeyR", 0x15)
    ∷ ("KeyS", 0x16)
    ∷ ("KeyT", 0x17)
    ∷ ("KeyU", 0x18)
    ∷ ("KeyV", 0x19)
    ∷ ("KeyW", 0x1a)
    ∷ ("KeyX", 0x1b)
    ∷ ("KeyY", 0x1c)
    ∷ ("KeyZ", 0x1d)
    ∷ ("Digit1", 0x1e)
    ∷ ("Digit2", 0x1f)
    ∷ ("Digit3", 0x20)
    ∷ ("Digit4", 0x21)
    ∷ ("Digit5", 0x22)
    ∷ ("Digit6", 0x23)
    ∷ ("Digit7", 0x24)
    ∷ ("Digit8", 0x25)
    ∷ ("Digit9", 0x26)
    ∷ ("Digit0", 0x27)
    ∷ ("Enter", 0x28)
    ∷ ("NumpadEnter", 0x28)
    ∷ ("Escape", 0x29)
    ∷ ("Backspace", 0x2a)
    ∷ ("Tab", 0x2b)
    ∷ ("Space", 0x2c)
    ∷ ("Minus", 0x2d)
    ∷ ("Equal", 0x2e)
    ∷ ("BracketLeft", 0x2f)
    ∷ ("BracketRight", 0x30)
    ∷ ("Backslash", 0x31)
    ∷ ("Semicolon", 0x33)
    ∷ ("Quote", 0x34)
    ∷ ("Backquote", 0x35)
    ∷ ("Comma", 0x36)
    ∷ ("Period", 0x37)
    ∷ ("Slash", 0x38)
    ∷ ("CapsLock", 0x39)
    ∷ ("F1", 0x3a)
    ∷ ("F2", 0x3b)
    ∷ ("F3", 0x3c)
    ∷ ("F4", 0x3d)
    ∷ ("F5", 0x3e)
    ∷ ("F6", 0x3f)
    ∷ ("F7", 0x40)
    ∷ ("F8", 0x41)
    ∷ ("F9", 0x42)
    ∷ ("F10", 0x43)
    ∷ ("F11", 0x44)
    ∷ ("F12", 0x45)
    ∷ ("Insert", 0x49)
    ∷ ("Home", 0x4a)
    ∷ ("PageUp", 0x4b)
    ∷ ("Delete", 0x4c)
    ∷ ("End", 0x4d)
    ∷ ("PageDown", 0x4e)
    ∷ ("ArrowRight", 0x4f)
    ∷ ("ArrowLeft", 0x50)
    ∷ ("ArrowDown", 0x51)
    ∷ ("ArrowUp", 0x52)
    ∷ ("NumLock", 0x53)
    ∷ ("ControlLeft", 0xe0)
    ∷ ("ShiftLeft", 0xe1)
    ∷ ("AltLeft", 0xe2)
    ∷ ("MetaLeft", 0xe3)
    ∷ ("ControlRight", 0xe4)
    ∷ ("ShiftRight", 0xe5)
    ∷ ("AltRight", 0xe6)
    ∷ ("MetaRight", 0xe7)
    ∷ []

unfoldable pub map_browser_code_to_hid_key : String → ℕ
unfolding lookup
map_browser_code_to_hid_key code = get_or_else (lookup code hid_keys) 0

unfoldable pub map_mouse_button_to_hid_mask : ℕ → ℕ
map_mouse_button_to_hid_mask zero = 0x01
map_mouse_button_to_hid_mask (suc zero) = 0x04
map_mouse_button_to_hid_mask (suc (suc zero)) = 0x02
map_mouse_button_to_hid_mask (suc (suc (suc zero))) = 0x08
map_mouse_button_to_hid_mask (suc (suc (suc (suc zero)))) = 0x10
map_mouse_button_to_hid_mask _ = 0

-- Of integers: `Math.max(-127, Math.min(127, value)) | 0`.
-- What is cut is a number of at most 127, or NaN, so that `| 0` only truncates it.
unfoldable pub clamp_signed_byte : Double → ℤ
clamp_signed_byte value = truncated (greatest (whole (negsuc 126)) (least (whole (pos 127)) value))
