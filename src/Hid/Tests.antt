-- ===== src/Hid/Tests.antt =====
-- Runs of the HID messages and sessions at concrete inputs.
use aylink_extra.Prelude.{◌≡◌, ◌%◌, List, [], ◌∷◌, ◌++◌, true, none, some, take, length}
use aylink_extra.Prelude.Text.{units}
use aylink_extra.Hid.Protocol.{build_uhid_create_message, build_hid_keyboard_report}
use aylink_extra.Hid.Layout.{field16, build_uhid_create_message_layout}
use aylink_extra.Hid.Reports.{fit, modifier_bits, plain_keys, build_hid_keyboard_report_lem}
use aylink_extra.Hid.Session.{
  HidSessionOptions, HidMouseEventPayload, mouse_down, key_down, create_hid_session, HidSession,
}
use aylink_extra.Hid.Receiver.{no_devices, receive_all}
use aylink_extra.Hid.Devices.{
  Operation, initialize, release, keyboard, mouse, perform_all, perform_all-InSync,
}
use aylink_extra.Hid.Accepted.{devices_of}

abbrev options : HidSessionOptions
options = record {
  is_keyboard_enabled = true;
  is_mouse_enabled = true;
  pointer_move_channel = none;
  default_control_channel = none;
  pointer_move_buffer_limit = 16384;
}

abbrev left_button : HidMouseEventPayload
left_button = record {
  phase = mouse_down;
  button = some 0;
  dx = none;
  dy = none;
  wheel_x = none;
  wheel_y = none;
}

abbrev operations : List Operation
operations =
    initialize options
    ∷ keyboard options key_down "KeyA"
    ∷ mouse options left_button
    ∷ release
    ∷ initialize options
    ∷ []

perform_all-InSync_example :
    receive_all (perform_all units operations create_hid_session).sent no_devices
    ≡ some (devices_of (perform_all units operations create_hid_session))
perform_all-InSync_example = perform_all-InSync units operations

abbrev typing : HidSession
typing = record {
  current_mouse_buttons = 1;
  pressed_keys = 4 ∷ 5 ∷ [];
  is_mouse_created = true;
  is_keyboard_created = true;
  sent = [];
}

build_uhid_create_message_layout_example :
    build_uhid_create_message units 1 (5 ∷ 1 ∷ []) "AYLink"
    ≡ 12 ∷ field16 1
      ++ field16 0
      ++ field16 0
      ++ length (take 127 (units "AYLink")) ∷ take 127 (units "AYLink")
      ++ field16 2
      ++ 5 ∷ 1 ∷ []
build_uhid_create_message_layout_example =
    build_uhid_create_message_layout units 1 (5 ∷ 1 ∷ []) "AYLink"

build_hid_keyboard_report_lem_example :
    build_hid_keyboard_report (0xe1 ∷ 4 ∷ 5 ∷ [])
    ≡ modifier_bits 0 (0xe1 ∷ 4 ∷ 5 ∷ []) % 256 ∷ 0 ∷ fit 6 (plain_keys (0xe1 ∷ 4 ∷ 5 ∷ []))
build_hid_keyboard_report_lem_example = build_hid_keyboard_report_lem (0xe1 ∷ 4 ∷ 5 ∷ [])
