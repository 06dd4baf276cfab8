-- ===== src/Mapping/Bindings.antt =====
-- What a press and a release of a binding do in
-- AYLink.Web/src/features/inputMapping/inputMappingRuntime.ts.
use aylink_extra.Prelude.{[], ◌∷◌, Bool, true, false, if◌then◌else◌, Option, none, some, is_some}
use aylink_extra.Prelude.Numbers.{Numbers}
use aylink_extra.Mapping.Schema.{
  while_held, burst, ControlMode, slide, tap_control, NormalizedPoint, RapidTap, InputMappingAction,
  tap, rapid_tap, hold, virtual_joystick, swipe, mouse_look, hid_key, hid_mouse_button,
  InputMappingBinding,
}
use aylink_extra.Mapping.Commands.{
  touch_down, touch_up, hid_down, hid_up, touch_repeat, stop_touch_repeat, hid_key_command,
  hid_mouse_button_command,
}
use aylink_extra.Mapping.Coordinates.{normalize_direction, resolve_virtual_joystick_point}
use aylink_extra.Mapping.Gestures.{
  get_binding_pointer_key, touch_command, create_tap_commands, interval_of, down_time,
  create_rapid_tap_burst_commands, create_swipe_commands,
}
use aylink_extra.Mapping.Runtime.{
  get_entry, set_entry, delete_entry, has_element, add_element, delete_element, InputMappingRuntime,
  Commands,
}
use aylink_extra.Mapping.Joystick.{update_joystick_binding}

module _ (n : Numbers) where
  abbrev pub is_tap_control : Option ControlMode → Bool
  is_tap_control none = false
  is_tap_control (some mode) = elim mode [ tap_control ↦ true | slide ↦ false ]

  abbrev pub hold_down :
      InputMappingBinding n
      → NormalizedPoint n
      → InputMappingRuntime n
      → InputMappingRuntime n × Commands n
  hold_down binding point s =
      let pointer_key = get_binding_pointer_key n binding in
      if is_some (get_entry binding.id s.active_touches) then (s, []) else (
        record s {
          active_touches =
              set_entry binding.id (record { pointer_key = pointer_key; point = point })
                s.active_touches;
        },
        touch_command n touch_down pointer_key point 1 none ∷ [],
      )

  abbrev pub start_rapid_tap :
      InputMappingBinding n
      → RapidTap n
      → InputMappingRuntime n
      → InputMappingRuntime n × Commands n
  start_rapid_tap binding action s =
      if has_element binding.id s.active_rapid_tap_bindings then (s, []) else (
        record s { active_rapid_tap_bindings = add_element binding.id s.active_rapid_tap_bindings },
        touch_repeat (get_binding_pointer_key n binding) action.point (interval_of n action)
              (down_time n (interval_of n action))
            ∷ [],
      )

  unfoldable pub execute_down :
      InputMappingAction n
      → InputMappingBinding n
      → InputMappingRuntime n
      → InputMappingRuntime n × Commands n
  execute_down (tap point duration_ms) binding s = (s, create_tap_commands n binding point)
  execute_down (rapid_tap action) binding s = elim action.mode [
    | burst ↦ (s, create_rapid_tap_burst_commands n binding action)
    | while_held ↦ start_rapid_tap binding action s
  ]
  execute_down (hold point) binding s = hold_down binding point s
  execute_down (swipe action) binding s = (s, create_swipe_commands n binding action)
  execute_down (virtual_joystick action) binding s =
      if is_tap_control action.control_mode
      then (
        s,
        create_tap_commands n binding (
            resolve_virtual_joystick_point n action.center action.radius
              (normalize_direction n action.direction)),
      )
      else update_joystick_binding n binding action true s
  execute_down (hid_key code) binding s = (s, hid_key_command hid_down code ∷ [])
  execute_down (hid_mouse_button button) binding s =
      (s, hid_mouse_button_command hid_down button ∷ [])
  execute_down (mouse_look action) binding s = (s, [])

  unfoldable pub execute_binding_down :
      InputMappingBinding n → InputMappingRuntime n → InputMappingRuntime n × Commands n
  unfolding execute_down
  execute_binding_down binding s = execute_down binding.action binding s

  abbrev pub hold_up :
      InputMappingBinding n → InputMappingRuntime n → InputMappingRuntime n × Commands n
  hold_up binding s = elim (get_entry binding.id s.active_touches) [
    | none ↦ (s, [])
    | some active ↦ (
      record s { active_touches = delete_entry binding.id s.active_touches },
      touch_command n touch_up active.pointer_key active.point 0 none ∷ [],
    )
  ]

  unfoldable pub execute_up :
      InputMappingAction n
      → InputMappingBinding n
      → InputMappingRuntime n
      → InputMappingRuntime n × Commands n
  execute_up (hold point) binding s = hold_up binding s
  execute_up (rapid_tap action) binding s = elim action.mode [
    | burst ↦ (s, [])
    | while_held ↦ (
      record s {
        active_rapid_tap_bindings = delete_element binding.id s.active_rapid_tap_bindings;
      },
      stop_touch_repeat (get_binding_pointer_key n binding) ∷ [],
    )
  ]
  execute_up (virtual_joystick action) binding s =
      if is_tap_control action.control_mode
      then (s, [])
      else update_joystick_binding n binding action false s
  execute_up (hid_key code) binding s = (s, hid_key_command hid_up code ∷ [])
  execute_up (hid_mouse_button button) binding s = (s, hid_mouse_button_command hid_up button ∷ [])
  execute_up _ binding s = (s, [])

  unfoldable pub execute_binding_up :
      InputMappingBinding n → InputMappingRuntime n → InputMappingRuntime n × Commands n
  unfolding execute_up
  execute_binding_up binding s = execute_up binding.action binding s
