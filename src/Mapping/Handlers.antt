-- ===== src/Mapping/Handlers.antt =====
-- The handlers that `createInputMappingRuntime` of
-- AYLink.Web/src/features/inputMapping/inputMappingRuntime.ts returns. A call of `setProfile` that throws
-- has no result, and keeps what it changed before.
use aylink_extra.Prelude.{
  ℕ, List, [], ◌∷◌, ◌++◌, Bool, true, false, not, ◌&&◌, ◌||◌, ◌==◌, if◌then◌else◌, Option, none,
  some, get_or_else, keep,
}
use aylink_extra.Prelude.Text.{String, str_eq}
use aylink_extra.Prelude.Numbers.{Numbers}
use aylink_extra.Mapping.Schema.{
  InputMappingAction, tap, swipe, InputMappingBinding, InputMappingProfile,
}
use aylink_extra.Mapping.Commands.{
  touch_up, touch_cancel, stop_touch_repeat, hid_mouse_wheel, InputMappingRuntimeResult,
  is_nonempty, create_input_mapping_result,
}
use aylink_extra.Mapping.Compiler.{
  direction_eq, get, CompiledInputMappingProfile, compile_input_mapping_profile,
}
use aylink_extra.Mapping.Gestures.{touch_command}
use aylink_extra.Mapping.Runtime.{
  InputPhase, press, release, InputMappingKeyboardInput, ActiveTouchState, JoystickGroupState,
  InputMappingRuntime, Commands,
}
use aylink_extra.Mapping.Joystick.{joystick_pointer_key}
use aylink_extra.Mapping.Bindings.{execute_binding_down, execute_binding_up}
use aylink_extra.Mapping.Matching.{matches_keyboard_modifiers, get_wheel_direction}
use aylink_extra.Mapping.MouseLook.{nothing_handled, release_mouse_look}

module _ (n : Numbers) where
  open n use {Num, int, ratio, plus, minus, times, over, abs, least, greatest, lt}

  abbrev pub execute_binding :
      InputPhase
      → InputMappingBinding n
      → InputMappingRuntime n
      → InputMappingRuntime n × Commands n
  execute_binding press binding s = execute_binding_down n binding s
  execute_binding release binding s = execute_binding_up n binding s

  -- `bindings.flatMap(...)`
  unfoldable pub execute_bindings :
      InputPhase
      → List (InputMappingBinding n)
      → InputMappingRuntime n
      → InputMappingRuntime n × Commands n
  execute_bindings phase [] s = (s, [])
  execute_bindings phase (b ∷ bs) s =
      let first = execute_binding phase b s in
      let others = execute_bindings phase bs first.0 in (others.0, first.1 ++ others.1)

  abbrev pub is_repeatable_action : InputMappingAction n → Bool
  is_repeatable_action (tap point duration_ms) = true
  is_repeatable_action (swipe action) = true
  is_repeatable_action _ = false

  abbrev pub is_repeatable : InputMappingBinding n → Bool
  is_repeatable binding = is_repeatable_action binding.action

  abbrev pub is_repeated : InputPhase → Bool → Bool
  is_repeated press repeat = repeat
  is_repeated release repeat = false

  abbrev pub handle_nonempty :
      InputPhase
      → List (InputMappingBinding n)
      → InputMappingRuntime n
      → InputMappingRuntime n × InputMappingRuntimeResult n
  handle_nonempty phase bindings s =
      let executed = execute_bindings phase bindings s in
      if is_nonempty bindings
      then (executed.0, record { handled = true; commands = executed.1 })
      else (s, nothing_handled n)

  unfoldable pub handle_bindings :
      InputPhase
      → Option (List (InputMappingBinding n))
      → Bool
      → InputMappingRuntime n
      → InputMappingRuntime n × InputMappingRuntimeResult n
  handle_bindings phase bindings repeat s = elim s.compiled_profile [
    | none ↦ (s, nothing_handled n)
    | some compiled ↦
        let all = get_or_else bindings [] in
        handle_nonempty phase (if is_repeated phase repeat then keep is_repeatable all else all) s
  ]

  unfoldable pub cancel_touches : List (String × ActiveTouchState n) → Commands n
  cancel_touches [] = []
  cancel_touches ((id, active) ∷ rest) =
      touch_command n touch_cancel active.pointer_key active.point 0 none ∷ cancel_touches rest

  unfoldable pub cancel_groups : List (String × JoystickGroupState n) → Commands n
  cancel_groups [] = []
  cancel_groups ((group_key, group) ∷ rest) =
      let others = cancel_groups rest in
      if group.is_down
      then touch_command n touch_cancel (joystick_pointer_key n group_key) group.point 0 none
        ∷ others
      else others

  unfoldable pub stop_rapid_taps : List String → Commands n
  stop_rapid_taps [] = []
  stop_rapid_taps (id ∷ ids) =
      stop_touch_repeat (Prim.Native.String.◌++◌ "binding:" id) ∷ stop_rapid_taps ids

  abbrev pub cleared : InputMappingRuntime n → InputMappingRuntime n
  cleared s = record s {
    active_touches = [];
    active_joystick_groups = [];
    active_rapid_tap_bindings = [];
  }

  unfoldable pub release_all : InputMappingRuntime n → InputMappingRuntime n × Commands n
  release_all s =
      let released = release_mouse_look n touch_cancel (cleared s) in
      (
        released.0,
        cancel_touches s.active_touches
            ++ cancel_groups s.active_joystick_groups
            ++ stop_rapid_taps s.active_rapid_tap_bindings
            ++ released.1,
      )

  abbrev pub with_profile :
      Option (CompiledInputMappingProfile n) → InputMappingRuntime n → InputMappingRuntime n
  with_profile compiled s = record s { compiled_profile = compiled }

  module _ (trim to_lower_case : String → String) where
    unfoldable pub set_profile :
        Option (InputMappingProfile n)
        → InputMappingRuntime n
        → InputMappingRuntime n × Option (Commands n)
    set_profile next_profile s =
        let released = release_all s in
        elim next_profile [
          | none ↦ (with_profile none released.0, some released.1)
          | some profile ↦ elim (compile_input_mapping_profile n trim to_lower_case profile) [
            | none ↦ (released.0, none)
            | some compiled ↦ (with_profile (some compiled) released.0, some released.1)
          ]
        ]

  abbrev pub keyboard_bindings :
      (String → String)
      → InputMappingKeyboardInput
      → InputMappingRuntime n
      → Option (List (InputMappingBinding n))
  keyboard_bindings to_lower_case input s = elim s.compiled_profile [
    | none ↦ none
    | some compiled ↦ elim (get str_eq input.code compiled.keyboard_bindings_by_code) [
      | none ↦ none
      | some bindings ↦ some (keep (matches_keyboard_modifiers n to_lower_case input) bindings)
    ]
  ]

  unfoldable pub handle_keyboard_event :
      (String → String)
      → InputPhase
      → InputMappingKeyboardInput
      → InputMappingRuntime n
      → InputMappingRuntime n × InputMappingRuntimeResult n
  unfolding handle_bindings
  handle_keyboard_event to_lower_case phase input s =
      handle_bindings phase (keyboard_bindings to_lower_case input s) input.repeat s

  abbrev pub mouse_button_bindings :
      ℕ → InputMappingRuntime n → Option (List (InputMappingBinding n))
  mouse_button_bindings button s = elim s.compiled_profile [
    | none ↦ none
    | some compiled ↦ get ◌==◌ button compiled.mouse_button_bindings_by_button
  ]

  abbrev pub is_press : InputPhase → Bool
  is_press press = true
  is_press release = false

  unfoldable pub handle_mouse_button_event :
      InputPhase → ℕ → InputMappingRuntime n → InputMappingRuntime n × InputMappingRuntimeResult n
  handle_mouse_button_event phase button s =
      let handled = handle_bindings phase (mouse_button_bindings button s) false s in
      let released = release_mouse_look n touch_up handled.0 in
      if not (is_press phase && button == 0)
      then handled
      else if not (is_nonempty released.1)
      then (released.0, handled.1)
      else (released.0, record { handled = true; commands = released.1 ++ handled.1.commands })

  unfoldable pub handle_mouse_wheel :
      Num → InputMappingRuntime n → InputMappingRuntime n × InputMappingRuntimeResult n
  handle_mouse_wheel delta_y s = elim s.compiled_profile [
    | none ↦ (s, nothing_handled n)
    | some compiled ↦
        let handled =
          handle_bindings press
            (get direction_eq (get_wheel_direction n delta_y)
              compiled.mouse_wheel_bindings_by_direction)
            false s in
        if is_nonempty handled.1.commands || handled.1.handled
        then handled
        else (handled.0, create_input_mapping_result (hid_mouse_wheel delta_y ∷ []))
  ]
