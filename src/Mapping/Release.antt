-- ===== src/Mapping/Release.antt =====
-- `releaseAll` of AYLink.Web/src/features/inputMapping/inputMappingRuntime.ts, after any sequence of
-- events and profiles.
use aylink_extra.Prelude.{ℕ, ◌≡◌, arith, List, [], ◌∷◌, false, Option, none, some}
use aylink_extra.Prelude.Text.{String}
use aylink_extra.Prelude.Numbers.{Numbers}
use aylink_extra.Mapping.Schema.{InputMappingProfile}
use aylink_extra.Mapping.Compiler.{CompiledInputMappingProfile}
use aylink_extra.Mapping.Runtime.{
  InputPhase, InputMappingKeyboardInput, InputMappingMouseMoveInput, InputMappingRuntime,
  create_input_mapping_runtime,
}
use aylink_extra.Mapping.Handlers.{
  release_all, set_profile, handle_keyboard_event, handle_mouse_button_event, handle_mouse_wheel,
  keyboard_bindings,
}
use aylink_extra.Mapping.MouseLook.{release_mouse_look, handle_mouse_move}
use aylink_extra.Mapping.HeldLook.{
  IsHeld, handle_mouse_move-IsHeld, handle_bindings-IsHeld, handle_mouse_button_event-IsHeld,
  handle_mouse_wheel-IsHeld,
}

module _ (n : Numbers) where
  open n use {Num}

  -- Nothing is pressed, held, repeated or moved.
  pub record IsIdle (s : InputMappingRuntime n) : Type 0 where
    pub touches : s.active_touches ≡ []
    pub groups : s.active_joystick_groups ≡ []
    pub rapid_taps : s.active_rapid_tap_bindings ≡ []
    pub look : s.mouse_look_state.is_down ≡ false

  release_all-IsIdle' : (s : InputMappingRuntime n) → IsHeld n s → IsIdle (release_all n s).0
  unfolding release_all release_mouse_look
  release_all-IsIdle' s h = ground arith

  -- What the page may call: events of the devices, a profile, and the release of all.
  pub data Event : Type 0 where
    keyboard_event : InputPhase → InputMappingKeyboardInput → Event
    mouse_button_event : InputPhase → ℕ → Event
    mouse_moved : InputMappingMouseMoveInput n → Event
    wheel_turned : Num → Event
    all_released : Event
    profile_set : Option (InputMappingProfile n) → Event

  module _ (trim to_lower_case : String → String) where
    abbrev pub perform : Event → InputMappingRuntime n → InputMappingRuntime n
    perform (keyboard_event phase input) s = (handle_keyboard_event n to_lower_case phase input s).0
    perform (mouse_button_event phase button) s = (handle_mouse_button_event n phase button s).0
    perform (mouse_moved input) s = (handle_mouse_move n input s).0
    perform (wheel_turned delta_y) s = (handle_mouse_wheel n delta_y s).0
    perform all_released s = (release_all n s).0
    perform (profile_set profile) s = (set_profile n trim to_lower_case profile s).0

    unfoldable pub perform_all : List Event → InputMappingRuntime n → InputMappingRuntime n
    perform_all [] s = s
    perform_all (e ∷ es) s = perform_all es (perform e s)

    set_profile-IsIdle' :
        (profile : Option (InputMappingProfile n)) (s : InputMappingRuntime n)
        → IsHeld n s
        → IsIdle (set_profile n trim to_lower_case profile s).0
    unfolding set_profile
    set_profile-IsIdle' none s h =
        let idle = release_all-IsIdle' s h in
        record {
          touches = idle.touches;
          groups = idle.groups;
          rapid_taps = idle.rapid_taps;
          look = idle.look;
        }
    set_profile-IsIdle' (some profile) s h =
        let idle = release_all-IsIdle' s h in
        record {
          touches = ground (arith, idle.touches);
          groups = ground (arith, idle.groups);
          rapid_taps = ground (arith, idle.rapid_taps);
          look = ground (arith, idle.look);
        }

    perform-IsHeld : (e : Event) (s : InputMappingRuntime n) → IsHeld n s → IsHeld n (perform e s)
    unfolding handle_keyboard_event
    perform-IsHeld (keyboard_event phase input) s h =
        handle_bindings-IsHeld n phase (keyboard_bindings n to_lower_case input s) input.repeat s h
    perform-IsHeld (mouse_button_event phase button) s h =
        handle_mouse_button_event-IsHeld n phase button s h
    perform-IsHeld (mouse_moved input) s h = handle_mouse_move-IsHeld n input s h
    perform-IsHeld (wheel_turned delta_y) s h = handle_mouse_wheel-IsHeld n delta_y s h
    perform-IsHeld all_released s h =
        let idle = release_all-IsIdle' s h in ground (arith, idle.look)
    perform-IsHeld (profile_set profile) s h =
        let idle = set_profile-IsIdle' profile s h in ground (arith, idle.look)

    perform_all-IsHeld :
        (es : List Event) (s : InputMappingRuntime n) → IsHeld n s → IsHeld n (perform_all es s)
    unfolding perform_all
    perform_all-IsHeld [] s h = h
    perform_all-IsHeld (e ∷ es) s h = perform_all-IsHeld es (perform e s) (perform-IsHeld e s h)

    create_input_mapping_runtime-IsHeld :
        (compiled : Option (CompiledInputMappingProfile n))
        → IsHeld n (create_input_mapping_runtime n compiled)
    unfolding create_input_mapping_runtime
    create_input_mapping_runtime-IsHeld compiled = ground arith

    -- After any events and profiles from a new runtime, `releaseAll` leaves no touch, no joystick, no
    -- repeated tap and no mouse look held.
    pub release_all-IsIdle :
        (compiled : Option (CompiledInputMappingProfile n)) (es : List Event)
        → IsIdle (release_all n (perform_all es (create_input_mapping_runtime n compiled))).0
    release_all-IsIdle compiled es =
        release_all-IsIdle' (perform_all es (create_input_mapping_runtime n compiled)) (
          perform_all-IsHeld es (create_input_mapping_runtime n compiled)
            (create_input_mapping_runtime-IsHeld compiled))

    -- After any events and profiles from a new runtime, `setProfile` leaves nothing held either, also
    -- where the profile is refused.
    pub set_profile-IsIdle :
        (compiled : Option (CompiledInputMappingProfile n)) (es : List Event)
        (profile : Option (InputMappingProfile n))
        → IsIdle
            (set_profile n trim to_lower_case profile
              (perform_all es (create_input_mapping_runtime n compiled))).0
    set_profile-IsIdle compiled es profile =
        set_profile-IsIdle' profile (perform_all es (create_input_mapping_runtime n compiled)) (
          perform_all-IsHeld es (create_input_mapping_runtime n compiled)
            (create_input_mapping_runtime-IsHeld compiled))
