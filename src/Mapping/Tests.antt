-- ===== src/Mapping/Tests.antt =====
-- Runs of the input mapping at concrete inputs.
use aylink_extra.Prelude.{◌≤◌, ◌≡◌, refl, length, List, [], ◌∷◌, keep, true, false, none, some}
use aylink_extra.Prelude.Int.{pos}
use aylink_extra.Prelude.Text.{String}
use aylink_extra.Integers.{integers}
use aylink_extra.Mapping.Schema.{
  MouseLook, keyboard, mouse_move, right_button, burst, NormalizedPoint, Joystick, RapidTap, hold,
  virtual_joystick, mouse_look, InputMappingBinding, InputMappingProfile,
}
use aylink_extra.Mapping.Commands.{touch_down, touch_up, touch_move}
use aylink_extra.Mapping.Compiler.{
  CompiledInputMappingProfile, get_joystick_group, nothing_compiled, compile_bindings,
  compile_input_mapping_profile,
}
use aylink_extra.Mapping.Buckets.{
  looks, found, is_bound_to, is_in_group, Distinct, compile_input_mapping_profile_lem,
  compile_input_mapping_profile-Distinct,
}
use aylink_extra.Mapping.Gestures.{get_binding_pointer_key, touch_command}
use aylink_extra.Mapping.Cancels.{tapping, Contains, stop_of, release_all-Contains}
use aylink_extra.IntegerLaws.{integers-OrderLaws}
use aylink_extra.Mapping.MouseLook.{move_mouse_look}
use aylink_extra.Mapping.UnitSquare.{InUnitSquare, move_mouse_look-InUnitSquare}
use aylink_extra.Mapping.Runtime.{
  InputMappingMouseMoveInput, ActiveTouchState, JoystickGroupState, press,
  InputMappingKeyboardInput, InputMappingRuntime, create_input_mapping_runtime, get_entry,
}
use aylink_extra.Mapping.Joystick.{joystick_pointer_key, update_joystick_binding}
use aylink_extra.Mapping.Bindings.{execute_binding_down, execute_binding_up}
use aylink_extra.Mapping.Handlers.{release_all, set_profile}
use aylink_extra.Mapping.Release.{
  Event, keyboard_event, mouse_moved, profile_set, IsIdle, perform_all, release_all-IsIdle,
  set_profile-IsIdle,
}
use aylink_extra.Mapping.Presses.{
  execute_binding_up-execute_binding_down, update_joystick_binding_lem,
}

abbrev same_text : String → String
same_text text = text

abbrev pub centre : NormalizedPoint integers
centre = record { x = pos 1; y = pos 0 }

abbrev hold_binding : InputMappingBinding integers
hold_binding = record {
  id = "hold";
  label = "Hold";
  trigger = keyboard "KeyF" (some ("ctrl" ∷ []));
  action = hold centre;
  sticker = none;
}

abbrev joystick : Joystick integers
joystick = record {
  center = centre;
  radius = pos 1;
  direction = record { x = pos 0; y = pos 1 };
  group = some "walk";
  control_mode = none;
}

abbrev joystick_binding : InputMappingBinding integers
joystick_binding = record {
  id = "walk-down";
  label = "Walk";
  trigger = keyboard "KeyS" none;
  action = virtual_joystick joystick;
  sticker = none;
}

abbrev look_binding : InputMappingBinding integers
look_binding = record {
  id = "look";
  label = "Look";
  trigger = mouse_move right_button;
  action = mouse_look (record {
    touch_start = centre;
    sensitivity_x = pos 1;
    sensitivity_y = pos 1;
    invert_y = none;
    max_step = some (pos 1);
    range_x = none;
    range_y = none;
  });
  sticker = none;
}

abbrev profile : InputMappingProfile integers
profile = record {
  schema_version = 1;
  id = "game";
  name = "Game";
  bindings = hold_binding ∷ joystick_binding ∷ look_binding ∷ [];
}

abbrev compiled : CompiledInputMappingProfile integers
compiled = compile_bindings integers profile.bindings (nothing_compiled integers profile)

abbrev key_input : String → InputMappingKeyboardInput
key_input code = record {
  code = code;
  repeat = false;
  alt_key = false;
  ctrl_key = false;
  meta_key = false;
  shift_key = false;
}

abbrev held_input : InputMappingKeyboardInput
held_input = record {
  code = "KeyS";
  repeat = true;
  alt_key = false;
  ctrl_key = false;
  meta_key = false;
  shift_key = false;
}

abbrev runtime : InputMappingRuntime integers
runtime = create_input_mapping_runtime integers (some compiled)

abbrev events : List (Event integers)
events =
    keyboard_event press (key_input "KeyS")
    ∷ mouse_moved (record {
      movement_x = pos 5;
      movement_y = pos 5;
      pointer_locked = false;
      pressed_buttons = some 2;
    })
    ∷ profile_set (some profile)
    ∷ keyboard_event press (key_input "KeyS")
    ∷ []

release_all-IsIdle_example :
    IsIdle integers
      (release_all integers (perform_all integers same_text same_text events runtime)).0
release_all-IsIdle_example = release_all-IsIdle integers same_text same_text (some compiled) events

set_profile-IsIdle_example :
    IsIdle integers
      (set_profile integers same_text same_text
        (some profile)
        (perform_all integers same_text same_text events runtime)).0
set_profile-IsIdle_example =
    set_profile-IsIdle integers same_text same_text (some compiled) events (some profile)

execute_binding_up-execute_binding_down_example :
    ((execute_binding_up integers hold_binding
        (execute_binding_down integers hold_binding runtime).0).0
      ≡ runtime)
    × ((execute_binding_down integers hold_binding runtime).1
        ≡ touch_command integers touch_down
            (get_binding_pointer_key integers hold_binding)
            centre
            1
            none
          ∷ [])
    × ((execute_binding_up integers hold_binding
          (execute_binding_down integers hold_binding runtime).0).1
        ≡ touch_command integers touch_up
            (get_binding_pointer_key integers hold_binding)
            centre
            0
            none
          ∷ [])
unfolding create_input_mapping_runtime get_entry
execute_binding_up-execute_binding_down_example =
    execute_binding_up-execute_binding_down integers hold_binding centre runtime refl refl

update_joystick_binding_lem_example :
    update_joystick_binding integers joystick_binding joystick false
      (update_joystick_binding integers joystick_binding joystick true runtime).0
    ≡ (
      runtime,
      touch_command integers touch_move
            (joystick_pointer_key integers
              (get_joystick_group integers (virtual_joystick joystick) "walk-down"))
            centre
            1
            none
          ∷ touch_command integers touch_up
              (joystick_pointer_key integers
                (get_joystick_group integers (virtual_joystick joystick) "walk-down"))
              centre
              0
              none
          ∷ [],
    )
unfolding create_input_mapping_runtime get_entry
update_joystick_binding_lem_example =
    update_joystick_binding_lem integers joystick_binding joystick compiled runtime refl refl

compile_input_mapping_profile_lem_example :
    (found "KeyF" compiled.keyboard_bindings_by_code
      ≡ keep (is_bound_to integers "KeyF") profile.bindings)
    × (found "KeyF" compiled.joystick_bindings_by_group
        ≡ keep (is_in_group integers "KeyF") profile.bindings)
unfolding compile_input_mapping_profile
compile_input_mapping_profile_lem_example =
    compile_input_mapping_profile_lem integers same_text same_text profile compiled "KeyF" refl

compile_input_mapping_profile-Distinct_example :
    Distinct integers profile.bindings × (length (looks integers profile.bindings) ≤ 1)
unfolding compile_input_mapping_profile
compile_input_mapping_profile-Distinct_example =
    compile_input_mapping_profile-Distinct integers same_text same_text profile compiled refl

abbrev rapid : RapidTap integers
rapid = record { point = centre; mode = burst; taps_per_second = pos 10; tap_count = some (pos 5) }

-- A runtime that holds a touch, a joystick and a rapid tap.
abbrev pub held_touch : ActiveTouchState integers
held_touch = record { pointer_key = "binding:hold"; point = centre }

abbrev pub held_group : JoystickGroupState integers
held_group = record {
  center = centre;
  radius = pos 1;
  active_binding_ids = "walk-down" ∷ [];
  point = centre;
  is_down = true;
}

abbrev pub held_runtime : InputMappingRuntime integers
held_runtime = record runtime {
  active_touches = ("hold", held_touch) ∷ [];
  active_joystick_groups = ("walk", held_group) ∷ [];
  active_rapid_tap_bindings = "fire" ∷ [];
}

release_all-Contains_example :
    Contains (stop_of integers "fire") (release_all integers held_runtime).1
unfolding get_entry create_input_mapping_runtime
release_all-Contains_example =
    release_all-Contains integers held_runtime (stop_of integers "fire") (tapping "fire" refl)

abbrev look_action : MouseLook integers
look_action = record {
  touch_start = centre;
  sensitivity_x = pos 1;
  sensitivity_y = pos 1;
  invert_y = none;
  max_step = some (pos 1);
  range_x = none;
  range_y = none;
}

abbrev movement : InputMappingMouseMoveInput integers
movement = record {
  movement_x = pos 5000;
  movement_y = pos 5;
  pointer_locked = false;
  pressed_buttons = some 2;
}

move_mouse_look-InUnitSquare_example :
    InUnitSquare integers
      (move_mouse_look integers look_action movement runtime).0.mouse_look_state.point
move_mouse_look-InUnitSquare_example =
    move_mouse_look-InUnitSquare integers integers-OrderLaws look_action movement runtime
      ((refl, refl), (refl, refl))
