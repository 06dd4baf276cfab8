-- ===== src/Mapping/Runtime.antt =====
-- The runtime of AYLink.Web/src/features/inputMapping/inputMappingRuntime.ts. The closure's variables
-- are a record; a `Map` is an association list and a `Set` a list, in the order of insertion; an
-- operation returns the new state with its commands. `toLowerCase` and `trim` are parameters.
use aylink_extra.Prelude.{ℕ, List, [], Bool, false, Option}
unfoldable pub use aylink_extra.Prelude.Entries.{
  get_entry, set_entry, delete_entry, has_element, add_element, delete_element,
}
use aylink_extra.Prelude.Text.{String}
use aylink_extra.Prelude.Numbers.{Numbers}
use aylink_extra.Mapping.Schema.{NormalizedPoint}
use aylink_extra.Mapping.Commands.{InputMappingCommand}
use aylink_extra.Mapping.Compiler.{CompiledInputMappingProfile}

pub data InputPhase : Type 0 where
  press release : InputPhase

pub record InputMappingKeyboardInput : Type 0 where
  pub code : String
  pub repeat : Bool
  pub alt_key : Bool
  pub ctrl_key : Bool
  pub meta_key : Bool
  pub shift_key : Bool

module _ (n : Numbers) where
  open n use {Num, int, ratio, plus, minus, times, over, abs, least, greatest, lt}

  pub record InputMappingMouseMoveInput : Type 0 where
    pub movement_x : Num
    pub movement_y : Num
    pub pointer_locked : Bool
    pub pressed_buttons : Option ℕ

  pub record ActiveTouchState : Type 0 where
    pub pointer_key : String
    pub point : NormalizedPoint n

  pub record JoystickGroupState : Type 0 where
    pub center : NormalizedPoint n
    pub radius : Num
    pub active_binding_ids : List String
    pub point : NormalizedPoint n
    pub is_down : Bool

  pub record MouseLookState : Type 0 where
    pub is_down : Bool
    pub point : NormalizedPoint n

  pub record InputMappingRuntime : Type 0 where
    pub compiled_profile : Option (CompiledInputMappingProfile n)
    pub active_touches : List (String × ActiveTouchState)
    pub active_joystick_groups : List (String × JoystickGroupState)
    pub active_rapid_tap_bindings : List String
    pub mouse_look_state : MouseLookState

  abbrev pub Commands : Type 0
  Commands = List (InputMappingCommand n)

  -- The state of a runtime that has just been created with a compiled profile, or none.
  unfoldable pub create_input_mapping_runtime :
      Option (CompiledInputMappingProfile n) → InputMappingRuntime
  create_input_mapping_runtime compiled_profile = record {
    compiled_profile = compiled_profile;
    active_touches = [];
    active_joystick_groups = [];
    active_rapid_tap_bindings = [];
    mouse_look_state = record {
      is_down = false;
      point = record { x = ratio 5 10; y = ratio 5 10 };
    };
  }
  -- `joystick:${groupKey}`
