-- ===== src/Mapping/MouseLook.antt =====
-- The mouse look of AYLink.Web/src/features/inputMapping/inputMappingRuntime.ts.
use aylink_extra.Prelude.{
  [], ◌∷◌, ◌++◌, Bool, true, false, not, ◌||◌, if◌then◌else◌, Option, none, some, get_or_else,
}
use aylink_extra.Prelude.Int.{pos, negsuc}
use aylink_extra.Prelude.Numbers.{Numbers}
use aylink_extra.Mapping.Schema.{
  NormalizedPoint, MouseLook, InputMappingAction, mouse_look, InputMappingBinding,
}
use aylink_extra.Mapping.Commands.{
  TouchPhase, touch_down, touch_move, touch_up, InputMappingRuntimeResult,
  create_input_mapping_result,
}
use aylink_extra.Mapping.Coordinates.{clamp_normalized_point, add_normalized_points}
use aylink_extra.Mapping.Compiler.{CompiledInputMappingProfile}
use aylink_extra.Mapping.Gestures.{touch_command}
use aylink_extra.Mapping.Runtime.{InputMappingMouseMoveInput, InputMappingRuntime, Commands}
use aylink_extra.Mapping.Matching.{is_mouse_look_active}

module _ (n : Numbers) where
  open n use {Num, int, ratio, plus, minus, times, over, abs, least, greatest, lt}

  abbrev pub nothing_handled : InputMappingRuntimeResult n
  nothing_handled = create_input_mapping_result []

  abbrev pub mouse_look_binding_of :
      Option (CompiledInputMappingProfile n) → Option (InputMappingBinding n)
  mouse_look_binding_of none = none
  mouse_look_binding_of (some compiled) = compiled.mouse_look_binding

  abbrev pub mouse_look_at :
      Bool → NormalizedPoint n → InputMappingRuntime n → InputMappingRuntime n
  mouse_look_at is_down point s = record s {
    mouse_look_state = record { is_down = is_down; point = point };
  }

  unfoldable pub release_mouse_look :
      TouchPhase → InputMappingRuntime n → InputMappingRuntime n × Commands n
  release_mouse_look phase s = elim (mouse_look_binding_of s.compiled_profile) [
    | none ↦ (s, [])
    | some binding ↦ if not s.mouse_look_state.is_down then (s, []) else (
      mouse_look_at false s.mouse_look_state.point s,
      touch_command n phase "mouseLook" s.mouse_look_state.point 0 none ∷ [],
    )
  ]

  abbrev pub is_true : Option Bool → Bool
  is_true none = false
  is_true (some b) = b

  abbrev pub max_step_of : MouseLook n → Num
  max_step_of action = get_or_else action.max_step (ratio 8 100)

  abbrev pub range_x_of : MouseLook n → Num
  range_x_of action = get_or_else action.range_x (max_step_of action)

  abbrev pub range_y_of : MouseLook n → Num
  range_y_of action = get_or_else action.range_y (max_step_of action)

  abbrev pub look_delta : MouseLook n → InputMappingMouseMoveInput n → NormalizedPoint n
  look_delta action input = record {
    x = times (over input.movement_x (int (pos 1000))) action.sensitivity_x;
    y =
        times (times (over input.movement_y (int (pos 1000))) action.sensitivity_y)
          (int (if is_true action.invert_y then negsuc 0 else pos 1));
  }

  abbrev pub limit : Num → Num → Num
  limit range value = least range (greatest (minus (int (pos 0)) range) value)

  unfoldable pub move_mouse_look :
      MouseLook n
      → InputMappingMouseMoveInput n
      → InputMappingRuntime n
      → InputMappingRuntime n × InputMappingRuntimeResult n
  move_mouse_look action input s =
      let touch_start = action.touch_start in
      let from = if s.mouse_look_state.is_down then s.mouse_look_state.point else touch_start in
      let next_point =
        clamp_normalized_point n (add_normalized_points n from (look_delta action input)) in
      let off_x = minus next_point.x touch_start.x in
      let off_y = minus next_point.y touch_start.y in
      let exceeds_range =
        lt (range_x_of action) (abs off_x) || lt (range_y_of action) (abs off_y) in
      let limited_delta : NormalizedPoint n = record {
        x = limit (range_x_of action) off_x;
        y = limit (range_y_of action) off_y;
      } in
      let limited_point =
        clamp_normalized_point n (add_normalized_points n touch_start limited_delta) in
      let started : Commands n =
        if s.mouse_look_state.is_down
        then []
        else touch_command n touch_down "mouseLook" touch_start 1 none ∷ [] in
      if exceeds_range
      then (
        mouse_look_at true touch_start s,
        create_input_mapping_result (
            started
            ++ touch_command n touch_move "mouseLook" limited_point 1 none
              ∷ touch_command n touch_up "mouseLook" limited_point 0 none
              ∷ touch_command n touch_down "mouseLook" touch_start 1 none
              ∷ []),
      )
      else (
        mouse_look_at true next_point s,
        create_input_mapping_result
            (started ++ touch_command n touch_move "mouseLook" next_point 1 none ∷ []),
      )

  abbrev pub look_by :
      InputMappingAction n
      → InputMappingBinding n
      → InputMappingMouseMoveInput n
      → InputMappingRuntime n
      → InputMappingRuntime n × InputMappingRuntimeResult n
  look_by (mouse_look action) binding input s =
      let released = release_mouse_look touch_up s in
      if not (is_mouse_look_active n binding input)
      then (released.0, create_input_mapping_result released.1)
      else move_mouse_look action input s
  look_by _ binding input s = (s, nothing_handled)

  unfoldable pub handle_mouse_look :
      InputMappingMouseMoveInput n
      → InputMappingRuntime n
      → InputMappingRuntime n × InputMappingRuntimeResult n
  handle_mouse_look input s = elim (mouse_look_binding_of s.compiled_profile) [
    | none ↦ (s, nothing_handled)
    | some binding ↦ look_by binding.action binding input s
  ]

  -- `handleMouseMove`, which returns early without a profile.
  unfoldable pub handle_mouse_move :
      InputMappingMouseMoveInput n
      → InputMappingRuntime n
      → InputMappingRuntime n × InputMappingRuntimeResult n
  handle_mouse_move input s = elim s.compiled_profile [
    | none ↦ (s, nothing_handled)
    | some compiled ↦ handle_mouse_look input s
  ]
