-- ===== src/Mapping/Joystick.antt =====
-- The joysticks of AYLink.Web/src/features/inputMapping/inputMappingRuntime.ts:
-- the groups of bindings that steer one pointer.
use aylink_extra.Prelude.{
  List, [], ◌∷◌, Bool, true, false, not, if◌then◌else◌, none, some, get_or_else,
}
use aylink_extra.Prelude.Text.{String, str_eq}
use aylink_extra.Prelude.Numbers.{Numbers}
use aylink_extra.Mapping.Schema.{
  NormalizedPoint, Joystick, InputMappingAction, virtual_joystick, InputMappingBinding,
}
use aylink_extra.Mapping.Commands.{touch_down, touch_move, touch_up, is_nonempty}
use aylink_extra.Mapping.Coordinates.{origin, normalize_direction, resolve_virtual_joystick_point}
use aylink_extra.Mapping.Compiler.{get, get_joystick_group}
use aylink_extra.Mapping.Gestures.{touch_command}
use aylink_extra.Mapping.Runtime.{
  get_entry, set_entry, delete_entry, has_element, add_element, delete_element, JoystickGroupState,
  InputMappingRuntime, Commands,
}

module _ (n : Numbers) where
  open n use {Num, int, ratio, plus, minus, times, over, abs, least, greatest, lt}

  unfoldable pub joystick_pointer_key : String → String
  joystick_pointer_key group_key = Prim.Native.String.◌++◌ "joystick:" group_key

  abbrev pub new_group : Joystick n → JoystickGroupState n
  new_group action = record {
    center = action.center;
    radius = action.radius;
    active_binding_ids = [];
    point = action.center;
    is_down = false;
  }

  abbrev pub mark_binding : Bool → String → JoystickGroupState n → JoystickGroupState n
  mark_binding is_down id group = record group {
    active_binding_ids =
        (if is_down
          then add_element id group.active_binding_ids
          else delete_element id group.active_binding_ids);
  }

  abbrev pub add_direction :
      List String
      → NormalizedPoint n
      → InputMappingBinding n
      → InputMappingAction n
      → NormalizedPoint n
  add_direction active total binding (virtual_joystick action) =
      if has_element binding.id active
      then record { x = plus total.x action.direction.x; y = plus total.y action.direction.y }
      else total
  add_direction active total binding _ = total

  -- The sum of the directions of the group's active bindings.
  unfoldable pub sum_directions :
      List String → NormalizedPoint n → List (InputMappingBinding n) → NormalizedPoint n
  sum_directions active total [] = total
  sum_directions active total (b ∷ bs) =
      sum_directions active (add_direction active total b b.action) bs

  abbrev pub with_groups :
      InputMappingRuntime n → List (String × JoystickGroupState n) → InputMappingRuntime n
  with_groups s groups = record s { active_joystick_groups = groups }

  -- The group behind `updateJoystickBinding`, once the binding is marked in it.
  unfoldable pub move_joystick :
      String
      → JoystickGroupState n
      → List (InputMappingBinding n)
      → InputMappingRuntime n
      → InputMappingRuntime n × Commands n
  move_joystick group_key group group_bindings s =
      let pointer_key = joystick_pointer_key group_key in
      let direction = sum_directions group.active_binding_ids (origin n) group_bindings in
      let next_point =
        resolve_virtual_joystick_point n group.center group.radius
          (normalize_direction n direction) in
      let moved = record group { is_down = true; point = next_point } in
      let placed = with_groups s (set_entry group_key moved s.active_joystick_groups) in
      if not (is_nonempty group.active_binding_ids)
      then (
        with_groups s (delete_entry group_key s.active_joystick_groups),
        (if group.is_down
            then touch_command n touch_move pointer_key group.center 1 none
              ∷ touch_command n touch_up pointer_key group.center 0 none
              ∷ []
            else []),
      )
      else if not group.is_down
      then (
        placed,
        touch_command n touch_down pointer_key group.center 1 none
            ∷ touch_command n touch_move pointer_key next_point 1 none
            ∷ [],
      )
      else (placed, touch_command n touch_move pointer_key next_point 1 none ∷ [])

  unfoldable pub update_joystick_binding :
      InputMappingBinding n
      → Joystick n
      → Bool
      → InputMappingRuntime n
      → InputMappingRuntime n × Commands n
  unfolding move_joystick get_entry set_entry
  update_joystick_binding binding action is_down s = elim s.compiled_profile [
    | none ↦ (s, [])
    | some compiled ↦
        let group_key = get_joystick_group n (virtual_joystick action) binding.id in
        let group =
          mark_binding is_down binding.id
            (get_or_else (get_entry group_key s.active_joystick_groups) (new_group action)) in
        move_joystick group_key group
          (get_or_else (get str_eq group_key compiled.joystick_bindings_by_group) []) s
  ]
