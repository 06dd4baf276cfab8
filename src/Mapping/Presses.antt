-- ===== src/Mapping/Presses.antt =====
-- What a press, its repetitions and its release do in
-- AYLink.Web/src/features/inputMapping/inputMappingRuntime.ts.
use aylink_extra.Prelude.{
  ◌≡◌, refl, ◌∙◌, ap, arith, List, [], ◌∷◌, true, false, none, some, inl, inr, Bool-cases,
  get_or_else, keep,
}
use aylink_extra.Prelude.Entries.{get_entry-set_entry, delete_entry-set_entry}
use aylink_extra.Prelude.Text.{String, str_eq, str_eq_refl}
use aylink_extra.Prelude.Numbers.{Numbers}
use aylink_extra.Mapping.Schema.{
  NormalizedPoint, Joystick, InputMappingAction, tap, hold, virtual_joystick, swipe,
  InputMappingBinding,
}
use aylink_extra.Mapping.Commands.{touch_down, touch_move, touch_up}
use aylink_extra.Mapping.Compiler.{get, CompiledInputMappingProfile, get_joystick_group}
use aylink_extra.Mapping.Coordinates.{origin, normalize_direction, resolve_virtual_joystick_point}
use aylink_extra.Mapping.Gestures.{get_binding_pointer_key, touch_command}
use aylink_extra.Mapping.Runtime.{
  press, InputMappingKeyboardInput, InputMappingRuntime, ActiveTouchState, get_entry, set_entry,
  delete_entry, JoystickGroupState,
}
use aylink_extra.Mapping.Joystick.{
  update_joystick_binding, move_joystick, joystick_pointer_key, with_groups, sum_directions,
}
use aylink_extra.Mapping.Bindings.{
  execute_down, execute_up, execute_binding_down, execute_binding_up,
}
use aylink_extra.Mapping.Handlers.{
  execute_bindings, is_repeatable, is_repeatable_action, handle_bindings, keyboard_bindings,
  handle_keyboard_event,
}

module _ (n : Numbers) where
  -- A hold binding that is not held: its press and then its release send a touch down and a touch up of
  -- the same pointer at the same point, and leave the runtime as it was.
  pub execute_binding_up-execute_binding_down :
      (binding : InputMappingBinding n) (point : NormalizedPoint n) (s : InputMappingRuntime n)
      → binding.action ≡ hold point
      → get_entry binding.id s.active_touches ≡ none
      → ((execute_binding_up n binding (execute_binding_down n binding s).0).0 ≡ s)
        × ((execute_binding_down n binding s).1
            ≡ touch_command n touch_down (get_binding_pointer_key n binding) point 1 none ∷ [])
        × ((execute_binding_up n binding (execute_binding_down n binding s).0).1
            ≡ touch_command n touch_up (get_binding_pointer_key n binding) point 0 none ∷ [])
  unfolding execute_binding_down execute_binding_up execute_down execute_up
  execute_binding_up-execute_binding_down binding point s is_hold absent =
      let touch : ActiveTouchState n = record {
        pointer_key = get_binding_pointer_key n binding;
        point = point;
      } in
      ground (
        arith,
        get_entry-set_entry binding.id touch s.active_touches,
        delete_entry-set_entry binding.id touch s.active_touches absent,
      )

  execute_down-repeatable :
      (action : InputMappingAction n) (binding : InputMappingBinding n) (s : InputMappingRuntime n)
      → is_repeatable_action n action ≡ true
      → (execute_down n action binding s).0 ≡ s
  unfolding execute_down
  execute_down-repeatable (tap point duration_ms) binding s h = refl
  execute_down-repeatable (swipe action) binding s h = refl
  execute_down-repeatable _ binding s h = absurd (ground arith)

  execute_bindings-repeatable :
      (bindings : List (InputMappingBinding n)) (s : InputMappingRuntime n)
      → (execute_bindings n press (keep (is_repeatable n) bindings) s).0 ≡ s
  unfolding execute_bindings execute_binding_down
  execute_bindings-repeatable [] s = refl
  execute_bindings-repeatable (b ∷ bs) s = elim (Bool-cases (is_repeatable n b)) [
    | inl e ↦ rw e (
        ap (λ t. (execute_bindings n press (keep (is_repeatable n) bs) t).0)
          (execute_down-repeatable b.action b s e)
        ∙ execute_bindings-repeatable bs s)
    | inr e ↦ rw e (execute_bindings-repeatable bs s)
  ]

  -- While a key repeats, whatever is bound to it, the state of the runtime stays as it is: nothing is
  -- pressed twice and no joystick moves.
  pub handle_keyboard_event-repeat :
      (to_lower_case : String → String) (input : InputMappingKeyboardInput)
      (s : InputMappingRuntime n)
      → input.repeat ≡ true
      → (handle_keyboard_event n to_lower_case press input s).0 ≡ s
  unfolding handle_keyboard_event handle_bindings
  handle_keyboard_event-repeat to_lower_case input s repeats = ground (
    arith,
    execute_bindings-repeatable (get_or_else (keyboard_bindings n to_lower_case input s) []) s,
  )

  abbrev group_of : InputMappingBinding n → Joystick n → String
  group_of binding action = get_joystick_group n (virtual_joystick action) binding.id

  -- The group of a joystick that one key holds.
  abbrev held_group :
      InputMappingBinding n → Joystick n → CompiledInputMappingProfile n → JoystickGroupState n
  held_group binding action compiled = record {
    center = action.center;
    radius = action.radius;
    active_binding_ids = binding.id ∷ [];
    point = resolve_virtual_joystick_point n action.center action.radius (
        normalize_direction n (
          sum_directions n (binding.id ∷ []) (origin n) (
            get_or_else (get str_eq (group_of binding action) compiled.joystick_bindings_by_group)
              [])));
    is_down = true;
  }

  update_joystick_binding-press :
      (binding : InputMappingBinding n) (action : Joystick n)
      (compiled : CompiledInputMappingProfile n) (s : InputMappingRuntime n)
      → s.compiled_profile ≡ some compiled
      → get_entry (group_of binding action) s.active_joystick_groups ≡ none
      → (update_joystick_binding n binding action true s).0
        ≡ with_groups n s (
            set_entry
              (group_of binding action)
              (held_group binding action compiled)
              s.active_joystick_groups)
  unfolding update_joystick_binding move_joystick
  update_joystick_binding-press binding action compiled s compiles absent = ground arith

  update_joystick_binding-release :
      (binding : InputMappingBinding n) (action : Joystick n)
      (compiled : CompiledInputMappingProfile n) (s : InputMappingRuntime n)
      → s.compiled_profile ≡ some compiled
      → get_entry (group_of binding action) s.active_joystick_groups
        ≡ some (held_group binding action compiled)
      → update_joystick_binding n binding action false s ≡ (
        with_groups n s (delete_entry (group_of binding action) s.active_joystick_groups),
        touch_command n touch_move
              (joystick_pointer_key n (group_of binding action))
              action.center
              1
              none
            ∷ touch_command n touch_up
                (joystick_pointer_key n (group_of binding action))
                action.center
                0
                none
            ∷ [],
      )
  unfolding update_joystick_binding move_joystick
  update_joystick_binding-release binding action compiled s compiles held =
      ground (arith, str_eq_refl binding.id)

  -- A joystick that no key holds: the press and then the release of one key leave the runtime as it
  -- was, and the release sends the joystick's pointer back to the centre and up.
  pub update_joystick_binding_lem :
      (binding : InputMappingBinding n) (action : Joystick n)
      (compiled : CompiledInputMappingProfile n) (s : InputMappingRuntime n)
      → s.compiled_profile ≡ some compiled
      → get_entry (group_of binding action) s.active_joystick_groups ≡ none
      → update_joystick_binding n binding action false
          (update_joystick_binding n binding action true s).0
        ≡ (
          s,
          touch_command n touch_move
                (joystick_pointer_key n (group_of binding action))
                action.center
                1
                none
              ∷ touch_command n touch_up
                  (joystick_pointer_key n (group_of binding action))
                  action.center
                  0
                  none
              ∷ [],
        )
  update_joystick_binding_lem binding action compiled s compiles absent =
      let held = held_group binding action compiled in
      let key = group_of binding action in
      let groups = set_entry key held s.active_joystick_groups in
      rw
        (
          update_joystick_binding-press binding action compiled s compiles absent,
          update_joystick_binding-release binding action compiled (with_groups n s groups) compiles
              (get_entry-set_entry key held s.active_joystick_groups),
          delete_entry-set_entry key held s.active_joystick_groups absent,
        )
        refl
