-- ===== src/Mapping/HeldLook.antt =====
-- The state of the mouse look against the profile, over each handler of
-- AYLink.Web/src/features/inputMapping/inputMappingRuntime.ts.
use aylink_extra.Prelude.{
  ℕ, ◌≡◌, refl, ◌∙◌, arith, List, [], ◌∷◌, Bool, true, false, not, Option, get_or_else, keep, inl,
  inr, Bool-cases, Option-cases, is_some,
}
use aylink_extra.Prelude.Numbers.{Numbers}
use aylink_extra.Mapping.Schema.{
  rapid_tap, hold, virtual_joystick, mouse_look, Joystick, MouseLook, InputMappingAction,
  InputMappingBinding,
}
use aylink_extra.Mapping.Commands.{TouchPhase, touch_up}
use aylink_extra.Mapping.Compiler.{direction_eq, get}
use aylink_extra.Mapping.Runtime.{
  InputPhase, press, release, InputMappingMouseMoveInput, InputMappingRuntime,
}
use aylink_extra.Mapping.Joystick.{move_joystick, update_joystick_binding}
use aylink_extra.Mapping.Bindings.{
  execute_down, execute_up, execute_binding_down, execute_binding_up,
}
use aylink_extra.Mapping.Handlers.{
  execute_binding, execute_bindings, is_repeatable, mouse_button_bindings, handle_bindings,
  handle_mouse_button_event, handle_mouse_wheel,
}
use aylink_extra.Mapping.MouseLook.{
  look_by, mouse_look_binding_of, release_mouse_look, move_mouse_look, handle_mouse_look,
  handle_mouse_move,
}
use aylink_extra.Mapping.Matching.{is_mouse_look_active, get_wheel_direction}

module _ (n : Numbers) where
  open n use {Num}

  -- The part of the state that the bindings do not touch.
  abbrev pub SameLook : InputMappingRuntime n → InputMappingRuntime n → Type 0
  SameLook s t =
      (t.compiled_profile ≡ s.compiled_profile) × (t.mouse_look_state ≡ s.mouse_look_state)

  update_joystick_binding-SameLook :
      (binding : InputMappingBinding n) (action : Joystick n) (is_down : Bool)
      (s : InputMappingRuntime n)
      → SameLook s (update_joystick_binding n binding action is_down s).0
  unfolding update_joystick_binding move_joystick
  update_joystick_binding-SameLook binding action is_down s = ground arith

  execute_down-SameLook :
      (action : InputMappingAction n) (binding : InputMappingBinding n) (s : InputMappingRuntime n)
      → SameLook s (execute_down n action binding s).0
  unfolding execute_down
  execute_down-SameLook (rapid_tap action) binding s = ground arith
  execute_down-SameLook (hold point) binding s = ground arith
  execute_down-SameLook (virtual_joystick action) binding s =
      ground (arith, update_joystick_binding-SameLook binding action true s)
  execute_down-SameLook _ binding s = (refl, refl)

  execute_up-SameLook :
      (action : InputMappingAction n) (binding : InputMappingBinding n) (s : InputMappingRuntime n)
      → SameLook s (execute_up n action binding s).0
  unfolding execute_up
  execute_up-SameLook (rapid_tap action) binding s = ground arith
  execute_up-SameLook (hold point) binding s = ground arith
  execute_up-SameLook (virtual_joystick action) binding s =
      ground (arith, update_joystick_binding-SameLook binding action false s)
  execute_up-SameLook _ binding s = (refl, refl)

  execute_binding-SameLook :
      (phase : InputPhase) (binding : InputMappingBinding n) (s : InputMappingRuntime n)
      → SameLook s (execute_binding n phase binding s).0
  unfolding execute_binding_down execute_binding_up
  execute_binding-SameLook press binding s = execute_down-SameLook binding.action binding s
  execute_binding-SameLook release binding s = execute_up-SameLook binding.action binding s

  execute_bindings-SameLook :
      (phase : InputPhase) (bindings : List (InputMappingBinding n)) (s : InputMappingRuntime n)
      → SameLook s (execute_bindings n phase bindings s).0
  unfolding execute_bindings
  execute_bindings-SameLook phase [] s = (refl, refl)
  execute_bindings-SameLook phase (b ∷ bs) s =
      let first = execute_binding-SameLook phase b s in
      let others = execute_bindings-SameLook phase bs (execute_binding n phase b s).0 in
      (others.0 ∙ first.0, others.1 ∙ first.1)

  handle_bindings-SameLook :
      (phase : InputPhase) (bindings : Option (List (InputMappingBinding n))) (repeat : Bool)
      (s : InputMappingRuntime n)
      → SameLook s (handle_bindings n phase bindings repeat s).0
  unfolding handle_bindings
  handle_bindings-SameLook phase bindings repeat s = ground (
    arith,
    execute_bindings-SameLook phase (get_or_else bindings []) s,
    execute_bindings-SameLook phase (keep (is_repeatable n) (get_or_else bindings [])) s,
  )

  -- The mouse holds a touch only while the profile maps its movement.
  abbrev pub IsHeld : InputMappingRuntime n → Type 0
  IsHeld s =
      s.mouse_look_state.is_down ≡ true
      → is_some (mouse_look_binding_of n s.compiled_profile) ≡ true

  SameLook-IsHeld : (s t : InputMappingRuntime n) → SameLook s t → IsHeld s → IsHeld t
  SameLook-IsHeld s t same h = ground arith

  release_mouse_look_keeps :
      (phase : TouchPhase) (s : InputMappingRuntime n)
      → IsHeld s
      → IsHeld (release_mouse_look n phase s).0
  unfolding release_mouse_look
  release_mouse_look_keeps phase s h = ground arith

  move_mouse_look-profile :
      (action : MouseLook n) (input : InputMappingMouseMoveInput n) (s : InputMappingRuntime n)
      → (move_mouse_look n action input s).0.compiled_profile ≡ s.compiled_profile
  unfolding move_mouse_look
  move_mouse_look-profile action input s = ground arith

  handle_mouse_look_moves :
      (action : InputMappingAction n) (binding : InputMappingBinding n)
      (input : InputMappingMouseMoveInput n) (s : InputMappingRuntime n)
      → is_some (mouse_look_binding_of n s.compiled_profile) ≡ true
      → IsHeld s
      → IsHeld (look_by n action binding input s).0
  handle_mouse_look_moves (mouse_look action) binding input s there h =
      elim (Bool-cases (not (is_mouse_look_active n binding input))) [
        | inl off ↦ rw off (release_mouse_look_keeps touch_up s h)
        | inr on ↦ rw (on, move_mouse_look-profile action input s) (λ down. there)
      ]
  handle_mouse_look_moves _ binding input s there h = h

  handle_mouse_look-IsHeld :
      (input : InputMappingMouseMoveInput n) (s : InputMappingRuntime n)
      → IsHeld s
      → IsHeld (handle_mouse_look n input s).0
  unfolding handle_mouse_look
  handle_mouse_look-IsHeld input s h =
      elim (Option-cases (mouse_look_binding_of n s.compiled_profile)) [
        | inl e ↦ ground arith
        | inr (binding, e) ↦
            rw (e, handle_mouse_look)
              (handle_mouse_look_moves binding.action binding input s (rw e refl) h)
      ]

  pub handle_mouse_move-IsHeld :
      (input : InputMappingMouseMoveInput n) (s : InputMappingRuntime n)
      → IsHeld s
      → IsHeld (handle_mouse_move n input s).0
  unfolding handle_mouse_move
  handle_mouse_move-IsHeld input s h = ground (arith, handle_mouse_look-IsHeld input s h)

  pub handle_bindings-IsHeld :
      (phase : InputPhase) (bindings : Option (List (InputMappingBinding n))) (repeat : Bool)
      (s : InputMappingRuntime n)
      → IsHeld s
      → IsHeld (handle_bindings n phase bindings repeat s).0
  handle_bindings-IsHeld phase bindings repeat s h =
      SameLook-IsHeld s (handle_bindings n phase bindings repeat s).0
        (handle_bindings-SameLook phase bindings repeat s) h

  pub handle_mouse_button_event-IsHeld :
      (phase : InputPhase) (button : ℕ) (s : InputMappingRuntime n)
      → IsHeld s
      → IsHeld (handle_mouse_button_event n phase button s).0
  unfolding handle_mouse_button_event
  handle_mouse_button_event-IsHeld phase button s h =
      let handled = handle_bindings n phase (mouse_button_bindings n button s) false s in
      let k = handle_bindings-IsHeld phase (mouse_button_bindings n button s) false s h in
      ground (arith, k, release_mouse_look_keeps touch_up handled.0 k)

  pub handle_mouse_wheel-IsHeld :
      (delta_y : n.Num) (s : InputMappingRuntime n)
      → IsHeld s
      → IsHeld (handle_mouse_wheel n delta_y s).0
  unfolding handle_mouse_wheel
  handle_mouse_wheel-IsHeld delta_y s h = elim (Option-cases s.compiled_profile) [
    | inl e ↦ ground arith
    | inr (compiled, e) ↦ rw e (
        ground (
          arith,
          handle_bindings-IsHeld press
              (get direction_eq (get_wheel_direction n delta_y)
                compiled.mouse_wheel_bindings_by_direction)
              false s h,
        ))
  ]
