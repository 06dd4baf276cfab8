-- ===== src/Mapping/Matching.antt =====
-- When a binding matches an event, in
-- AYLink.Web/src/features/inputMapping/inputMappingRuntime.ts.
use Prim.Native.Nat.{bit_and}
use aylink_extra.Prelude.{
  List, [], ◌∷◌, Bool, true, false, not, ◌&&◌, ◌||◌, ◌==◌, if◌then◌else◌, get_or_else,
}
use aylink_extra.Prelude.Int.{pos}
use aylink_extra.Prelude.Text.{String, str_eq}
use aylink_extra.Prelude.Numbers.{Numbers}
use aylink_extra.Mapping.Schema.{
  WheelDirection, up, down, pointer_lock, right_button, middle_button, InputMappingTrigger,
  keyboard, mouse_move, InputMappingBinding,
}
use aylink_extra.Mapping.Runtime.{InputMappingKeyboardInput, InputMappingMouseMoveInput}

-- `modifier` in lower case.
unfoldable pub has_modifier : InputMappingKeyboardInput → String → Bool
has_modifier input modifier =
    if str_eq modifier "alt"
    then input.alt_key
    else if str_eq modifier "ctrl" || str_eq modifier "control"
    then input.ctrl_key
    else if str_eq modifier "meta" || str_eq modifier "cmd" || str_eq modifier "command"
    then input.meta_key
    else if str_eq modifier "shift"
    then input.shift_key
    else false

-- `list.every(test)`
abbrev pub every {ℓ} : {A : Type ℓ} → (A → Bool) → List A → Bool
every p [] = true
every p (x ∷ xs) = p x && every p xs

abbrev pub is_trigger_matched :
    (String → String) → InputMappingKeyboardInput → InputMappingTrigger → Bool
is_trigger_matched to_lower_case input (keyboard code modifiers) =
    every (λ m. has_modifier input (to_lower_case m)) (get_or_else modifiers [])
is_trigger_matched to_lower_case input _ = true

module _ (n : Numbers) where
  open n use {Num, int, ratio, plus, minus, times, over, abs, least, greatest, lt}

  unfoldable pub matches_keyboard_modifiers :
      (String → String) → InputMappingKeyboardInput → InputMappingBinding n → Bool
  matches_keyboard_modifiers to_lower_case input binding =
      is_trigger_matched to_lower_case input binding.trigger

  unfoldable pub get_wheel_direction : Num → WheelDirection
  get_wheel_direction delta_y = if lt delta_y (int (pos 0)) then up else down

  abbrev pub is_activated : InputMappingTrigger → InputMappingMouseMoveInput n → Bool
  is_activated (mouse_move activation) input = elim activation [
    | pointer_lock ↦ input.pointer_locked
    | right_button ↦ not (bit_and (get_or_else input.pressed_buttons 0) 2 == 0)
    | middle_button ↦ not (bit_and (get_or_else input.pressed_buttons 0) 4 == 0)
  ]
  is_activated _ input = false

  unfoldable pub is_mouse_look_active : InputMappingBinding n → InputMappingMouseMoveInput n → Bool
  is_mouse_look_active binding input = is_activated binding.trigger input
