-- ===== src/Mapping/Validator.antt =====
-- The checks of AYLink.Web/src/features/inputMapping/inputMappingValidator.ts on a profile whose values
-- have the types of the schema: whether there is no issue. The issues' paths and messages, and the
-- checks of types that untyped JSON needs, are left out. `trim` and `toLowerCase` are parameters.
use aylink_extra.Prelude.{
  ℕ, ◌+◌, List, [], ◌∷◌, Bool, true, false, not, ◌&&◌, ◌==◌, leb, if◌then◌else◌, Option, none, some,
  any, length,
}
use aylink_extra.Prelude.Int.{pos}
use aylink_extra.Prelude.Text.{String, str_eq}
use aylink_extra.Prelude.Numbers.{Numbers}
use aylink_extra.Mapping.Schema.{
  InputMappingTrigger, keyboard, mouse_button, mouse_wheel, mouse_move, while_held, burst,
  NormalizedPoint, Joystick, RapidTap, Swipe, MouseLook, InputMappingAction, tap, rapid_tap, hold,
  virtual_joystick, swipe, mouse_look, hid_key, hid_mouse_button, InputMappingSticker,
  InputMappingBinding, InputMappingProfile,
}

abbrev pub input_mapping_schema_version : ℕ
input_mapping_schema_version = 1

abbrev pub all {ℓ} : {A : Type ℓ} → (A → Bool) → List A → Bool
all p [] = true
all p (x ∷ xs) = p x && all p xs

-- A check of a value that may be missing.
abbrev pub if_given {ℓ} : {A : Type ℓ} → Option A → (A → Bool) → Bool
if_given none check = true
if_given (some a) check = check a

abbrev allowed_modifiers : List String
allowed_modifiers = "alt" ∷ "ctrl" ∷ "control" ∷ "meta" ∷ "cmd" ∷ "command" ∷ "shift" ∷ []

module _ (n : Numbers) (trim to_lower_case : String → String) where
  open n use {Num, int, lt, le, is_finite, is_integer}

  abbrev zero_num : Num
  zero_num = int (pos 0)

  abbrev one_num : Num
  one_num = int (pos 1)

  abbrev is_blank : String → Bool
  is_blank text = str_eq (trim text) ""

  -- A finite number from 0 to 1, and one that is above 0 too.
  abbrev in_unit : Num → Bool
  in_unit value = is_finite value && not (lt value zero_num) && not (lt one_num value)

  abbrev in_positive_unit : Num → Bool
  in_positive_unit value = is_finite value && not (le value zero_num) && not (lt one_num value)

  abbrev is_nonnegative : Num → Bool
  is_nonnegative value = is_finite value && not (lt value zero_num)

  abbrev is_positive : Num → Bool
  is_positive value = is_finite value && not (le value zero_num)

  unfoldable pub validate_normalized_point : NormalizedPoint n → Bool
  validate_normalized_point point = in_unit point.x && in_unit point.y

  unfoldable pub validate_direction : NormalizedPoint n → Bool
  validate_direction direction = is_finite direction.x && is_finite direction.y

  abbrev is_modifier : String → Bool
  is_modifier modifier =
      any (λ allowed. str_eq (to_lower_case (trim modifier)) allowed) allowed_modifiers

  unfoldable pub validate_trigger : InputMappingTrigger → Bool
  validate_trigger (keyboard code modifiers) =
      not (is_blank code) && if_given modifiers (λ ms. all is_modifier ms)
  validate_trigger (mouse_button button) = true
  validate_trigger (mouse_wheel direction) = true
  validate_trigger (mouse_move activation) = true

  abbrev is_burst_count : Option Num → Bool
  is_burst_count none = false
  is_burst_count (some count) =
      is_integer count && not (le count zero_num) && not (lt (int (pos 200)) count)

  abbrev validate_tap_count : RapidTap n → Bool
  validate_tap_count action = elim action.mode [
    | burst ↦ is_burst_count action.tap_count
    | while_held ↦ true
  ]

  unfoldable pub validate_rapid_tap_action : RapidTap n → Bool
  unfolding validate_normalized_point
  validate_rapid_tap_action action =
      validate_normalized_point action.point
      && is_positive action.taps_per_second
      && not (lt (int (pos 60)) action.taps_per_second)
      && validate_tap_count action

  unfoldable pub validate_virtual_joystick_action : Joystick n → Bool
  unfolding validate_normalized_point validate_direction
  validate_virtual_joystick_action action =
      validate_normalized_point action.center
      && validate_direction action.direction
      && in_positive_unit action.radius

  unfoldable pub validate_swipe_action : Swipe n → Bool
  unfolding validate_normalized_point
  validate_swipe_action action =
      validate_normalized_point action.from
      && validate_normalized_point action.to
      && if_given action.path (λ path. leb 2 (length path) && all validate_normalized_point path)
      && if_given action.start_hold_ms is_nonnegative
      && is_positive action.duration_ms

  unfoldable pub validate_mouse_look_action : MouseLook n → Bool
  unfolding validate_normalized_point
  validate_mouse_look_action action =
      validate_normalized_point action.touch_start
      && is_positive action.sensitivity_x
      && is_positive action.sensitivity_y
      && if_given action.max_step in_positive_unit
      && if_given action.range_x in_positive_unit
      && if_given action.range_y in_positive_unit

  unfoldable pub validate_action : InputMappingAction n → Bool
  unfolding validate_normalized_point validate_rapid_tap_action validate_virtual_joystick_action
      validate_swipe_action validate_mouse_look_action
  validate_action (tap point duration_ms) =
      validate_normalized_point point && if_given duration_ms is_nonnegative
  validate_action (rapid_tap action) = validate_rapid_tap_action action
  validate_action (hold point) = validate_normalized_point point
  validate_action (virtual_joystick action) = validate_virtual_joystick_action action
  validate_action (swipe action) = validate_swipe_action action
  validate_action (mouse_look action) = validate_mouse_look_action action
  validate_action (hid_key code) = not (is_blank code)
  validate_action (hid_mouse_button button) = true

  unfoldable pub validate_sticker : Option (InputMappingSticker n) → Bool
  validate_sticker none = true
  validate_sticker (some sticker) = if_given sticker.opacity in_unit

  unfoldable pub validate_binding : InputMappingBinding n → Bool
  unfolding validate_trigger validate_action validate_sticker
  validate_binding binding =
      not (is_blank binding.id)
      && not (is_blank binding.label)
      && validate_trigger binding.trigger
      && validate_action binding.action
      && validate_sticker binding.sticker

  abbrev pub is_mouse_look : InputMappingAction n → Bool
  is_mouse_look (mouse_look action) = true
  is_mouse_look _ = false

  -- The loop over the bindings: each is valid, and no id was seen before.
  unfoldable pub validate_bindings : List String → List (InputMappingBinding n) → Bool
  unfolding validate_binding
  validate_bindings seen [] = true
  validate_bindings seen (b ∷ bs) =
      validate_binding b
      && not (any (λ id. str_eq id b.id) seen)
      && validate_bindings (b.id ∷ seen) bs

  unfoldable pub mouse_look_count : List (InputMappingBinding n) → ℕ
  mouse_look_count [] = 0
  mouse_look_count (b ∷ bs) = (if is_mouse_look b.action then 1 else 0) + mouse_look_count bs

  unfoldable pub validate_input_mapping_profile : InputMappingProfile n → Bool
  unfolding validate_bindings mouse_look_count
  validate_input_mapping_profile profile =
      profile.schema_version == input_mapping_schema_version
      && not (is_blank profile.id)
      && not (is_blank profile.name)
      && validate_bindings [] profile.bindings
      && leb (mouse_look_count profile.bindings) 1
