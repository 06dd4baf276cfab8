-- ===== src/Mapping/Compiler.antt =====
-- AYLink.Web/src/features/inputMapping/inputMappingCompiler.ts. A `Map` from a key to bindings is an
-- association list in the order of insertion; the exception of an invalid profile is none.
use aylink_extra.Prelude.{
  ℕ, List, [], ◌∷◌, ◌++◌, Bool, true, false, ◌==◌, if◌then◌else◌, Option, none, some,
}
use aylink_extra.Prelude.Text.{String, str_eq}
use aylink_extra.Prelude.Numbers.{Numbers}
use aylink_extra.Mapping.Schema.{
  WheelDirection, up, down, InputMappingTrigger, keyboard, mouse_button, mouse_wheel, mouse_move,
  InputMappingAction, virtual_joystick, mouse_look, InputMappingBinding, InputMappingProfile,
}
use aylink_extra.Mapping.Validator.{validate_input_mapping_profile}

abbrev pub direction_eq : WheelDirection → WheelDirection → Bool
direction_eq up up = true
direction_eq down down = true
direction_eq _ _ = false

module _ {ℓ κ} {K : Type ℓ} {A : Type κ} (eq : K → K → Bool) where
  -- `map.get(key)`
  unfoldable pub get : K → List (K × List A) → Option (List A)
  get key [] = none
  get key ((k, bindings) ∷ rest) = if eq k key then some bindings else get key rest

  unfoldable pub add_binding : List (K × List A) → K → A → List (K × List A)
  add_binding [] key binding = (key, binding ∷ []) ∷ []
  add_binding ((k, bindings) ∷ rest) key binding =
      if eq k key
      then (k, bindings ++ binding ∷ []) ∷ rest
      else (k, bindings) ∷ add_binding rest key binding

module _ (n : Numbers) where
  pub record CompiledInputMappingProfile : Type 0 where
    pub profile : InputMappingProfile n
    pub keyboard_bindings_by_code : List (String × List (InputMappingBinding n))
    pub mouse_button_bindings_by_button : List (ℕ × List (InputMappingBinding n))
    pub mouse_wheel_bindings_by_direction : List (WheelDirection × List (InputMappingBinding n))
    pub mouse_move_bindings : List (InputMappingBinding n)
    pub mouse_look_binding : Option (InputMappingBinding n)
    pub joystick_bindings_by_group : List (String × List (InputMappingBinding n))

  -- `action.group || `joystick:${bindingId}``
  unfoldable pub get_joystick_group : InputMappingAction n → String → String
  get_joystick_group (virtual_joystick action) binding_id = elim action.group [
    | none ↦ Prim.Native.String.◌++◌ "joystick:" binding_id
    | some group ↦ if str_eq group "" then Prim.Native.String.◌++◌ "joystick:" binding_id else group
  ]
  get_joystick_group _ binding_id = ""

  abbrev pub add_trigger :
      InputMappingTrigger
      → InputMappingBinding n
      → CompiledInputMappingProfile
      → CompiledInputMappingProfile
  add_trigger (keyboard code modifiers) binding c = record c {
    keyboard_bindings_by_code = add_binding str_eq c.keyboard_bindings_by_code code binding;
  }
  add_trigger (mouse_button button) binding c = record c {
    mouse_button_bindings_by_button =
        add_binding ◌==◌ c.mouse_button_bindings_by_button button binding;
  }
  add_trigger (mouse_wheel direction) binding c = record c {
    mouse_wheel_bindings_by_direction =
        add_binding direction_eq c.mouse_wheel_bindings_by_direction direction binding;
  }
  add_trigger (mouse_move activation) binding c = record c {
    mouse_move_bindings = c.mouse_move_bindings ++ binding ∷ [];
  }

  abbrev pub add_action :
      InputMappingAction n
      → InputMappingBinding n
      → CompiledInputMappingProfile
      → CompiledInputMappingProfile
  add_action (virtual_joystick action) binding c = record c {
    joystick_bindings_by_group =
        add_binding str_eq c.joystick_bindings_by_group
          (get_joystick_group (virtual_joystick action) binding.id) binding;
  }
  add_action (mouse_look action) binding c = record c { mouse_look_binding = some binding }
  add_action _ binding c = c

  -- The loop over the bindings.
  unfoldable pub compile_bindings :
      List (InputMappingBinding n) → CompiledInputMappingProfile → CompiledInputMappingProfile
  compile_bindings [] c = c
  compile_bindings (b ∷ bs) c =
      compile_bindings bs (add_action b.action b (add_trigger b.trigger b c))

  abbrev pub nothing_compiled : InputMappingProfile n → CompiledInputMappingProfile
  nothing_compiled profile = record {
    profile = profile;
    keyboard_bindings_by_code = [];
    mouse_button_bindings_by_button = [];
    mouse_wheel_bindings_by_direction = [];
    mouse_move_bindings = [];
    mouse_look_binding = none;
    joystick_bindings_by_group = [];
  }

  module _ (trim to_lower_case : String → String) where
    unfoldable pub compile_input_mapping_profile :
        InputMappingProfile n → Option CompiledInputMappingProfile
    unfolding compile_bindings validate_input_mapping_profile
    compile_input_mapping_profile profile =
        if validate_input_mapping_profile n trim to_lower_case profile
        then some (compile_bindings profile.bindings (nothing_compiled profile))
        else none
