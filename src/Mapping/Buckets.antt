-- ===== src/Mapping/Buckets.antt =====
-- What the compiled profile of AYLink.Web/src/features/inputMapping/inputMappingCompiler.ts finds for a
-- key, and what a profile that compiles is like.
use mathlib.Core.List.{append-nil, append_assoc}
use aylink_extra.Prelude.{
  ◌≡◌, refl, ◌∙◌, ap, sym, arith, List, [], ◌∷◌, ◌++◌, Bool, true, false, not, ◌&&◌, some, inl, inr,
  Bool-cases, get_or_else, keep, any, All, ◌≤◌, if◌then◌else◌, length,
}
use aylink_extra.Prelude.Text.{String, str_eq, str_eq_sound, str_eq_refl}
use aylink_extra.Prelude.Numbers.{Numbers}
use aylink_extra.Mapping.Schema.{
  InputMappingTrigger, keyboard, InputMappingAction, virtual_joystick, InputMappingBinding,
  InputMappingProfile, mouse_look,
}
use aylink_extra.Mapping.Validator.{
  validate_binding, validate_bindings, mouse_look_count, validate_input_mapping_profile,
  is_mouse_look,
}
use aylink_extra.Mapping.Compiler.{
  get, add_binding, CompiledInputMappingProfile, get_joystick_group, add_trigger, add_action,
  compile_bindings, nothing_compiled, compile_input_mapping_profile,
}

-- A stored key is not one that an equal key differs from.
stored_apart :
    (k stored key : String)
    → str_eq k stored ≡ false
    → str_eq k key ≡ true
    → str_eq stored key ≡ false
stored_apart k stored key e f = elim (Bool-cases (str_eq stored key)) [
  | inl g ↦ absurd (
      let same : k ≡ stored = str_eq_sound k key f ∙ sym (str_eq_sound stored key g) in
      ground (arith, str_eq_refl stored, ap (λ t. str_eq t stored) same))
  | inr g ↦ g
]

module _ {A : Type 0} where
  -- The bindings of a key.
  abbrev pub found : String → List (String × List A) → List A
  found key entries = get_or_else (get str_eq key entries) []

  abbrev one_if : Bool → A → List A
  one_if b x = if b then x ∷ [] else []

  found-add_binding :
      (entries : List (String × List A)) (stored key : String) (x : A)
      → found key (add_binding str_eq entries stored x)
        ≡ found key entries ++ one_if (str_eq stored key) x
  unfolding get add_binding
  found-add_binding [] stored key x = ground arith
  found-add_binding ((k, xs) ∷ rest) stored key x = elim (Bool-cases (str_eq k stored)) [
    | inl e ↦
        rw (e, sym (str_eq_sound k stored e))
          (elim (Bool-cases (str_eq k key)) [
            | inl f ↦ rw f refl
            | inr f ↦ rw f (sym (append-nil _))
          ])
    | inr e ↦ rw e (elim (Bool-cases (str_eq k key)) [
      | inl f ↦ rw (f, stored_apart k stored key e f) (sym (append-nil xs))
      | inr f ↦ rw f (found-add_binding rest stored key x)
    ])
  ]

module _ (n : Numbers) where
  abbrev pub is_key : String → InputMappingTrigger → Bool
  is_key code (keyboard c modifiers) = str_eq c code
  is_key code _ = false

  -- The bindings of a profile that a key triggers, in the profile's order.
  abbrev pub is_bound_to : String → InputMappingBinding n → Bool
  is_bound_to code binding = is_key code binding.trigger

  abbrev pub is_in : String → String → InputMappingAction n → Bool
  is_in group id (virtual_joystick action) =
      str_eq (get_joystick_group n (virtual_joystick action) id) group
  is_in group id _ = false

  -- The bindings of a profile that steer the joystick of a group, in the profile's order.
  abbrev pub is_in_group : String → InputMappingBinding n → Bool
  is_in_group group binding = is_in group binding.id binding.action

  add_trigger-keyboard :
      (trigger : InputMappingTrigger) (b : InputMappingBinding n)
      (c : CompiledInputMappingProfile n) (code : String)
      → found code (add_trigger n trigger b c).keyboard_bindings_by_code
        ≡ found code c.keyboard_bindings_by_code ++ one_if (is_key code trigger) b
  add_trigger-keyboard (keyboard k modifiers) b c code =
      found-add_binding c.keyboard_bindings_by_code k code b
  add_trigger-keyboard _ b c code = sym (append-nil _)

  add_trigger-joystick :
      (trigger : InputMappingTrigger) (b : InputMappingBinding n)
      (c : CompiledInputMappingProfile n)
      → (add_trigger n trigger b c).joystick_bindings_by_group ≡ c.joystick_bindings_by_group
  add_trigger-joystick (keyboard k modifiers) b c = refl
  add_trigger-joystick _ b c = refl

  add_action-keyboard :
      (action : InputMappingAction n) (b : InputMappingBinding n)
      (c : CompiledInputMappingProfile n)
      → (add_action n action b c).keyboard_bindings_by_code ≡ c.keyboard_bindings_by_code
  add_action-keyboard (virtual_joystick action) b c = refl
  add_action-keyboard _ b c = refl

  add_action-joystick :
      (action : InputMappingAction n) (b : InputMappingBinding n)
      (c : CompiledInputMappingProfile n) (group : String)
      → found group (add_action n action b c).joystick_bindings_by_group
        ≡ found group c.joystick_bindings_by_group ++ one_if (is_in group b.id action) b
  add_action-joystick (virtual_joystick action) b c group =
      found-add_binding c.joystick_bindings_by_group _ group b
  add_action-joystick _ b c group = sym (append-nil _)

  one_if-keep :
      (p : InputMappingBinding n → Bool) (xs : List (InputMappingBinding n))
      (b : InputMappingBinding n) (bs : List (InputMappingBinding n))
      → (xs ++ one_if (p b) b) ++ keep p bs ≡ xs ++ keep p (b ∷ bs)
  one_if-keep p xs b bs = elim (Bool-cases (p b)) [
    | inl e ↦ rw (e, append_assoc) refl
    | inr e ↦ rw (e, append-nil) refl
  ]

  compile_bindings-keyboard :
      (bs : List (InputMappingBinding n)) (c : CompiledInputMappingProfile n) (code : String)
      → found code (compile_bindings n bs c).keyboard_bindings_by_code
        ≡ found code c.keyboard_bindings_by_code ++ keep (is_bound_to code) bs
  unfolding compile_bindings
  compile_bindings-keyboard [] c code = sym (append-nil _)
  compile_bindings-keyboard (b ∷ bs) c code =
      let placed = add_trigger n b.trigger b c in
      compile_bindings-keyboard bs (add_action n b.action b placed) code
      ∙ ap (λ t. found code t ++ keep (is_bound_to code) bs) (add_action-keyboard b.action b placed)
      ∙ ap (λ (t : List (InputMappingBinding n)). t ++ keep (is_bound_to code) bs)
          (add_trigger-keyboard b.trigger b c code)
      ∙ one_if-keep (is_bound_to code) (found code c.keyboard_bindings_by_code) b bs

  compile_bindings-joystick :
      (bs : List (InputMappingBinding n)) (c : CompiledInputMappingProfile n) (group : String)
      → found group (compile_bindings n bs c).joystick_bindings_by_group
        ≡ found group c.joystick_bindings_by_group ++ keep (is_in_group group) bs
  unfolding compile_bindings
  compile_bindings-joystick [] c group = sym (append-nil _)
  compile_bindings-joystick (b ∷ bs) c group =
      let placed = add_trigger n b.trigger b c in
      compile_bindings-joystick bs (add_action n b.action b placed) group
      ∙ ap (λ (t : List (InputMappingBinding n)). t ++ keep (is_in_group group) bs)
          (add_action-joystick b.action b placed group)
      ∙ ap (λ t. (found group t ++ one_if (is_in_group group b) b) ++ keep (is_in_group group) bs)
          (add_trigger-joystick b.trigger b c)
      ∙ one_if-keep (is_in_group group) (found group c.joystick_bindings_by_group) b bs

  compiled_of :
      (trim to_lower_case : String → String) (profile : InputMappingProfile n)
      (compiled : CompiledInputMappingProfile n)
      → compile_input_mapping_profile n trim to_lower_case profile ≡ some compiled
      → (compiled ≡ compile_bindings n profile.bindings (nothing_compiled n profile))
        × (validate_input_mapping_profile n trim to_lower_case profile ≡ true)
  unfolding compile_input_mapping_profile
  compiled_of trim to_lower_case profile compiled compiles = ground arith

  -- Where a profile compiles, looking a key up gives the profile's bindings that the key triggers, and
  -- looking a group up those that steer its joystick: all of them, in the profile's order, and no other.
  pub compile_input_mapping_profile_lem :
      (trim to_lower_case : String → String) (profile : InputMappingProfile n)
      (compiled : CompiledInputMappingProfile n) (key : String)
      → compile_input_mapping_profile n trim to_lower_case profile ≡ some compiled
      → (found key compiled.keyboard_bindings_by_code ≡ keep (is_bound_to key) profile.bindings)
        × (found key compiled.joystick_bindings_by_group ≡ keep (is_in_group key) profile.bindings)
  unfolding get
  compile_input_mapping_profile_lem trim to_lower_case profile compiled key compiles =
      rw ((compiled_of trim to_lower_case profile compiled compiles).0) (
        compile_bindings-keyboard profile.bindings (nothing_compiled n profile) key,
        compile_bindings-joystick profile.bindings (nothing_compiled n profile) key,
      )

  -- No binding has the id of another.
  abbrev pub Distinct : List (InputMappingBinding n) → Type 0
  Distinct [] = Unit
  Distinct (b ∷ bs) = All (λ c. str_eq b.id c.id ≡ false) bs × Distinct bs

  abbrev Unseen : List String → List (InputMappingBinding n) → Type 0
  Unseen seen bs = All (λ c. any (λ id. str_eq id c.id) seen ≡ false) bs

  Unseen-head :
      (id : String) (seen : List String) (bs : List (InputMappingBinding n))
      → Unseen (id ∷ seen) bs
      → Unseen seen bs × All (λ c. str_eq id c.id ≡ false) bs
  Unseen-head id seen [] h = (tt, tt)
  Unseen-head id seen (b ∷ bs) h =
      let others = Unseen-head id seen bs h.1 in
      ((ground arith, others.0), (ground arith, others.1))

  conjuncts : (a b c : Bool) → a && not b && c ≡ true → (b ≡ false) × (c ≡ true)
  conjuncts a b c h = ground arith

  validate_bindings-Distinct :
      (trim to_lower_case : String → String) (seen : List String)
      (bs : List (InputMappingBinding n))
      → validate_bindings n trim to_lower_case seen bs ≡ true
      → Unseen seen bs × Distinct bs
  unfolding validate_bindings
  validate_bindings-Distinct trim to_lower_case seen [] h = (tt, tt)
  validate_bindings-Distinct trim to_lower_case seen (b ∷ bs) h =
      let parts =
        conjuncts (validate_binding n trim to_lower_case b) (any (λ id. str_eq id b.id) seen)
          (validate_bindings n trim to_lower_case (b.id ∷ seen) bs) h in
      let others = validate_bindings-Distinct trim to_lower_case (b.id ∷ seen) bs parts.1 in
      let split = Unseen-head b.id seen bs others.0 in ((parts.0, split.0), (split.1, others.1))

  -- The bindings that look around with the mouse.
  abbrev pub looks_around : InputMappingAction n → Bool
  looks_around (mouse_look action) = true
  looks_around _ = false

  is_mouse_look_lem :
      (trim to_lower_case : String → String) (action : InputMappingAction n)
      → is_mouse_look n trim to_lower_case action ≡ looks_around action
  is_mouse_look_lem trim to_lower_case action = ground arith

  abbrev pub looks : List (InputMappingBinding n) → List (InputMappingBinding n)
  looks bs = keep (λ b. looks_around b.action) bs

  mouse_look_count-eq :
      (trim to_lower_case : String → String) (bs : List (InputMappingBinding n))
      → mouse_look_count n trim to_lower_case bs ≡ length (looks bs)
  unfolding mouse_look_count
  mouse_look_count-eq trim to_lower_case [] = refl
  mouse_look_count-eq trim to_lower_case (b ∷ bs) = ground (
    arith,
    is_mouse_look_lem trim to_lower_case b.action,
    mouse_look_count-eq trim to_lower_case bs,
  )

  -- A profile that compiles has no two bindings of one id, and at most one mouse look.
  pub compile_input_mapping_profile-Distinct :
      (trim to_lower_case : String → String) (profile : InputMappingProfile n)
      (compiled : CompiledInputMappingProfile n)
      → compile_input_mapping_profile n trim to_lower_case profile ≡ some compiled
      → Distinct profile.bindings × (length (looks profile.bindings) ≤ 1)
  unfolding validate_input_mapping_profile
  compile_input_mapping_profile-Distinct trim to_lower_case profile compiled compiles =
      let valid = (compiled_of trim to_lower_case profile compiled compiles).1 in
      (
        (validate_bindings-Distinct trim to_lower_case [] profile.bindings (ground arith)).1,
        ground (arith, mouse_look_count-eq trim to_lower_case profile.bindings),
      )
