-- ===== src/Mapping/Cancels.antt =====
-- The commands of `releaseAll` of AYLink.Web/src/features/inputMapping/inputMappingRuntime.ts against what
-- the runtime holds.
use aylink_extra.Prelude.{
  ◌≡◌, ◌⊎◌, refl, ap, arith, List, [], ◌∷◌, ◌++◌, true, none, some, inl, inr, Bool-cases,
}
use aylink_extra.Prelude.Text.{String, str_eq, str_eq_sound}
use aylink_extra.Prelude.Numbers.{Numbers}
use aylink_extra.Mapping.Commands.{touch_cancel, InputMappingCommand, stop_touch_repeat}
use aylink_extra.Mapping.Gestures.{touch_command}
use aylink_extra.Mapping.Runtime.{
  ActiveTouchState, JoystickGroupState, InputMappingRuntime, get_entry, has_element,
}
use aylink_extra.Mapping.Joystick.{joystick_pointer_key}
use aylink_extra.Mapping.Handlers.{
  cancel_touches, cancel_groups, stop_rapid_taps, cleared, release_all,
}
use aylink_extra.Mapping.MouseLook.{release_mouse_look, mouse_look_binding_of}
use aylink_extra.Mapping.Schema.{InputMappingBinding}

module _ {A : Type 0} where
  abbrev pub Contains : A → List A → Type 0
  Contains a [] = ⊥
  Contains a (x ∷ xs) = (x ≡ a) ⊎ Contains a xs

  pub Contains-front : (a : A) (xs ys : List A) → Contains a xs → Contains a (xs ++ ys)
  Contains-front a [] ys h = elim h [ ]
  Contains-front a (x ∷ xs) ys h = elim h [ inl e ↦ inl e | inr k ↦ inr (Contains-front a xs ys k) ]

  pub Contains-back : (a : A) (xs ys : List A) → Contains a ys → Contains a (xs ++ ys)
  Contains-back a [] ys h = h
  Contains-back a (x ∷ xs) ys h = inr (Contains-back a xs ys h)

module _ (n : Numbers) where
  abbrev pub cancel_of : ActiveTouchState n → InputMappingCommand n
  cancel_of active = touch_command n touch_cancel active.pointer_key active.point 0 none

  abbrev pub cancel_of_group : String → JoystickGroupState n → InputMappingCommand n
  cancel_of_group key group =
      touch_command n touch_cancel (joystick_pointer_key n key) group.point 0 none

  abbrev pub stop_of : String → InputMappingCommand n
  stop_of id = stop_touch_repeat (Prim.Native.String.◌++◌ "binding:" id)

  cancel_touches-Contains :
      (id : String) (active : ActiveTouchState n) (entries : List (String × ActiveTouchState n))
      → get_entry id entries ≡ some active
      → Contains (cancel_of active) (cancel_touches n entries)
  unfolding get_entry cancel_touches
  cancel_touches-Contains id active [] held = absurd (ground arith)
  cancel_touches-Contains id active ((k, v) ∷ rest) held = elim (Bool-cases (str_eq k id)) [
    | inl here ↦ inl (let same : v ≡ active = ground arith in ap cancel_of same)
    | inr later ↦ inr (cancel_touches-Contains id active rest (ground arith))
  ]

  cancel_groups-Contains :
      (key : String) (group : JoystickGroupState n) (entries : List (String × JoystickGroupState n))
      → get_entry key entries ≡ some group
      → group.is_down ≡ true
      → Contains (cancel_of_group key group) (cancel_groups n entries)
  unfolding get_entry cancel_groups
  cancel_groups-Contains key group [] held down = absurd (ground arith)
  cancel_groups-Contains key group ((k, v) ∷ rest) held down = elim (Bool-cases (str_eq k key)) [
    | inl here ↦
        let same : v ≡ group = ground arith in
        let same_key = str_eq_sound k key here in rw (same, same_key, down) (inl refl)
    | inr later ↦
        let others = cancel_groups-Contains key group rest (ground arith) down in
        elim (Bool-cases v.is_down) [
          | inl there ↦ rw there (inr others)
          | inr gone ↦ rw gone others
        ]
  ]

  stop_rapid_taps-Contains :
      (id : String) (ids : List String)
      → has_element id ids ≡ true
      → Contains (stop_of id) (stop_rapid_taps n ids)
  unfolding stop_rapid_taps
  stop_rapid_taps-Contains id [] held = absurd (ground arith)
  stop_rapid_taps-Contains id (j ∷ ids) held = elim (Bool-cases (str_eq j id)) [
    | inl here ↦ inl (ap stop_of (str_eq_sound j id here))
    | inr later ↦ inr (stop_rapid_taps-Contains id ids (ground arith))
  ]

  -- What a runtime holds down, as the command that lets it go.
  pub data IsDown (s : InputMappingRuntime n) : InputMappingCommand n → Type 0 where
    touching :
        (id : String) (active : ActiveTouchState n)
        → get_entry id s.active_touches ≡ some active
        → IsDown s (cancel_of active)
    steering :
        (key : String) (group : JoystickGroupState n)
        → get_entry key s.active_joystick_groups ≡ some group
        → group.is_down ≡ true
        → IsDown s (cancel_of_group key group)

  abbrev pub cancel_of_look : InputMappingRuntime n → InputMappingCommand n
  cancel_of_look s = touch_command n touch_cancel "mouseLook" s.mouse_look_state.point 0 none

  -- And what else it has begun.
  pub data IsOwed (s : InputMappingRuntime n) : InputMappingCommand n → Type 0 where
    owed_down : {c : InputMappingCommand n} → IsDown s c → IsOwed s c
    tapping :
        (id : String) → has_element id s.active_rapid_tap_bindings ≡ true → IsOwed s (stop_of id)
    looking :
        (binding : InputMappingBinding n)
        → mouse_look_binding_of n s.compiled_profile ≡ some binding
        → s.mouse_look_state.is_down ≡ true
        → IsOwed s (cancel_of_look s)

  -- The touches and the joysticks are cancelled before anything else is sent.
  pub IsDown-Contains :
      (s : InputMappingRuntime n) (c : InputMappingCommand n)
      → IsDown s c
      → Contains c (cancel_touches n s.active_touches ++ cancel_groups n s.active_joystick_groups)
  IsDown-Contains s c (touching id active held) =
      Contains-front c (cancel_touches n s.active_touches)
        (cancel_groups n s.active_joystick_groups)
        (cancel_touches-Contains id active s.active_touches held)
  IsDown-Contains s c (steering key group held down) =
      Contains-back c (cancel_touches n s.active_touches) (cancel_groups n s.active_joystick_groups)
        (cancel_groups-Contains key group s.active_joystick_groups held down)

  look-Contains :
      (s : InputMappingRuntime n) (binding : InputMappingBinding n)
      → mouse_look_binding_of n s.compiled_profile ≡ some binding
      → s.mouse_look_state.is_down ≡ true
      → Contains (cancel_of_look s) (release_mouse_look n touch_cancel (cleared n s)).1
  unfolding release_mouse_look
  look-Contains s binding bound down = rw (bound, release_mouse_look, down) (inl refl)

  -- Whatever the runtime holds is let go of by `releaseAll`: each active touch, each joystick that is
  -- down and the touch of the mouse look is cancelled under its pointer key and at its point, and each
  -- active rapid tap is stopped, whichever of them there are.
  pub release_all-Contains :
      (s : InputMappingRuntime n) (c : InputMappingCommand n)
      → IsOwed s c
      → Contains c (release_all n s).1
  unfolding release_all
  release_all-Contains s c (owed_down held) =
      let pressed = cancel_touches n s.active_touches ++ cancel_groups n s.active_joystick_groups in
      let taps = stop_rapid_taps n s.active_rapid_tap_bindings in
      Contains-front c (pressed ++ taps) (release_mouse_look n touch_cancel (cleared n s)).1
        (Contains-front c pressed taps (IsDown-Contains s c held))
  release_all-Contains s c (tapping id tapped) =
      let pressed = cancel_touches n s.active_touches ++ cancel_groups n s.active_joystick_groups in
      let taps = stop_rapid_taps n s.active_rapid_tap_bindings in
      Contains-front c (pressed ++ taps) (release_mouse_look n touch_cancel (cleared n s)).1 (
        Contains-back c pressed taps
          (stop_rapid_taps-Contains id s.active_rapid_tap_bindings tapped))
  release_all-Contains s c (looking binding bound down) =
      let pressed = cancel_touches n s.active_touches ++ cancel_groups n s.active_joystick_groups in
      let taps = stop_rapid_taps n s.active_rapid_tap_bindings in
      Contains-back c (pressed ++ taps) (release_mouse_look n touch_cancel (cleared n s)).1
        (look-Contains s binding bound down)
