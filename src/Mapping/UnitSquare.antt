-- ===== src/Mapping/UnitSquare.antt =====
-- Where the points of the touches lie that AYLink.Web/src/features/inputMapping/inputMappingCoordinates.ts
-- and inputMappingRuntime.ts compute.
use aylink_extra.Prelude.{if_keeps, ◌≡◌, true, if◌then◌else◌, inl, inr, Bool-cases}
use aylink_extra.Prelude.Int.{pos}
use aylink_extra.Prelude.Numbers.{Numbers}
use aylink_extra.Mapping.Schema.{NormalizedPoint, MouseLook}
use aylink_extra.Mapping.Coordinates.{
  add_normalized_points, clamp_normalized_value, clamp_normalized_point, normalize_direction,
  resolve_virtual_joystick_point,
}
use aylink_extra.Mapping.Commands.{InputMappingRuntimeResult}
use aylink_extra.Mapping.Runtime.{InputMappingMouseMoveInput, InputMappingRuntime}
use aylink_extra.Mapping.MouseLook.{look_delta, move_mouse_look}

-- What IEEE doubles promise of `Math.max`, `Math.min` and `<=` on finite numbers.
pub record OrderLaws (n : Numbers) : Type 0 where
  pub zero_is_finite : n.is_finite (n.int (pos 0)) ≡ true
  pub one_is_finite : n.is_finite (n.int (pos 1)) ≡ true
  pub least_is_finite :
      (a b : n.Num) → n.is_finite a ≡ true → n.is_finite b ≡ true → n.is_finite (n.least a b) ≡ true
  pub le_greatest :
      (a b : n.Num) → n.is_finite a ≡ true → n.is_finite b ≡ true → n.le a (n.greatest a b) ≡ true
  pub least_le :
      (a b : n.Num) → n.is_finite a ≡ true → n.is_finite b ≡ true → n.le (n.least a b) a ≡ true
  pub greatest_le :
      (a b c : n.Num) → n.le a c ≡ true → n.le b c ≡ true → n.le (n.greatest a b) c ≡ true
  pub zero_le_zero : n.le (n.int (pos 0)) (n.int (pos 0)) ≡ true
  pub zero_le_one : n.le (n.int (pos 0)) (n.int (pos 1)) ≡ true

module _ (n : Numbers) where
  -- From 0 to 1.
  abbrev pub IsUnit : n.Num → Type 0
  IsUnit v = (n.le (n.int (pos 0)) v ≡ true) × (n.le v (n.int (pos 1)) ≡ true)

  abbrev pub InUnitSquare : NormalizedPoint n → Type 0
  InUnitSquare p = IsUnit p.x × IsUnit p.y

module _ (n : Numbers) (laws : OrderLaws n) where
  clamp_normalized_value-IsUnit : (v : n.Num) → IsUnit n (clamp_normalized_value n v)
  unfolding clamp_normalized_value
  clamp_normalized_value-IsUnit v = elim (Bool-cases (n.is_finite v)) [
    | inl finite ↦
        let cut = laws.least_is_finite (n.int (pos 1)) v laws.one_is_finite finite in
        rw finite (
          laws.le_greatest (n.int (pos 0)) (n.least (n.int (pos 1)) v) laws.zero_is_finite cut,
          laws.greatest_le (n.int (pos 0)) (n.least (n.int (pos 1)) v) (n.int (pos 1))
              laws.zero_le_one (laws.least_le (n.int (pos 1)) v laws.one_is_finite finite),
        )
    | inr infinite ↦ rw infinite (laws.zero_le_zero, laws.zero_le_one)
  ]

  clamp_normalized_point-InUnitSquare :
      (p : NormalizedPoint n) → InUnitSquare n (clamp_normalized_point n p)
  unfolding clamp_normalized_point
  clamp_normalized_point-InUnitSquare p =
      (clamp_normalized_value-IsUnit p.x, clamp_normalized_value-IsUnit p.y)

  -- The point of a virtual joystick lies in the unit square, for any centre, radius and direction, under
  -- the laws of finite doubles.
  pub resolve_virtual_joystick_point-InUnitSquare :
      (center : NormalizedPoint n) (radius : n.Num) (direction : NormalizedPoint n)
      → InUnitSquare n (resolve_virtual_joystick_point n center radius direction)
  unfolding resolve_virtual_joystick_point
  resolve_virtual_joystick_point-InUnitSquare center radius direction =
      clamp_normalized_point-InUnitSquare (record {
        x = n.plus center.x (n.times (normalize_direction n direction).x radius);
        y = n.plus center.y (n.times (normalize_direction n direction).y radius);
      })

  -- A movement of the mouse leaves the touch of the mouse look in the unit square, from any state and for
  -- any movement, if it starts there, under the laws of finite doubles.
  pub move_mouse_look-InUnitSquare :
      (action : MouseLook n) (input : InputMappingMouseMoveInput n) (s : InputMappingRuntime n)
      → InUnitSquare n action.touch_start
      → InUnitSquare n (move_mouse_look n action input s).0.mouse_look_state.point
  unfolding move_mouse_look
  move_mouse_look-InUnitSquare action input s start =
      let from =
        if s.mouse_look_state.is_down then s.mouse_look_state.point else action.touch_start in
      if_keeps
        (λ (r : InputMappingRuntime n × InputMappingRuntimeResult n).
          InUnitSquare n r.0.mouse_look_state.point)
        _ _ _ start
        (clamp_normalized_point-InUnitSquare
          (add_normalized_points n from (look_delta n action input)))
