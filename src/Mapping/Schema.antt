-- ===== src/Mapping/Schema.antt =====
-- The types of AYLink.Web/src/features/inputMapping/inputMappingSchema.ts that the runtime reads.
-- Numbers that need not be integers are those of `Numbers`.
use aylink_extra.Prelude.{ℕ, List, Bool, Option}
use aylink_extra.Prelude.Text.{String}
use aylink_extra.Prelude.Numbers.{Numbers}

pub data WheelDirection : Type 0 where
  up down : WheelDirection

pub data Activation : Type 0 where
  pointer_lock right_button middle_button : Activation

pub data InputMappingTrigger : Type 0 where
  keyboard : (code : String) (modifiers : Option (List String)) → InputMappingTrigger
  mouse_button : (button : ℕ) → InputMappingTrigger
  mouse_wheel : (direction : WheelDirection) → InputMappingTrigger
  mouse_move : (activation : Activation) → InputMappingTrigger

pub data RapidTapMode : Type 0 where
  while_held burst : RapidTapMode

pub data ControlMode : Type 0 where
  slide tap_control : ControlMode

module _ (n : Numbers) where
  open n use {Num}

  pub record NormalizedPoint : Type 0 where
    pub x : Num
    pub y : Num

  pub record Joystick : Type 0 where
    pub center : NormalizedPoint
    pub radius : Num
    pub direction : NormalizedPoint
    pub group : Option String
    pub control_mode : Option ControlMode

  pub record RapidTap : Type 0 where
    pub point : NormalizedPoint
    pub mode : RapidTapMode
    pub taps_per_second : Num
    pub tap_count : Option Num

  pub record Swipe : Type 0 where
    pub from : NormalizedPoint
    pub to : NormalizedPoint
    pub duration_ms : Num
    pub path : Option (List NormalizedPoint)
    pub straight : Option Bool
    pub start_hold_ms : Option Num

  pub record MouseLook : Type 0 where
    pub touch_start : NormalizedPoint
    pub sensitivity_x : Num
    pub sensitivity_y : Num
    pub invert_y : Option Bool
    pub max_step : Option Num
    pub range_x : Option Num
    pub range_y : Option Num

  pub data InputMappingAction : Type 0 where
    tap : (point : NormalizedPoint) (duration_ms : Option Num) → InputMappingAction
    rapid_tap : RapidTap → InputMappingAction
    hold : (point : NormalizedPoint) → InputMappingAction
    virtual_joystick : Joystick → InputMappingAction
    swipe : Swipe → InputMappingAction
    mouse_look : MouseLook → InputMappingAction
    hid_key : (code : String) → InputMappingAction
    hid_mouse_button : (button : ℕ) → InputMappingAction

  -- Of a sticker only the opacity can be out of range.
  pub record InputMappingSticker : Type 0 where
    pub opacity : Option Num

  pub record InputMappingBinding : Type 0 where
    pub id : String
    pub label : String
    pub trigger : InputMappingTrigger
    pub action : InputMappingAction
    pub sticker : Option InputMappingSticker

  pub record InputMappingProfile : Type 0 where
    pub schema_version : ℕ
    pub id : String
    pub name : String
    pub bindings : List InputMappingBinding
