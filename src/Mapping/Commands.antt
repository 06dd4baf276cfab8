-- ===== src/Mapping/Commands.antt =====
-- AYLink.Web/src/features/inputMapping/inputMappingCommands.ts.
use aylink_extra.Prelude.{ℕ, List, [], ◌∷◌, Bool, true, false, Option}
use aylink_extra.Prelude.Int.{ℤ}
use aylink_extra.Prelude.Text.{String}
use aylink_extra.Prelude.Numbers.{Numbers}
use aylink_extra.Mapping.Schema.{NormalizedPoint}

pub data TouchPhase : Type 0 where
  touch_down touch_move touch_up touch_cancel : TouchPhase

pub data HidPhase : Type 0 where
  hid_down hid_up : HidPhase

module _ (n : Numbers) where
  open n use {Num}

  pub record Touch : Type 0 where
    pub phase : TouchPhase
    pub pointer_key : String
    pub point : NormalizedPoint n
    pub pressure : Num
    pub delay_ms : Option Num

  pub data InputMappingCommand : Type 0 where
    touch : Touch → InputMappingCommand
    touch_repeat :
        (pointer_key : String) (point : NormalizedPoint n) (interval_ms down_ms : ℤ)
        → InputMappingCommand
    stop_touch_repeat : (pointer_key : String) → InputMappingCommand
    hid_key_command : HidPhase → (code : String) → InputMappingCommand
    hid_mouse_button_command : HidPhase → (button : ℕ) → InputMappingCommand
    hid_mouse_wheel : (delta_y : Num) → InputMappingCommand

  pub record InputMappingRuntimeResult : Type 0 where
    pub handled : Bool
    pub commands : List InputMappingCommand

-- `commands.length > 0`
abbrev pub is_nonempty {ℓ} : {A : Type ℓ} → List A → Bool
is_nonempty [] = false
is_nonempty (x ∷ xs) = true

module _ {n : Numbers} where
  abbrev pub create_input_mapping_result :
      List (InputMappingCommand n) → InputMappingRuntimeResult n
  create_input_mapping_result commands = record {
    handled = is_nonempty commands;
    commands = commands;
  }
