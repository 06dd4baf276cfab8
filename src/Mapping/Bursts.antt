-- ===== src/Mapping/Bursts.antt =====
-- The bursts of taps of AYLink.Web/src/features/inputMapping/inputMappingRuntime.ts: their number and
-- their times.
use aylink_extra.Prelude.{ℕ, get_elem?, List, some, suc, ◌≡◌}
use aylink_extra.Prelude.Int.{ℤ, pos, ◌*ℤ◌, ◌+ℤ◌}
use aylink_extra.Prelude.Text.{String}
use aylink_extra.Prelude.Numbers.{Numbers}
use aylink_extra.Mapping.Schema.{NormalizedPoint}
use aylink_extra.Mapping.Commands.{InputMappingCommand, touch, touch_down, touch_up}

-- The two commands from `position` on, for the tap with an index: what a reader of the device log expects.
abbrev pub IsTapAt :
    (n : Numbers) (index position : ℕ)
    → String
    → NormalizedPoint n
    → (interval_ms down_ms : ℤ) → List (InputMappingCommand n)
    → Type 0
IsTapAt n index position key point interval_ms down_ms cs =
    (get_elem? cs position
      ≡ some (
          touch (record {
            phase = touch_down;
            pointer_key = key;
            point = point;
            pressure = n.int (pos 1);
            delay_ms = some (n.int (pos index *ℤ interval_ms));
          })))
    × (get_elem? cs (suc position)
        ≡ some (
            touch (record {
              phase = touch_up;
              pointer_key = key;
              point = point;
              pressure = n.int (pos 0);
              delay_ms = some (n.int (pos index *ℤ interval_ms +ℤ down_ms));
            })))
