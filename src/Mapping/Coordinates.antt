-- ===== src/Mapping/Coordinates.antt =====
-- AYLink.Web/src/features/inputMapping/inputMappingCoordinates.ts, over the numbers of `Numbers`.
use aylink_extra.Prelude.{not, if◌then◌else◌}
use aylink_extra.Prelude.Int.{pos}
use aylink_extra.Prelude.Numbers.{Numbers}
use aylink_extra.Mapping.Schema.{NormalizedPoint}

module _ (n : Numbers) where
  open n use {Num, int, plus, times, over, least, greatest, hypot, le, is_finite}

  abbrev pub origin : NormalizedPoint n
  origin = record { x = int (pos 0); y = int (pos 0) }

  unfoldable pub clamp_normalized_value : Num → Num
  clamp_normalized_value value =
      if not (is_finite value)
      then int (pos 0)
      else greatest (int (pos 0)) (least (int (pos 1)) value)

  unfoldable pub clamp_normalized_point : NormalizedPoint n → NormalizedPoint n
  clamp_normalized_point point = record {
    x = clamp_normalized_value point.x;
    y = clamp_normalized_value point.y;
  }

  unfoldable pub add_normalized_points : NormalizedPoint n → NormalizedPoint n → NormalizedPoint n
  add_normalized_points a b = record { x = plus a.x b.x; y = plus a.y b.y }

  unfoldable pub normalize_direction : NormalizedPoint n → NormalizedPoint n
  normalize_direction direction =
      let size = hypot direction.x direction.y in
      if le size (int (pos 0))
      then origin
      else record { x = over direction.x size; y = over direction.y size }

  unfoldable pub resolve_virtual_joystick_point :
      NormalizedPoint n → Num → NormalizedPoint n → NormalizedPoint n
  resolve_virtual_joystick_point center radius direction =
      let normalized = normalize_direction direction in
      clamp_normalized_point (record {
        x = plus center.x (times normalized.x radius);
        y = plus center.y (times normalized.y radius);
      })
