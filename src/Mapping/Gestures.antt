-- ===== src/Mapping/Gestures.antt =====
-- The gestures of AYLink.Web/src/features/inputMapping/inputMappingRuntime.ts that need no state: taps,
-- bursts of taps and swipes. `Math.round` gives an integer, whose arithmetic is that of ℤ.
use aylink_extra.Prelude.{
  ℕ, zero, suc, ◌+◌, ◌-◌, List, [], ◌∷◌, ◌++◌, Bool, false, ◌||◌, ◌==◌, ltb, if◌then◌else◌, Option,
  none, some, get_or_else, length,
}
use aylink_extra.Prelude.Int.{ℤ, pos, pos_part, min_ℤ, max_ℤ, ◌+ℤ◌, ◌*ℤ◌}
use aylink_extra.Prelude.Text.{String}
use aylink_extra.Prelude.Numbers.{Numbers}
use aylink_extra.Mapping.Schema.{
  NormalizedPoint, RapidTap, Swipe, InputMappingAction, tap, InputMappingBinding,
}
use aylink_extra.Mapping.Commands.{
  TouchPhase, touch_down, touch_move, touch_up, InputMappingCommand, touch,
}

module _ (n : Numbers) where
  open n use {Num, int, over, least, greatest, is_finite, round}

  -- The key of the pointer of a binding: `binding:${binding.id}`.
  unfoldable pub get_binding_pointer_key : InputMappingBinding n → String
  get_binding_pointer_key binding = Prim.Native.String.◌++◌ "binding:" binding.id

  abbrev pub touch_command :
      TouchPhase → String → NormalizedPoint n → ℕ → Option Num → InputMappingCommand n
  touch_command phase pointer_key point pressure delay_ms = touch (record {
    phase = phase;
    pointer_key = pointer_key;
    point = point;
    pressure = int (pos pressure);
    delay_ms = delay_ms;
  })

  -- The delay of the command that ends a tap.
  abbrev pub tap_duration : InputMappingAction n → Option Num
  tap_duration (tap point duration_ms) = duration_ms
  tap_duration _ = none

  unfoldable pub create_tap_commands :
      InputMappingBinding n → NormalizedPoint n → List (InputMappingCommand n)
  create_tap_commands binding point =
      let pointer_key = get_binding_pointer_key binding in
      touch_command touch_down pointer_key point 1 none
      ∷ touch_command touch_up pointer_key point 0 (tap_duration binding.action)
      ∷ []

  unfoldable pub clamp_rapid_tap_rate : Num → Num
  clamp_rapid_tap_rate taps_per_second =
      least (int (pos 60)) (
        greatest (int (pos 1))
          (if is_finite taps_per_second then taps_per_second else int (pos 20)))

  abbrev pub interval_of : RapidTap n → ℤ
  interval_of action = round (over (int (pos 1000)) (clamp_rapid_tap_rate action.taps_per_second))

  -- `Math.max(16, Math.min(40, Math.round(intervalMs / 2)))`
  unfoldable pub down_time : ℤ → ℤ
  down_time interval_ms =
      max_ℤ (pos 16) (min_ℤ (pos 40) (round (over (int interval_ms) (int (pos 2)))))

  unfoldable pub burst_count : RapidTap n → ℕ
  burst_count action = pos_part (
      min_ℤ (pos 200) (
        max_ℤ (pos 1)
          (round (get_or_else action.tap_count (clamp_rapid_tap_rate action.taps_per_second)))))

  -- The loop from `index` on, with `count` rounds left.
  unfoldable pub burst_from :
      ℕ → ℕ → String → NormalizedPoint n → ℤ → ℤ → List (InputMappingCommand n)
  burst_from zero index pointer_key point interval_ms down_ms = []
  burst_from (suc count) index pointer_key point interval_ms down_ms =
      let delay_ms = pos index *ℤ interval_ms in
      touch_command touch_down pointer_key point 1 (some (int delay_ms))
      ∷ touch_command touch_up pointer_key point 0 (some (int (delay_ms +ℤ down_ms)))
      ∷ burst_from count (index + 1) pointer_key point interval_ms down_ms

  unfoldable pub create_rapid_tap_burst_commands :
      InputMappingBinding n → RapidTap n → List (InputMappingCommand n)
  create_rapid_tap_burst_commands binding action =
      burst_from (burst_count action) 0 (get_binding_pointer_key binding) action.point
        (interval_of action) (down_time (interval_of action))

  -- `route[index]`, and the last point, with what stands in for a missing one.
  abbrev point_or : List (NormalizedPoint n) → NormalizedPoint n → NormalizedPoint n
  point_or [] fallback = fallback
  point_or (p ∷ ps) fallback = p

  abbrev last_or : List (NormalizedPoint n) → NormalizedPoint n → NormalizedPoint n
  last_or [] fallback = fallback
  last_or (p ∷ []) fallback = p
  last_or (p ∷ q ∷ ps) fallback = last_or (q ∷ ps) fallback

  abbrev is_set : Option Bool → Bool
  is_set none = false
  is_set (some b) = b

  -- The end points, or the path if it is to be followed and has two points.
  unfoldable pub route_of : Swipe n → List (NormalizedPoint n)
  route_of action = elim action.path [
    | none ↦ action.from ∷ action.to ∷ []
    | some path ↦
        if is_set action.straight || ltb (length path) 2 then action.from ∷ action.to ∷ [] else path
  ]

  abbrev pub start_hold : Swipe n → ℤ
  start_hold action = max_ℤ (pos 0) (round (get_or_else action.start_hold_ms (int (pos 0))))

  abbrev pub swipe_duration : Swipe n → ℤ
  swipe_duration action = max_ℤ (pos 1) (round action.duration_ms)

  abbrev move_delay : ℕ → ℤ → ℕ → ℤ
  move_delay size duration_ms index =
      if size == 2
      then round (over (int duration_ms) (int (pos 2)))
      else round (over (int (duration_ms *ℤ pos index)) (int (max_ℤ (pos 1) (pos (size - 1)))))

  -- The loop over the points of the route behind the first.
  unfoldable pub moves_from :
      ℕ → ℕ → String → ℤ → ℤ → List (NormalizedPoint n) → List (InputMappingCommand n)
  moves_from size index pointer_key start_hold_ms duration_ms [] = []
  moves_from size index pointer_key start_hold_ms duration_ms (p ∷ ps) =
      touch_command touch_move pointer_key p 1
        (some (int (start_hold_ms +ℤ move_delay size duration_ms index)))
      ∷ moves_from size (index + 1) pointer_key start_hold_ms duration_ms ps

  abbrev rest_of : List (NormalizedPoint n) → List (NormalizedPoint n)
  rest_of [] = []
  rest_of (p ∷ ps) = ps

  unfoldable pub create_swipe_commands :
      InputMappingBinding n → Swipe n → List (InputMappingCommand n)
  unfolding route_of moves_from
  create_swipe_commands binding action =
      let pointer_key = get_binding_pointer_key binding in
      let route = route_of action in
      let start_hold_ms = start_hold action in
      let duration_ms = swipe_duration action in
      touch_command touch_down pointer_key (point_or route action.from) 1 none
      ∷ (moves_from (length route) 1 pointer_key start_hold_ms duration_ms (rest_of route)
          ++ touch_command touch_up pointer_key (last_or route action.to) 0
              (some (int (start_hold_ms +ℤ duration_ms)))
            ∷ [])
