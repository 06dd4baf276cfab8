-- ===== src/Mapping/Bridge/Taps.antt =====
-- The taps of a repeat of AYLink.Web/src/features/inputMapping/inputMappingCommandBridge.ts keep the record of their
-- timers.
use aylink_extra.Prelude.{ℕ, ◌<◌, ◌≡◌, arith, true, false, none, some, if_splits}
use aylink_extra.Prelude.Int.{pos}
use aylink_extra.Prelude.Text.{String}
use aylink_extra.Prelude.Entries.{put, get_entry}
use aylink_extra.Prelude.Numbers.{Numbers}
use aylink_extra.Mapping.Schema.{NormalizedPoint}
use aylink_extra.Mapping.Commands.{touch_down, touch_up}
use aylink_extra.Mapping.Bridge.{
  InputMappingCommandBridge, Senders, lift, send_touch, tap, lift_up, clear_timer, set_timer,
}
use aylink_extra.Mapping.Bridge.Timers.{IsTimed, IsQuiet, send_touch-IsQuiet}

module _ (n : Numbers) (senders : Senders n) where
  -- `tap` after its touch was sent, which gave `d`.
  abbrev pub wait_for_lift :
      (state : ℕ)
      → String
      → NormalizedPoint n
      → InputMappingCommandBridge n
      → InputMappingCommandBridge n
  wait_for_lift state key point d = record (set_timer n (lift state key point) d) {
    states = put state (record (d.states state) { up_handle = some d.next_timer }) d.states;
  }

  wait_for_lift-IsTimed :
      (state : ℕ) (key : String) (point : NormalizedPoint n) (s d : InputMappingCommandBridge n)
      → IsTimed n senders s
      → get_entry key s.repeat_states ≡ some state
      → state < s.next_state
      → (s.states state).is_down ≡ false
      → IsQuiet n senders
          (record s { states = put state (record (s.states state) { is_down = true }) s.states })
          d
      → IsTimed n senders (wait_for_lift state key point d)
  wait_for_lift-IsTimed state key point s d h e low up q = record {
    commands = λ id t g k.
        ground
          (arith, h.commands id t g, h.fresh s.next_timer, q.timers, q.next_timer, q.handles, k);
    taps = λ id i other p k.
        ground (
          arith,
          h.taps id i other p,
          q.timers,
          q.next_timer,
          q.repeats,
          q.states,
          q.next_state,
          k,
        );
    lifts = λ id i other p k.
        ground (
          arith,
          h.lifts id i other p,
          q.timers,
          q.next_timer,
          q.repeats,
          q.states,
          q.next_state,
          k,
        );
    fresh = λ id k. ground (arith, h.fresh id, q.timers, q.next_timer, k);
  }

  pub tap-IsTimed :
      (state : ℕ) (key : String) (point : NormalizedPoint n) (s : InputMappingCommandBridge n)
      → IsTimed n senders s
      → get_entry key s.repeat_states ≡ some state
      → state < s.next_state
      → IsTimed n senders (tap n senders state key point s)
  unfolding tap
  tap-IsTimed state key point s h e low =
      let down = record s {
        states = put state (record (s.states state) { is_down = true }) s.states;
      } in
      if_splits (IsTimed n senders) (s.states state).is_down _ _ (λ f. h)
        (λ f.
          wait_for_lift-IsTimed state key point s
            (send_touch n senders touch_down key point (n.int (pos 1)) down) h e low f
            (send_touch-IsQuiet n senders touch_down key point (n.int (pos 1)) down))

  abbrev lifting : (handle state : ℕ) → InputMappingCommandBridge n → InputMappingCommandBridge n
  lifting handle state s = record s {
    timers = put handle none s.timers;
    states = put state (record (s.states state) { up_handle = none; is_down = false }) s.states;
  }

  lifted-IsTimed :
      (handle state : ℕ) (key : String) (point : NormalizedPoint n)
      (s d : InputMappingCommandBridge n)
      → IsTimed n senders s
      → s.timers handle ≡ some (lift state key point)
      → IsQuiet n senders (lifting handle state s) d
      → IsTimed n senders d
  lifted-IsTimed handle state key point s d h e q = record {
    commands = λ id t g k. ground (arith, h.commands id t g, q.timers, q.next_timer, q.handles, k);
    taps = λ id i other p k.
        ground (
          arith,
          h.taps id i other p,
          q.timers,
          q.next_timer,
          q.repeats,
          q.states,
          q.next_state,
          k,
        );
    lifts = λ id i other p k. ground (
      arith,
      h.lifts id i other p,
      h.lifts handle state key point e,
      q.timers,
      q.next_timer,
      q.repeats,
      q.states,
      q.next_state,
      k,
    );
    fresh = λ id k. ground (arith, h.fresh id, q.timers, q.next_timer, k);
  }

  pub lift_up-IsTimed :
      (handle state : ℕ) (key : String) (point : NormalizedPoint n)
      (s : InputMappingCommandBridge n)
      → IsTimed n senders s
      → s.timers handle ≡ some (lift state key point)
      → IsTimed n senders (lift_up n senders state key point (clear_timer n (some handle) s))
  unfolding lift_up
  lift_up-IsTimed handle state key point s h e =
      lifted-IsTimed handle state key point s _ h e
        (send_touch-IsQuiet n senders touch_up key point (n.int (pos 0)) (lifting handle state s))
