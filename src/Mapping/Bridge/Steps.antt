-- ===== src/Mapping/Bridge/Steps.antt =====
-- Every call of AYLink.Web/src/features/inputMapping/inputMappingCommandBridge.ts keeps the record of its timers.
use aylink_extra.Prelude.{
  ℕ, ◌≡◌, ◌≢◌, arith, List, [], ◌∷◌, Bool, true, Option, none, some, ◌==◌, if_keeps,
}
use aylink_extra.Prelude.Text.{String}
use aylink_extra.Prelude.Numbers.{Numbers}
use aylink_extra.Mapping.Commands.{
  Touch, InputMappingCommand, touch, touch_repeat, stop_touch_repeat, hid_key_command,
  hid_mouse_button_command, hid_mouse_wheel,
}
use aylink_extra.Mapping.Bridge.{
  InputMappingCommandBridge, Senders, Timer, delayed, tap_once, lift, stop_repeat, clear_timer,
  Sent, get_pointer_generation,
}
use aylink_extra.Mapping.Bridge.Execution.{
  execute_touch, execute_now, execute_one, execute_all, call_back, delete_handle, has_delay,
  delay_touch,
}
use aylink_extra.Mapping.Bridge.Timers.{
  has_handle, IsTimed, IsQuiet, send_touch-IsQuiet, stop_repeat-IsStopped, IsStopped-IsTimed,
}
use aylink_extra.Mapping.Bridge.Repeats.{start_repeat-IsTimed}
use aylink_extra.Mapping.Bridge.Taps.{tap-IsTimed, lift_up-IsTimed}

module _ (n : Numbers) (senders : Senders n) where
  pub IsQuiet-IsTimed :
      (s d : InputMappingCommandBridge n)
      → IsQuiet n senders s d
      → IsTimed n senders s
      → IsTimed n senders d
  IsQuiet-IsTimed s d q h = record {
    commands = λ id t g k. ground (arith, h.commands id t g, q.timers, q.handles, k);
    taps = λ id i other p k.
        ground (arith, h.taps id i other p, q.timers, q.repeats, q.states, q.next_state, k);
    lifts = λ id i other p k.
        ground (arith, h.lifts id i other p, q.timers, q.repeats, q.states, q.next_state, k);
    fresh = λ id k. ground (arith, h.fresh id, q.timers, q.next_timer, k);
  }

  execute_touch-IsTimed :
      (t : Touch n) (s : InputMappingCommandBridge n)
      → IsTimed n senders s
      → IsTimed n senders (execute_touch n senders t s).0
  unfolding execute_touch
  execute_touch-IsTimed t s h =
      IsQuiet-IsTimed s _ (send_touch-IsQuiet n senders t.phase t.pointer_key t.point t.pressure s)
        h

  logged-IsTimed :
      (s : InputMappingCommandBridge n) (log : List (Sent n))
      → IsTimed n senders s
      → IsTimed n senders (record s { sent = log })
  logged-IsTimed s log h = record {
    commands = h.commands;
    taps = h.taps;
    lifts = h.lifts;
    fresh = h.fresh;
  }

  pub stop_repeat-IsTimed :
      (key : String) (s : InputMappingCommandBridge n)
      → IsTimed n senders s
      → IsTimed n senders (stop_repeat n senders key s)
  stop_repeat-IsTimed key s h =
      IsStopped-IsTimed n senders key s _ (stop_repeat-IsStopped n senders key s h) h

  execute_now-IsTimed :
      (c : InputMappingCommand n) (s : InputMappingCommandBridge n)
      → IsTimed n senders s
      → IsTimed n senders (execute_now n senders c s).0
  unfolding execute_now
  execute_now-IsTimed (touch t) s h = execute_touch-IsTimed t s h
  execute_now-IsTimed (hid_key_command phase code) s h = logged-IsTimed s _ h
  execute_now-IsTimed (hid_mouse_button_command phase button) s h = logged-IsTimed s _ h
  execute_now-IsTimed (hid_mouse_wheel delta_y) s h = logged-IsTimed s _ h
  execute_now-IsTimed (touch_repeat key point interval_ms down_ms) s h =
      start_repeat-IsTimed n senders key point s h
  execute_now-IsTimed (stop_touch_repeat key) s h = stop_repeat-IsTimed key s h

  delay_touch-IsTimed :
      (t : Touch n) (s : InputMappingCommandBridge n)
      → IsTimed n senders s
      → IsTimed n senders (delay_touch n senders t s)
  delay_touch-IsTimed t s h = record {
    commands = λ id u g k. ground (arith, h.commands id u g, k);
    taps = λ id i other p k. ground (arith, h.taps id i other p, k);
    lifts = λ id i other p k. ground (arith, h.lifts id i other p, k);
    fresh = λ id k. ground (arith, h.fresh id, k);
  }

  execute_one-IsTimed :
      (c : InputMappingCommand n) (s : InputMappingCommandBridge n)
      → IsTimed n senders s
      → IsTimed n senders (execute_one n senders c s).0
  unfolding execute_one
  execute_one-IsTimed (touch t) s h =
      if_keeps (λ (r : InputMappingCommandBridge n × Bool). IsTimed n senders r.0)
        (has_delay n senders t.delay_ms) _ _ (delay_touch-IsTimed t s h)
        (execute_touch-IsTimed t s h)
  execute_one-IsTimed (hid_key_command phase code) s h =
      execute_now-IsTimed (hid_key_command phase code) s h
  execute_one-IsTimed (hid_mouse_button_command phase button) s h =
      execute_now-IsTimed (hid_mouse_button_command phase button) s h
  execute_one-IsTimed (hid_mouse_wheel delta_y) s h =
      execute_now-IsTimed (hid_mouse_wheel delta_y) s h
  execute_one-IsTimed (touch_repeat key point interval_ms down_ms) s h =
      execute_now-IsTimed (touch_repeat key point interval_ms down_ms) s h
  execute_one-IsTimed (stop_touch_repeat key) s h = execute_now-IsTimed (stop_touch_repeat key) s h

  pub execute_all-IsTimed :
      (cs : List (InputMappingCommand n)) (s : InputMappingCommandBridge n)
      → IsTimed n senders s
      → IsTimed n senders (execute_all n senders cs s).0
  unfolding execute_all
  execute_all-IsTimed [] s h = h
  execute_all-IsTimed (c ∷ cs) s h =
      execute_all-IsTimed cs (execute_one n senders c s).0 (execute_one-IsTimed c s h)

  has_handle-delete_handle :
      (id handle : ℕ) (hs : List ℕ)
      → id ≢ handle
      → has_handle id hs ≡ true
      → has_handle id (delete_handle n senders handle hs) ≡ true
  has_handle-delete_handle id handle [] e h = h
  has_handle-delete_handle id handle (x ∷ xs) e h =
      ground (arith, has_handle-delete_handle id handle xs e, h, e)

  spent-IsTimed :
      (handle : ℕ) (t : Touch n) (g : ℕ) (s : InputMappingCommandBridge n)
      → IsTimed n senders s
      → IsTimed n senders (record (clear_timer n (some handle) s) {
        pending_command_handles = delete_handle n senders handle s.pending_command_handles;
      })
  spent-IsTimed handle t g s h = record {
    commands = λ id u i k.
        ground (
          arith,
          h.commands id u i,
          has_handle-delete_handle id handle s.pending_command_handles,
          k,
        );
    taps = λ id i other p k. ground (arith, h.taps id i other p, k);
    lifts = λ id i other p k. ground (arith, h.lifts id i other p, k);
    fresh = λ id k. ground (arith, h.fresh id, k);
  }

  pub call_back-IsTimed :
      (handle : ℕ) (timer : Option (Timer n)) (s : InputMappingCommandBridge n)
      → s.timers handle ≡ timer
      → IsTimed n senders s
      → IsTimed n senders (call_back n senders handle timer s)
  call_back-IsTimed handle none s e h = h
  call_back-IsTimed handle (some (delayed t g)) s e h =
      let fired = spent-IsTimed handle t g s h in
      if_keeps (IsTimed n senders) (get_pointer_generation n t.pointer_key s == g) _ _
        (execute_touch-IsTimed t _ fired) fired
  call_back-IsTimed handle (some (tap_once state key point)) s e h =
      let r = h.taps handle state key point e in tap-IsTimed n senders state key point s h r.0 r.2
  call_back-IsTimed handle (some (lift state key point)) s e h =
      lift_up-IsTimed n senders handle state key point s h e
