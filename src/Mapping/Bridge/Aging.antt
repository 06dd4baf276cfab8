-- ===== src/Mapping/Bridge/Aging.antt =====
-- Every call of AYLink.Web/src/features/inputMapping/inputMappingCommandBridge.ts but the clearing of the keys lets no
-- generation fall.
use aylink_extra.Prelude.{
  ◌+◌, ◌<◌, ℕ, ◌≡◌, inl, inr, refl, arith, List, [], ◌∷◌, Bool, Option, none, some, ◌==◌,
  Bool-cases, if_keeps,
}
use aylink_extra.Prelude.Text.{String}
use aylink_extra.Prelude.Numbers.{Numbers}
use aylink_extra.Mapping.Commands.{
  Touch, InputMappingCommand, touch, touch_repeat, stop_touch_repeat, hid_key_command,
  hid_mouse_button_command, hid_mouse_wheel,
}
use aylink_extra.Mapping.Bridge.{
  InputMappingCommandBridge, Senders, Timer, delayed, tap_once, lift, get_pointer_generation,
  clear_timer, bump_pointer_generation, stop_repeat, RepeatState, stop_state, Option-cases,
  delete_entry, get_entry, touch_cancel, pos,
}
use aylink_extra.Mapping.Bridge.Execution.{
  execute_touch, execute_now, execute_one, execute_all, call_back, clear_handles, stop_all,
  clear_pending_commands, release_pointer_key, has_delay, delay_touch, delete_handle,
}
use aylink_extra.Mapping.Bridge.Ages.{
  Ages, Ages-trans, same-Ages, bumped-Ages, released-Ages, send_touch-Ages, clear_timer-Ages,
  stop_repeat-Ages, tap-Ages, lift_up-Ages, start_repeat-Ages,
}
use aylink_extra.Prelude.Entries.{get_entry-set_entry}

module _ (n : Numbers) (senders : Senders n) where
  execute_now-Ages :
      (c : InputMappingCommand n) (s : InputMappingCommandBridge n)
      → Ages n senders s (execute_now n senders c s).0
  unfolding execute_now execute_touch
  execute_now-Ages (touch t) s =
      send_touch-Ages n senders t.phase t.pointer_key t.point t.pressure s
  execute_now-Ages (hid_key_command phase code) s = same-Ages n senders s _ refl refl refl
  execute_now-Ages (hid_mouse_button_command phase button) s =
      same-Ages n senders s _ refl refl refl
  execute_now-Ages (hid_mouse_wheel delta_y) s = same-Ages n senders s _ refl refl refl
  execute_now-Ages (touch_repeat key point interval_ms down_ms) s =
      start_repeat-Ages n senders key point s
  execute_now-Ages (stop_touch_repeat key) s = stop_repeat-Ages n senders key s

  delay_touch-Ages :
      (t : Touch n) (s : InputMappingCommandBridge n) → Ages n senders s (delay_touch n senders t s)
  delay_touch-Ages t s = record {
    generations = λ key. omega arith;
    next_timer = omega arith;
    waiting = λ id u g k. elim (Bool-cases (s.next_timer == id)) [
      | inl f ↦
          let same : some (delayed t (get_pointer_generation n t.pointer_key s))
              ≡ some (delayed u g) =
            ground (arith, k, f) in
          inr (ground (arith, f), ground (arith, same))
      | inr f ↦ inl (ground (arith, k, f))
    ];
  }

  execute_one-Ages :
      (c : InputMappingCommand n) (s : InputMappingCommandBridge n)
      → Ages n senders s (execute_one n senders c s).0
  unfolding execute_one execute_touch
  execute_one-Ages (touch t) s =
      if_keeps (λ (r : InputMappingCommandBridge n × Bool). Ages n senders s r.0)
        (has_delay n senders t.delay_ms) _ _ (delay_touch-Ages t s)
        (send_touch-Ages n senders t.phase t.pointer_key t.point t.pressure s)
  execute_one-Ages (hid_key_command phase code) s = execute_now-Ages (hid_key_command phase code) s
  execute_one-Ages (hid_mouse_button_command phase button) s =
      execute_now-Ages (hid_mouse_button_command phase button) s
  execute_one-Ages (hid_mouse_wheel delta_y) s = execute_now-Ages (hid_mouse_wheel delta_y) s
  execute_one-Ages (touch_repeat key point interval_ms down_ms) s =
      execute_now-Ages (touch_repeat key point interval_ms down_ms) s
  execute_one-Ages (stop_touch_repeat key) s = execute_now-Ages (stop_touch_repeat key) s

  pub execute_all-Ages :
      (cs : List (InputMappingCommand n)) (s : InputMappingCommandBridge n)
      → Ages n senders s (execute_all n senders cs s).0
  unfolding execute_all
  execute_all-Ages [] s = same-Ages n senders s s refl refl refl
  execute_all-Ages (c ∷ cs) s =
      let m = (execute_one n senders c s).0 in
      Ages-trans n senders s m _ (execute_one-Ages c s) (execute_all-Ages cs m)

  pub call_back-Ages :
      (handle : ℕ) (timer : Option (Timer n)) (s : InputMappingCommandBridge n)
      → Ages n senders s (call_back n senders handle timer s)
  unfolding execute_touch
  call_back-Ages handle none s = same-Ages n senders s s refl refl refl
  call_back-Ages handle (some (delayed t g)) s =
      let a = clear_timer n (some handle) s in
      let b = record a {
        pending_command_handles = delete_handle n senders handle s.pending_command_handles;
      } in
      let h =
        Ages-trans n senders s a b (clear_timer-Ages n senders (some handle) s)
          (same-Ages n senders a b refl refl refl) in
      if_keeps (Ages n senders s) (get_pointer_generation n t.pointer_key s == g) _ _
        (Ages-trans n senders s b _ h
          (send_touch-Ages n senders t.phase t.pointer_key t.point t.pressure b))
        h
  call_back-Ages handle (some (tap_once state key point)) s = tap-Ages n senders state key point s
  call_back-Ages handle (some (lift state key point)) s =
      let a = clear_timer n (some handle) s in
      Ages-trans n senders s a _ (clear_timer-Ages n senders (some handle) s)
        (lift_up-Ages n senders state key point a)

  clear_handles-Ages :
      (handles : List ℕ) (s : InputMappingCommandBridge n)
      → Ages n senders s (clear_handles n senders handles s)
  clear_handles-Ages [] s = same-Ages n senders s s refl refl refl
  clear_handles-Ages (x ∷ xs) s =
      let m = clear_timer n (some x) s in
      Ages-trans n senders s m _ (clear_timer-Ages n senders (some x) s) (clear_handles-Ages xs m)

  stop_all-Ages :
      (entries : List (String × ℕ)) (s : InputMappingCommandBridge n)
      → Ages n senders s (stop_all n senders entries s)
  stop_all-Ages [] s = same-Ages n senders s s refl refl refl
  stop_all-Ages ((key, state) ∷ rest) s =
      let m = stop_repeat n senders key s in
      Ages-trans n senders s m _ (stop_repeat-Ages n senders key s) (stop_all-Ages rest m)

  pub clear_pending_commands-Ages :
      (s : InputMappingCommandBridge n) → Ages n senders s (clear_pending_commands n senders s)
  unfolding clear_pending_commands
  clear_pending_commands-Ages s =
      let a = clear_handles n senders s.pending_command_handles s in
      let b = record a { pending_command_handles = [] } in
      Ages-trans n senders s a _ (clear_handles-Ages s.pending_command_handles s) (
        Ages-trans n senders a b _ (same-Ages n senders a b refl refl refl)
          (stop_all-Ages s.repeat_states b))

  pub release_pointer_key-Ages :
      (key : String) (s : InputMappingCommandBridge n)
      → Ages n senders s (release_pointer_key n senders key s)
  unfolding release_pointer_key
  release_pointer_key-Ages key s =
      let b = bump_pointer_generation n key s in
      Ages-trans n senders s b _ (bumped-Ages n senders key s) (released-Ages n senders key none b)

  -- Raising a generation, and stopping a repeat, which does so.
  bumped-raises :
      (key : String) (s : InputMappingCommandBridge n)
      → get_pointer_generation n key (bump_pointer_generation n key s)
        ≡ get_pointer_generation n key s + 1
  unfolding bump_pointer_generation
  bumped-raises key s =
      ground
        (arith, get_entry-set_entry key (get_pointer_generation n key s + 1) s.pointer_generations)

  stop_state-raises :
      (key : String) (state : RepeatState n) (s : InputMappingCommandBridge n)
      → get_pointer_generation n key s
        < get_pointer_generation n key (stop_state n senders key state s)
  stop_state-raises key state s =
      let a = clear_timer n (some state.interval_handle) s in
      let b = clear_timer n state.up_handle a in
      let c = record b { repeat_states = delete_entry key s.repeat_states } in
      let d = bump_pointer_generation n key c in
      let h =
        Ages-trans n senders s a b (clear_timer-Ages n senders (some state.interval_handle) s)
          (clear_timer-Ages n senders state.up_handle a) in
      let low = h.generations key in
      let up = bumped-raises key c in
      if_keeps
        (λ (x : InputMappingCommandBridge n).
          get_pointer_generation n key s < get_pointer_generation n key x)
        state.is_down _ _
        (omega (
          arith,
          low,
          up,
          (send_touch-Ages n senders touch_cancel key state.point (n.int (pos 0)) d).generations
              key,
        ))
        (omega (arith, low, up, (released-Ages n senders key none d).generations key))

  pub stop_repeat-raises :
      (key : String) (s : InputMappingCommandBridge n)
      → get_pointer_generation n key s < get_pointer_generation n key (stop_repeat n senders key s)
  unfolding stop_repeat
  stop_repeat-raises key s = elim (Option-cases (get_entry key s.repeat_states)) [
    | inl e ↦
        let b = bump_pointer_generation n key s in
        rw (e, stop_repeat)
          (omega (arith, bumped-raises key s, (released-Ages n senders key none b).generations key))
    | inr (id, e) ↦ rw (e, stop_repeat) (stop_state-raises key (s.states id) s)
  ]

  pub release_pointer_key-raises :
      (key : String) (s : InputMappingCommandBridge n)
      → get_pointer_generation n key s
        < get_pointer_generation n key (release_pointer_key n senders key s)
  unfolding release_pointer_key
  release_pointer_key-raises key s =
      let b = bump_pointer_generation n key s in
      omega (arith, bumped-raises key s, (released-Ages n senders key none b).generations key)
