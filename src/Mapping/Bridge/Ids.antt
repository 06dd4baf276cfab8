-- ===== src/Mapping/Bridge/Ids.antt =====
-- The pointer ids of every run of AYLink.Web/src/features/inputMapping/inputMappingCommandBridge.ts.
use aylink_extra.Prelude.{
  ℕ, ◌≡◌, ◌≢◌, ap, sym, ◌∙◌, List, [], ◌∷◌, Bool, Option, none, some, if_keeps,
}
use aylink_extra.Prelude.Text.{String}
use aylink_extra.Prelude.Numbers.{Numbers}
use aylink_extra.Mapping.Schema.{NormalizedPoint}
use aylink_extra.Mapping.Commands.{
  Touch, InputMappingCommand, touch, touch_repeat, stop_touch_repeat, hid_key_command,
  hid_mouse_button_command, hid_mouse_wheel,
}
use aylink_extra.Mapping.Bridge.{
  InputMappingCommandBridge, Senders, Timer, delayed, tap_once, lift,
  create_input_mapping_command_bridge, bump_pointer_generation,
}
use aylink_extra.Mapping.Bridge.Execution.{
  execute, execute_now, execute_one, execute_all, call_back, clear_handles, stop_all,
  get_pointer_id, execute_touch, fire, has_delay, clear_pending_commands, clear_pointer_keys,
  release_pointer_key,
}
use aylink_extra.Mapping.Bridge.Pointers.{
  IsTracked, Distinct, start_repeat-IsTracked, stop_repeat-IsTracked, send_touch-IsTracked,
  tap-IsTracked, Distinct-keys, lift_up-IsTracked, release-IsTracked,
}
use aylink_extra.Mapping.Bridge.Runs.{
  Call, executed, fired, finalized, released, pending_cleared, keys_cleared, step, run,
}

module _ (n : Numbers) (senders : Senders n) where
  execute_touch-IsTracked :
      (t : Touch n) (s : InputMappingCommandBridge n)
      → IsTracked n senders s
      → IsTracked n senders (execute_touch n senders t s).0
  unfolding execute_touch
  execute_touch-IsTracked t s h =
      send_touch-IsTracked n senders t.phase t.pointer_key t.point t.pressure s h

  execute_now-IsTracked :
      (c : InputMappingCommand n) (s : InputMappingCommandBridge n)
      → IsTracked n senders s
      → IsTracked n senders (execute_now n senders c s).0
  unfolding execute_now
  execute_now-IsTracked (touch t) s h = execute_touch-IsTracked t s h
  execute_now-IsTracked (hid_key_command phase code) s h = h
  execute_now-IsTracked (hid_mouse_button_command phase button) s h = h
  execute_now-IsTracked (hid_mouse_wheel delta_y) s h = h
  execute_now-IsTracked (touch_repeat key point interval_ms down_ms) s h =
      start_repeat-IsTracked n senders key point s h
  execute_now-IsTracked (stop_touch_repeat key) s h = stop_repeat-IsTracked n senders key s h

  execute_one-IsTracked :
      (c : InputMappingCommand n) (s : InputMappingCommandBridge n)
      → IsTracked n senders s
      → IsTracked n senders (execute_one n senders c s).0
  unfolding execute_one
  execute_one-IsTracked (touch t) s h =
      if_keeps (λ (r : InputMappingCommandBridge n × Bool). IsTracked n senders r.0)
        (has_delay n senders t.delay_ms) _ _ h (execute_touch-IsTracked t s h)
  execute_one-IsTracked (hid_key_command phase code) s h =
      execute_now-IsTracked (hid_key_command phase code) s h
  execute_one-IsTracked (hid_mouse_button_command phase button) s h =
      execute_now-IsTracked (hid_mouse_button_command phase button) s h
  execute_one-IsTracked (hid_mouse_wheel delta_y) s h =
      execute_now-IsTracked (hid_mouse_wheel delta_y) s h
  execute_one-IsTracked (touch_repeat key point interval_ms down_ms) s h =
      execute_now-IsTracked (touch_repeat key point interval_ms down_ms) s h
  execute_one-IsTracked (stop_touch_repeat key) s h =
      execute_now-IsTracked (stop_touch_repeat key) s h

  execute_all-IsTracked :
      (cs : List (InputMappingCommand n)) (s : InputMappingCommandBridge n)
      → IsTracked n senders s
      → IsTracked n senders (execute_all n senders cs s).0
  unfolding execute_all
  execute_all-IsTracked [] s h = h
  execute_all-IsTracked (c ∷ cs) s h =
      execute_all-IsTracked cs (execute_one n senders c s).0 (execute_one-IsTracked c s h)

  call_back-IsTracked :
      (handle : ℕ) (timer : Option (Timer n)) (s : InputMappingCommandBridge n)
      → IsTracked n senders s
      → IsTracked n senders (call_back n senders handle timer s)
  call_back-IsTracked handle none s h = h
  call_back-IsTracked handle (some (delayed t generation)) s h =
      if_keeps (IsTracked n senders) _ _ _ (execute_touch-IsTracked t _ h) h
  call_back-IsTracked handle (some (tap_once state key point)) s h =
      tap-IsTracked n senders state key point s h
  call_back-IsTracked handle (some (lift state key point)) s h =
      lift_up-IsTracked n senders state key point _ h

  clear_handles-IsTracked :
      (handles : List ℕ) (s : InputMappingCommandBridge n)
      → IsTracked n senders s
      → IsTracked n senders (clear_handles n senders handles s)
  clear_handles-IsTracked [] s h = h
  clear_handles-IsTracked (x ∷ xs) s h = clear_handles-IsTracked xs _ h

  stop_all-IsTracked :
      (entries : List (String × ℕ)) (s : InputMappingCommandBridge n)
      → IsTracked n senders s
      → IsTracked n senders (stop_all n senders entries s)
  stop_all-IsTracked [] s h = h
  stop_all-IsTracked ((key, state) ∷ rest) s h =
      stop_all-IsTracked rest _ (stop_repeat-IsTracked n senders key s h)

  step-IsTracked :
      (c : Call n senders) (s : InputMappingCommandBridge n)
      → IsTracked n senders s
      → IsTracked n senders (step n senders c s)
  unfolding execute fire clear_pending_commands clear_pointer_keys release_pointer_key
      bump_pointer_generation Distinct
  step-IsTracked (executed commands) s h = execute_all-IsTracked commands s h
  step-IsTracked (fired handle) s h = call_back-IsTracked handle (s.timers handle) s h
  step-IsTracked (finalized key id) s h = release-IsTracked n senders key (some id) s h
  step-IsTracked (released key) s h = release-IsTracked n senders key none _ h
  step-IsTracked pending_cleared s h =
      stop_all-IsTracked s.repeat_states _ (clear_handles-IsTracked s.pending_command_handles s h)
  step-IsTracked keys_cleared s h = (tt, tt)

  run-IsTracked :
      (cs : List (Call n senders)) (s : InputMappingCommandBridge n)
      → IsTracked n senders s
      → IsTracked n senders (run n senders cs s)
  unfolding run
  run-IsTracked [] s h = h
  run-IsTracked (c ∷ cs) s h = run-IsTracked cs (step n senders c s) (step-IsTracked c s h)

  -- After any calls on a new bridge, whatever the senders answer and whenever they finalize a touch, the
  -- pointer ids of two different pointer keys are different.
  pub run-distinct :
      (first_pointer_id : Option ℕ) (point : NormalizedPoint n) (cs : List (Call n senders))
      (k j : String) (i l : ℕ)
      → k ≢ j
      → get_pointer_id n senders k
          (run n senders cs (create_input_mapping_command_bridge n first_pointer_id point))
        ≡ some i
      → get_pointer_id n senders j
          (run n senders cs (create_input_mapping_command_bridge n first_pointer_id point))
        ≡ some l
      → i ≢ l
  unfolding create_input_mapping_command_bridge get_pointer_id Distinct
  run-distinct first_pointer_id point cs k j i l differ e f same =
      let s = create_input_mapping_command_bridge n first_pointer_id point in
      let h = run-IsTracked cs s (tt, tt) in
      differ (Distinct-keys k j i (run n senders cs s).pointer_ids h.1 e (f ∙ ap some (sym same)))
