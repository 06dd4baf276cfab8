-- ===== src/Mapping/Bridge/Log.antt =====
-- The log of AYLink.Web/src/features/inputMapping/inputMappingCommandBridge.ts: whatever it executes, what was
-- sent before stays.
use aylink_extra.Prelude.{
  ap, ◌∙◌, append-nil, append_assoc, ℕ, ◌≡◌, inl, inr, refl, sym, arith, List, [], ◌∷◌, ◌++◌, Bool,
  true, Option, none, some, Option-cases, if_keeps,
}
use aylink_extra.Prelude.Text.{String}
use aylink_extra.Prelude.Entries.{put, get_entry}
use aylink_extra.Prelude.Int.{pos}
use aylink_extra.Prelude.Numbers.{Numbers}
use aylink_extra.Mapping.Schema.{NormalizedPoint}
use aylink_extra.Mapping.Commands.{
  TouchPhase, touch_cancel, touch_down, InputMappingCommand, touch, touch_repeat, stop_touch_repeat,
  hid_key_command, hid_mouse_button_command, hid_mouse_wheel,
}
use aylink_extra.Mapping.Bridge.{
  InputMappingCommandBridge, Senders, Sent, sent_touch, RepeatState, send_touch, stop_state,
  stop_repeat, tap, start_repeat, clear_timer, release_pointer_key_internal,
  get_or_create_pointer_id, bump_pointer_generation,
}
use aylink_extra.Mapping.Bridge.Execution.{
  execute_touch, execute_now, execute_one, execute_all, has_delay,
}

module _ (n : Numbers) (senders : Senders n) where
  -- What was sent stays in the log, and more is added behind it.
  abbrev pub Adds : List (Sent n) → List (Sent n) → Type 0
  Adds old log = (added : List (Sent n)) × (log ≡ old ++ added)

  pub Adds-same : (old log : List (Sent n)) → log ≡ old → Adds old log
  Adds-same old log e = ([], e ∙ sym (append-nil old))

  pub Adds-trans : (a b c : List (Sent n)) → Adds a b → Adds b c → Adds a c
  Adds-trans a b c (m, e) (k, f) =
      (m ++ k, f ∙ (ap (λ (l : List (Sent n)). l ++ k) e ∙ append_assoc a m k))

  pub send_touch-sent :
      (phase : TouchPhase) (key : String) (point : NormalizedPoint n) (pressure : n.Num)
      (s : InputMappingCommandBridge n)
      → (send_touch n senders phase key point pressure s).sent
        ≡ s.sent ++ sent_touch phase (get_or_create_pointer_id n key s).1 key point pressure ∷ []
  unfolding send_touch release_pointer_key_internal
  send_touch-sent phase key point pressure s = ground arith

  send_touch-Adds :
      (phase : TouchPhase) (key : String) (point : NormalizedPoint n) (pressure : n.Num)
      (s : InputMappingCommandBridge n)
      → Adds s.sent (send_touch n senders phase key point pressure s).sent
  send_touch-Adds phase key point pressure s = (
    sent_touch phase (get_or_create_pointer_id n key s).1 key point pressure ∷ [],
    send_touch-sent phase key point pressure s,
  )

  clear_timer-sent :
      (handle : Option ℕ) (s : InputMappingCommandBridge n) → (clear_timer n handle s).sent ≡ s.sent
  clear_timer-sent none s = refl
  clear_timer-sent (some id) s = refl

  stop_state-Adds :
      (key : String) (state : RepeatState n) (s : InputMappingCommandBridge n)
      → Adds s.sent (stop_state n senders key state s).sent
  unfolding bump_pointer_generation release_pointer_key_internal
  stop_state-Adds key state s =
      let once = clear_timer n (some state.interval_handle) s in
      let quiet : Adds s.sent (clear_timer n state.up_handle once).sent =
        Adds-same s.sent _ (clear_timer-sent state.up_handle once) in
      if_keeps (λ (d : InputMappingCommandBridge n). Adds s.sent d.sent) state.is_down _ _
        (Adds-trans s.sent (clear_timer n state.up_handle once).sent _ quiet
          (send_touch-Adds touch_cancel key state.point (n.int (pos 0)) _))
        quiet

  stop_repeat-Adds :
      (key : String) (s : InputMappingCommandBridge n)
      → Adds s.sent (stop_repeat n senders key s).sent
  unfolding stop_repeat bump_pointer_generation release_pointer_key_internal
  stop_repeat-Adds key s = elim (Option-cases (get_entry key s.repeat_states)) [
    | inl e ↦ rw (e, stop_repeat) (Adds-same s.sent s.sent refl)
    | inr (id, e) ↦ rw (e, stop_repeat) (stop_state-Adds key (s.states id) s)
  ]

  tap-Adds :
      (state : ℕ) (key : String) (point : NormalizedPoint n) (s : InputMappingCommandBridge n)
      → Adds s.sent (tap n senders state key point s).sent
  unfolding tap
  tap-Adds state key point s =
      if_keeps (λ (d : InputMappingCommandBridge n). Adds s.sent d.sent) (s.states state).is_down _
        _ (Adds-same s.sent s.sent refl)
        (send_touch-Adds touch_down key point (n.int (pos 1))
          (record s { states = put state (record (s.states state) { is_down = true }) s.states }))

  start_repeat-Adds :
      (key : String) (point : NormalizedPoint n) (s : InputMappingCommandBridge n)
      → Adds s.sent (start_repeat n senders key point s).sent
  unfolding start_repeat
  start_repeat-Adds key point s =
      Adds-trans s.sent (stop_repeat n senders key s).sent _ (stop_repeat-Adds key s)
        (tap-Adds _ key point _)

  execute_now-Adds :
      (c : InputMappingCommand n) (s : InputMappingCommandBridge n)
      → Adds s.sent (execute_now n senders c s).0.sent
  unfolding execute_now execute_touch
  execute_now-Adds (touch t) s = send_touch-Adds t.phase t.pointer_key t.point t.pressure s
  execute_now-Adds (hid_key_command phase code) s = (_, refl)
  execute_now-Adds (hid_mouse_button_command phase button) s = (_, refl)
  execute_now-Adds (hid_mouse_wheel delta_y) s = (_, refl)
  execute_now-Adds (touch_repeat key point interval_ms down_ms) s = start_repeat-Adds key point s
  execute_now-Adds (stop_touch_repeat key) s = stop_repeat-Adds key s

  pub execute_one-Adds :
      (c : InputMappingCommand n) (s : InputMappingCommandBridge n)
      → Adds s.sent (execute_one n senders c s).0.sent
  unfolding execute_one execute_touch
  execute_one-Adds (touch t) s =
      if_keeps (λ (r : InputMappingCommandBridge n × Bool). Adds s.sent r.0.sent)
        (has_delay n senders t.delay_ms) _ _ (Adds-same s.sent s.sent refl)
        (send_touch-Adds t.phase t.pointer_key t.point t.pressure s)
  execute_one-Adds (hid_key_command phase code) s = execute_now-Adds (hid_key_command phase code) s
  execute_one-Adds (hid_mouse_button_command phase button) s =
      execute_now-Adds (hid_mouse_button_command phase button) s
  execute_one-Adds (hid_mouse_wheel delta_y) s = execute_now-Adds (hid_mouse_wheel delta_y) s
  execute_one-Adds (touch_repeat key point interval_ms down_ms) s =
      execute_now-Adds (touch_repeat key point interval_ms down_ms) s
  execute_one-Adds (stop_touch_repeat key) s = execute_now-Adds (stop_touch_repeat key) s

  pub execute_all-Adds :
      (cs : List (InputMappingCommand n)) (s : InputMappingCommandBridge n)
      → Adds s.sent (execute_all n senders cs s).0.sent
  unfolding execute_all
  execute_all-Adds [] s = Adds-same s.sent s.sent refl
  execute_all-Adds (c ∷ cs) s =
      Adds-trans s.sent (execute_one n senders c s).0.sent _ (execute_one-Adds c s)
        (execute_all-Adds cs (execute_one n senders c s).0)
