-- ===== src/Mapping/Bridge/Execution.antt =====
-- The commands of AYLink.Web/src/features/inputMapping/inputMappingCommandBridge.ts.
use aylink_extra.Prelude.{
  ℕ, ◌+◌, List, [], ◌∷◌, ◌++◌, Bool, true, false, Option, none, some, if◌then◌else◌, ◌==◌,
}
use aylink_extra.Prelude.Int.{pos}
use aylink_extra.Prelude.Text.{String}
use aylink_extra.Prelude.Entries.{get_entry}
use aylink_extra.Prelude.Numbers.{Numbers}
use aylink_extra.Mapping.Commands.{
  Touch, InputMappingCommand, touch, touch_repeat, stop_touch_repeat, hid_key_command,
  hid_mouse_button_command, hid_mouse_wheel, is_nonempty,
}
use aylink_extra.Mapping.Bridge.{
  InputMappingCommandBridge, Senders, Sent, sent_key, sent_button, sent_wheel, Timer, delayed,
  tap_once, lift, send_touch, stop_repeat, start_repeat, tap, lift_up, get_pointer_generation,
  bump_pointer_generation, release_pointer_key_internal, clear_timer, set_timer,
}

module _ (n : Numbers) (senders : Senders n) where
  open n use {Num, int, lt}

  abbrev pub send : Sent n → InputMappingCommandBridge n → InputMappingCommandBridge n × Bool
  send message s =
      let log = s.sent ++ message ∷ [] in (record s { sent = log }, senders.accepts log)

  unfoldable pub execute_touch :
      Touch n → InputMappingCommandBridge n → InputMappingCommandBridge n × Bool
  execute_touch t s =
      let d = send_touch n senders t.phase t.pointer_key t.point t.pressure s in
      (d, senders.accepts d.sent)

  unfoldable pub execute_now :
      InputMappingCommand n → InputMappingCommandBridge n → InputMappingCommandBridge n × Bool
  execute_now (touch t) s = execute_touch t s
  execute_now (hid_key_command phase code) s = send (sent_key phase code) s
  execute_now (hid_mouse_button_command phase button) s = send (sent_button phase button) s
  execute_now (hid_mouse_wheel delta_y) s = send (sent_wheel delta_y) s
  execute_now (touch_repeat pointer_key point interval_ms down_ms) s =
      (start_repeat n senders pointer_key point s, true)
  execute_now (stop_touch_repeat pointer_key) s = (stop_repeat n senders pointer_key s, true)

  -- `command.delayMs` is a delay: it is given and above 0.
  abbrev pub has_delay : Option Num → Bool
  has_delay none = false
  has_delay (some delay_ms) = lt (int (pos 0)) delay_ms

  abbrev pub delay_touch : Touch n → InputMappingCommandBridge n → InputMappingCommandBridge n
  delay_touch t s = record (set_timer n (delayed t (get_pointer_generation n t.pointer_key s)) s) {
    pending_command_handles = s.next_timer ∷ s.pending_command_handles;
  }

  unfoldable pub execute_one :
      InputMappingCommand n → InputMappingCommandBridge n → InputMappingCommandBridge n × Bool
  execute_one (touch t) s =
      if has_delay t.delay_ms then (delay_touch t s, true) else execute_touch t s
  execute_one (hid_key_command phase code) s = execute_now (hid_key_command phase code) s
  execute_one (hid_mouse_button_command phase button) s =
      execute_now (hid_mouse_button_command phase button) s
  execute_one (hid_mouse_wheel delta_y) s = execute_now (hid_mouse_wheel delta_y) s
  execute_one (touch_repeat pointer_key point interval_ms down_ms) s =
      execute_now (touch_repeat pointer_key point interval_ms down_ms) s
  execute_one (stop_touch_repeat pointer_key) s = execute_now (stop_touch_repeat pointer_key) s

  pub record InputMappingCommandBridgeResult : Type 0 where
    pub handled : Bool
    pub sent : ℕ
    pub failed : List (InputMappingCommand n)

  unfoldable pub execute_all :
      List (InputMappingCommand n)
      → InputMappingCommandBridge n
      → InputMappingCommandBridge n × ℕ × List (InputMappingCommand n)
  execute_all [] s = (s, 0, [])
  execute_all (command ∷ rest) s =
      let done = execute_one command s in
      let others = execute_all rest done.0 in
      (
        others.0,
        if done.1 then others.1 + 1 else others.1,
        if done.1 then others.2 else command ∷ others.2,
      )

  unfoldable pub execute :
      List (InputMappingCommand n)
      → InputMappingCommandBridge n
      → InputMappingCommandBridge n × InputMappingCommandBridgeResult
  execute commands s =
      let done = execute_all commands s in
      (done.0, record { handled = is_nonempty commands; sent = done.1; failed = done.2 })

  abbrev pub delete_handle : ℕ → List ℕ → List ℕ
  delete_handle handle [] = []
  delete_handle handle (h ∷ hs) =
      let rest = delete_handle handle hs in if h == handle then rest else h ∷ rest

  -- A timer of the window calls back; one that repeats stays.
  abbrev pub call_back :
      (handle : ℕ) → Option (Timer n) → InputMappingCommandBridge n → InputMappingCommandBridge n
  call_back handle none s = s
  call_back handle (some (delayed t generation)) s =
      let fired = record (clear_timer n (some handle) s) {
        pending_command_handles = delete_handle handle s.pending_command_handles;
      } in
      if get_pointer_generation n t.pointer_key s == generation
      then (execute_touch t fired).0
      else fired
  call_back handle (some (tap_once state pointer_key point)) s =
      tap n senders state pointer_key point s
  call_back handle (some (lift state pointer_key point)) s =
      lift_up n senders state pointer_key point (clear_timer n (some handle) s)

  unfoldable pub fire : (handle : ℕ) → InputMappingCommandBridge n → InputMappingCommandBridge n
  fire handle s = call_back handle (s.timers handle) s

  abbrev pub clear_handles : List ℕ → InputMappingCommandBridge n → InputMappingCommandBridge n
  clear_handles [] s = s
  clear_handles (handle ∷ rest) s = clear_handles rest (clear_timer n (some handle) s)

  abbrev pub stop_all :
      List (String × ℕ) → InputMappingCommandBridge n → InputMappingCommandBridge n
  stop_all [] s = s
  stop_all ((pointer_key, state) ∷ rest) s = stop_all rest (stop_repeat n senders pointer_key s)

  unfoldable pub clear_pending_commands : InputMappingCommandBridge n → InputMappingCommandBridge n
  clear_pending_commands s =
      stop_all s.repeat_states
        (record (clear_handles s.pending_command_handles s) { pending_command_handles = [] })

  unfoldable pub clear_pointer_keys : InputMappingCommandBridge n → InputMappingCommandBridge n
  clear_pointer_keys s = record (clear_pending_commands s) {
    pointer_ids = [];
    pointer_generations = [];
  }

  unfoldable pub release_pointer_key :
      String → InputMappingCommandBridge n → InputMappingCommandBridge n
  release_pointer_key pointer_key s =
      release_pointer_key_internal n pointer_key none (bump_pointer_generation n pointer_key s)

  unfoldable pub get_pointer_id : String → InputMappingCommandBridge n → Option ℕ
  get_pointer_id pointer_key s = get_entry pointer_key s.pointer_ids
