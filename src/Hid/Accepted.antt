-- ===== src/Hid/Accepted.antt =====
-- Each operation of AYLink.Web/src/lib/input/hidSession.ts against the receiver of its messages.
use aylink_extra.Prelude.{
  ℕ, ◌≡◌, refl, ◌∙◌, List, [], arith, true, ◌==◌, not, ◌||◌, ◌&&◌, some, inl, inr, Bool-cases,
}
use aylink_extra.Prelude.Int.{pos}
use aylink_extra.Prelude.Text.{String}
use aylink_extra.Hid.Protocol.{
  build_uhid_input_message, relative_mouse_report_desc, keyboard_report_desc, hid_device_name,
  map_browser_code_to_hid_key, build_hid_mouse_report, build_hid_keyboard_report,
}
use aylink_extra.Hid.Receiver.{
  Devices, no_devices, create, input, destroy, payload_of, receive_all, receive_all-append,
  receive-build_uhid_create_message, receive-build_uhid_input_message,
  receive-build_uhid_destroy_message,
}
use aylink_extra.Hid.Session.{
  Sent, binary, HidSession, HidSessionOptions, HidMouseEventPayload, MousePhase, mouse_down,
  mouse_up, mouse_move, mouse_wheel, KeyPhase, key_down, key_up, send, create_hid_session,
  initialize_mouse, initialize_keyboard, initialize_devices, reset_mouse, reset_keyboard,
  reset_inputs, destroy_mouse, destroy_keyboard, release_devices, send_keyboard_code, send_button,
  send_motion, send_mouse_event, dispatch_mouse, release_buttons, release_keys, press, hold_button,
  is_congested, get_high_frequency_channel,
}

abbrev pub devices_of : HidSession → Devices
devices_of s = record { mouse = s.is_mouse_created; keyboard = s.is_keyboard_created }

-- The receiver accepts all that a session has sent, and has the devices that the session has created.
abbrev pub InSync : HidSession → Type 0
InSync s = receive_all s.sent no_devices ≡ some (devices_of s)

pub create_hid_session-InSync : InSync create_hid_session
unfolding create_hid_session receive_all
create_hid_session-InSync = refl

-- An input message for a device that exists is accepted.
feed_mouse :
    (s : HidSession) (m : Sent) (bytes : List ℕ)
    → payload_of m ≡ build_uhid_input_message 1 bytes
    → s.is_mouse_created ≡ true
    → InSync s
    → InSync (send m s)
unfolding input
feed_mouse s m bytes same created h =
    receive_all-append s.sent m no_devices h (
      rw same
        (receive-build_uhid_input_message 1 bytes (devices_of s) (omega arith) ∙ ground arith))

feed_keyboard :
    (s : HidSession) (m : Sent) (bytes : List ℕ)
    → payload_of m ≡ build_uhid_input_message 2 bytes
    → s.is_keyboard_created ≡ true
    → InSync s
    → InSync (send m s)
unfolding input
feed_keyboard s m bytes same created h =
    receive_all-append s.sent m no_devices h (
      rw same
        (receive-build_uhid_input_message 2 bytes (devices_of s) (omega arith) ∙ ground arith))

module _ (encode : String → List ℕ) (options : HidSessionOptions) where
  initialize_mouse-InSync : (s : HidSession) → InSync s → InSync (initialize_mouse encode options s)
  unfolding initialize_mouse create
  initialize_mouse-InSync s h =
      elim (Bool-cases (options.is_mouse_enabled && not s.is_mouse_created)) [
        | inl new ↦ rw new (
            receive_all-append s.sent _ no_devices h (
              receive-build_uhid_create_message encode 1 relative_mouse_report_desc hid_device_name
                (devices_of s) (omega arith)
              ∙ ground arith))
        | inr old ↦ rw old h
      ]

  initialize_keyboard-InSync :
      (s : HidSession) → InSync s → InSync (initialize_keyboard encode options s)
  unfolding initialize_keyboard create
  initialize_keyboard-InSync s h =
      elim (Bool-cases (options.is_keyboard_enabled && not s.is_keyboard_created)) [
        | inl new ↦ rw new (
            receive_all-append s.sent _ no_devices h (
              receive-build_uhid_create_message encode 2 keyboard_report_desc hid_device_name
                (devices_of s) (omega arith)
              ∙ ground arith))
        | inr old ↦ rw old h
      ]

  pub initialize_devices-InSync :
      (s : HidSession) → InSync s → InSync (initialize_devices encode options s)
  unfolding initialize_devices
  initialize_devices-InSync s h =
      initialize_keyboard-InSync (initialize_mouse encode options s) (initialize_mouse-InSync s h)

reset_mouse-InSync : (s : HidSession) → InSync s → InSync (reset_mouse s)
unfolding reset_mouse
reset_mouse-InSync s h = elim (Bool-cases s.is_mouse_created) [
  | inl there ↦ simp there (
      simp there at (
        let report = build_hid_mouse_report 0 (pos 0) (pos 0) (pos 0) (pos 0) in
        feed_mouse (release_buttons s) (binary (build_uhid_input_message 1 report)) report refl
          there h))
  | inr gone ↦ simp gone (simp gone at h)
]

reset_keyboard-InSync : (s : HidSession) → InSync s → InSync (reset_keyboard s)
unfolding reset_keyboard
reset_keyboard-InSync s h = elim (Bool-cases s.is_keyboard_created) [
  | inl there ↦ simp there (
      simp there at (
        let report = build_hid_keyboard_report [] in
        feed_keyboard (release_keys s) (binary (build_uhid_input_message 2 report)) report refl
          there h))
  | inr gone ↦ simp gone (simp gone at h)
]

pub reset_inputs-InSync : (s : HidSession) → InSync s → InSync (reset_inputs s)
unfolding reset_inputs
reset_inputs-InSync s h = reset_keyboard-InSync (reset_mouse s) (reset_mouse-InSync s h)

destroy_mouse-InSync : (s : HidSession) → InSync s → InSync (destroy_mouse s)
unfolding destroy_mouse destroy
destroy_mouse-InSync s h = elim (Bool-cases s.is_mouse_created) [
  | inl there ↦ rw there (
      receive_all-append s.sent _ no_devices h
        (receive-build_uhid_destroy_message 1 (devices_of s) (omega arith) ∙ ground arith))
  | inr gone ↦ simp gone (simp gone at h)
]

destroy_keyboard-InSync : (s : HidSession) → InSync s → InSync (destroy_keyboard s)
unfolding destroy_keyboard destroy
destroy_keyboard-InSync s h = elim (Bool-cases s.is_keyboard_created) [
  | inl there ↦ rw there (
      receive_all-append s.sent _ no_devices h
        (receive-build_uhid_destroy_message 2 (devices_of s) (omega arith) ∙ ground arith))
  | inr gone ↦ simp gone (simp gone at h)
]

pub release_devices-InSync : (s : HidSession) → InSync s → InSync (release_devices s)
unfolding release_devices
release_devices-InSync s h =
    destroy_keyboard-InSync (destroy_mouse (reset_inputs s))
      (destroy_mouse-InSync (reset_inputs s) (reset_inputs-InSync s h))

press-InSync : (phase : KeyPhase) (key : ℕ) (s : HidSession) → InSync s → InSync (press phase key s)
press-InSync key_down key s h = h
press-InSync key_up key s h = h

press-created :
    (phase : KeyPhase) (key : ℕ) (s : HidSession)
    → (press phase key s).is_keyboard_created ≡ s.is_keyboard_created
press-created key_down key s = refl
press-created key_up key s = refl

pub send_keyboard_code-InSync :
    (options : HidSessionOptions) (phase : KeyPhase) (code : String) (s : HidSession)
    → InSync s
    → InSync (send_keyboard_code options phase code s).0
unfolding send_keyboard_code
send_keyboard_code-InSync options phase code s h =
    elim (Bool-cases (not options.is_keyboard_enabled || not s.is_keyboard_created)) [
      | inl off ↦ rw off h
      | inr on ↦ elim (Bool-cases (map_browser_code_to_hid_key code == 0)) [
        | inl unknown ↦ rw (on, unknown) h
        | inr known ↦
            rw (on, known)
              (feed_keyboard (press phase (map_browser_code_to_hid_key code) s) _ _ refl
                (press-created phase (map_browser_code_to_hid_key code) s ∙ ground arith)
                (press-InSync phase (map_browser_code_to_hid_key code) s h))
      ]
    ]

hold_button-InSync :
    (phase : MousePhase) (mask : ℕ) (s : HidSession) → InSync s → InSync (hold_button phase mask s)
hold_button-InSync mouse_down mask s h = h
hold_button-InSync _ mask s h = h

hold_button-created :
    (phase : MousePhase) (mask : ℕ) (s : HidSession)
    → (hold_button phase mask s).is_mouse_created ≡ s.is_mouse_created
hold_button-created mouse_down mask s = refl
hold_button-created _ mask s = refl

send_button-InSync :
    (phase : MousePhase) (mask : ℕ) (s : HidSession)
    → s.is_mouse_created ≡ true
    → InSync s
    → InSync (send_button phase mask s).0
unfolding send_button
send_button-InSync phase mask s there h = elim (Bool-cases (mask == 0)) [
  | inl unknown ↦ rw unknown h
  | inr known ↦ rw known (
      feed_mouse (hold_button phase mask s) _ _ refl (hold_button-created phase mask s ∙ there)
        (hold_button-InSync phase mask s h))
]

send_motion-InSync :
    (options : HidSessionOptions) (report : List ℕ) (s : HidSession)
    → s.is_mouse_created ≡ true
    → InSync s
    → InSync (send_motion options (build_uhid_input_message 1 report) s).0
unfolding send_motion
send_motion-InSync options report s there h =
    elim (Bool-cases
      (is_congested (get_high_frequency_channel options) options.pointer_move_buffer_limit)) [
        | inl full ↦ rw full h
        | inr free ↦ rw free (feed_mouse s _ report refl there h)
      ]

dispatch_mouse-InSync :
    (phase : MousePhase) (options : HidSessionOptions) (payload : HidMouseEventPayload)
    (s : HidSession)
    → s.is_mouse_created ≡ true
    → InSync s
    → InSync (dispatch_mouse phase options payload s).0
unfolding dispatch_mouse
dispatch_mouse-InSync mouse_down options payload s there h =
    send_button-InSync mouse_down _ s there h
dispatch_mouse-InSync mouse_up options payload s there h = send_button-InSync mouse_up _ s there h
dispatch_mouse-InSync mouse_move options payload s there h = send_motion-InSync options _ s there h
dispatch_mouse-InSync mouse_wheel options payload s there h = send_motion-InSync options _ s there h

pub send_mouse_event-InSync :
    (options : HidSessionOptions) (payload : HidMouseEventPayload) (s : HidSession)
    → InSync s
    → InSync (send_mouse_event options payload s).0
unfolding send_mouse_event
send_mouse_event-InSync options payload s h =
    elim (Bool-cases (not options.is_mouse_enabled || not s.is_mouse_created)) [
      | inl off ↦ rw off h
      | inr on ↦ rw on (dispatch_mouse-InSync payload.phase options payload s (ground arith) h)
    ]
