-- ===== src/Hid/Devices.antt =====
-- The session of AYLink.Web/src/lib/input/hidSession.ts against the device that receives its
-- messages: UHID devices are created, fed and destroyed in that order.
use aylink_extra.Prelude.{ℕ, ◌≡◌, List, [], ◌∷◌, arith, false, some}
use aylink_extra.Prelude.Text.{String}
use aylink_extra.Hid.Receiver.{no_devices, receive_all}
use aylink_extra.Hid.Session.{
  HidSession, HidSessionOptions, HidMouseEventPayload, KeyPhase, create_hid_session,
  initialize_devices, reset_inputs, destroy_mouse, destroy_keyboard, release_devices,
  send_keyboard_code, send_mouse_event,
}
use aylink_extra.Hid.Accepted.{
  devices_of, InSync, create_hid_session-InSync, initialize_devices-InSync, reset_inputs-InSync,
  release_devices-InSync, send_keyboard_code-InSync, send_mouse_event-InSync,
}

-- What a user of the session may call, in any order and with any options.
pub data Operation : Type 0 where
  initialize : HidSessionOptions → Operation
  reset : Operation
  release : Operation
  keyboard : HidSessionOptions → KeyPhase → String → Operation
  mouse : HidSessionOptions → HidMouseEventPayload → Operation

abbrev pub perform : (String → List ℕ) → Operation → HidSession → HidSession
perform encode (initialize options) s = initialize_devices encode options s
perform encode reset s = reset_inputs s
perform encode release s = release_devices s
perform encode (keyboard options phase code) s = (send_keyboard_code options phase code s).0
perform encode (mouse options payload) s = (send_mouse_event options payload s).0

pub perform_all : (String → List ℕ) → List Operation → HidSession → HidSession
perform_all encode [] s = s
perform_all encode (o ∷ os) s = perform_all encode os (perform encode o s)

perform-InSync :
    (encode : String → List ℕ) (o : Operation) (s : HidSession)
    → InSync s
    → InSync (perform encode o s)
perform-InSync encode (initialize options) s h = initialize_devices-InSync encode options s h
perform-InSync encode reset s h = reset_inputs-InSync s h
perform-InSync encode release s h = release_devices-InSync s h
perform-InSync encode (keyboard options phase code) s h =
    send_keyboard_code-InSync options phase code s h
perform-InSync encode (mouse options payload) s h = send_mouse_event-InSync options payload s h

perform_all-keeps-InSync :
    (encode : String → List ℕ) (os : List Operation) (s : HidSession)
    → InSync s
    → InSync (perform_all encode os s)
unfolding perform_all
perform_all-keeps-InSync encode [] s h = h
perform_all-keeps-InSync encode (o ∷ os) s h =
    perform_all-keeps-InSync encode os (perform encode o s) (perform-InSync encode o s h)

-- Whatever operations a session is asked for, in any order and with any options and encoder, a
-- receiver that refuses to create a device twice and to feed or destroy one that does not exist
-- accepts every message, and then has exactly the devices that the session holds to be created.
pub perform_all-InSync :
    (encode : String → List ℕ) (os : List Operation)
    → receive_all (perform_all encode os create_hid_session).sent no_devices
      ≡ some (devices_of (perform_all encode os create_hid_session))
perform_all-InSync encode os =
    perform_all-keeps-InSync encode os create_hid_session create_hid_session-InSync

-- After `releaseDevices`, from any state, no device is created, no button is held and no key is
-- pressed.
pub release_devices_idle :
    (s : HidSession)
    → ((release_devices s).is_mouse_created ≡ false)
      × ((release_devices s).is_keyboard_created ≡ false)
      × ((release_devices s).current_mouse_buttons ≡ 0)
      × ((release_devices s).pressed_keys ≡ [])
unfolding release_devices destroy_mouse destroy_keyboard
release_devices_idle s = ground arith
