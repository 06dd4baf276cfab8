-- ===== src/Hid/Presses.antt =====
-- A key that is pressed and let go in a session of AYLink.Web/src/lib/input/hidSession.ts.
use aylink_extra.Prelude.{
  ℕ, ◌≡◌, ◌∙◌, ap, arith, List, [], ◌∷◌, ◌++◌, true, false, not, ◌==◌, any, keep,
}
use aylink_extra.Prelude.Text.{String}
use aylink_extra.Hid.Protocol.{map_browser_code_to_hid_key}
use aylink_extra.Hid.Session.{
  HidSession, HidSessionOptions, key_down, key_up, add_key, delete_key, send_keyboard_code,
}

keep-append_last :
    (key : ℕ) (keys : List ℕ)
    → any (λ k. k == key) keys ≡ false
    → keep (λ k. not (k == key)) (keys ++ key ∷ []) ≡ keys
keep-append_last key [] absent = ground arith
keep-append_last key (k ∷ keys) absent = ground (arith, keep-append_last key keys)

delete_key-add_key :
    (key : ℕ) (keys : List ℕ)
    → any (λ k. k == key) keys ≡ false
    → delete_key key (add_key key keys) ≡ keys
delete_key-add_key key keys absent = rw absent (keep-append_last key keys absent)

pressed_after :
    (options : HidSessionOptions) (code : String) (s : HidSession)
    → options.is_keyboard_enabled ≡ true
    → s.is_keyboard_created ≡ true
    → map_browser_code_to_hid_key code == 0 ≡ false
    → ((send_keyboard_code options key_down code s).0.pressed_keys
        ≡ add_key (map_browser_code_to_hid_key code) s.pressed_keys)
      × ((send_keyboard_code options key_down code s).0.is_keyboard_created ≡ true)
unfolding send_keyboard_code
pressed_after options code s enabled created known = ground arith

released_after :
    (options : HidSessionOptions) (code : String) (s : HidSession)
    → options.is_keyboard_enabled ≡ true
    → s.is_keyboard_created ≡ true
    → map_browser_code_to_hid_key code == 0 ≡ false
    → (send_keyboard_code options key_up code s).0.pressed_keys
      ≡ delete_key (map_browser_code_to_hid_key code) s.pressed_keys
unfolding send_keyboard_code
released_after options code s enabled created known = ground arith

-- On an enabled keyboard that is created, pressing a known key that is not pressed and letting it go
-- leaves the pressed keys as they were, in their order.
pub send_keyboard_code-send_keyboard_code :
    (options : HidSessionOptions) (code : String) (s : HidSession)
    → options.is_keyboard_enabled ≡ true
    → s.is_keyboard_created ≡ true
    → map_browser_code_to_hid_key code == 0 ≡ false
    → any (λ k. k == map_browser_code_to_hid_key code) s.pressed_keys ≡ false
    → (send_keyboard_code options key_up code
        (send_keyboard_code options key_down code s).0).0.pressed_keys
      ≡ s.pressed_keys
send_keyboard_code-send_keyboard_code options code s enabled created known absent =
    let pressed = pressed_after options code s enabled created known in
    released_after options code (send_keyboard_code options key_down code s).0 enabled pressed.1
      known
    ∙ ap (λ (t : List ℕ). delete_key (map_browser_code_to_hid_key code) t) pressed.0
    ∙ delete_key-add_key (map_browser_code_to_hid_key code) s.pressed_keys absent
