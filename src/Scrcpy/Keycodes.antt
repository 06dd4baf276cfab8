-- ===== src/Scrcpy/Keycodes.antt =====
-- The key code tables of AYLink.Web/src/features/screencast/scrcpyControlProtocol.ts. A `switch` that
-- only returns is an association list that is searched from the front; `toLowerCase` of the host
-- language is a parameter.
use aylink_extra.Prelude.{
  ℕ, List, [], ◌∷◌, Bool, false, ◌&&◌, ◌==◌, leb, if◌then◌else◌, none, some, get_or_else,
}
use aylink_extra.Prelude.Int.{ℤ, pos, negsuc, ◌+ℤ◌, ◌-ℤ◌}
use aylink_extra.Prelude.Text.{String, lookup, units}

abbrev pub android_keycode_forward_del : ℕ
android_keycode_forward_del = 112

abbrev pub android_meta_shift_on : ℕ
android_meta_shift_on = 1

abbrev command_keycodes : List (String × ℕ)
command_keycodes =
    ("back", 4)
    ∷ ("home", 3)
    ∷ ("menu", 82)
    ∷ ("recent", 187)
    ∷ ("power", 26)
    ∷ ("volumeup", 24)
    ∷ ("volumedown", 25)
    ∷ ("mute", 164)
    ∷ []

unfoldable pub map_android_command_to_keycode : (String → String) → String → ℕ
unfolding lookup
map_android_command_to_keycode to_lower_case action =
    get_or_else (lookup (to_lower_case action) command_keycodes) 0

abbrev code_keycodes : List (String × ℕ)
code_keycodes =
    ("Enter", 66)
    ∷ ("NumpadEnter", 66)
    ∷ ("Escape", 111)
    ∷ ("Backspace", 67)
    ∷ ("Delete", 112)
    ∷ ("Tab", 61)
    ∷ ("Space", 62)
    ∷ ("ArrowUp", 19)
    ∷ ("ArrowDown", 20)
    ∷ ("ArrowLeft", 21)
    ∷ ("ArrowRight", 22)
    ∷ ("ShiftLeft", 59)
    ∷ ("ShiftRight", 59)
    ∷ ("ControlLeft", 113)
    ∷ ("ControlRight", 113)
    ∷ ("AltLeft", 57)
    ∷ ("AltRight", 57)
    ∷ ("Backquote", 68)
    ∷ ("Minus", 69)
    ∷ ("NumpadSubtract", 69)
    ∷ ("Equal", 70)
    ∷ ("BracketLeft", 71)
    ∷ ("BracketRight", 72)
    ∷ ("Backslash", 73)
    ∷ ("Semicolon", 74)
    ∷ ("Quote", 75)
    ∷ ("Slash", 76)
    ∷ ("NumpadDivide", 76)
    ∷ ("Comma", 55)
    ∷ ("Period", 56)
    ∷ ("NumpadDecimal", 56)
    ∷ ("NumpadAdd", 81)
    ∷ []

-- `KeyA` and the like, then `Digit0` and the like, by their UTF-16 units.
map_letter_or_digit : List ℕ → ℤ
map_letter_or_digit (k ∷ e ∷ y ∷ c ∷ []) =
    if k == b'K' && e == b'e' && y == b'y' then pos 29 +ℤ (pos c -ℤ pos 65) else pos 0
map_letter_or_digit (d ∷ i ∷ g ∷ j ∷ t ∷ c ∷ []) =
    let digit = pos c -ℤ pos 48 in
    if d == b'D' && i == b'i' && g == b'g' && j == b'i' && t == b't' && leb 48 c && leb c 57
    then (if c == 48 then pos 7 else pos 8 +ℤ digit -ℤ pos 1)
    else pos 0
map_letter_or_digit _ = pos 0

unfoldable pub map_browser_code_to_android_key_code : String → ℤ
unfolding lookup units map_letter_or_digit
map_browser_code_to_android_key_code code = elim (lookup code code_keycodes) [
  | some keycode ↦ pos keycode
  | none ↦ map_letter_or_digit (units code)
]

abbrev key_keycodes : List (String × ℕ)
key_keycodes =
    ("Backspace", 67)
    ∷ ("Delete", 112)
    ∷ (",", 55)
    ∷ ("<", 55)
    ∷ (".", 56)
    ∷ (">", 56)
    ∷ ("/", 76)
    ∷ ("?", 76)
    ∷ ("-", 69)
    ∷ ("_", 69)
    ∷ ("=", 70)
    ∷ ("+", 70)
    ∷ ("[", 71)
    ∷ ("{", 71)
    ∷ ("]", 72)
    ∷ ("}", 72)
    ∷ ("\\", 73)
    ∷ ("|", 73)
    ∷ (";", 74)
    ∷ (":", 74)
    ∷ ("'", 75)
    ∷ ("\"", 75)
    ∷ ("`", 68)
    ∷ ("~", 68)
    ∷ []

unfoldable pub map_browser_key_to_android_key_code : String → ℤ
unfolding lookup
map_browser_key_to_android_key_code key = pos (get_or_else (lookup key key_keycodes) 0)

pub record KeyboardEvent : Type 0 where
  pub code : String
  pub key : String
  pub shift_key : Bool

pub record AndroidKeyEventMapping : Type 0 where
  pub key_code : ℤ
  pub meta_state : ℕ

-- `a || b` on numbers
abbrev or_else : ℤ → ℤ → ℤ
or_else (pos n) b = if n == 0 then b else pos n
or_else (negsuc n) b = negsuc n

abbrev is_zero : ℤ → Bool
is_zero (pos n) = n == 0
is_zero (negsuc n) = false

unfoldable pub map_keyboard_event_to_android_key_event : KeyboardEvent → AndroidKeyEventMapping
unfolding map_browser_code_to_android_key_code map_browser_key_to_android_key_code
map_keyboard_event_to_android_key_event event =
    let key_code =
      or_else (map_browser_code_to_android_key_code event.code)
        (map_browser_key_to_android_key_code event.key) in
    if is_zero key_code then record { key_code = pos 0; meta_state = 0 } else record {
      key_code = key_code;
      meta_state = (if event.shift_key then android_meta_shift_on else 0);
    }
