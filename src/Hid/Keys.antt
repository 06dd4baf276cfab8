-- ===== src/Hid/Keys.antt =====
-- The key table of AYLink.Web/src/lib/input/hidProtocol.ts against that of
-- AYLink.Web/src/features/screencast/scrcpyControlProtocol.ts.
use mathlib.Core.Path.{subst}
use aylink_extra.Prelude.{
  ℕ, ◌+◌, ◌-◌, ◌≤◌, ◌<◌, ◌∙◌, ap, ◌≡◌, refl, arith, List, [], ◌∷◌, Bool, true, false, ◌&&◌, ◌==◌,
  leb, if◌then◌else◌, inl, inr, Bool-cases, Option-cases, some,
}
use aylink_extra.Prelude.Int.{ℤ, pos, negsuc}
use aylink_extra.Prelude.Text.{String, str_eq, eq_iff, lookup, units}
use aylink_extra.Scrcpy.Keycodes.{map_browser_code_to_android_key_code}
use aylink_extra.Hid.Protocol.{hid_keys, map_browser_code_to_hid_key}

-- The Android key code of the usage of a letter or a digit.
unfoldable pub android_key_of_usage : ℕ → ℕ
android_key_of_usage usage =
    if leb usage 29 then usage + 25 else if usage == 39 then 7 else usage - 22

abbrev is_nat : ℤ → ℕ → Bool
is_nat (pos m) n = m == n
is_nat (negsuc m) n = false

abbrev agrees : String → ℕ → Bool
agrees code usage =
    if leb 4 usage && leb usage 39
    then is_nat (map_browser_code_to_android_key_code code) (android_key_of_usage usage)
    else true

abbrev all_agree : List (String × ℕ) → Bool
all_agree [] = true
all_agree ((code, usage) ∷ rest) = agrees code usage && all_agree rest

both : (a b : Bool) → a && b ≡ true → (a ≡ true) × (b ≡ true)
both a b h = ground arith

lookup-agrees :
    (table : List (String × ℕ)) (code : String) (usage : ℕ)
    → all_agree table ≡ true
    → lookup code table ≡ some usage
    → agrees code usage ≡ true
unfolding lookup
lookup-agrees [] code usage checked found = ground arith
lookup-agrees ((k, v) ∷ rest) code usage checked found = elim (Bool-cases (str_eq k code)) [
  | inl here ↦
      let same = (eq_iff k code).0 here in
      let value : v ≡ usage = ground arith in
      subst (λ c. agrees c usage ≡ true) same
        (subst (λ u. agrees k u ≡ true) value (both (agrees k v) (all_agree rest) checked).0)
  | inr later ↦
      lookup-agrees rest code usage (both (agrees k v) (all_agree rest) checked).1
        (rw later at found)
]

hid_keys-agree : all_agree hid_keys ≡ true
unfolding map_browser_code_to_android_key_code android_key_of_usage lookup units
hid_keys-agree = refl

is_nat_sound : (z : ℤ) (n : ℕ) → is_nat z n ≡ true → z ≡ pos n
is_nat_sound (pos m) n h = ground arith
is_nat_sound (negsuc m) n h = ground arith

agrees_sound :
    (code : String) (usage : ℕ)
    → 4 ≤ usage
    → usage ≤ 39
    → agrees code usage ≡ true
    → map_browser_code_to_android_key_code code ≡ pos (android_key_of_usage usage)
agrees_sound code usage low high h =
    is_nat_sound (map_browser_code_to_android_key_code code) (android_key_of_usage usage)
      (ground arith)

found_in_table :
    (code : String) (usage : ℕ)
    → 0 < usage
    → map_browser_code_to_hid_key code ≡ usage
    → lookup code hid_keys ≡ some usage
unfolding map_browser_code_to_hid_key
found_in_table code usage there e = elim (Option-cases (lookup code hid_keys)) [
  | inl missing ↦ absurd (ground arith)
  | inr (u, found) ↦ found ∙ ap some (ground arith)
]

-- The two key tables agree on letters and digits: a browser code whose HID usage is one of theirs (4 to
-- 39) has the Android key code of the same letter or digit.
pub map_browser_code_to_hid_key-agrees :
    (code : String) (usage : ℕ)
    → map_browser_code_to_hid_key code ≡ usage
    → 4 ≤ usage
    → usage ≤ 39
    → map_browser_code_to_android_key_code code ≡ pos (android_key_of_usage usage)
map_browser_code_to_hid_key-agrees code usage e low high =
    agrees_sound code usage low high
      (lookup-agrees hid_keys code usage hid_keys-agree (found_in_table code usage (omega arith) e))
