-- ===== src/Hid/Reports.antt =====
-- The keyboard report of AYLink.Web/src/lib/input/hidProtocol.ts against a direct description.
use Prim.Native.Nat.{bit_or}
use mathlib.Core.List.{append-nil, append_assoc}
use aylink_extra.Prelude.{
  Bool, ◌&&◌, ℕ, zero, suc, ◌+◌, ◌-◌, ◌^◌, ◌%◌, ◌≡◌, refl, ap, ◌≤◌, ◌<◌, List, [], ◌∷◌, ◌++◌, arith,
  length, length-append, set, if◌then◌else◌, Bool-cases, inl, inr, ltb,
}
use aylink_extra.Hid.Protocol.{is_modifier, report_keys, build_hid_keyboard_report}

-- The first `n` of some bytes, or all of them and zeros.
pub fit : ℕ → List ℕ → List ℕ
fit zero xs = []
fit (suc n) [] = 0 ∷ fit n []
fit (suc n) (x ∷ xs) = x ∷ fit n xs

set-fit :
    (n : ℕ) (xs : List ℕ) (k : ℕ)
    → length xs < n
    → set (fit n xs) (length xs) k ≡ fit n (xs ++ k ∷ [])
unfolding fit
set-fit zero xs k h = elim h [ ]
set-fit (suc n) [] k h = refl
set-fit (suc n) (x ∷ xs) k h = ap (λ (t : List ℕ). x ∷ t) (set-fit n xs k (omega arith))

fit-full : (n : ℕ) (xs ys : List ℕ) → n ≤ length xs → fit n (xs ++ ys) ≡ fit n xs
unfolding fit
fit-full zero xs ys h = refl
fit-full (suc n) [] ys h = absurd (omega arith)
fit-full (suc n) (x ∷ xs) ys h = ap (λ (t : List ℕ). x ∷ t) (fit-full n xs ys (omega arith))

-- The usages of the eight modifier keys: those above 0xdf and below 0xe8.
abbrev pub is_modifier_usage : ℕ → Bool
is_modifier_usage key = ltb 0xdf key && ltb key 0xe8

is_modifier_lem : (key : ℕ) → is_modifier_usage key ≡ is_modifier key
is_modifier_lem key = ground arith

-- The modifier bits and the other keys of a list of usages, in order.
pub modifier_bits : ℕ → List ℕ → ℕ
modifier_bits bits [] = bits
modifier_bits bits (key ∷ keys) =
    modifier_bits (if is_modifier_usage key then bit_or bits (2 ^ (key - 0xe0)) else bits) keys

pub plain_keys : List ℕ → List ℕ
plain_keys [] = []
plain_keys (key ∷ keys) =
    let rest = plain_keys keys in if is_modifier_usage key then rest else key % 256 ∷ rest

report_keys_lem :
    (stored : List ℕ) (bits : ℕ) (keys : List ℕ)
    → length stored ≤ 6
    → report_keys (0 ∷ 0 ∷ fit 6 stored) bits (2 + length stored) keys
      ≡ modifier_bits bits keys % 256 ∷ 0 ∷ fit 6 (stored ++ plain_keys keys)
unfolding report_keys modifier_bits plain_keys
report_keys_lem stored bits [] h = rw append-nil
report_keys_lem stored bits (key ∷ keys) h = elim (Bool-cases (is_modifier key)) [
  | inl modifier ↦
      rw (is_modifier_lem key, modifier)
        (report_keys_lem stored (bit_or bits (2 ^ (key - 0xe0))) keys h)
  | inr plain ↦ elim (Bool-cases (ltb (2 + length stored) 8)) [
    | inl free ↦
        let ih =
          report_keys_lem (stored ++ key % 256 ∷ []) bits keys
            (ground (arith, length-append stored (key % 256 ∷ []))) in
        let few : length stored < 6 = ground arith in
        let here : 2 + length stored ≡ suc (suc (length stored)) = omega arith in
        let next : suc (suc (length stored)) + 1 ≡ 2 + length (stored ++ key % 256 ∷ []) =
          omega (arith, length-append stored (key % 256 ∷ [])) in
        rw (is_modifier_lem key, plain, free, here, set-fit 6 stored (key % 256) few, next)
          (simp append_assoc at ih)
    | inr full ↦
        let ih = report_keys_lem stored bits keys h in
        let many : 6 ≤ length stored = ground arith in
        rw (is_modifier_lem key, plain, full, fit-full 6 stored (key % 256 ∷ plain_keys keys) many)
          (rw (fit-full 6 stored (plain_keys keys) many) at ih)
  ]
]

-- The keyboard report holds, for any pressed keys: the modifier bits (usages 0xe0 to 0xe7, one bit
-- each) in byte 0, zero in byte 1, and the first six other keys in the order of their insertion,
-- padded with zeros.
pub build_hid_keyboard_report_lem :
    (keys : List ℕ)
    → build_hid_keyboard_report keys ≡ modifier_bits 0 keys % 256 ∷ 0 ∷ fit 6 (plain_keys keys)
unfolding build_hid_keyboard_report fit
build_hid_keyboard_report_lem keys = report_keys_lem [] 0 keys (omega arith)
