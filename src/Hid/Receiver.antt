-- ===== src/Hid/Receiver.antt =====
-- A receiver of the UHID messages of AYLink.Web/src/lib/input/hidProtocol.ts: which devices exist
-- after a sequence of messages, and which messages it refuses.
use aylink_extra.Prelude.{
  ℕ, ◌+◌, ◌*◌, ◌<◌, ◌≡◌, ap, List, [], ◌∷◌, ◌++◌, arith, Bool, true, false, ◌==◌, if◌then◌else◌,
  Option, none, some, inl, inr, Option-cases, ◌/◌, ◌%◌, leb,
}
use aylink_extra.Prelude.Text.{String}
use aylink_extra.Prelude.Bytes.{be_bytes}
use aylink_extra.Hid.Protocol.{
  build_uhid_create_message, build_uhid_input_message, build_uhid_destroy_message,
}
use aylink_extra.Hid.Layout.{
  field16, build_uhid_create_message_layout, build_uhid_input_message_layout,
  build_uhid_destroy_message_layout,
}
use aylink_extra.Hid.Session.{Sent, meta, binary, binary_on}

-- The devices that exist at the receiver.
pub record Devices : Type 0 where
  pub mouse : Bool
  pub keyboard : Bool

abbrev pub no_devices : Devices
no_devices = record { mouse = false; keyboard = false }

unfoldable pub create : ℕ → Devices → Option Devices
create id d =
    if id == 1
    then (if d.mouse then none else some (record d { mouse = true }))
    else if id == 2
    then (if d.keyboard then none else some (record d { keyboard = true }))
    else none

unfoldable pub input : ℕ → Devices → Option Devices
input id d =
    if id == 1
    then (if d.mouse then some d else none)
    else if id == 2
    then (if d.keyboard then some d else none)
    else none

unfoldable pub destroy : ℕ → Devices → Option Devices
destroy id d =
    if id == 1
    then (if d.mouse then some (record d { mouse = false }) else none)
    else if id == 2
    then (if d.keyboard then some (record d { keyboard = false }) else none)
    else none

-- The receiver reads the type and the device id, and refuses (none) to create a device twice, and to
-- feed or destroy one that does not exist.
unfoldable pub receive : List ℕ → Devices → Option Devices
receive (kind ∷ hi ∷ lo ∷ rest) d =
    let id = hi * 256 + lo in
    if kind == 12
    then create id d
    else if kind == 13
    then input id d
    else if kind == 14
    then destroy id d
    else none
receive _ d = none

abbrev pub payload_of : Sent → List ℕ
payload_of (meta bytes) = bytes
payload_of (binary bytes) = bytes
payload_of (binary_on bytes channel) = bytes

-- The receiver's devices after a sequence of messages.
unfoldable pub receive_all : List Sent → Devices → Option Devices
receive_all [] d = some d
receive_all (m ∷ ms) d = elim (receive (payload_of m) d) [
  | none ↦ none
  | some d' ↦ receive_all ms d'
]

pub receive_all-append :
    (ms : List Sent) (m : Sent) (d : Devices) {d' d'' : Devices}
    → receive_all ms d ≡ some d'
    → receive (payload_of m) d' ≡ some d''
    → receive_all (ms ++ m ∷ []) d ≡ some d''
unfolding receive_all
receive_all-append [] m d e h = ground arith
receive_all-append (k ∷ ms) m d e h = elim (Option-cases (receive (payload_of k) d)) [
  | inl refused ↦ ground arith
  | inr (d1, accepted) ↦
      rw (accepted, receive_all) (receive_all-append ms m d1 (rw (accepted, receive_all) at e) h)
]

field16-small : (id : ℕ) → id < 256 → field16 id ≡ 0 ∷ id ∷ []
unfolding be_bytes
field16-small id h =
    let same : (if leb id 0xffff then id else 0xffff) ≡ id = ground arith in
    let high : id / 256 % 256 ≡ 0 = omega arith in
    let low : id / 1 % 256 ≡ id = omega arith in rw (same, high, low)

add_zero_left : (n : ℕ) → 0 + n ≡ n
add_zero_left n = omega arith

-- What each message asks of the receiver, for an id below 256.
pub receive-build_uhid_create_message :
    (encode : String → List ℕ) (id : ℕ) (report_desc : List ℕ) (name : String) (d : Devices)
    → id < 256
    → receive (build_uhid_create_message encode id report_desc name) d ≡ create id d
unfolding receive
receive-build_uhid_create_message encode id report_desc name d h =
    rw (build_uhid_create_message_layout encode id report_desc name, field16-small id h)
      (ap (λ (k : ℕ). create k d) (add_zero_left id))

pub receive-build_uhid_input_message :
    (id : ℕ) (bytes : List ℕ) (d : Devices)
    → id < 256
    → receive (build_uhid_input_message id bytes) d ≡ input id d
unfolding receive
receive-build_uhid_input_message id bytes d h =
    rw (build_uhid_input_message_layout id bytes, field16-small id h)
      (ap (λ (k : ℕ). input k d) (add_zero_left id))

pub receive-build_uhid_destroy_message :
    (id : ℕ) (d : Devices) → id < 256 → receive (build_uhid_destroy_message id) d ≡ destroy id d
unfolding receive
receive-build_uhid_destroy_message id d h =
    rw (build_uhid_destroy_message_layout id, field16-small id h)
      (ap (λ (k : ℕ). destroy k d) (add_zero_left id))
