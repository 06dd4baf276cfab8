-- ===== src/Hid/Layout.antt =====
-- How the UHID messages of AYLink.Web/src/lib/input/hidProtocol.ts lie in their buffers.
use mathlib.Core.List.{append-nil, append_assoc}
use aylink_extra.Prelude.{
  ℕ, ◌/◌, ◌%◌, ◌+◌, ◌≡◌, ◌∙◌, ap, ◌<◌, List, [], ◌∷◌, ◌++◌, arith, length, length-append,
  length-take-le, take, leb, if◌then◌else◌,
}
use aylink_extra.Prelude.Bytes.{
  be_bytes, put_bytes-zeros, set_uint, set_uint-zeros, length-be_bytes, new_buffer,
}
use aylink_extra.Prelude.Text.{String}
use aylink_extra.Hid.Protocol.{
  write_uint16_be, build_uhid_create_message, build_uhid_input_message, build_uhid_destroy_message,
}

-- An unsigned 16-bit field, saturated.
abbrev pub field16 : ℕ → List ℕ
field16 v = be_bytes 2 (if leb v 0xffff then v else 0xffff)

write_uint16_be-zeros :
    (pre : List ℕ) (v offset total m : ℕ)
    → offset ≡ length pre
    → total ≡ 2 + m
    → write_uint16_be (pre ++ new_buffer total) offset v ≡ (pre ++ field16 v) ++ new_buffer m
unfolding write_uint16_be
write_uint16_be-zeros pre v offset total m at size =
    set_uint-zeros pre 2 (if leb v 0xffff then v else 0xffff) offset total m at size

pub length-field16 : (v : ℕ) → length (field16 v) ≡ 2
length-field16 v = length-be_bytes 2 (if leb v 0xffff then v else 0xffff)

be_bytes-one : (kind : ℕ) → kind < 256 → be_bytes 1 kind ≡ kind ∷ []
unfolding be_bytes
be_bytes-one kind h = let same : kind / 1 % 256 ≡ kind = omega arith in rw same

-- The first byte of a message.
type_byte :
    (kind total m : ℕ)
    → kind < 256
    → total ≡ 1 + m
    → set_uint 1 (new_buffer total) 0 kind ≡ kind ∷ new_buffer m
type_byte kind total m h size =
    rw (set_uint-zeros [] 1 kind 0 total m (omega arith) size, be_bytes-one kind h)

-- A destroy message is the type byte 14 and the device id as a 16-bit field.
pub build_uhid_destroy_message_layout : (id : ℕ) → build_uhid_destroy_message id ≡ 14 ∷ field16 id
unfolding build_uhid_destroy_message
build_uhid_destroy_message_layout id =
    rw (type_byte 14 3 2 (omega arith) (omega arith))
      (write_uint16_be-zeros (14 ∷ []) id 1 2 0 (omega arith) (omega arith) ∙ append-nil _)

-- An input message is the type byte 13, the device id and the length of the data as 16-bit fields,
-- and the data, for any id and data.
pub build_uhid_input_message_layout :
    (id : ℕ) (bytes : List ℕ)
    → build_uhid_input_message id bytes ≡ 13 ∷ field16 id ++ field16 (length bytes) ++ bytes
unfolding build_uhid_input_message
build_uhid_input_message_layout id bytes =
    let n = length bytes in
    rw
      (
        type_byte 13 (5 + n) (4 + n) (omega arith) (omega arith),
        write_uint16_be-zeros (13 ∷ []) id 1 (4 + n) (2 + n) (omega arith) (omega arith),
        write_uint16_be-zeros (13 ∷ field16 id) n 3 (2 + n) n (omega (arith, length-field16 id))
            (omega arith),
      )
      (put_bytes-zeros (13 ∷ field16 id ++ field16 n) bytes 5 n 0
          (omega
            (arith, length-append (field16 id) (field16 n), length-field16 id, length-field16 n))
          (omega arith)
        ∙ append-nil _)

-- A create message is the type byte 12, the device id, the vendor id 0 and the product id 0 as 16-bit
-- fields, the length of the name in one byte, at most 127 bytes of the name, the length of the report
-- descriptor as a 16-bit field and the descriptor, for any encoder, id, descriptor and name.
pub build_uhid_create_message_layout :
    (encode : String → List ℕ) (id : ℕ) (report_desc : List ℕ) (name : String)
    → build_uhid_create_message encode id report_desc name
      ≡ 12 ∷ field16 id
        ++ field16 0
        ++ field16 0
        ++ length (take 127 (encode name)) ∷ take 127 (encode name)
        ++ field16 (length report_desc)
        ++ report_desc
unfolding build_uhid_create_message
build_uhid_create_message_layout encode id report_desc name =
    let name_bytes = take 127 (encode name) in
    let k = length name_bytes in
    let n = length report_desc in
    let small = length-take-le 127 (encode name) in
    let head = 12 ∷ field16 id in
    let head2 = head ++ field16 0 in
    let head3 = head2 ++ field16 0 in
    let head4 = head3 ++ k ∷ [] in
    let head5 = head4 ++ name_bytes in
    let head6 = head5 ++ field16 n in
    let at3 : 3 ≡ length head = omega (arith, length-field16 id) in
    let at5 : 5 ≡ length head2 = omega (arith, length-append head (field16 0), length-field16 0) in
    let at7 : 7 ≡ length head3 = omega (arith, length-append head2 (field16 0), length-field16 0) in
    let at8 : 8 ≡ length head4 = omega (arith, length-append head3 (k ∷ [])) in
    let at_name : 8 + k ≡ length head5 = omega (arith, length-append head4 name_bytes) in
    let at_desc : 10 + k ≡ length head6 =
      omega (arith, length-append head5 (field16 n), length-field16 n) in
    rw
      (
        type_byte 12 (8 + k + 2 + n) (9 + k + n) (omega arith) (omega arith),
        write_uint16_be-zeros (12 ∷ []) id 1 (9 + k + n) (7 + k + n) (omega arith) (omega arith),
        write_uint16_be-zeros head 0 3 (7 + k + n) (5 + k + n) at3 (omega arith),
        write_uint16_be-zeros head2 0 5 (5 + k + n) (3 + k + n) at5 (omega arith),
        set_uint-zeros head3 1 k 7 (3 + k + n) (2 + k + n) at7 (omega arith),
        be_bytes-one k (omega arith),
        put_bytes-zeros head4 name_bytes 8 (2 + k + n) (2 + n) at8 (omega arith),
        write_uint16_be-zeros head5 n (8 + k) (2 + n) n at_name (omega arith),
        put_bytes-zeros head6 report_desc (10 + k) n 0 at_desc (omega arith),
      )
      (append-nil _
        ∙ ap (λ (t : List ℕ). t ++ field16 n ++ report_desc)
            (append_assoc head3 (k ∷ []) name_bytes))
