-- ===== src/Prelude/Bytes.antt =====
-- An `ArrayBuffer` behind a `DataView`: a list of bytes that is written at offsets, big-endian.
use mathlib.Core.List.{append-nil, append_assoc}
use aylink_extra.Prelude.Lists.{length-append, length, set, take, drop, replicate}
use Prim.Native.Nat.{ℕ, zero, suc, ◌+◌, ◌*◌, ◌/◌, ◌%◌, ◌^◌}
use mathlib.Core.Path.{◌≡◌, refl, ap, ◌∙◌}
use mathlib.Core.List.{List, [], ◌∷◌, ◌++◌}
use native.Mathlib.Omega.{arith}
use native.Mathlib.Nat.{div-add-mod, div-div-eq-div-mul, pow-suc}

-- `new ArrayBuffer(n)` is zeroed.
abbrev pub new_buffer : ℕ → List ℕ
new_buffer n = replicate n 0

-- The `width` low bytes of a number, the most significant first.
unfoldable pub be_bytes : ℕ → ℕ → List ℕ
be_bytes zero v = []
be_bytes (suc k) v = v / 256 ^ k % 256 ∷ be_bytes k v

-- Write bytes from an offset on; what would lie outside is dropped.
abbrev pub put_bytes : List ℕ → ℕ → List ℕ → List ℕ
put_bytes buffer offset [] = buffer
put_bytes buffer offset (b ∷ bs) = put_bytes (set buffer offset b) (suc offset) bs

-- `view.setUint8(offset, value)`, and with 2, 4 and 8 bytes `setUint16` up to `setBigUint64`.
unfoldable pub set_uint : ℕ → List ℕ → ℕ → ℕ → List ℕ
set_uint width buffer offset v = put_bytes buffer offset (be_bytes width v)

-- The `width` bytes from an offset on.
abbrev pub slice : ℕ → ℕ → List ℕ → List ℕ
slice offset width buffer = take width (drop offset buffer)

unfoldable pub from_be : ℕ → List ℕ → ℕ
from_be acc [] = acc
from_be acc (b ∷ bs) = from_be (acc * 256 + b) bs

-- `view.getUint8(offset)` up to `getBigUint64`: how a receiver reads a field.
unfoldable pub get_uint : ℕ → ℕ → List ℕ → ℕ
get_uint offset width buffer = from_be 0 (slice offset width buffer)

-- The two highest digits of a remainder, split off.
mod-mul-256 : (v p : ℕ) → v % (p * 256) ≡ v / p % 256 * p + v % p
mod-mul-256 v p =
    let whole = div-add-mod v (p * 256) in
    let high = ap (λ (t : ℕ). p * t) (div-add-mod (v / p) 256) in
    let same = ap (λ (t : ℕ). p * 256 * t) (div-div-eq-div-mul v p 256) in
    omega (arith, whole, high, same, div-add-mod v p)

from_be-be_bytes : (acc k v : ℕ) → from_be acc (be_bytes k v) ≡ acc * 256 ^ k + v % 256 ^ k
unfolding from_be be_bytes
from_be-be_bytes acc zero v = omega arith
from_be-be_bytes acc (suc k) v =
    let ih = from_be-be_bytes (acc * 256 + v / 256 ^ k % 256) k v in
    rw (pow-suc, mod-mul-256) (omega (arith, ih))

-- A field that holds the bytes of a number reads back as that number, cut to the field's width.
pub get_uint-slice :
    (offset width v : ℕ) (buffer : List ℕ)
    → slice offset width buffer ≡ be_bytes width v
    → get_uint offset width buffer ≡ v % 256 ^ width
unfolding get_uint
get_uint-slice offset width v buffer h = ap (from_be 0) h ∙ from_be-be_bytes 0 width v ∙ omega arith

pub length-set : (xs : List ℕ) (i v : ℕ) → length (set xs i v) ≡ length xs
length-set [] i v = refl
length-set (x ∷ xs) zero v = refl
length-set (x ∷ xs) (suc i) v = ap suc (length-set xs i v)

set-middle : (pre rest : List ℕ) (x b : ℕ) → set (pre ++ x ∷ rest) (length pre) b ≡ pre ++ b ∷ rest
set-middle [] rest x b = refl
set-middle (y ∷ pre) rest x b = ap (λ (t : List ℕ). y ∷ t) (set-middle pre rest x b)

-- Bytes that are written behind those already written extend them.
pub put_bytes-zeros :
    (pre bs : List ℕ) (offset total m : ℕ)
    → offset ≡ length pre
    → total ≡ length bs + m
    → put_bytes (pre ++ replicate total 0) offset bs ≡ (pre ++ bs) ++ replicate m 0
put_bytes-zeros pre [] offset total m at size =
    let same : total ≡ m = omega arith in rw (same, append-nil)
put_bytes-zeros pre (b ∷ bs) offset total m at size =
    let split : total ≡ suc (length bs + m) = omega arith in
    let here = set-middle pre (replicate (length bs + m) 0) 0 b in
    let ih =
      put_bytes-zeros (pre ++ b ∷ []) bs (suc (length pre)) (length bs + m) m
        (omega (arith, length-append pre (b ∷ []))) refl in
    rw (split, at, here) (simp append_assoc (simp append_assoc at ih))

pub length-be_bytes : (width v : ℕ) → length (be_bytes width v) ≡ width
unfolding be_bytes
length-be_bytes zero v = refl
length-be_bytes (suc k) v = ap suc (length-be_bytes k v)

-- A field of known width that is written behind those already written extends them.
pub set_uint-zeros :
    (pre : List ℕ) (width v offset total m : ℕ)
    → offset ≡ length pre
    → total ≡ width + m
    → set_uint width (pre ++ replicate total 0) offset v
      ≡ (pre ++ be_bytes width v) ++ replicate m 0
unfolding set_uint
set_uint-zeros pre width v offset total m at size =
    put_bytes-zeros pre (be_bytes width v) offset total m at
      (omega (arith, length-be_bytes width v))
