-- ===== src/Scrcpy/Tests.antt =====
-- Runs of the scrcpy messages at concrete inputs.
use aylink_extra.Prelude.{◌≡◌, arith, some}
use aylink_extra.Prelude.Int.{pos, negsuc}
use aylink_extra.Integers.{integers}
use aylink_extra.Scrcpy.Protocol.{build_touch_message}
use aylink_extra.Scrcpy.Decoding.{decode, inject_touch}
use aylink_extra.Scrcpy.RoundTrip.{fields_of_touch, decode-build_touch_message}

decode-build_touch_message_example :
    decode (
      build_touch_message integers 2 7
        (negsuc 4)
        (pos 300)
        (pos 1080)
        (pos 70000)
        (pos 1)
        (pos 0)
        (pos 1))
    ≡ some (
        inject_touch (
          fields_of_touch integers 2 7
            (negsuc 4)
            (pos 300)
            (pos 1080)
            (pos 70000)
            (pos 1)
            (pos 0)
            (pos 1)))
decode-build_touch_message_example =
    decode-build_touch_message integers 2 7 (negsuc 4) (pos 300) (pos 1080) (pos 70000) (pos 1)
      (pos 0) (pos 1) (omega arith) (omega arith)
