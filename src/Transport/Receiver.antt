-- ===== src/Transport/Receiver.antt =====
-- What arrives on the channel of AYLink.Web/src/features/deviceTransport/channel.ts (`onmessage`, `onclose`,
-- `onerror`, `onAbort`), and the stream of the response's body (`pull`, `cancel`).
use aylink_extra.Prelude.{
  ℕ, ◌+◌, ◌-◌, List, [], ◌∷◌, ◌++◌, Bool, true, not, ◌||◌, if◌then◌else◌, Option, none, some, ltb,
  ◌==◌, length, is_some,
}
use aylink_extra.Prelude.Int.{ℤ, pos, negsuc}
use aylink_extra.Prelude.Text.{String, str_eq}
use aylink_extra.Transport.Channel.{
  Channel, ControlMessage, Sent, credit_sent, resolved, rejected, unanswered, Response, readable,
  closed, rtc_chunk_bytes, rtc_window_bytes, finish, control_error, absent, Body, errored,
}

-- What `event.data` is: a binary chunk, or a text with the length of its encoding and what
-- `JSON.parse` makes of it, which is none with the parser's error where the text is not JSON.
pub data Parsed : Type 0 where
  message : ControlMessage → Parsed
  malformed : (error : String) → Parsed

pub data EventData : Type 0 where
  binary : (chunk : List ℕ) → EventData
  text : (byte_length : ℕ) → Parsed → EventData

unfoldable pub is_outside_window : List ℕ → Channel → Bool
is_outside_window chunk c =
    not c.response_started
    || c.ended
    || (length chunk == 0)
    || ltb rtc_chunk_bytes (length chunk)
    || ltb c.allowance (length chunk)

unfoldable pub receive_chunk : List ℕ → Channel → Channel
receive_chunk chunk c =
    if is_outside_window chunk c
    then finish (some "Invalid WebRTC receive window") c
    else record c { allowance = c.allowance - length chunk; queue = c.queue ++ chunk ∷ [] }

-- `Number.isInteger(bytes) && bytes > 0 && bytes <= RTC_WINDOW_BYTES - credit`, and the bytes
unfoldable pub credit_of : Option ℤ → Channel → Option ℕ
credit_of (some (pos bytes)) c =
    if (bytes == 0) || ltb (rtc_window_bytes - c.credit) bytes then none else some bytes
credit_of (some (negsuc bytes)) c = none
credit_of none c = none

abbrev pub add_credit : Option ℕ → Channel → Channel
add_credit none c = finish (some "Invalid WebRTC credit") c
add_credit (some bytes) c = record c { credit = c.credit + bytes }

unfoldable pub status_of : Option ℤ → Option ℕ
status_of (some (pos status)) = if ltb status 200 || ltb 599 status then none else some status
status_of (some (negsuc status)) = none
status_of none = none

abbrev pub is_empty_status : ℕ → Bool
is_empty_status status = (status == 204) || (status == 205) || (status == 304)

-- `resolveResponse`, which does nothing once the promise is settled
abbrev pub resolve_response : ℕ → List (String × String) → Response → Response
resolve_response status headers unanswered = resolved (pos status) headers
resolve_response status headers (resolved earlier others) = resolved earlier others
resolve_response status headers (rejected error) = rejected error

-- The stream calls `cancel()` while it is readable.
abbrev pub cancel_stream : Body → Channel → Channel
cancel_stream readable c = finish none (record c { body = closed })
cancel_stream absent c = c
cancel_stream closed c = c
cancel_stream (errored error) c = c

unfoldable pub cancel_body : Channel → Channel
cancel_body c = cancel_stream c.body c

-- `resolveResponse(new Response(...))`, whose constructor may throw, and the cancel of an empty body.
abbrev pub respond : (error : Option String) → ℕ → List (String × String) → Channel → Channel
respond (some error) status headers c = finish (some error) c
respond none status headers c =
    let answered = record c { response = resolve_response status headers c.response } in
    if is_empty_status status then cancel_body answered else answered

abbrev pub start_response : ControlMessage → Option ℕ → Channel → Channel
start_response m none c = finish (some "Invalid WebRTC response") c
start_response m (some status) c =
    respond m.headers_error status m.headers (record c { response_started = true; body = readable })

unfoldable pub receive_control : ControlMessage → Channel → Channel
receive_control m c =
    if str_eq m.type_name "credit"
    then add_credit (credit_of m.bytes c) c
    else if str_eq m.type_name "response"
    then start_response m (if c.response_started then none else status_of m.status) c
    else if str_eq m.type_name "end"
    then (if not c.response_started || c.ended
        then finish (some "Invalid WebRTC end") c
        else record c { ended = true })
    else if str_eq m.type_name "error"
    then finish (some (if str_eq m.error "" then "WebRTC request failed" else m.error)) c
    else finish (some "Unknown WebRTC message") c

abbrev pub receive : EventData → Channel → Channel
receive (binary chunk) c = receive_chunk chunk c
receive (text byte_length parsed) c =
    if ltb rtc_chunk_bytes byte_length
    then finish (some "WebRTC control message too large") c
    else elim parsed [ message m ↦ receive_control m c | malformed error ↦ finish (some error) c ]

-- The handlers of the channel, which `finish` takes off it.
unfoldable pub on_message : EventData → Channel → Channel
on_message data_of c = if c.finished then c else receive data_of c

unfoldable pub on_close : Channel → Channel
on_close c = if c.finished then c else finish (some "WebRTC data channel closed during request") c

unfoldable pub on_error : Channel → Channel
on_error c = if c.finished then c else finish (some "WebRTC data channel failed") c

unfoldable pub on_abort : Channel → Channel
on_abort c = finish (some "AbortError") c

module _ (encoded_size : Sent → ℕ) where
  abbrev pub deliver : List ℕ → Option String → Channel → Channel
  deliver chunk (some error) c = finish (some error) c
  deliver chunk none c = record c {
    sent = c.sent ++ credit_sent (length chunk) ∷ [];
    delivered = c.delivered ++ chunk ∷ [];
  }

  -- `queue.shift()` and what follows; on an empty queue `pull` waits until the channel has ended.
  abbrev pub shift : List (List ℕ) → Channel → Channel
  shift [] c = if c.ended then finish none (record c { body = closed }) else c
  shift (chunk ∷ rest) c =
      let shifted = record c { queue = rest; allowance = c.allowance + length chunk } in
      deliver chunk (control_error encoded_size (credit_sent (length chunk)) shifted) shifted

  -- A call of `pull` up to the point where it waits or returns.
  unfoldable pub pull : Channel → Channel
  pull c = if is_some c.failed then c else shift c.queue c
