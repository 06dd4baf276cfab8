-- ===== src/Transport/Channel.antt =====
-- The state of `requestOnChannel` of AYLink.Web/src/features/deviceTransport/channel.ts: its local
-- variables, the two sides of the data channel (`sent` is what was sent over it, the newest last) and
-- the streams of the two bodies. A byte is a number; what JSON.parse makes of a text is data. The
-- progress is its two counts, without the percentage.
use aylink_extra.Prelude.{
  ℕ, ◌+◌, ◌*◌, List, [], ◌∷◌, ◌++◌, Bool, true, false, not, if◌then◌else◌, Option, none, some, ltb,
  get_or_else,
}
use aylink_extra.Prelude.Int.{ℤ}
use aylink_extra.Prelude.Text.{String}

abbrev pub rtc_chunk_bytes : ℕ
rtc_chunk_bytes = 16 * 1024

abbrev pub rtc_window_bytes : ℕ
rtc_window_bytes = 256 * 1024

-- `status` and `bytes` are `none` where the field is missing or no integer; an empty `error` is missing.
-- `headers_error` is the error that the constructor of `Response` throws for the headers, if it throws one.
pub record ControlMessage : Type 0 where
  pub type_name : String
  pub status : Option ℤ
  pub headers : List (String × String)
  pub headers_error : Option String
  pub bytes : Option ℤ
  pub error : String

pub data Sent : Type 0 where
  request_sent end_sent : Sent
  credit_sent : (bytes : ℕ) → Sent
  chunk_sent : (bytes : List ℕ) → Sent

pub data Response : Type 0 where
  unanswered : Response
  resolved : (status : ℤ) (headers : List (String × String)) → Response
  rejected : (error : String) → Response

-- The stream of the response's body, once `bodyController` is set.
pub data Body : Type 0 where
  absent readable closed : Body
  errored : (error : String) → Body

pub record UploadProgress : Type 0 where
  pub loaded : ℕ
  pub total : Option ℕ

-- `delivered` is what the response's body has yielded, `pending` the rest of the value that the upload
-- loop is sending, and `finishes` counts the calls of `onFinished`.
pub record Channel : Type 0 where
  pub queue : List (List ℕ)
  pub allowance : ℕ
  pub credit : ℕ
  pub ended : Bool
  pub finished : Bool
  pub failed : Option String
  pub response_started : Bool
  pub is_open : Bool
  pub response : Response
  pub body : Body
  pub delivered : List (List ℕ)
  pub sent : List Sent
  pub is_uploading : Bool
  pub pending : List ℕ
  pub loaded : ℕ
  pub progress : Option UploadProgress
  pub finishes : ℕ

unfoldable pub new_channel : Channel
new_channel = record {
  queue = [];
  allowance = rtc_window_bytes;
  credit = rtc_window_bytes;
  ended = false;
  finished = false;
  failed = none;
  response_started = false;
  is_open = true;
  response = unanswered;
  body = absent;
  delivered = [];
  sent = [];
  is_uploading = false;
  pending = [];
  loaded = 0;
  progress = none;
  finishes = 0;
}

-- A promise that is settled stays as it is.
abbrev pub reject_response : Option String → Response → Response
reject_response (some error) unanswered = rejected error
reject_response (some error) (resolved status headers) = resolved status headers
reject_response (some error) (rejected earlier) = rejected earlier
reject_response none response = response

abbrev pub fail_body : Option String → Body → Body
fail_body (some error) readable = errored error
fail_body (some error) absent = absent
fail_body (some error) closed = closed
fail_body (some error) (errored earlier) = errored earlier
fail_body none body = body

unfoldable pub finish : Option String → Channel → Channel
finish error c = if c.finished then c else record c {
  finished = true;
  failed = error;
  is_open = false;
  response = reject_response error c.response;
  body = fail_body error c.body;
  finishes = c.finishes + 1;
}

module _ (encoded_size : Sent → ℕ) where
  -- The error that `sendControl` throws, if it throws.
  unfoldable pub control_error : Sent → Channel → Option String
  control_error message c =
      if c.finished
      then some (get_or_else c.failed "WebRTC data channel closed")
      else if not c.is_open
      then some "WebRTC data channel closed"
      else if ltb rtc_chunk_bytes (encoded_size message)
      then some "WebRTC control message too large"
      else none

  abbrev pub send_or_finish : Sent → Option String → Channel → Channel
  send_or_finish message none c = record c { sent = c.sent ++ message ∷ [] }
  send_or_finish message (some error) c = finish (some error) c

  -- `sendControl` under the `catch` of its callers, which finish with the error.
  abbrev pub send_control : Sent → Channel → Channel
  send_control message c = send_or_finish message (control_error message c) c
