-- ===== src/Transport/Messages.antt =====
-- What arrives at AYLink.Web/src/features/deviceTransport/channel.ts besides chunks leaves the bytes of the response.
use aylink_extra.Prelude.{ℕ, List, true, not, ◌||◌, Option, none, some, if◌then◌else◌, if_keeps}
use aylink_extra.Transport.Channel.{
  Channel, finish, Body, readable, absent, closed, errored, ControlMessage,
}
use aylink_extra.Transport.Receiver.{
  respond, text, message, malformed, add_credit, cancel_stream, cancel_body, receive_control,
  Parsed, start_response, receive, resolve_response, credit_of, status_of,
}
use aylink_extra.Transport.Delivery.{IsDelivered, finish-IsDelivered, others-IsDelivered}
use aylink_extra.Prelude.Text.{String, str_eq}

module _ (bytes : List ℕ) where
  add_credit-IsDelivered :
      (credit : Option ℕ)
      → (c : Channel) → IsDelivered bytes c
      → IsDelivered bytes (add_credit credit c)
  add_credit-IsDelivered none c h = finish-IsDelivered bytes bytes _ c h
  add_credit-IsDelivered (some n) c h = record { stream = h.stream; credits = h.credits }

  pub cancel_stream-IsDelivered :
      (body : Body) → (c : Channel) → IsDelivered bytes c → IsDelivered bytes (cancel_stream body c)
  cancel_stream-IsDelivered readable c h =
      finish-IsDelivered bytes bytes none (record c { body = closed })
        (record { stream = h.stream; credits = h.credits })
  cancel_stream-IsDelivered absent c h = h
  cancel_stream-IsDelivered closed c h = h
  cancel_stream-IsDelivered (errored error) c h = h

  respond-IsDelivered :
      (error : Option String) (status : ℕ) (headers : List (String × String))
      → (c : Channel) → IsDelivered bytes c
      → IsDelivered bytes
          (respond error status headers (record c { response_started = true; body = readable }))
  unfolding cancel_body
  respond-IsDelivered (some error) status headers c h =
      finish-IsDelivered bytes bytes (some error) _ (
        others-IsDelivered bytes c c.is_open c.is_uploading c.ended true c.response readable
          c.pending c.progress h)
  respond-IsDelivered none status headers c h =
      let started =
        others-IsDelivered bytes c c.is_open c.is_uploading c.ended true
          (resolve_response status headers c.response) readable c.pending c.progress h in
      if_keeps (IsDelivered bytes) _ _ _ (cancel_stream-IsDelivered readable _ started) started

  start_response-IsDelivered :
      (m : ControlMessage) (status : Option ℕ)
      → (c : Channel) → IsDelivered bytes c
      → IsDelivered bytes (start_response m status c)
  start_response-IsDelivered m none c h = finish-IsDelivered bytes bytes _ c h
  start_response-IsDelivered m (some status) c h =
      respond-IsDelivered m.headers_error status m.headers c h

  end-IsDelivered :
      (c : Channel)
      → IsDelivered bytes c
      → IsDelivered bytes (
          if not c.response_started || c.ended
          then finish (some "Invalid WebRTC end") c
          else record c { ended = true })
  end-IsDelivered c h =
      if_keeps (IsDelivered bytes) (not c.response_started || c.ended) _ _
        (finish-IsDelivered bytes bytes (some "Invalid WebRTC end") c h)
        (others-IsDelivered bytes c c.is_open c.is_uploading true c.response_started c.response
          c.body c.pending c.progress h)

  receive_control-IsDelivered :
      (m : ControlMessage)
      → (c : Channel) → IsDelivered bytes c
      → IsDelivered bytes (receive_control m c)
  unfolding receive_control
  receive_control-IsDelivered m c h =
      if_keeps (IsDelivered bytes) (str_eq m.type_name "credit") _ _
        (add_credit-IsDelivered (credit_of m.bytes c) c h)
        (if_keeps (IsDelivered bytes) (str_eq m.type_name "response") _ _
          (start_response-IsDelivered m (if c.response_started then none else status_of m.status) c
            h)
          (if_keeps (IsDelivered bytes) (str_eq m.type_name "end") _ _ (end-IsDelivered c h) (
            if_keeps (IsDelivered bytes) (str_eq m.type_name "error") _ _
              (finish-IsDelivered bytes bytes
                (some (if str_eq m.error "" then "WebRTC request failed" else m.error)) c h)
              (finish-IsDelivered bytes bytes (some "Unknown WebRTC message") c h))))

  pub text-IsDelivered :
      (byte_length : ℕ) (parsed : Parsed)
      → (c : Channel) → IsDelivered bytes c
      → IsDelivered bytes (receive (text byte_length parsed) c)
  text-IsDelivered byte_length (message m) c h =
      if_keeps (IsDelivered bytes) _ _ _ (finish-IsDelivered bytes bytes _ c h)
        (receive_control-IsDelivered m c h)
  text-IsDelivered byte_length (malformed error) c h =
      if_keeps (IsDelivered bytes) _ _ _ (finish-IsDelivered bytes bytes _ c h)
        (finish-IsDelivered bytes bytes _ c h)
