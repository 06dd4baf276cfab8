-- ===== src/Transport/Flow.antt =====
-- Invariants of a request of AYLink.Web/src/features/deviceTransport/channel.ts over every run.
use aylink_extra.Prelude.{
  if_keeps, ℕ, ◌+◌, ◌-◌, ◌≤◌, ◌≡◌, refl, ap, ◌∙◌, arith, List, [], ◌∷◌, ◌++◌, Bool, true, false,
  Option, none, some, if◌then◌else◌, length, flatten, Bool-cases, length-append, flatten-append,
  ltb, ◌&&◌, inl, leb, inr, append-nil, not, ◌||◌, ◌==◌,
}
use aylink_extra.Prelude.Int.{ℤ, pos, negsuc}
use aylink_extra.Transport.Channel.{
  Channel, Sent, Response, unanswered, resolved, rejected, Body, absent, readable, closed, errored,
  rtc_chunk_bytes, rtc_window_bytes, finish, chunk_sent, credit_sent, request_sent, end_sent,
  ControlMessage,
}
use aylink_extra.Transport.Receiver.{
  respond, EventData, cancel_body, receive_chunk, is_outside_window, credit_of, resolve_response,
  start_response, receive_control, receive, is_empty_status, binary, text, message, add_credit,
  status_of, malformed,
}
use aylink_extra.Prelude.Text.{String}

abbrev pub is_answered : Response → Bool
is_answered unanswered = false
is_answered (resolved status headers) = true
is_answered (rejected error) = true

abbrev pub has_body : Body → Bool
has_body absent = false
has_body readable = true
has_body closed = true
has_body (errored error) = true

abbrev pub is_sound : Sent → Bool
is_sound request_sent = true
is_sound end_sent = true
is_sound (credit_sent bytes) = true
is_sound (chunk_sent bytes) = ltb 0 (length bytes) && leb (length bytes) rtc_chunk_bytes

-- The receive window is shared out between the allowance and the queue.
pub record IsFlowing (c : Channel) : Type 0 where
  pub window : c.allowance + length (flatten c.queue) ≡ rtc_window_bytes
  pub credit : c.credit ≤ rtc_window_bytes
  pub once : c.finishes ≡ (if c.finished then 1 else 0)
  pub answered : c.finished ≡ true → is_answered c.response ≡ true
  pub started : c.response_started ≡ true → is_answered c.response ≡ true
  pub has_started : has_body c.body ≡ true → c.response_started ≡ true
  pub end_started : c.ended ≡ true → c.response_started ≡ true

pub finish-IsFlowing :
    (error : String) (c : Channel) → IsFlowing c → IsFlowing (finish (some error) c)
unfolding finish
finish-IsFlowing error c h =
    ground (arith, h.window, h.credit, h.once, h.answered, h.started, h.has_started, h.end_started)

pub close-IsFlowing :
    (c : Channel)
    → c.response_started ≡ true
    → IsFlowing c
    → IsFlowing (finish none (record c { body = closed }))
unfolding finish
close-IsFlowing c e h =
    ground (arith, h.window, h.credit, h.once, h.answered, h.started, h.has_started, h.end_started)

queue_length :
    (queue : List (List ℕ)) (chunk : List ℕ)
    → length (flatten (queue ++ chunk ∷ [])) ≡ length (flatten queue) + length chunk
queue_length queue chunk =
    ap length (flatten-append queue (chunk ∷ []))
    ∙ (length-append (flatten queue) (chunk ++ [])
        ∙ ap (λ k. length (flatten queue) + k) (ap length (append-nil chunk)))

in_allowance :
    (chunk : List ℕ) (c : Channel) → is_outside_window chunk c ≡ false → length chunk ≤ c.allowance
unfolding is_outside_window
in_allowance chunk c e = ground arith

receive_chunk-IsFlowing :
    (chunk : List ℕ) (c : Channel) → IsFlowing c → IsFlowing (receive_chunk chunk c)
unfolding receive_chunk
receive_chunk-IsFlowing chunk c h = elim (Bool-cases (is_outside_window chunk c)) [
  | inl e ↦ rw e (finish-IsFlowing "Invalid WebRTC receive window" c h)
  | inr e ↦ rw e (record {
    window = omega (arith, h.window, queue_length c.queue chunk, in_allowance chunk c e);
    credit = h.credit;
    once = h.once;
    answered = h.answered;
    started = h.started;
    has_started = h.has_started;
    end_started = h.end_started;
  })
]

add_credit-IsFlowing :
    (bytes : Option ℤ) (c : Channel) → IsFlowing c → IsFlowing (add_credit (credit_of bytes c) c)
unfolding credit_of
add_credit-IsFlowing (some (pos bytes)) c h =
    elim (Bool-cases ((bytes == 0) || ltb (rtc_window_bytes - c.credit) bytes)) [
      | inl e ↦ rw e (finish-IsFlowing "Invalid WebRTC credit" c h)
      | inr e ↦ rw e (
          ground (
            arith, h.window, h.credit, h.once, h.answered, h.started, h.has_started, h.end_started,
          ))
    ]
add_credit-IsFlowing (some (negsuc bytes)) c h = finish-IsFlowing "Invalid WebRTC credit" c h
add_credit-IsFlowing none c h = finish-IsFlowing "Invalid WebRTC credit" c h

resolve_response-is_answered :
    (status : ℕ) (headers : List (String × String)) (r : Response)
    → is_answered (resolve_response status headers r) ≡ true
resolve_response-is_answered status headers unanswered = refl
resolve_response-is_answered status headers (resolved earlier others) = refl
resolve_response-is_answered status headers (rejected error) = refl

with_response-IsFlowing :
    (status : ℕ) (headers : List (String × String)) (c : Channel)
    → IsFlowing c
    → IsFlowing (record c {
      response_started = true;
      body = readable;
      response = resolve_response status headers c.response;
    })
with_response-IsFlowing status headers c h = record {
  window = h.window;
  credit = h.credit;
  once = h.once;
  answered = λ e. resolve_response-is_answered status headers c.response;
  started = λ e. resolve_response-is_answered status headers c.response;
  has_started = λ e. refl;
  end_started = λ e. refl;
}

-- The constructor of the response throws.
refused-IsFlowing :
    (error : String) (c : Channel)
    → IsFlowing c
    → IsFlowing (finish (some error) (record c { response_started = true; body = readable }))
unfolding finish
refused-IsFlowing error c h =
    ground (arith, h.window, h.credit, h.once, h.answered, h.started, h.has_started, h.end_started)

respond-IsFlowing :
    (error : Option String) (status : ℕ) (headers : List (String × String)) (c : Channel)
    → IsFlowing c
    → IsFlowing
        (respond error status headers (record c { response_started = true; body = readable }))
unfolding cancel_body
respond-IsFlowing (some error) status headers c h = refused-IsFlowing error c h
respond-IsFlowing none status headers c h = elim (Bool-cases (is_empty_status status)) [
  | inl e ↦ rw e (close-IsFlowing _ refl (with_response-IsFlowing status headers c h))
  | inr e ↦ rw e (with_response-IsFlowing status headers c h)
]

start_response-IsFlowing :
    (m : ControlMessage) (status : Option ℕ) (c : Channel)
    → IsFlowing c
    → IsFlowing (start_response m status c)
start_response-IsFlowing m none c h = finish-IsFlowing "Invalid WebRTC response" c h
start_response-IsFlowing m (some status) c h =
    respond-IsFlowing m.headers_error status m.headers c h

end-IsFlowing :
    (c : Channel)
    → IsFlowing c
    → IsFlowing (
        if not c.response_started || c.ended
        then finish (some "Invalid WebRTC end") c
        else record c { ended = true })
end-IsFlowing c h = elim (Bool-cases (not c.response_started || c.ended)) [
  | inl e ↦ rw e (finish-IsFlowing "Invalid WebRTC end" c h)
  | inr e ↦ rw e (
      ground
        (arith, h.window, h.credit, h.once, h.answered, h.started, h.has_started, h.end_started))
]

response-IsFlowing :
    (m : ControlMessage) (c : Channel)
    → IsFlowing c
    → IsFlowing (start_response m (if c.response_started then none else status_of m.status) c)
response-IsFlowing m c h =
    start_response-IsFlowing m (if c.response_started then none else status_of m.status) c h

receive_control-IsFlowing :
    (m : ControlMessage) (c : Channel) → IsFlowing c → IsFlowing (receive_control m c)
unfolding receive_control
receive_control-IsFlowing m c h = if_keeps IsFlowing _ _ _ (add_credit-IsFlowing m.bytes c h) (
    if_keeps IsFlowing _ _ _ (response-IsFlowing m c h) (
      if_keeps IsFlowing _ _ _ (end-IsFlowing c h) (
        if_keeps IsFlowing _ _ _ (finish-IsFlowing _ c h)
          (finish-IsFlowing "Unknown WebRTC message" c h))))

pub receive-IsFlowing : (d : EventData) (c : Channel) → IsFlowing c → IsFlowing (receive d c)
receive-IsFlowing (binary chunk) c h = receive_chunk-IsFlowing chunk c h
receive-IsFlowing (text byte_length (message m)) c h =
    if_keeps IsFlowing _ _ _ (finish-IsFlowing _ c h) (receive_control-IsFlowing m c h)
receive-IsFlowing (text byte_length (malformed error)) c h =
    if_keeps IsFlowing _ _ _ (finish-IsFlowing _ c h) (finish-IsFlowing error c h)
