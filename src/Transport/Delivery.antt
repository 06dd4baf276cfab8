-- ===== src/Transport/Delivery.antt =====
-- The body of the response of AYLink.Web/src/features/deviceTransport/channel.ts against the bytes that
-- arrived: a queue of bytes.
use aylink_extra.Prelude.{
  ℕ, ◌+◌, ◌-◌, ◌≡◌, ap, sym, ◌∙◌, arith, List, [], ◌∷◌, ◌++◌, Bool, true, false, Option, none, some,
  length, flatten, if_keeps, flatten-append, append-nil, append_assoc, length-append,
}
use aylink_extra.Transport.Channel.{
  Channel, Sent, credit_sent, finish, Body, Response, UploadProgress,
}
use aylink_extra.Transport.Receiver.{binary, text, deliver, receive_chunk, is_outside_window}
use aylink_extra.Transport.Runs.{
  Event, received, closing, closed_by_peer, channel_failed, aborted, pulled, body_cancelled,
  requested, value_read, value_done, credit_awaited, granted, granted-append,
}
use aylink_extra.Prelude.Text.{String}

-- The bytes of the chunks among the events, the latest event first.
unfoldable pub arrived : List Event → List ℕ
arrived [] = []
arrived (received (binary chunk) ∷ es) = arrived es ++ chunk
arrived (received (text byte_length parsed) ∷ es) = arrived es
arrived (closing ∷ es) = arrived es
arrived (closed_by_peer ∷ es) = arrived es
arrived (channel_failed ∷ es) = arrived es
arrived (aborted ∷ es) = arrived es
arrived (pulled ∷ es) = arrived es
arrived (body_cancelled ∷ es) = arrived es
arrived (requested is_aborted ∷ es) = arrived es
arrived (value_read value ∷ es) = arrived es
arrived (value_done ∷ es) = arrived es
arrived (credit_awaited ∷ es) = arrived es

abbrev pub stream_of : Channel → List ℕ
stream_of c = flatten c.delivered ++ flatten c.queue

-- An unfinished request has delivered or holds exactly the given bytes, and the credits that it granted
-- are for the bytes that it delivered.
pub record IsDelivered (bytes : List ℕ) (c : Channel) : Type 0 where
  pub stream : c.finished ≡ false → stream_of c ≡ bytes
  pub credits : granted c.sent ≡ length (flatten c.delivered)

finish-finished : (error : Option String) (c : Channel) → (finish error c).finished ≡ true
unfolding finish
finish-finished error c = ground arith

finish-credits :
    (error : Option String) (c : Channel)
    → granted c.sent ≡ length (flatten c.delivered)
    → granted (finish error c).sent ≡ length (flatten (finish error c).delivered)
unfolding finish
finish-credits error c h = ground (arith, h)

pub finish-IsDelivered :
    (bytes more : List ℕ) (error : Option String) (c : Channel)
    → IsDelivered bytes c
    → IsDelivered more (finish error c)
finish-IsDelivered bytes more error c h = record {
  stream = λ e. absurd (ground (arith, finish-finished error c));
  credits = finish-credits error c h.credits;
}

-- The bytes and credits stay, whatever is sent besides credits.
pub others-IsDelivered :
    (bytes : List ℕ) (c : Channel) (is_open is_uploading ended started : Bool) (response : Response)
    (body : Body) (pending : List ℕ) (progress : Option UploadProgress)
    → IsDelivered bytes c
    → IsDelivered bytes (record c {
      is_open = is_open;
      is_uploading = is_uploading;
      ended = ended;
      response_started = started;
      response = response;
      body = body;
      pending = pending;
      progress = progress;
    })
others-IsDelivered bytes c _ _ _ _ _ _ _ _ h = record { stream = h.stream; credits = h.credits }

pub sent-IsDelivered :
    (bytes : List ℕ) (c : Channel) (m : Sent)
    → granted (m ∷ []) ≡ 0
    → IsDelivered bytes c
    → IsDelivered bytes (record c { sent = c.sent ++ m ∷ [] })
sent-IsDelivered bytes c m e h = record {
  stream = h.stream;
  credits = omega (arith, granted-append c.sent (m ∷ []), e, h.credits);
}

queued-IsDelivered :
    (bytes chunk : List ℕ) (c : Channel)
    → IsDelivered bytes c
    → IsDelivered
        (bytes ++ chunk)
        (record c { allowance = c.allowance - length chunk; queue = c.queue ++ chunk ∷ [] })
queued-IsDelivered bytes chunk c h = record {
  stream = λ e.
      ap (λ q. flatten c.delivered ++ q)
        (flatten-append c.queue (chunk ∷ []) ∙ ap (λ x. flatten c.queue ++ x) (append-nil chunk))
      ∙ (sym (append_assoc (flatten c.delivered) (flatten c.queue) chunk)
          ∙ ap (λ x. x ++ chunk) (h.stream e));
  credits = h.credits;
}

pub receive_chunk-IsDelivered :
    (bytes chunk : List ℕ) (c : Channel)
    → IsDelivered bytes c
    → IsDelivered (bytes ++ chunk) (receive_chunk chunk c)
unfolding receive_chunk
receive_chunk-IsDelivered bytes chunk c h =
    if_keeps (IsDelivered (bytes ++ chunk)) (is_outside_window chunk c) _ _
      (finish-IsDelivered bytes (bytes ++ chunk) (some "Invalid WebRTC receive window") c h)
      (queued-IsDelivered bytes chunk c h)

credit-granted : (bytes : ℕ) → granted (credit_sent bytes ∷ []) ≡ bytes
unfolding granted
credit-granted bytes = omega arith

module _ (encoded_size : Sent → ℕ) where
  pub deliver-IsDelivered :
      (bytes chunk : List ℕ) (rest : List (List ℕ)) (error : Option String) (c : Channel)
      → c.queue ≡ chunk ∷ rest
      → IsDelivered bytes c
      → IsDelivered bytes (
          deliver encoded_size chunk error
            (record c { queue = rest; allowance = c.allowance + length chunk }))
  deliver-IsDelivered bytes chunk rest (some error) c e h = record {
    stream = λ f. absurd (
        ground (
          arith,
          finish-finished (some error)
              (record c { queue = rest; allowance = c.allowance + length chunk }),
        ));
    credits =
        finish-credits (some error)
          (record c { queue = rest; allowance = c.allowance + length chunk }) h.credits;
  }
  deliver-IsDelivered bytes chunk rest none c e h = record {
    stream = λ f.
        ap (λ x. x ++ flatten rest)
          (flatten-append c.delivered (chunk ∷ [])
            ∙ ap (λ x. flatten c.delivered ++ x) (append-nil chunk))
        ∙ (append_assoc (flatten c.delivered) chunk (flatten rest)
            ∙ (ap (λ q. flatten c.delivered ++ flatten q) (sym e) ∙ h.stream f));
    credits = omega (
      arith,
      granted-append c.sent (credit_sent (length chunk) ∷ []),
      credit-granted (length chunk),
      h.credits,
      ap length (flatten-append c.delivered (chunk ∷ [])),
      length-append (flatten c.delivered) (chunk ++ []),
      ap length (append-nil chunk),
    );
  }
