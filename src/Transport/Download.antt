-- ===== src/Transport/Download.antt =====
-- The queue of bytes of AYLink.Web/src/features/deviceTransport/channel.ts over every run.
use aylink_extra.Prelude.{
  ℕ, zero, suc, ◌-◌, min, ◌≡◌, refl, arith, List, [], ◌∷◌, ◌++◌, true, false, Option, none, some,
  length, if_keeps, take, if_splits,
}
use aylink_extra.Transport.Channel.{
  Channel, Sent, request_sent, end_sent, chunk_sent, new_channel, control_error, send_or_finish,
  closed, rtc_chunk_bytes,
}
use aylink_extra.Transport.Receiver.{
  binary, text, shift, pull, on_message, on_close, on_error, on_abort, cancel_body,
}
use aylink_extra.Transport.Sender.{
  send_chunk, send_chunks, can_send, send_request, read_value, report_end, read_done, resume,
  start_upload,
}
use aylink_extra.Transport.Runs.{
  Event, received, closing, closed_by_peer, channel_failed, aborted, pulled, body_cancelled,
  requested, value_read, value_done, credit_awaited, step, after, granted,
}
use aylink_extra.Transport.Delivery.{
  IsDelivered, finish-IsDelivered, sent-IsDelivered, receive_chunk-IsDelivered, deliver-IsDelivered,
  arrived,
}
use aylink_extra.Prelude.Text.{String}
use aylink_extra.Transport.Messages.{text-IsDelivered, cancel_stream-IsDelivered}

granted_nothing : granted [] ≡ 0
unfolding granted
granted_nothing = refl

granted_request : granted (request_sent ∷ []) ≡ 0
unfolding granted
granted_request = refl

granted_end : granted (end_sent ∷ []) ≡ 0
unfolding granted
granted_end = refl

granted_chunk : (bytes : List ℕ) → granted (chunk_sent bytes ∷ []) ≡ 0
unfolding granted
granted_chunk bytes = refl

module _ (bytes : List ℕ) where
  module _ (encoded_size : Sent → ℕ) (total : Option ℕ) where
    shift-IsDelivered :
        (queue : List (List ℕ)) (c : Channel)
        → c.queue ≡ queue
        → IsDelivered bytes c
        → IsDelivered bytes (shift encoded_size queue c)
    shift-IsDelivered [] c e h =
        if_keeps (IsDelivered bytes) c.ended _ _
          (finish-IsDelivered bytes bytes none (record c { body = closed })
            (record { stream = h.stream; credits = h.credits }))
          h
    shift-IsDelivered (chunk ∷ rest) c e h =
        deliver-IsDelivered encoded_size bytes chunk rest _ c e h

    start_upload-IsDelivered :
        (error : Option String)
        → (c : Channel) → IsDelivered bytes c
        → IsDelivered bytes (start_upload encoded_size total error c)
    start_upload-IsDelivered none c h =
        sent-IsDelivered bytes (record c { is_uploading = true }) request_sent granted_request
          (record { stream = h.stream; credits = h.credits })
    start_upload-IsDelivered (some error) c h =
        if_keeps (IsDelivered bytes) _ _ _ h (finish-IsDelivered bytes bytes _ c h)

    send_or_finish-IsDelivered :
        (error : Option String)
        → (c : Channel) → IsDelivered bytes c
        → IsDelivered bytes (send_or_finish encoded_size end_sent error c)
    send_or_finish-IsDelivered none c h = sent-IsDelivered bytes c end_sent granted_end h
    send_or_finish-IsDelivered (some error) c h = finish-IsDelivered bytes bytes _ c h

    report_end-IsDelivered :
        (c : Channel) → IsDelivered bytes c → IsDelivered bytes (report_end encoded_size total c)
    report_end-IsDelivered c h =
        if_keeps (IsDelivered bytes) c.finished _ _ h
          (record { stream = h.stream; credits = h.credits })

    read_done-IsDelivered :
        (c : Channel) → IsDelivered bytes c → IsDelivered bytes (read_done encoded_size total c)
    unfolding read_done
    read_done-IsDelivered c h =
        let idle : IsDelivered bytes (record c { is_uploading = false }) = record {
          stream = h.stream;
          credits = h.credits;
        } in
        let done =
          send_or_finish-IsDelivered
            (control_error encoded_size end_sent (record c { is_uploading = false }))
            (record c { is_uploading = false }) idle in
        if_keeps (IsDelivered bytes) _ _ _
          (if_keeps (IsDelivered bytes) _ _ _ idle (report_end-IsDelivered _ done)) h

    send_chunk-IsDelivered :
        (c : Channel) → IsDelivered bytes c → IsDelivered bytes (send_chunk total c)
    unfolding send_chunk
    send_chunk-IsDelivered c h = record {
      stream = h.stream;
      credits =
          (sent-IsDelivered bytes c
            (chunk_sent (take (min (min rtc_chunk_bytes c.credit) (length c.pending)) c.pending))
            (granted_chunk _) h).credits;
    }

    send_chunks-IsDelivered :
        (fuel : ℕ)
        → (c : Channel) → IsDelivered bytes c
        → IsDelivered bytes (send_chunks total fuel c)
    unfolding send_chunks
    send_chunks-IsDelivered zero c h = h
    send_chunks-IsDelivered (suc fuel) c h =
        if_keeps (IsDelivered bytes) (can_send total c) _ _
          (send_chunks-IsDelivered fuel (send_chunk total c) (send_chunk-IsDelivered c h)) h

    spent-IsDelivered :
        (size : ℕ) (c : Channel)
        → IsDelivered bytes c
        → IsDelivered bytes (record c { credit = c.credit - size })
    spent-IsDelivered size c h = record { stream = h.stream; credits = h.credits }

    resume-IsDelivered : (c : Channel) → IsDelivered bytes c → IsDelivered bytes (resume total c)
    unfolding resume
    resume-IsDelivered c h =
        let k = send_chunks-IsDelivered (length c.pending) c h in
        if_keeps (IsDelivered bytes) _ _ _
          (finish-IsDelivered bytes bytes _ _ (spent-IsDelivered _ _ k)) k

module _ (encoded_size : Sent → ℕ) (total : Option ℕ) where
  step-IsDelivered :
      (e : Event) (es : List Event) (c : Channel)
      → IsDelivered (arrived es) c
      → IsDelivered (arrived (e ∷ es)) (step encoded_size total e c)
  unfolding step on_message on_close on_error on_abort cancel_body send_request read_value arrived
      pull
  step-IsDelivered (received (binary chunk)) es c h =
      if_splits (IsDelivered (arrived es ++ chunk)) c.finished _ _
        (λ e. record { stream = λ f. absurd (ground (arith, e, f)); credits = h.credits })
        (λ e. receive_chunk-IsDelivered (arrived es) chunk c h)
  step-IsDelivered (received (text byte_length parsed)) es c h =
      if_keeps (IsDelivered (arrived es)) _ _ _ h
        (text-IsDelivered (arrived es) byte_length parsed c h)
  step-IsDelivered closing es c h = record { stream = h.stream; credits = h.credits }
  step-IsDelivered closed_by_peer es c h =
      if_keeps (IsDelivered (arrived es)) _ _ _ h
        (finish-IsDelivered (arrived es) (arrived es) _ c h)
  step-IsDelivered channel_failed es c h =
      if_keeps (IsDelivered (arrived es)) _ _ _ h
        (finish-IsDelivered (arrived es) (arrived es) _ c h)
  step-IsDelivered aborted es c h = finish-IsDelivered (arrived es) (arrived es) _ c h
  step-IsDelivered pulled es c h =
      if_keeps (IsDelivered (arrived es)) _ _ _ h
        (shift-IsDelivered (arrived es) encoded_size total c.queue c refl h)
  step-IsDelivered body_cancelled es c h = cancel_stream-IsDelivered (arrived es) c.body c h
  step-IsDelivered (requested is_aborted) es c h =
      if_keeps (IsDelivered (arrived es)) _ _ _ (finish-IsDelivered (arrived es) (arrived es) _ c h)
        (start_upload-IsDelivered (arrived es) encoded_size total _ c h)
  step-IsDelivered (value_read value) es c h =
      if_keeps (IsDelivered (arrived es)) _ _ _
        (resume-IsDelivered (arrived es) encoded_size total (record c { pending = value })
          (record { stream = h.stream; credits = h.credits }))
        h
  step-IsDelivered value_done es c h = read_done-IsDelivered (arrived es) encoded_size total c h
  step-IsDelivered credit_awaited es c h = resume-IsDelivered (arrived es) encoded_size total c h

  -- After any events: as long as the request is not finished, the bytes that its response's body has
  -- yielded, followed by those that wait in the queue, are exactly the bytes of the chunks that arrived, in
  -- their order; and finished or not, the credits granted to the peer add up to the bytes yielded.
  pub after-IsDelivered : (es : List Event) → IsDelivered (arrived es) (after encoded_size total es)
  unfolding after new_channel arrived
  after-IsDelivered [] = record { stream = λ e. refl; credits = granted_nothing }
  after-IsDelivered (e ∷ es) =
      step-IsDelivered e es (after encoded_size total es) (after-IsDelivered es)
