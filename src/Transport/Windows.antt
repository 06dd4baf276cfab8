-- ===== src/Transport/Windows.antt =====
-- The windows of a request of AYLink.Web/src/features/deviceTransport/channel.ts over every run.
use aylink_extra.Prelude.{
  ℕ, zero, suc, ◌+◌, ◌-◌, ◌≡◌, refl, ap, arith, List, [], ◌∷◌, Bool, false, Option, none, some,
  length, if_keeps, flatten, length-append, if_splits,
}
use aylink_extra.Transport.Channel.{
  readable, absent, closed, errored, Channel, Sent, new_channel, send_or_finish, UploadProgress,
  Body, end_sent, errored,
}
use aylink_extra.Transport.Flow.{
  IsFlowing, finish-IsFlowing, close-IsFlowing, receive-IsFlowing, has_body,
}
use aylink_extra.Transport.Receiver.{
  shift, deliver, pull, on_message, on_close, on_error, on_abort, cancel_body, cancel_stream,
}
use aylink_extra.Transport.Sender.{
  send_chunk, send_chunks, can_send, resume, read_value, read_done, send_request, start_upload,
  report_end,
}
use aylink_extra.Transport.Runs.{
  received, closing, closed_by_peer, channel_failed, aborted, pulled, body_cancelled, requested,
  value_read, value_done, credit_awaited, Event, step, after, received, requested, value_read,
}
use aylink_extra.Prelude.Text.{String}

send_chunk-IsFlowing :
    (total : Option ℕ) (c : Channel) → IsFlowing c → IsFlowing (send_chunk total c)
unfolding send_chunk
send_chunk-IsFlowing total c h = record {
  window = h.window;
  credit = omega (arith, h.credit);
  once = h.once;
  answered = h.answered;
  started = h.started;
  has_started = h.has_started;
  end_started = h.end_started;
}

send_chunks-IsFlowing :
    (total : Option ℕ) (fuel : ℕ) (c : Channel) → IsFlowing c → IsFlowing (send_chunks total fuel c)
unfolding send_chunks
send_chunks-IsFlowing total zero c h = h
send_chunks-IsFlowing total (suc fuel) c h =
    if_keeps IsFlowing (can_send total c) _ _
      (send_chunks-IsFlowing total fuel (send_chunk total c) (send_chunk-IsFlowing total c h)) h

spent-IsFlowing :
    (size : ℕ) (c : Channel) → IsFlowing c → IsFlowing (record c { credit = c.credit - size })
spent-IsFlowing size c h = record {
  window = h.window;
  credit = omega (arith, h.credit);
  once = h.once;
  answered = h.answered;
  started = h.started;
  has_started = h.has_started;
  end_started = h.end_started;
}

resume-IsFlowing : (total : Option ℕ) (c : Channel) → IsFlowing c → IsFlowing (resume total c)
unfolding resume
resume-IsFlowing total c h =
    let k = send_chunks-IsFlowing total (length c.pending) c h in
    if_keeps IsFlowing _ _ _ (finish-IsFlowing "InvalidStateError" _ (spent-IsFlowing _ _ k)) k

-- The fields that the windows do not depend on.
others-IsFlowing :
    (c : Channel) (is_open is_uploading : Bool) (sent : List Sent) (delivered : List (List ℕ))
    (pending : List ℕ) (progress : Option UploadProgress)
    → IsFlowing c
    → IsFlowing (record c {
      is_open = is_open;
      is_uploading = is_uploading;
      sent = sent;
      delivered = delivered;
      pending = pending;
      progress = progress;
    })
others-IsFlowing c is_open is_uploading sent delivered pending progress h = record {
  window = h.window;
  credit = h.credit;
  once = h.once;
  answered = h.answered;
  started = h.started;
  has_started = h.has_started;
  end_started = h.end_started;
}

deliver-IsFlowing :
    (encoded_size : Sent → ℕ) (chunk : List ℕ) (error : Option String) (c : Channel)
    → IsFlowing c
    → IsFlowing (deliver encoded_size chunk error c)
deliver-IsFlowing encoded_size chunk none c h = others-IsFlowing c _ _ _ _ _ _ h
deliver-IsFlowing encoded_size chunk (some error) c h = finish-IsFlowing error c h

shift-IsFlowing :
    (encoded_size : Sent → ℕ) (queue : List (List ℕ)) (c : Channel)
    → c.queue ≡ queue
    → IsFlowing c
    → IsFlowing (shift encoded_size queue c)
shift-IsFlowing encoded_size [] c e h =
    if_splits IsFlowing c.ended _ _ (λ f. close-IsFlowing c (h.end_started f) h) (λ f. h)
shift-IsFlowing encoded_size (chunk ∷ rest) c e h =
    deliver-IsFlowing encoded_size chunk _
      (record c { queue = rest; allowance = c.allowance + length chunk })
      (record {
        window =
            omega
              (arith, h.window, ap (λ q. length (flatten q)) e, length-append chunk (flatten rest));
        credit = h.credit;
        once = h.once;
        answered = h.answered;
        started = h.started;
        has_started = h.has_started;
        end_started = h.end_started;
      })

send_or_finish-IsFlowing :
    (encoded_size : Sent → ℕ) (m : Sent) (error : Option String) (c : Channel)
    → IsFlowing c
    → IsFlowing (send_or_finish encoded_size m error c)
send_or_finish-IsFlowing encoded_size m none c h = others-IsFlowing c _ _ _ _ _ _ h
send_or_finish-IsFlowing encoded_size m (some error) c h = finish-IsFlowing error c h

pulled-IsFlowing :
    (encoded_size : Sent → ℕ) (c : Channel) → IsFlowing c → IsFlowing (pull encoded_size c)
unfolding pull
pulled-IsFlowing encoded_size c h =
    if_keeps IsFlowing _ _ _ h (shift-IsFlowing encoded_size c.queue c refl h)

module _ (encoded_size : Sent → ℕ) (total : Option ℕ) where
  start_upload-IsFlowing :
      (error : Option String) (c : Channel)
      → IsFlowing c
      → IsFlowing (start_upload encoded_size total error c)
  start_upload-IsFlowing none c h = others-IsFlowing c _ _ _ _ _ _ h
  start_upload-IsFlowing (some error) c h = if_keeps IsFlowing _ _ _ h (finish-IsFlowing error c h)

  report_end-IsFlowing : (c : Channel) → IsFlowing c → IsFlowing (report_end encoded_size total c)
  report_end-IsFlowing c h = if_keeps IsFlowing c.finished _ _ h (others-IsFlowing c _ _ _ _ _ _ h)

  read_done-IsFlowing : (c : Channel) → IsFlowing c → IsFlowing (read_done encoded_size total c)
  unfolding read_done
  read_done-IsFlowing c h =
      let idle = others-IsFlowing c c.is_open false c.sent c.delivered c.pending c.progress h in
      let closed_off = send_or_finish-IsFlowing encoded_size end_sent _ _ idle in
      if_keeps IsFlowing _ _ _ (if_keeps IsFlowing _ _ _ idle (report_end-IsFlowing _ closed_off)) h

  cancel_stream-IsFlowing :
      (body : Body) (c : Channel) → c.body ≡ body → IsFlowing c → IsFlowing (cancel_stream body c)
  cancel_stream-IsFlowing readable c e h = close-IsFlowing c (h.has_started (ap has_body e)) h
  cancel_stream-IsFlowing absent c e h = h
  cancel_stream-IsFlowing closed c e h = h
  cancel_stream-IsFlowing (errored error) c e h = h

  step-IsFlowing : (e : Event) (c : Channel) → IsFlowing c → IsFlowing (step encoded_size total e c)
  unfolding step on_message on_close on_error on_abort cancel_body send_request read_value
  step-IsFlowing (received d) c h = if_keeps IsFlowing _ _ _ h (receive-IsFlowing d c h)
  step-IsFlowing closing c h = record {
    window = h.window;
    credit = h.credit;
    once = h.once;
    answered = h.answered;
    started = h.started;
    has_started = h.has_started;
    end_started = h.end_started;
  }
  step-IsFlowing closed_by_peer c h = if_keeps IsFlowing _ _ _ h (finish-IsFlowing _ c h)
  step-IsFlowing channel_failed c h = if_keeps IsFlowing _ _ _ h (finish-IsFlowing _ c h)
  step-IsFlowing aborted c h = finish-IsFlowing _ c h
  step-IsFlowing pulled c h = pulled-IsFlowing encoded_size c h
  step-IsFlowing body_cancelled c h = cancel_stream-IsFlowing c.body c refl h
  step-IsFlowing (requested is_aborted) c h =
      if_keeps IsFlowing _ _ _ (finish-IsFlowing _ c h) (start_upload-IsFlowing _ c h)
  step-IsFlowing (value_read value) c h =
      if_keeps IsFlowing _ _ _ (resume-IsFlowing total _ (others-IsFlowing c _ _ _ _ _ _ h)) h
  step-IsFlowing value_done c h = read_done-IsFlowing c h
  step-IsFlowing credit_awaited c h = resume-IsFlowing total c h

  -- After any events, in any order: what the peer may still send and what waits in the queue make up the
  -- whole receive window, the credit never exceeds its window, the request is finished at most once, and
  -- once it is finished its promise is settled.
  pub after-IsFlowing : (es : List Event) → IsFlowing (after encoded_size total es)
  unfolding after new_channel
  after-IsFlowing [] = record {
    window = refl;
    credit = omega arith;
    once = refl;
    answered = λ e. ground arith;
    started = λ e. ground arith;
    has_started = λ e. ground arith;
    end_started = λ e. ground arith;
  }
  after-IsFlowing (e ∷ es) = step-IsFlowing e (after encoded_size total es) (after-IsFlowing es)
