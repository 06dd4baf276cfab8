-- ===== src/Transport/Runs.antt =====
-- What may happen to a request of AYLink.Web/src/features/deviceTransport/channel.ts, in any order, and the
-- bytes that its log and its queue hold.
use aylink_extra.Prelude.{
  ℕ, ◌+◌, ◌≡◌, refl, ap, sym, ◌∙◌, arith, List, [], ◌∷◌, ◌++◌, Bool, false, Option, append_assoc,
}
use aylink_extra.Transport.Channel.{
  Channel, Sent, request_sent, end_sent, credit_sent, chunk_sent, new_channel,
}
use aylink_extra.Transport.Receiver.{
  EventData, on_message, on_close, on_error, on_abort, cancel_body, pull,
}
use aylink_extra.Transport.Sender.{send_request, resume, read_value, read_done}

-- `closing` is the channel's `readyState` leaving 'open' before `onclose` is called.
pub data Event : Type 0 where
  received : EventData → Event
  closing closed_by_peer channel_failed aborted pulled body_cancelled : Event
  requested : (is_aborted : Bool) → Event
  value_read : (value : List ℕ) → Event
  value_done credit_awaited : Event

module _ (encoded_size : Sent → ℕ) (total : Option ℕ) where
  unfoldable pub step : Event → Channel → Channel
  step (received data_of) c = on_message data_of c
  step closing c = record c { is_open = false }
  step closed_by_peer c = on_close c
  step channel_failed c = on_error c
  step aborted c = on_abort c
  step pulled c = pull encoded_size c
  step body_cancelled c = cancel_body c
  step (requested is_aborted) c = send_request encoded_size total is_aborted c
  step (value_read value) c = read_value total value c
  step value_done c = read_done encoded_size total c
  step credit_awaited c = resume total c

  -- The channel after some events, the latest first.
  unfoldable pub after : List Event → Channel
  after [] = new_channel
  after (e ∷ es) = step e (after es)

-- The bytes of the chunks that were sent, in their order, and the sum of the credits.
unfoldable pub uploaded : List Sent → List ℕ
uploaded [] = []
uploaded (request_sent ∷ rest) = uploaded rest
uploaded (end_sent ∷ rest) = uploaded rest
uploaded (credit_sent bytes ∷ rest) = uploaded rest
uploaded (chunk_sent bytes ∷ rest) = bytes ++ uploaded rest

unfoldable pub granted : List Sent → ℕ
granted [] = 0
granted (request_sent ∷ rest) = granted rest
granted (end_sent ∷ rest) = granted rest
granted (credit_sent bytes ∷ rest) = bytes + granted rest
granted (chunk_sent bytes ∷ rest) = granted rest

pub uploaded-append : (xs ys : List Sent) → uploaded (xs ++ ys) ≡ uploaded xs ++ uploaded ys
unfolding uploaded
uploaded-append [] ys = refl
uploaded-append (request_sent ∷ xs) ys = uploaded-append xs ys
uploaded-append (end_sent ∷ xs) ys = uploaded-append xs ys
uploaded-append (credit_sent bytes ∷ xs) ys = uploaded-append xs ys
uploaded-append (chunk_sent bytes ∷ xs) ys =
    ap (λ us. bytes ++ us) (uploaded-append xs ys)
    ∙ sym (append_assoc bytes (uploaded xs) (uploaded ys))

pub granted-append : (xs ys : List Sent) → granted (xs ++ ys) ≡ granted xs + granted ys
unfolding granted
granted-append [] ys = omega arith
granted-append (request_sent ∷ xs) ys = granted-append xs ys
granted-append (end_sent ∷ xs) ys = granted-append xs ys
granted-append (credit_sent bytes ∷ xs) ys = omega (arith, granted-append xs ys)
granted-append (chunk_sent bytes ∷ xs) ys = granted-append xs ys
