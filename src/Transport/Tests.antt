-- ===== src/Transport/Tests.antt =====
-- Runs of the transport at concrete inputs.
use aylink_extra.Prelude.{ℕ, ◌≡◌, inr, refl, List, [], ◌∷◌, true, false, none, some}
use aylink_extra.Prelude.Int.{pos}
use aylink_extra.Transport.Channel.{unanswered, absent, Channel, Sent}
use aylink_extra.Transport.Receiver.{EventData, binary, text, message}
use aylink_extra.Transport.Sender.{can_send, resume}
use aylink_extra.Transport.Runs.{Event, received, pulled, requested, value_read, value_done, after}
use aylink_extra.Transport.Upload.{IsSentFrom}
use aylink_extra.Transport.Loop.{resume-IsSentFrom}
use aylink_extra.Transport.Flow.{IsFlowing}
use aylink_extra.Transport.Windows.{after-IsFlowing}
use aylink_extra.Transport.Delivery.{IsDelivered, arrived}
use aylink_extra.Transport.Download.{after-IsDelivered}
use aylink_extra.Transport.Connection.{request, new_peer_device_connection}
use aylink_extra.Transport.Idle.{
  requested as asked, created, stepped, IsCounted, Reachable-IsCounted,
}
use aylink_extra.Transport.Pool.{
  acquire, new_pool, acquire_entry, start, close, on_connected, is_current,
}
use aylink_extra.Transport.Accounts.{IsOwned}
use aylink_extra.Transport.Acquired.{
  Event as PoolEvent, acquired, has_connected, after as pool_after, after-IsOwned, IsFor,
  acquire-IsFor,
}
use aylink_extra.Transport.Terminal.{create_terminal_connection, on_value, take_lines}
use aylink_extra.Transport.Lines.{receive_all, HasLines, receive_all-HasLines}
use aylink_extra.Prelude.Entries.{get_entry, set_entry}

abbrev sizes : Sent → ℕ
sizes m = 40

abbrev low_credit : Channel
low_credit = record {
  queue = [];
  allowance = 262144;
  credit = 2;
  ended = false;
  finished = false;
  failed = none;
  response_started = false;
  is_open = true;
  response = unanswered;
  body = absent;
  delivered = [];
  sent = [];
  is_uploading = true;
  pending = 7 ∷ 8 ∷ 9 ∷ [];
  loaded = 0;
  progress = none;
  finishes = 0;
}

resume-IsSentFrom_example :
    IsSentFrom low_credit (resume none low_credit)
    × (can_send none (resume none low_credit) ≡ false)
resume-IsSentFrom_example =
    resume-IsSentFrom none low_credit
      (record { opened = refl; not_ended = refl; not_finished = refl })

abbrev answer : EventData
answer = text 40 (
    message (record {
      type_name = "response";
      status = some (pos 200);
      headers = [];
      headers_error = none;
      bytes = none;
      error = "";
    }))

abbrev events : List Event
events =
    pulled
    ∷ received (binary (3 ∷ 4 ∷ []))
    ∷ received (binary (1 ∷ 2 ∷ []))
    ∷ received answer
    ∷ value_done
    ∷ value_read (5 ∷ 6 ∷ [])
    ∷ requested false
    ∷ []

after-IsFlowing_example : IsFlowing (after sizes none events)
after-IsFlowing_example = after-IsFlowing sizes none events

after-IsDelivered_example : IsDelivered (arrived events) (after sizes none events)
after-IsDelivered_example = after-IsDelivered sizes none events

Reachable-IsCounted_example : IsCounted (request (new_peer_device_connection true)).0
Reachable-IsCounted_example =
    Reachable-IsCounted (stepped (created true) (asked (new_peer_device_connection true)))

abbrev pool_events : List PoolEvent
pool_events = has_connected 0 ∷ acquired "7" 100 "phone" false ∷ []

after-IsOwned_example : IsOwned (pool_after pool_events)
after-IsOwned_example = after-IsOwned pool_events

acquire-IsFor_example :
    IsFor "phone" "8" 1 (acquire "8" 200 "phone" false (pool_after pool_events)).0
unfolding acquire pool_after new_pool acquire_entry start close on_connected is_current get_entry
    set_entry
acquire-IsFor_example = acquire-IsFor pool_events "8" 200 "phone" false 1 (inr refl)

abbrev values : List (List ℕ)
values = (104 ∷ 105 ∷ []) ∷ (10 ∷ 33 ∷ []) ∷ []

receive_all-HasLines_example :
    HasLines (104 ∷ 105 ∷ 10 ∷ 33 ∷ []) (receive_all values create_terminal_connection)
unfolding receive_all create_terminal_connection on_value take_lines
receive_all-HasLines_example = receive_all-HasLines values refl
