-- ===== src/Transport/Sender.antt =====
-- `sendRequest` of AYLink.Web/src/features/deviceTransport/channel.ts. The loop stops where it waits for
-- credit or for the next value of the request's body, and goes on by another call. `total` is the size
-- of a form's fields.
use aylink_extra.Prelude.{
  ℕ, zero, suc, ◌+◌, ◌-◌, min, List, [], ◌∷◌, ◌++◌, Bool, true, false, not, ◌&&◌, if◌then◌else◌,
  Option, none, some, ◌==◌, length, take, drop, get_or_else,
}
use aylink_extra.Prelude.Text.{String}
use aylink_extra.Transport.Channel.{
  Channel, Sent, request_sent, end_sent, chunk_sent, rtc_chunk_bytes, finish, send_control,
  control_error,
}

module _ (total : Option ℕ) where
  -- `total ? Math.min(loaded, total) : loaded`
  abbrev pub loaded_of : Option ℕ → ℕ → ℕ
  loaded_of none loaded = loaded
  loaded_of (some size) loaded = if size == 0 then loaded else min loaded size

  unfoldable pub send_chunk : Channel → Channel
  send_chunk c =
      let size = min (min rtc_chunk_bytes c.credit) (length c.pending) in
      record c {
        credit = c.credit - size;
        sent = c.sent ++ chunk_sent (take size c.pending) ∷ [];
        pending = drop size c.pending;
        loaded = c.loaded + size;
        progress = some (record { loaded = loaded_of total (c.loaded + size); total = total });
      }

  -- The conditions of the two inner loops: the sender neither waits nor is done with the value.
  unfoldable pub can_send : Channel → Bool
  can_send c =
      c.is_open
      && not c.ended
      && not c.finished
      && not (c.credit == 0)
      && not (length c.pending == 0)

  unfoldable pub send_chunks : ℕ → Channel → Channel
  send_chunks zero c = c
  send_chunks (suc fuel) c =
      let rest = send_chunks fuel (send_chunk c) in if can_send c then rest else c

  -- `channel.send` throws when the channel is not open, after the credit was spent.
  abbrev pub check_open : Channel → Channel
  check_open c =
      let size = min (min rtc_chunk_bytes c.credit) (length c.pending) in
      if not c.is_open && not c.ended && not (c.credit == 0) && not (length c.pending == 0)
      then finish (some "InvalidStateError") (record c { credit = c.credit - size })
      else c

  -- The loop over one value, from where it was waiting.
  unfoldable pub resume : Channel → Channel
  resume c = check_open (send_chunks (length c.pending) c)

  -- The body's reader has given a value, for which the loop waits when nothing is pending.
  unfoldable pub read_value : List ℕ → Channel → Channel
  read_value value c =
      if c.is_uploading && (length c.pending == 0) then resume (record c { pending = value }) else c

module _ (encoded_size : Sent → ℕ) (total : Option ℕ) where
  abbrev pub is_stopped : Channel → Bool
  is_stopped c = elim c.ended [ true ↦ true | false ↦ c.finished ]

  abbrev pub start_upload : Option String → Channel → Channel
  start_upload none c = record c { sent = c.sent ++ request_sent ∷ []; is_uploading = true }
  start_upload (some error) c = if c.ended then c else finish (some error) c

  unfoldable pub send_request : (is_aborted : Bool) → Channel → Channel
  send_request is_aborted c =
      if is_aborted
      then finish (some "AbortError") c
      else start_upload (control_error encoded_size request_sent c) c

  abbrev pub report_end : Channel → Channel
  report_end c = if c.finished then c else record c {
    progress =
        some (record {
          loaded = get_or_else total c.loaded;
          total = some (get_or_else total c.loaded);
        });
  }

  -- The body's reader is done, or there is no body.
  unfoldable pub read_done : Channel → Channel
  read_done c =
      if c.is_uploading && (length c.pending == 0)
      then (if is_stopped c
          then record c { is_uploading = false }
          else report_end (send_control encoded_size end_sent (record c { is_uploading = false })))
      else c
