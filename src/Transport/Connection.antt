-- ===== src/Transport/Connection.antt =====
-- `PeerDeviceConnection` of AYLink.Web/src/features/deviceTransport/connection.ts: its fields, with a
-- channel as the number of its request and the idle timer as whether it runs.
use aylink_extra.Prelude.{
  ℕ, ◌+◌, ◌-◌, List, [], ◌∷◌, Bool, false, not, ◌&&◌, Option, none, some, if◌then◌else◌, ◌==◌,
}

abbrev pub idle_timeout_ms : ℕ
idle_timeout_ms = 60000

-- `is_open` is whether the peer's connectionState is 'connected'.
pub record PeerDeviceConnection : Type 0 where
  pub active : ℕ
  pub next_request : ℕ
  pub idle : Option ℕ
  pub pending : List ℕ
  pub is_open : Bool

unfoldable pub reset_idle : PeerDeviceConnection → PeerDeviceConnection
reset_idle c = record c {
  idle = if (c.active == 0) && c.is_open then some idle_timeout_ms else none;
}

unfoldable pub new_peer_device_connection : (is_open : Bool) → PeerDeviceConnection
new_peer_device_connection is_open =
    reset_idle
      (record { active = 0; next_request = 1; idle = none; pending = []; is_open = is_open })

-- The number of the request's channel, or none when the connection is closed.
unfoldable pub request : PeerDeviceConnection → PeerDeviceConnection × Option ℕ
request c = if not c.is_open then (c, none) else (
  record c {
    next_request = c.next_request + 1;
    pending = c.next_request ∷ c.pending;
    active = c.active + 1;
    idle = none;
  },
  some c.next_request,
)

abbrev pub delete_channel : ℕ → List ℕ → List ℕ
delete_channel channel [] = []
delete_channel channel (x ∷ xs) =
    let rest = delete_channel channel xs in if x == channel then rest else x ∷ rest

-- The callback that the request's channel calls when it is finished.
unfoldable pub on_finished : ℕ → PeerDeviceConnection → PeerDeviceConnection
on_finished channel c =
    reset_idle (record c { pending = delete_channel channel c.pending; active = c.active - 1 })

-- The channels that it closes call `on_finished` afterwards.
unfoldable pub close_connection : PeerDeviceConnection → PeerDeviceConnection
close_connection c = record c { idle = none; is_open = false }
