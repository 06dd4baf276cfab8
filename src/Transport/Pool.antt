-- ===== src/Transport/Pool.antt =====
-- `DeviceConnectionPool` of AYLink.Web/src/features/deviceTransport/connection.ts. An attempt to connect, the
-- entry that it was started for and the connection that it yields have the same number; the promise of an
-- attempt is its outcome. What a device, an account and the clock are is given by the caller.
use aylink_extra.Prelude.{
  ℕ, ◌+◌, List, [], ◌∷◌, Bool, true, false, ◌&&◌, Option, none, some, if◌then◌else◌, ltb, is_id,
}
use aylink_extra.Prelude.Entries.{put, get_entry, set_entry}
use aylink_extra.Prelude.Text.{String, str_eq}

abbrev pub unavailable_cache_ms : ℕ
unavailable_cache_ms = 30000

pub record PoolEntry : Type 0 where
  pub is_pending : Bool
  pub has_connection : Bool
  pub unavailable_until : ℕ

-- What a promise of `acquire` comes to: a connection, null (use HTTP), or an AbortError.
pub data Outcome : Type 0 where
  undecided unavailable account_changed : Outcome
  connected : (connection : ℕ) → Outcome

-- `device_of` and `scope_of` are the device and the account that an attempt was started for, and
-- `is_open` which connections are open.
pub record Pool : Type 0 where
  pub scope : String
  pub entries : List (String × ℕ)
  pub store : ℕ → PoolEntry
  pub next_entry : ℕ
  pub is_open : ℕ → Bool
  pub outcome : ℕ → Outcome
  pub device_of : ℕ → String
  pub scope_of : ℕ → String

unfoldable pub new_pool : Pool
new_pool = record {
  scope = "";
  entries = [];
  store = λ id. record { is_pending = false; has_connection = false; unavailable_until = 0 };
  next_entry = 0;
  is_open = λ id. false;
  outcome = λ id. undecided;
  device_of = λ id. "";
  scope_of = λ id. "";
}

abbrev pub close_entry : ℕ → Pool → Pool
close_entry id s =
    if (s.store id).has_connection then record s { is_open = put id false s.is_open } else s

abbrev pub close_entries : List (String × ℕ) → Pool → Pool
close_entries [] s = s
close_entries ((device, id) ∷ rest) s = close_entries rest (close_entry id s)

unfoldable pub close : Pool → Pool
close s = record (close_entries s.entries s) { entries = [] }

-- What `acquire` returns: a promise that is settled, or that of an attempt.
pub data Acquired : Type 0 where
  given : (connection : ℕ) → Acquired
  waiting : (attempt : ℕ) → Acquired
  use_http aborted : Acquired

unfoldable pub start : String → Pool → Pool × Acquired
start device s =
    let id = s.next_entry in
    (
      record s {
        entries = set_entry device id s.entries;
        store =
            put id (record { is_pending = true; has_connection = false; unavailable_until = 0 })
              s.store;
        next_entry = id + 1;
        device_of = put id device s.device_of;
        scope_of = put id s.scope s.scope_of;
      },
      waiting id,
    )

unfoldable pub acquire_entry : ℕ → String → Option ℕ → Pool → Pool × Acquired
acquire_entry now device none s = start device s
acquire_entry now device (some id) s =
    if (s.store id).has_connection && s.is_open id
    then (s, given id)
    else if (s.store id).is_pending
    then (s, waiting id)
    else if ltb now (s.store id).unavailable_until
    then (s, use_http)
    else start device (close_entry id s)

abbrev pub enter_scope : String → Pool → Pool
enter_scope scope s = if str_eq scope s.scope then s else record (close s) { scope = scope }

unfoldable pub acquire :
    (scope : String) (now : ℕ) (device : String) (is_aborted : Bool) → Pool → Pool × Acquired
acquire scope now device is_aborted s =
    let here = enter_scope scope s in
    if is_aborted
    then (here, aborted)
    else acquire_entry now device (get_entry device here.entries) here

-- `this.entries.get(deviceID) === current`
unfoldable pub is_current : ℕ → Pool → Bool
is_current id s = is_id (get_entry (s.device_of id) s.entries) id

-- The attempt has connected. An attempt that is no longer current closes its connection.
unfoldable pub on_connected : ℕ → Pool → Pool
on_connected id s =
    if is_current id s
    then record s {
      store = put id (record (s.store id) { is_pending = false; has_connection = true }) s.store;
      is_open = put id true s.is_open;
      outcome = put id (connected id) s.outcome;
    }
    else record s {
      store = put id (record (s.store id) { is_pending = false }) s.store;
      is_open = put id false s.is_open;
      outcome = put id account_changed s.outcome;
    }

-- The attempt has failed.
unfoldable pub on_failed : (now : ℕ) → ℕ → Pool → Pool
on_failed now id s =
    if is_current id s
    then record s {
      store =
          put id
            (record (s.store id) {
              is_pending = false;
              unavailable_until = now + unavailable_cache_ms;
            })
            s.store;
      outcome = put id unavailable s.outcome;
    }
    else record s {
      store = put id (record (s.store id) { is_pending = false }) s.store;
      outcome = put id account_changed s.outcome;
    }

-- The peer of a connection is lost.
unfoldable pub on_lost : ℕ → Pool → Pool
on_lost id s = record s { is_open = put id false s.is_open }
