-- ===== src/Transport/Acquired.antt =====
-- What `acquire` of AYLink.Web/src/features/deviceTransport/connection.ts gives, over every run of a pool.
use aylink_extra.Prelude.{
  ℕ, ◌≡◌, ◌⊎◌, refl, ◌∙◌, arith, List, [], ◌∷◌, Bool, true, false, Option, none, some,
}
use aylink_extra.Prelude.Text.{String}
use aylink_extra.Prelude.Entries.{get_entry}
use aylink_extra.Transport.Pool.{
  Pool, Acquired, given, waiting, new_pool, close, start, acquire_entry, enter_scope, acquire,
  on_connected, on_failed, on_lost,
}
use aylink_extra.Transport.Accounts.{
  empty-IsOwned, IsOwned, close-IsOwned, close_entry-others, enter_scope-IsOwned, enter_scope-scope,
}
use aylink_extra.Transport.Attempts.{
  acquire-IsOwned, on_connected-IsOwned, on_lost-IsOwned, on_failed-IsOwned,
}

pub data Event : Type 0 where
  acquired : (scope : String) (now : ℕ) (device : String) (is_aborted : Bool) → Event
  has_connected was_lost : (attempt : ℕ) → Event
  has_failed : (now attempt : ℕ) → Event
  was_closed : Event

abbrev pub step : Event → Pool → Pool
step (acquired scope now device is_aborted) s = (acquire scope now device is_aborted s).0
step (has_connected attempt) s = on_connected attempt s
step (was_lost attempt) s = on_lost attempt s
step (has_failed now attempt) s = on_failed now attempt s
step was_closed s = close s

-- The pool after some events, the latest first.
unfoldable pub after : List Event → Pool
after [] = new_pool
after (e ∷ es) = step e (after es)

step-IsOwned : (e : Event) (s : Pool) → IsOwned s → IsOwned (step e s)
step-IsOwned (acquired scope now device is_aborted) s h =
    acquire-IsOwned scope now device is_aborted s h
step-IsOwned (has_connected attempt) s h = on_connected-IsOwned attempt s h
step-IsOwned (was_lost attempt) s h = on_lost-IsOwned attempt s h
step-IsOwned (has_failed now attempt) s h = on_failed-IsOwned now attempt s h
step-IsOwned was_closed s h = close-IsOwned s h

-- After any events, in any order: the attempt of each entry of the pool was started for the entry's device
-- and for the pool's account, and every connection that is open is that of the entry of its device: none
-- is left open outside the pool, and no device has two.
pub after-IsOwned : (es : List Event) → IsOwned (after es)
unfolding after new_pool
after-IsOwned [] = empty-IsOwned new_pool refl (λ id. refl)
after-IsOwned (e ∷ es) = step-IsOwned e (after es) (after-IsOwned es)

-- The attempt was started for the device and the account.
abbrev pub IsFor : String → String → ℕ → Pool → Type 0
IsFor device scope attempt s = (s.device_of attempt ≡ device) × (s.scope_of attempt ≡ scope)

abbrev pub Promises : ℕ → Acquired → Type 0
Promises attempt a = (a ≡ given attempt) ⊎ (a ≡ waiting attempt)

acquire_entry-IsFor :
    (now : ℕ) (device : String) (entry : Option ℕ) (s : Pool) (attempt : ℕ)
    → get_entry device s.entries ≡ entry
    → IsOwned s
    → Promises attempt (acquire_entry now device entry s).1
    → IsFor device s.scope attempt (acquire_entry now device entry s).0
unfolding acquire_entry start
acquire_entry-IsFor now device none s attempt e h k = ground arith
acquire_entry-IsFor now device (some id) s attempt e h k =
    ground (arith, h.devices device id e, h.scopes device id e, close_entry-others id s)

-- After any events, whatever `acquire` gives or waits for, when it is asked by an account for a device, is a
-- connection or an attempt that was started for that device by that same account: no account is
-- given a connection of another one.
pub acquire-IsFor :
    (es : List Event) (scope : String) (now : ℕ) (device : String) (is_aborted : Bool) (attempt : ℕ)
    → Promises attempt (acquire scope now device is_aborted (after es)).1
    → IsFor device scope attempt (acquire scope now device is_aborted (after es)).0
unfolding acquire
acquire-IsFor es scope now device true attempt p = ground arith
acquire-IsFor es scope now device false attempt p =
    let here = enter_scope scope (after es) in
    let k =
      acquire_entry-IsFor now device (get_entry device here.entries) here attempt refl
        (enter_scope-IsOwned scope (after es) (after-IsOwned es)) p in
    (k.0, k.1 ∙ enter_scope-scope scope (after es))
