-- ===== src/Transport/Attempts.antt =====
-- The attempts of `DeviceConnectionPool` of AYLink.Web/src/features/deviceTransport/connection.ts keep the devices and
-- accounts that connections were made for.
use aylink_extra.Prelude.{
  ℕ, ◌≡◌, ◌⊎◌, inl, inr, refl, ap, sym, ◌∙◌, arith, List, Bool, true, false, ◌&&◌, Option, none,
  some, ltb, Bool-cases, if_keeps, if_splits, is_id,
}
use aylink_extra.Prelude.Text.{String, str_eq, str_eq_sound}
use aylink_extra.Prelude.Entries.{
  put, get_entry, set_entry, get_entry-set_entry, get_entry-set_entry_other,
}
use aylink_extra.Transport.Pool.{
  Pool, Acquired, close_entry, start, acquire_entry, enter_scope, acquire, is_current, on_connected,
  on_failed, on_lost,
}
use aylink_extra.Transport.Accounts.{IsOwned, close_entry-others, enter_scope-IsOwned}

-- An entry after an assignment is the new one or an earlier one of another device.
set_entry-cases :
    (device d : String) (n id : ℕ) (entries : List (String × ℕ))
    → get_entry d (set_entry device n entries) ≡ some id
    → ((device ≡ d) × (n ≡ id)) ⊎ (get_entry d entries ≡ some id)
set_entry-cases device d n id entries f = elim (Bool-cases (str_eq device d)) [
  | inl e ↦
      let same = str_eq_sound device d e in
      inl (
        same,
        ground (
          arith,
          ap (λ k. get_entry k (set_entry device n entries)) same,
          get_entry-set_entry device n entries,
          f,
        ),
      )
  | inr e ↦ inr (sym (get_entry-set_entry_other d device n entries e) ∙ f)
]

start_held :
    (device : String) (s : Pool)
    → ((id : ℕ) → get_entry device s.entries ≡ some id → s.is_open id ≡ false)
    → IsOwned s
    → (id : ℕ) → s.is_open id ≡ true
    → get_entry (put s.next_entry device s.device_of id) (set_entry device s.next_entry s.entries)
      ≡ some id
start_held device s stale h id f =
    let old = h.held id f in
    let low = h.below (s.device_of id) id old in
    let kept : put s.next_entry device s.device_of id ≡ s.device_of id = ground (arith, low) in
    elim (Bool-cases (str_eq device (s.device_of id))) [
      | inl e ↦
          let same = str_eq_sound device (s.device_of id) e in
          absurd (ground (arith, stale id (ap (λ d. get_entry d s.entries) same ∙ old), f))
      | inr e ↦
          ap (λ d. get_entry d (set_entry device s.next_entry s.entries)) kept
          ∙ (get_entry-set_entry_other (s.device_of id) device s.next_entry s.entries e ∙ old)
    ]

-- A new attempt replaces an entry whose connection is not open.
start-IsOwned :
    (device : String) (s : Pool)
    → ((id : ℕ) → get_entry device s.entries ≡ some id → s.is_open id ≡ false)
    → IsOwned s
    → IsOwned (start device s).0
unfolding start
start-IsOwned device s stale h = record {
  below = λ d id f. elim (set_entry-cases device d s.next_entry id s.entries f) [
    | inl k ↦ ground (arith, k.0, k.1)
    | inr k ↦ ground (arith, h.below d id k, k)
  ];
  devices = λ d id f. elim (set_entry-cases device d s.next_entry id s.entries f) [
    | inl k ↦ ground (arith, k.0, k.1)
    | inr k ↦ ground (arith, h.below d id k, h.devices d id k)
  ];
  scopes = λ d id f. elim (set_entry-cases device d s.next_entry id s.entries f) [
    | inl k ↦ ground (arith, k.0, k.1)
    | inr k ↦ ground (arith, h.below d id k, h.scopes d id k)
  ];
  held = λ id f. start_held device s stale h id f;
  has_connection = λ id f.
      ground (arith, h.held id f, h.below (s.device_of id) id (h.held id f), h.has_connection id f);
}

close_entry-IsOwned :
    (id : ℕ) (s : Pool) → s.is_open id ≡ false → IsOwned s → IsOwned (close_entry id s)
close_entry-IsOwned id s e h = record {
  below = λ d i f. ground (arith, h.below d i);
  devices = λ d i f. ground (arith, h.devices d i);
  scopes = λ d i f. ground (arith, h.scopes d i);
  held = λ i f. ground (arith, h.held i);
  has_connection = λ i f. ground (arith, h.has_connection i);
}

stale_entry :
    (id : ℕ) (s : Pool)
    → IsOwned s
    → ((s.store id).has_connection && s.is_open id) ≡ false
    → s.is_open id ≡ false
stale_entry id s h e = ground (arith, h.has_connection id)

acquire_entry-IsOwned :
    (now : ℕ) (device : String) (entry : Option ℕ) (s : Pool)
    → get_entry device s.entries ≡ entry
    → IsOwned s
    → IsOwned (acquire_entry now device entry s).0
unfolding acquire_entry
acquire_entry-IsOwned now device none s e h =
    start-IsOwned device s (λ id f. absurd (ground (arith, e, f))) h
acquire_entry-IsOwned now device (some id) s e h =
    if_splits (λ (r : Pool × Acquired). IsOwned r.0) ((s.store id).has_connection && s.is_open id) _
      _ (λ f. h)
      (λ f.
        if_keeps (λ (r : Pool × Acquired). IsOwned r.0) (s.store id).is_pending _ _ h
          (if_keeps (λ (r : Pool × Acquired). IsOwned r.0) (ltb now (s.store id).unavailable_until)
            _ _ h
            (start-IsOwned device (close_entry id s)
              (λ i k. ground (arith, close_entry-others id s, e, k, f, h.has_connection id))
              (close_entry-IsOwned id s (stale_entry id s h f) h))))

pub acquire-IsOwned :
    (scope : String) (now : ℕ) (device : String) (is_aborted : Bool) (s : Pool)
    → IsOwned s
    → IsOwned (acquire scope now device is_aborted s).0
unfolding acquire
acquire-IsOwned scope now device is_aborted s h =
    let here = enter_scope-IsOwned scope s h in
    if_keeps (λ (r : Pool × Acquired). IsOwned r.0) is_aborted _ _ here
      (acquire_entry-IsOwned now device (get_entry device (enter_scope scope s).entries)
        (enter_scope scope s) refl here)

current_entry : (id : ℕ) (entry : Option ℕ) → is_id entry id ≡ true → entry ≡ some id
current_entry id entry e = ground arith

pub on_connected-IsOwned : (id : ℕ) (s : Pool) → IsOwned s → IsOwned (on_connected id s)
unfolding on_connected is_current
on_connected-IsOwned id s h =
    if_splits IsOwned (is_id (get_entry (s.device_of id) s.entries) id) _ _
      (λ e. record {
        below = h.below;
        devices = h.devices;
        scopes = h.scopes;
        held = λ i f.
            ground (arith, h.held i, current_entry id (get_entry (s.device_of id) s.entries) e);
        has_connection = λ i f. ground (arith, h.has_connection i);
      })
      (λ e. record {
        below = h.below;
        devices = h.devices;
        scopes = h.scopes;
        held = λ i f. ground (arith, h.held i);
        has_connection = λ i f. ground (arith, h.has_connection i);
      })

pub on_failed-IsOwned : (now id : ℕ) (s : Pool) → IsOwned s → IsOwned (on_failed now id s)
unfolding on_failed is_current
on_failed-IsOwned now id s h =
    if_keeps IsOwned (is_id (get_entry (s.device_of id) s.entries) id) _ _
      (record {
        below = h.below;
        devices = h.devices;
        scopes = h.scopes;
        held = h.held;
        has_connection = λ i f. ground (arith, h.has_connection i);
      })
      (record {
        below = h.below;
        devices = h.devices;
        scopes = h.scopes;
        held = h.held;
        has_connection = λ i f. ground (arith, h.has_connection i);
      })

pub on_lost-IsOwned : (id : ℕ) (s : Pool) → IsOwned s → IsOwned (on_lost id s)
unfolding on_lost
on_lost-IsOwned id s h = record {
  below = h.below;
  devices = h.devices;
  scopes = h.scopes;
  held = λ i f. ground (arith, h.held i);
  has_connection = λ i f. ground (arith, h.has_connection i);
}
