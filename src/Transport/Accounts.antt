-- ===== src/Transport/Accounts.antt =====
-- The connections of `DeviceConnectionPool` of AYLink.Web/src/features/deviceTransport/connection.ts against the
-- devices and accounts that they were made for.
use aylink_extra.Prelude.{
  ℕ, ◌<◌, ◌≡◌, inl, inr, refl, sym, arith, List, [], ◌∷◌, true, false, some, Bool-cases, if_keeps,
}
use aylink_extra.Prelude.Text.{String, str_eq, str_eq_sound}
use aylink_extra.Prelude.Entries.{get_entry}
use aylink_extra.Transport.Pool.{Pool, close_entry, close_entries, close, enter_scope}

-- An entry's attempt was started for its device and the pool's account, and every open connection is that
-- of an entry.
pub record IsOwned (s : Pool) : Type 0 where
  pub below : (device : String) (id : ℕ) → get_entry device s.entries ≡ some id → id < s.next_entry
  pub devices :
      (device : String) (id : ℕ) → get_entry device s.entries ≡ some id → s.device_of id ≡ device
  pub scopes :
      (device : String) (id : ℕ) → get_entry device s.entries ≡ some id → s.scope_of id ≡ s.scope
  pub held : (id : ℕ) → s.is_open id ≡ true → get_entry (s.device_of id) s.entries ≡ some id
  pub has_connection : (id : ℕ) → s.is_open id ≡ true → (s.store id).has_connection ≡ true

close_entry-open :
    (i id : ℕ) (s : Pool)
    → (close_entry i s).is_open id ≡ true
    → (s.is_open id ≡ true) × ((i ≡ id) → (s.store id).has_connection ≡ false)
close_entry-open i id s e = ground arith

pub close_entry-others :
    (i : ℕ) (s : Pool)
    → ((close_entry i s).store ≡ s.store)
      × ((close_entry i s).next_entry ≡ s.next_entry)
      × ((close_entry i s).entries ≡ s.entries)
      × ((close_entry i s).device_of ≡ s.device_of)
      × ((close_entry i s).scope_of ≡ s.scope_of)
      × ((close_entry i s).scope ≡ s.scope)
close_entry-others i s = ground arith

-- A connection that is open after the entries were closed was open before and is that of none of them.
close_entries-open :
    (entries : List (String × ℕ)) (s : Pool) (device : String) (id : ℕ)
    → (close_entries entries s).is_open id ≡ true
    → (s.is_open id ≡ true)
      × (get_entry device entries ≡ some id → (s.store id).has_connection ≡ false)
unfolding get_entry
close_entries-open [] s device id e = (e, λ f. absurd (ground arith))
close_entries-open ((d, i) ∷ rest) s device id e =
    let later = close_entries-open rest (close_entry i s) device id e in
    let now = close_entry-open i id s later.0 in
    let same = (close_entry-others i s).0 in (now.0, λ f. ground (arith, later.1, now.1, same, f))

close_entries-others :
    (entries : List (String × ℕ)) (s : Pool)
    → ((close_entries entries s).store ≡ s.store)
      × ((close_entries entries s).next_entry ≡ s.next_entry)
      × ((close_entries entries s).device_of ≡ s.device_of)
      × ((close_entries entries s).scope_of ≡ s.scope_of)
      × ((close_entries entries s).scope ≡ s.scope)
close_entries-others [] s = (refl, refl, refl, refl, refl)
close_entries-others ((d, i) ∷ rest) s =
    ground (arith, close_entries-others rest (close_entry i s), close_entry-others i s)

-- A closed pool has no open connection.
close-quiet : (s : Pool) → IsOwned s → (id : ℕ) → (close s).is_open id ≡ false
unfolding close
close-quiet s h id = elim (Bool-cases ((close_entries s.entries s).is_open id)) [
  | inr e ↦ e
  | inl e ↦
      let k = close_entries-open s.entries s (s.device_of id) id e in
      absurd (ground (arith, k.1 (h.held id k.0), h.has_connection id k.0))
]

pub empty-IsOwned : (s : Pool) → s.entries ≡ [] → ((id : ℕ) → s.is_open id ≡ false) → IsOwned s
unfolding get_entry
empty-IsOwned s e q = record {
  below = λ d id f. absurd (ground (arith, e, f));
  devices = λ d id f. absurd (ground (arith, e, f));
  scopes = λ d id f. absurd (ground (arith, e, f));
  held = λ id f. absurd (ground (arith, q id));
  has_connection = λ id f. absurd (ground (arith, q id));
}

close-entries : (s : Pool) → (close s).entries ≡ []
unfolding close
close-entries s = refl

pub close-IsOwned : (s : Pool) → IsOwned s → IsOwned (close s)
close-IsOwned s h = empty-IsOwned (close s) (close-entries s) (close-quiet s h)

pub enter_scope-IsOwned : (scope : String) (s : Pool) → IsOwned s → IsOwned (enter_scope scope s)
enter_scope-IsOwned scope s h =
    if_keeps IsOwned (str_eq scope s.scope) _ _ h
      (empty-IsOwned (record (close s) { scope = scope }) (close-entries s) (close-quiet s h))

pub enter_scope-scope : (scope : String) (s : Pool) → (enter_scope scope s).scope ≡ scope
enter_scope-scope scope s = elim (Bool-cases (str_eq scope s.scope)) [
  | inl e ↦ rw e (sym (str_eq_sound scope s.scope e))
  | inr e ↦ rw e refl
]
