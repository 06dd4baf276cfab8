-- ===== src/Transport/Idle.antt =====
-- The idle timer of AYLink.Web/src/features/deviceTransport/connection.ts over every run.
use aylink_extra.Prelude.{
  ℕ, ◌+◌, ◌≤◌, ◌<◌, ◌≡◌, ◌⊎◌, inl, inr, refl, ap, arith, List, [], ◌∷◌, Bool, true, false, not,
  Option, some, ◌==◌, Bool-cases, length, is_some, if_keeps,
}
use aylink_extra.Transport.Connection.{
  PeerDeviceConnection, request, new_peer_device_connection, delete_channel, on_finished,
  close_connection, reset_idle,
}

abbrev pub Member : ℕ → List ℕ → Type 0
Member n [] = ⊥
Member n (x ∷ xs) = (x ≡ n) ⊎ Member n xs

abbrev pub DistinctBelow : ℕ → List ℕ → Type 0
DistinctBelow n [] = Unit
DistinctBelow n (x ∷ xs) = (x < n) × (DistinctBelow x xs)

-- What may happen to a connection: a channel finishes once, and only while it is pending; the timer
-- fires only while it runs.
pub data Step : PeerDeviceConnection → PeerDeviceConnection → Type 0 where
  requested : (c : PeerDeviceConnection) → Step c (request c).0
  finished :
      (channel : ℕ) (c : PeerDeviceConnection)
      → Member channel c.pending
      → Step c (on_finished channel c)
  lost : (c : PeerDeviceConnection) → Step c (record c { is_open = false })
  closed : (c : PeerDeviceConnection) → Step c (close_connection c)
  timed_out : (ms : ℕ) (c : PeerDeviceConnection) → c.idle ≡ some ms → Step c (close_connection c)

pub data Reachable : PeerDeviceConnection → Type 0 where
  created : (is_open : Bool) → Reachable (new_peer_device_connection is_open)
  stepped : {c d : PeerDeviceConnection} → Reachable c → Step c d → Reachable d

pub record IsCounted (c : PeerDeviceConnection) : Type 0 where
  pub counted : c.active ≡ length c.pending
  pub distinct : DistinctBelow c.next_request c.pending
  pub at_rest : is_some c.idle ≡ true → c.pending ≡ []

DistinctBelow-weaken : (n m : ℕ) (xs : List ℕ) → n ≤ m → DistinctBelow n xs → DistinctBelow m xs
DistinctBelow-weaken n m [] h k = k
DistinctBelow-weaken n m (x ∷ xs) h k = (omega (arith, k.0), k.1)

delete_channel-absent :
    (channel n : ℕ) (xs : List ℕ)
    → n ≤ channel
    → DistinctBelow n xs
    → delete_channel channel xs ≡ xs
delete_channel-absent channel n [] h k = refl
delete_channel-absent channel n (x ∷ xs) h k = elim (Bool-cases (x == channel)) [
  | inl e ↦ absurd (ground (arith, k.0))
  | inr e ↦ rw e (ap (λ ys. x ∷ ys) (delete_channel-absent channel x xs (omega (arith, k.0)) k.1))
]

delete_channel-DistinctBelow :
    (channel n : ℕ) (xs : List ℕ) → DistinctBelow n xs → DistinctBelow n (delete_channel channel xs)
delete_channel-DistinctBelow channel n [] h = h
delete_channel-DistinctBelow channel n (x ∷ xs) h =
    let rest = delete_channel-DistinctBelow channel x xs h.1 in
    if_keeps (DistinctBelow n) (x == channel) _ _
      (DistinctBelow-weaken x n (delete_channel channel xs) (omega (arith, h.0)) rest) (h.0, rest)

length-delete_channel :
    (channel n : ℕ) (xs : List ℕ)
    → Member channel xs
    → DistinctBelow n xs
    → length (delete_channel channel xs) + 1 ≡ length xs
length-delete_channel channel n [] m k = elim m [ ]
length-delete_channel channel n (x ∷ xs) m k = elim (Bool-cases (x == channel)) [
  | inl e ↦ rw e (
      let here : x ≡ channel = ground arith in
      omega (arith, ap length (delete_channel-absent channel x xs (omega arith) k.1)))
  | inr e ↦ rw e (
      let later : Member channel xs = elim m [ inl f ↦ absurd (ground arith) | inr l ↦ l ] in
      omega (arith, length-delete_channel channel x xs later k.1))
]

nil_of_length : (xs : List ℕ) → length xs ≡ 0 → xs ≡ []
nil_of_length [] e = refl
nil_of_length (x ∷ xs) e = absurd (omega arith)

Step-IsCounted : {c d : PeerDeviceConnection} → Step c d → IsCounted c → IsCounted d
unfolding request on_finished close_connection reset_idle
Step-IsCounted (requested c) h =
    if_keeps (λ (r : PeerDeviceConnection × Option ℕ). IsCounted r.0) (not c.is_open) _ _ h
      (record {
        counted = omega (arith, h.counted);
        distinct = (omega arith, h.distinct);
        at_rest = λ e. ground arith;
      })
Step-IsCounted (finished channel c m) h =
    let fewer = length-delete_channel channel c.next_request c.pending m h.distinct in
    record {
      counted = omega (arith, h.counted, fewer);
      distinct = delete_channel-DistinctBelow channel c.next_request c.pending h.distinct;
      at_rest = λ e.
          nil_of_length (delete_channel channel c.pending) (ground (arith, h.counted, fewer, e));
    }
Step-IsCounted (lost c) h = record {
  counted = h.counted;
  distinct = h.distinct;
  at_rest = h.at_rest;
}
Step-IsCounted (closed c) h = record {
  counted = h.counted;
  distinct = h.distinct;
  at_rest = λ e. ground arith;
}
Step-IsCounted (timed_out ms c t) h = record {
  counted = h.counted;
  distinct = h.distinct;
  at_rest = λ e. ground arith;
}

-- In every state that a connection can reach, `active` counts the channels that are pending, no two of
-- them have the same number, and the idle timer runs only while no channel is pending: a connection is
-- never closed for idleness during a request.
pub Reachable-IsCounted : {c : PeerDeviceConnection} → Reachable c → IsCounted c
unfolding new_peer_device_connection reset_idle
Reachable-IsCounted (created is_open) = record {
  counted = refl;
  distinct = tt;
  at_rest = λ e. refl;
}
Reachable-IsCounted (stepped r s) = Step-IsCounted s (Reachable-IsCounted r)
