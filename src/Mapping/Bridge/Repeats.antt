-- ===== src/Mapping/Bridge/Repeats.antt =====
-- The repeats of AYLink.Web/src/features/inputMapping/inputMappingCommandBridge.ts keep the record of their
-- timers.
use aylink_extra.Prelude.{
  ℕ, ◌+◌, ◌≡◌, ◌≢◌, inl, inr, refl, sym, arith, true, false, none, some, Bool-cases, if_splits,
  subst,
}
use aylink_extra.Prelude.Int.{pos}
use aylink_extra.Prelude.Text.{String, str_eq, str_eq_sound, str_eq_refl}
use aylink_extra.Prelude.Entries.{
  put, get_entry, set_entry, get_entry-set_entry, get_entry-set_entry_other,
}
use aylink_extra.Prelude.Numbers.{Numbers}
use aylink_extra.Mapping.Schema.{NormalizedPoint}
use aylink_extra.Mapping.Commands.{touch_down}
use aylink_extra.Mapping.Bridge.{
  InputMappingCommandBridge, RepeatState, Senders, tap_once, lift, send_touch, stop_repeat, tap,
  start_repeat, set_timer,
}
use aylink_extra.Mapping.Bridge.Timers.{
  IsTimed, IsQuiet, send_touch-IsQuiet, stop_repeat-IsStopped, IsStopped-IsTimed,
}
use aylink_extra.Mapping.Bridge.Taps.{wait_for_lift}

module _ (n : Numbers) (senders : Senders n) where
  -- `d` has a new repeat state, the next one of `s`, which is down.
  record IsCreated (s d : InputMappingCommandBridge n) : Type 0 where
    timers : d.timers ≡ s.timers
    next_timer : d.next_timer ≡ s.next_timer
    handles : d.pending_command_handles ≡ s.pending_command_handles
    repeats : d.repeat_states ≡ s.repeat_states
    next_state : d.next_state ≡ s.next_state + 1
    states : (i : ℕ) → i ≢ s.next_state → d.states i ≡ s.states i
    down : (d.states s.next_state).is_down ≡ true

  -- What `start_repeat` makes of `d`, the bridge after its first touch was sent.
  abbrev repeat_from :
      (state : ℕ)
      → String
      → NormalizedPoint n
      → InputMappingCommandBridge n
      → InputMappingCommandBridge n
  repeat_from state key point d =
      let tapped = wait_for_lift n senders state key point d in
      let repeating = set_timer n (tap_once state key point) tapped in
      record repeating {
        states =
            put state (record (tapped.states state) { interval_handle = tapped.next_timer })
              tapped.states;
        repeat_states = set_entry key state tapped.repeat_states;
      }

  repeat_from-IsTimed :
      (key : String) (point : NormalizedPoint n) (s d : InputMappingCommandBridge n)
      → IsTimed n senders s
      → ((id state : ℕ) (p : NormalizedPoint n) → s.timers id ≢ some (tap_once state key p))
      → ((id state : ℕ) (p : NormalizedPoint n) → s.timers id ≢ some (lift state key p))
      → IsCreated s d
      → IsTimed n senders (repeat_from s.next_state key point d)
  repeat_from-IsTimed key point s d h no_taps no_lifts q = record {
    commands = λ id t g k. ground (arith, h.commands id t g, q.timers, q.next_timer, q.handles, k);
    taps = λ id i other p k. elim (Bool-cases (str_eq key other)) [
      | inl f ↦
          let same = str_eq_sound key other f in
          let gone = subst (λ z. s.timers id ≢ some (tap_once i z p)) same (no_taps id i p) in
          let found =
            subst
              (λ z. get_entry z (set_entry key s.next_state d.repeat_states) ≡ some s.next_state)
              same (get_entry-set_entry key s.next_state d.repeat_states) in
          ground (
            arith,
            gone,
            found,
            h.fresh s.next_timer,
            q.timers,
            q.next_timer,
            q.repeats,
            q.states i,
            q.down,
            q.next_state,
            k,
          )
      | inr f ↦ ground (
        arith,
        get_entry-set_entry_other other key s.next_state d.repeat_states f,
        str_eq_refl key,
        f,
        h.taps id i other p,
        h.fresh s.next_timer,
        q.timers,
        q.next_timer,
        q.repeats,
        q.states i,
        q.down,
        q.next_state,
        k,
      )
    ];
    lifts = λ id i other p k. elim (Bool-cases (str_eq key other)) [
      | inl f ↦
          let same = str_eq_sound key other f in
          let gone = subst (λ z. s.timers id ≢ some (lift i z p)) same (no_lifts id i p) in
          let found =
            subst
              (λ z. get_entry z (set_entry key s.next_state d.repeat_states) ≡ some s.next_state)
              same (get_entry-set_entry key s.next_state d.repeat_states) in
          ground (
            arith,
            gone,
            found,
            h.fresh s.next_timer,
            q.timers,
            q.next_timer,
            q.repeats,
            q.states i,
            q.down,
            q.next_state,
            k,
          )
      | inr f ↦ ground (
        arith,
        get_entry-set_entry_other other key s.next_state d.repeat_states f,
        str_eq_refl key,
        f,
        h.lifts id i other p,
        h.fresh s.next_timer,
        q.timers,
        q.next_timer,
        q.repeats,
        q.states i,
        q.down,
        q.next_state,
        k,
      )
    ];
    fresh = λ id k. ground (arith, h.fresh id, q.timers, q.next_timer, k);
  }

  abbrev created_state : NormalizedPoint n → RepeatState n
  created_state point = record {
    interval_handle = 0;
    up_handle = none;
    point = point;
    is_down = false;
  }

  abbrev creating : NormalizedPoint n → InputMappingCommandBridge n → InputMappingCommandBridge n
  creating point s = record s {
    next_state = s.next_state + 1;
    states = put s.next_state (created_state point) s.states;
  }

  abbrev going_down : ℕ → InputMappingCommandBridge n → InputMappingCommandBridge n
  going_down state s = record s {
    states = put state (record (s.states state) { is_down = true }) s.states;
  }

  going_down-IsCreated :
      (point : NormalizedPoint n) (s d : InputMappingCommandBridge n)
      → IsQuiet n senders (going_down s.next_state (creating point s)) d
      → IsCreated s d
  going_down-IsCreated point s d q = record {
    timers = q.timers;
    next_timer = q.next_timer;
    handles = q.handles;
    repeats = q.repeats;
    next_state = q.next_state;
    states = λ i e. ground (arith, q.states, e);
    down = ground (arith, q.states);
  }

  tap_down :
      (state : ℕ) (key : String) (point : NormalizedPoint n) (s : InputMappingCommandBridge n)
      → (s.states state).is_down ≡ false
      → tap n senders state key point s
        ≡ wait_for_lift n senders state key point
            (send_touch n senders touch_down key point (n.int (pos 1)) (going_down state s))
  unfolding tap
  tap_down state key point s e =
      if_splits
        (λ d.
          d
          ≡ wait_for_lift n senders state key point
              (send_touch n senders touch_down key point (n.int (pos 1)) (going_down state s)))
        (s.states state).is_down _ _ (λ f. absurd (ground (arith, e, f))) (λ f. refl)

  abbrev repeating :
      (state : ℕ)
      → String
      → NormalizedPoint n
      → InputMappingCommandBridge n
      → InputMappingCommandBridge n
  repeating state key point tapped =
      let waiting = set_timer n (tap_once state key point) tapped in
      record waiting {
        states =
            put state (record (tapped.states state) { interval_handle = tapped.next_timer })
              tapped.states;
        repeat_states = set_entry key state tapped.repeat_states;
      }

  pub start_repeat-IsTimed :
      (key : String) (point : NormalizedPoint n) (s : InputMappingCommandBridge n)
      → IsTimed n senders s
      → IsTimed n senders (start_repeat n senders key point s)
  unfolding start_repeat
  start_repeat-IsTimed key point s h =
      let stopped = stop_repeat n senders key s in
      let k = stop_repeat-IsStopped n senders key s h in
      let c = creating point stopped in
      let new = stopped.next_state in
      let up : (c.states new).is_down ≡ false = ground arith in
      let sent = send_touch n senders touch_down key point (n.int (pos 1)) (going_down new c) in
      subst (λ d. IsTimed n senders (repeating new key point d)) (sym (tap_down new key point c up))
        (repeat_from-IsTimed key point stopped sent (IsStopped-IsTimed n senders key s stopped k h)
          k.no_taps k.no_lifts
          (going_down-IsCreated point stopped sent
            (send_touch-IsQuiet n senders touch_down key point (n.int (pos 1)) (going_down new c))))
