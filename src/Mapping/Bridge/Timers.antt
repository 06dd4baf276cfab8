-- ===== src/Mapping/Bridge/Timers.antt =====
-- The timers of AYLink.Web/src/features/inputMapping/inputMappingCommandBridge.ts against what the bridge has
-- recorded of them.
use aylink_extra.Prelude.{
  ℕ, ◌≤◌, ◌<◌, ◌≡◌, ◌≢◌, inl, inr, refl, ap, sym, ◌∙◌, arith, List, Bool, true, false, Option, none,
  some, ◌==◌, Bool-cases, Option-cases, any, if_keeps, subst,
}
use aylink_extra.Prelude.Text.{String, str_eq, str_eq_sound}
use aylink_extra.Prelude.Entries.{get_entry, delete_entry, get_entry-delete_entry_other}
use aylink_extra.Prelude.Numbers.{Numbers}
use aylink_extra.Mapping.Schema.{NormalizedPoint}
use aylink_extra.Mapping.Commands.{TouchPhase, touch_cancel}
use aylink_extra.Mapping.Bridge.{
  InputMappingCommandBridge, Senders, Timer, delayed, tap_once, lift, send_touch, stop_repeat,
  clear_timer, bump_pointer_generation, release_pointer_key_internal, Touch,
  get_or_create_pointer_id,
}

abbrev pub has_handle : ℕ → List ℕ → Bool
has_handle id handles = any (λ h. h == id) handles

module _ (n : Numbers) (senders : Senders n) where
  -- A pending command's timer is among the handles. A timer of a repeat is the one that the state of its
  -- key has recorded.
  pub record IsTimed (s : InputMappingCommandBridge n) : Type 0 where
    pub commands :
        (id : ℕ) (t : Touch n) (g : ℕ)
        → s.timers id ≡ some (delayed t g)
        → has_handle id s.pending_command_handles ≡ true
    pub taps :
        (id state : ℕ) (key : String) (point : NormalizedPoint n)
        → s.timers id ≡ some (tap_once state key point)
        → (get_entry key s.repeat_states ≡ some state)
          × ((s.states state).interval_handle ≡ id)
          × (state < s.next_state)
    pub lifts :
        (id state : ℕ) (key : String) (point : NormalizedPoint n)
        → s.timers id ≡ some (lift state key point)
        → (get_entry key s.repeat_states ≡ some state)
          × ((s.states state).up_handle ≡ some id)
          × (state < s.next_state)
          × ((s.states state).is_down ≡ true)
    pub fresh : (id : ℕ) → s.next_timer ≤ id → s.timers id ≡ none

  -- A step that changes only pointer ids, generations, the log and the states' points.
  pub record IsQuiet (s d : InputMappingCommandBridge n) : Type 0 where
    pub timers : d.timers ≡ s.timers
    pub next_timer : d.next_timer ≡ s.next_timer
    pub handles : d.pending_command_handles ≡ s.pending_command_handles
    pub repeats : d.repeat_states ≡ s.repeat_states
    pub states : d.states ≡ s.states
    pub next_state : d.next_state ≡ s.next_state

  pub send_touch-IsQuiet :
      (phase : TouchPhase) (key : String) (point : NormalizedPoint n) (pressure : n.Num)
      (s : InputMappingCommandBridge n)
      → IsQuiet s (send_touch n senders phase key point pressure s)
  unfolding send_touch release_pointer_key_internal get_or_create_pointer_id
  send_touch-IsQuiet phase key point pressure s = ground arith

  -- What stopping the repeat of a key leaves: timers only go, and none of the key's repeat is left.
  pub record IsStopped (key : String) (s d : InputMappingCommandBridge n) : Type 0 where
    pub timers : (id : ℕ) (t : Timer n) → d.timers id ≡ some t → s.timers id ≡ some t
    pub next_timer : d.next_timer ≡ s.next_timer
    pub handles : d.pending_command_handles ≡ s.pending_command_handles
    pub others :
        (k : String)
        → str_eq key k ≡ false
        → get_entry k d.repeat_states ≡ get_entry k s.repeat_states
    pub states : d.states ≡ s.states
    pub next_state : d.next_state ≡ s.next_state
    pub no_taps :
        (id state : ℕ) (point : NormalizedPoint n) → d.timers id ≢ some (tap_once state key point)
    pub no_lifts :
        (id state : ℕ) (point : NormalizedPoint n) → d.timers id ≢ some (lift state key point)

  cleared_timers :
      (up : Option ℕ) (interval : ℕ) (s : InputMappingCommandBridge n) (id : ℕ) (t : Timer n)
      → (clear_timer n up (clear_timer n (some interval) s)).timers id ≡ some t
      → (s.timers id ≡ some t) × (interval ≢ id) × (up ≢ some id)
  cleared_timers none interval s id t e = ground arith
  cleared_timers (some up) interval s id t e = ground arith

  cleared_rest :
      (up : Option ℕ) (interval : ℕ) (s : InputMappingCommandBridge n)
      → IsQuiet s
          (record (clear_timer n up (clear_timer n (some interval) s)) { timers = s.timers })
  cleared_rest none interval s = ground arith
  cleared_rest (some up) interval s = ground arith

  -- Whatever follows the clearing of the state's timers and the deletion of its key is quiet.
  record_deleted-IsStopped :
      (key : String) (state : ℕ) (s c d : InputMappingCommandBridge n)
      → IsTimed s
      → get_entry key s.repeat_states ≡ some state
      → c
        ≡ record (clear_timer n
            (s.states state).up_handle
            (clear_timer n (some (s.states state).interval_handle) s)) {
              repeat_states = delete_entry key s.repeat_states;
            }
      → IsQuiet c d
      → IsStopped key s d
  record_deleted-IsStopped key state s c d h e f q =
      let up = (s.states state).up_handle in
      let interval = (s.states state).interval_handle in
      let rest = cleared_rest up interval s in
      record {
        timers = λ id t g. ground (arith, cleared_timers up interval s id t, f, q.timers, g);
        next_timer = ground (arith, rest.next_timer, f, q.next_timer);
        handles = ground (arith, rest.handles, f, q.handles);
        others = λ k g.
            ground (arith, get_entry-delete_entry_other k key s.repeat_states g, f, q.repeats);
        states = ground (arith, rest.states, f, q.states);
        next_state = ground (arith, rest.next_state, f, q.next_state);
        no_taps = λ id i point g.
            let w =
              cleared_timers up interval s id (tap_once i key point)
                (ground (arith, f, q.timers, g)) in
            let r = h.taps id i key point w.0 in
            let same : state ≡ i = ground (arith, e, r.0) in
            w.1 (ap (λ z. (s.states z).interval_handle) same ∙ r.1);
        no_lifts = λ id i point g.
            let w =
              cleared_timers up interval s id (lift i key point) (ground (arith, f, q.timers, g)) in
            let r = h.lifts id i key point w.0 in
            let same : state ≡ i = ground (arith, e, r.0) in
            w.2 (ap (λ z. (s.states z).up_handle) same ∙ r.1);
      }

  pub bumped-IsQuiet :
      (key : String) (s : InputMappingCommandBridge n) → IsQuiet s (bump_pointer_generation n key s)
  unfolding bump_pointer_generation
  bumped-IsQuiet key s = ground arith

  pub released-IsQuiet :
      (key : String) (id : Option ℕ) (s : InputMappingCommandBridge n)
      → IsQuiet s (release_pointer_key_internal n key id s)
  unfolding release_pointer_key_internal
  released-IsQuiet key none s = ground arith
  released-IsQuiet key (some id) s = ground arith

  IsQuiet-trans : (s c d : InputMappingCommandBridge n) → IsQuiet s c → IsQuiet c d → IsQuiet s d
  IsQuiet-trans s c d h k = record {
    timers = k.timers ∙ h.timers;
    next_timer = k.next_timer ∙ h.next_timer;
    handles = k.handles ∙ h.handles;
    repeats = k.repeats ∙ h.repeats;
    states = k.states ∙ h.states;
    next_state = k.next_state ∙ h.next_state;
  }

  -- A key without a repeat has no timers of one.
  idle-IsStopped :
      (key : String) (s d : InputMappingCommandBridge n)
      → IsTimed s
      → get_entry key s.repeat_states ≡ none
      → IsQuiet s d
      → IsStopped key s d
  idle-IsStopped key s d h e q = record {
    timers = λ id t g. ground (arith, q.timers, g);
    next_timer = q.next_timer;
    handles = q.handles;
    others = λ k g. ap (get_entry k) q.repeats;
    states = q.states;
    next_state = q.next_state;
    no_taps =
        λ id i point g. ground (arith, e, h.taps id i key point (ground (arith, q.timers, g)));
    no_lifts =
        λ id i point g. ground (arith, e, h.lifts id i key point (ground (arith, q.timers, g)));
  }

  pub stop_repeat-IsStopped :
      (key : String) (s : InputMappingCommandBridge n)
      → IsTimed s
      → IsStopped key s (stop_repeat n senders key s)
  unfolding stop_repeat
  stop_repeat-IsStopped key s h = elim (Option-cases (get_entry key s.repeat_states)) [
    | inl e ↦
        rw (e, stop_repeat)
          (idle-IsStopped key s _ h e (
            IsQuiet-trans s (bump_pointer_generation n key s) _ (bumped-IsQuiet key s)
              (released-IsQuiet key none (bump_pointer_generation n key s))))
    | inr (state, e) ↦
        let up = (s.states state).up_handle in
        let interval = (s.states state).interval_handle in
        let c = record (clear_timer n up (clear_timer n (some interval) s)) {
          repeat_states = delete_entry key s.repeat_states;
        } in
        let b = bump_pointer_generation n key c in
        rw (e, stop_repeat)
          (record_deleted-IsStopped key state s c _ h e refl (
            IsQuiet-trans c b _ (bumped-IsQuiet key c) (
              if_keeps (IsQuiet b) (s.states state).is_down _ _
                (send_touch-IsQuiet touch_cancel key (s.states state).point _ b)
                (released-IsQuiet key none b))))
  ]

  pub IsStopped-IsTimed :
      (key : String) (s d : InputMappingCommandBridge n) → IsStopped key s d → IsTimed s → IsTimed d
  IsStopped-IsTimed key s d k h = record {
    commands =
        λ id t g e. ground (arith, h.commands id t g (k.timers id (delayed t g) e), k.handles);
    taps = λ id state other point e. elim (Bool-cases (str_eq key other)) [
      | inl f ↦
          let same = str_eq_sound key other f in
          absurd (k.no_taps id state point (e ∙ ap (λ z. some (tap_once state z point)) (sym same)))
      | inr f ↦
          let r = h.taps id state other point (k.timers id (tap_once state other point) e) in
          (
            k.others other f ∙ r.0,
            ap (λ z. (z state).interval_handle) k.states ∙ r.1,
            subst (λ z. state < z) (sym k.next_state) r.2,
          )
    ];
    lifts = λ id state other point e. elim (Bool-cases (str_eq key other)) [
      | inl f ↦
          let same = str_eq_sound key other f in
          absurd (k.no_lifts id state point (e ∙ ap (λ z. some (lift state z point)) (sym same)))
      | inr f ↦
          let r = h.lifts id state other point (k.timers id (lift state other point) e) in
          (
            k.others other f ∙ r.0,
            ap (λ z. (z state).up_handle) k.states ∙ r.1,
            subst (λ z. state < z) (sym k.next_state) r.2,
            ap (λ z. (z state).is_down) k.states ∙ r.3,
          )
    ];
    fresh = λ id e. elim (Option-cases (d.timers id)) [
      | inl f ↦ f
      | inr (t, f) ↦
          let low : s.next_timer ≤ id = subst (λ z. z ≤ id) k.next_timer e in
          absurd (ground (arith, k.timers id t f, h.fresh id low))
    ];
  }
