-- ===== src/Mapping/Bridge/Ages.antt =====
-- How the generations of pointer keys in AYLink.Web/src/features/inputMapping/inputMappingCommandBridge.ts grow, and
-- which delayed touches can be waiting.
use aylink_extra.Prelude.{
  ℕ, ◌+◌, ◌≤◌, ◌≡◌, ◌⊎◌, inl, inr, refl, ap, sym, ◌∙◌, arith, List, [], ◌∷◌, ◌++◌, Bool, true,
  false, ◌&&◌, Option, none, some, ◌==◌, Bool-cases, Option-cases, if_keeps, subst,
}
use aylink_extra.Prelude.Int.{pos}
use aylink_extra.Prelude.Text.{String, str_eq, str_eq_sound}
use aylink_extra.Prelude.Entries.{
  put, get_entry, set_entry, delete_entry, get_entry-set_entry, get_entry-set_entry_other,
}
use aylink_extra.Prelude.Numbers.{Numbers}
use aylink_extra.Mapping.Schema.{NormalizedPoint}
use aylink_extra.Mapping.Commands.{TouchPhase, touch_cancel, touch_down, touch_up, Touch}
use aylink_extra.Mapping.Bridge.{
  InputMappingCommandBridge, RepeatState, Senders, Timer, delayed, tap_once, lift,
  get_pointer_generation, send_touch, stop_state, stop_repeat, tap, lift_up, start_repeat,
  clear_timer, set_timer, bump_pointer_generation, release_pointer_key_internal,
  get_or_create_pointer_id, get_or_else, sent_touch, is_id, is_final,
}

module _ (n : Numbers) (senders : Senders n) where
  -- From `s` to `d` no generation falls, and a delayed touch that waits was waiting before, or is new and
  -- not above the generation of its key.
  pub record Ages (s d : InputMappingCommandBridge n) : Type 0 where
    pub generations :
        (key : String) → get_pointer_generation n key s ≤ get_pointer_generation n key d
    pub next_timer : s.next_timer ≤ d.next_timer
    pub waiting :
        (id : ℕ) (t : Touch n) (g : ℕ)
        → d.timers id ≡ some (delayed t g)
        → (s.timers id ≡ some (delayed t g))
          ⊎ ((s.next_timer ≤ id) × (g ≤ get_pointer_generation n t.pointer_key d))

  pub Ages-trans : (s m d : InputMappingCommandBridge n) → Ages s m → Ages m d → Ages s d
  Ages-trans s m d h k = record {
    generations = λ key. omega (arith, h.generations key, k.generations key);
    next_timer = omega (arith, h.next_timer, k.next_timer);
    waiting = λ id t g e. elim (k.waiting id t g e) [
      | inl f ↦ elim (h.waiting id t g f) [
        | inl l ↦ inl l
        | inr (l, r) ↦ inr (l, omega (arith, r, k.generations t.pointer_key))
      ]
      | inr (l, r) ↦ inr (omega (arith, l, h.next_timer), r)
    ];
  }

  -- A step that leaves generations and timers.
  pub same-Ages :
      (s d : InputMappingCommandBridge n)
      → d.pointer_generations ≡ s.pointer_generations
      → d.timers ≡ s.timers
      → d.next_timer ≡ s.next_timer
      → Ages s d
  same-Ages s d e f q = record {
    generations = λ key. ground (arith, ap (get_entry key) e);
    next_timer = ground (arith, q);
    waiting = λ id t g k. inl (ap (λ z. z id) (sym f) ∙ k);
  }

  generation-set_entry :
      (key other : String) (g : ℕ) (entries : List (String × ℕ))
      → get_or_else (get_entry key entries) 0 ≤ g
      → get_or_else (get_entry other entries) 0
        ≤ get_or_else (get_entry other (set_entry key g entries)) 0
  generation-set_entry key other g entries h = elim (Bool-cases (str_eq key other)) [
    | inl e ↦
        let same = str_eq_sound key other e in
        subst
          (λ z.
            get_or_else (get_entry z entries) 0
            ≤ get_or_else (get_entry z (set_entry key g entries)) 0)
          same (ground (arith, get_entry-set_entry key g entries, h))
    | inr e ↦ ground (arith, get_entry-set_entry_other other key g entries e)
  ]

  pub bumped-Ages :
      (key : String) (s : InputMappingCommandBridge n) → Ages s (bump_pointer_generation n key s)
  unfolding bump_pointer_generation
  bumped-Ages key s = record {
    generations = λ other. generation-set_entry key other _ s.pointer_generations (omega arith);
    next_timer = omega arith;
    waiting = λ id t g k. inl k;
  }

  pub released-Ages :
      (key : String) (id : Option ℕ) (s : InputMappingCommandBridge n)
      → Ages s (release_pointer_key_internal n key id s)
  unfolding release_pointer_key_internal
  released-Ages key none s = same-Ages s _ refl refl refl
  released-Ages key (some id) s =
      if_keeps (Ages s) (is_id (get_entry key s.pointer_ids) id) _ _ (same-Ages s _ refl refl refl)
        (same-Ages s s refl refl refl)

  created-Ages :
      (key : String) (s : InputMappingCommandBridge n) → Ages s (get_or_create_pointer_id n key s).0
  unfolding get_or_create_pointer_id
  created-Ages key s = elim (Option-cases (get_entry key s.pointer_ids)) [
    | inl e ↦
        rw (e, get_or_create_pointer_id)
          (record {
            generations =
                λ other. generation-set_entry key other _ s.pointer_generations (omega arith);
            next_timer = omega arith;
            waiting = λ id t g k. inl k;
          })
    | inr (id, e) ↦ rw (e, get_or_create_pointer_id) (same-Ages s s refl refl refl)
  ]

  pub send_touch-Ages :
      (phase : TouchPhase) (key : String) (point : NormalizedPoint n) (pressure : n.Num)
      (s : InputMappingCommandBridge n)
      → Ages s (send_touch n senders phase key point pressure s)
  unfolding send_touch
  send_touch-Ages phase key point pressure s =
      let created = get_or_create_pointer_id n key s in
      let log = s.sent ++ sent_touch phase created.1 key point pressure ∷ [] in
      let logged = record (created.0) { sent = log } in
      let h =
        Ages-trans s created.0 logged (created-Ages key s)
          (same-Ages created.0 logged refl refl refl) in
      if_keeps (Ages s) (is_final n senders phase && senders.finalizes log) _ _
        (Ages-trans s logged _ h (released-Ages key (some created.1) logged)) h

  pub clear_timer-Ages :
      (handle : Option ℕ) (s : InputMappingCommandBridge n) → Ages s (clear_timer n handle s)
  clear_timer-Ages none s = same-Ages s s refl refl refl
  clear_timer-Ages (some handle) s = record {
    generations = λ key. omega arith;
    next_timer = omega arith;
    waiting = λ id t g k. inl (ground (arith, k));
  }

  stop_state-Ages :
      (key : String) (state : RepeatState n) (s : InputMappingCommandBridge n)
      → Ages s (stop_state n senders key state s)
  stop_state-Ages key state s =
      let a = clear_timer n (some state.interval_handle) s in
      let b = clear_timer n state.up_handle a in
      let c = record b { repeat_states = delete_entry key s.repeat_states } in
      let d = bump_pointer_generation n key c in
      let h = Ages-trans s a d (clear_timer-Ages (some state.interval_handle) s) (
        Ages-trans a b d (clear_timer-Ages state.up_handle a)
          (Ages-trans b c d (same-Ages b c refl refl refl) (bumped-Ages key c))) in
      if_keeps (Ages s) state.is_down _ _
        (Ages-trans s d _ h (send_touch-Ages touch_cancel key state.point (n.int (pos 0)) d))
        (Ages-trans s d _ h (released-Ages key none d))

  pub stop_repeat-Ages :
      (key : String) (s : InputMappingCommandBridge n) → Ages s (stop_repeat n senders key s)
  unfolding stop_repeat
  stop_repeat-Ages key s = elim (Option-cases (get_entry key s.repeat_states)) [
    | inl e ↦
        rw (e, stop_repeat)
          (Ages-trans s (bump_pointer_generation n key s) _ (bumped-Ages key s)
            (released-Ages key none (bump_pointer_generation n key s)))
    | inr (id, e) ↦ rw (e, stop_repeat) (stop_state-Ages key (s.states id) s)
  ]

  abbrev is_delayed : Timer n → Bool
  is_delayed (delayed t g) = true
  is_delayed (tap_once state key point) = false
  is_delayed (lift state key point) = false

  set_timer-Ages :
      (timer : Timer n) (s : InputMappingCommandBridge n)
      → is_delayed timer ≡ false
      → Ages s (set_timer n timer s)
  set_timer-Ages timer s e = record {
    generations = λ key. omega arith;
    next_timer = omega arith;
    waiting = λ id t g k. elim (Bool-cases (s.next_timer == id)) [
      | inl f ↦
          let same : timer ≡ delayed t g = ground (arith, k, f) in
          absurd (ground (arith, ap is_delayed same, e))
      | inr f ↦ inl (ground (arith, k, f))
    ];
  }

  pub tap-Ages :
      (state : ℕ) (key : String) (point : NormalizedPoint n) (s : InputMappingCommandBridge n)
      → Ages s (tap n senders state key point s)
  unfolding tap
  tap-Ages state key point s =
      let up = record s {
        states = put state (record (s.states state) { is_down = true }) s.states;
      } in
      let down = send_touch n senders touch_down key point (n.int (pos 1)) up in
      let waiting = set_timer n (lift state key point) down in
      if_keeps (Ages s) (s.states state).is_down _ _ (same-Ages s s refl refl refl) (
        Ages-trans s up _ (same-Ages s up refl refl refl) (
          Ages-trans up down _ (send_touch-Ages touch_down key point (n.int (pos 1)) up) (
            Ages-trans down waiting _ (set_timer-Ages (lift state key point) down refl)
              (same-Ages waiting _ refl refl refl))))

  pub lift_up-Ages :
      (state : ℕ) (key : String) (point : NormalizedPoint n) (s : InputMappingCommandBridge n)
      → Ages s (lift_up n senders state key point s)
  unfolding lift_up
  lift_up-Ages state key point s =
      let up = record s {
        states = put state (record (s.states state) { up_handle = none; is_down = false }) s.states;
      } in
      Ages-trans s up _ (same-Ages s up refl refl refl)
        (send_touch-Ages touch_up key point (n.int (pos 0)) up)

  pub start_repeat-Ages :
      (key : String) (point : NormalizedPoint n) (s : InputMappingCommandBridge n)
      → Ages s (start_repeat n senders key point s)
  unfolding start_repeat
  start_repeat-Ages key point s =
      let stopped = stop_repeat n senders key s in
      let state = stopped.next_state in
      let created = record stopped {
        next_state = state + 1;
        states =
            put state
              (record { interval_handle = 0; up_handle = none; point = point; is_down = false })
              stopped.states;
      } in
      let tapped = tap n senders state key point created in
      let repeating = set_timer n (tap_once state key point) tapped in
      Ages-trans s stopped _ (stop_repeat-Ages key s) (
        Ages-trans stopped created _ (same-Ages stopped created refl refl refl) (
          Ages-trans created tapped _ (tap-Ages state key point created) (
            Ages-trans tapped repeating _ (set_timer-Ages (tap_once state key point) tapped refl)
              (same-Ages repeating _ refl refl refl))))
