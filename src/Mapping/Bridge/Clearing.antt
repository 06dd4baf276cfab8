-- ===== src/Mapping/Bridge/Clearing.antt =====
-- `clearPendingCommands` of AYLink.Web/src/features/inputMapping/inputMappingCommandBridge.ts after every run.
use aylink_extra.Prelude.{
  ℕ, ◌≡◌, ◌≢◌, inl, inr, refl, ap, sym, ◌∙◌, arith, List, [], ◌∷◌, false, Option, none, some,
  Bool-cases, Option-cases, subst,
}
use aylink_extra.Prelude.Text.{String, str_eq, str_eq_sound}
use aylink_extra.Prelude.Entries.{get_entry}
use aylink_extra.Prelude.Numbers.{Numbers}
use aylink_extra.Mapping.Schema.{NormalizedPoint}
use aylink_extra.Mapping.Bridge.{
  InputMappingCommandBridge, Senders, Timer, delayed, tap_once, lift, stop_repeat, clear_timer,
  create_input_mapping_command_bridge, bump_pointer_generation,
}
use aylink_extra.Mapping.Bridge.Execution.{
  execute, fire, clear_handles, stop_all, clear_pending_commands, clear_pointer_keys,
  release_pointer_key,
}
use aylink_extra.Mapping.Bridge.Timers.{
  has_handle, IsTimed, stop_repeat-IsStopped, IsStopped-IsTimed, released-IsQuiet, bumped-IsQuiet,
}
use aylink_extra.Mapping.Bridge.Steps.{IsQuiet-IsTimed, execute_all-IsTimed, call_back-IsTimed}
use aylink_extra.Mapping.Bridge.Runs.{
  Call, executed, fired, finalized, released, pending_cleared, keys_cleared, step, run,
}

module _ (n : Numbers) (senders : Senders n) where
  -- Timers only go.
  abbrev Fewer : InputMappingCommandBridge n → InputMappingCommandBridge n → Type 0
  Fewer s d = (id : ℕ) (t : Timer n) → d.timers id ≡ some t → s.timers id ≡ some t

  clear_handles-timers :
      (handles : List ℕ) (s : InputMappingCommandBridge n) (id : ℕ) (t : Timer n)
      → (clear_handles n senders handles s).timers id ≡ some t
      → (s.timers id ≡ some t) × (has_handle id handles ≡ false)
  clear_handles-timers [] s id t e = (e, refl)
  clear_handles-timers (x ∷ xs) s id t e =
      let later = clear_handles-timers xs (clear_timer n (some x) s) id t e in
      ground (arith, later.0, later.1)

  clear_handles-rest :
      (handles : List ℕ) (s : InputMappingCommandBridge n)
      → ((clear_handles n senders handles s).repeat_states ≡ s.repeat_states)
        × ((clear_handles n senders handles s).states ≡ s.states)
        × ((clear_handles n senders handles s).next_state ≡ s.next_state)
        × ((clear_handles n senders handles s).next_timer ≡ s.next_timer)
  clear_handles-rest [] s = (refl, refl, refl, refl)
  clear_handles-rest (x ∷ xs) s = clear_handles-rest xs (clear_timer n (some x) s)

  abbrev without_commands : InputMappingCommandBridge n → InputMappingCommandBridge n
  without_commands s = record (clear_handles n senders s.pending_command_handles s) {
    pending_command_handles = [];
  }

  without_commands-IsTimed :
      (s : InputMappingCommandBridge n)
      → IsTimed n senders s
      → IsTimed n senders (without_commands s)
  without_commands-IsTimed s h =
      let gone = clear_handles-timers s.pending_command_handles s in
      let rest = clear_handles-rest s.pending_command_handles s in
      record {
        commands = λ id t g k. ground (arith, gone id (delayed t g) k, h.commands id t g);
        taps = λ id i other p k.
            ground (arith, gone id (tap_once i other p) k, h.taps id i other p, rest);
        lifts = λ id i other p k.
            ground (arith, gone id (lift i other p) k, h.lifts id i other p, rest);
        fresh = λ id k. elim (Option-cases ((without_commands s).timers id)) [
          | inl e ↦ e
          | inr (t, e) ↦ absurd (ground (arith, gone id t e, h.fresh id, rest, k))
        ];
      }

  -- What stopping the repeats of some entries leaves.
  record IsAllStopped (entries : List (String × ℕ)) (s d : InputMappingCommandBridge n)
      : Type 0 where
    timed : IsTimed n senders d
    fewer : Fewer s d
    handles : d.pending_command_handles ≡ s.pending_command_handles
    no_taps :
        (key : String) (state id i : ℕ) (p : NormalizedPoint n)
        → get_entry key entries ≡ some state
        → d.timers id ≢ some (tap_once i key p)
    no_lifts :
        (key : String) (state id i : ℕ) (p : NormalizedPoint n)
        → get_entry key entries ≡ some state
        → d.timers id ≢ some (lift i key p)

  stop_all-IsAllStopped :
      (entries : List (String × ℕ)) (s : InputMappingCommandBridge n)
      → IsTimed n senders s
      → IsAllStopped entries s (stop_all n senders entries s)
  unfolding get_entry
  stop_all-IsAllStopped [] s h = record {
    timed = h;
    fewer = λ id t e. e;
    handles = refl;
    no_taps = λ key state id i p e. absurd (ground arith);
    no_lifts = λ key state id i p e. absurd (ground arith);
  }
  stop_all-IsAllStopped ((key, state) ∷ rest) s h =
      let k = stop_repeat-IsStopped n senders key s h in
      let m = stop_repeat n senders key s in
      let l = stop_all-IsAllStopped rest m (IsStopped-IsTimed n senders key s m k h) in
      record {
        timed = l.timed;
        fewer = λ id t e. k.timers id t (l.fewer id t e);
        handles = l.handles ∙ k.handles;
        no_taps = λ other o id i p e f. elim (Bool-cases (str_eq key other)) [
          | inl g ↦ k.no_taps id i p (
              subst (λ z. m.timers id ≡ some (tap_once i z p)) (sym (str_eq_sound key other g))
                (l.fewer id (tap_once i other p) f))
          | inr g ↦ l.no_taps other o id i p (ground (arith, e, g)) f
        ];
        no_lifts = λ other o id i p e f. elim (Bool-cases (str_eq key other)) [
          | inl g ↦ k.no_lifts id i p (
              subst (λ z. m.timers id ≡ some (lift i z p)) (sym (str_eq_sound key other g))
                (l.fewer id (lift i other p) f))
          | inr g ↦ l.no_lifts other o id i p (ground (arith, e, g)) f
        ];
      }

  clear_pending_commands-IsTimed :
      (s : InputMappingCommandBridge n)
      → IsTimed n senders s
      → IsTimed n senders (clear_pending_commands n senders s)
  unfolding clear_pending_commands
  clear_pending_commands-IsTimed s h =
      (stop_all-IsAllStopped s.repeat_states (without_commands s)
        (without_commands-IsTimed s h)).timed

  pub step-IsTimed :
      (c : Call n senders) (s : InputMappingCommandBridge n)
      → IsTimed n senders s
      → IsTimed n senders (step n senders c s)
  unfolding execute fire clear_pointer_keys release_pointer_key
  step-IsTimed (executed commands) s h = execute_all-IsTimed n senders commands s h
  step-IsTimed (fired handle) s h = call_back-IsTimed n senders handle (s.timers handle) s refl h
  step-IsTimed (finalized key id) s h =
      IsQuiet-IsTimed n senders s _ (released-IsQuiet n senders key (some id) s) h
  step-IsTimed (released key) s h =
      IsQuiet-IsTimed n senders (bump_pointer_generation n key s) _
        (released-IsQuiet n senders key none (bump_pointer_generation n key s))
        (IsQuiet-IsTimed n senders s _ (bumped-IsQuiet n senders key s) h)
  step-IsTimed pending_cleared s h = clear_pending_commands-IsTimed s h
  step-IsTimed keys_cleared s h =
      let k = clear_pending_commands-IsTimed s h in
      record { commands = k.commands; taps = k.taps; lifts = k.lifts; fresh = k.fresh }

  pub run_from-IsTimed :
      (cs : List (Call n senders)) (s : InputMappingCommandBridge n)
      → IsTimed n senders s
      → IsTimed n senders (run n senders cs s)
  unfolding run
  run_from-IsTimed [] s h = h
  run_from-IsTimed (c ∷ cs) s h = run_from-IsTimed cs (step n senders c s) (step-IsTimed c s h)

  pub new_bridge-IsTimed :
      (first_pointer_id : Option ℕ) (point : NormalizedPoint n)
      → IsTimed n senders (create_input_mapping_command_bridge n first_pointer_id point)
  unfolding create_input_mapping_command_bridge
  new_bridge-IsTimed first_pointer_id point = record {
    commands = λ id t g e. absurd (ground arith);
    taps = λ id i key p e. absurd (ground arith);
    lifts = λ id i key p e. absurd (ground arith);
    fresh = λ id e. refl;
  }

  pub cleared_quiet :
      (s : InputMappingCommandBridge n) (id : ℕ) (t : Timer n)
      → IsTimed n senders s
      → (clear_pending_commands n senders s).timers id ≢ some t
  unfolding clear_pending_commands
  cleared_quiet s id (delayed t g) h e =
      let k =
        stop_all-IsAllStopped s.repeat_states (without_commands s) (without_commands-IsTimed s h) in
      ground (arith, k.timed.commands id t g e, k.handles)
  cleared_quiet s id (tap_once i key p) h e =
      let w = without_commands-IsTimed s h in
      let k = stop_all-IsAllStopped s.repeat_states (without_commands s) w in
      let r = w.taps id i key p (k.fewer id (tap_once i key p) e) in
      k.no_taps key i id i p
        (ap (get_entry key) (sym (clear_handles-rest s.pending_command_handles s).0) ∙ r.0) e
  cleared_quiet s id (lift i key p) h e =
      let w = without_commands-IsTimed s h in
      let k = stop_all-IsAllStopped s.repeat_states (without_commands s) w in
      let r = w.lifts id i key p (k.fewer id (lift i key p) e) in
      k.no_lifts key i id i p
        (ap (get_entry key) (sym (clear_handles-rest s.pending_command_handles s).0) ∙ r.0) e

  -- After any calls on a new bridge, `clear_pending_commands` leaves none of the bridge's timers armed in the
  -- window: no delayed touch, no repeated tap and no release of one happens afterwards.
  pub clear_pending_commands_quiet :
      (first_pointer_id : Option ℕ) (point : NormalizedPoint n) (cs : List (Call n senders))
      (id : ℕ)
      → (clear_pending_commands n senders (
            run n senders cs (create_input_mapping_command_bridge n first_pointer_id point))).timers
          id
        ≡ none
  clear_pending_commands_quiet first_pointer_id point cs id =
      let s = run n senders cs (create_input_mapping_command_bridge n first_pointer_id point) in
      let h =
        run_from-IsTimed cs (create_input_mapping_command_bridge n first_pointer_id point)
          (new_bridge-IsTimed first_pointer_id point) in
      elim (Option-cases ((clear_pending_commands n senders s).timers id)) [
        | inl e ↦ e
        | inr (t, e) ↦ absurd (cleared_quiet s id t h e)
      ]
