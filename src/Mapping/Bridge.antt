-- ===== src/Mapping/Bridge.antt =====
-- AYLink.Web/src/features/inputMapping/inputMappingCommandBridge.ts. The variables of the closure are a
-- record, with the timers of the window and the log of what was sent; a repeat state is named by a
-- number, since its timers share it. What the senders answer, and whether they finalize a touch before
-- they return, are parameters; one that is finalized later is so by a call of its own.
pub mod Execution
pub mod Pointers
pub mod Runs
pub mod Ids
pub mod Timers
pub mod Taps
pub mod Repeats
pub mod Steps
pub mod Clearing
pub mod Log
pub mod Lifts
pub mod Ages
pub mod Aging
pub mod Stale
mod Tests
use aylink_extra.Prelude.{
  ℕ, zero, suc, ◌+◌, ◌-◌, ◌*◌, ◌≤◌, ◌<◌, min, max, ◌≡◌, ◌≢◌, ◌⊎◌, ◌↔◌, inl, inr, refl, ap, sym, ◌∙◌,
  arith, List, [], ◌∷◌, ◌++◌, Bool, true, false, not, ◌&&◌, ◌||◌, Option, none, some, if◌then◌else◌,
  ltb, leb, ◌==◌, Bool-cases, Option-cases, length, is_some, get_or_else, is_id,
}
use aylink_extra.Prelude.Int.{ℤ, pos}
use aylink_extra.Prelude.Text.{String}
use aylink_extra.Prelude.Entries.{put, get_entry, set_entry, delete_entry}
use aylink_extra.Prelude.Numbers.{Numbers}
use aylink_extra.Mapping.Schema.{NormalizedPoint}
use aylink_extra.Mapping.Commands.{
  TouchPhase, touch_down, touch_move, touch_up, touch_cancel, Touch, HidPhase, InputMappingCommand,
  touch, touch_repeat, stop_touch_repeat, hid_key_command, hid_mouse_button_command,
  hid_mouse_wheel,
}

module _ (n : Numbers) where
  open n use {Num, int, lt}

  pub data Sent : Type 0 where
    sent_touch :
        TouchPhase
        → (pointer_id : ℕ) (pointer_key : String) → NormalizedPoint n
        → (pressure : Num) → Sent
    sent_key : HidPhase → (code : String) → Sent
    sent_button : HidPhase → (button : ℕ) → Sent
    sent_wheel : (delta_y : Num) → Sent

  -- Of the log, whose last entry is what is sent now.
  pub record Senders : Type 0 where
    pub accepts : List Sent → Bool
    pub finalizes : List Sent → Bool

  pub record RepeatState : Type 0 where
    pub interval_handle : ℕ
    pub up_handle : Option ℕ
    pub point : NormalizedPoint n
    pub is_down : Bool

  -- What a timer of the window does when it fires.
  pub data Timer : Type 0 where
    delayed : Touch n → (generation : ℕ) → Timer
    tap_once lift : (state : ℕ) (pointer_key : String) → NormalizedPoint n → Timer

  pub record InputMappingCommandBridge : Type 0 where
    pub pointer_ids : List (String × ℕ)
    pub pointer_generations : List (String × ℕ)
    pub pending_command_handles : List ℕ
    pub repeat_states : List (String × ℕ)
    pub states : ℕ → RepeatState
    pub next_state : ℕ
    pub next_pointer_id : ℕ
    pub timers : ℕ → Option Timer
    pub next_timer : ℕ
    pub sent : List Sent

  unfoldable pub create_input_mapping_command_bridge :
      (first_pointer_id : Option ℕ) (point : NormalizedPoint n) → InputMappingCommandBridge
  create_input_mapping_command_bridge first_pointer_id point = record {
    pointer_ids = [];
    pointer_generations = [];
    pending_command_handles = [];
    repeat_states = [];
    states = λ id. record { interval_handle = 0; up_handle = none; point = point; is_down = false };
    next_state = 0;
    next_pointer_id = get_or_else first_pointer_id 10000;
    timers = λ id. none;
    next_timer = 1;
    sent = [];
  }

  abbrev pub get_pointer_generation : String → InputMappingCommandBridge → ℕ
  get_pointer_generation pointer_key s = get_or_else (get_entry pointer_key s.pointer_generations) 0

  unfoldable pub bump_pointer_generation :
      String → InputMappingCommandBridge → InputMappingCommandBridge
  bump_pointer_generation pointer_key s = record s {
    pointer_generations =
        set_entry pointer_key (get_pointer_generation pointer_key s + 1) s.pointer_generations;
  }

  unfoldable pub get_or_create_pointer_id :
      String → InputMappingCommandBridge → InputMappingCommandBridge × ℕ
  get_or_create_pointer_id pointer_key s = elim (get_entry pointer_key s.pointer_ids) [
    | some existing ↦ (s, existing)
    | none ↦ (
      record s {
        next_pointer_id = s.next_pointer_id + 1;
        pointer_ids = set_entry pointer_key s.next_pointer_id s.pointer_ids;
        pointer_generations =
            set_entry pointer_key (get_pointer_generation pointer_key s) s.pointer_generations;
      },
      s.next_pointer_id,
    )
  ]

  -- Without an id, or with the id that the key has.
  unfoldable pub release_pointer_key_internal :
      String → Option ℕ → InputMappingCommandBridge → InputMappingCommandBridge
  release_pointer_key_internal pointer_key none s = record s {
    pointer_ids = delete_entry pointer_key s.pointer_ids;
  }
  release_pointer_key_internal pointer_key (some pointer_id) s =
      if is_id (get_entry pointer_key s.pointer_ids) pointer_id
      then record s { pointer_ids = delete_entry pointer_key s.pointer_ids }
      else s

  abbrev pub clear_timer : Option ℕ → InputMappingCommandBridge → InputMappingCommandBridge
  clear_timer none s = s
  clear_timer (some id) s = record s { timers = put id none s.timers }

  abbrev pub set_timer : Timer → InputMappingCommandBridge → InputMappingCommandBridge
  set_timer timer s = record s {
    timers = put s.next_timer (some timer) s.timers;
    next_timer = s.next_timer + 1;
  }

module _ (n : Numbers) (senders : Senders n) where
  open n use {Num, int}

  abbrev pub is_final : TouchPhase → Bool
  is_final touch_down = false
  is_final touch_move = false
  is_final touch_up = true
  is_final touch_cancel = true

  -- `executeNow` on a touch.
  unfoldable pub send_touch :
      TouchPhase
      → String
      → NormalizedPoint n
      → Num
      → InputMappingCommandBridge n
      → InputMappingCommandBridge n
  send_touch phase pointer_key point pressure s =
      let created = get_or_create_pointer_id n pointer_key s in
      let log = s.sent ++ sent_touch phase created.1 pointer_key point pressure ∷ [] in
      let logged = record (created.0) { sent = log } in
      if is_final phase && senders.finalizes log
      then release_pointer_key_internal n pointer_key (some created.1) logged
      else logged

  -- `stopTouchRepeat` with a repeat state.
  abbrev pub stop_state :
      String → RepeatState n → InputMappingCommandBridge n → InputMappingCommandBridge n
  stop_state pointer_key state s =
      let quiet = clear_timer n state.up_handle (clear_timer n (some state.interval_handle) s) in
      let stopped =
        bump_pointer_generation n pointer_key
          (record quiet { repeat_states = delete_entry pointer_key s.repeat_states }) in
      if state.is_down
      then send_touch touch_cancel pointer_key state.point (int (pos 0)) stopped
      else release_pointer_key_internal n pointer_key none stopped

  unfoldable pub stop_repeat : String → InputMappingCommandBridge n → InputMappingCommandBridge n
  stop_repeat pointer_key s = elim (get_entry pointer_key s.repeat_states) [
    | none ↦
        release_pointer_key_internal n pointer_key none (bump_pointer_generation n pointer_key s)
    | some id ↦ stop_state pointer_key (s.states id) s
  ]

  -- `tapOnce`
  unfoldable pub tap :
      (state : ℕ)
      → String
      → NormalizedPoint n
      → InputMappingCommandBridge n
      → InputMappingCommandBridge n
  tap state pointer_key point s =
      if (s.states state).is_down
      then s
      else let down =
          send_touch touch_down pointer_key point (int (pos 1)) (record s {
            states = put state (record (s.states state) { is_down = true }) s.states;
          }) in
        let waiting = set_timer n (lift state pointer_key point) down in
        record waiting {
          states =
              put state (record (down.states state) { up_handle = some down.next_timer })
                down.states;
        }

  -- The callback of `tapOnce`'s timer.
  unfoldable pub lift_up :
      (state : ℕ)
      → String
      → NormalizedPoint n
      → InputMappingCommandBridge n
      → InputMappingCommandBridge n
  lift_up state pointer_key point s =
      send_touch touch_up pointer_key point (int (pos 0)) (record s {
        states = put state (record (s.states state) { up_handle = none; is_down = false }) s.states;
      })

  unfoldable pub start_repeat :
      String → NormalizedPoint n → InputMappingCommandBridge n → InputMappingCommandBridge n
  start_repeat pointer_key point s =
      let stopped = stop_repeat pointer_key s in
      let state = stopped.next_state in
      let created = record stopped {
        next_state = state + 1;
        states =
            put state
              (record { interval_handle = 0; up_handle = none; point = point; is_down = false })
              stopped.states;
      } in
      let tapped = tap state pointer_key point created in
      let repeating = set_timer n (tap_once state pointer_key point) tapped in
      record repeating {
        states =
            put state (record (tapped.states state) { interval_handle = tapped.next_timer })
              tapped.states;
        repeat_states = set_entry pointer_key state tapped.repeat_states;
      }
