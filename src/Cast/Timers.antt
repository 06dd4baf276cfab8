-- ===== src/Cast/Timers.antt =====
-- The timers of the window against the scheduler's record of them
-- (AYLink.Web/src/features/screencast/connectionScheduler.ts).
use aylink_extra.Prelude.{
  ℕ, ◌≤◌, ◌≡◌, ◌↔◌, refl, arith, List, [], ◌∷◌, Bool, true, false, Option, none, some,
}
use aylink_extra.Prelude.Text.{String}
use aylink_extra.Cast.Scheduler.{
  TimerKind, reconnect, start, Timer, World, Getters, clear_pending_reconnect,
  clear_pending_start_connection, clear_start_connection_state, enable_auto_reconnect,
  disable_auto_reconnect, schedule_reconnect, schedule_start_connection, arm_start, fire,
  create_cast_connection_scheduler_state,
}

abbrev pub is_armed : TimerKind → Option Timer → Bool
is_armed kind none = false
is_armed reconnect (some t) = elim t.kind [ reconnect ↦ true | start ↦ false ]
is_armed start (some t) = elim t.kind [ reconnect ↦ false | start ↦ true ]

-- Each timer that the window holds is the one that the scheduler has recorded for its purpose, and
-- each recorded timer is held.
pub record IsTimed (w : World) : Type 0 where
  pub reconnects :
      (id : ℕ)
      → (is_armed reconnect (w.timers id) ≡ true) ↔ (w.scheduler.pending_reconnect_timer ≡ some id)
  pub starts :
      (id : ℕ)
      → (is_armed start (w.timers id) ≡ true)
        ↔ (w.scheduler.pending_start_connection_timer ≡ some id)
  pub fresh : (id : ℕ) → w.next_timer ≤ id → w.timers id ≡ none

clear_pending_reconnect-IsTimed : (w : World) → IsTimed w → IsTimed (clear_pending_reconnect w)
unfolding clear_pending_reconnect
clear_pending_reconnect-IsTimed w h = record {
  reconnects = λ id. ground (arith, h.reconnects id, h.starts id);
  starts = λ id. ground (arith, h.starts id, h.reconnects id);
  fresh = λ id. ground (arith, h.fresh id);
}

clear_pending_start_connection-IsTimed :
    (w : World) → IsTimed w → IsTimed (clear_pending_start_connection w)
unfolding clear_pending_start_connection
clear_pending_start_connection-IsTimed w h = record {
  reconnects = λ id. ground (arith, h.reconnects id, h.starts id);
  starts = λ id. ground (arith, h.starts id, h.reconnects id);
  fresh = λ id. ground (arith, h.fresh id);
}

pub disable_auto_reconnect-IsTimed : (w : World) → IsTimed w → IsTimed (disable_auto_reconnect w)
unfolding disable_auto_reconnect
disable_auto_reconnect-IsTimed w h = record {
  reconnects = λ id. ground (arith, h.reconnects id, h.starts id);
  starts = λ id. ground (arith, h.starts id, h.reconnects id);
  fresh = λ id. ground (arith, h.fresh id);
}

schedule_reconnect-IsTimed :
    (g : Getters) (w : World) → IsTimed w → IsTimed (schedule_reconnect g w)
unfolding schedule_reconnect
schedule_reconnect-IsTimed g w h = record {
  reconnects = λ id. ground (
    arith,
    h.reconnects id,
    h.starts id,
    h.fresh w.next_timer,
    h.starts w.next_timer,
    h.reconnects w.next_timer,
  );
  starts = λ id. ground (
    arith,
    h.starts id,
    h.reconnects id,
    h.fresh w.next_timer,
    h.starts w.next_timer,
    h.reconnects w.next_timer,
  );
  fresh = λ id.
      ground
        (arith, h.fresh id, h.fresh w.next_timer, h.starts w.next_timer, h.reconnects w.next_timer);
}

arm_start-IsTimed :
    (delay_ms : ℕ) (g : Getters) (w : World)
    → w.scheduler.pending_start_connection_timer ≡ none
    → IsTimed w
    → IsTimed (arm_start delay_ms g w)
unfolding arm_start enable_auto_reconnect
arm_start-IsTimed delay_ms g w e h = record {
  reconnects = λ id. ground (
    arith,
    h.reconnects id,
    h.starts id,
    h.fresh w.next_timer,
    h.starts w.next_timer,
    h.reconnects w.next_timer,
  );
  starts = λ id. ground (
    arith,
    h.starts id,
    h.reconnects id,
    h.fresh w.next_timer,
    h.starts w.next_timer,
    h.reconnects w.next_timer,
  );
  fresh = λ id. ground (arith, h.fresh id);
}

cleared_start :
    (w : World) → (clear_pending_start_connection w).scheduler.pending_start_connection_timer ≡ none
unfolding clear_pending_start_connection
cleared_start w = ground arith

schedule_start_connection-IsTimed :
    (delay_ms : ℕ) (g : Getters) (w : World)
    → IsTimed w
    → IsTimed (schedule_start_connection delay_ms g w)
unfolding schedule_start_connection
schedule_start_connection-IsTimed delay_ms g w h =
    let cleared = clear_pending_start_connection-IsTimed w h in
    arm_start-IsTimed delay_ms g (clear_pending_start_connection w) (cleared_start w) cleared

fire-IsTimed : (i : ℕ) (g : Getters) (w : World) → IsTimed w → IsTimed (fire i g w)
unfolding fire
fire-IsTimed i g w h = record {
  reconnects = λ id. ground (arith, h.reconnects id, h.starts id, h.reconnects i, h.starts i);
  starts = λ id. ground (arith, h.starts id, h.reconnects id, h.reconnects i, h.starts i);
  fresh = λ id. ground (arith, h.fresh id, h.reconnects i, h.starts i);
}

-- What may happen to a scheduler: its functions are called, or the window fires a timer.
pub data Event : Type 0 where
  reconnect_wanted : Getters → Event
  start_wanted : (delay_ms : ℕ) → Getters → Event
  reconnect_enabled reconnect_disabled reconnect_cleared start_cleared start_state_cleared : Event
  timer_fired : (id : ℕ) → Getters → Event

abbrev pub step : Event → World → World
step (reconnect_wanted g) w = schedule_reconnect g w
step (start_wanted delay_ms g) w = schedule_start_connection delay_ms g w
step reconnect_enabled w = enable_auto_reconnect w
step reconnect_disabled w = disable_auto_reconnect w
step reconnect_cleared w = clear_pending_reconnect w
step start_cleared w = clear_pending_start_connection w
step start_state_cleared w = clear_start_connection_state w
step (timer_fired id g) w = fire id g w

unfoldable pub run : List Event → World → World
run [] w = w
run (e ∷ es) w = run es (step e w)

step-IsTimed : (e : Event) (w : World) → IsTimed w → IsTimed (step e w)
unfolding enable_auto_reconnect clear_start_connection_state
step-IsTimed (reconnect_wanted g) w h = schedule_reconnect-IsTimed g w h
step-IsTimed (start_wanted delay_ms g) w h = schedule_start_connection-IsTimed delay_ms g w h
step-IsTimed reconnect_enabled w h = record {
  reconnects = h.reconnects;
  starts = h.starts;
  fresh = h.fresh;
}
step-IsTimed reconnect_disabled w h = disable_auto_reconnect-IsTimed w h
step-IsTimed reconnect_cleared w h = clear_pending_reconnect-IsTimed w h
step-IsTimed start_cleared w h = clear_pending_start_connection-IsTimed w h
step-IsTimed start_state_cleared w h = record {
  reconnects = h.reconnects;
  starts = h.starts;
  fresh = h.fresh;
}
step-IsTimed (timer_fired id g) w h = fire-IsTimed id g w h

-- A window without timers, and a new scheduler.
abbrev pub new_world : String → World
new_world status = record {
  scheduler = create_cast_connection_scheduler_state;
  is_connecting = false;
  status = status;
  timers = λ id. none;
  next_timer = 0;
  effects = [];
}

run_from-IsTimed : (es : List Event) (w : World) → IsTimed w → IsTimed (run es w)
unfolding run
run_from-IsTimed [] w h = h
run_from-IsTimed (e ∷ es) w h = run_from-IsTimed es (step e w) (step-IsTimed e w h)

pub new_world-IsTimed : (status : String) → IsTimed (new_world status)
unfolding create_cast_connection_scheduler_state
new_world-IsTimed status = record {
  reconnects = λ id. ground arith;
  starts = λ id. ground arith;
  fresh = λ id le. refl;
}

-- After any events, a reconnect timer is armed exactly if it is the one that the scheduler has
-- recorded, a start timer likewise, and no timer is armed that the window has not handed out: no
-- timer is lost or left behind, and at most one of each kind is pending.
pub run-IsTimed : (es : List Event) (status : String) → IsTimed (run es (new_world status))
run-IsTimed es status = run_from-IsTimed es (new_world status) (new_world-IsTimed status)
