-- ===== src/Cast/Scheduler.antt =====
-- AYLink.Web/src/features/screencast/connectionScheduler.ts. The scheduler's state, the two refs that
-- it writes, the timers of the window and the callbacks that it has called are one record. The
-- getters of the options are a record that each operation is given. The view passes
-- clearPendingReconnect and enableAutoReconnect of this file for the callbacks of these names.
use aylink_extra.Prelude.{
  ℕ, ◌+◌, List, [], ◌∷◌, ◌++◌, Bool, true, false, not, ◌&&◌, ◌||◌, ◌==◌, if◌then◌else◌, Option,
  none, some, is_some,
}
use aylink_extra.Prelude.Text.{String, str_eq}

pub record CastConnectionSchedulerState : Type 0 where
  pub pending_reconnect_timer : Option ℕ
  pub pending_start_connection_timer : Option ℕ
  pub reconnect_attempt : ℕ
  pub suppress_auto_reconnect : Bool
  pub is_start_connection_in_flight : Bool
  pub active_connection_target_key : String

pub data TimerKind : Type 0 where
  reconnect start : TimerKind

pub record Timer : Type 0 where
  pub kind : TimerKind
  pub delay_ms : ℕ

pub data Effect : Type 0 where
  start_connection warn clear_pending_ice_restart_fallback clear_pending_video_recovery
        reset_signaling_detach_state ice_restart_reset :
      Effect

pub record World : Type 0 where
  pub scheduler : CastConnectionSchedulerState
  pub is_connecting : Bool
  pub status : String
  pub timers : ℕ → Option Timer
  pub next_timer : ℕ
  pub effects : List Effect

pub record Getters : Type 0 where
  pub active_tab_present : Bool
  pub device_id : String
  pub active_tab_key : String
  pub has_live_connection : Bool
  pub reconnect_status_message : ℕ → String
  pub preparing_status_message : String

unfoldable pub create_cast_connection_scheduler_state : CastConnectionSchedulerState
create_cast_connection_scheduler_state = record {
  pending_reconnect_timer = none;
  pending_start_connection_timer = none;
  reconnect_attempt = 0;
  suppress_auto_reconnect = false;
  is_start_connection_in_flight = false;
  active_connection_target_key = "";
}

abbrev pub update : (ℕ → Option Timer) → ℕ → Option Timer → ℕ → Option Timer
update timers id timer j = if id == j then timer else timers j

-- `window.clearTimeout(id)`
abbrev pub clear_timeout : ℕ → World → World
clear_timeout id w = record w { timers = update w.timers id none }

-- `window.setTimeout(callback, delay)`, which answers `next_timer`.
abbrev pub set_timeout : TimerKind → ℕ → World → World
set_timeout kind delay_ms w = record w {
  timers = update w.timers w.next_timer (some (record { kind = kind; delay_ms = delay_ms }));
  next_timer = w.next_timer + 1;
}

abbrev pub call : Effect → World → World
call effect w = record w { effects = w.effects ++ effect ∷ [] }

abbrev pub with_scheduler : World → CastConnectionSchedulerState → World
with_scheduler w s = record w { scheduler = s }

unfoldable pub clear_pending_reconnect : World → World
clear_pending_reconnect w = elim w.scheduler.pending_reconnect_timer [
  | some id ↦
      with_scheduler (clear_timeout id w) (record (w.scheduler) { pending_reconnect_timer = none })
  | none ↦ w
]

unfoldable pub clear_pending_start_connection : World → World
clear_pending_start_connection w = elim w.scheduler.pending_start_connection_timer [
  | some id ↦
      with_scheduler (clear_timeout id w)
        (record (w.scheduler) { pending_start_connection_timer = none })
  | none ↦ w
]

unfoldable pub clear_start_connection_state : World → World
clear_start_connection_state w = with_scheduler w (record (w.scheduler) {
  is_start_connection_in_flight = false;
  active_connection_target_key = "";
})

unfoldable pub enable_auto_reconnect : World → World
enable_auto_reconnect w =
    with_scheduler w (record (w.scheduler) { suppress_auto_reconnect = false })

unfoldable pub disable_auto_reconnect : World → World
unfolding clear_pending_reconnect clear_start_connection_state
disable_auto_reconnect w =
    let suppressed = with_scheduler w (record (w.scheduler) { suppress_auto_reconnect = true }) in
    let cleared = clear_pending_reconnect suppressed in
    let called1 = call clear_pending_ice_restart_fallback cleared in
    let called2 = call clear_pending_video_recovery called1 in
    let called3 = call reset_signaling_detach_state called2 in
    clear_start_connection_state (call ice_restart_reset called3)

-- `delays[Math.min(attempt, delays.length - 1)]` of 1000, 2000, 5000 and 10000.
unfoldable pub reconnect_delay : ℕ → ℕ
reconnect_delay attempt =
    if attempt == 0
    then 1000
    else if attempt == 1
    then 2000
    else if attempt == 2
    then 5000
    else 10000

-- The guards of `scheduleReconnect`.
abbrev pub is_reconnect_blocked : Getters → World → Bool
is_reconnect_blocked g w =
    w.scheduler.suppress_auto_reconnect || not g.active_tab_present || str_eq g.device_id ""

abbrev pub is_pending : World → Bool
is_pending w =
    is_some w.scheduler.pending_reconnect_timer
    || is_some w.scheduler.pending_start_connection_timer

unfoldable pub schedule_reconnect : Getters → World → World
unfolding reconnect_delay
schedule_reconnect g w =
    let delay_ms = reconnect_delay w.scheduler.reconnect_attempt in
    let attempt = w.scheduler.reconnect_attempt + 1 in
    let counted = with_scheduler w (record (w.scheduler) { reconnect_attempt = attempt }) in
    let shown = record counted {
      is_connecting = true;
      status = g.reconnect_status_message attempt;
    } in
    let armed = set_timeout reconnect delay_ms (call warn shown) in
    if is_reconnect_blocked g w || is_pending w
    then w
    else with_scheduler armed
        (record (armed.scheduler) { pending_reconnect_timer = some w.next_timer })

-- The callback of the timer that `scheduleReconnect` sets.
unfoldable pub fire_reconnect : Getters → World → World
fire_reconnect g w =
    let cleared = with_scheduler w (record (w.scheduler) { pending_reconnect_timer = none }) in
    if is_reconnect_blocked g w then cleared else call start_connection cleared

abbrev pub begin_connection : String → World → World
begin_connection key w = call start_connection (
    with_scheduler w (record (w.scheduler) {
      is_start_connection_in_flight = true;
      active_connection_target_key = key;
    }))

abbrev pub is_busy_with : Getters → World → Bool
is_busy_with g w =
    str_eq w.scheduler.active_connection_target_key g.active_tab_key
    && (w.scheduler.is_start_connection_in_flight || g.has_live_connection || w.is_connecting)

-- The rest of `scheduleStartConnection`, once the pending start is cleared. A delay of 0 stands for
-- every delay that is not positive.
unfoldable pub arm_start : ℕ → Getters → World → World
unfolding enable_auto_reconnect
arm_start delay_ms g w =
    let enabled = enable_auto_reconnect w in
    let shown = record enabled { status = g.preparing_status_message; is_connecting = true } in
    let armed = set_timeout start delay_ms shown in
    if str_eq g.device_id ""
    then w
    else if is_busy_with g w
    then w
    else if delay_ms == 0
    then begin_connection g.active_tab_key enabled
    else with_scheduler armed
        (record (armed.scheduler) { pending_start_connection_timer = some w.next_timer })

unfoldable pub schedule_start_connection : ℕ → Getters → World → World
schedule_start_connection delay_ms g w = arm_start delay_ms g (clear_pending_start_connection w)

-- The callback of the timer that `scheduleStartConnection` sets.
unfoldable pub fire_start : Getters → World → World
fire_start g w =
    begin_connection g.active_tab_key
      (with_scheduler w (record (w.scheduler) { pending_start_connection_timer = none }))

-- The window runs the callback of an armed timer once.
unfoldable pub fire : ℕ → Getters → World → World
unfolding fire_reconnect fire_start
fire id g w = elim (w.timers id) [
  | none ↦ w
  | some t ↦ elim t.kind [
    | reconnect ↦ fire_reconnect g (clear_timeout id w)
    | start ↦ fire_start g (clear_timeout id w)
  ]
]
