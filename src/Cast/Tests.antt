-- ===== src/Cast/Tests.antt =====
-- Runs of the connection scheduler at concrete inputs.
use aylink_extra.Prelude.{◌≡◌, refl, List, [], ◌∷◌, ◌++◌, true, false}
use aylink_extra.Cast.Scheduler.{
  warn, start_connection, Getters, create_cast_connection_scheduler_state, schedule_reconnect, fire,
  disable_auto_reconnect,
}
use aylink_extra.Cast.Timers.{
  Event, reconnect_wanted, start_wanted, reconnect_disabled, timer_fired, new_world, run, IsTimed,
  new_world-IsTimed, run-IsTimed,
}
use aylink_extra.Cast.Reconnect.{
  wanted, fired, attempt_all, fire-schedule_reconnect, disable_auto_reconnect_quiet,
}

abbrev getters : Getters
getters = record {
  active_tab_present = true;
  device_id = "device";
  active_tab_key = "tab";
  has_live_connection = false;
  reconnect_status_message = λ attempt. "Reconnecting";
  preparing_status_message = "Preparing";
}

abbrev events : List Event
events =
    reconnect_wanted getters
    ∷ timer_fired 0 getters
    ∷ start_wanted 250 getters
    ∷ reconnect_wanted getters
    ∷ reconnect_disabled
    ∷ []

run-IsTimed_example : IsTimed (run events (new_world "Idle"))
run-IsTimed_example = run-IsTimed events "Idle"

fire-schedule_reconnect_example :
    ((fire 0 getters (schedule_reconnect getters (new_world "Idle"))).effects
      ≡ [] ++ warn ∷ start_connection ∷ [])
    × ((fire 0 getters (schedule_reconnect getters (new_world "Idle"))).scheduler
        ≡ record create_cast_connection_scheduler_state { reconnect_attempt = 1 })
unfolding create_cast_connection_scheduler_state
fire-schedule_reconnect_example =
    fire-schedule_reconnect getters getters (new_world "Idle") refl refl refl

disable_auto_reconnect_quiet_example :
    attempt_all (wanted getters ∷ fired 0 getters ∷ []) (disable_auto_reconnect (new_world "Idle"))
    ≡ disable_auto_reconnect (new_world "Idle")
unfolding create_cast_connection_scheduler_state
disable_auto_reconnect_quiet_example =
    disable_auto_reconnect_quiet (new_world "Idle") (wanted getters ∷ fired 0 getters ∷ [])
      (new_world-IsTimed "Idle") refl
