-- ===== src/Video/StateMachine.antt =====
-- AYLink.Web/src/features/screencast/videoStreamStateMachine.ts. A function that changes the machine
-- in place returns the new one; times are whole milliseconds, so `Math.max(0, a - b)` is `a - b`.
use aylink_extra.Prelude.{
  ℕ, ◌-◌, Bool, true, false, not, ◌||◌, ◌==◌, if◌then◌else◌, Option, none, some, is_id,
}

pub data VideoStreamState : Type 0 where
  idle connecting observing stable stalled detached : VideoStreamState

pub record VideoStreamStateMachine : Type 0 where
  pub state : VideoStreamState
  pub connection_id : Option ℕ
  pub stable_since : ℕ
  pub last_unstable_at : ℕ

unfoldable pub create_video_stream_state_machine : VideoStreamStateMachine
create_video_stream_state_machine = record {
  state = idle;
  connection_id = none;
  stable_since = 0;
  last_unstable_at = 0;
}

unfoldable pub reset_video_stream_state_machine : VideoStreamStateMachine → VideoStreamStateMachine
reset_video_stream_state_machine machine = record machine {
  state = idle;
  connection_id = none;
  stable_since = 0;
  last_unstable_at = 0;
}

unfoldable pub mark_video_stream_connecting :
    VideoStreamStateMachine → ℕ → ℕ → VideoStreamStateMachine
mark_video_stream_connecting machine connection_id now = record machine {
  state = connecting;
  connection_id = some connection_id;
  stable_since = 0;
  last_unstable_at = now;
}

unfoldable pub mark_video_stream_unstable :
    VideoStreamStateMachine → ℕ → ℕ → VideoStreamStateMachine
mark_video_stream_unstable machine connection_id now =
    let moved =
      (if not (is_id machine.connection_id connection_id)
        then record machine { connection_id = some connection_id }
        else machine) in
    record moved { state = stalled; stable_since = 0; last_unstable_at = now }

-- `idle`, `connecting` or `stalled`
abbrev pub is_unsettled : VideoStreamState → Bool
is_unsettled idle = true
is_unsettled connecting = true
is_unsettled stalled = true
is_unsettled _ = false

-- The early returns for `observing`, `stable` and `detached`; no other state is left behind them.
abbrev pub keeps_observation : VideoStreamState → Bool
keeps_observation observing = true
keeps_observation stable = true
keeps_observation detached = true
keeps_observation _ = false

unfoldable pub mark_video_stream_advanced :
    VideoStreamStateMachine → ℕ → ℕ → VideoStreamStateMachine
mark_video_stream_advanced machine connection_id now =
    if not (is_id machine.connection_id connection_id) || is_unsettled machine.state
    then record machine {
      connection_id = some connection_id;
      state = observing;
      stable_since = now;
    }
    else if keeps_observation machine.state
    then machine
    else record machine { state = observing; stable_since = now }

unfoldable pub mark_video_stream_detached : VideoStreamStateMachine → ℕ → VideoStreamStateMachine
mark_video_stream_detached machine connection_id =
    if not (is_id machine.connection_id connection_id)
    then machine
    else record machine { state = detached }

-- The guard that `markVideoStreamStable` and `getVideoStreamStableDuration` share.
abbrev pub is_not_settled : VideoStreamStateMachine → ℕ → Bool
is_not_settled machine connection_id =
    not (is_id machine.connection_id connection_id)
    || machine.stable_since == 0
    || is_unsettled machine.state

unfoldable pub mark_video_stream_stable : VideoStreamStateMachine → ℕ → VideoStreamStateMachine
mark_video_stream_stable machine connection_id =
    if is_not_settled machine connection_id then machine else record machine { state = stable }

unfoldable pub get_video_stream_stable_duration : VideoStreamStateMachine → ℕ → ℕ → ℕ
get_video_stream_stable_duration machine connection_id now =
    if is_not_settled machine connection_id then 0 else now - machine.stable_since

unfoldable pub get_video_stream_detach_delay : VideoStreamStateMachine → ℕ → ℕ → ℕ → Option ℕ
unfolding get_video_stream_stable_duration
get_video_stream_detach_delay machine connection_id now stable_period_ms =
    let stable_duration = get_video_stream_stable_duration machine connection_id now in
    if stable_duration == 0 then none else some (stable_period_ms - stable_duration)
