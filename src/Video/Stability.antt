-- ===== src/Video/Stability.antt =====
-- When the machine of AYLink.Web/src/features/screencast/videoStreamStateMachine.ts calls a stream
-- stable, over every sequence of marks.
use aylink_extra.Prelude.{ℕ, ◌+◌, ◌≤◌, ◌<◌, ◌≡◌, ◌≢◌, ◌⊎◌, arith, List, [], ◌∷◌, none, some}
use aylink_extra.Video.StateMachine.{
  idle, connecting, stable, stalled, detached, VideoStreamStateMachine,
  create_video_stream_state_machine, reset_video_stream_state_machine, mark_video_stream_connecting,
  mark_video_stream_unstable, mark_video_stream_advanced, mark_video_stream_detached,
  mark_video_stream_stable, get_video_stream_stable_duration, get_video_stream_detach_delay,
}

-- A call of one of the functions that change the machine.
pub data Mark : Type 0 where
  reset : Mark
  mark_connecting mark_unstable mark_advanced : (connection_id now : ℕ) → Mark
  mark_detached mark_stable : (connection_id : ℕ) → Mark

abbrev pub apply : Mark → VideoStreamStateMachine → VideoStreamStateMachine
apply reset m = reset_video_stream_state_machine m
apply (mark_connecting id now) m = mark_video_stream_connecting m id now
apply (mark_unstable id now) m = mark_video_stream_unstable m id now
apply (mark_advanced id now) m = mark_video_stream_advanced m id now
apply (mark_detached id) m = mark_video_stream_detached m id
apply (mark_stable id) m = mark_video_stream_stable m id

-- The machine after some marks, the latest first.
unfoldable pub after : List Mark → VideoStreamStateMachine
after [] = create_video_stream_state_machine
after (k ∷ ks) = apply k (after ks)

abbrev IsAdvance : ℕ → Mark → Type 0
IsAdvance id (mark_advanced connection_id now) = id ≡ connection_id
IsAdvance id _ = ⊥

abbrev pub HasAdvanced : ℕ → List Mark → Type 0
HasAdvanced id [] = ⊥
HasAdvanced id (k ∷ ks) = IsAdvance id k ⊎ HasAdvanced id ks

-- What holds between two marks.
pub record IsConsistent (m : VideoStreamStateMachine) : Type 0 where
  pub idle_unconnected : m.state ≡ idle → m.connection_id ≡ none
  pub connected : m.state ≢ idle → m.connection_id ≢ none
  pub unsettled_reset : (m.state ≡ connecting) ⊎ (m.state ≡ stalled) → m.stable_since ≡ 0
  pub stable_timed : m.state ≡ stable → 0 < m.stable_since

apply-IsConsistent :
    (k : Mark) (m : VideoStreamStateMachine) → IsConsistent m → IsConsistent (apply k m)
unfolding reset_video_stream_state_machine mark_video_stream_connecting mark_video_stream_unstable
    mark_video_stream_advanced mark_video_stream_detached mark_video_stream_stable
apply-IsConsistent reset m h = ground arith
apply-IsConsistent (mark_connecting id now) m h = ground arith
apply-IsConsistent (mark_unstable id now) m h = ground arith
apply-IsConsistent (mark_advanced id now) m h = ground arith
apply-IsConsistent (mark_detached id) m h = ground arith
apply-IsConsistent (mark_stable id) m h = ground arith

-- After any marks: an idle machine has no connection and every other one has, a connecting or
-- stalled stream has no start of stability, and a stable one has.
pub after-IsConsistent : (ks : List Mark) → IsConsistent (after ks)
unfolding after create_video_stream_state_machine
after-IsConsistent [] = ground arith
after-IsConsistent (k ∷ ks) = apply-IsConsistent k (after ks) (after-IsConsistent ks)

timed_by_advance :
    (ks : List Mark) (id : ℕ)
    → 0 < (after ks).stable_since
    → (after ks).connection_id ≡ some id
    → HasAdvanced id ks
unfolding after create_video_stream_state_machine reset_video_stream_state_machine
    mark_video_stream_connecting mark_video_stream_unstable mark_video_stream_advanced
    mark_video_stream_detached mark_video_stream_stable
timed_by_advance [] id h e = ground arith
timed_by_advance (reset ∷ ks) id h e = ground arith
timed_by_advance (mark_connecting j now ∷ ks) id h e = ground arith
timed_by_advance (mark_unstable j now ∷ ks) id h e = ground arith
timed_by_advance (mark_advanced j now ∷ ks) id h e = ground (arith, timed_by_advance ks id)
timed_by_advance (mark_detached j ∷ ks) id h e = ground (arith, timed_by_advance ks id)
timed_by_advance (mark_stable j ∷ ks) id h e = ground (arith, timed_by_advance ks id)

-- A stream is stable only if, on its connection, an advance was marked before.
pub stable_needs_advance :
    (ks : List Mark) (id : ℕ)
    → (after ks).state ≡ stable
    → (after ks).connection_id ≡ some id
    → HasAdvanced id ks
stable_needs_advance ks id s e = timed_by_advance ks id ((after-IsConsistent ks).stable_timed s) e

-- Where there is a delay before a detach, for any machine, connection, time and period, the stream has
-- been stable for some time, and the delay is what is left of the period after that time.
pub detach_delay_bounds :
    (m : VideoStreamStateMachine) (id now period delay : ℕ)
    → get_video_stream_detach_delay m id now period ≡ some delay
    → (0 < get_video_stream_stable_duration m id now)
      × (delay ≤ period)
      × (period ≤ delay + get_video_stream_stable_duration m id now)
unfolding get_video_stream_detach_delay
detach_delay_bounds m id now period delay e = ground arith

-- A stream that is detached while it connects gets no detach delay, and neither an advance nor a
-- stable mark on its connection changes it, for any times and period.
pub detached_while_connecting :
    (m : VideoStreamStateMachine) (id t now period : ℕ)
    → let d = mark_video_stream_detached (mark_video_stream_connecting m id t) id in
      (d.state ≡ detached)
      × (mark_video_stream_advanced d id now ≡ d)
      × (mark_video_stream_stable d id ≡ d)
      × (get_video_stream_detach_delay d id now period ≡ none)
unfolding mark_video_stream_connecting mark_video_stream_advanced mark_video_stream_detached
    mark_video_stream_stable get_video_stream_detach_delay
detached_while_connecting m id t now period = ground arith
