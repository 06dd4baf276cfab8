-- ===== src/Cast/Reconnect.antt =====
-- Automatic reconnection (scheduleReconnect and disableAutoReconnect of AYLink.Web/src/features/
-- screencast/connectionScheduler.ts).
use mathlib.Core.List.{append_assoc}
use aylink_extra.Prelude.{
  ℕ, ◌+◌, ◌≤◌, ◌≡◌, ◌≢◌, refl, arith, List, [], ◌∷◌, ◌++◌, true, false, Option, none, some,
}
use aylink_extra.Cast.Scheduler.{
  warn, start_connection, reconnect, start, Timer, World, Getters, is_reconnect_blocked, is_pending,
  reconnect_delay, disable_auto_reconnect, schedule_reconnect, fire,
}
use aylink_extra.Cast.Timers.{IsTimed, is_armed, disable_auto_reconnect-IsTimed}

-- The delays grow with the attempts, from one second to ten.
pub reconnect_delay_bounds :
    (a b : ℕ)
    → a ≤ b
    → (1000 ≤ reconnect_delay a)
      × (reconnect_delay a ≤ reconnect_delay b)
      × (reconnect_delay b ≤ 10000)
unfolding reconnect_delay
reconnect_delay_bounds a b h = ground arith

-- A reconnect that nothing blocks leaves one pending: another request, whatever its getters answer,
-- changes nothing any more.
pub schedule_reconnect-schedule_reconnect :
    (g h : Getters) (w : World)
    → is_reconnect_blocked g w ≡ false
    → schedule_reconnect h (schedule_reconnect g w) ≡ schedule_reconnect g w
unfolding schedule_reconnect
schedule_reconnect-schedule_reconnect g h w free = ground arith

-- A reconnect that nothing blocks and that finds no timer pending, whose timer then fires while nothing
-- blocks it: the connection is started once, after a warning, no reconnect is pending, and the attempt
-- is counted.
pub fire-schedule_reconnect :
    (g h : Getters) (w : World)
    → is_reconnect_blocked g w ≡ false
    → is_pending w ≡ false
    → is_reconnect_blocked h w ≡ false
    → ((fire w.next_timer h (schedule_reconnect g w)).effects
        ≡ w.effects ++ warn ∷ start_connection ∷ [])
      × ((fire w.next_timer h (schedule_reconnect g w)).scheduler
          ≡ record (w.scheduler) { reconnect_attempt = w.scheduler.reconnect_attempt + 1 })
unfolding schedule_reconnect fire
fire-schedule_reconnect g h w free idle still =
    ground (arith, append_assoc w.effects (warn ∷ []) (start_connection ∷ []))

-- Calls that ask for a reconnect, and timers that fire.
pub data Attempt : Type 0 where
  wanted : Getters → Attempt
  fired : (id : ℕ) → Getters → Attempt

abbrev attempt : Attempt → World → World
attempt (wanted g) w = schedule_reconnect g w
attempt (fired id g) w = fire id g w

unfoldable pub attempt_all : List Attempt → World → World
attempt_all [] w = w
attempt_all (a ∷ rest) w = attempt_all rest (attempt a w)

record IsQuiet (w : World) : Type 0 where
  suppressed : w.scheduler.suppress_auto_reconnect ≡ true
  unarmed : (id : ℕ) → w.timers id ≡ none

attempt-IsQuiet : (a : Attempt) (w : World) → IsQuiet w → attempt a w ≡ w
unfolding schedule_reconnect fire
attempt-IsQuiet (wanted g) w h = ground (arith, h.suppressed)
attempt-IsQuiet (fired id g) w h = ground (arith, h.unarmed id)

attempt_all-IsQuiet : (rest : List Attempt) (w : World) → IsQuiet w → attempt_all rest w ≡ w
unfolding attempt_all
attempt_all-IsQuiet [] w h = refl
attempt_all-IsQuiet (a ∷ rest) w h = rw (attempt-IsQuiet a w h) (attempt_all-IsQuiet rest w h)

unarmed_cases :
    (o : Option Timer) → is_armed reconnect o ≢ true → is_armed start o ≢ true → o ≡ none
unarmed_cases none r s = refl
unarmed_cases (some t) r s = ground arith

disable_auto_reconnect-state :
    (w : World)
    → let w' = disable_auto_reconnect w in
      (w'.scheduler.suppress_auto_reconnect ≡ true)
      × (w'.scheduler.pending_reconnect_timer ≡ none)
      × (w'.scheduler.pending_start_connection_timer ≡ w.scheduler.pending_start_connection_timer)
unfolding disable_auto_reconnect
disable_auto_reconnect-state w = ground arith

-- Once automatic reconnection is disabled, in a state whose timers are those recorded and where no
-- start is pending, no further request for a reconnect and no firing of a timer changes anything,
-- whatever the getters answer: nothing is armed and no connection is started.
pub disable_auto_reconnect_quiet :
    (w : World) (rest : List Attempt)
    → IsTimed w
    → w.scheduler.pending_start_connection_timer ≡ none
    → attempt_all rest (disable_auto_reconnect w) ≡ disable_auto_reconnect w
disable_auto_reconnect_quiet w rest h e =
    let timed = disable_auto_reconnect-IsTimed w h in
    let (off, cleared, kept) = disable_auto_reconnect-state w in
    attempt_all-IsQuiet rest (disable_auto_reconnect w) (record {
      suppressed = off;
      unarmed = λ id.
          unarmed_cases _ (λ r. cc ((timed.reconnects id).0 r)) (λ s. cc ((timed.starts id).0 s));
    })
