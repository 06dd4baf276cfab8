-- ===== src/Video/Decisions.antt =====
-- What decideVideoRecovery of AYLink.Web/src/features/screencast/videoRecoveryDecision.ts can answer,
-- and when.
use aylink_extra.Prelude.{
  sym, subst, none, ap, get_or_else, refl, ◌≡◌, ◌≢◌, ◌⊎◌, ◌↔◌, arith, Bool, true, false, ◌&&◌,
  Option, some, ap, get_or_else,
}
use aylink_extra.Prelude.Negations.{false_iff, and_false_iff, or_false_iff}
use aylink_extra.Prelude.Text.{str_eq, String, eq_iff}
use aylink_extra.Video.Recovery.{
  UnifiedVideoStreamState, observing, degraded, stalled, recovering, detached,
  UnifiedVideoHealthOrigin, source, sender, transport, client, UnifiedVideoRecoveryAction, observe,
  keyframe_replay, source_refresh, signaling_reattach, renegotiate, ice_restart,
  AgentVideoHealthSnapshot, ClientVideoHealthSnapshot, UnifiedVideoRecoveryDecision, snapshot_of,
  or_text, is_client_stalled, is_agent_video_path_healthy, decide_video_recovery, RecoveryTests,
  decide_by, tests_of, source_reason_of, agent_reason_of, is_true, normalize_origin, is_text,
}

-- The combinations of state, origin and action that a decision may have.
abbrev pub is_allowed :
    UnifiedVideoStreamState → UnifiedVideoHealthOrigin → UnifiedVideoRecoveryAction → Bool
is_allowed observing source observe = true
is_allowed stalled source source_refresh = true
is_allowed degraded transport ice_restart = true
is_allowed degraded transport signaling_reattach = true
is_allowed detached transport signaling_reattach = true
is_allowed stalled client renegotiate = true
is_allowed recovering sender keyframe_replay = true
is_allowed stalled client keyframe_replay = true
is_allowed _ _ _ = false

decide_by-is_allowed :
    (t : RecoveryTests) (r1 r2 r3 : String)
    → let d = decide_by t r1 r2 r3 in is_allowed d.state d.origin d.action ≡ true
unfolding decide_by
decide_by-is_allowed t r1 r2 r3 = ground arith

decide_by-unattached :
    (t : RecoveryTests) (r1 r2 r3 : String)
    → t.attached ≡ false
    → (t.path_healthy ≡ false)
    → ((decide_by t r1 r2 r3).action ≡ source_refresh)
      ⊎ ((decide_by t r1 r2 r3).action ≡ signaling_reattach)
unfolding decide_by
decide_by-unattached t r1 r2 r3 h k = ground arith

decide_by-observe :
    (t : RecoveryTests) (r1 r2 r3 : String)
    → ((decide_by t r1 r2 r3).action ≡ observe)
      ↔ ((t.client_stalled ≡ true) × (t.source_static ≡ true) × (t.path_healthy ≡ true))
unfolding decide_by
decide_by-observe t r1 r2 r3 = ground arith

decide_by-renegotiate :
    (t : RecoveryTests) (r1 r2 r3 : String)
    → ((decide_by t r1 r2 r3).action ≡ renegotiate) ↔ (
        (t.client_stalled ≡ true)
        × ((t.source_static && t.path_healthy) ≡ false)
        × (t.source_packet_idle ≡ false)
        × (t.agent_stalled ≡ false)
        × (t.peer_down ≡ false)
        × (t.attached ≡ true)
        × (t.agent_origin ≢ source)
        × (t.agent_origin ≢ transport))
unfolding decide_by
decide_by-renegotiate t r1 r2 r3 = ground arith

decide_by-reason :
    (t : RecoveryTests) (r1 r2 r3 : String) → r3 ≢ "" → (decide_by t r1 r2 r3).reason ≢ ""
unfolding decide_by
decide_by-reason t r1 r2 r3 h = ground (arith, eq_iff r1 "", eq_iff r2 "")

module _ (to_lower_case trim : String → String) (snapshot : ClientVideoHealthSnapshot)
    (health : Option AgentVideoHealthSnapshot) where
  abbrev decided : UnifiedVideoRecoveryDecision
  decided = decide_video_recovery to_lower_case trim snapshot health

  abbrev tests : RecoveryTests
  tests = tests_of to_lower_case trim snapshot (snapshot_of health)

  abbrev from_source : String
  from_source = source_reason_of to_lower_case trim (snapshot_of health)

  abbrev from_agent : String
  from_agent = agent_reason_of to_lower_case trim (snapshot_of health)

  abbrev source_state : String
  source_state = to_lower_case (or_text (snapshot_of health).source_health.state "")

  -- Every decision combines state, origin and action in one of the eight ways of `is_allowed`; so it
  -- never asks for a reconnect, and an ICE restart comes with a degraded transport only. Whatever
  -- `toLowerCase` and `trim` do.
  pub decide_video_recovery-is_allowed :
      is_allowed decided.state decided.origin decided.action ≡ true
  unfolding decide_video_recovery
  decide_video_recovery-is_allowed =
      decide_by-is_allowed tests from_source from_agent snapshot.reason

  unattached-unhealthy :
      snapshot.signaling_attached ≡ false → (tests.attached ≡ false) × (tests.path_healthy ≡ false)
  unfolding tests_of is_agent_video_path_healthy
  unattached-unhealthy h = ground arith

  -- While signalling is not attached, the answer is to refresh the source or to reattach signalling.
  pub decide_video_recovery_unattached :
      snapshot.signaling_attached ≡ false
      → (decided.action ≡ source_refresh) ⊎ (decided.action ≡ signaling_reattach)
  unfolding decide_video_recovery
  decide_video_recovery_unattached h =
      let (off, unhealthy) = unattached-unhealthy h in
      decide_by-unattached tests from_source from_agent snapshot.reason off unhealthy

  abbrev agent : AgentVideoHealthSnapshot
  agent = snapshot_of health

  abbrev sender_state : String
  sender_state = to_lower_case (or_text agent.sender_state "")

  abbrev transport_state : String
  transport_state = to_lower_case (or_text agent.transport_health.peer_connection_state "")

  abbrev agent_state : String
  agent_state = to_lower_case (or_text agent.state "")

  abbrev origin_text : String
  origin_text = to_lower_case (or_text agent.origin "")

  -- What the answers depend on, in the fields of the snapshots.
  abbrev pub IsStalled : Type 0
  IsStalled =
      (snapshot.state ≡ "client_decode_stalled_confirmed")
      ⊎ (snapshot.state ≡ "client_render_stalled_confirmed")

  abbrev pub HasHealthyPath : Type 0
  HasHealthyPath =
      (agent.transport_health.session_closed ≢ some true)
      × (snapshot.signaling_attached ≡ true)
      × (sender_state ≡ "ready")
      × (transport_state ≢ "failed")
      × (transport_state ≢ "closed")

  is_client_stalled_iff : (is_client_stalled snapshot ≡ true) ↔ IsStalled
  is_client_stalled_iff = ground (
    arith,
    eq_iff snapshot.state "client_decode_stalled_confirmed",
    eq_iff snapshot.state "client_render_stalled_confirmed",
  )

  is_true_iff : (b : Option Bool) → (is_true b ≡ true) ↔ (b ≡ some true)
  is_true_iff none = ground arith
  is_true_iff (some true) = ground arith
  is_true_iff (some false) = ground arith

  is_agent_video_path_healthy_iff :
      (is_agent_video_path_healthy to_lower_case trim agent snapshot ≡ true) ↔ HasHealthyPath
  unfolding is_agent_video_path_healthy
  is_agent_video_path_healthy_iff = ground (
    arith,
    is_true_iff agent.transport_health.session_closed,
    eq_iff sender_state "ready",
    eq_iff transport_state "failed",
    eq_iff transport_state "closed",
  )

  normalize_origin-source :
      (normalize_origin to_lower_case trim agent.origin ≡ source) ↔ (origin_text ≡ "source")
  unfolding normalize_origin
  normalize_origin-source = ground (arith, eq_iff origin_text "source")

  normalize_origin-transport :
      (normalize_origin to_lower_case trim agent.origin ≡ transport) ↔ (origin_text ≡ "transport")
  unfolding normalize_origin
  normalize_origin-transport =
      let first : (origin_text ≡ "source") → str_eq origin_text "transport" ≡ false =
        λ e. subst (λ (t : String). str_eq t "transport" ≡ false) (sym e) refl in
      let second : (origin_text ≡ "sender") → str_eq origin_text "transport" ≡ false =
        λ e. subst (λ (t : String). str_eq t "transport" ≡ false) (sym e) refl in
      ground (
        arith,
        first,
        second,
        eq_iff origin_text "source",
        eq_iff origin_text "sender",
        eq_iff origin_text "transport",
      )

  is_text_iff : (value : Option String) (t : String) → (is_text value t ≡ true) ↔ (value ≡ some t)
  is_text_iff none t = ground arith
  is_text_iff (some v) t =
      (λ e. ap some ((eq_iff v t).0 e), λ e. (eq_iff v t).1 (ap (λ o. get_or_else o v) e))

  -- The answer is to observe exactly when a decode or render stall is confirmed at the client, the source
  -- is static but alive, the session is not said to be closed, signalling is attached, the sender is
  -- ready and the transport neither failed nor closed; states of the agent are read in lower case.
  pub decide_video_recovery-eq-observe_iff :
      (decided.action ≡ observe)
      ↔ (IsStalled × (source_state ≡ "static_but_alive") × HasHealthyPath)
  unfolding decide_video_recovery tests_of
  decide_video_recovery-eq-observe_iff =
      let (to, from) = decide_by-observe tests from_source from_agent snapshot.reason in
      (
        λ e.
            let (a, b, c) = to e in
            (
              is_client_stalled_iff.0 a,
              (eq_iff source_state "static_but_alive").0 b,
              is_agent_video_path_healthy_iff.0 c,
            ),
        λ h. from (
          is_client_stalled_iff.1 h.0,
          (eq_iff source_state "static_but_alive").1 h.1,
          is_agent_video_path_healthy_iff.1 h.2,
        ),
      )

  -- The answer is to renegotiate exactly when a decode or render stall is confirmed at the client and
  -- nothing speaks for another cause: the source is not static with a healthy path (session not said to
  -- be closed, sender ready, transport neither failed nor closed) and not without packets, the agent is
  -- not stalled, the peer connection neither failed nor disconnected, signalling is attached, and the
  -- agent names neither the source nor the transport as the origin; what the agent says is read in lower
  -- case.
  pub decide_video_recovery-eq-renegotiate_iff : (decided.action ≡ renegotiate) ↔ (
      IsStalled
      × ¬ ((source_state ≡ "static_but_alive") × HasHealthyPath)
      × (source_state ≢ "packet_idle")
      × (agent_state ≢ "stalled")
      × (snapshot.peer_connection_state ≢ some "failed")
      × (snapshot.peer_connection_state ≢ some "disconnected")
      × (snapshot.signaling_attached ≡ true)
      × (origin_text ≢ "source")
      × (origin_text ≢ "transport"))
  unfolding decide_video_recovery tests_of
  decide_video_recovery-eq-renegotiate_iff =
      let (to, from) = decide_by-renegotiate tests from_source from_agent snapshot.reason in
      let unhealthy =
        and_false_iff tests.source_static tests.path_healthy (source_state ≡ "static_but_alive")
          HasHealthyPath (eq_iff source_state "static_but_alive") is_agent_video_path_healthy_iff in
      let idle = false_iff tests.source_packet_idle _ (eq_iff source_state "packet_idle") in
      let stopped = false_iff tests.agent_stalled _ (eq_iff agent_state "stalled") in
      let down =
        or_false_iff _ _ _ _ (is_text_iff snapshot.peer_connection_state "failed")
          (is_text_iff snapshot.peer_connection_state "disconnected") in
      (
        λ e.
            let (a, b, c, d, f, g, h, i) = to e in
            let (failed, disconnected) = down.0 f in
            (
              is_client_stalled_iff.0 a,
              unhealthy.0 b,
              idle.0 c,
              stopped.0 d,
              failed,
              disconnected,
              g,
              λ k. h (normalize_origin-source.1 k),
              λ k. i (normalize_origin-transport.1 k),
            ),
        λ (a, b, c, d, failed, disconnected, g, h, i). from (
          is_client_stalled_iff.1 a,
          unhealthy.1 b,
          idle.1 c,
          stopped.1 d,
          down.1 (failed, disconnected),
          g,
          λ k. h (normalize_origin-source.0 k),
          λ k. i (normalize_origin-transport.0 k),
        ),
      )

  -- A decision always gives a reason, if the client's snapshot does.
  pub decide_video_recovery_reason : snapshot.reason ≢ "" → decided.reason ≢ ""
  unfolding decide_video_recovery
  decide_video_recovery_reason h = decide_by-reason tests from_source from_agent snapshot.reason h
