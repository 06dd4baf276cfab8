-- ===== src/Video/Recovery.antt =====
-- AYLink.Web/src/features/screencast/videoRecoveryDecision.ts. An optional field is an Option, a
-- missing parent object included; `toLowerCase` and `trim` of the host language are parameters.
use aylink_extra.Prelude.{Bool, true, false, not, ◌&&◌, ◌||◌, if◌then◌else◌, Option, none, some}
use aylink_extra.Prelude.Text.{String, str_eq}

pub data UnifiedVideoStreamState : Type 0 where
  idle connecting observing stable degraded stalled recovering detached : UnifiedVideoStreamState

pub data UnifiedVideoHealthOrigin : Type 0 where
  unknown source sender transport client : UnifiedVideoHealthOrigin

pub data UnifiedVideoRecoveryAction : Type 0 where
  observe keyframe_replay source_refresh signaling_reattach renegotiate ice_restart reconnect :
      UnifiedVideoRecoveryAction

pub record SourceHealth : Type 0 where
  pub state : Option String
  pub reason : Option String

pub record TransportHealth : Type 0 where
  pub peer_connection_state : Option String
  pub session_closed : Option Bool

pub record AgentVideoHealthSnapshot : Type 0 where
  pub state : Option String
  pub origin : Option String
  pub reason : Option String
  pub source_health : SourceHealth
  pub sender_state : Option String
  pub transport_health : TransportHealth

pub record ClientVideoHealthSnapshot : Type 0 where
  pub state : String
  pub reason : String
  pub signaling_attached : Bool
  pub peer_connection_state : Option String

pub record UnifiedVideoRecoveryDecision : Type 0 where
  pub state : UnifiedVideoStreamState
  pub origin : UnifiedVideoHealthOrigin
  pub action : UnifiedVideoRecoveryAction
  pub reason : String

-- `agent?.…` on a snapshot that is null has no field at all.
abbrev pub no_snapshot : AgentVideoHealthSnapshot
no_snapshot = record {
  state = none;
  origin = none;
  reason = none;
  source_health = record { state = none; reason = none };
  sender_state = none;
  transport_health = record { peer_connection_state = none; session_closed = none };
}

abbrev pub snapshot_of : Option AgentVideoHealthSnapshot → AgentVideoHealthSnapshot
snapshot_of none = no_snapshot
snapshot_of (some agent) = agent

-- `value || fallback`: the empty text is false.
abbrev pub text_or : String → String → String
text_or value fallback = if str_eq value "" then fallback else value

abbrev pub or_text : Option String → String → String
or_text none fallback = fallback
or_text (some value) fallback = text_or value fallback

abbrev pub is_text : Option String → String → Bool
is_text none text = false
is_text (some value) text = str_eq value text

abbrev pub is_true : Option Bool → Bool
is_true none = false
is_true (some b) = b

abbrev pub is_source : UnifiedVideoHealthOrigin → Bool
is_source source = true
is_source _ = false

abbrev pub is_sender : UnifiedVideoHealthOrigin → Bool
is_sender sender = true
is_sender _ = false

abbrev pub is_transport : UnifiedVideoHealthOrigin → Bool
is_transport transport = true
is_transport _ = false

abbrev pub decision :
    UnifiedVideoStreamState
    → UnifiedVideoHealthOrigin
    → UnifiedVideoRecoveryAction
    → String
    → UnifiedVideoRecoveryDecision
decision state origin action reason = record {
  state = state;
  origin = origin;
  action = action;
  reason = reason;
}

abbrev pub is_client_stalled : ClientVideoHealthSnapshot → Bool
is_client_stalled snapshot =
    str_eq snapshot.state "client_decode_stalled_confirmed"
    || str_eq snapshot.state "client_render_stalled_confirmed"

pub record RecoveryTests : Type 0 where
  pub agent_origin : UnifiedVideoHealthOrigin
  pub agent_stalled : Bool
  pub source_static : Bool
  pub source_packet_idle : Bool
  pub path_healthy : Bool
  pub client_stalled : Bool
  pub peer_down : Bool
  pub attached : Bool

-- The chain of conditions of `decideVideoRecovery`.
unfoldable pub decide_by : RecoveryTests → String → String → String → UnifiedVideoRecoveryDecision
decide_by t source_reason agent_reason client_reason =
    let reason = text_or agent_reason client_reason in
    if t.client_stalled && t.source_static && t.path_healthy
    then decision observing source observe reason
    else if t.client_stalled && t.source_packet_idle
    then decision stalled source source_refresh (text_or source_reason reason)
    else if is_source t.agent_origin || t.agent_stalled
    then decision stalled source source_refresh reason
    else if is_transport t.agent_origin || t.peer_down
    then decision degraded transport (if t.attached then ice_restart else signaling_reattach) reason
    else if not t.attached
    then decision detached transport signaling_reattach client_reason
    else if t.client_stalled
    then decision stalled client renegotiate client_reason
    else if is_sender t.agent_origin
    then decision recovering sender keyframe_replay reason
    else decision stalled client keyframe_replay client_reason

module _ (to_lower_case trim : String → String) where
  unfoldable pub normalize_origin : Option String → UnifiedVideoHealthOrigin
  normalize_origin value =
      let normalized = to_lower_case (or_text value "") in
      if str_eq normalized "source"
      then source
      else if str_eq normalized "sender"
      then sender
      else if str_eq normalized "transport"
      then transport
      else if str_eq normalized "client"
      then client
      else unknown

  unfoldable pub is_agent_video_path_healthy :
      AgentVideoHealthSnapshot → ClientVideoHealthSnapshot → Bool
  is_agent_video_path_healthy agent snapshot =
      let sender_state = to_lower_case (or_text agent.sender_state "") in
      let transport_state =
        to_lower_case (or_text agent.transport_health.peer_connection_state "") in
      if is_true agent.transport_health.session_closed || not snapshot.signaling_attached
      then false
      else str_eq sender_state "ready"
        && not (str_eq transport_state "failed")
        && not (str_eq transport_state "closed")

  -- The text of the first field that is not empty, trimmed.
  abbrev pub source_reason_of : AgentVideoHealthSnapshot → String
  source_reason_of agent =
      trim (or_text agent.source_health.reason (or_text agent.source_health.state ""))

  abbrev pub agent_reason_of : AgentVideoHealthSnapshot → String
  agent_reason_of agent = trim (
      or_text agent.reason
        (or_text agent.source_health.reason (or_text agent.source_health.state "")))

  -- The tests of the chain of conditions, each evaluated on the snapshots.
  unfoldable pub tests_of : ClientVideoHealthSnapshot → AgentVideoHealthSnapshot → RecoveryTests
  unfolding normalize_origin is_agent_video_path_healthy
  tests_of snapshot agent =
      let source_state = to_lower_case (or_text agent.source_health.state "") in
      record {
        agent_origin = normalize_origin agent.origin;
        agent_stalled = str_eq (to_lower_case (or_text agent.state "")) "stalled";
        source_static = str_eq source_state "static_but_alive";
        source_packet_idle = str_eq source_state "packet_idle";
        path_healthy = is_agent_video_path_healthy agent snapshot;
        client_stalled = is_client_stalled snapshot;
        peer_down =
            is_text snapshot.peer_connection_state "failed"
            || is_text snapshot.peer_connection_state "disconnected";
        attached = snapshot.signaling_attached;
      }

  unfoldable pub decide_video_recovery :
      ClientVideoHealthSnapshot → Option AgentVideoHealthSnapshot → UnifiedVideoRecoveryDecision
  unfolding tests_of decide_by
  decide_video_recovery snapshot health =
      let agent = snapshot_of health in
      decide_by (tests_of snapshot agent) (source_reason_of agent) (agent_reason_of agent)
        snapshot.reason
