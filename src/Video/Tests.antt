-- ===== src/Video/Tests.antt =====
-- Runs of the stream state and of the recovery decision at concrete inputs.
use aylink_extra.Prelude.{◌≡◌, ◌≢◌, ◌↔◌, List, [], ◌∷◌, true, false, none, some}
use aylink_extra.Prelude.Text.{String}
use aylink_extra.Video.StateMachine.{VideoStreamStateMachine, observing}
use aylink_extra.Video.Stability.{
  Mark, mark_connecting, mark_advanced, mark_stable, after, IsConsistent, after-IsConsistent,
}
use aylink_extra.Video.Recovery.{
  observe, renegotiate, ClientVideoHealthSnapshot, AgentVideoHealthSnapshot, decide_video_recovery,
  or_text,
}
use aylink_extra.Video.Decisions.{
  IsStalled, HasHealthyPath, decide_video_recovery-eq-observe_iff,
  decide_video_recovery-eq-renegotiate_iff,
}

abbrev marks : List Mark
marks = mark_stable 3 ∷ mark_advanced 3 200 ∷ mark_connecting 3 100 ∷ []

after-IsConsistent_example : IsConsistent (after marks)
after-IsConsistent_example = after-IsConsistent marks

abbrev watched : VideoStreamStateMachine
watched = record {
  state = observing;
  connection_id = some 3;
  stable_since = 200;
  last_unstable_at = 100;
}

-- A client whose decoder stalls, and an agent whose source is static.
abbrev client_snapshot : ClientVideoHealthSnapshot
client_snapshot = record {
  state = "client_decode_stalled_confirmed";
  reason = "decoder";
  signaling_attached = true;
  peer_connection_state = some "connected";
}

abbrev agent_snapshot : AgentVideoHealthSnapshot
agent_snapshot = record {
  state = some "ok";
  origin = none;
  reason = none;
  source_health = record { state = some "static_but_alive"; reason = none };
  sender_state = some "ready";
  transport_health = record { peer_connection_state = some "connected"; session_closed = none };
}

abbrev unattached_snapshot : ClientVideoHealthSnapshot
unattached_snapshot = record client_snapshot { signaling_attached = false }

abbrev same_text : String → String
same_text text = text

decide_video_recovery-eq-observe_iff_example :
    ((decide_video_recovery same_text same_text client_snapshot (some agent_snapshot)).action
      ≡ observe)
    ↔ (IsStalled same_text same_text client_snapshot (some agent_snapshot)
        × (same_text (or_text agent_snapshot.source_health.state "") ≡ "static_but_alive")
        × HasHealthyPath same_text same_text client_snapshot (some agent_snapshot))
decide_video_recovery-eq-observe_iff_example =
    decide_video_recovery-eq-observe_iff same_text same_text client_snapshot (some agent_snapshot)

decide_video_recovery-eq-renegotiate_iff_example :
    ((decide_video_recovery same_text same_text client_snapshot (some agent_snapshot)).action
      ≡ renegotiate)
    ↔ (IsStalled same_text same_text client_snapshot (some agent_snapshot)
        × ¬ (
            (same_text (or_text agent_snapshot.source_health.state "") ≡ "static_but_alive")
            × HasHealthyPath same_text same_text client_snapshot (some agent_snapshot))
        × (same_text (or_text agent_snapshot.source_health.state "") ≢ "packet_idle")
        × (same_text (or_text agent_snapshot.state "") ≢ "stalled")
        × (client_snapshot.peer_connection_state ≢ some "failed")
        × (client_snapshot.peer_connection_state ≢ some "disconnected")
        × (client_snapshot.signaling_attached ≡ true)
        × (same_text "" ≢ "source")
        × (same_text "" ≢ "transport"))
decide_video_recovery-eq-renegotiate_iff_example =
    decide_video_recovery-eq-renegotiate_iff same_text same_text client_snapshot
      (some agent_snapshot)
