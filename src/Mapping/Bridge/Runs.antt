-- ===== src/Mapping/Bridge/Runs.antt =====
-- What may happen to a bridge of AYLink.Web/src/features/inputMapping/inputMappingCommandBridge.ts, in any
-- order: calls of its functions, timers that fire, touches that are finalized.
use aylink_extra.Prelude.{ℕ, List, [], ◌∷◌, some}
use aylink_extra.Prelude.Text.{String}
use aylink_extra.Prelude.Numbers.{Numbers}
use aylink_extra.Mapping.Commands.{InputMappingCommand}
use aylink_extra.Mapping.Bridge.{InputMappingCommandBridge, Senders, release_pointer_key_internal}
use aylink_extra.Mapping.Bridge.Execution.{
  execute, fire, clear_pending_commands, clear_pointer_keys, release_pointer_key,
}

module _ (n : Numbers) (senders : Senders n) where
  pub data Call : Type 0 where
    executed : List (InputMappingCommand n) → Call
    fired : (handle : ℕ) → Call
    finalized : (pointer_key : String) (pointer_id : ℕ) → Call
    released : (pointer_key : String) → Call
    pending_cleared keys_cleared : Call

  abbrev pub step : Call → InputMappingCommandBridge n → InputMappingCommandBridge n
  step (executed commands) s = (execute n senders commands s).0
  step (fired handle) s = fire n senders handle s
  step (finalized pointer_key pointer_id) s =
      release_pointer_key_internal n pointer_key (some pointer_id) s
  step (released pointer_key) s = release_pointer_key n senders pointer_key s
  step pending_cleared s = clear_pending_commands n senders s
  step keys_cleared s = clear_pointer_keys n senders s

  -- The bridge after some calls, the first one first.
  unfoldable pub run : List Call → InputMappingCommandBridge n → InputMappingCommandBridge n
  run [] s = s
  run (c ∷ cs) s = run cs (step c s)
