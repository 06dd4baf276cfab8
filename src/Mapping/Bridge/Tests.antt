-- ===== src/Mapping/Bridge/Tests.antt =====
-- Runs of the bridge at concrete inputs.
use aylink_extra.Prelude.{◌≡◌, refl, List, [], ◌∷◌, true, false, none, some, ◌≢◌, ℕ, arith, ap, inr}
use aylink_extra.Prelude.Int.{pos}
use aylink_extra.Prelude.Text.{str_eq}
use aylink_extra.Integers.{integers}
use aylink_extra.Mapping.Commands.{touch_down, touch_repeat, Touch, touch, stop_touch_repeat}
use aylink_extra.Mapping.Runtime.{create_input_mapping_runtime, get_entry, set_entry, delete_entry}
use aylink_extra.Mapping.Handlers.{release_all}
use aylink_extra.Mapping.Bridge.{
  Senders, create_input_mapping_command_bridge, start_repeat, stop_repeat, send_touch, tap,
  get_or_create_pointer_id, release_pointer_key_internal, bump_pointer_generation,
  InputMappingCommandBridge,
}
use aylink_extra.Mapping.Bridge.Ids.{run-distinct}
use aylink_extra.Mapping.Bridge.Execution.{
  clear_pending_commands, execute, execute_all, execute_one, execute_now, get_pointer_id, fire,
  execute_touch,
}
use aylink_extra.Mapping.Bridge.Runs.{Call, run, executed, step}
use aylink_extra.Mapping.Bridge.Clearing.{clear_pending_commands_quiet}
use aylink_extra.Mapping.Bridge.Stale.{ended_touch_is_dropped}
use aylink_extra.Mapping.Tests.{centre, held_runtime, held_touch}
use aylink_extra.Mapping.Gestures.{touch_command}
use aylink_extra.Mapping.Bridge.Lifts.{IsLifted, execute-release_all}
use aylink_extra.Mapping.Cancels.{touching}

abbrev bridge_senders : Senders integers
bridge_senders = record { accepts = λ log. true; finalizes = λ log. false }

abbrev bridge_calls : List (Call integers bridge_senders)
bridge_calls =
    executed (touch_repeat "fire" centre (pos 50) (pos 25) ∷ [])
    ∷ executed (touch_repeat "jump" centre (pos 50) (pos 25) ∷ [])
    ∷ []

run-distinct_example : ◌≢◌ {A = ℕ} 10000 10001
unfolding run execute execute_all execute_one execute_now create_input_mapping_command_bridge
    get_pointer_id start_repeat stop_repeat send_touch tap get_or_create_pointer_id
    release_pointer_key_internal bump_pointer_generation get_entry set_entry delete_entry
run-distinct_example =
    run-distinct integers bridge_senders none centre bridge_calls "fire" "jump" 10000 10001
      (λ e. ground (arith, ap (λ z. str_eq z "jump") e)) refl refl

clear_pending_commands_quiet_example :
    (clear_pending_commands integers bridge_senders (
        run integers bridge_senders bridge_calls
          (create_input_mapping_command_bridge integers none centre))).timers
      2
    ≡ none
clear_pending_commands_quiet_example =
    clear_pending_commands_quiet integers bridge_senders none centre bridge_calls 2

abbrev new_bridge : InputMappingCommandBridge integers
new_bridge = create_input_mapping_command_bridge integers none centre

-- The pointer of the touch that the runtime holds is 10000.
abbrev pressed_bridge : InputMappingCommandBridge integers
pressed_bridge =
    (execute integers bridge_senders
      (touch_command integers touch_down "binding:hold" centre 1 none ∷ []) new_bridge).0

execute-release_all_example :
    IsLifted integers bridge_senders 10000 "binding:hold"
      (release_all integers held_runtime).1
      pressed_bridge.sent
      (execute integers bridge_senders (release_all integers held_runtime).1 pressed_bridge).0.sent
unfolding get_entry set_entry create_input_mapping_runtime execute execute_all execute_one
    execute_touch get_or_create_pointer_id get_pointer_id create_input_mapping_command_bridge
    send_touch release_pointer_key_internal
execute-release_all_example =
    execute-release_all integers bridge_senders held_runtime pressed_bridge "binding:hold" centre
      10000 (touching "hold" held_touch refl) refl

abbrev late_touch : Touch integers
late_touch = record {
  phase = touch_down;
  pointer_key = "fire";
  point = centre;
  pressure = pos 1;
  delay_ms = some (pos 40);
}

abbrev late_calls : List (Call integers bridge_senders)
late_calls = executed (touch late_touch ∷ []) ∷ []

abbrev stopping : Call integers bridge_senders
stopping = executed (stop_touch_repeat "fire" ∷ [])

abbrev late_bridge : InputMappingCommandBridge integers
late_bridge =
    run integers bridge_senders []
      (step integers bridge_senders stopping (run integers bridge_senders late_calls new_bridge))

ended_touch_is_dropped_example :
    (fire integers bridge_senders 1 late_bridge).sent ≡ late_bridge.sent
unfolding run execute execute_all execute_one execute_now create_input_mapping_command_bridge
    stop_repeat release_pointer_key_internal bump_pointer_generation get_entry set_entry
    delete_entry
ended_touch_is_dropped_example =
    ended_touch_is_dropped integers bridge_senders none centre late_calls [] stopping 1 late_touch
      late_touch 0 0 (inr refl) refl refl
