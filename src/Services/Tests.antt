-- ===== src/Services/Tests.antt =====
-- Runs of the services at concrete inputs.
use aylink_extra.Prelude.{◌≡◌, ◌⊎◌, refl, arith, List, [], ◌∷◌, find, true, false, none, some, inr}
use aylink_extra.Prelude.Double.{whole, le}
use aylink_extra.Prelude.Int.{pos}
use aylink_extra.Prelude.Text.{String}
use aylink_extra.Services.Tasks.{
  TaskItem, TaskService, TaskStartOptions, running, completed, task_id, has_id, empty_service,
}
use aylink_extra.Services.TaskFields.{IsService}
use aylink_extra.Services.TaskInvariant.{
  Call, perform, perform_all, call_start, call_complete, call_cancel, perform_all-IsService,
}
use aylink_extra.Services.TaskLifecycle.{ended_task_stays}
use aylink_extra.Services.Dialog.{DialogContent, confirm, given, new_dialog_service}
use aylink_extra.Services.Promises.{
  Call as DialogCall, opened, answered, perform_all as perform_dialogs, IsSettled,
  perform_all-IsSettled,
}
use aylink_extra.Services.LatestRequest.{
  Call as RequestCall, after, begun, is_latest, HasFinalized, superseded_is_aborted,
  create_latest_request_controller, begin,
}

abbrev options : TaskStartOptions
options = record {
  title = "Upload";
  description = "";
  source = none;
  is_indeterminate = none;
  is_cancelable = none;
  cancel_action = some 7;
}

abbrev calls : List Call
calls = call_start options 10 ∷ call_start options 20 ∷ call_complete (task_id 1) none 30 ∷ []

perform_all-IsService_example : IsService (perform_all calls empty_service)
perform_all-IsService_example = perform_all-IsService calls

abbrev open_task : TaskItem
open_task = record {
  id = 2;
  title = "Upload";
  description = "";
  detail = "";
  source = "Task";
  status = running;
  progress = whole (pos 0);
  is_indeterminate = true;
  is_cancelable = true;
  created_at = 20;
  finished_at = none;
  cancel_action = some 7;
}

abbrev done_task : TaskItem
done_task = record {
  id = 1;
  title = "Upload";
  description = "";
  detail = "";
  source = "Task";
  status = completed;
  progress = whole (pos 100);
  is_indeterminate = false;
  is_cancelable = false;
  created_at = 10;
  finished_at = some 30;
  cancel_action = none;
}

abbrev service : TaskService
service = record { tasks = open_task ∷ done_task ∷ []; next_task_id = 3; called = [] }

service-IsService : IsService service
unfolding le
service-IsService = record {
  tasks_valid = (
    record {
      progress_valid = inr (refl, refl);
      running_unfinished = ground arith;
      finished_plain = λ e. absurd (e refl);
      completed_full = λ e. absurd (ground (arith, e));
    },
    (
      record {
        progress_valid = inr (refl, refl);
        running_unfinished = ground arith;
        finished_plain = λ e. (refl, refl, refl);
        completed_full = λ e. refl;
      },
      tt,
    ),
  );
  ids_fall = ground arith;
}

ended_task_stays_example :
    (find (has_id 1) (perform (call_cancel (task_id 1) none 40) service).tasks ≡ some done_task)
    ⊎ (find (has_id 1) (perform (call_cancel (task_id 1) none 40) service).tasks ≡ none)
ended_task_stays_example =
    ended_task_stays service 1 done_task refl (λ e. ground arith) (call_cancel (task_id 1) none 40)
      service-IsService

abbrev question : DialogContent
question = record {
  kind = confirm;
  title = "Delete";
  message = "";
  confirm_text = none;
  cancel_text = none;
  value = none;
  placeholder = none;
}

abbrev dialog_calls : List (DialogCall String)
dialog_calls = opened question ∷ opened question ∷ answered (given "confirmed") ∷ []

perform_all-IsSettled_example : IsSettled (perform_dialogs dialog_calls (new_dialog_service String))
perform_all-IsSettled_example = perform_all-IsSettled dialog_calls

abbrev requests : List RequestCall
requests = begun ∷ begun ∷ []

superseded_is_aborted_example :
    (is_latest (after requests) 1 ≡ false)
    × (((after requests).aborted 1 ≡ true) ⊎ HasFinalized 1 requests)
unfolding after begin create_latest_request_controller
superseded_is_aborted_example = superseded_is_aborted requests 1 (omega arith) (omega arith)
