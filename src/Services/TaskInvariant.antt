-- ===== src/Services/TaskInvariant.antt =====
-- What holds of the tasks between two calls of the service (AYLink.Web/src/services/tasks.ts).
use aylink_extra.Prelude.{
  ℕ, ◌≢◌, refl, arith, inl, inr, List, [], ◌∷◌, Bool-cases, Option-cases, Option, All-keep, not,
  ◌||◌,
}
use aylink_extra.Prelude.Text.{String}
use aylink_extra.Prelude.Double.{le}
use aylink_extra.Services.Tasks.{
  TaskItemStatus, running, completed, cancelled, failed, TaskStartOptions, TaskUpdateOptions,
  TaskOrId, TaskService, empty_service, is_running, find_task, finished_task, finish, start,
  updated_task, update, cancelling_task, request_cancel, remove, clear_inactive, call_action,
  complete, fail, cancel,
}
use aylink_extra.Services.TaskFields.{
  IsTask, IsService, All-remove_first, FallBelow-remove_first, FallBelow-keep, finished_task-IsTask,
  updated_task-IsTask, cancelling_task-IsTask, find_task_self, modify-IsService,
}

finish-IsService :
    (target : TaskOrId) (status : TaskItemStatus) (detail : Option String) (now : ℕ)
    (s : TaskService)
    → status ≢ running
    → IsService s
    → IsService (finish target status detail now s)
unfolding finish
finish-IsService target status detail now s k h = elim (Option-cases (find_task target s.tasks)) [
  | inl missing ↦ rw (missing, finish) h
  | inr (t, found) ↦ elim (Bool-cases (is_running t.status)) [
    | inl open' ↦
        rw (found, finish, open')
          (modify-IsService (finished_task status detail now) s s.called t (λ u. refl)
            (finished_task-IsTask status detail now t k) (find_task_self target s.tasks t found) h)
    | inr closed ↦ rw (found, finish, closed) h
  ]
]

update-IsService :
    (target : TaskOrId) (options : TaskUpdateOptions) (s : TaskService)
    → IsService s
    → IsService (update target options s)
unfolding update
update-IsService target options s h = elim (Option-cases (find_task target s.tasks)) [
  | inl missing ↦ rw (missing, update) h
  | inr (t, found) ↦ elim (Bool-cases (is_running t.status)) [
    | inl open' ↦
        rw (found, update, open')
          (modify-IsService (updated_task options) s s.called t (λ u. refl)
            (updated_task-IsTask options t (ground arith)) (find_task_self target s.tasks t found)
            h)
    | inr closed ↦ rw (found, update, closed) h
  ]
]

request_cancel-IsService :
    (target : TaskOrId) (s : TaskService) → IsService s → IsService (request_cancel target s)
unfolding request_cancel
request_cancel-IsService target s h = elim (Option-cases (find_task target s.tasks)) [
  | inl missing ↦ rw (missing, request_cancel) h
  | inr (t, found) ↦ elim (Bool-cases (not (is_running t.status) || not t.is_cancelable)) [
    | inl closed ↦ rw (found, request_cancel, closed) h
    | inr open' ↦
        rw (found, request_cancel, open')
          (modify-IsService cancelling_task s (call_action t.cancel_action s.called) t (λ u. refl)
            (cancelling_task-IsTask t (ground arith)) (find_task_self target s.tasks t found) h)
  ]
]

remove-IsService : (target : TaskOrId) (s : TaskService) → IsService s → IsService (remove target s)
unfolding remove
remove-IsService target s h = elim (Option-cases (find_task target s.tasks)) [
  | inl missing ↦ rw (missing, remove) h
  | inr (t, found) ↦ elim (Bool-cases (is_running t.status)) [
    | inl open' ↦ rw (found, remove, open') h
    | inr closed ↦
        rw (found, remove, closed)
          (record {
            tasks_valid = All-remove_first t.id s.tasks h.tasks_valid;
            ids_fall = FallBelow-remove_first t.id s.next_task_id s.tasks h.ids_fall;
          })
  ]
]

clear_inactive-IsService : (s : TaskService) → IsService s → IsService (clear_inactive s)
unfolding clear_inactive
clear_inactive-IsService s h = record {
  tasks_valid = All-keep IsTask (λ t. is_running t.status) s.tasks h.tasks_valid;
  ids_fall = FallBelow-keep (λ t. is_running t.status) s.next_task_id s.tasks h.ids_fall;
}

start-IsService :
    (options : TaskStartOptions) (now : ℕ) (s : TaskService)
    → IsService s
    → IsService (start options now s).0
unfolding start le
start-IsService options now s h = record {
  tasks_valid = (
    record {
      progress_valid = inr (refl, refl);
      running_unfinished = ground arith;
      finished_plain = λ e. absurd (e refl);
      completed_full = λ e. absurd (ground (arith, e));
    },
    h.tasks_valid,
  );
  ids_fall = (omega arith, h.ids_fall);
}

-- A call of the service.
pub data Call : Type 0 where
  call_start : TaskStartOptions → ℕ → Call
  call_update : TaskOrId → TaskUpdateOptions → Call
  call_complete call_fail call_cancel : TaskOrId → Option String → ℕ → Call
  call_request_cancel call_remove : TaskOrId → Call
  call_clear_inactive : Call

abbrev pub perform : Call → TaskService → TaskService
perform (call_start options now) s = (start options now s).0
perform (call_update target options) s = update target options s
perform (call_complete target detail now) s = complete target detail now s
perform (call_fail target detail now) s = fail target detail now s
perform (call_cancel target detail now) s = cancel target detail now s
perform (call_request_cancel target) s = request_cancel target s
perform (call_remove target) s = remove target s
perform call_clear_inactive s = clear_inactive s

unfoldable pub perform_all : List Call → TaskService → TaskService
perform_all [] s = s
perform_all (c ∷ cs) s = perform_all cs (perform c s)

pub perform-IsService : (c : Call) (s : TaskService) → IsService s → IsService (perform c s)
unfolding complete fail cancel
perform-IsService (call_start options now) s h = start-IsService options now s h
perform-IsService (call_update target options) s h = update-IsService target options s h
perform-IsService (call_complete target detail now) s h =
    finish-IsService target completed detail now s (λ e. cc) h
perform-IsService (call_fail target detail now) s h =
    finish-IsService target failed detail now s (λ e. cc) h
perform-IsService (call_cancel target detail now) s h =
    finish-IsService target cancelled detail now s (λ e. cc) h
perform-IsService (call_request_cancel target) s h = request_cancel-IsService target s h
perform-IsService (call_remove target) s h = remove-IsService target s h
perform-IsService call_clear_inactive s h = clear_inactive-IsService s h

perform_all-keeps-IsService :
    (cs : List Call) (s : TaskService) → IsService s → IsService (perform_all cs s)
unfolding perform_all
perform_all-keeps-IsService [] s h = h
perform_all-keeps-IsService (c ∷ cs) s h =
    perform_all-keeps-IsService cs (perform c s) (perform-IsService c s h)

empty_service-IsService : IsService empty_service
unfolding empty_service
empty_service-IsService = record { tasks_valid = tt; ids_fall = tt }

-- After any calls of the task service the ids of the tasks are distinct, fall from the front and lie
-- below the next id, and each task has a progress that is from 0 to 100 or not a number, a time of its end exactly if it is
-- not running, no cancel action, no cancel button and no indeterminate bar once it has ended, and
-- full progress once it is completed.
pub perform_all-IsService : (cs : List Call) → IsService (perform_all cs empty_service)
perform_all-IsService cs = perform_all-keeps-IsService cs empty_service empty_service-IsService
