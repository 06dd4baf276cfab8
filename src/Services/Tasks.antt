-- ===== src/Services/Tasks.antt =====
-- AYLink.Web/src/services/tasks.ts. The module's variables are a record; a cancel action is the number
-- of a callback, and `called` lists the callbacks that were run.
use aylink_extra.Prelude.{
  ℕ, ◌+◌, List, [], ◌∷◌, ◌++◌, Bool, true, false, not, ◌||◌, ◌==◌, if◌then◌else◌, Option, none,
  some, is_some, get_or_else, find, keep, length,
}
use aylink_extra.Prelude.Int.{pos}
use aylink_extra.Prelude.Double.{Double, whole, least, greatest}
use aylink_extra.Prelude.Text.{String, str_eq}

pub data TaskItemStatus : Type 0 where
  running completed cancelled failed : TaskItemStatus

pub record TaskItem : Type 0 where
  pub id : ℕ
  pub title : String
  pub description : String
  pub detail : String
  pub source : String
  pub status : TaskItemStatus
  pub progress : Double
  pub is_indeterminate : Bool
  pub is_cancelable : Bool
  pub created_at : ℕ
  pub finished_at : Option ℕ
  pub cancel_action : Option ℕ

pub record TaskStartOptions : Type 0 where
  pub title : String
  pub description : String
  pub source : Option String
  pub is_indeterminate : Option Bool
  pub is_cancelable : Option Bool
  pub cancel_action : Option ℕ

pub record TaskUpdateOptions : Type 0 where
  pub progress : Option Double
  pub detail : Option String
  pub is_indeterminate : Option Bool
  pub is_cancelable : Option Bool

-- `TaskItem | number | null | undefined`
pub data TaskOrId : Type 0 where
  task_item : TaskItem → TaskOrId
  task_id : ℕ → TaskOrId
  nothing : TaskOrId

pub record TaskService : Type 0 where
  pub tasks : List TaskItem
  pub next_task_id : ℕ
  pub called : List ℕ

unfoldable pub empty_service : TaskService
empty_service = record { tasks = []; next_task_id = 1; called = [] }

abbrev pub is_running : TaskItemStatus → Bool
is_running running = true
is_running _ = false

abbrev pub is_completed : TaskItemStatus → Bool
is_completed completed = true
is_completed _ = false

unfoldable pub clamp_progress : Double → Double
clamp_progress value = least (whole (pos 100)) (greatest (whole (pos 0)) value)

abbrev pub has_id : ℕ → TaskItem → Bool
has_id id task = task.id == id

unfoldable pub find_task : TaskOrId → List TaskItem → Option TaskItem
find_task (task_item t) tasks = find (has_id t.id) tasks
find_task (task_id id) tasks = find (has_id id) tasks
find_task nothing tasks = none

-- An assignment to the fields of the task that `find` gives: the first with its id.
unfoldable pub modify : ℕ → (TaskItem → TaskItem) → List TaskItem → List TaskItem
modify id f [] = []
modify id f (t ∷ ts) = if has_id id t then f t ∷ ts else t ∷ modify id f ts

-- `tasks.splice(index, 1)` at the first task with the id.
unfoldable pub remove_first : ℕ → List TaskItem → List TaskItem
remove_first id [] = []
remove_first id (t ∷ ts) = if has_id id t then ts else t ∷ remove_first id ts

abbrev pub finished_task : TaskItemStatus → Option String → ℕ → TaskItem → TaskItem
finished_task status detail now task = record task {
  status = status;
  finished_at = some now;
  is_cancelable = false;
  is_indeterminate = false;
  cancel_action = none;
  progress = (if is_completed status then whole (pos 100) else task.progress);
  detail = get_or_else detail task.detail;
}

unfoldable pub finish : TaskOrId → TaskItemStatus → Option String → ℕ → TaskService → TaskService
unfolding modify
finish target status detail now s = elim (find_task target s.tasks) [
  | none ↦ s
  | some task ↦
      if is_running task.status
      then record s { tasks = modify task.id (finished_task status detail now) s.tasks }
      else s
]

abbrev pub source_or_task : Option String → String
source_or_task none = "Task"
source_or_task (some source) = if str_eq source "" then "Task" else source

unfoldable pub start : TaskStartOptions → ℕ → TaskService → TaskService × TaskItem
start options now s =
    let task : TaskItem = record {
      id = s.next_task_id;
      title = options.title;
      description = options.description;
      detail = options.description;
      source = source_or_task options.source;
      status = running;
      progress = whole (pos 0);
      is_indeterminate = get_or_else options.is_indeterminate true;
      is_cancelable = get_or_else options.is_cancelable (is_some options.cancel_action);
      created_at = now;
      finished_at = none;
      cancel_action = options.cancel_action;
    } in
    (record s { tasks = task ∷ s.tasks; next_task_id = s.next_task_id + 1 }, task)

abbrev pub new_progress : Option Double → Double → Double
new_progress none old = old
new_progress (some value) old = clamp_progress value

abbrev pub updated_task : TaskUpdateOptions → TaskItem → TaskItem
updated_task options task = record task {
  progress = new_progress options.progress task.progress;
  detail = get_or_else options.detail task.detail;
  is_indeterminate = get_or_else options.is_indeterminate task.is_indeterminate;
  is_cancelable = get_or_else options.is_cancelable task.is_cancelable;
}

unfoldable pub update : TaskOrId → TaskUpdateOptions → TaskService → TaskService
unfolding modify
update target options s = elim (find_task target s.tasks) [
  | none ↦ s
  | some task ↦
      if is_running task.status
      then record s { tasks = modify task.id (updated_task options) s.tasks }
      else s
]

unfoldable pub complete : TaskOrId → Option String → ℕ → TaskService → TaskService
complete target detail now s = finish target completed detail now s

unfoldable pub fail : TaskOrId → Option String → ℕ → TaskService → TaskService
fail target detail now s = finish target failed detail now s

unfoldable pub cancel : TaskOrId → Option String → ℕ → TaskService → TaskService
cancel target detail now s = finish target cancelled detail now s

abbrev pub cancelling_task : TaskItem → TaskItem
cancelling_task task = record task { is_cancelable = false; detail = "正在取消..." }

-- `task.cancelAction?.()`
abbrev pub call_action : Option ℕ → List ℕ → List ℕ
call_action none called = called
call_action (some action) called = called ++ action ∷ []

unfoldable pub request_cancel : TaskOrId → TaskService → TaskService
unfolding modify
request_cancel target s = elim (find_task target s.tasks) [
  | none ↦ s
  | some task ↦ if not (is_running task.status) || not task.is_cancelable then s else record s {
    tasks = modify task.id cancelling_task s.tasks;
    called = call_action task.cancel_action s.called;
  }
]

unfoldable pub remove : TaskOrId → TaskService → TaskService
unfolding remove_first
remove target s = elim (find_task target s.tasks) [
  | none ↦ s
  | some task ↦
      if is_running task.status then s else record s { tasks = remove_first task.id s.tasks }
]

unfoldable pub clear_inactive : TaskService → TaskService
clear_inactive s = record s { tasks = keep (λ t. is_running t.status) s.tasks }

unfoldable pub running_count : TaskService → ℕ
running_count s = length (keep (λ t. is_running t.status) s.tasks)
