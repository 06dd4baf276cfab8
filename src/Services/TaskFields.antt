-- ===== src/Services/TaskFields.antt =====
-- What holds of the fields and the ids of the tasks of AYLink.Web/src/services/tasks.ts, and how a
-- change of one task keeps it.
use mathlib.Core.Path.{subst, sym}
use aylink_extra.Prelude.{
  refl, ◌⊎◌, ℕ, ◌≤◌, ◌<◌, ◌≡◌, ◌≢◌, ◌↔◌, arith, inl, inr, List, [], ◌∷◌, Bool, false, Bool-cases,
  Option, none, some, All, find, keep,
}
use aylink_extra.Prelude.Int.{pos}
use aylink_extra.Prelude.Double.{
  Double, not_a_number, whole, le, IsBetween, least-greatest-IsBetween,
}
use aylink_extra.Prelude.Text.{String}
use aylink_extra.Services.Tasks.{
  new_progress, cancelled, failed, TaskItemStatus, running, completed, TaskItem, TaskUpdateOptions,
  TaskOrId, task_item, task_id, nothing, TaskService, clamp_progress, has_id, find_task, modify,
  remove_first, finished_task, updated_task, cancelling_task,
}

-- Not a number, or from 0 to 100.
abbrev pub IsProgress : Double → Type 0
IsProgress value = (value ≡ not_a_number) ⊎ IsBetween (whole (pos 0)) (whole (pos 100)) value

clamp_progress-IsProgress : (value : Double) → IsProgress (clamp_progress value)
unfolding clamp_progress le
clamp_progress-IsProgress value =
    least-greatest-IsBetween (whole (pos 0)) (whole (pos 100)) value refl refl refl refl refl

pub record IsTask (t : TaskItem) : Type 0 where
  pub progress_valid : IsProgress t.progress
  pub running_unfinished : (t.status ≡ running) ↔ (t.finished_at ≡ none)
  pub finished_plain :
      t.status ≢ running
      → (t.is_cancelable ≡ false) × (t.is_indeterminate ≡ false) × (t.cancel_action ≡ none)
  pub completed_full : t.status ≡ completed → t.progress ≡ whole (pos 100)

-- The ids fall from the front, below a bound.
abbrev pub FallBelow : ℕ → List TaskItem → Type 0
FallBelow b [] = Unit
FallBelow b (t ∷ ts) = (t.id < b) × FallBelow t.id ts

pub record IsService (s : TaskService) : Type 0 where
  pub tasks_valid : All IsTask s.tasks
  pub ids_fall : FallBelow s.next_task_id s.tasks

FallBelow-mono : (a b : ℕ) (ts : List TaskItem) → a ≤ b → FallBelow a ts → FallBelow b ts
FallBelow-mono a b [] h f = tt
FallBelow-mono a b (t ∷ ts) h f = (omega arith, f.1)

module _ (id : ℕ) (f : TaskItem → TaskItem) where
  All-modify :
      (ts : List TaskItem)
      → ((t : TaskItem) → find (has_id id) ts ≡ some t → IsTask t → IsTask (f t))
      → All IsTask ts
      → All IsTask (modify id f ts)
  unfolding modify
  All-modify [] keeps h = tt
  All-modify (t ∷ ts) keeps h = elim (Bool-cases (has_id id t)) [
    | inl same ↦ rw same (keeps t (ground arith) h.0, h.1)
    | inr other ↦ rw other (h.0, All-modify ts (λ u e. keeps u (ground arith)) h.1)
  ]

  FallBelow-modify :
      ((t : TaskItem) → (f t).id ≡ t.id)
      → (b : ℕ) (ts : List TaskItem) → FallBelow b ts
      → FallBelow b (modify id f ts)
  unfolding modify
  FallBelow-modify same b [] h = tt
  FallBelow-modify same b (t ∷ ts) h = elim (Bool-cases (has_id id t)) [
    | inl here ↦ rw (here, same t) h
    | inr later ↦ rw later (h.0, FallBelow-modify same t.id ts h.1)
  ]

pub All-remove_first :
    (id : ℕ) (ts : List TaskItem) → All IsTask ts → All IsTask (remove_first id ts)
unfolding remove_first
All-remove_first id [] h = tt
All-remove_first id (t ∷ ts) h = ground (arith, All-remove_first id ts h.1)

pub FallBelow-remove_first :
    (id b : ℕ) (ts : List TaskItem) → FallBelow b ts → FallBelow b (remove_first id ts)
unfolding remove_first
FallBelow-remove_first id b [] h = tt
FallBelow-remove_first id b (t ∷ ts) h =
    ground (arith, FallBelow-remove_first id t.id ts h.1, FallBelow-mono t.id b ts)

pub FallBelow-keep :
    (p : TaskItem → Bool) (b : ℕ) (ts : List TaskItem) → FallBelow b ts → FallBelow b (keep p ts)
FallBelow-keep p b [] h = tt
FallBelow-keep p b (t ∷ ts) h = elim (Bool-cases (p t)) [
  | inl yes' ↦ rw yes' (h.0, FallBelow-keep p t.id ts h.1)
  | inr no' ↦
      rw no' (FallBelow-mono t.id b (keep p ts) (omega arith) (FallBelow-keep p t.id ts h.1))
]

pub finished_task-IsTask :
    (status : TaskItemStatus) (detail : Option String) (now : ℕ) (t : TaskItem)
    → status ≢ running
    → IsTask t
    → IsTask (finished_task status detail now t)
unfolding le
finished_task-IsTask running detail now t k h = absurd (k refl)
finished_task-IsTask completed detail now t k h = record {
  progress_valid = inr (refl, refl);
  running_unfinished = ground arith;
  finished_plain = λ e. (refl, refl, refl);
  completed_full = λ e. refl;
}
finished_task-IsTask cancelled detail now t k h = record {
  progress_valid = h.progress_valid;
  running_unfinished = ground arith;
  finished_plain = λ e. (refl, refl, refl);
  completed_full = λ e. absurd (ground (arith, e));
}
finished_task-IsTask failed detail now t k h = record {
  progress_valid = h.progress_valid;
  running_unfinished = ground arith;
  finished_plain = λ e. (refl, refl, refl);
  completed_full = λ e. absurd (ground (arith, e));
}

new_progress-IsProgress :
    (given : Option Double) (old : Double) → IsProgress old → IsProgress (new_progress given old)
new_progress-IsProgress none old h = h
new_progress-IsProgress (some value) old h = clamp_progress-IsProgress value

pub updated_task-IsTask :
    (options : TaskUpdateOptions) (t : TaskItem)
    → t.status ≡ running
    → IsTask t
    → IsTask (updated_task options t)
updated_task-IsTask options t r h = record {
  progress_valid = new_progress-IsProgress options.progress t.progress h.progress_valid;
  running_unfinished = h.running_unfinished;
  finished_plain = λ e. absurd (e r);
  completed_full = λ e. absurd (ground (arith, e, r));
}

pub cancelling_task-IsTask :
    (t : TaskItem) → t.status ≡ running → IsTask t → IsTask (cancelling_task t)
cancelling_task-IsTask t r h = record {
  progress_valid = h.progress_valid;
  running_unfinished = h.running_unfinished;
  finished_plain = λ e. absurd (e r);
  completed_full = λ e. absurd (ground (arith, e, r));
}

find-has_id :
    (id : ℕ) (ts : List TaskItem) (t : TaskItem) → find (has_id id) ts ≡ some t → t.id ≡ id
find-has_id id [] t e = cc
find-has_id id (u ∷ ts) t e = ground (arith, find-has_id id ts t)

-- The task that a target names is the first with its id.
pub find_task_self :
    (target : TaskOrId) (ts : List TaskItem) (t : TaskItem)
    → find_task target ts ≡ some t
    → find (has_id t.id) ts ≡ some t
unfolding find_task
find_task_self (task_item u) ts t e =
    subst (λ k. find (has_id k) ts ≡ some t) (sym (find-has_id u.id ts t e)) e
find_task_self (task_id id) ts t e =
    subst (λ k. find (has_id k) ts ≡ some t) (sym (find-has_id id ts t e)) e
find_task_self nothing ts t e = cc

-- A change of the task that a target names, if it is running, keeps the invariant when it keeps the
-- task's id and validity.
pub modify-IsService :
    (f : TaskItem → TaskItem) (s : TaskService) (called : List ℕ) (t : TaskItem)
    → ((u : TaskItem) → (f u).id ≡ u.id)
    → (IsTask t → IsTask (f t))
    → find (has_id t.id) s.tasks ≡ some t
    → IsService s
    → IsService (record s { tasks = modify t.id f s.tasks; called = called })
modify-IsService f s called t same keeps e h = record {
  tasks_valid =
      All-modify t.id f s.tasks
        (λ u e' v. let p : t ≡ u = cc in subst (λ x. IsTask x → IsTask (f x)) p keeps v)
        h.tasks_valid;
  ids_fall = FallBelow-modify t.id f same s.next_task_id s.tasks h.ids_fall;
}
