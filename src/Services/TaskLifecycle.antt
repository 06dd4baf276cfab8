-- ===== src/Services/TaskLifecycle.antt =====
-- The life of one task of AYLink.Web/src/services/tasks.ts: what a call does to the tasks that have
-- ended, to the one it names, and to the number of running tasks.
use mathlib.Core.Path.{subst, sym}
use aylink_extra.Prelude.{
  ℕ, ◌+◌, ◌≤◌, ◌≡◌, ◌≢◌, ◌⊎◌, refl, ◌∙◌, arith, inl, inr, List, [], ◌∷◌, Bool, true, not, ◌||◌,
  Bool-cases, Option-cases, Option, none, some, find, keep, length,
}
use aylink_extra.Prelude.Text.{String}
use aylink_extra.Services.Tasks.{
  TaskItemStatus, running, completed, cancelled, failed, TaskItem, TaskStartOptions,
  TaskUpdateOptions, TaskOrId, TaskService, is_running, has_id, find_task, modify, remove_first,
  finished_task, finish, start, updated_task, update, cancelling_task, request_cancel, remove,
  clear_inactive, complete, fail, cancel, running_count,
}
use aylink_extra.Services.TaskFields.{FallBelow, IsService, find_task_self}
use aylink_extra.Services.TaskInvariant.{
  Call, perform, call_start, call_update, call_complete, call_fail, call_cancel,
  call_request_cancel, call_remove, call_clear_inactive,
}

find-modify :
    (id j : ℕ) (f : TaskItem → TaskItem) (ts : List TaskItem)
    → ((u : TaskItem) → (f u).id ≡ u.id)
    → (id ≢ j)
    → find (has_id id) (modify j f ts) ≡ find (has_id id) ts
unfolding modify
find-modify id j f [] same ne = refl
find-modify id j f (t ∷ ts) same ne = ground (arith, same t, find-modify id j f ts same ne)

find-none : (id b : ℕ) (ts : List TaskItem) → b ≤ id → FallBelow b ts → find (has_id id) ts ≡ none
find-none id b [] le h = refl
find-none id b (t ∷ ts) le h = ground (arith, find-none id t.id ts)

find-remove_first :
    (id j b : ℕ) (ts : List TaskItem)
    → FallBelow b ts
    → (find (has_id id) (remove_first j ts) ≡ find (has_id id) ts)
      ⊎ (find (has_id id) (remove_first j ts) ≡ none)
unfolding remove_first
find-remove_first id j b [] h = inl refl
find-remove_first id j b (t ∷ ts) h =
    ground (arith, find-remove_first id j t.id ts, find-none id t.id ts)

find-keep :
    (id b : ℕ) (p : TaskItem → Bool) (ts : List TaskItem)
    → FallBelow b ts
    → (find (has_id id) (keep p ts) ≡ find (has_id id) ts) ⊎ (find (has_id id) (keep p ts) ≡ none)
find-keep id b p [] h = inl refl
find-keep id b p (t ∷ ts) h = ground (arith, find-keep id t.id p ts, find-none id t.id ts)

module _ (s : TaskService) (id : ℕ) (t : TaskItem) (found : find (has_id id) s.tasks ≡ some t)
    (ended : t.status ≢ running) where
  running_is_other :
      (target : TaskOrId) (u : TaskItem)
      → find_task target s.tasks ≡ some u
      → u.status ≡ running
      → id ≢ u.id
  running_is_other target u named open' same =
      let here : find (has_id u.id) s.tasks ≡ some t =
        subst (λ k. find (has_id k) s.tasks ≡ some t) same found in
      let both : some u ≡ some t = sym (find_task_self target s.tasks u named) ∙ here in
      ended (ground arith)

  finish_stays :
      (target : TaskOrId) (status : TaskItemStatus) (detail : Option String) (now : ℕ)
      → find (has_id id) (finish target status detail now s).tasks ≡ some t
  unfolding finish
  finish_stays target status detail now = elim (Option-cases (find_task target s.tasks)) [
    | inl missing ↦ rw (missing, finish) found
    | inr (u, named) ↦ elim (Bool-cases (is_running u.status)) [
      | inl open' ↦
          rw (named, finish, open')
            (find-modify id u.id (finished_task status detail now) s.tasks (λ v. refl)
                (running_is_other target u named (ground arith))
              ∙ found)
      | inr closed ↦ rw (named, finish, closed) found
    ]
  ]

  update_stays :
      (target : TaskOrId) (options : TaskUpdateOptions)
      → find (has_id id) (update target options s).tasks ≡ some t
  unfolding update
  update_stays target options = elim (Option-cases (find_task target s.tasks)) [
    | inl missing ↦ rw (missing, update) found
    | inr (u, named) ↦ elim (Bool-cases (is_running u.status)) [
      | inl open' ↦
          rw (named, update, open')
            (find-modify id u.id (updated_task options) s.tasks (λ v. refl)
                (running_is_other target u named (ground arith))
              ∙ found)
      | inr closed ↦ rw (named, update, closed) found
    ]
  ]

  request_cancel_stays :
      (target : TaskOrId) → find (has_id id) (request_cancel target s).tasks ≡ some t
  unfolding request_cancel
  request_cancel_stays target = elim (Option-cases (find_task target s.tasks)) [
    | inl missing ↦ rw (missing, request_cancel) found
    | inr (u, named) ↦ elim (Bool-cases (not (is_running u.status) || not u.is_cancelable)) [
      | inl closed ↦ rw (named, request_cancel, closed) found
      | inr open' ↦
          rw (named, request_cancel, open')
            (find-modify id u.id cancelling_task s.tasks (λ v. refl)
                (running_is_other target u named (ground arith))
              ∙ found)
    ]
  ]

  remove_stays :
      (target : TaskOrId)
      → IsService s
      → (find (has_id id) (remove target s).tasks ≡ some t)
        ⊎ (find (has_id id) (remove target s).tasks ≡ none)
  unfolding remove
  remove_stays target h = elim (Option-cases (find_task target s.tasks)) [
    | inl missing ↦ rw (missing, remove) (inl found)
    | inr (u, named) ↦ elim (Bool-cases (is_running u.status)) [
      | inl open' ↦ rw (named, remove, open') (inl found)
      | inr closed ↦
          rw (named, remove, closed)
            (elim (find-remove_first id u.id s.next_task_id s.tasks h.ids_fall) [
              | inl same ↦ inl (same ∙ found)
              | inr gone ↦ inr gone
            ])
    ]
  ]

  start_stays :
      (options : TaskStartOptions) (now : ℕ)
      → IsService s
      → find (has_id id) (start options now s).0.tasks ≡ some t
  unfolding start
  start_stays options now h = ground (arith, find-none id s.next_task_id s.tasks)

  clear_inactive_stays :
      IsService s
      → (find (has_id id) (clear_inactive s).tasks ≡ some t)
        ⊎ (find (has_id id) (clear_inactive s).tasks ≡ none)
  unfolding clear_inactive
  clear_inactive_stays h =
      elim (find-keep id s.next_task_id (λ u. is_running u.status) s.tasks h.ids_fall) [
        | inl same ↦ inl (same ∙ found)
        | inr gone ↦ inr gone
      ]

  -- A task that has ended is left as it is by every call of the service, or removed from the list: it
  -- neither ends again nor runs again, whatever the call names.
  pub ended_task_stays :
      (c : Call)
      → IsService s
      → (find (has_id id) (perform c s).tasks ≡ some t)
        ⊎ (find (has_id id) (perform c s).tasks ≡ none)
  unfolding complete fail cancel
  ended_task_stays (call_start options now) h = inl (start_stays options now h)
  ended_task_stays (call_update target options) h = inl (update_stays target options)
  ended_task_stays (call_complete target detail now) h =
      inl (finish_stays target completed detail now)
  ended_task_stays (call_fail target detail now) h = inl (finish_stays target failed detail now)
  ended_task_stays (call_cancel target detail now) h =
      inl (finish_stays target cancelled detail now)
  ended_task_stays (call_request_cancel target) h = inl (request_cancel_stays target)
  ended_task_stays (call_remove target) h = remove_stays target h
  ended_task_stays call_clear_inactive h = clear_inactive_stays h

count-modify :
    (f : TaskItem → TaskItem) (t : TaskItem) (ts : List TaskItem)
    → find (has_id t.id) ts ≡ some t
    → t.status ≡ running
    → (f t).status ≢ running
    → length (keep (λ u. is_running u.status) (modify t.id f ts)) + 1
      ≡ length (keep (λ u. is_running u.status) ts)
unfolding modify
count-modify f t [] e r k = cc
count-modify f t (u ∷ ts) e r k = elim (Bool-cases (has_id t.id u)) [
  | inl here ↦ let same : u ≡ t = ground arith in rw (here, same) (ground arith)
  | inr later ↦ rw later (ground (arith, count-modify f t ts))
]

-- To end a running task, with any status but running, lowers the number of running tasks by one, for
-- any target that names such a task.
pub finish-running_count :
    (target : TaskOrId) (status : TaskItemStatus) (detail : Option String) (now : ℕ)
    (s : TaskService) (t : TaskItem)
    → find_task target s.tasks ≡ some t
    → t.status ≡ running
    → status ≢ running
    → running_count (finish target status detail now s) + 1 ≡ running_count s
unfolding finish running_count
finish-running_count target status detail now s t named r k =
    let open' : is_running t.status ≡ true = ground arith in
    rw (named, finish, open')
      (count-modify (finished_task status detail now) t s.tasks
        (find_task_self target s.tasks t named) r k)
