-- ===== src/Mapping/Bridge/Stale.antt =====
-- Delayed touches of AYLink.Web/src/features/inputMapping/inputMappingCommandBridge.ts whose pointer was released
-- in the meantime.
use aylink_extra.Prelude.{
  ℕ, ◌≤◌, ◌<◌, ◌≡◌, ◌≢◌, ◌⊎◌, inl, inr, refl, ap, sym, ◌∙◌, arith, List, [], ◌∷◌, false, Option,
  some, ◌==◌, subst, if_splits,
}
use aylink_extra.Prelude.Numbers.{Numbers}
use aylink_extra.Mapping.Schema.{NormalizedPoint}
use aylink_extra.Mapping.Commands.{Touch}
use aylink_extra.Mapping.Bridge.{
  InputMappingCommandBridge, Senders, Timer, delayed, get_pointer_generation,
  create_input_mapping_command_bridge, String, stop_touch_repeat, stop_repeat,
}
use aylink_extra.Mapping.Bridge.Execution.{
  execute, call_back, fire, clear_pointer_keys, release_pointer_key, execute_all, execute_one,
  execute_now,
}
use aylink_extra.Mapping.Bridge.Ages.{Ages, released-Ages, stop_repeat-Ages}
use aylink_extra.Mapping.Bridge.Timers.{IsTimed}
use aylink_extra.Mapping.Bridge.Clearing.{
  step-IsTimed, run_from-IsTimed, new_bridge-IsTimed, cleared_quiet,
}
use aylink_extra.Mapping.Bridge.Runs.{
  Call, executed, fired, finalized, released, pending_cleared, keys_cleared, step, run,
}
use aylink_extra.Mapping.Bridge.Aging.{
  clear_pending_commands-Ages, execute_all-Ages, call_back-Ages, release_pointer_key-Ages,
  release_pointer_key-raises, stop_repeat-raises,
}

module _ (n : Numbers) (senders : Senders n) where
  -- No delayed touch waits for a generation that is still to come.
  abbrev IsAged : InputMappingCommandBridge n → Type 0
  IsAged s =
      (id : ℕ) (t : Touch n) (g : ℕ)
      → s.timers id ≡ some (delayed t g)
      → g ≤ get_pointer_generation n t.pointer_key s

  -- The timer was handed out, and a touch that waits on it was released.
  abbrev IsStale : ℕ → InputMappingCommandBridge n → Type 0
  IsStale id s =
      (id < s.next_timer)
      × ((t : Touch n) (g : ℕ)
          → s.timers id ≡ some (delayed t g)
          → g < get_pointer_generation n t.pointer_key s)

  Ages-IsAged : (s d : InputMappingCommandBridge n) → Ages n senders s d → IsAged s → IsAged d
  Ages-IsAged s d h k id t g e = elim (h.waiting id t g e) [
    | inl f ↦ omega (arith, k id t g f, h.generations t.pointer_key)
    | inr f ↦ f.1
  ]

  Ages-IsStale :
      (id : ℕ) (s d : InputMappingCommandBridge n)
      → Ages n senders s d
      → IsStale id s
      → IsStale id d
  Ages-IsStale id s d h k = (
    omega (arith, k.0, h.next_timer),
    λ t g e. elim (h.waiting id t g e) [
      | inl f ↦ omega (arith, k.1 t g f, h.generations t.pointer_key)
      | inr f ↦ absurd (omega (arith, f.0, k.0))
    ],
  )

  cleared_keys-next_timer :
      (s : InputMappingCommandBridge n) → s.next_timer ≤ (clear_pointer_keys n senders s).next_timer
  unfolding clear_pointer_keys
  cleared_keys-next_timer s = (clear_pending_commands-Ages n senders s).next_timer

  cleared_keys_quiet :
      (s : InputMappingCommandBridge n) (id : ℕ) (t : Timer n)
      → IsTimed n senders s
      → (clear_pointer_keys n senders s).timers id ≢ some t
  unfolding clear_pointer_keys
  cleared_keys_quiet s id t h = cleared_quiet n senders s id t h

  -- Every call but the clearing of the keys, which leaves no timer.
  step-cases :
      (c : Call n senders) (s : InputMappingCommandBridge n)
      → Ages n senders s (step n senders c s)
        ⊎ (step n senders c s ≡ clear_pointer_keys n senders s)
  unfolding execute fire
  step-cases (executed commands) s = inl (execute_all-Ages n senders commands s)
  step-cases (fired handle) s = inl (call_back-Ages n senders handle (s.timers handle) s)
  step-cases (finalized key id) s = inl (released-Ages n senders key (some id) s)
  step-cases (released key) s = inl (release_pointer_key-Ages n senders key s)
  step-cases pending_cleared s = inl (clear_pending_commands-Ages n senders s)
  step-cases keys_cleared s = inr refl

  step-IsAged :
      (c : Call n senders) (s : InputMappingCommandBridge n)
      → IsTimed n senders s
      → IsAged s
      → IsAged (step n senders c s)
  step-IsAged c s h k = elim (step-cases c s) [
    | inl a ↦ Ages-IsAged s _ a k
    | inr e ↦ subst IsAged (sym e) (λ id t g f. absurd (cleared_keys_quiet s id (delayed t g) h f))
  ]

  step-IsStale :
      (id : ℕ) (c : Call n senders) (s : InputMappingCommandBridge n)
      → IsTimed n senders s
      → IsStale id s
      → IsStale id (step n senders c s)
  step-IsStale id c s h k = elim (step-cases c s) [
    | inl a ↦ Ages-IsStale id s _ a k
    | inr e ↦ subst (IsStale id) (sym e) (
      omega (arith, k.0, cleared_keys-next_timer s),
      λ t g f. absurd (cleared_keys_quiet s id (delayed t g) h f),
    )
  ]

  run-IsAged :
      (cs : List (Call n senders)) (s : InputMappingCommandBridge n)
      → IsTimed n senders s
      → IsAged s
      → IsAged (run n senders cs s)
  unfolding run
  run-IsAged [] s h k = k
  run-IsAged (c ∷ cs) s h k =
      run-IsAged cs (step n senders c s) (step-IsTimed n senders c s h) (step-IsAged c s h k)

  run-IsStale :
      (id : ℕ) (cs : List (Call n senders)) (s : InputMappingCommandBridge n)
      → IsTimed n senders s
      → IsStale id s
      → IsStale id (run n senders cs s)
  unfolding run
  run-IsStale id [] s h k = k
  run-IsStale id (c ∷ cs) s h k =
      run-IsStale id cs (step n senders c s) (step-IsTimed n senders c s h)
        (step-IsStale id c s h k)

  -- A call that lets no generation fall and raises that of the key.
  raised-IsStale :
      (id : ℕ) (t : Touch n) (g : ℕ) (s d : InputMappingCommandBridge n)
      → IsTimed n senders s
      → IsAged s
      → s.timers id ≡ some (delayed t g)
      → Ages n senders s d
      → get_pointer_generation n t.pointer_key s < get_pointer_generation n t.pointer_key d
      → IsStale id d
  raised-IsStale id t g s d h k e a up =
      let low : id < s.next_timer = ground (arith, h.fresh id, e) in
      (
        omega (arith, low, a.next_timer),
        λ u i f. elim (a.waiting id u i f) [
          | inl l ↦
              let same : some (delayed t g) ≡ some (delayed u i) = sym e ∙ l in
              let key : t.pointer_key ≡ u.pointer_key = ground (arith, same) in
              let age : i ≡ g = ground (arith, same) in
              subst (λ z. i < get_pointer_generation n z d) key (omega (arith, k id t g e, age, up))
          | inr r ↦ absurd (omega (arith, r.0, low))
        ],
      )

  -- The call releases the pointer key or stops its repeat.
  abbrev pub Ends : String → Call n senders → Type 0
  Ends key c = (c ≡ released key) ⊎ (c ≡ executed (stop_touch_repeat key ∷ []))

  ended-IsStale :
      (id : ℕ) (t : Touch n) (g : ℕ) (c : Call n senders) (s : InputMappingCommandBridge n)
      → IsTimed n senders s
      → IsAged s
      → s.timers id ≡ some (delayed t g)
      → Ends t.pointer_key c
      → IsStale id (step n senders c s)
  unfolding execute execute_all execute_one execute_now
  ended-IsStale id t g c s h k e (inl f) =
      subst (λ z. IsStale id (step n senders z s)) (sym f)
        (raised-IsStale id t g s (release_pointer_key n senders t.pointer_key s) h k e
          (release_pointer_key-Ages n senders t.pointer_key s)
          (release_pointer_key-raises n senders t.pointer_key s))
  ended-IsStale id t g c s h k e (inr f) =
      subst (λ z. IsStale id (step n senders z s)) (sym f)
        (raised-IsStale id t g s (stop_repeat n senders t.pointer_key s) h k e
          (stop_repeat-Ages n senders t.pointer_key s)
          (stop_repeat-raises n senders t.pointer_key s))

  new_bridge_quiet :
      (first_pointer_id : Option ℕ) (point : NormalizedPoint n) (id : ℕ) (t : Timer n)
      → (create_input_mapping_command_bridge n first_pointer_id point).timers id ≢ some t
  unfolding create_input_mapping_command_bridge
  new_bridge_quiet first_pointer_id point id t e = ground arith

  call_back-stale :
      (id : ℕ) (t : Touch n) (g : ℕ) (s : InputMappingCommandBridge n)
      → (get_pointer_generation n t.pointer_key s == g) ≡ false
      → (call_back n senders id (some (delayed t g)) s).sent ≡ s.sent
  call_back-stale id t g s e =
      if_splits (λ (d : InputMappingCommandBridge n). d.sent ≡ s.sent)
        (get_pointer_generation n t.pointer_key s == g) _ _ (λ f. absurd (ground (arith, e, f)))
        (λ f. refl)

  fire-stale :
      (id : ℕ) (t : Touch n) (g : ℕ) (s : InputMappingCommandBridge n)
      → IsStale id s
      → s.timers id ≡ some (delayed t g)
      → (fire n senders id s).sent ≡ s.sent
  unfolding fire
  fire-stale id t g s k e =
      let behind = k.1 t g e in
      let other : (get_pointer_generation n t.pointer_key s == g) ≡ false =
        ground (arith, behind) in
      ap (λ timer. (call_back n senders id timer s).sent) e ∙ call_back-stale id t g s other

  -- When a touch is delayed, after any calls on a new bridge, and its pointer key is then released or its
  -- repeat stopped, then whatever is called afterwards, the touch's timer sends nothing when it fires.
  pub ended_touch_is_dropped :
      (first_pointer_id : Option ℕ) (point : NormalizedPoint n)
      (before later : List (Call n senders)) (c : Call n senders) (id : ℕ) (t u : Touch n) (g i : ℕ)
      → Ends t.pointer_key c
      → (run n senders before (create_input_mapping_command_bridge n first_pointer_id point)).timers
          id
        ≡ some (delayed t g)
      → (run n senders later (
            step n senders c (
              run n senders before
                (create_input_mapping_command_bridge n first_pointer_id point)))).timers
          id
        ≡ some (delayed u i)
      → (fire n senders id (
          run n senders later (
            step n senders c (
              run n senders before
                (create_input_mapping_command_bridge n first_pointer_id point))))).sent
        ≡ (run n senders later (
            step n senders c (
              run n senders before
                (create_input_mapping_command_bridge n first_pointer_id point)))).sent
  ended_touch_is_dropped first_pointer_id point before later c id t u g i ends e f =
      let new = create_input_mapping_command_bridge n first_pointer_id point in
      let s = run n senders before new in
      let fresh = new_bridge-IsTimed n senders first_pointer_id point in
      let timed = run_from-IsTimed n senders before new fresh in
      let aged =
        run-IsAged before new fresh
          (λ j v k h. absurd (new_bridge_quiet first_pointer_id point j (delayed v k) h)) in
      let d = step n senders c s in
      fire-stale id u i (run n senders later d)
        (run-IsStale id later d (step-IsTimed n senders c s timed)
          (ended-IsStale id t g c s timed aged e ends))
        f
