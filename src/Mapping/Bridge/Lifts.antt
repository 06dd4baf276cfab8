-- ===== src/Mapping/Bridge/Lifts.antt =====
-- What AYLink.Web/src/features/inputMapping/inputMappingCommandBridge.ts sends for the commands that `releaseAll` of
-- inputMappingRuntime.ts gives it.
use aylink_extra.Prelude.{
  ℕ, ◌≡◌, inl, inr, refl, ap, sym, ◌∙◌, List, [], ◌∷◌, ◌++◌, false, none, some, Bool-cases,
  Option-cases,
}
use aylink_extra.Prelude.Text.{String, str_eq, str_eq_sound}
use aylink_extra.Prelude.{subst, append_assoc, if_keeps, is_id}
use aylink_extra.Prelude.Int.{pos}
use aylink_extra.Prelude.Numbers.{Numbers}
use aylink_extra.Mapping.Bridge.{
  Senders, String, Sent, send_touch, get_or_create_pointer_id, NormalizedPoint,
  release_pointer_key_internal, InputMappingCommandBridge, InputMappingCommand, sent_touch,
  touch_cancel, get_entry, touch,
}
use aylink_extra.Mapping.Bridge.Execution.{
  execute_one, execute_touch, execute_all, execute, get_pointer_id,
}
use aylink_extra.Mapping.Cancels.{Contains, Contains-front, Contains-back, IsDown, IsDown-Contains}
use aylink_extra.Mapping.Bridge.Log.{Adds, send_touch-sent, execute_all-Adds, execute_one-Adds}
use aylink_extra.Mapping.Gestures.{touch_command}
use aylink_extra.Prelude.Entries.{get_entry-set_entry_other, get_entry-delete_entry_other}
use aylink_extra.Mapping.Handlers.{
  cancel_touches, cancel_groups, release_all, stop_rapid_taps, cleared,
}
use aylink_extra.Mapping.Runtime.{ActiveTouchState, JoystickGroupState, InputMappingRuntime}
use aylink_extra.Mapping.Joystick.{joystick_pointer_key}
use aylink_extra.Mapping.MouseLook.{release_mouse_look}

module _ (n : Numbers) (senders : Senders n) where
  abbrev pub cancelling : String → NormalizedPoint n → InputMappingCommand n
  cancelling key point = touch_command n touch_cancel key point 0 none

  abbrev pub sent_cancel : ℕ → String → NormalizedPoint n → Sent n
  sent_cancel id key point = sent_touch touch_cancel id key point (n.int (pos 0))

  -- Among what stands in the log behind what stood in it before.
  abbrev pub IsAdded : Sent n → List (Sent n) → List (Sent n) → Type 0
  IsAdded m old log = (added : List (Sent n)) × (log ≡ old ++ added) × Contains m added

  IsAdded-then :
      (m : Sent n) (a b c : List (Sent n)) → IsAdded m a b → Adds n senders b c → IsAdded m a c
  IsAdded-then m a b c (xs, e, h) (ys, f) = (
    xs ++ ys,
    f ∙ (ap (λ (l : List (Sent n)). l ++ ys) e ∙ append_assoc a xs ys),
    Contains-front m xs ys h,
  )

  then-IsAdded :
      (m : Sent n) (a b c : List (Sent n)) → Adds n senders a b → IsAdded m b c → IsAdded m a c
  then-IsAdded m a b c (xs, e) (ys, f, h) = (
    xs ++ ys,
    f ∙ (ap (λ (l : List (Sent n)). l ++ ys) e ∙ append_assoc a xs ys),
    Contains-back m xs ys h,
  )

  execute_one-cancelling :
      (key : String) (point : NormalizedPoint n) (s : InputMappingCommandBridge n)
      → (execute_one n senders (cancelling key point) s).0
        ≡ send_touch n senders touch_cancel key point (n.int (pos 0)) s
  unfolding execute_one execute_touch
  execute_one-cancelling key point s = refl

  execute_one-IsAdded :
      (id : ℕ) (key : String) (point : NormalizedPoint n) (s : InputMappingCommandBridge n)
      → (get_or_create_pointer_id n key s).1 ≡ id
      → IsAdded
          (sent_cancel id key point)
          s.sent
          (execute_one n senders (cancelling key point) s).0.sent
  unfolding execute_one execute_touch
  execute_one-IsAdded id key point s e = (
    sent_cancel id key point ∷ [],
    subst
        (λ (k : ℕ).
          (execute_one n senders (cancelling key point) s).0.sent
          ≡ s.sent ++ sent_cancel k key point ∷ [])
        e (send_touch-sent n senders touch_cancel key point (n.int (pos 0)) s),
    inl refl,
  )

  get_or_create-get_entry :
      (other key : String) (s : InputMappingCommandBridge n)
      → str_eq key other ≡ false
      → get_entry other (get_or_create_pointer_id n key s).0.pointer_ids
        ≡ get_entry other s.pointer_ids
  unfolding get_or_create_pointer_id
  get_or_create-get_entry other key s e = elim (Option-cases (get_entry key s.pointer_ids)) [
    | inl f ↦
        rw (f, get_or_create_pointer_id)
          (get_entry-set_entry_other other key s.next_pointer_id s.pointer_ids e)
    | inr (id, f) ↦ rw (f, get_or_create_pointer_id) refl
  ]

  release-get_entry :
      (other key : String) (id : ℕ) (s : InputMappingCommandBridge n)
      → str_eq key other ≡ false
      → get_entry other (release_pointer_key_internal n key (some id) s).pointer_ids
        ≡ get_entry other s.pointer_ids
  unfolding release_pointer_key_internal
  release-get_entry other key id s e =
      if_keeps
        (λ (d : InputMappingCommandBridge n).
          get_entry other d.pointer_ids ≡ get_entry other s.pointer_ids)
        (is_id (get_entry key s.pointer_ids) id) _ _
        (get_entry-delete_entry_other other key s.pointer_ids e) refl

  -- A key keeps its pointer id while another key's touch is sent.
  send_touch-get_entry :
      (other key : String) (point : NormalizedPoint n) (s : InputMappingCommandBridge n)
      → str_eq key other ≡ false
      → get_entry other (send_touch n senders touch_cancel key point (n.int (pos 0)) s).pointer_ids
        ≡ get_entry other s.pointer_ids
  unfolding send_touch
  send_touch-get_entry other key point s e =
      let created = get_or_create_pointer_id n key s in
      let kept = get_or_create-get_entry other key s e in
      if_keeps
        (λ (d : InputMappingCommandBridge n).
          get_entry other d.pointer_ids ≡ get_entry other s.pointer_ids)
        _ _ _ (release-get_entry other key created.1 _ e ∙ kept) kept

  get_or_create-existing :
      (key : String) (id : ℕ) (s : InputMappingCommandBridge n)
      → get_entry key s.pointer_ids ≡ some id
      → (get_or_create_pointer_id n key s).1 ≡ id
  unfolding get_or_create_pointer_id
  get_or_create-existing key id s e = rw (e, get_or_create_pointer_id) refl

  -- Some cancel of a pointer key is sent under an id, and it is one of the commands.
  abbrev pub IsLifted :
      ℕ → String → List (InputMappingCommand n) → List (Sent n) → List (Sent n) → Type 0
  IsLifted id key cs old log =
      (point : NormalizedPoint n) × Contains (cancelling key point) cs
      × IsAdded (sent_cancel id key point) old log

  AreCancels : List (InputMappingCommand n) → Type 0
  AreCancels [] = Unit
  AreCancels (c ∷ cs) =
      ((key : String) × (point : NormalizedPoint n) × (c ≡ cancelling key point)) × AreCancels cs

  lifts_first :
      (k key : String) (p : NormalizedPoint n) (id : ℕ) (cs : List (InputMappingCommand n))
      (s : InputMappingCommandBridge n)
      → k ≡ key
      → get_entry key s.pointer_ids ≡ some id
      → IsLifted id key
          (cancelling k p ∷ cs)
          s.sent
          (execute_all n senders (cancelling k p ∷ cs) s).0.sent
  unfolding execute_all
  lifts_first k key p id cs s same e = (
    p,
    inl (ap (λ (z : String). cancelling z p) same),
    IsAdded-then (sent_cancel id key p) s.sent (execute_one n senders (cancelling k p) s).0.sent _
        (subst
          (λ (z : String).
            IsAdded (sent_cancel id key p) s.sent (execute_one n senders (cancelling z p) s).0.sent)
          (sym same) (execute_one-IsAdded id key p s (get_or_create-existing key id s e)))
        (execute_all-Adds n senders cs (execute_one n senders (cancelling k p) s).0),
  )

  key_of : InputMappingCommand n → String
  key_of (touch t) = t.pointer_key
  key_of _ = ""

  execute_all-IsLifted :
      (id : ℕ) (key : String) (point : NormalizedPoint n) (cs : List (InputMappingCommand n))
      (s : InputMappingCommandBridge n)
      → AreCancels cs
      → Contains (cancelling key point) cs
      → get_entry key s.pointer_ids ≡ some id
      → IsLifted id key cs s.sent (execute_all n senders cs s).0.sent
  unfolding execute_all AreCancels key_of
  execute_all-IsLifted id key point [] s h held e = elim held [ ]
  execute_all-IsLifted id key point (c ∷ cs) s ((k, p, f), hs) held e =
      subst
        (λ (d : InputMappingCommand n).
          IsLifted id key (d ∷ cs) s.sent (execute_all n senders (d ∷ cs) s).0.sent)
        (sym f)
        (elim (Bool-cases (str_eq k key)) [
          | inl same ↦ lifts_first k key p id cs s (str_eq_sound k key same) e
          | inr other ↦ elim held [
            | inl g ↦ lifts_first k key p id cs s (ap key_of (sym f ∙ g)) e
            | inr g ↦
                let d = (execute_one n senders (cancelling k p) s).0 in
                let (q, found, added) = execute_all-IsLifted id key point cs d hs g (
                  ap (λ (b : InputMappingCommandBridge n). get_entry key b.pointer_ids)
                    (execute_one-cancelling k p s)
                  ∙ (send_touch-get_entry key k p s other ∙ e)) in
                (
                  q,
                  inr found,
                  then-IsAdded (sent_cancel id key q) s.sent d.sent _
                      (execute_one-Adds n senders (cancelling k p) s) added,
                )
          ]
        ])

  AreCancels-append :
      (cs ds : List (InputMappingCommand n)) → AreCancels cs → AreCancels ds → AreCancels (cs ++ ds)
  unfolding AreCancels
  AreCancels-append [] ds h k = k
  AreCancels-append (c ∷ cs) ds h k = (h.0, AreCancels-append cs ds h.1 k)

  cancel_touches-AreCancels :
      (entries : List (String × ActiveTouchState n)) → AreCancels (cancel_touches n entries)
  unfolding AreCancels cancel_touches
  cancel_touches-AreCancels [] = tt
  cancel_touches-AreCancels ((id, active) ∷ rest) =
      ((active.pointer_key, active.point, refl), cancel_touches-AreCancels rest)

  cancel_groups-AreCancels :
      (entries : List (String × JoystickGroupState n)) → AreCancels (cancel_groups n entries)
  unfolding AreCancels cancel_groups
  cancel_groups-AreCancels [] = tt
  cancel_groups-AreCancels ((key, group) ∷ rest) =
      if_keeps AreCancels group.is_down _ _
        ((joystick_pointer_key n key, group.point, refl), cancel_groups-AreCancels rest)
        (cancel_groups-AreCancels rest)

  execute_all-append :
      (cs ds : List (InputMappingCommand n)) (s : InputMappingCommandBridge n)
      → (execute_all n senders (cs ++ ds) s).0
        ≡ (execute_all n senders ds (execute_all n senders cs s).0).0
  unfolding execute_all
  execute_all-append [] ds s = refl
  execute_all-append (c ∷ cs) ds s = execute_all-append cs ds (execute_one n senders c s).0

  -- Each touch that is down is cancelled on the device: when the runtime holds a touch or a joystick that
  -- is down, under a pointer key that has a pointer id on the bridge, executing the commands of
  -- `release_all` adds to the log a cancel of that key under that very id, at a point for which the
  -- commands cancel the key.
  pub execute-release_all :
      (s : InputMappingRuntime n) (b : InputMappingCommandBridge n) (key : String)
      (point : NormalizedPoint n) (id : ℕ)
      → IsDown n s (cancelling key point)
      → get_pointer_id n senders key b ≡ some id
      → IsLifted id key (release_all n s).1 b.sent (execute n senders (release_all n s).1 b).0.sent
  unfolding execute release_all get_pointer_id
  execute-release_all s b key point id held e =
      let touches = cancel_touches n s.active_touches in
      let groups = cancel_groups n s.active_joystick_groups in
      let taps = stop_rapid_taps n s.active_rapid_tap_bindings in
      let mouse = (release_mouse_look n touch_cancel (cleared n s)).1 in
      let d = (execute_all n senders (touches ++ groups) b).0 in
      let (q, found, added) =
        execute_all-IsLifted id key point (touches ++ groups) b
          (AreCancels-append touches groups (cancel_touches-AreCancels s.active_touches)
            (cancel_groups-AreCancels s.active_joystick_groups))
          (IsDown-Contains n s (cancelling key point) held) e in
      (
        q,
        Contains-front (cancelling key q) ((touches ++ groups) ++ taps) mouse
            (Contains-front (cancelling key q) (touches ++ groups) taps found),
        subst (λ (r : InputMappingCommandBridge n). IsAdded (sent_cancel id key q) b.sent r.sent)
            (sym (execute_all-append ((touches ++ groups) ++ taps) mouse b))
            (IsAdded-then (sent_cancel id key q) b.sent _ _
              (subst
                (λ (r : InputMappingCommandBridge n). IsAdded (sent_cancel id key q) b.sent r.sent)
                (sym (execute_all-append (touches ++ groups) taps b))
                (IsAdded-then (sent_cancel id key q) b.sent d.sent _ added
                  (execute_all-Adds n senders taps d)))
              (execute_all-Adds n senders mouse _)),
      )
