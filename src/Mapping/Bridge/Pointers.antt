-- ===== src/Mapping/Bridge/Pointers.antt =====
-- The pointer ids of AYLink.Web/src/features/inputMapping/inputMappingCommandBridge.ts over every run.
use aylink_extra.Prelude.{
  ℕ, ◌+◌, ◌<◌, ◌≡◌, ◌≢◌, ◌⊎◌, inl, inr, sym, ◌∙◌, arith, List, [], ◌∷◌, ◌++◌, true, false, ◌&&◌,
  Option, none, some, Bool-cases, Option-cases, All, if_keeps, subst, is_id,
}
use aylink_extra.Prelude.Text.{String, str_eq, str_eq_sound}
use aylink_extra.Prelude.Entries.{put, get_entry, set_entry, delete_entry}
use aylink_extra.Prelude.Numbers.{Numbers}
use aylink_extra.Mapping.Schema.{NormalizedPoint}
use aylink_extra.Mapping.Commands.{TouchPhase, touch_down, touch_up}
use aylink_extra.Mapping.Bridge.{
  InputMappingCommandBridge, RepeatState, Senders, is_final, release_pointer_key_internal,
  get_or_create_pointer_id, send_touch, clear_timer, bump_pointer_generation, stop_repeat, tap,
  lift_up, start_repeat, sent_touch, stop_state,
}
use aylink_extra.Prelude.Int.{pos}

-- No two entries have the same id, and all ids lie below the next one.
unfoldable pub Distinct : List (String × ℕ) → Type 0
Distinct [] = Unit
Distinct ((key, id) ∷ rest) = All (λ (e : String × ℕ). e.1 ≢ id) rest × Distinct rest

abbrev pub Below : ℕ → List (String × ℕ) → Type 0
Below next entries = All (λ (e : String × ℕ). e.1 < next) entries

module _ (P : (String × ℕ) → Type 0) where
  All-set_entry :
      (key : String) (id : ℕ) (entries : List (String × ℕ))
      → ((k : String) → P (k, id))
      → All P entries
      → All P (set_entry key id entries)
  unfolding set_entry
  All-set_entry key id [] p h = (p key, tt)
  All-set_entry key id ((k, i) ∷ rest) p h =
      if_keeps (All P) (str_eq k key) _ _ (p k, h.1) (h.0, All-set_entry key id rest p h.1)

  All-delete_entry :
      (key : String) (entries : List (String × ℕ))
      → All P entries
      → All P (delete_entry key entries)
  unfolding delete_entry
  All-delete_entry key [] h = h
  All-delete_entry key ((k, i) ∷ rest) h =
      if_keeps (All P) (str_eq k key) _ _ h.1 (h.0, All-delete_entry key rest h.1)

Distinct-delete_entry :
    (key : String) (entries : List (String × ℕ))
    → Distinct entries
    → Distinct (delete_entry key entries)
unfolding delete_entry Distinct
Distinct-delete_entry key [] h = h
Distinct-delete_entry key ((k, i) ∷ rest) h =
    if_keeps Distinct (str_eq k key) _ _ h.1
      (All-delete_entry _ key rest h.0, Distinct-delete_entry key rest h.1)

others_differ :
    (id : ℕ) (entries : List (String × ℕ))
    → Below id entries
    → All (λ (e : String × ℕ). e.1 ≢ id) entries
others_differ id [] h = tt
others_differ id (e ∷ rest) h = (λ f. absurd (omega (arith, f, h.0)), others_differ id rest h.1)

Distinct-set_entry :
    (key : String) (id : ℕ) (entries : List (String × ℕ))
    → Below id entries
    → Distinct entries
    → Distinct (set_entry key id entries)
unfolding set_entry Distinct
Distinct-set_entry key id [] b h = (tt, tt)
Distinct-set_entry key id ((k, i) ∷ rest) b h =
    if_keeps Distinct (str_eq k key) _ _ (others_differ id rest b.1, h.1)
      (
        All-set_entry _ key id rest (λ k e. absurd (omega (arith, e, b.0))) h.0,
        Distinct-set_entry key id rest b.1 h.1,
      )

Below-suc : (n : ℕ) (entries : List (String × ℕ)) → Below n entries → Below (n + 1) entries
Below-suc n [] h = tt
Below-suc n (e ∷ rest) h = (omega (arith, h.0), Below-suc n rest h.1)

get_entry-cases :
    (k key : String) (i id : ℕ) (rest : List (String × ℕ))
    → get_entry k ((key, i) ∷ rest) ≡ some id
    → ((key ≡ k) × (i ≡ id)) ⊎ (get_entry k rest ≡ some id)
unfolding get_entry
get_entry-cases k key i id rest e = elim (Bool-cases (str_eq key k)) [
  | inl f ↦ inl (str_eq_sound key k f, ground (arith, e, f))
  | inr f ↦ inr (ground (arith, e, f))
]

id_of :
    (P : (String × ℕ) → Type 0) (key : String) (id : ℕ) (entries : List (String × ℕ))
    → get_entry key entries ≡ some id
    → All P entries
    → (k : String) × P (k, id)
unfolding get_entry
id_of P key id [] e h = absurd (ground arith)
id_of P key id ((k, i) ∷ rest) e h = elim (get_entry-cases key k i id rest e) [
  | inl c ↦ (k, subst (λ z. P (k, z)) c.1 h.0)
  | inr c ↦ id_of P key id rest c h.1
]

-- In distinct entries an id names its key.
pub Distinct-keys :
    (k j : String) (id : ℕ) (entries : List (String × ℕ))
    → Distinct entries
    → get_entry k entries ≡ some id
    → get_entry j entries ≡ some id
    → k ≡ j
unfolding get_entry Distinct
Distinct-keys k j id [] h e f = absurd (ground arith)
Distinct-keys k j id ((key, i) ∷ rest) h e f = elim (get_entry-cases k key i id rest e) [
  | inl c ↦ elim (get_entry-cases j key i id rest f) [
    | inl d ↦ sym c.0 ∙ d.0
    | inr d ↦ absurd ((id_of _ j id rest d h.0).1 (sym c.1))
  ]
  | inr c ↦ elim (get_entry-cases j key i id rest f) [
    | inl d ↦ absurd ((id_of _ k id rest c h.0).1 (sym d.1))
    | inr d ↦ Distinct-keys k j id rest h.1 c d
  ]
]

module _ (n : Numbers) (senders : Senders n) where
  abbrev pub IsTracked : InputMappingCommandBridge n → Type 0
  IsTracked s = Below s.next_pointer_id s.pointer_ids × Distinct s.pointer_ids

  pub release-IsTracked :
      (key : String) (id : Option ℕ) (s : InputMappingCommandBridge n)
      → IsTracked s
      → IsTracked (release_pointer_key_internal n key id s)
  unfolding release_pointer_key_internal
  release-IsTracked key none s h =
      (All-delete_entry _ key s.pointer_ids h.0, Distinct-delete_entry key s.pointer_ids h.1)
  release-IsTracked key (some id) s h =
      if_keeps IsTracked (is_id (get_entry key s.pointer_ids) id) _ _
        (All-delete_entry _ key s.pointer_ids h.0, Distinct-delete_entry key s.pointer_ids h.1) h

  get_or_create-IsTracked :
      (key : String) (s : InputMappingCommandBridge n)
      → IsTracked s
      → IsTracked (get_or_create_pointer_id n key s).0
  unfolding get_or_create_pointer_id
  get_or_create-IsTracked key s h = elim (Option-cases (get_entry key s.pointer_ids)) [
    | inl e ↦
        rw (e, get_or_create_pointer_id)
          (
            All-set_entry _ key s.next_pointer_id s.pointer_ids (λ k. omega arith)
                (Below-suc s.next_pointer_id s.pointer_ids h.0),
            Distinct-set_entry key s.next_pointer_id s.pointer_ids h.0 h.1,
          )
    | inr (id, e) ↦ rw (e, get_or_create_pointer_id) h
  ]

  pub send_touch-IsTracked :
      (phase : TouchPhase) (key : String) (point : NormalizedPoint n) (pressure : n.Num)
      (s : InputMappingCommandBridge n)
      → IsTracked s
      → IsTracked (send_touch n senders phase key point pressure s)
  unfolding send_touch
  send_touch-IsTracked phase key point pressure s h =
      let created = get_or_create_pointer_id n key s in
      let log = s.sent ++ sent_touch phase created.1 key point pressure ∷ [] in
      let k = get_or_create-IsTracked key s h in
      if_keeps IsTracked (is_final n senders phase && senders.finalizes log) _ _
        (release-IsTracked key (some created.1) (record (created.0) { sent = log }) k) k

  clear_timer-IsTracked :
      (handle : Option ℕ) (s : InputMappingCommandBridge n)
      → IsTracked s
      → IsTracked (clear_timer n handle s)
  clear_timer-IsTracked none s h = h
  clear_timer-IsTracked (some id) s h = h

  stop_state-IsTracked :
      (key : String) (state : RepeatState n) (s : InputMappingCommandBridge n)
      → IsTracked s
      → IsTracked (stop_state n senders key state s)
  unfolding bump_pointer_generation
  stop_state-IsTracked key state s h =
      let quiet =
        clear_timer-IsTracked state.up_handle (clear_timer n (some state.interval_handle) s) h in
      if_keeps IsTracked state.is_down _ _ (send_touch-IsTracked _ key state.point _ _ quiet)
        (release-IsTracked key none _ quiet)

  pub stop_repeat-IsTracked :
      (key : String) (s : InputMappingCommandBridge n)
      → IsTracked s
      → IsTracked (stop_repeat n senders key s)
  unfolding stop_repeat bump_pointer_generation
  stop_repeat-IsTracked key s h = elim (Option-cases (get_entry key s.repeat_states)) [
    | inl e ↦ rw (e, stop_repeat) (release-IsTracked key none (bump_pointer_generation n key s) h)
    | inr (id, e) ↦ rw (e, stop_repeat) (stop_state-IsTracked key (s.states id) s h)
  ]

  pub tap-IsTracked :
      (state : ℕ) (key : String) (point : NormalizedPoint n) (s : InputMappingCommandBridge n)
      → IsTracked s
      → IsTracked (tap n senders state key point s)
  unfolding tap
  tap-IsTracked state key point s h = if_keeps IsTracked (s.states state).is_down _ _ h (
      send_touch-IsTracked touch_down key point (n.int (pos 1))
        (record s { states = put state (record (s.states state) { is_down = true }) s.states }) h)

  pub lift_up-IsTracked :
      (state : ℕ) (key : String) (point : NormalizedPoint n) (s : InputMappingCommandBridge n)
      → IsTracked s
      → IsTracked (lift_up n senders state key point s)
  unfolding lift_up
  lift_up-IsTracked state key point s h =
      send_touch-IsTracked touch_up key point (n.int (pos 0))
        (record s {
          states =
              put state (record (s.states state) { up_handle = none; is_down = false }) s.states;
        })
        h

  pub start_repeat-IsTracked :
      (key : String) (point : NormalizedPoint n) (s : InputMappingCommandBridge n)
      → IsTracked s
      → IsTracked (start_repeat n senders key point s)
  unfolding start_repeat
  start_repeat-IsTracked key point s h = tap-IsTracked _ key point _ (stop_repeat-IsTracked key s h)
