-- ===== src/Transport/Lines.antt =====
-- The lines that AYLink.Web/src/features/deviceTransport/terminal.ts makes of the text that it receives.
use aylink_extra.Prelude.{
  subst, ℕ, zero, suc, ◌≤◌, ◌<◌, ◌≡◌, inl, inr, refl, ap, sym, ◌∙◌, arith, List, [], ◌∷◌, ◌++◌,
  Bool, true, false, some, ltb, ◌==◌, Bool-cases, Option-cases, length, is_some, append_assoc, take,
  drop, All, All-append, flatten, if_keeps, append-nil, if_splits,
}
use aylink_extra.Transport.Terminal.{
  Terminal, newline, index_of_newline, take_lines, on_value, on_failure, check_limit, close,
  message_limit, create_terminal_connection,
}

-- The text that some lines were cut from.
unfoldable pub joined : List (List ℕ) → List ℕ
joined [] = []
joined (m ∷ ms) = m ++ newline ∷ joined ms

joined-append : (xs ys : List (List ℕ)) → joined (xs ++ ys) ≡ joined xs ++ joined ys
unfolding joined
joined-append [] ys = refl
joined-append (x ∷ xs) ys =
    ap (λ us. x ++ newline ∷ us) (joined-append xs ys)
    ∙ sym (append_assoc x (newline ∷ joined xs) (joined ys))

abbrev pub has_newline : List ℕ → Bool
has_newline xs = is_some (index_of_newline xs)

-- An index cuts the text at its first newline.
abbrev Cuts : List ℕ → ℕ → Type 0
Cuts xs i =
    (take i xs ++ newline ∷ drop (suc i) xs ≡ xs)
    × (has_newline (take i xs) ≡ false)
    × (length (drop (suc i) xs) < length xs)

Cuts-here : (x : ℕ) (xs : List ℕ) → x ≡ newline → Cuts (x ∷ xs) 0
Cuts-here x xs e = (ap (λ y. y ∷ xs) (sym e), refl, omega arith)

Cuts-later : (x j : ℕ) (xs : List ℕ) → (x == newline) ≡ false → Cuts xs j → Cuts (x ∷ xs) (suc j)
Cuts-later x j xs e h = (ap (λ ys. x ∷ ys) h.0, ground (arith, e, h.1), omega (arith, h.2))

index_of_newline-Cuts : (xs : List ℕ) (i : ℕ) → index_of_newline xs ≡ some i → Cuts xs i
index_of_newline-Cuts [] i e = absurd (ground arith)
index_of_newline-Cuts (x ∷ xs) i e = elim (Bool-cases (x == newline)) [
  | inl f ↦ let k : i ≡ 0 = ground (arith, e, f) in rw k (Cuts-here x xs (ground (arith, f)))
  | inr f ↦ elim (Option-cases (index_of_newline xs)) [
    | inl g ↦ absurd (ground (arith, e, f, g))
    | inr (j, g) ↦
        let k : i ≡ suc j = ground (arith, e, f, g) in
        rw k (Cuts-later x j xs f (index_of_newline-Cuts xs j g))
  ]
]

abbrev pub HasNoNewline : List ℕ → Type 0
HasNoNewline xs = has_newline xs ≡ false

-- What the loop keeps: the text, and that the lines it has cut off contain no newline.
pub record IsCut (t d : Terminal) : Type 0 where
  pub whole : joined d.messages ++ d.pending ≡ joined t.messages ++ t.pending
  pub lines : All HasNoNewline t.messages → All HasNoNewline d.messages
  pub rest : HasNoNewline d.pending

joined-one :
    (ms : List (List ℕ)) (m rest : List ℕ)
    → joined (ms ++ m ∷ []) ++ rest ≡ joined ms ++ (m ++ newline ∷ rest)
unfolding joined
joined-one ms m rest =
    ap (λ us. us ++ rest) (joined-append ms (m ∷ []))
    ∙ (append_assoc (joined ms) (m ++ newline ∷ []) rest
        ∙ ap (λ us. joined ms ++ us) (append_assoc m (newline ∷ []) rest))

abbrev cut_at : ℕ → Terminal → Terminal
cut_at i t = record t {
  messages = t.messages ++ take i t.pending ∷ [];
  pending = drop (suc i) t.pending;
}

cut_at-IsCut : (i : ℕ) (t d : Terminal) → Cuts t.pending i → IsCut (cut_at i t) d → IsCut t d
cut_at-IsCut i t d c h = record {
  whole =
      h.whole
      ∙ (joined-one t.messages (take i t.pending) (drop (suc i) t.pending)
          ∙ ap (λ us. joined t.messages ++ us) c.0);
  lines = λ k. h.lines (All-append HasNoNewline t.messages (take i t.pending ∷ []) k (c.1, tt));
  rest = h.rest;
}

empty-HasNoNewline : (xs : List ℕ) → length xs ≤ 0 → HasNoNewline xs
empty-HasNoNewline [] h = refl
empty-HasNoNewline (x ∷ xs) h = absurd (omega arith)

take_lines-IsCut : (fuel : ℕ) (t : Terminal) → length t.pending ≤ fuel → IsCut t (take_lines fuel t)
unfolding take_lines
take_lines-IsCut zero t h = record {
  whole = refl;
  lines = λ k. k;
  rest = empty-HasNoNewline t.pending h;
}
take_lines-IsCut (suc fuel) t h = elim (Option-cases (index_of_newline t.pending)) [
  | inl e ↦ rw (e, take_lines) (record { whole = refl; lines = λ k. k; rest = ground (arith, e) })
  | inr (i, e) ↦
      let c = index_of_newline-Cuts t.pending i e in
      rw (e, take_lines)
        (cut_at-IsCut i t _ c (take_lines-IsCut fuel (cut_at i t) (omega (arith, c.2))))
]

-- The texts of the values of the response's body, in their order.
unfoldable pub receive_all : List (List ℕ) → Terminal → Terminal
receive_all [] t = t
receive_all (v ∷ vs) t = receive_all vs (on_value v t)

-- Received text is made of its lines, however it was cut into values.
pub record HasLines (text : List ℕ) (t : Terminal) : Type 0 where
  pub whole : joined t.messages ++ t.pending ≡ text
  pub lines : All HasNoNewline t.messages
  pub rest : HasNoNewline t.pending

on_failure-text :
    (t : Terminal) → ((on_failure t).messages ≡ t.messages) × ((on_failure t).pending ≡ t.pending)
unfolding on_failure close
on_failure-text t = ground arith

check_limit-HasLines :
    (text : List ℕ) (t : Terminal) → HasLines text t → HasLines text (check_limit t)
check_limit-HasLines text t h =
    let k = on_failure-text t in
    if_keeps (HasLines text) (ltb message_limit (length t.pending)) (on_failure t) t
      (record { whole = rw (k.0, k.1) h.whole; lines = rw k.0 h.lines; rest = rw k.1 h.rest }) h

on_value-HasLines :
    (text v : List ℕ) (t : Terminal)
    → t.is_aborted ≡ false
    → HasLines text t
    → HasLines (text ++ v) (on_value v t)
unfolding on_value
on_value-HasLines text v t e h =
    let pending = t.pending ++ v in
    let read = record t { pending = pending } in
    let c = take_lines-IsCut (length pending) read (omega arith) in
    if_splits (HasLines (text ++ v)) t.is_aborted _ _ (λ f. absurd (ground (arith, e, f)))
      (λ f. check_limit-HasLines (text ++ v) (take_lines (length pending) read) (record {
        whole =
            c.whole
            ∙ (sym (append_assoc (joined t.messages) t.pending v) ∙ ap (λ us. us ++ v) h.whole);
        lines = c.lines h.lines;
        rest = c.rest;
      }))

on_value-aborted :
    (v : List ℕ) (t : Terminal) → t.is_aborted ≡ true → (on_value v t).is_aborted ≡ true
unfolding on_value
on_value-aborted v t e =
    if_splits (λ (d : Terminal). d.is_aborted ≡ true) t.is_aborted _ _ (λ f. e)
      (λ f. absurd (ground (arith, e, f)))

receive_all-aborted :
    (vs : List (List ℕ)) (t : Terminal) → t.is_aborted ≡ true → (receive_all vs t).is_aborted ≡ true
unfolding receive_all
receive_all-aborted [] t e = e
receive_all-aborted (v ∷ vs) t e = receive_all-aborted vs (on_value v t) (on_value-aborted v t e)

receive_all-running :
    (vs : List (List ℕ)) (t : Terminal)
    → (receive_all vs t).is_aborted ≡ false
    → t.is_aborted ≡ false
receive_all-running vs t e = elim (Bool-cases t.is_aborted) [
  | inl f ↦ absurd (ground (arith, e, receive_all-aborted vs t f))
  | inr f ↦ f
]

receive_all_from-HasLines :
    (text : List ℕ) (vs : List (List ℕ)) (t : Terminal)
    → (receive_all vs t).is_aborted ≡ false
    → HasLines text t
    → HasLines (text ++ flatten vs) (receive_all vs t)
unfolding receive_all
receive_all_from-HasLines text [] t e h = rw (append-nil text) h
receive_all_from-HasLines text (v ∷ vs) t e h =
    let before = receive_all-running (v ∷ vs) t e in
    let now = on_value-HasLines text v t before h in
    subst (λ us. HasLines us (receive_all vs (on_value v t))) (append_assoc text v (flatten vs))
      (receive_all_from-HasLines (text ++ v) vs (on_value v t) e now)

-- As long as the terminal was not closed, the messages that it has passed on, each followed by a newline,
-- and the text that waits for its newline make up the text of the values received, no message contains a
-- newline, and none is left in what waits: the messages are the lines of the text, and do not depend on
-- how the stream was cut into values.
pub receive_all-HasLines :
    (vs : List (List ℕ))
    → (receive_all vs create_terminal_connection).is_aborted ≡ false
    → HasLines (flatten vs) (receive_all vs create_terminal_connection)
unfolding create_terminal_connection joined
receive_all-HasLines vs e =
    receive_all_from-HasLines [] vs create_terminal_connection e
      (record { whole = refl; lines = tt; rest = refl })
