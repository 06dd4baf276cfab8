-- ===== src/Transport/Upload.antt =====
-- The upload loop of AYLink.Web/src/features/deviceTransport/channel.ts against its purpose: to send as
-- much of the value as there is credit for.
use aylink_extra.Prelude.{
  ℕ, zero, suc, ◌+◌, ◌-◌, ◌≤◌, ◌<◌, ◌≡◌, ◌⊎◌, inl, inr, refl, ap, sym, ◌∙◌, arith, List, [], ◌∷◌,
  ◌++◌, true, false, Option, min, length, take, drop, append_assoc, append-nil, Bool-cases,
}
use aylink_extra.Transport.Channel.{Channel, chunk_sent, rtc_chunk_bytes}
use aylink_extra.Transport.Sender.{send_chunk, can_send, send_chunks}
use aylink_extra.Transport.Runs.{uploaded, uploaded-append}

module _ {A : Type 0} where
  pub length-drop : (n : ℕ) (xs : List A) → length (drop n xs) ≡ length xs - n
  length-drop zero xs = omega arith
  length-drop (suc n) [] = omega arith
  length-drop (suc n) (x ∷ xs) = omega (arith, length-drop n xs)

  length-take : (n : ℕ) (xs : List A) → length (take n xs) ≡ min n (length xs)
  length-take zero xs = omega arith
  length-take (suc n) [] = omega arith
  length-take (suc n) (x ∷ xs) = omega (arith, length-take n xs)

  take-nil : (n : ℕ) → ◌≡◌ {A = List A} (take n []) []
  take-nil zero = refl
  take-nil (suc n) = refl

  drop-nil : (n : ℕ) → ◌≡◌ {A = List A} (drop n []) []
  drop-nil zero = refl
  drop-nil (suc n) = refl

  take-suc : (n m : ℕ) (x : A) (xs : List A) → take (suc n + m) (x ∷ xs) ≡ x ∷ take (n + m) xs
  take-suc n m x xs = ap (λ k. take k (x ∷ xs)) (let e : suc n + m ≡ suc (n + m) = omega arith in e)

  drop-suc : (n m : ℕ) (x : A) (xs : List A) → drop (suc n + m) (x ∷ xs) ≡ drop (n + m) xs
  drop-suc n m x xs = ap (λ k. drop k (x ∷ xs)) (let e : suc n + m ≡ suc (n + m) = omega arith in e)

  take-drop : (n m : ℕ) (xs : List A) → take n xs ++ take m (drop n xs) ≡ take (n + m) xs
  take-drop zero m xs = ap (λ k. take k xs) (omega arith)
  take-drop (suc n) m [] = take-nil m ∙ sym (take-nil (suc n + m))
  take-drop (suc n) m (x ∷ xs) = ap (λ ys. x ∷ ys) (take-drop n m xs) ∙ sym (take-suc n m x xs)

  drop-drop : (n m : ℕ) (xs : List A) → drop m (drop n xs) ≡ drop (n + m) xs
  drop-drop zero m xs = ap (λ k. drop k xs) (omega arith)
  drop-drop (suc n) m [] = drop-nil m ∙ sym (drop-nil (suc n + m))
  drop-drop (suc n) m (x ∷ xs) = drop-drop n m xs ∙ sym (drop-suc n m x xs)

  take-all : (n : ℕ) (xs : List A) → length xs ≤ n → take n xs ≡ xs
  take-all zero [] h = refl
  take-all zero (x ∷ xs) h = absurd (omega arith)
  take-all (suc n) [] h = refl
  take-all (suc n) (x ∷ xs) h = ap (λ ys. x ∷ ys) (take-all n xs (omega arith))

  drop-all : (n : ℕ) (xs : List A) → length xs ≤ n → drop n xs ≡ []
  drop-all zero [] h = refl
  drop-all zero (x ∷ xs) h = absurd (omega arith)
  drop-all (suc n) [] h = refl
  drop-all (suc n) (x ∷ xs) h = drop-all n xs (omega arith)

nil_lem : {A : Type 0} → (xs : List A) → length xs ≡ 0 → xs ≡ []
nil_lem [] e = refl
nil_lem (x ∷ xs) e = absurd (omega arith)

-- The sender may send: the channel is open and neither side is done.
pub record IsLive (c : Channel) : Type 0 where
  pub opened : c.is_open ≡ true
  pub not_ended : c.ended ≡ false
  pub not_finished : c.finished ≡ false

-- `d` is what sending the first bytes that the credit of `c` allows leaves.
pub record IsSentFrom (c d : Channel) : Type 0 where
  pub bytes : uploaded d.sent ≡ uploaded c.sent ++ take c.credit c.pending
  pub rest : d.pending ≡ drop c.credit c.pending
  pub credit : d.credit ≡ c.credit - length c.pending
  pub loaded : d.loaded ≡ c.loaded + min c.credit (length c.pending)

nothing_sent : (c : Channel) → (c.credit ≡ 0) ⊎ (length c.pending ≡ 0) → IsSentFrom c c
nothing_sent c (inl e) = record {
  bytes = sym (rw e (append-nil (uploaded c.sent)));
  rest = rw e refl;
  credit = ground arith;
  loaded = ground arith;
}
nothing_sent c (inr e) = record {
  bytes = sym (
      ap (λ xs. uploaded c.sent ++ xs)
        (take-all c.credit c.pending (omega arith) ∙ nil_lem c.pending e)
      ∙ append-nil (uploaded c.sent));
  rest = nil_lem c.pending e ∙ sym (drop-all c.credit c.pending (omega arith));
  credit = ground arith;
  loaded = ground arith;
}

module _ (total : Option ℕ) where
  abbrev size_of : Channel → ℕ
  size_of c = min (min rtc_chunk_bytes c.credit) (length c.pending)

  uploaded-send_chunk :
      (c : Channel)
      → uploaded (send_chunk total c).sent ≡ uploaded c.sent ++ take (size_of c) c.pending
  unfolding send_chunk uploaded
  uploaded-send_chunk c =
      uploaded-append c.sent (chunk_sent (take (size_of c) c.pending) ∷ [])
      ∙ ap (λ xs. uploaded c.sent ++ xs) (append-nil (take (size_of c) c.pending))

  one_more : (c d : Channel) → IsSentFrom (send_chunk total c) d → IsSentFrom c d
  unfolding send_chunk
  one_more c d h =
      let e : size_of c + (c.credit - size_of c) ≡ c.credit = omega arith in
      record {
        bytes =
            h.bytes
            ∙ (ap (λ xs. xs ++ take (c.credit - size_of c) (drop (size_of c) c.pending))
                  (uploaded-send_chunk c)
                ∙ (append_assoc (uploaded c.sent) (take (size_of c) c.pending)
                      (take (c.credit - size_of c) (drop (size_of c) c.pending))
                    ∙ ap (λ xs. uploaded c.sent ++ xs)
                        (take-drop (size_of c) (c.credit - size_of c) c.pending
                          ∙ ap (λ k. take k c.pending) e)));
        rest =
            h.rest
            ∙ (drop-drop (size_of c) (c.credit - size_of c) c.pending
                ∙ ap (λ k. drop k c.pending) e);
        credit = omega (arith, h.credit, length-drop (size_of c) c.pending);
        loaded = omega (arith, h.loaded, length-drop (size_of c) c.pending);
      }

  shorter :
      (fuel : ℕ) (c : Channel)
      → length c.pending ≤ suc fuel
      → (0 < c.credit) × (0 < length c.pending)
      → length (send_chunk total c).pending ≤ fuel
  unfolding send_chunk
  shorter fuel c h p = omega (arith, length-drop (size_of c) c.pending, p.0, p.1)

  send_chunk-IsLive : (c : Channel) → IsLive c → IsLive (send_chunk total c)
  unfolding send_chunk
  send_chunk-IsLive c live = record {
    opened = live.opened;
    not_ended = live.not_ended;
    not_finished = live.not_finished;
  }

  can_send-false :
      (c : Channel) → IsLive c → can_send total c ≡ false → (c.credit ≡ 0) ⊎ (length c.pending ≡ 0)
  unfolding can_send
  can_send-false c live e = ground (arith, live.opened, live.not_ended, live.not_finished)

  can_send-true : (c : Channel) → can_send total c ≡ true → (0 < c.credit) × (0 < length c.pending)
  unfolding can_send
  can_send-true c e = ground arith

  -- With fuel for the bytes that are pending, the loop sends exactly the bytes that the credit allows, in
  -- their order, and leaves the others pending.
  pub send_chunks-IsSentFrom :
      (fuel : ℕ) (c : Channel)
      → IsLive c
      → length c.pending ≤ fuel
      → IsSentFrom c (send_chunks total fuel c)
  unfolding send_chunks
  send_chunks-IsSentFrom zero c live h = nothing_sent c (inr (omega arith))
  send_chunks-IsSentFrom (suc fuel) c live h = elim (Bool-cases (can_send total c)) [
    | inl e ↦ rw e (
        one_more c _ (
          send_chunks-IsSentFrom fuel (send_chunk total c) (send_chunk-IsLive c live)
            (shorter fuel c h (can_send-true c e))))
    | inr e ↦ rw e (nothing_sent c (can_send-false c live e))
  ]
