-- ===== src/Transport/Loop.antt =====
-- The end of the upload loop of AYLink.Web/src/features/deviceTransport/channel.ts.
use aylink_extra.Prelude.{
  zero, suc, ℕ, ◌≡◌, refl, arith, true, false, Option, length, Bool-cases, ap, ◌∙◌, suc, inl, inr,
}
use aylink_extra.Transport.Channel.{Channel}
use aylink_extra.Transport.Sender.{can_send, send_chunks, resume, check_open, send_chunk}
use aylink_extra.Transport.Upload.{IsLive, IsSentFrom, send_chunks-IsSentFrom, length-drop}

module _ (total : Option ℕ) where
  stuck : (c d : Channel) → IsSentFrom c d → can_send total d ≡ false
  unfolding can_send
  stuck c d h = ground (arith, h.credit, ap length h.rest, length-drop c.credit c.pending)

  send_chunks-is_open : (fuel : ℕ) (c : Channel) → (send_chunks total fuel c).is_open ≡ c.is_open
  unfolding send_chunks send_chunk
  send_chunks-is_open zero c = refl
  send_chunks-is_open (suc fuel) c = elim (Bool-cases (can_send total c)) [
    | inl e ↦ rw e (send_chunks-is_open fuel (send_chunk total c))
    | inr e ↦ rw e refl
  ]

  check_open_idle : (c : Channel) → c.is_open ≡ true → check_open total c ≡ c
  check_open_idle c e = rw e refl

  -- On an open channel where neither side has ended, the upload loop over a value stops with nothing left
  -- that it may send: it has sent exactly the first bytes of the value that the credit allowed, in their
  -- order, took them off the credit and counted them, and the rest of the value is pending.
  pub resume-IsSentFrom :
      (c : Channel)
      → IsLive c
      → IsSentFrom c (resume total c) × (can_send total (resume total c) ≡ false)
  unfolding resume
  resume-IsSentFrom c live =
      let d = send_chunks total (length c.pending) c in
      let h = send_chunks-IsSentFrom total (length c.pending) c live (omega arith) in
      let e = check_open_idle d (send_chunks-is_open (length c.pending) c ∙ live.opened) in
      rw (e) (h, stuck c d h)
