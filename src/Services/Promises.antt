-- ===== src/Services/Promises.antt =====
-- The promises of AYLink.Web/src/services/dialog.ts, over every sequence of calls.
use mathlib.Core.List.{append-nil}
use aylink_extra.Prelude.{
  ℕ, zero, suc, ◌+◌, ◌<◌, ◌≡◌, refl, sym, ◌∙◌, ap, arith, List, [], ◌∷◌, ◌++◌, Option, none, some,
}
use aylink_extra.Services.Dialog.{
  DialogContent, DialogRequest, Answer, DialogService, settle, dismissal, open_dialog,
  resolve_dialog, new_dialog_service,
}

-- The numbers from 1 to `next` - 1.
unfoldable pub issued : ℕ → List ℕ
issued zero = []
issued (suc zero) = []
issued (suc (suc n)) = issued (suc n) ++ suc n ∷ []

issued-add_one : (next : ℕ) → 0 < next → issued (next + 1) ≡ issued next ++ next ∷ []
unfolding issued
issued-add_one zero h = absurd (omega arith)
issued-add_one (suc n) h = let p : suc n + 1 ≡ suc (suc n) = omega arith in rw p

abbrev pub pending_list : Option ℕ → List ℕ
pending_list none = []
pending_list (some id) = id ∷ []

abbrev pub shown_id : Option DialogRequest → Option ℕ
shown_id none = none
shown_id (some d) = some d.id

module _ {R : Type 0} where
  abbrev pub settled_ids : List (ℕ × Answer R) → List ℕ
  settled_ids [] = []
  settled_ids (p ∷ ps) = p.0 ∷ settled_ids ps

  settled_ids-append :
      (ps qs : List (ℕ × Answer R)) → settled_ids (ps ++ qs) ≡ settled_ids ps ++ settled_ids qs
  settled_ids-append [] qs = refl
  settled_ids-append (p ∷ ps) qs = ap (λ (t : List ℕ). p.0 ∷ t) (settled_ids-append ps qs)

  settled_ids-settle :
      (pending : Option ℕ) (answer : Answer R) (ps : List (ℕ × Answer R))
      → settled_ids (settle pending answer ps) ≡ settled_ids ps ++ pending_list pending
  settled_ids-settle none answer ps = rw append-nil
  settled_ids-settle (some id) answer ps = settled_ids-append ps ((id, answer) ∷ [])

  -- The promises that were resolved are, in order and each once, all that were handed out but the
  -- pending one, which is that of the dialog shown.
  pub record IsSettled (s : DialogService R) : Type 0 where
    pub in_order :
        settled_ids s.settled ++ pending_list s.pending_resolver ≡ issued s.next_dialog_id
    pub shown : shown_id s.current_dialog ≡ s.pending_resolver
    pub counted : 0 < s.next_dialog_id

  open_dialog-IsSettled :
      (content : DialogContent) (s : DialogService R)
      → IsSettled s
      → IsSettled (open_dialog content s).0
  unfolding open_dialog
  open_dialog-IsSettled content s h = record {
    in_order =
        ap (λ (t : List ℕ). t ++ s.next_dialog_id ∷ [])
          (settled_ids-settle s.pending_resolver (dismissal s.current_dialog) s.settled
            ∙ h.in_order)
        ∙ sym (issued-add_one s.next_dialog_id h.counted);
    shown = refl;
    counted = omega arith;
  }

  resolve_dialog_lem :
      (answer : Answer R) (s : DialogService R)
      → resolve_dialog answer s ≡ record s {
        pending_resolver = none;
        current_dialog = none;
        settled = settle s.pending_resolver answer s.settled;
      }
  unfolding resolve_dialog
  resolve_dialog_lem answer s = ground arith

  resolve_dialog-IsSettled :
      (answer : Answer R) (s : DialogService R) → IsSettled s → IsSettled (resolve_dialog answer s)
  resolve_dialog-IsSettled answer s h = rw (resolve_dialog_lem answer s) (record {
    in_order = append-nil _ ∙ settled_ids-settle s.pending_resolver answer s.settled ∙ h.in_order;
    shown = refl;
    counted = h.counted;
  })

-- A call of the service: a dialog is opened, or the dialog host answers.
pub data Call (R : Type 0) : Type 0 where
  opened : DialogContent → Call R
  answered : Answer R → Call R

module _ {R : Type 0} where
  abbrev pub perform : Call R → DialogService R → DialogService R
  perform (opened content) s = (open_dialog content s).0
  perform (answered answer) s = resolve_dialog answer s

  unfoldable pub perform_all : List (Call R) → DialogService R → DialogService R
  perform_all [] s = s
  perform_all (c ∷ cs) s = perform_all cs (perform c s)

  perform-IsSettled : (c : Call R) (s : DialogService R) → IsSettled s → IsSettled (perform c s)
  perform-IsSettled (opened content) s h = open_dialog-IsSettled content s h
  perform-IsSettled (answered answer) s h = resolve_dialog-IsSettled answer s h

  perform_all-keeps-IsSettled :
      (cs : List (Call R)) (s : DialogService R) → IsSettled s → IsSettled (perform_all cs s)
  unfolding perform_all
  perform_all-keeps-IsSettled [] s h = h
  perform_all-keeps-IsSettled (c ∷ cs) s h =
      perform_all-keeps-IsSettled cs (perform c s) (perform-IsSettled c s h)

new_dialog_service-IsSettled : (R : Type 0) → IsSettled (new_dialog_service R)
unfolding new_dialog_service issued
new_dialog_service-IsSettled R = record { in_order = refl; shown = refl; counted = omega arith }

-- After any calls that open dialogs and answer them, the promises resolved so far are, in order and
-- each once, all that were handed out but the pending one, and the pending one is that of the dialog
-- shown: none is lost, and none is resolved twice.
pub perform_all-IsSettled :
    {R : Type 0} (cs : List (Call R)) → IsSettled (perform_all cs (new_dialog_service R))
perform_all-IsSettled {R} cs =
    perform_all-keeps-IsSettled cs (new_dialog_service R) (new_dialog_service-IsSettled R)
