-- ===== src/Services/Dialog.antt =====
-- AYLink.Web/src/services/dialog.ts. The module's variables are a record. The promise that a call of
-- openDialog returns goes by the dialog's id: a resolver is the id of its promise, and `settled` lists
-- the promises that were resolved, in order, with what they were given.
use aylink_extra.Prelude.{
  ℕ, ◌+◌, List, [], ◌∷◌, ◌++◌, Bool, true, false, if◌then◌else◌, Option, none, some,
}
use aylink_extra.Prelude.Text.{String}

pub data DialogKind : Type 0 where
  alert confirm prompt : DialogKind

pub record DialogContent : Type 0 where
  pub kind : DialogKind
  pub title : String
  pub message : String
  pub confirm_text : Option String
  pub cancel_text : Option String
  pub value : Option String
  pub placeholder : Option String

pub record DialogRequest : Type 0 where
  pub id : ℕ
  pub content : DialogContent

-- What a promise is resolved with: null, false, or the result given by the user.
pub data Answer (R : Type 0) : Type 0 where
  null_answer false_answer : Answer R
  given : R → Answer R

pub record DialogService (R : Type 0) : Type 0 where
  pub current_dialog : Option DialogRequest
  pub next_dialog_id : ℕ
  pub pending_resolver : Option ℕ
  pub settled : List (ℕ × Answer R)

abbrev pub is_prompt : Option DialogRequest → Bool
is_prompt none = false
is_prompt (some d) = elim d.content.kind [ prompt ↦ true | _ ↦ false ]

module _ {R : Type 0} where
  abbrev pub settle : Option ℕ → Answer R → List (ℕ × Answer R) → List (ℕ × Answer R)
  settle none answer settled = settled
  settle (some id) answer settled = settled ++ (id, answer) ∷ []

  abbrev pub dismissal : Option DialogRequest → Answer R
  dismissal dialog = if is_prompt dialog then null_answer else false_answer

  -- Returns the id of the promise.
  unfoldable pub open_dialog : DialogContent → DialogService R → DialogService R × ℕ
  open_dialog content s =
      let id = s.next_dialog_id in
      (
        record s {
          settled = settle s.pending_resolver (dismissal s.current_dialog) s.settled;
          next_dialog_id = id + 1;
          current_dialog = some (record { id = id; content = content });
          pending_resolver = some id;
        },
        id,
      )

  unfoldable pub resolve_dialog : Answer R → DialogService R → DialogService R
  resolve_dialog answer s = elim s.pending_resolver [
    | none ↦ record s { current_dialog = none }
    | some id ↦ record s {
      pending_resolver = none;
      current_dialog = none;
      settled = s.settled ++ (id, answer) ∷ [];
    }
  ]

  unfoldable pub open_alert :
      String → String → Option String → DialogService R → DialogService R × ℕ
  unfolding open_dialog
  open_alert title message confirm_text s =
      open_dialog
        (record {
          kind = alert;
          title = title;
          message = message;
          confirm_text = confirm_text;
          cancel_text = none;
          value = none;
          placeholder = none;
        })
        s

  unfoldable pub open_confirm :
      String → String → Option String → Option String → DialogService R → DialogService R × ℕ
  unfolding open_dialog
  open_confirm title message confirm_text cancel_text s =
      open_dialog
        (record {
          kind = confirm;
          title = title;
          message = message;
          confirm_text = confirm_text;
          cancel_text = cancel_text;
          value = none;
          placeholder = none;
        })
        s

  unfoldable pub open_prompt :
      String
      → String
      → String
      → Option String
      → Option String
      → Option String
      → DialogService R
      → DialogService R × ℕ
  unfolding open_dialog
  open_prompt title message value placeholder confirm_text cancel_text s =
      open_dialog
        (record {
          kind = prompt;
          title = title;
          message = message;
          confirm_text = confirm_text;
          cancel_text = cancel_text;
          value = some value;
          placeholder = placeholder;
        })
        s

unfoldable pub new_dialog_service : (R : Type 0) → DialogService R
new_dialog_service R = record {
  current_dialog = none;
  next_dialog_id = 1;
  pending_resolver = none;
  settled = [];
}
