-- ===== src/Services/LatestRequest.antt =====
-- AYLink.Web/src/lib/async/latestRequest.ts. An abort controller is the id of the request that it was
-- created for, and `aborted` tells which signals were aborted.
use aylink_extra.Prelude.{
  ℕ, ◌+◌, ◌≤◌, ◌<◌, ◌≡◌, ◌⊎◌, refl, arith, List, [], ◌∷◌, Bool, true, false, ◌==◌, if◌then◌else◌,
  Option, none, some,
}

pub record LatestRequestController : Type 0 where
  pub current_request_id : ℕ
  pub current_controller : Option ℕ
  pub aborted : ℕ → Bool

unfoldable pub create_latest_request_controller : LatestRequestController
create_latest_request_controller = record {
  current_request_id = 0;
  current_controller = none;
  aborted = λ id. false;
}

-- `controller?.abort()`
abbrev pub abort : Option ℕ → (ℕ → Bool) → ℕ → Bool
abort none aborted id = aborted id
abort (some controller) aborted id = if controller == id then true else aborted id

-- The handle is the request's id, which also names its signal.
unfoldable pub begin : LatestRequestController → LatestRequestController × ℕ
begin c =
    let id = c.current_request_id + 1 in
    (
      record {
        current_request_id = id;
        aborted = abort c.current_controller c.aborted;
        current_controller = some id;
      },
      id,
    )

unfoldable pub is_latest : LatestRequestController → ℕ → Bool
is_latest c request_id = request_id == c.current_request_id

unfoldable pub finalize : ℕ → LatestRequestController → LatestRequestController
finalize request_id c =
    if request_id == c.current_request_id then record c { current_controller = none } else c

unfoldable pub cancel : LatestRequestController → LatestRequestController
cancel c = record c { aborted = abort c.current_controller c.aborted; current_controller = none }

pub data Call : Type 0 where
  begun cancelled : Call
  finalized : ℕ → Call

abbrev pub perform : Call → LatestRequestController → LatestRequestController
perform begun c = (begin c).0
perform cancelled c = cancel c
perform (finalized id) c = finalize id c

-- The controller after some calls, the latest first.
unfoldable pub after : List Call → LatestRequestController
after [] = create_latest_request_controller
after (k ∷ ks) = perform k (after ks)

-- The request was finalized while it was the latest.
abbrev pub HasFinalized : ℕ → List Call → Type 0
HasFinalized id [] = ⊥
HasFinalized id (finalized j ∷ ks) =
    ((j ≡ id) × (id ≡ (after ks).current_request_id)) ⊎ HasFinalized id ks
HasFinalized id (begun ∷ ks) = HasFinalized id ks
HasFinalized id (cancelled ∷ ks) = HasFinalized id ks

record IsExclusive (ks : List Call) : Type 0 where
  held : (id : ℕ) → (after ks).current_controller ≡ some id → id ≡ (after ks).current_request_id
  settled :
      (id : ℕ)
      → 0 < id
      → id ≤ (after ks).current_request_id
      → ((after ks).current_controller ≡ some id)
        ⊎ (((after ks).aborted id ≡ true) ⊎ HasFinalized id ks)
  unborn : (id : ℕ) → (after ks).current_request_id < id → (after ks).aborted id ≡ false

after-IsExclusive : (ks : List Call) → IsExclusive ks
unfolding after begin cancel finalize create_latest_request_controller
after-IsExclusive [] = record {
  held = λ id e. ground arith;
  settled = λ id p q. ground arith;
  unborn = λ id p. refl;
}
after-IsExclusive (begun ∷ ks) =
    let h = after-IsExclusive ks in
    record {
      held = λ id e. ground arith;
      settled = λ id p q. ground (arith, h.settled id, h.held id);
      unborn = λ id p. ground (arith, h.unborn id, h.held id);
    }
after-IsExclusive (cancelled ∷ ks) =
    let h = after-IsExclusive ks in
    record {
      held = λ id e. ground arith;
      settled = λ id p q. ground (arith, h.settled id, h.held id);
      unborn = λ id p. ground (arith, h.unborn id, h.held id);
    }
after-IsExclusive (finalized j ∷ ks) =
    let h = after-IsExclusive ks in
    record {
      held = λ id e. ground (arith, h.held id);
      settled = λ id p q. ground (arith, h.settled id, h.held id);
      unborn = λ id p. ground (arith, h.unborn id);
    }

-- After any calls (the latest first), a request that was begun and is not the latest one is not
-- answered to be the latest, and its signal was aborted, unless the request was finalized while it
-- was the latest.
pub superseded_is_aborted :
    (ks : List Call) (id : ℕ)
    → 0 < id
    → id < (after ks).current_request_id
    → (is_latest (after ks) id ≡ false) × (((after ks).aborted id ≡ true) ⊎ HasFinalized id ks)
unfolding is_latest
superseded_is_aborted ks id p q =
    let h = after-IsExclusive ks in (ground arith, ground (arith, h.settled id, h.held id))
