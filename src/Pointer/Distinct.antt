-- ===== src/Pointer/Distinct.antt =====
-- The ids of AYLink.Web/src/features/screencast/scrcpyPointerIdTracker.ts over every sequence of calls.
use aylink_extra.Prelude.{ℕ, ◌<◌, ◌≡◌, arith, List, [], ◌∷◌, some}
use aylink_extra.Pointer.Tracker.{
  PointerIdTracker, create_scrcpy_pointer_id_tracker, get_or_create, get_id, release, clear, reset,
}

-- Ids lie below the next one, and two pointers with the same id are the same pointer.
pub record IsTracked (t : PointerIdTracker) : Type 0 where
  pub below : (source id : ℕ) → get_id source t ≡ some id → id < t.next_pointer_id
  pub distinct :
      (source other id : ℕ) → get_id source t ≡ some id → get_id other t ≡ some id → source ≡ other

-- A call of one of the functions that change the tracker.
pub data Call : Type 0 where
  created released : (source : ℕ) → Call
  cleared was_reset : Call

abbrev pub perform : Call → PointerIdTracker → PointerIdTracker
perform (created source) t = (get_or_create source t).0
perform (released source) t = release source t
perform cleared t = clear t
perform was_reset t = reset t

unfoldable pub perform_all : List Call → PointerIdTracker → PointerIdTracker
perform_all [] t = t
perform_all (c ∷ cs) t = perform_all cs (perform c t)

perform-IsTracked : (c : Call) (t : PointerIdTracker) → IsTracked t → IsTracked (perform c t)
unfolding get_or_create get_id release clear reset
perform-IsTracked (created source) t h = record {
  below = λ j id e. ground (arith, h.below j id);
  distinct = λ j k id e f. ground (arith, h.distinct j k id, h.below j id, h.below k id);
}
perform-IsTracked (released source) t h = record {
  below = λ j id e. ground (arith, h.below j id);
  distinct = λ j k id e f. ground (arith, h.distinct j k id);
}
perform-IsTracked cleared t h = ground arith
perform-IsTracked was_reset t h = ground arith

perform_all-keeps-IsTracked :
    (cs : List Call) (t : PointerIdTracker) → IsTracked t → IsTracked (perform_all cs t)
unfolding perform_all
perform_all-keeps-IsTracked [] t h = h
perform_all-keeps-IsTracked (c ∷ cs) t h =
    perform_all-keeps-IsTracked cs (perform c t) (perform-IsTracked c t h)

create_scrcpy_pointer_id_tracker-IsTracked : IsTracked create_scrcpy_pointer_id_tracker
unfolding create_scrcpy_pointer_id_tracker get_id
create_scrcpy_pointer_id_tracker-IsTracked = record {
  below = λ j id e. ground arith;
  distinct = λ j k id e f. ground arith;
}

-- After any calls no two pointers have the same id, and every id lies below the next one to be given:
-- an id in use is never given to another pointer.
pub perform_all-IsTracked :
    (cs : List Call) → IsTracked (perform_all cs create_scrcpy_pointer_id_tracker)
perform_all-IsTracked cs =
    perform_all-keeps-IsTracked cs create_scrcpy_pointer_id_tracker
      create_scrcpy_pointer_id_tracker-IsTracked
