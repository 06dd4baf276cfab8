-- ===== src/Pointer/Tests.antt =====
-- Runs of the pointer ids at concrete inputs.
use aylink_extra.Prelude.{List, [], ◌∷◌}
use aylink_extra.Pointer.Tracker.{create_scrcpy_pointer_id_tracker}
use aylink_extra.Pointer.Distinct.{
  Call, created, released, IsTracked, perform_all, perform_all-IsTracked,
}

abbrev calls : List Call
calls = created 5 ∷ created 9 ∷ released 5 ∷ created 7 ∷ []

perform_all-IsTracked_example : IsTracked (perform_all calls create_scrcpy_pointer_id_tracker)
perform_all-IsTracked_example = perform_all-IsTracked calls
