-- ===== src/Pointer/Tracker.antt =====
-- AYLink.Web/src/features/screencast/scrcpyPointerIdTracker.ts. The map from source pointers to ids is a
-- function, and a function that changes the tracker returns the new one.
use aylink_extra.Prelude.{ℕ, ◌+◌, Option, none, some, ◌==◌, if◌then◌else◌}

pub record PointerIdTracker : Type 0 where
  pub next_pointer_id : ℕ
  pub pointer_ids : ℕ → Option ℕ

unfoldable pub create_scrcpy_pointer_id_tracker : PointerIdTracker
create_scrcpy_pointer_id_tracker = record { next_pointer_id = 0; pointer_ids = λ source. none }

abbrev pub set_id : (ℕ → Option ℕ) → ℕ → Option ℕ → ℕ → Option ℕ
set_id ids source id other = if source == other then id else ids other

unfoldable pub get_or_create : ℕ → PointerIdTracker → PointerIdTracker × ℕ
get_or_create source t = elim (t.pointer_ids source) [
  | some existing ↦ (t, existing)
  | none ↦ (
    record {
      next_pointer_id = t.next_pointer_id + 1;
      pointer_ids = set_id t.pointer_ids source (some t.next_pointer_id);
    },
    t.next_pointer_id,
  )
]

unfoldable pub get_id : ℕ → PointerIdTracker → Option ℕ
get_id source t = t.pointer_ids source

unfoldable pub release : ℕ → PointerIdTracker → PointerIdTracker
release source t = record t { pointer_ids = set_id t.pointer_ids source none }

unfoldable pub clear : PointerIdTracker → PointerIdTracker
clear t = record t { pointer_ids = λ source. none }

unfoldable pub reset : PointerIdTracker → PointerIdTracker
reset t = record { next_pointer_id = 0; pointer_ids = λ source. none }
