-- ===== src/DllEntry/Examples.antt =====
-- Two entries, one of them moved, and a close that waits for them.
use modern_sapi_adapter.Base.{◌≡◌, refl, true, false, [], ◌∷◌, some, arith}
use modern_sapi_adapter.DllEntry.Admission.{
  DllEntryAdmission, State, new_admission, enter, try_enter, enter_or_reopen, end_wait,
}
use modern_sapi_adapter.DllEntry.Leases.{
  World, new_world, lease_at, set, enters, move_constructs, Reach, here, next, IsCounted,
}
use modern_sapi_adapter.DllEntry.Counting.{reachable-IsCounted}
use modern_sapi_adapter.DllEntry.Closing.{releases, reopened_wait_succeeds}

abbrev entered : World
entered = record {
  admission = record { state = State.is_open; entry_count = 1; notifications = 0 };
  leases = true ∷ [];
}

abbrev moved : World
moved = record entered { leases = true ∷ false ∷ [] }

moved-Reach : Reach new_world moved
unfolding new_admission try_enter enter lease_at set
moved-Reach =
    next (next here (enters true (omega arith) refl refl))
      (move_constructs 0 true (omega arith) refl refl)

reachable-IsCounted_example : IsCounted moved
reachable-IsCounted_example = reachable-IsCounted moved-Reach

abbrev closing : DllEntryAdmission
closing = record { state = State.is_closing; entry_count = 2; notifications = 0 }

reopened_wait_succeeds_example :
    let a' = releases 3 (enter_or_reopen closing).0 in
    ((end_wait a').1 ≡ true) × ((try_enter (end_wait a').0).1 ≡ some true)
reopened_wait_succeeds_example = reopened_wait_succeeds closing 2 refl refl (omega arith)
