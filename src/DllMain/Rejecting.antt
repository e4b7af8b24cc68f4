-- ===== src/DllMain/Rejecting.antt =====
-- A `DllCanUnloadNow` that refuses.
use modern_sapi_adapter.Base.{
  ℕ, ◌≡◌, inl, inr, refl, Bool, true, false, Bool-cases, some, ◌!=◌, nat_eq, arith,
}
use modern_sapi_adapter.Windows.{s_false}
use modern_sapi_adapter.DllEntry.Admission.{
  DllEntryAdmission, State, try_enter, reopen, begin_closing, end_wait,
}
use modern_sapi_adapter.DllEntry.Leases.{World}
use modern_sapi_adapter.DllMain.{
  Dll, UnloadAnswers, drain_entries, close_entries, resume_logger, reopen_entries, finish_unload,
  unload_logger, dll_can_unload_now,
}

close_entries-open :
    (w : World) (during : World → World)
    → w.admission.state ≡ State.is_open
    → (close_entries w during).1 ≡ false
    → (close_entries w during).0.admission.state ≡ State.is_open
unfolding close_entries drain_entries begin_closing end_wait
close_entries-open w during e h = ground arith

reopened : (d : Dll) → (reopen_entries d).entries.admission.state ≡ State.is_open
unfolding reopen_entries reopen
reopened d = ground arith

finish_unload-reopens :
    (d : Dll) (quiet : Bool) (lock : ℕ)
    → (finish_unload d quiet lock).1 ≡ s_false
    → (finish_unload d quiet lock).0.entries.admission.state ≡ State.is_open
unfolding finish_unload
finish_unload-reopens d false lock h = reopened d
finish_unload-reopens d true lock h = ground (arith, reopened (resume_logger d))

unload_logger-reopens :
    (d : Dll) (closed : Bool) (a : UnloadAnswers)
    → (closed ≡ false → d.entries.admission.state ≡ State.is_open)
    → (unload_logger d closed a).1 ≡ s_false
    → (unload_logger d closed a).0.entries.admission.state ≡ State.is_open
unfolding unload_logger
unload_logger-reopens d false a o h = o refl
unload_logger-reopens d true a o h = finish_unload-reopens _ _ a.lock_after h

can_unload-reopens :
    (d : Dll) (a : UnloadAnswers)
    → d.entries.admission.state ≡ State.is_open
    → (dll_can_unload_now d a).1 ≡ s_false
    → (dll_can_unload_now d a).0.entries.admission.state ≡ State.is_open
unfolding dll_can_unload_now
can_unload-reopens d a e h = elim (Bool-cases (a.lock_before != 0)) [
  | inl locked ↦ rw locked e
  | inr free ↦ rw free (
      unload_logger-reopens _ (close_entries d.entries a.during_drain).1 a
        (close_entries-open d.entries a.during_drain e) (rw free at h))
]

open_admits : (a : DllEntryAdmission) → a.state ≡ State.is_open → (try_enter a).1 ≡ some true
unfolding try_enter
open_admits a e = ground arith

-- When `DllCanUnloadNow` is called with the admission open and refuses, for whatever reason and
-- whatever other threads do during its waits, the admission is open again: calls are admitted.
pub rejected_unload_reopens :
    (d : Dll) (a : UnloadAnswers)
    → d.entries.admission.state ≡ State.is_open
    → (dll_can_unload_now d a).1 ≡ s_false
    → (try_enter (dll_can_unload_now d a).0.entries.admission).1 ≡ some true
rejected_unload_reopens d a e h = open_admits _ (can_unload-reopens d a e h)
