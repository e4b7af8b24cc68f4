-- ===== src/DllMain.antt =====
-- CoreEngine/dllmain.cpp: the entry points of the DLL, over the admission of calls and the logger.
-- What other threads do while an entry point waits is an argument, and so is every reading of
-- `winrt::get_module_lock` and what C++/WinRT answers.
use modern_sapi_adapter.Base.{
  ℕ, Bool, true, false, Option, none, some, ◌∷◌, ◌!=◌, nat_eq, if◌then◌else◌,
}
use modern_sapi_adapter.Windows.{s_ok, s_false, e_pointer, class_e_classnotavailable}
use modern_sapi_adapter.DllEntry.Admission.{
  Closing, refused, drained, waiting, reopen, enter_or_reopen, begin_closing, end_wait, let_go,
}
use modern_sapi_adapter.DllEntry.Leases.{World, remove}
use modern_sapi_adapter.Logger.Sections.{
  AsyncLogger, UnloadEnd, gives_up, waits, has_stopped, begin_unload, end_unload, begin_resume,
  end_resume,
}
use modern_sapi_adapter.Logger.Threads.{LoggerThreads}
pub mod Rejecting
pub mod Unloading
pub mod LateEntry
pub mod Examples

-- `g_dllEntryAdmission` with the leases on it, and the logger of `AsyncLogger::GetInstance`, which
-- is null if it could not be made.
pub record Dll : Type 0 where
  pub entries : World
  pub logger : Option LoggerThreads

-- The readings of the module lock, and what other threads do during the wait of
-- `BeginClosingAndWaitForEntries` and that of `BeginUnloadQuiescence`.
pub record UnloadAnswers : Type 0 where
  pub lock_before : ℕ
  pub lock_after : ℕ
  pub during_drain : World → World
  pub during_quiescence : Dll → Dll

-- `BeginClosingAndWaitForEntries` from the end of its first section on.
unfoldable pub drain_entries : World → Closing → (World → World) → World × Bool
drain_entries w refused during = (w, false)
drain_entries w drained during = (w, true)
drain_entries w waiting during =
    let waited = during w in
    let (ended, result) = end_wait waited.admission in (record waited { admission = ended }, result)

unfoldable pub close_entries : World → (World → World) → World × Bool
close_entries w during =
    let (closing, how) = begin_closing w.admission in
    drain_entries (record w { admission = closing }) how during

abbrev pub has_ended : UnloadEnd → Bool
has_ended (has_stopped thread) = true
has_ended _ = false

abbrev pub with_logger : Dll → LoggerThreads → AsyncLogger → Dll
with_logger d w l = record d { logger = some (record w { logger = l }) }

-- The section of `BeginUnloadQuiescence` after its wait.
unfoldable pub end_quiescence : Dll → Dll × Bool
end_quiescence d = elim d.logger [
  | none ↦ (d, true)
  | some w ↦ let (l, how) = end_unload w.logger in (with_logger d w l, has_ended how)
]

-- `BeginUnloadQuiescence` from the end of its first section on. The join of the thread that has
-- ended changes nothing.
unfoldable pub wait_for_quiescence : Dll → UnloadEnd → (Dll → Dll) → Dll × Bool
wait_for_quiescence d gives_up during = (d, false)
wait_for_quiescence d (has_stopped thread) during = (d, true)
wait_for_quiescence d waits during = end_quiescence (during d)

-- `BeginLoggerUnloadQuiescence`.
unfoldable pub begin_logger_unload_quiescence : Dll → (Dll → Dll) → Dll × Bool
begin_logger_unload_quiescence d during = elim d.logger [
  | none ↦ (d, true)
  | some w ↦
      let (l, how) = begin_unload w.logger in wait_for_quiescence (with_logger d w l) how during
]

-- `ResumeAfterUnloadRejected`, undisturbed.
unfoldable pub resume_after_unload_rejected : AsyncLogger → AsyncLogger
resume_after_unload_rejected l =
    let (l', joining) = begin_resume l in elim joining [ none ↦ l' | some thread ↦ end_resume l' ]

-- `ResumeLoggerAfterUnloadRejected`.
unfoldable pub resume_logger : Dll → Dll
unfolding resume_after_unload_rejected
resume_logger d = elim d.logger [
  | none ↦ d
  | some w ↦ with_logger d w (resume_after_unload_rejected w.logger)
]

-- `g_dllEntryAdmission.Reopen`.
unfoldable pub reopen_entries : Dll → Dll
reopen_entries d = record d {
  entries = record d.entries { admission = reopen d.entries.admission };
}

-- The end of `DllCanUnloadNow`: whether the logger is quiescent, and the second reading of the lock.
unfoldable pub finish_unload : Dll → Bool → ℕ → Dll × ℕ
unfolding resume_logger reopen_entries
finish_unload d false lock_after = (reopen_entries d, s_false)
finish_unload d true lock_after =
    if lock_after != 0 then (reopen_entries (resume_logger d), s_false) else (d, s_ok)

-- `DllCanUnloadNow` from the result of `BeginClosingAndWaitForEntries` on.
unfoldable pub unload_logger : Dll → Bool → UnloadAnswers → Dll × ℕ
unload_logger d false a = (d, s_false)
unload_logger d true a =
    let (d', quiet) = begin_logger_unload_quiescence d a.during_quiescence in
    finish_unload d' quiet a.lock_after

unfoldable pub dll_can_unload_now : Dll → UnloadAnswers → Dll × ℕ
dll_can_unload_now d a =
    let (w, closed) = close_entries d.entries a.during_drain in
    if a.lock_before != 0 then (d, s_false) else unload_logger (record d { entries = w }) closed a

-- The first part of `DllGetClassObject`: its lease is the first of the list.
unfoldable pub enter_class_object : Dll → Dll
enter_class_object d =
    let (a, lease, was_reopened) = enter_or_reopen d.entries.admission in
    let d' = record d { entries = record { admission = a; leases = lease ∷ d.entries.leases } } in
    if was_reopened then resume_logger d' else d'

-- The destructor of the lease at place `i`.
unfoldable pub leave : ℕ → Bool → Dll → Dll
leave i lease d =
    let w = d.entries in
    record d {
      entries = record { admission = let_go w.admission lease; leases = remove i w.leases };
    }

-- `DllGetClassObject`: whether the out-pointer is null, whether the class is the engine's, what
-- making the factory and asking it for the interface answers, and what other threads do before the
-- lease goes; `i` is its place then.
unfoldable pub dll_get_class_object :
    Dll → (null_out is_engine : Bool) → ℕ → (Dll → Dll) → ℕ → Dll × ℕ
unfolding enter_class_object leave
dll_get_class_object d null_out is_engine factory_hr meanwhile i =
    if null_out then (d, e_pointer) else (
      leave i true (meanwhile (enter_class_object d)),
      if is_engine then factory_hr else class_e_classnotavailable,
    )
