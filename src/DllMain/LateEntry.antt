-- ===== src/DllMain/LateEntry.antt =====
-- A `DllGetClassObject` during the wait for the logger.
use modern_sapi_adapter.Base.{suc, ◌≡◌, refl, ap, ◌∙◌, true, some, nat_eq, if_keeps, arith}
use modern_sapi_adapter.Windows.{s_ok}
use modern_sapi_adapter.DllEntry.Admission.{State, enter, reopen, enter_or_reopen, begin_closing}
use modern_sapi_adapter.DllEntry.Leases.{World, held}
use modern_sapi_adapter.Logger.Sections.{
  AsyncLogger, stopped, running, waits, begin_unload, end_unload, begin_resume, end_resume,
}
use modern_sapi_adapter.Logger.Threads.{LoggerThreads}
use modern_sapi_adapter.DllMain.{
  Dll, UnloadAnswers, drain_entries, close_entries, with_logger, end_quiescence,
  wait_for_quiescence, begin_logger_unload_quiescence, resume_after_unload_rejected, resume_logger,
  finish_unload, unload_logger, dll_can_unload_now, enter_class_object,
}

-- What a late entry does: the admission is open again with one lease more, and a stopped logger
-- stays stopped.
enter-open :
    (d : Dll)
    → ((enter_class_object d).entries.admission.state ≡ State.is_open)
      × (held (enter_class_object d).entries.leases ≡ suc (held d.entries.leases))
unfolding enter_class_object enter_or_reopen enter reopen held resume_logger
enter-open d = ground arith

resume-stopped :
    (l : AsyncLogger) → l.state ≡ stopped → (resume_after_unload_rejected l).state ≡ stopped
unfolding resume_after_unload_rejected begin_resume end_resume
resume-stopped l e = ground arith

Stopped : Dll → Type 0
Stopped d = (v : LoggerThreads) × (d.logger ≡ some v) × (v.logger.state ≡ stopped)

resume_logger-Stopped : (d : Dll) → Stopped d → Stopped (resume_logger d)
unfolding Stopped resume_logger
resume_logger-Stopped d (v, e, q) = (
  record v { logger = resume_after_unload_rejected v.logger },
  ground (arith, e),
  resume-stopped v.logger q,
)

enter-Stopped : (d : Dll) → Stopped d → Stopped (enter_class_object d)
unfolding enter_class_object Stopped
enter-Stopped d s =
    if_keeps Stopped (enter_or_reopen d.entries.admission).2 (resume_logger-Stopped _ s) s

end_quiescence-ok :
    (d : Dll)
    → Stopped d
    → ((end_quiescence d).1 ≡ true) × ((end_quiescence d).0.entries ≡ d.entries)
unfolding end_quiescence end_unload Stopped
end_quiescence-ok d (v, e, q) = ground (arith, e, q)

closes_empty :
    (x : World) (during : World → World)
    → x.admission.state ≡ State.is_open
    → x.admission.entry_count ≡ 0
    → ((close_entries x during).1 ≡ true) × ((close_entries x during).0.leases ≡ x.leases)
unfolding close_entries drain_entries begin_closing
closes_empty x during e q = ground arith

begin_running : (l : AsyncLogger) → l.state ≡ running → (begin_unload l).1 ≡ waits
unfolding begin_unload
begin_running l e = ground arith

-- `DllCanUnloadNow` does not look at the admission again after the wait for the logger: when that
-- wait ends with the logger stopped by its worker, and a `DllGetClassObject` has entered before the
-- caller goes on, the result is S_OK although the admission is open and one more lease holds the DLL.
pub late_entry_unloads :
    (d : Dll) (w v : LoggerThreads) (a : UnloadAnswers)
    → d.entries.admission.state ≡ State.is_open
    → d.entries.admission.entry_count ≡ 0
    → a.lock_before ≡ 0
    → a.lock_after ≡ 0
    → d.logger ≡ some w
    → w.logger.state ≡ running
    → v.logger.state ≡ stopped
    → ((x : Dll) → a.during_quiescence x ≡ enter_class_object (record x { logger = some v }))
    → ((dll_can_unload_now d a).1 ≡ s_ok)
      × ((dll_can_unload_now d a).0.entries.admission.state ≡ State.is_open)
      × (held (dll_can_unload_now d a).0.entries.leases ≡ suc (held d.entries.leases))
unfolding dll_can_unload_now unload_logger begin_logger_unload_quiescence wait_for_quiescence
    finish_unload Stopped
late_entry_unloads d w v a o n before after e runs ends meanwhile =
    let (closed, same) = closes_empty d.entries a.during_drain o n in
    let x : Dll =
      with_logger (record d { entries = (close_entries d.entries a.during_drain).0 }) w
        (begin_unload w.logger).0 in
    let y : Dll = enter_class_object (record x { logger = some v }) in
    let (quiet, kept) =
      end_quiescence-ok y (enter-Stopped (record x { logger = some v }) (v, refl, ends)) in
    let (is_open, one_more) = enter-open (record x { logger = some v }) in
    rw (before, closed, e, begin_running w.logger runs, meanwhile x, quiet, after)
      (
        refl,
        ap (λ (q : World). q.admission.state) kept ∙ is_open,
        ap (λ (q : World). held q.leases) kept ∙ one_more ∙ ap (λ ls. suc (held ls)) same,
      )
