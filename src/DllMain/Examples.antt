-- ===== src/DllMain/Examples.antt =====
-- Unloading after the two messages of `Logger.Examples`.
use modern_sapi_adapter.Base.{ℕ, suc, ◌≡◌, refl, some, true, false}
use modern_sapi_adapter.Windows.{s_ok}
use modern_sapi_adapter.DllEntry.Admission.{
  State, new_admission, try_enter, begin_closing, end_wait,
}
use modern_sapi_adapter.DllEntry.Leases
use modern_sapi_adapter.DllEntry.Leases.{World, new_world, held}
use modern_sapi_adapter.Logger.Sections.{
  new_logger, log_first, log_again, refuses, log_rest, log_start, push, start_locked, begin_unload,
  end_unload, begin_resume, worker_turn, take_message, report_stop, cleanup_file_stream,
}
use modern_sapi_adapter.Logger.Threads
use modern_sapi_adapter.Logger.Threads.{LoggerThreads, new_threads, log_ends, worker_ends}
use modern_sapi_adapter.Logger.Invariant.{is_live}
use modern_sapi_adapter.Logger.Runs.{logged, drained}
use modern_sapi_adapter.DllMain.{
  Dll, UnloadAnswers, drain_entries, close_entries, end_quiescence, wait_for_quiescence,
  begin_logger_unload_quiescence, reopen_entries, resume_logger, resume_after_unload_rejected,
  finish_unload, unload_logger, dll_can_unload_now, enter_class_object,
}
use modern_sapi_adapter.DllMain.Rejecting.{rejected_unload_reopens}
use modern_sapi_adapter.DllMain.Unloading.{RunsThreads, unload_ok}
use modern_sapi_adapter.DllMain.LateEntry.{late_entry_unloads}

-- No lease, and a logger that nobody has used; nothing else happens.
abbrev unused : Dll
unused = record { entries = new_world; logger = some new_threads }

abbrev undisturbed : UnloadAnswers
undisturbed = record {
  lock_before = 0;
  lock_after = 0;
  during_drain = λ x. x;
  during_quiescence = λ x. x;
}

undisturbed-RunsThreads : RunsThreads undisturbed
undisturbed-RunsThreads = record {
  while_draining = λ x. Leases.here;
  while_quiescing = λ x w e. (w, e, Threads.here);
}

unload_ok_example :
    (undisturbed.lock_before ≡ 0)
    × (undisturbed.lock_after ≡ 0)
    × (held (close_entries new_world (λ x. x)).0.leases ≡ 0)
    × (v : LoggerThreads) × ((dll_can_unload_now unused undisturbed).0.logger ≡ some v)
    × (v.delivered ≡ v.accepted)
    × (v.logger.file_open ≡ false)
    × ((t : ℕ) → is_live (v.workers t) ≡ false)
unfolding new_admission new_logger begin_closing end_wait drain_entries close_entries begin_unload
    end_unload end_quiescence wait_for_quiescence begin_logger_unload_quiescence finish_unload
    unload_logger dll_can_unload_now
unload_ok_example =
    unload_ok unused new_threads undisturbed undisturbed-RunsThreads Leases.here refl Threads.here
      refl

-- The second reading finds the module locked.
abbrev locked_late : UnloadAnswers
locked_late = record undisturbed { lock_after = 1 }

rejected_unload_reopens_example :
    (try_enter (dll_can_unload_now unused locked_late).0.entries.admission).1 ≡ some true
unfolding new_admission new_logger begin_closing end_wait drain_entries close_entries begin_unload
    end_unload end_quiescence wait_for_quiescence begin_logger_unload_quiescence reopen_entries
    resume_logger resume_after_unload_rejected finish_unload unload_logger dll_can_unload_now
rejected_unload_reopens_example = rejected_unload_reopens unused locked_late refl refl

-- The worker delivers two messages during the wait, and another thread enters after that.
abbrev late : UnloadAnswers
late = record undisturbed {
  during_quiescence = λ x. enter_class_object (record x { logger = some drained.last });
}

late_entry_unloads_example :
    let d : Dll = record unused { logger = some logged.last } in
    ((dll_can_unload_now d late).1 ≡ s_ok)
    × ((dll_can_unload_now d late).0.entries.admission.state ≡ State.is_open)
    × (held (dll_can_unload_now d late).0.entries.leases ≡ suc (held new_world.leases))
unfolding new_admission new_logger log_first log_again refuses log_rest log_start push start_locked
    log_ends begin_unload end_unload begin_resume worker_turn take_message report_stop
    cleanup_file_stream worker_ends
late_entry_unloads_example =
    late_entry_unloads (record unused { logger = some logged.last }) logged.last drained.last late
      refl refl refl refl refl refl refl (λ x. refl)
