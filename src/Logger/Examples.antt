-- ===== src/Logger/Examples.antt =====
-- The theorems about the logger at the schedules of Runs.
use modern_sapi_adapter.Base.{
  ℕ, ◌≡◌, ◌≢◌, ◌↔◌, inr, refl, true, false, none, some, [], ◌∷◌, ◌==◌, nat_eq, arith,
}
use modern_sapi_adapter.Logger.Sections.{
  LoggerAdmission, stopped, new_logger, Starting, terminates, waiting, finished, has_stopped,
  log_first, log_again, log_rest, log_start, push, start_locked, refuses, cleanup_file_stream,
  worker_turn, take_message, report_stop, begin_unload, end_unload, begin_resume, end_resume,
}
use modern_sapi_adapter.Logger.Threads.{
  log_joining, goes_to, outside, IsJoined, log_ends, worker_ends, here,
}
use modern_sapi_adapter.Logger.Invariant.{is_live, IsSound, reachable-IsSound}
use modern_sapi_adapter.Logger.Quiescence.{unload_succeeds}
use modern_sapi_adapter.Logger.Draining.{worker_thread, worker_drains}
use modern_sapi_adapter.Logger.Races.{log_terminates_iff, lost_stop}
use modern_sapi_adapter.Logger.Runs.{hello, lost, drained, asked, joining}

reachable-IsSound_example : IsSound drained.last
reachable-IsSound_example = reachable-IsSound drained.reach

worker_drains_example :
    let r = worker_thread 8 (λ k. k == 5) asked.last.logger waiting in
    (r.pc ≡ finished)
    × (r.logger.state ≡ stopped)
    × (r.delivered ≡ asked.last.accepted)
    × (r.logger.file_open ≡ false)
    × (r.logger.admission ≡ LoggerAdmission.quiescent)
unfolding new_logger log_first log_again refuses log_rest log_start push start_locked log_ends
    begin_unload end_unload begin_resume worker_turn take_message report_stop cleanup_file_stream
    worker_ends worker_thread
worker_drains_example =
    worker_drains 8 (λ k. k == 5) (reachable-IsSound asked.reach).sound refl refl
      (λ e. ground arith) (omega arith)

unload_succeeds_example :
    (drained.last.delivered ≡ drained.last.accepted)
    × (drained.last.logger.file_open ≡ false)
    × ((t : ℕ) → is_live (drained.last.workers t) ≡ false)
    × IsJoined drained.last.workers (some 0)
unfolding new_logger log_first log_again refuses log_rest log_start push start_locked log_ends
    begin_unload end_unload begin_resume worker_turn take_message report_stop cleanup_file_stream
    worker_ends
unload_succeeds_example = unload_succeeds (some 0) drained.reach (inr refl)

drained_all : drained.last.delivered ≡ hello ∷ hello ∷ []
unfolding new_logger log_first log_again refuses log_rest log_start push start_locked log_ends
    begin_unload end_unload begin_resume worker_turn take_message report_stop cleanup_file_stream
    worker_ends
drained_all = refl

lost_stop_example :
    let w = goes_to (record lost.last { logger = end_resume lost.last.logger }) 0 outside in
    ((begin_unload w.logger).1 ≢ has_stopped (some 0))
    × ((end_unload w.logger).1 ≢ has_stopped (some 0))
    × (w.accepted ≡ lost.last.accepted)
unfolding new_logger log_first log_again refuses log_rest log_start push start_locked log_ends
    begin_unload end_unload begin_resume worker_turn take_message report_stop cleanup_file_stream
    worker_ends
lost_stop_example = lost_stop 0 none (some 0) lost.reach refl refl refl refl here

log_terminates_iff_example :
    (log_first joining.last.logger hello Starting.made 2 true ≢ terminates)
    × ((log_again joining.last.logger hello Starting.made 2 true ≡ terminates) ↔ (
        (joining.last.logger.admission ≡ LoggerAdmission.is_open)
        × (joining.last.logger.state ≡ stopped)
        × (joining.last.logger.worker ≢ none)
        × (Starting.made ≡ Starting.made)))
log_terminates_iff_example = log_terminates_iff joining.last.logger hello Starting.made 2 true

-- In that schedule caller 2's second section ends the process.
joining_terminates :
    (joining.last.callers 2 ≡ log_joining 0 hello)
    × (joining.last.workers 0 ≡ finished)
    × (log_again joining.last.logger hello Starting.made 2 true ≡ terminates)
unfolding new_logger log_first log_again refuses log_rest log_start push start_locked log_ends
    begin_unload end_unload begin_resume worker_turn take_message report_stop cleanup_file_stream
    worker_ends
joining_terminates = (refl, refl, refl)
