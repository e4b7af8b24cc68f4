-- ===== src/Logger/Quiescence.antt =====
-- What a caller may rely on once `BeginUnloadQuiescence` succeeds, and how it is woken.
use modern_sapi_adapter.Base.{
  ℕ, ◌<◌, ◌≡◌, ◌≢◌, ◌⊎◌, inl, inr, refl, Bool, false, Option, none, some, List, append-nil, arith,
}
use modern_sapi_adapter.Logger.Sections.{
  Message, LoggerAdmission, stopped, stop_failed, AsyncLogger, Starting, returns, joins, WorkerPc,
  not_started, finished, WorkerTurn, has_stopped, log_first, log_again, log_rest, log_start, push,
  start_locked, refuses, cleanup_file_stream, worker_turn, take_message, report_failure,
  report_stop, begin_unload, end_unload, begin_resume, end_resume,
}
use modern_sapi_adapter.Logger.Threads.{
  LoggerThreads, new_threads, IsJoined, log_ends, worker_ends, Step, logs, log_joins, logs_again,
  works, begins_unload, ends_unload, unloads, begins_resume, ends_resume, Reach,
}
use modern_sapi_adapter.Logger.Invariant.{is_live, Sound, IsSound, reachable-IsSound, stopped_quiet}

-- The `Stopped` logger, with a thread that has begun where it is joinable.
pub stopped_delivered :
    (l : AsyncLogger) (p : WorkerPc) (a d : List Message)
    → Sound l p a d
    → l.state ≡ stopped
    → (d ≡ a) × (l.file_open ≡ false)
stopped_delivered l p a d s e = (ground (arith, append-nil d), ground arith)

dead_finished : (p : WorkerPc) → is_live p ≡ false → p ≢ not_started → p ≡ finished
dead_finished p e n = ground arith

-- The thread that `m_worker` names has ended.
handle_finished :
    {w : LoggerThreads} (thread : Option ℕ)
    → IsSound w
    → w.logger.state ≡ stopped
    → w.logger.worker ≡ thread
    → IsJoined w.workers thread
handle_finished none s e h = tt
handle_finished (some t) s e h =
    dead_finished _ (stopped_quiet s e t) (s.begun t (omega (arith, s.handle t h)))

pub has_stopped-stopped :
    (l : AsyncLogger) (thread : Option ℕ)
    → ((begin_unload l).1 ≡ has_stopped thread) ⊎ ((end_unload l).1 ≡ has_stopped thread)
    → (l.state ≡ stopped) × (l.worker ≡ thread)
unfolding begin_unload end_unload
has_stopped-stopped l thread h = ground arith

-- In every schedule, when a section of `BeginUnloadQuiescence` ends with success, every message that
-- was ever accepted has been delivered, once and in order, the file is closed, no worker thread is
-- live, and the thread that it then joins has ended, so that the join returns.
pub unload_succeeds :
    {w : LoggerThreads} (thread : Option ℕ)
    → Reach new_threads w
    → ((begin_unload w.logger).1 ≡ has_stopped thread)
      ⊎ ((end_unload w.logger).1 ≡ has_stopped thread)
    → (w.delivered ≡ w.accepted)
      × (w.logger.file_open ≡ false)
      × ((t : ℕ) → is_live (w.workers t) ≡ false)
      × IsJoined w.workers thread
unload_succeeds {w} thread r h =
    let s = reachable-IsSound r in
    let (e, held) = has_stopped-stopped w.logger thread h in
    let (all, closed) = stopped_delivered w.logger _ w.accepted w.delivered s.sound e in
    (all, closed, stopped_quiet s e, handle_finished thread s e held)

-- Nothing is admitted while the logger is quiescent.
quiescent_log :
    (l l' : AsyncLogger) (message : Message) (st : Starting) (id : ℕ) (room started accepted : Bool)
    → l.admission ≡ LoggerAdmission.quiescent
    → (log_first l message st id room ≡ returns l' started accepted)
      ⊎ (log_again l message st id room ≡ returns l' started accepted)
    → (started ≡ false) × (accepted ≡ false)
unfolding log_first log_again refuses
quiescent_log l l' message st id room started accepted q h = ground arith

-- While the logger is quiescent, no step of any thread accepts a message or starts a worker.
pub quiescent_closed :
    {w w' : LoggerThreads}
    → w.logger.admission ≡ LoggerAdmission.quiescent
    → Step w w'
    → (w'.accepted ≡ w.accepted) × (w'.started ≡ w.started)
unfolding log_ends worker_ends
quiescent_closed {w} q (logs i message st room started accepted l o e h) =
    let (no_start, no_message) =
      quiescent_log w.logger l message st w.started room started accepted q (inl e) in
    rw (h, no_start, no_message) (refl, refl)
quiescent_closed {w} q (logs_again i message st room started accepted l t o d e h) =
    let (no_start, no_message) =
      quiescent_log w.logger l message st w.started room started accepted q (inr e) in
    rw (h, no_start, no_message) (refl, refl)
quiescent_closed q (log_joins i message st room l t o e h) = rw h (refl, refl)
quiescent_closed q (works t throws writes r e h) = rw h (refl, refl)
quiescent_closed q (begins_unload i o h) = rw h (refl, refl)
quiescent_closed q (ends_unload i o h) = rw h (refl, refl)
quiescent_closed q (unloads i t o j h) = rw h (refl, refl)
quiescent_closed q (begins_resume i o h) = rw h (refl, refl)
quiescent_closed q (ends_resume i t o j h) = rw h (refl, refl)

-- The predicate of the wait of `BeginUnloadQuiescence`.
abbrev IsOver : AsyncLogger → Type 0
IsOver l = (l.state ≡ stopped) ⊎ (l.state ≡ stop_failed)

log-IsOver :
    (l l' : AsyncLogger) (message : Message) (st : Starting) (id : ℕ) (room started accepted : Bool)
    → (log_rest l message st id room ≡ returns l' started accepted)
    → IsOver l'
    → IsOver l
unfolding log_rest log_start push start_locked cleanup_file_stream
log-IsOver l l' message st id room started accepted e h = ground arith

returns-IsOver :
    (l l' : AsyncLogger) (started accepted : Bool)
    → returns l false false ≡ returns l' started accepted
    → IsOver l'
    → IsOver l
returns-IsOver l l' started accepted e h = ground arith

module _ (l l' : AsyncLogger) (message : Message) (st : Starting) (id : ℕ)
    (room started accepted : Bool) where
  log_first-IsOver :
      log_first l message st id room ≡ returns l' started accepted → IsOver l' → IsOver l
  unfolding log_first
  log_first-IsOver e h = ground (
    arith,
    log-IsOver l l' message st id room started accepted,
    returns-IsOver l l' started accepted,
  )

  log_again-IsOver :
      log_again l message st id room ≡ returns l' started accepted → IsOver l' → IsOver l
  unfolding log_again
  log_again-IsOver e h = ground (
    arith,
    log-IsOver l l' message st id room started accepted,
    returns-IsOver l l' started accepted,
  )

worker_turn-notifies :
    (l : AsyncLogger) (p : WorkerPc) (throws writes : Bool) (r : WorkerTurn)
    → worker_turn l p throws writes ≡ some r
    → IsOver r.logger
    → IsOver l ⊎ (l.notifications < r.logger.notifications)
unfolding worker_turn take_message report_failure report_stop cleanup_file_stream
worker_turn-notifies l p throws writes r e h = ground arith

joins-IsOver :
    (l l' : AsyncLogger) (message : Message) (st : Starting) (id : ℕ) (room : Bool) (t : ℕ)
    → log_first l message st id room ≡ joins l' t
    → IsOver l'
    → IsOver l
unfolding log_first log_rest log_start push start_locked
joins-IsOver l l' message st id room t e h = ground arith

begin_unload-IsOver : (l : AsyncLogger) → IsOver (begin_unload l).0 → IsOver l
unfolding begin_unload end_unload
begin_unload-IsOver l h = ground arith

end_unload-IsOver : (l : AsyncLogger) → IsOver (end_unload l).0 → IsOver l
unfolding end_unload
end_unload-IsOver l h = ground arith

begin_resume-IsOver : (l : AsyncLogger) → IsOver (begin_resume l).0 → IsOver l
unfolding begin_resume
begin_resume-IsOver l h = ground arith

-- Every step that makes the predicate of the wait of `BeginUnloadQuiescence` true, a stopped or a
-- failed logger, notifies all waiters.
pub end_of_drain_notified :
    {w w' : LoggerThreads}
    → Step w w'
    → (w'.logger.state ≡ stopped) ⊎ (w'.logger.state ≡ stop_failed)
    → ((w.logger.state ≡ stopped) ⊎ (w.logger.state ≡ stop_failed))
      ⊎ (w.logger.notifications < w'.logger.notifications)
unfolding log_ends worker_ends end_resume
end_of_drain_notified {w} (logs i message st room started accepted l o e q) h =
    inl (log_first-IsOver w.logger l message st w.started room started accepted e (rw q at h))
end_of_drain_notified {w} (logs_again i message st room started accepted l t o d e q) h =
    inl (log_again-IsOver w.logger l message st w.started room started accepted e (rw q at h))
end_of_drain_notified {w} (log_joins i message st room l t o e q) h =
    inl (joins-IsOver w.logger l message st w.started room t e (rw q at h))
end_of_drain_notified {w} (works t throws writes r e q) h =
    rw q (worker_turn-notifies w.logger (w.workers t) throws writes r e (rw q at h))
end_of_drain_notified {w} (begins_unload i o q) h = inl (begin_unload-IsOver w.logger (rw q at h))
end_of_drain_notified {w} (ends_unload i o q) h = inl (end_unload-IsOver w.logger (rw q at h))
end_of_drain_notified (unloads i t o j q) h = inl (rw q at h)
end_of_drain_notified {w} (begins_resume i o q) h = inl (begin_resume-IsOver w.logger (rw q at h))
end_of_drain_notified (ends_resume i t o j q) h = inl (rw q at h)
