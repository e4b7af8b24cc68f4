-- ===== src/Logger/Threads.antt =====
-- The worker threads and the callers of one logger, and every schedule of their steps.
use modern_sapi_adapter.Base.{
  ℕ, suc, ◌≡◌, Bool, Option, none, some, List, [], ◌∷◌, ◌++◌, ◌==◌, nat_eq, if◌then◌else◌,
}
use modern_sapi_adapter.Logger.Sections.{
  Message, AsyncLogger, new_logger, Starting, returns, joins, WorkerPc, WorkerTurn, UnloadEnd,
  gives_up, waits, has_stopped, log_first, log_again, worker_turn, begin_unload, end_unload,
  begin_resume, end_resume,
}

-- Where a thread that calls the logger stands: outside it, in the join of `Log`, in the wait or the
-- join of `BeginUnloadQuiescence`, or in the join of `ResumeAfterUnloadRejected`. A join of no
-- thread returns at once.
pub data CallerPc : Type 0 where
  outside : CallerPc
  log_joining : (thread : ℕ) → (message : Message) → CallerPc
  unload_waiting : CallerPc
  unload_joining resume_joining : (thread : Option ℕ) → CallerPc

-- `started` worker threads have been made, with the numbers below it. `accepted` are the messages
-- that were queued, `delivered` those that a worker handed to `DeliverMessageNoexcept`, and `file`
-- those that this wrote, each in the order of time.
pub record LoggerThreads : Type 0 where
  pub logger : AsyncLogger
  pub started : ℕ
  pub workers : ℕ → WorkerPc
  pub callers : ℕ → CallerPc
  pub accepted : List Message
  pub delivered : List Message
  pub file : List Message

abbrev pub new_threads : LoggerThreads
new_threads = record {
  logger = new_logger;
  started = 0;
  workers = λ t. WorkerPc.not_started;
  callers = λ i. outside;
  accepted = [];
  delivered = [];
  file = [];
}

abbrev pub update {ℓ} : {A : Type ℓ} → (ℕ → A) → ℕ → A → ℕ → A
update f i v j = if j == i then v else f j

-- A section of `Log` has returned.
unfoldable pub log_ends :
    LoggerThreads → AsyncLogger → (made accepted : Bool) → Message → LoggerThreads
log_ends w l made accepted message = record w {
  logger = l;
  started = if made then suc w.started else w.started;
  workers = if made then update w.workers w.started WorkerPc.waiting else w.workers;
  accepted = if accepted then w.accepted ++ message ∷ [] else w.accepted;
}

abbrev pub goes_to : LoggerThreads → ℕ → CallerPc → LoggerThreads
goes_to w i p = record w { callers = update w.callers i p }

-- A section of `BeginUnloadQuiescence` has ended.
abbrev pub unload_goes_to : UnloadEnd → CallerPc
unload_goes_to gives_up = outside
unload_goes_to waits = unload_waiting
unload_goes_to (has_stopped thread) = unload_joining thread

abbrev pub resume_goes_to : Option (Option ℕ) → CallerPc
resume_goes_to none = outside
resume_goes_to (some thread) = resume_joining thread

-- A worker thread has made a step.
unfoldable pub worker_ends : LoggerThreads → ℕ → WorkerTurn → LoggerThreads
worker_ends w t r = record w {
  logger = r.logger;
  workers = update w.workers t r.pc;
  delivered = w.delivered ++ r.delivered;
  file = w.file ++ r.written;
}

-- The join of a thread returns once the thread has ended.
abbrev pub IsJoined : (ℕ → WorkerPc) → Option ℕ → Type 0
IsJoined workers none = Unit
IsJoined workers (some t) = workers t ≡ WorkerPc.finished

-- One step of some thread. `Shutdown` is a `BeginUnloadQuiescence` and then, if that returns true, a
-- `ResumeAfterUnloadRejected` of one caller. A step that would end the process is none.
pub data Step (w w' : LoggerThreads) : Type 0 where
  logs :
      (i : ℕ) (message : Message) (s : Starting) (room started accepted : Bool) (l : AsyncLogger)
      → w.callers i ≡ outside
      → log_first w.logger message s w.started room ≡ returns l started accepted
      → w' ≡ log_ends w l started accepted message
      → Step w w'
  log_joins :
      (i : ℕ) (message : Message) (s : Starting) (room : Bool) (l : AsyncLogger) (t : ℕ)
      → w.callers i ≡ outside
      → log_first w.logger message s w.started room ≡ joins l t
      → w' ≡ goes_to (record w { logger = l }) i (log_joining t message)
      → Step w w'
  logs_again :
      (i : ℕ) (message : Message) (s : Starting) (room started accepted : Bool) (l : AsyncLogger)
      (t : ℕ)
      → w.callers i ≡ log_joining t message
      → w.workers t ≡ WorkerPc.finished
      → log_again w.logger message s w.started room ≡ returns l started accepted
      → w' ≡ goes_to (log_ends w l started accepted message) i outside
      → Step w w'
  works :
      (t : ℕ) (throws writes : Bool) (r : WorkerTurn)
      → worker_turn w.logger (w.workers t) throws writes ≡ some r
      → w' ≡ worker_ends w t r
      → Step w w'
  begins_unload :
      (i : ℕ)
      → w.callers i ≡ outside
      → w'
        ≡ goes_to
            (record w { logger = (begin_unload w.logger).0 })
            i
            (unload_goes_to (begin_unload w.logger).1)
      → Step w w'
  ends_unload :
      (i : ℕ)
      → w.callers i ≡ unload_waiting
      → w'
        ≡ goes_to
            (record w { logger = (end_unload w.logger).0 })
            i
            (unload_goes_to (end_unload w.logger).1)
      → Step w w'
  unloads :
      (i : ℕ) (thread : Option ℕ)
      → w.callers i ≡ unload_joining thread
      → IsJoined w.workers thread
      → w' ≡ goes_to w i outside
      → Step w w'
  begins_resume :
      (i : ℕ)
      → w.callers i ≡ outside
      → w'
        ≡ goes_to
            (record w { logger = (begin_resume w.logger).0 })
            i
            (resume_goes_to (begin_resume w.logger).1)
      → Step w w'
  ends_resume :
      (i : ℕ) (thread : Option ℕ)
      → w.callers i ≡ resume_joining thread
      → IsJoined w.workers thread
      → w' ≡ goes_to (record w { logger = end_resume w.logger }) i outside
      → Step w w'

pub data Reach (w : LoggerThreads) : LoggerThreads → Type 0 where
  here : Reach w w
  next : {u v : LoggerThreads} → Reach w u → Step u v → Reach w v
