-- ===== src/Logger/Invariant/Defs.antt =====
use modern_sapi_adapter.Base.{
  ℕ, zero, suc, ◌<◌, ◌≡◌, ◌≢◌, Bool, true, false, some, List, [], ◌∷◌, ◌++◌,
}
use modern_sapi_adapter.Logger.Sections.{
  Message, LoggerState, stopped, running, draining_for_unload, stop_failed, AsyncLogger, WorkerPc,
  not_started, waiting, delivering, failing, closing, reporting, finished,
}
use modern_sapi_adapter.Logger.Threads.{LoggerThreads}

-- The thread is between its start and its last critical section.
abbrev pub is_live : WorkerPc → Bool
is_live not_started = false
is_live finished = false
is_live _ = true

-- The states in which the newest worker thread may stand there.
abbrev pub fits : LoggerState → WorkerPc → Bool
fits stopped not_started = true
fits stopped finished = true
fits running waiting = true
fits running (delivering _) = true
fits running failing = true
fits draining_for_unload waiting = true
fits draining_for_unload (delivering _) = true
fits draining_for_unload failing = true
fits draining_for_unload closing = true
fits draining_for_unload reporting = true
fits stop_failed closing = true
fits stop_failed reporting = true
fits stop_failed finished = true
fits _ _ = false

-- Nothing is left in the queue.
abbrev pub is_emptied : LoggerState → WorkerPc → Bool
is_emptied stopped _ = true
is_emptied draining_for_unload closing = true
is_emptied draining_for_unload reporting = true
is_emptied _ _ = false

abbrev pub has_file : WorkerPc → Bool
has_file waiting = true
has_file (delivering _) = true
has_file failing = true
has_file closing = true
has_file _ = false

-- The message that the thread has taken and not delivered yet.
abbrev pub holding : WorkerPc → List Message
holding (delivering message) = message ∷ []
holding _ = []

-- The file has the delivered messages in their order, but for those whose write failed.
pub data IsWritten : List Message → List Message → Type 0 where
  no_message :
      {file delivered : List Message} → file ≡ [] → delivered ≡ [] → IsWritten file delivered
  wrote :
      {f d file delivered : List Message} (message : Message)
      → IsWritten f d
      → file ≡ f ++ message ∷ []
      → delivered ≡ d ++ message ∷ []
      → IsWritten file delivered
  lost :
      {d file delivered : List Message} (message : Message)
      → IsWritten file d
      → delivered ≡ d ++ message ∷ []
      → IsWritten file delivered

-- The logger, its newest worker thread, and what was accepted and delivered.
pub record Sound (l : AsyncLogger) (p : WorkerPc) (accepted delivered : List Message) : Type 0 where
  pub fit : fits l.state p ≡ true
  pub emptied : is_emptied l.state p ≡ true → l.queue ≡ []
  pub unstopped : l.state ≡ running → l.stop_requested ≡ false
  pub file : l.file_open ≡ has_file p
  pub fifo : accepted ≡ delivered ++ (holding p ++ l.queue)

abbrev pub last_of : ℕ → (ℕ → WorkerPc) → WorkerPc
last_of zero workers = not_started
last_of (suc n) workers = workers n

-- `older`: no other worker thread is live; `handle`: `m_worker` names the newest.
pub record IsSound (w : LoggerThreads) : Type 0 where
  pub sound : Sound w.logger (last_of w.started w.workers) w.accepted w.delivered
  pub older : (t : ℕ) → suc t ≢ w.started → is_live (w.workers t) ≡ false
  pub begun : (t : ℕ) → t < w.started → w.workers t ≢ not_started
  pub handle : (t : ℕ) → w.logger.worker ≡ some t → suc t ≡ w.started
  pub written : IsWritten w.file w.delivered
