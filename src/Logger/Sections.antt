-- ===== src/Logger/Sections.antt =====
-- `AsyncLogger`, one function for each stretch of code that runs under `m_mutex` and for each step of
-- the worker thread outside it. The test hooks of COREENGINE_TESTING are left out.
use modern_sapi_adapter.Base.{
  ℕ, suc, Bool, true, false, ◌&&◌, Option, none, some, List, [], ◌∷◌, ◌++◌, if◌then◌else◌,
}

-- A formatted message, by its code units.
abbrev pub Message : Type 0
Message = List ℕ

pub data LoggerState : Type 0 where
  stopped running draining_for_unload stop_failed : LoggerState

pub data LoggerAdmission : Type 0 where
  is_open quiescent : LoggerAdmission

-- `worker` is the thread that `m_worker` names, if it is joinable, and `file_open` the answer of
-- `m_file.is_open`. `notifications` counts the calls of `m_cv.notify_all`.
pub record AsyncLogger : Type 0 where
  pub queue : List Message
  pub worker : Option ℕ
  pub state : LoggerState
  pub admission : LoggerAdmission
  pub stop_requested : Bool
  pub resume_when_stopped : Bool
  pub file_open : Bool
  pub notifications : ℕ

unfoldable pub new_logger : AsyncLogger
new_logger = record {
  queue = [];
  worker = none;
  state = LoggerState.stopped;
  admission = LoggerAdmission.is_open;
  stop_requested = false;
  resume_when_stopped = false;
  file_open = false;
  notifications = 0;
}

-- `CleanupFileStreamNoexcept`: `close` leaves the stream closed, also when a flush or it fails.
unfoldable pub cleanup_file_stream : AsyncLogger → AsyncLogger
cleanup_file_stream l = record l { file_open = false }

-- What `StartLocked` meets: no path of the log file, a file that cannot be opened or an exception
-- there, a thread that cannot be made, or none of these.
pub data Starting : Type 0 where
  no_path not_opened no_thread made : Starting

-- `StartLocked`; `id` is the thread that it makes, and the flag its result. Assigning a thread to an
-- `std::thread` that is joinable ends the process: `none`.
unfoldable pub start_locked : AsyncLogger → Starting → ℕ → Option (AsyncLogger × Bool)
unfolding cleanup_file_stream
start_locked l Starting.no_path id = some (l, false)
start_locked l Starting.not_opened id = some (cleanup_file_stream l, false)
start_locked l Starting.no_thread id =
    some (cleanup_file_stream (record l { file_open = true; stop_requested = false }), false)
start_locked l Starting.made id = elim l.worker [
  | some joinable ↦ none
  | none ↦ some (
    record l {
      file_open = true;
      stop_requested = false;
      worker = some id;
      state = LoggerState.running;
    },
    true,
  )
]

-- How a critical section of `Log` ends: it returns, with whether it started a worker and whether it
-- queued the message; it lets go of the mutex to join a thread; or the process ends.
pub data LogEnd : Type 0 where
  returns : (l : AsyncLogger) → (started accepted : Bool) → LogEnd
  joins : (l : AsyncLogger) → (thread : ℕ) → LogEnd
  terminates : LogEnd

-- The test of `Log` that stands before and after the join.
unfoldable pub refuses : AsyncLogger → Bool
refuses l = elim l.admission [
  | LoggerAdmission.quiescent ↦ true
  | LoggerAdmission.is_open ↦ elim l.state [ LoggerState.stop_failed ↦ true | _ ↦ false ]
]

-- `m_queue.push`, which may fail for want of memory: the message is then dropped.
unfoldable pub push : AsyncLogger → Message → Bool → Bool → LogEnd
push l message started true = returns (record l { queue = l.queue ++ message ∷ [] }) started true
push l message started false = returns l started false

-- `Log` from the call of `StartLocked` on.
unfoldable pub log_start : AsyncLogger → Message → Starting → ℕ → Bool → LogEnd
unfolding start_locked push
log_start l message s id room = elim (start_locked l s id) [
  | none ↦ terminates
  | some (l', false) ↦ returns l' false false
  | some (l', true) ↦ push l' message true room
]

unfoldable pub log_rest : AsyncLogger → Message → Starting → ℕ → Bool → LogEnd
unfolding log_start push
log_rest l message s id room = elim l.state [
  | LoggerState.stopped ↦ log_start l message s id room
  | LoggerState.running ↦ push l message false room
  | LoggerState.draining_for_unload ↦ returns l false false
  | LoggerState.stop_failed ↦ returns l false false
]

-- The first critical section of `Log`.
unfoldable pub log_first : AsyncLogger → Message → Starting → ℕ → Bool → LogEnd
unfolding refuses log_rest
log_first l message s id room = if refuses l then returns l false false else elim l.state [
  | LoggerState.stopped ↦ elim l.worker [
    | some thread ↦ joins (record l { worker = none }) thread
    | none ↦ log_rest l message s id room
  ]
  | _ ↦ log_rest l message s id room
]

-- The second, after the join.
unfoldable pub log_again : AsyncLogger → Message → Starting → ℕ → Bool → LogEnd
unfolding refuses log_rest
log_again l message s id room =
    if refuses l then returns l false false else log_rest l message s id room

-- Where a worker thread stands: before its wait, with a message taken from the queue, with an
-- exception not handled yet, before `CleanupFileStreamNoexcept`, before its last section, after it.
pub data WorkerPc : Type 0 where
  not_started waiting : WorkerPc
  delivering : (message : Message) → WorkerPc
  failing closing reporting finished : WorkerPc

-- A step of it, with the messages that it handed to `DeliverMessageNoexcept` and those that this
-- wrote to the file.
pub record WorkerTurn : Type 0 where
  pub logger : AsyncLogger
  pub pc : WorkerPc
  pub delivered : List Message
  pub written : List Message

abbrev pub quiet_turn : AsyncLogger → WorkerPc → WorkerTurn
quiet_turn l p = record { logger = l; pc = p; delivered = []; written = [] }

-- The section after the wait; `none` while its predicate does not hold.
unfoldable pub take_message : AsyncLogger → Option WorkerTurn
take_message l = elim l.queue [
  | [] ↦ if l.stop_requested then some (quiet_turn l WorkerPc.closing) else none
  | message ∷ rest ↦ some (quiet_turn (record l { queue = rest }) (WorkerPc.delivering message))
]

-- The handler of `WorkerThread`.
unfoldable pub report_failure : AsyncLogger → AsyncLogger
report_failure l =
    let l' = record l { notifications = suc l.notifications } in
    elim l.state [
      | LoggerState.running ↦ record l' { state = LoggerState.stop_failed }
      | LoggerState.draining_for_unload ↦ record l' { state = LoggerState.stop_failed }
      | _ ↦ l'
    ]

-- Its last section.
unfoldable pub report_stop : AsyncLogger → AsyncLogger
report_stop l =
    let l' = record l { notifications = suc l.notifications } in
    elim l.state [
      | LoggerState.draining_for_unload ↦
          if l.resume_when_stopped
          then record l' {
            state = LoggerState.stopped;
            resume_when_stopped = false;
            stop_requested = false;
            admission = LoggerAdmission.is_open;
          }
          else record l' { state = LoggerState.stopped }
      | _ ↦ l'
    ]

-- One step of `WorkerThread`: `throws` is whether locking the mutex throws at the head of its loop,
-- and `writes` whether writing to the file succeeds.
unfoldable pub worker_turn : AsyncLogger → WorkerPc → Bool → Bool → Option WorkerTurn
unfolding take_message report_failure report_stop cleanup_file_stream
worker_turn l WorkerPc.waiting throws writes =
    if throws then some (quiet_turn l WorkerPc.failing) else take_message l
worker_turn l (WorkerPc.delivering message) throws writes = some (record {
  logger = l;
  pc = WorkerPc.waiting;
  delivered = message ∷ [];
  written = if l.file_open && writes then message ∷ [] else [];
})
worker_turn l WorkerPc.failing throws writes = some (quiet_turn (report_failure l) WorkerPc.closing)
worker_turn l WorkerPc.closing throws writes =
    some (quiet_turn (cleanup_file_stream l) WorkerPc.reporting)
worker_turn l WorkerPc.reporting throws writes = some (quiet_turn (report_stop l) WorkerPc.finished)
worker_turn l WorkerPc.finished throws writes = none
worker_turn l WorkerPc.not_started throws writes = none

-- How a section of `BeginUnloadQuiescence` ends: it returns false, it waits, or it lets go of the
-- mutex to join the thread it has taken out of `m_worker`, and then returns true.
pub data UnloadEnd : Type 0 where
  gives_up waits : UnloadEnd
  has_stopped : (thread : Option ℕ) → UnloadEnd

-- The section after the wait, which has ended by its predicate or by its time limit.
unfoldable pub end_unload : AsyncLogger → AsyncLogger × UnloadEnd
end_unload l = elim l.state [
  | LoggerState.stopped ↦ (record l { worker = none }, has_stopped l.worker)
  | LoggerState.stop_failed ↦ (l, gives_up)
  | _ ↦ (record l { resume_when_stopped = true }, gives_up)
]

-- The section before it.
unfoldable pub begin_unload : AsyncLogger → AsyncLogger × UnloadEnd
unfolding end_unload
begin_unload l =
    let l' = record l { admission = LoggerAdmission.quiescent; resume_when_stopped = false } in
    elim l.state [
      | LoggerState.stop_failed ↦ (l', gives_up)
      | LoggerState.running ↦ (
        record l' {
          state = LoggerState.draining_for_unload;
          stop_requested = true;
          notifications = suc l.notifications;
        },
        waits,
      )
      | LoggerState.draining_for_unload ↦ (l', waits)
      | LoggerState.stopped ↦ end_unload l'
    ]

-- The first section of `ResumeAfterUnloadRejected`: it returns (`none`), or lets go of the mutex to
-- join a thread, if there is one.
unfoldable pub begin_resume : AsyncLogger → AsyncLogger × Option (Option ℕ)
begin_resume l = elim l.state [
  | LoggerState.stopped ↦ (record l { worker = none }, some l.worker)
  | _ ↦ (l, none)
]

-- The second.
unfoldable pub end_resume : AsyncLogger → AsyncLogger
end_resume l = record l {
  stop_requested = false;
  resume_when_stopped = false;
  admission = LoggerAdmission.is_open;
  notifications = suc l.notifications;
}
