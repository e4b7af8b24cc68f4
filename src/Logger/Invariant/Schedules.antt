-- ===== src/Logger/Invariant/Schedules.antt =====
-- Every schedule keeps the invariant.
use modern_sapi_adapter.Base.{
  ℕ, zero, suc, ◌≡◌, ◌≢◌, ◌⊎◌, inl, inr, refl, sym, subst, ap, ◌∙◌, Bool, true, false, Bool-cases,
  some, List, [], ◌∷◌, ◌++◌, ◌==◌, nat_eq, nat_beq_iff, append-nil, arith,
}
use modern_sapi_adapter.Logger.Sections.{
  Message, stopped, AsyncLogger, new_logger, Starting, returns, joins, WorkerPc, not_started,
  waiting, delivering, WorkerTurn, log_first, log_again, log_rest, log_start, push, start_locked,
  refuses, cleanup_file_stream, worker_turn, take_message, report_failure, report_stop,
  begin_unload, end_unload, begin_resume, end_resume,
}
use modern_sapi_adapter.Logger.Threads.{
  LoggerThreads, CallerPc, new_threads, update, goes_to, outside, log_ends, worker_ends, Step, logs,
  log_joins, logs_again, works, begins_unload, ends_unload, unloads, begins_resume, ends_resume,
  Reach, here, next,
}
use modern_sapi_adapter.Logger.Invariant.Defs.{
  is_live, fits, IsWritten, no_message, wrote, lost, Sound, last_of, IsSound,
}
use modern_sapi_adapter.Logger.Invariant.Sections.{
  end_unload-Sound, begin_resume-Sound, end_resume-Sound, begin_unload-Sound, stands, grows,
  log_again-Sound, log_first-Sound, log_joins-Sound, worker_turn-Sound,
}

update_here : (f : ℕ → WorkerPc) (i : ℕ) (p : WorkerPc) → p ≡ update f i p i
update_here f i p = ground arith

-- What a section of `Log` does to `m_worker`.
abbrev Handled : AsyncLogger → AsyncLogger → Bool → ℕ → Type 0
Handled l l' true id = ((t : ℕ) → l'.worker ≡ some t → t ≡ id) × (l.state ≡ stopped)
Handled l l' false id = (t : ℕ) → l'.worker ≡ some t → l.worker ≡ some t

module _ (l l' : AsyncLogger) (message : Message) (st : Starting) (id : ℕ)
    (room accepted : Bool) where
  log_rest-handle :
      (started : Bool)
      → log_rest l message st id room ≡ returns l' started accepted
      → Handled l l' started id
  unfolding log_rest log_start push start_locked cleanup_file_stream
  log_rest-handle true e = (λ t h. ground arith, ground arith)
  log_rest-handle false e = λ t h. ground arith

  returns-handle :
      (started : Bool)
      → returns l false false ≡ returns l' started accepted
      → Handled l l' started id
  returns-handle true e = cc
  returns-handle false e = λ t h. cc

  log_again-handle :
      (started : Bool)
      → log_again l message st id room ≡ returns l' started accepted
      → Handled l l' started id
  unfolding log_again
  log_again-handle started e = elim (Bool-cases (refuses l)) [
    | inl r ↦ returns-handle started (rw r at e)
    | inr g ↦ log_rest-handle started (rw g at e)
  ]

  log_first-handle :
      (started : Bool)
      → log_first l message st id room ≡ returns l' started accepted
      → Handled l l' started id
  unfolding log_first
  log_first-handle true e = ground (arith, log_rest-handle true, returns-handle true)
  log_first-handle false e = λ t h. ground (arith, log_rest-handle false, returns-handle false)

pub last_of-suc : (t n : ℕ) (workers : ℕ → WorkerPc) → suc t ≡ n → last_of n workers ≡ workers t
last_of-suc t zero workers e = absurd (omega arith)
last_of-suc t (suc n) workers e = ap workers (omega arith)

fits_stopped : (p : WorkerPc) → fits stopped p ≡ true → is_live p ≡ false
fits_stopped p e = ground arith

-- In the state `Stopped` no worker thread is live.
pub stopped_quiet :
    {w : LoggerThreads}
    → IsSound w
    → w.logger.state ≡ stopped
    → (t : ℕ) → is_live (w.workers t) ≡ false
stopped_quiet {w} s e t = elim (Bool-cases (suc t == w.started)) [
  | inl is_last ↦
      let q = last_of-suc t w.started w.workers ((nat_beq_iff (suc t) w.started).0 is_last) in
      rw (← q) (fits_stopped (last_of w.started w.workers) (rw e at s.sound.fit))
  | inr other ↦ s.older t (ground arith)
]

-- The logger changes, and the worker threads do not.
pub same_threads :
    {w : LoggerThreads} (l : AsyncLogger) (callers : ℕ → CallerPc)
    → IsSound w
    → Sound l (last_of w.started w.workers) w.accepted w.delivered
    → ((t : ℕ) → l.worker ≡ some t → w.logger.worker ≡ some t)
    → IsSound (record w { logger = l; callers = callers })
same_threads l callers s sound h = record {
  sound = sound;
  older = s.older;
  begun = s.begun;
  handle = λ t e. s.handle t (h t e);
  written = s.written;
}

-- A section of `Log` that has returned.
log_ends-IsSound :
    (w : LoggerThreads) (l : AsyncLogger) (started accepted : Bool) (message : Message)
    → IsSound w
    → Sound l
        (stands (last_of w.started w.workers) started)
        (grows w.accepted accepted message)
        w.delivered
    → Handled w.logger l started w.started
    → IsSound (log_ends w l started accepted message)
unfolding log_ends
log_ends-IsSound w l false accepted message s sound h = record {
  sound = sound;
  older = s.older;
  begun = s.begun;
  handle = λ t e. s.handle t (h t e);
  written = s.written;
}
log_ends-IsSound w l true accepted message s sound (h, quiet) = record {
  sound =
      subst (λ p. Sound l p (grows w.accepted accepted message) w.delivered)
        (update_here w.workers w.started waiting) sound;
  older = λ t n. ground (arith, stopped_quiet s quiet t);
  begun = λ t n. ground (arith, s.begun t);
  handle = λ t e. ap suc (h t e);
  written = s.written;
}

pub moved : (w : LoggerThreads) (i : ℕ) (p : CallerPc) → IsSound w → IsSound (goes_to w i p)
moved w i p s = same_threads w.logger _ s s.sound (λ t h. h)

log_joins-handle :
    (l l' : AsyncLogger) (message : Message) (st : Starting) (id : ℕ) (room : Bool) (t : ℕ)
    → log_first l message st id room ≡ joins l' t
    → (u : ℕ) → l'.worker ≡ some u
    → l.worker ≡ some u
unfolding log_first log_rest log_start push start_locked
log_joins-handle l l' message st id room t e u h = ground arith

pub begin_unload-handle :
    (l : AsyncLogger) (t : ℕ) → (begin_unload l).0.worker ≡ some t → l.worker ≡ some t
unfolding begin_unload end_unload
begin_unload-handle l t e = ground arith

pub end_unload-handle :
    (l : AsyncLogger) (t : ℕ) → (end_unload l).0.worker ≡ some t → l.worker ≡ some t
unfolding end_unload
end_unload-handle l t e = ground arith

begin_resume-handle :
    (l : AsyncLogger) (t : ℕ) → (begin_resume l).0.worker ≡ some t → l.worker ≡ some t
unfolding begin_resume
begin_resume-handle l t e = ground arith

end_resume-handle : (l : AsyncLogger) (t : ℕ) → (end_resume l).worker ≡ some t → l.worker ≡ some t
unfolding end_resume
end_resume-handle l t e = e

worker_turn-live :
    (l : AsyncLogger) (p : WorkerPc) (throws writes : Bool) (r : WorkerTurn)
    → worker_turn l p throws writes ≡ some r
    → (is_live p ≡ true) × (r.pc ≢ not_started) × (r.logger.worker ≡ l.worker)
unfolding worker_turn take_message report_failure report_stop cleanup_file_stream
worker_turn-live l p throws writes r e = ground arith

-- What a turn adds to the file and to the delivered messages.
worker_turn-adds :
    (l : AsyncLogger) (p : WorkerPc) (throws writes : Bool) (r : WorkerTurn)
    → worker_turn l p throws writes ≡ some r
    → ((r.written ≡ []) × (r.delivered ≡ []))
      ⊎ ((message : Message) × (r.delivered ≡ message ∷ [])
          × ((r.written ≡ []) ⊎ (r.written ≡ message ∷ [])))
unfolding worker_turn take_message
worker_turn-adds l (delivering message) throws writes r e =
    inr (message, ground arith, ground arith)
worker_turn-adds l p throws writes r e = inl (ground arith)

adds-IsWritten :
    (r : WorkerTurn) (file delivered : List Message)
    → IsWritten file delivered
    → ((r.written ≡ []) × (r.delivered ≡ []))
      ⊎ ((message : Message) × (r.delivered ≡ message ∷ [])
          × ((r.written ≡ []) ⊎ (r.written ≡ message ∷ [])))
    → IsWritten (file ++ r.written) (delivered ++ r.delivered)
adds-IsWritten r file delivered h (inl (e, q)) = rw (e, q, append-nil file, append-nil delivered) h
adds-IsWritten r file delivered h (inr (message, q, inl e)) =
    rw (e, append-nil file) (lost message h (rw q))
adds-IsWritten r file delivered h (inr (message, q, inr e)) = wrote message h (rw e) (rw q)

works-IsSound :
    (w : LoggerThreads) (t : ℕ) (throws writes : Bool) (r : WorkerTurn)
    → IsSound w
    → worker_turn w.logger (w.workers t) throws writes ≡ some r
    → IsSound (worker_ends w t r)
unfolding worker_ends
works-IsSound w t throws writes r s e =
    let (live, stands_on, same) = worker_turn-live w.logger (w.workers t) throws writes r e in
    let newest : suc t ≡ w.started = elim (Bool-cases (suc t == w.started)) [
      | inl is_last ↦ (nat_beq_iff (suc t) w.started).0 is_last
      | inr other ↦ absurd (ground (arith, s.older t))
    ] in
    record {
      sound =
          subst (λ p. Sound r.logger p w.accepted (w.delivered ++ r.delivered))
            (update_here w.workers t r.pc
              ∙ sym (last_of-suc t w.started (update w.workers t r.pc) newest))
            (worker_turn-Sound w.logger (w.workers t) w.accepted w.delivered throws writes r
              (subst (λ p. Sound w.logger p w.accepted w.delivered)
                (last_of-suc t w.started w.workers newest) s.sound)
              e);
      older = λ u n. ground (arith, s.older u);
      begun = λ u n. ground (arith, s.begun u);
      handle = λ u h. s.handle u (sym same ∙ h);
      written =
          adds-IsWritten r w.file w.delivered s.written
            (worker_turn-adds w.logger (w.workers t) throws writes r e);
    }

pub Step-IsSound : {w w' : LoggerThreads} → Step w w' → IsSound w → IsSound w'
Step-IsSound {w} (logs i message st room started accepted l o e q) s = rw q (
    log_ends-IsSound w l started accepted message s
      (log_first-Sound s.sound message st w.started room started accepted e)
      (log_first-handle w.logger l message st w.started room accepted started e))
Step-IsSound {w} (log_joins i message st room l t o e q) s = rw q (
    same_threads l _ s (log_joins-Sound s.sound message st w.started room false false t e)
      (log_joins-handle w.logger l message st w.started room t e))
Step-IsSound {w} (logs_again i message st room started accepted l t o d e q) s = rw q (
    moved (log_ends w l started accepted message) i outside (
      log_ends-IsSound w l started accepted message s
        (log_again-Sound s.sound message st w.started room started accepted e)
        (log_again-handle w.logger l message st w.started room accepted started e)))
Step-IsSound {w} (works t throws writes r e q) s = rw q (works-IsSound w t throws writes r s e)
Step-IsSound {w} (begins_unload i o q) s =
    rw q (same_threads _ _ s (begin_unload-Sound s.sound) (begin_unload-handle w.logger))
Step-IsSound {w} (ends_unload i o q) s =
    rw q (same_threads _ _ s (end_unload-Sound s.sound) (end_unload-handle w.logger))
Step-IsSound {w} (unloads i t o j q) s = rw q (moved w i outside s)
Step-IsSound {w} (begins_resume i o q) s =
    rw q (same_threads _ _ s (begin_resume-Sound s.sound) (begin_resume-handle w.logger))
Step-IsSound {w} (ends_resume i t o j q) s =
    rw q (same_threads _ _ s (end_resume-Sound s.sound) (end_resume-handle w.logger))

-- In every schedule of the callers and the worker threads, whatever the starts, locks and writes
-- meet: at most the newest worker thread is live, where the logger's state allows; the file is open
-- exactly until that thread closes it; a running logger has no stop requested; the queue is empty
-- once a draining worker has left its loop, and in the state `Stopped`; the accepted messages
-- are, in their order and once each, those delivered, that in the thread's hand and those queued; and
-- the file has the delivered ones in order, but for failed writes.
pub reachable-IsSound : {w : LoggerThreads} → Reach new_threads w → IsSound w
unfolding new_logger
reachable-IsSound here = record {
  sound = ground arith;
  older = λ t n. refl;
  begun = λ t n. absurd (omega arith);
  handle = λ t e. cc;
  written = no_message refl refl;
}
reachable-IsSound (next r st) = Step-IsSound st (reachable-IsSound r)
