-- ===== src/Logger/Races.antt =====
-- Two schedules in which sections of `Log` and of `ResumeAfterUnloadRejected` act on what they read
-- before they let go of the mutex.
use modern_sapi_adapter.Base.{
  ℕ, suc, ◌≡◌, ◌≢◌, ◌↔◌, ◌⊎◌, inl, inr, refl, sym, ap, ◌∙◌, Bool, true, false, Bool-cases, ◌==◌,
  nat_eq, nat_beq_iff, Option, none, some, [], arith,
}
use modern_sapi_adapter.Logger.Sections.{
  Message, LoggerState, LoggerAdmission, stopped, draining_for_unload, stop_failed, AsyncLogger,
  Starting, returns, joins, terminates, WorkerPc, not_started, waiting, failing, finished,
  WorkerTurn, has_stopped, log_first, log_again, log_rest, log_start, push, start_locked, refuses,
  cleanup_file_stream, worker_turn, take_message, report_failure, report_stop, begin_unload,
  end_unload, begin_resume, end_resume,
}
use modern_sapi_adapter.Logger.Threads.{
  LoggerThreads, CallerPc, resume_joining, new_threads, goes_to, outside, log_ends, worker_ends,
  Step, logs, log_joins, logs_again, works, begins_unload, ends_unload, unloads, begins_resume,
  ends_resume, Reach, here, next,
}
use modern_sapi_adapter.Logger.Invariant.{is_live, last_of, last_of-suc, reachable-IsSound}

-- The process ends in `Log` exactly when, after its join, the logger is open and stopped while
-- `m_worker` is joinable, and the log file and a thread can be had: the first section never does it.
pub log_terminates_iff :
    (l : AsyncLogger) (message : Message) (s : Starting) (id : ℕ) (room : Bool)
    → (log_first l message s id room ≢ terminates)
      × ((log_again l message s id room ≡ terminates) ↔ (
          (l.admission ≡ LoggerAdmission.is_open)
          × (l.state ≡ stopped)
          × (l.worker ≢ none)
          × (s ≡ Starting.made)))
unfolding log_first log_again refuses log_rest log_start push start_locked
log_terminates_iff l message s id room = (
  λ e. ground arith,
  (λ e. (ground arith, ground arith, λ n. ground arith, ground arith), λ h. ground arith),
)

abbrev is_calm : WorkerPc → Bool
is_calm waiting = true
is_calm failing = true
is_calm finished = true
is_calm not_started = true
is_calm _ = false

-- A draining logger whose worker threads have nothing to take and nothing that asks them to stop.
record Idles (w : LoggerThreads) : Type 0 where
  draining : w.logger.state ≡ draining_for_unload
  unasked : w.logger.stop_requested ≡ false
  empty : w.logger.queue ≡ []
  calm : (t : ℕ) → is_calm (w.workers t) ≡ true

-- The same until a lock of the worker throws, which is reported.
abbrev Stuck : LoggerThreads → Type 0
Stuck w = Idles w ⊎ (w.logger.state ≡ stop_failed)

-- In these states a section of `Log` changes nothing.
abbrev Shut : LoggerState → Type 0
Shut state = (state ≡ draining_for_unload) ⊎ (state ≡ stop_failed)

Shut-log :
    (l l' : AsyncLogger) (message : Message) (s : Starting) (id : ℕ) (room started accepted : Bool)
    → Shut l.state
    → (log_first l message s id room ≡ returns l' started accepted)
      ⊎ (log_again l message s id room ≡ returns l' started accepted)
    → (l' ≡ l) × (started ≡ false) × (accepted ≡ false)
unfolding log_first log_again refuses log_rest
Shut-log l l' message s id room started accepted h e = ground arith

Shut-joins :
    (l l' : AsyncLogger) (message : Message) (s : Starting) (id : ℕ) (room : Bool) (t : ℕ)
    → Shut l.state
    → log_first l message s id room ≢ joins l' t
unfolding log_first refuses log_rest
Shut-joins l l' message s id room t h e = ground arith

Stuck-Shut : {w : LoggerThreads} → Stuck w → Shut w.logger.state
Stuck-Shut (inl d) = inl d.draining
Stuck-Shut (inr e) = inr e

-- A section that keeps a logger in such a state, its queue, and that no stop is requested.
abbrev Leaves : AsyncLogger → AsyncLogger → Type 0
Leaves l l' =
    Shut l.state
    → (l'.state ≡ l.state)
      × (l'.queue ≡ l.queue)
      × (l.stop_requested ≡ false → l'.stop_requested ≡ false)

-- A change of the logger and of the callers.
calls_Stuck :
    {w : LoggerThreads} (l : AsyncLogger) (callers : ℕ → CallerPc)
    → Stuck w
    → Leaves w.logger l
    → Stuck (record w { logger = l; callers = callers })
calls_Stuck l callers (inl d) h =
    let (e, q, r) = h (inl d.draining) in
    inl (record {
      draining = e ∙ d.draining;
      unasked = r d.unasked;
      empty = q ∙ d.empty;
      calm = d.calm;
    })
calls_Stuck l callers (inr e) h = inr ((h (inr e)).0 ∙ e)

begin_unload-Leaves : (l : AsyncLogger) → Leaves l (begin_unload l).0
unfolding begin_unload
begin_unload-Leaves l h = (ground arith, ground arith, λ e. ground arith)

end_unload-Leaves : (l : AsyncLogger) → Leaves l (end_unload l).0
unfolding end_unload
end_unload-Leaves l h = (ground arith, ground arith, λ e. ground arith)

begin_resume-Leaves : (l : AsyncLogger) → Leaves l (begin_resume l).0
unfolding begin_resume
begin_resume-Leaves l h = (ground arith, ground arith, λ e. ground arith)

-- A worker that idles can only meet an exception, and report it.
idle_turn :
    (l : AsyncLogger) (p : WorkerPc) (throws writes : Bool) (r : WorkerTurn)
    → l.state ≡ draining_for_unload
    → l.stop_requested ≡ false
    → l.queue ≡ []
    → is_calm p ≡ true
    → worker_turn l p throws writes ≡ some r
    → ((r.logger ≡ l) × (is_calm r.pc ≡ true)) ⊎ (r.logger.state ≡ stop_failed)
unfolding worker_turn take_message report_failure
idle_turn l p throws writes r e f g h k = ground arith

failed_turn :
    (l : AsyncLogger) (p : WorkerPc) (throws writes : Bool) (r : WorkerTurn)
    → l.state ≡ stop_failed
    → worker_turn l p throws writes ≡ some r
    → r.logger.state ≡ stop_failed
unfolding worker_turn take_message report_failure report_stop cleanup_file_stream
failed_turn l p throws writes r e k = ground arith

works_Stuck :
    (w : LoggerThreads) (t : ℕ) (throws writes : Bool) (r : WorkerTurn)
    → worker_turn w.logger (w.workers t) throws writes ≡ some r
    → Stuck w
    → Stuck (worker_ends w t r)
unfolding worker_ends
works_Stuck w t throws writes r k (inr e) = inr (failed_turn w.logger _ throws writes r e k)
works_Stuck w t throws writes r k (inl d) =
    elim (idle_turn w.logger _ throws writes r d.draining d.unasked d.empty (d.calm t) k) [
      | inl (same, calm) ↦ inl (record {
        draining = ap (λ (l : AsyncLogger). l.state) same ∙ d.draining;
        unasked = ap (λ (l : AsyncLogger). l.stop_requested) same ∙ d.unasked;
        empty = ap (λ (l : AsyncLogger). l.queue) same ∙ d.empty;
        calm = λ u. ground (arith, d.calm u);
      })
      | inr failed ↦ inr failed
    ]

abbrev Stays : LoggerThreads → LoggerThreads → Type 0
Stays w w' = Stuck w' × (w'.accepted ≡ w.accepted)

Step-Stays : {w w' : LoggerThreads} → Step w w' → Stuck w → Stays w w'
unfolding log_ends worker_ends end_resume
Step-Stays {w} (logs i message st room started accepted l o e q) s =
    let (same, no_start, no_message) =
      Shut-log w.logger l message st w.started room started accepted (Stuck-Shut s) (inl e) in
    rw (q, same, no_start, no_message) (s, refl)
Step-Stays {w} (logs_again i message st room started accepted l t o d e q) s =
    let (same, no_start, no_message) =
      Shut-log w.logger l message st w.started room started accepted (Stuck-Shut s) (inr e) in
    rw (q, same, no_start, no_message) (calls_Stuck w.logger _ s (λ h. (refl, refl, λ e. e)), refl)
Step-Stays {w} (log_joins i message st room l t o e q) s =
    absurd (Shut-joins w.logger l message st w.started room t (Stuck-Shut s) e)
Step-Stays {w} (works t throws writes r e q) s = rw q (works_Stuck w t throws writes r e s, refl)
Step-Stays {w} (begins_unload i o q) s =
    rw q (calls_Stuck (begin_unload w.logger).0 _ s (begin_unload-Leaves w.logger), refl)
Step-Stays {w} (ends_unload i o q) s =
    rw q (calls_Stuck (end_unload w.logger).0 _ s (end_unload-Leaves w.logger), refl)
Step-Stays {w} (unloads i t o j q) s =
    rw q (calls_Stuck w.logger _ s (λ h. (refl, refl, λ e. e)), refl)
Step-Stays {w} (begins_resume i o q) s =
    rw q (calls_Stuck (begin_resume w.logger).0 _ s (begin_resume-Leaves w.logger), refl)
Step-Stays {w} (ends_resume i t o j q) s =
    rw q (calls_Stuck (end_resume w.logger) _ s (λ h. (refl, refl, λ e. refl)), refl)

Reach-Stays : {w w' : LoggerThreads} → Reach w w' → Stuck w → Stays w w'
Reach-Stays here s = (s, refl)
Reach-Stays (next r st) s =
    let (stuck, same) = Reach-Stays r s in
    let (stuck', same') = Step-Stays st stuck in (stuck', same' ∙ same)

Stuck-never :
    (l : AsyncLogger) (thread : Option ℕ)
    → Shut l.state
    → ((begin_unload l).1 ≢ has_stopped thread) × ((end_unload l).1 ≢ has_stopped thread)
unfolding begin_unload end_unload
Stuck-never l thread h = (λ e. ground arith, λ e. ground arith)

dead_calm : (p : WorkerPc) → is_live p ≡ false → is_calm p ≡ true
dead_calm p e = ground arith

-- The second section of `ResumeAfterUnloadRejected` clears a stop that was requested after its first:
-- when a caller comes from its join while the logger drains, with nothing queued and the worker in
-- its wait, then under every schedule no `BeginUnloadQuiescence` succeeds any more and no message is
-- accepted any more.
pub lost_stop :
    {w w' : LoggerThreads} (i : ℕ) (joined thread : Option ℕ)
    → Reach new_threads w
    → w.logger.state ≡ draining_for_unload
    → w.logger.queue ≡ []
    → last_of w.started w.workers ≡ waiting
    → w.callers i ≡ resume_joining joined
    → Reach (goes_to (record w { logger = end_resume w.logger }) i outside) w'
    → ((begin_unload w'.logger).1 ≢ has_stopped thread)
      × ((end_unload w'.logger).1 ≢ has_stopped thread)
      × (w'.accepted ≡ w.accepted)
unfolding end_resume
lost_stop {w} {w'} i joined thread r e q p c r' =
    let s = reachable-IsSound r in
    let (stuck, same) = Reach-Stays r' (
      inl (record {
        draining = e;
        unasked = refl;
        empty = q;
        calm = λ t. elim (Bool-cases (suc t == w.started)) [
          | inl is_last ↦ ap is_calm (
              sym (last_of-suc t w.started w.workers ((nat_beq_iff (suc t) w.started).0 is_last))
              ∙ p)
          | inr other ↦ dead_calm (w.workers t) (s.older t (ground arith))
        ];
      })) in
    let (begins, ends) = Stuck-never w'.logger thread (Stuck-Shut stuck) in (begins, ends, same)
