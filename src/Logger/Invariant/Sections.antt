-- ===== src/Logger/Invariant/Sections.antt =====
-- The critical sections and the steps of the worker keep `Sound`.
use modern_sapi_adapter.Base.{
  ℕ, ◌≡◌, inl, inr, Bool, false, Bool-cases, some, List, [], ◌∷◌, ◌++◌, append_assoc, append-nil,
  if◌then◌else◌, arith,
}
use modern_sapi_adapter.Logger.Sections.{
  Message, AsyncLogger, Starting, returns, joins, WorkerPc, waiting, delivering, WorkerTurn,
  log_first, log_again, log_rest, log_start, push, start_locked, refuses, cleanup_file_stream,
  worker_turn, take_message, report_failure, report_stop, begin_unload, end_unload, begin_resume,
  end_resume,
}
use modern_sapi_adapter.Logger.Invariant.Defs.{Sound, holding}

module _ {l : AsyncLogger} {p : WorkerPc} {a d : List Message} (s : Sound l p a d) where
  pub end_unload-Sound : Sound (end_unload l).0 p a d
  unfolding end_unload
  end_unload-Sound = ground arith

  pub begin_resume-Sound : Sound (begin_resume l).0 p a d
  unfolding begin_resume
  begin_resume-Sound = ground arith

  pub end_resume-Sound : Sound (end_resume l) p a d
  unfolding end_resume
  end_resume-Sound = ground arith

  pub begin_unload-Sound : Sound (begin_unload l).0 p a d
  unfolding begin_unload
  begin_unload-Sound = ground arith

queued :
    (a d h q : List Message) (message : Message)
    → a ≡ d ++ (h ++ q)
    → a ++ message ∷ [] ≡ d ++ (h ++ (q ++ message ∷ []))
queued a d h q message e = rw e (simp append_assoc)

-- Where the newest thread stands, and what is accepted, once a section of `Log` has returned.
abbrev pub stands : WorkerPc → Bool → WorkerPc
stands p started = if started then waiting else p

abbrev pub grows : List Message → Bool → Message → List Message
grows a accepted message = if accepted then a ++ message ∷ [] else a

module _ {l l' : AsyncLogger} {p : WorkerPc} {a d : List Message} (s : Sound l p a d)
    (message : Message) (st : Starting) (id : ℕ) (room started accepted : Bool) where
  log_rest-Sound :
      log_rest l message st id room ≡ returns l' started accepted
      → Sound l' (stands p started) (grows a accepted message) d
  unfolding log_rest log_start push start_locked cleanup_file_stream
  log_rest-Sound e =
      ground (arith, queued a d (holding p) l.queue message, queued a d [] l.queue message)

  same_log :
      returns l false false ≡ returns l' started accepted
      → Sound l' (stands p started) (grows a accepted message) d
  same_log e = ground (arith, s)

  pub log_again-Sound :
      log_again l message st id room ≡ returns l' started accepted
      → Sound l' (stands p started) (grows a accepted message) d
  unfolding log_again
  log_again-Sound e = elim (Bool-cases (refuses l)) [
    | inl r ↦ same_log (rw r at e)
    | inr g ↦ log_rest-Sound (rw g at e)
  ]

  pub log_first-Sound :
      log_first l message st id room ≡ returns l' started accepted
      → Sound l' (stands p started) (grows a accepted message) d
  unfolding log_first
  log_first-Sound e = ground (arith, same_log, log_rest-Sound)

  pub log_joins-Sound : (t : ℕ) → log_first l message st id room ≡ joins l' t → Sound l' p a d
  unfolding log_first log_rest log_start push start_locked
  log_joins-Sound t e = ground arith

pub worker_turn-Sound :
    (l : AsyncLogger) (p : WorkerPc) (a d : List Message) (throws writes : Bool) (r : WorkerTurn)
    → Sound l p a d
    → worker_turn l p throws writes ≡ some r
    → Sound r.logger r.pc a (d ++ r.delivered)
unfolding worker_turn take_message report_failure report_stop cleanup_file_stream
worker_turn-Sound l (delivering message) a d throws writes r s e =
    ground (arith, append_assoc d (message ∷ []) l.queue)
worker_turn-Sound l p a d throws writes r s e = ground (arith, append-nil d)
