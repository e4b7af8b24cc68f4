-- ===== src/Logger/Draining.antt =====
-- A worker thread that is asked to stop delivers what is queued and stops.
use modern_sapi_adapter.Base.{
  ℕ, zero, suc, ◌+◌, ◌*◌, ◌≤◌, ◌≡◌, ◌≢◌, ◌⊎◌, inl, inr, refl, sym, ap, ◌∙◌, Bool, true, false, none,
  some, List, [], ◌∷◌, ◌++◌, length, if◌then◌else◌, arith,
}
use modern_sapi_adapter.Logger.Sections.{
  Message, LoggerAdmission, stopped, draining_for_unload, AsyncLogger, WorkerPc, not_started,
  waiting, delivering, failing, closing, reporting, finished, WorkerTurn, quiet_turn, worker_turn,
  take_message, report_stop, cleanup_file_stream,
}
use modern_sapi_adapter.Logger.Invariant.{fits, is_emptied, holding, has_file, Sound}

-- Up to `n` steps of `WorkerThread`, whose locks do not throw; a write may fail. The lists of the
-- result are all that was delivered and written.
unfoldable pub worker_thread : ℕ → (ℕ → Bool) → AsyncLogger → WorkerPc → WorkerTurn
worker_thread zero writes l p = quiet_turn l p
worker_thread (suc n) writes l p = elim (worker_turn l p false (writes n)) [
  | none ↦ quiet_turn l p
  | some r ↦
      let rest = worker_thread n writes r.logger r.pc in
      record rest { delivered = r.delivered ++ rest.delivered; written = r.written ++ rest.written }
]

-- The steps from there to the end of the thread.
abbrev pub turns_left : AsyncLogger → WorkerPc → ℕ
turns_left l waiting = 2 * length l.queue + 3
turns_left l (delivering _) = 2 * length l.queue + 4
turns_left l closing = 2
turns_left l reporting = 1
turns_left l _ = 0

-- What a draining logger has become once its worker has ended.
abbrev resumed : AsyncLogger → LoggerAdmission
resumed l = if l.resume_when_stopped then LoggerAdmission.is_open else l.admission

record HasStopped (l : AsyncLogger) (p : WorkerPc) (r : WorkerTurn) : Type 0 where
  ended : r.pc ≡ finished
  state : r.logger.state ≡ stopped
  admission : r.logger.admission ≡ resumed l
  delivers : r.delivered ≡ holding p ++ l.queue
  closed : r.logger.file_open ≡ false

record Drains (l : AsyncLogger) (p : WorkerPc) : Type 0 where
  draining : l.state ≡ draining_for_unload
  asked : l.stop_requested ≡ true
  fit : fits draining_for_unload p ≡ true
  unfailed : p ≢ failing
  file : l.file_open ≡ has_file p
  emptied : is_emptied draining_for_unload p ≡ true → l.queue ≡ []

stays_finished :
    (n : ℕ) (writes : ℕ → Bool) (l : AsyncLogger)
    → worker_thread n writes l finished ≡ quiet_turn l finished
unfolding worker_thread worker_turn
stays_finished zero writes l = refl
stays_finished (suc n) writes l = refl

list_cases {ℓ} : {A : Type ℓ} (xs : List A) → (xs ≡ []) ⊎ ((x : A) × (ys : List A) × (xs ≡ x ∷ ys))
list_cases [] = inl refl
list_cases (x ∷ xs) = inr (x, xs, refl)

drains :
    (n : ℕ) (writes : ℕ → Bool) (l : AsyncLogger) (p : WorkerPc)
    → Drains l p
    → turns_left l p ≤ n
    → HasStopped l p (worker_thread n writes l p)
unfolding worker_thread worker_turn take_message report_stop cleanup_file_stream
drains zero writes l p d h = absurd (ground arith)
drains (suc n) writes l waiting d h = elim (list_cases l.queue) [
  | inl e ↦
      rw e
        (ground (arith, drains n writes l closing (ground (arith, d)) (omega (arith, ap length e))))
  | inr (m, q, e) ↦ rw e (
      ground (
        arith,
        drains n writes (record l { queue = q }) (delivering m) (ground (arith, d))
            (omega (arith, ap length e)),
      ))
]
drains (suc n) writes l (delivering m) d h =
    ground (arith, drains n writes l waiting (ground (arith, d)) (omega arith))
drains (suc n) writes l closing d h =
    ground
      (arith, drains n writes (cleanup_file_stream l) reporting (ground (arith, d)) (omega arith))
drains (suc n) writes l reporting d h =
    rw (stays_finished n writes (report_stop l)) (ground (arith, d))
drains (suc n) writes l finished d h = ground arith
drains (suc n) writes l not_started d h = ground arith
drains (suc n) writes l failing d h = ground arith

enough : (l : AsyncLogger) (p : WorkerPc) (n : ℕ) → 2 * length l.queue + 4 ≤ n → turns_left l p ≤ n
enough l p n h = ground arith

-- Once a stop is requested of a draining logger, its worker thread, left to itself and with no lock
-- that throws, ends after at most two steps for each queued message and four more, whichever writes
-- fail. It has then delivered every accepted message in order, the file is closed, the state is
-- `Stopped`, and the admission is open again exactly if a wait had given up or it was open before.
pub worker_drains :
    (n : ℕ) (writes : ℕ → Bool) {l : AsyncLogger} {p : WorkerPc} {a d : List Message}
    → Sound l p a d
    → l.state ≡ draining_for_unload
    → l.stop_requested ≡ true
    → p ≢ failing
    → 2 * length l.queue + 4 ≤ n
    → let r = worker_thread n writes l p in
      (r.pc ≡ finished)
      × (r.logger.state ≡ stopped)
      × (d ++ r.delivered ≡ a)
      × (r.logger.file_open ≡ false)
      × (r.logger.admission
          ≡ (if l.resume_when_stopped then LoggerAdmission.is_open else l.admission))
worker_drains n writes {l} {p} {a} {d} s e asked unfailed h =
    let t =
      drains n writes l p
        (record {
          draining = e;
          asked = asked;
          fit = ground (arith, s.fit);
          unfailed = unfailed;
          file = s.file;
          emptied = λ q. s.emptied (rw e q);
        })
        (enough l p n h) in
    (t.ended, t.state, ap (◌++◌ d) t.delivers ∙ sym s.fifo, t.closed, t.admission)
