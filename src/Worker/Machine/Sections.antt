-- ===== src/Worker/Machine/Sections.antt =====
-- Every critical section refines the request state machine.
use modern_sapi_adapter.Base.{
  ◌≤◌, ◌<◌, ◌⊎◌, ℕ, ◌≡◌, refl, sym, ◌∙◌, ◌≢◌, inl, inr, Bool, arith, Bool-cases, List, [], ◌∷◌, ok,
  some, subst, ok-injective, >>=-eq-ok, ◌==◌, nat_eq, ◌||◌, ◌&&◌, not,
}
use modern_sapi_adapter.Request.{
  RequestToken, UpstreamState, DownstreamState, upstream_eq, downstream_eq,
  transition_to_cancelling,
}
use modern_sapi_adapter.StatePolicy.{evaluate_start, evaluate_stop, evaluate_begin_cancellation}
use modern_sapi_adapter.Worker.State.{
  SpeechWorker, reset_to_idle, check_terminal_boundary, raise_if, start,
}
use modern_sapi_adapter.Worker.Boundary.{
  Checked, goes_on, overruns, resets, by_failure, by_delivery, by_drain, Resets, check-Checked,
}
use modern_sapi_adapter.Worker.Cancel.{stop, begin_cancellation}
use modern_sapi_adapter.Pcm.Assembler.{PcmFrameBatch, process}
use modern_sapi_adapter.Pcm.Delivery.{
  ChunkDecision, ChunkAction, BatchAction, evaluate_chunk_ingest, evaluate_batch_outcome,
}
use modern_sapi_adapter.Worker.Audio.{
  AudioIngestResult, account_chunk, apply_chunk, deliver_or_check, ingest_audio_chunk, credit,
  cancel_after_rejection, settle_batch, update_after_audio_delivery,
}
use modern_sapi_adapter.Worker.Invariant.{Inv}
use modern_sapi_adapter.Worker.Machine.{
  Transition, stays, begins, completes, drains, overdrains, abandons, turns_to_cancel,
}

le_cases : {m n : ℕ} → m ≤ n → (n ≡ m) ⊎ (m < n)
le_cases {m} {n} h = ground arith

reset-completes :
    (w0 w : SpeechWorker)
    → w.context.downstream_state ≡ w0.context.downstream_state
    → w.notifications ≡ w0.notifications
    → w.context.upstream_state ≢ UpstreamState.failed
    → Resets w
    → Transition w0 (reset_to_idle w)
unfolding reset_to_idle
reset-completes w0 w s n live (by_failure f) = absurd (live f)
reset-completes w0 w s n live (by_delivery _ d) =
    completes (sym s ∙ d.speaking) refl (omega arith) d.finished d.read d.accepted
reset-completes w0 w s n live (by_drain _ d) = elim (le_cases d.read) [
  | inl same ↦ drains (sym s ∙ d.cancelling) refl (omega arith) d.finished same
  | inr past ↦ overdrains (sym s ∙ d.cancelling) refl (omega arith) d.finished past
]

-- A check of the terminal boundary at the end of a section.
pub close-Transition :
    (w0 w : SpeechWorker)
    → w.context.downstream_state ≡ w0.context.downstream_state
    → w.notifications ≡ w0.notifications
    → w.context.upstream_state ≢ UpstreamState.failed
    → Transition w0 (raise_if (check_terminal_boundary w).1 (check_terminal_boundary w).0)
close-Transition w0 w s n live = go (check_terminal_boundary w) (check-Checked w)
  where
    go : (r : SpeechWorker × Bool) → Checked w r → Transition w0 (raise_if r.1 r.0)
    go r (goes_on _ _ e) = rw e (stays s (omega arith))
    go r (overruns _ o e) = rw e (stays s (omega arith))
    go r (resets why e) = rw e (reset-completes w0 w s n live why)

pub start-Transition :
    (w : SpeechWorker) (speak_id tick : ℕ) → Transition w (start w speak_id tick).0
unfolding start evaluate_start
start-Transition w speak_id tick =
    elim (Bool-cases (
      w.context.upstream_state == UpstreamState.idle
      && w.context.downstream_state == DownstreamState.idle
      && not w.context.fault_pending)) [
        | inl t ↦ begins (ground arith) (ground arith) (ground arith)
        | inr f ↦ stays (ground arith) (ground arith)
      ]

pub stop-Transition : (w : SpeechWorker) → Transition w (stop w).0
unfolding stop evaluate_stop reset_to_idle
stop-Transition w =
    elim (Bool-cases (
      w.context.downstream_state == DownstreamState.idle
      || w.context.downstream_state == DownstreamState.faulted
      || w.context.upstream_state == UpstreamState.faulted)) [
        | inl t ↦ stays (ground arith) (ground arith)
        | inr f ↦ abandons (ground arith) (ground arith) (ground arith) (ground arith) refl
      ]

-- The states that `EvaluateBeginCancellation` leaves alone.
abbrev not_speaking : SpeechWorker → Bool
not_speaking w =
    w.context.downstream_state == DownstreamState.idle
    || w.context.downstream_state == DownstreamState.faulted
    || w.context.upstream_state == UpstreamState.faulted
    || w.context.downstream_state == DownstreamState.cancelling

pub begin_cancellation-Transition :
    (w : SpeechWorker) (deadline : ℕ) → Transition w (begin_cancellation w deadline).0
unfolding begin_cancellation evaluate_begin_cancellation transition_to_cancelling
begin_cancellation-Transition w deadline = elim (Bool-cases (not_speaking w)) [
  | inl t ↦ stays (ground arith) (ground arith)
  | inr f ↦ turns_to_cancel (ground arith) (ground arith) (ground arith)
]

pub rejection-Transition :
    (w0 w : SpeechWorker) (tick : ℕ)
    → w.context.downstream_state ≡ w0.context.downstream_state
    → w.notifications ≡ w0.notifications
    → Transition w0 (cancel_after_rejection w tick).0
unfolding cancel_after_rejection evaluate_begin_cancellation transition_to_cancelling
rejection-Transition w0 w tick s n = elim (Bool-cases (not_speaking w)) [
  | inl t ↦ stays (ground arith) (ground arith)
  | inr f ↦ turns_to_cancel (ground arith) (ground arith) (ground arith)
]

credit_same :
    (w : SpeechWorker) (n : ℕ)
    → ((credit w n).context.downstream_state ≡ w.context.downstream_state)
      × ((credit w n).context.upstream_state ≡ w.context.upstream_state)
      × ((credit w n).notifications ≡ w.notifications)
unfolding credit
credit_same w n = ground arith

settle-Transition :
    (w0 w : SpeechWorker) (tick : ℕ) (a : BatchAction)
    → w.context.downstream_state ≡ w0.context.downstream_state
    → w.notifications ≡ w0.notifications
    → w.context.upstream_state ≢ UpstreamState.failed
    → Transition w0 (settle_batch w tick a).0
unfolding settle_batch
settle-Transition w0 w tick BatchAction.ignore_stale_or_inactive s n live = stays s (omega arith)
settle-Transition w0 w tick BatchAction.credit_and_check_boundary s n live =
    close-Transition w0 w s n live
settle-Transition w0 w tick BatchAction.credit_and_begin_cancellation s n live =
    rejection-Transition w0 w tick s n
settle-Transition w0 w tick BatchAction.check_cancellation_boundary s n live =
    close-Transition w0 w s n live

pub update-Transition :
    (w : SpeechWorker) (t : RequestToken) (n tick : ℕ) (b : Bool)
    → Inv w
    → Transition w (update_after_audio_delivery w t n b tick).0
unfolding update_after_audio_delivery
update-Transition w t n tick b v =
    let bytes = (evaluate_batch_outcome w.context t n (not b)).accepted_bytes_to_credit in
    let (ds, us, same) = credit_same w bytes in
    settle-Transition w (credit w bytes) tick _ ds same (λ e. v.settled (sym us ∙ e))

account_same :
    (w : SpeechWorker) (d : ChunkDecision) (n tick : ℕ)
    → let w' = account_chunk w d n tick in
      (w'.context.downstream_state ≡ w.context.downstream_state)
      × (w'.context.upstream_state ≡ w.context.upstream_state)
      × (w'.notifications ≡ w.notifications)
unfolding account_chunk
account_same w d n tick = ground arith

deliver-Transition :
    (w0 : SpeechWorker) (t : RequestToken) (w : SpeechWorker) (batch : PcmFrameBatch)
    → w.context.downstream_state ≡ w0.context.downstream_state
    → w.notifications ≡ w0.notifications
    → w.context.upstream_state ≢ UpstreamState.failed
    → Transition w0 (deliver_or_check t w batch).0
unfolding deliver_or_check
deliver-Transition w0 t w [] s n live = close-Transition w0 w s n live
deliver-Transition w0 t w (x ∷ xs) s n live = stays s (omega arith)

chunk-Transition :
    (w0 : SpeechWorker) (t : RequestToken) (w : SpeechWorker) (buffer : List ℕ) (d : ChunkDecision)
    (a : ChunkAction) (r : SpeechWorker × AudioIngestResult)
    → w.context.downstream_state ≡ w0.context.downstream_state
    → w.notifications ≡ w0.notifications
    → w.context.upstream_state ≢ UpstreamState.failed
    → apply_chunk t w buffer d a ≡ ok r
    → Transition w0 r.0
unfolding apply_chunk
chunk-Transition w0 t w buffer d ChunkAction.assemble_speaking_audio r s n live e =
    let (x, _, h) =
      >>=-eq-ok (process w.frame_assembler (some buffer) d.bytes_to_frame)
        (λ x. ok (deliver_or_check t (record w { frame_assembler = x.0 }) x.1)) e in
    subst (λ x. Transition w0 x.0) (ok-injective h)
      (deliver-Transition w0 t (record w { frame_assembler = x.0 }) x.1 s n live)
chunk-Transition w0 t w buffer d ChunkAction.drain_cancellation_audio r s n live e =
    subst (λ x. Transition w0 x.0) (ok-injective e) (close-Transition w0 w s n live)
chunk-Transition w0 t w buffer d ChunkAction.fault_unexpected_idle_audio r s n live e =
    subst (λ x. Transition w0 x.0) (ok-injective e) (stays s (omega arith))
chunk-Transition w0 t w buffer d ChunkAction.drain_faulted_session_audio r s n live e =
    subst (λ x. Transition w0 x.0) (ok-injective e) (stays s (omega arith))

pub ingest-Transition :
    (w : SpeechWorker) (buffer : List ℕ) (bytes_read tick : ℕ)
    (r : SpeechWorker × AudioIngestResult)
    → Inv w
    → ingest_audio_chunk w buffer bytes_read tick ≡ ok r
    → Transition w r.0
unfolding ingest_audio_chunk
ingest-Transition w buffer bytes_read tick r v e =
    let d = evaluate_chunk_ingest w.context bytes_read in
    let (ds, us, same) = account_same w d bytes_read tick in
    chunk-Transition w w.context.token (account_chunk w d bytes_read tick) buffer d d.action r ds
      same (λ f. v.settled (sym us ∙ f)) e
