-- ===== src/Worker/Alignment.antt =====
-- No critical section changes the frame size of a worker: it is the one that it was built with.
use Prim.Native.String.{String}
use modern_sapi_adapter.Base.{
  ℕ, ◌≤◌, ◌≡◌, refl, sym, ap, ◌∙◌, Bool, true, List, [], ◌∷◌, length, ok, ok-injective, arith,
  if_keeps,
}
use modern_sapi_adapter.Request.{RequestToken, transition_to_cancelling}
use modern_sapi_adapter.Event.{ProviderControlEvent}
use modern_sapi_adapter.Pcm.Assembler.{PcmFrameBatch, discard}
use modern_sapi_adapter.Pcm.Frames.{IsValid, process-Emits}
use modern_sapi_adapter.Pcm.Delivery.{
  ChunkDecision, ChunkAction, BatchAction, evaluate_chunk_ingest,
}
use modern_sapi_adapter.Pcm.DeliveryLaws.{bytes_to_frame-le}
use modern_sapi_adapter.StatePolicy.{UpstreamTerminalAction, UpstreamTerminalDecision}
use modern_sapi_adapter.EventPolicy.{EventAction}
use modern_sapi_adapter.Worker.State.{
  SpeechWorker, start, reset_to_idle, transition_request_to_faulted, check_terminal_boundary,
  raise_if,
}
use modern_sapi_adapter.Worker.Boundary.{Checked, goes_on, overruns, resets, check-Checked}
use modern_sapi_adapter.Worker.Audio.{
  AudioIngestResult, apply_chunk, settle_batch, account_chunk, deliver_or_check, ingest_audio_chunk,
  credit, cancel_after_rejection, update_after_audio_delivery,
}
use modern_sapi_adapter.Worker.Control.{
  fail_utterance, apply_terminal, handle_terminal_event, handle_log_event, apply_event,
  handle_parsed_control_event,
}
use modern_sapi_adapter.Worker.Cancel.{stop, begin_cancellation}
use modern_sapi_adapter.Worker.Fault.{
  begin_fault, reveal_fault, clear_fault_pending, cancel_pipes, raise_for_missing_id, shut_down,
  enter_faulted_state,
}
use modern_sapi_adapter.Worker.Steps.{
  Step, starts, stops, cancels, ingests, settles, handles, misses_id, begins_fault, reveals_fault,
  clears_fault, cancels_pipes, shuts_down, Reach, here, next,
}
use modern_sapi_adapter.Worker.Invariant.Audio.{account-Inv}
use modern_sapi_adapter.Worker.Invariant.{Inv}
use modern_sapi_adapter.Worker.Invariant.Sections.{Step-Inv}

abbrev pub align : SpeechWorker → ℕ
align w = w.frame_assembler.block_align

align-reset : (w : SpeechWorker) → align (reset_to_idle w) ≡ align w
unfolding reset_to_idle discard
align-reset w = refl

align-Checked : (w : SpeechWorker) (r : SpeechWorker × Bool) → Checked w r → align r.0 ≡ align w
align-Checked w r (goes_on n _ e) = rw e
align-Checked w r (overruns n o e) = rw e
align-Checked w r (resets why e) = rw e (align-reset w)

align-check : (w : SpeechWorker) → align (check_terminal_boundary w).0 ≡ align w
align-check w = align-Checked w (check_terminal_boundary w) (check-Checked w)

align-raise_if : (b : Bool) (w : SpeechWorker) → align (raise_if b w) ≡ align w
align-raise_if b w = ground arith

align-close :
    (w : SpeechWorker)
    → align (raise_if (check_terminal_boundary w).1 (check_terminal_boundary w).0) ≡ align w
align-close w = align-raise_if _ (check_terminal_boundary w).0 ∙ align-check w

pub align-start : (w : SpeechWorker) (i t : ℕ) → align (start w i t).0 ≡ align w
unfolding start
align-start w i t = ground arith

align-stop : (w : SpeechWorker) → align (stop w).0 ≡ align w
unfolding stop
align-stop w = ground (arith, align-reset w)

align-cancel : (w : SpeechWorker) (d : ℕ) → align (begin_cancellation w d).0 ≡ align w
unfolding begin_cancellation transition_to_cancelling discard
align-cancel w d = ground arith

align-reject : (w : SpeechWorker) (t : ℕ) → align (cancel_after_rejection w t).0 ≡ align w
unfolding cancel_after_rejection transition_to_cancelling discard
align-reject w t = ground arith

align-credit : (w : SpeechWorker) (n : ℕ) → align (credit w n) ≡ align w
unfolding credit
align-credit w n = ground arith

align-settle_batch :
    (w : SpeechWorker) (tick : ℕ) (a : BatchAction) → align (settle_batch w tick a).0 ≡ align w
unfolding settle_batch
align-settle_batch w tick BatchAction.ignore_stale_or_inactive = refl
align-settle_batch w tick BatchAction.credit_and_check_boundary = align-close w
align-settle_batch w tick BatchAction.credit_and_begin_cancellation = align-reject w tick
align-settle_batch w tick BatchAction.check_cancellation_boundary = align-close w

align-update :
    (w : SpeechWorker) (t : RequestToken) (n tick : ℕ) (b : Bool)
    → align (update_after_audio_delivery w t n b tick).0 ≡ align w
unfolding update_after_audio_delivery
align-update w t n tick b = align-settle_batch _ tick _ ∙ align-credit w _

align-account :
    (w : SpeechWorker) (d : ChunkDecision) (n tick : ℕ) → align (account_chunk w d n tick) ≡ align w
unfolding account_chunk
align-account w d n tick = ground arith

align-deliver :
    (t : RequestToken) (w : SpeechWorker) (batch : PcmFrameBatch)
    → align (deliver_or_check t w batch).0 ≡ align w
unfolding deliver_or_check
align-deliver t w [] = align-close w
align-deliver t w (s ∷ ss) = refl

align-apply_chunk :
    (t : RequestToken) (w : SpeechWorker) (buffer : List ℕ) (d : ChunkDecision) (a : ChunkAction)
    (r : SpeechWorker × AudioIngestResult)
    → IsValid w.frame_assembler
    → d.bytes_to_frame ≤ length buffer
    → apply_chunk t w buffer d a ≡ ok r
    → align r.0 ≡ align w
unfolding apply_chunk
align-apply_chunk t w buffer d ChunkAction.assemble_speaking_audio r v inside run =
    let (f, e, s) = process-Emits w.frame_assembler buffer d.bytes_to_frame v inside in
    let run' = rw e at run in
    ap (λ (x : SpeechWorker × AudioIngestResult). align x.0) (sym (ok-injective run'))
    ∙ align-deliver t (record w { frame_assembler = f.0 }) f.1
    ∙ s.alignment
align-apply_chunk t w buffer d ChunkAction.drain_cancellation_audio r v inside run =
    ap (λ (x : SpeechWorker × AudioIngestResult). align x.0) (sym (ok-injective run))
    ∙ align-close w
align-apply_chunk t w buffer d ChunkAction.fault_unexpected_idle_audio r v inside run = ground arith
align-apply_chunk t w buffer d ChunkAction.drain_faulted_session_audio r v inside run = ground arith

align-ingest :
    (w : SpeechWorker) (buffer : List ℕ) (n tick : ℕ) (r : SpeechWorker × AudioIngestResult)
    → Inv w
    → n ≤ length buffer
    → ingest_audio_chunk w buffer n tick ≡ ok r
    → align r.0 ≡ align w
unfolding ingest_audio_chunk
align-ingest w buffer n tick r v inside run =
    let d = evaluate_chunk_ingest w.context n in
    let kept = align-account w d n tick in
    align-apply_chunk w.context.token (account_chunk w d n tick) buffer d d.action r
      (account-Inv w d n tick v).core.assembler (omega (arith, bytes_to_frame-le w.context n)) run
    ∙ kept

align-terminal :
    (w : SpeechWorker) (d : UpstreamTerminalDecision) (a : UpstreamTerminalAction)
    → align (apply_terminal w d a).0 ≡ align w
unfolding apply_terminal transition_request_to_faulted
align-terminal w d UpstreamTerminalAction.duplicate_fault = refl
align-terminal w d UpstreamTerminalAction.invalid_bytes_fault = refl
align-terminal w d UpstreamTerminalAction.misaligned_bytes_fault = refl
align-terminal w d UpstreamTerminalAction.apply = align-check _

align-log : (w : SpeechWorker) (severity : String) → align (handle_log_event w severity).0 ≡ align w
unfolding handle_log_event
align-log w severity = ground (arith, align-check (record w { context = fail_utterance w.context }))

align-apply_event :
    (w : SpeechWorker) (event : ProviderControlEvent) (a : EventAction)
    → align (apply_event w event a).0 ≡ align w
unfolding apply_event handle_terminal_event
align-apply_event w event EventAction.no_locked_action = refl
align-apply_event w event EventAction.speech_boundary = refl
align-apply_event w event EventAction.malformed_speech_boundary = refl
align-apply_event w event EventAction.synthesis_complete = align-terminal w _ _
align-apply_event w event EventAction.synthesis_cancelled = align-terminal w _ _
align-apply_event w event EventAction.legacy_completed = refl
align-apply_event w event EventAction.informational_log = align-log w event.log_severity
align-apply_event w event EventAction.request_error_log = align-log w event.log_severity
align-apply_event w event EventAction.fatal_log = align-log w event.log_severity
align-apply_event w event EventAction.unknown = refl

align-handle :
    (w : SpeechWorker) (event : ProviderControlEvent) (tick : ℕ)
    → align (handle_parsed_control_event w event tick).0 ≡ align w
unfolding handle_parsed_control_event
align-handle w event tick = align-raise_if _ _ ∙ align-apply_event _ event _

align-begin_fault : (w : SpeechWorker) → align (begin_fault w).0 ≡ align w
unfolding begin_fault
align-begin_fault w = ground arith

align-missing_id : (w : SpeechWorker) → align (raise_for_missing_id w) ≡ align w
unfolding raise_for_missing_id
align-missing_id w = ground arith

align-cancel_pipes : (w : SpeechWorker) → align (cancel_pipes w) ≡ align w
unfolding cancel_pipes
align-cancel_pipes w = ground arith

align-shut_down : (w : SpeechWorker) → align (shut_down w) ≡ align w
unfolding shut_down
align-shut_down w = ground arith

align-Step : {w w' : SpeechWorker} → Step w w' → Inv w → align w' ≡ align w
unfolding reveal_fault clear_fault_pending
align-Step {w} (starts i t e) v = rw e (align-start w i t)
align-Step {w} (stops e) v = rw e (align-stop w)
align-Step {w} (cancels d e) v = rw e (align-cancel w d)
align-Step {w} (ingests buffer n t r inside run e) v =
    rw e (align-ingest w buffer n t r v inside run)
align-Step {w} (settles t n k b e) v = rw e (align-update w t n k b)
align-Step {w} (handles event t e) v = rw e (align-handle w event t)
align-Step {w} (misses_id e) v = rw e (align-missing_id w)
align-Step {w} (begins_fault e) v = rw e (align-begin_fault w)
align-Step {w} (reveals_fault p e) v = rw e
align-Step {w} (clears_fault e) v = rw e
align-Step {w} (cancels_pipes e) v = rw e (align-cancel_pipes w)
align-Step {w} (shuts_down e) v = rw e (align-shut_down w)

-- The invariant and the frame size go with a worker through every schedule.
pub align-Reach : {w w' : SpeechWorker} → Reach w w' → Inv w → Inv w' × (align w' ≡ align w)
align-Reach here v = (v, refl)
align-Reach (next r s) v = let (v', e) = align-Reach r v in (Step-Inv s v', align-Step s v' ∙ e)

-- `EnterFaultedState` is a run of its sections.
begin_fault_published : (w : SpeechWorker) → (begin_fault w).0.fault_publication_started ≡ true
unfolding begin_fault
begin_fault_published w = ground arith

pub enter_faulted-Reach : (w : SpeechWorker) → Reach w (enter_faulted_state w)
unfolding enter_faulted_state
enter_faulted-Reach w =
    let f = (begin_fault w).0 in
    let begun : Reach w f = next here (begins_fault refl) in
    let revealed : Reach w (reveal_fault f) =
      next begun (reveals_fault (begin_fault_published w) refl) in
    let cleared : Reach w (clear_fault_pending (reveal_fault f)) =
      next revealed (clears_fault refl) in
    let cancelled : Reach w (cancel_pipes (clear_fault_pending (reveal_fault f))) =
      next cleared (cancels_pipes refl) in
    if_keeps (Reach w) (begin_fault w).1 cancelled begun

pub append-Reach : {u v w : SpeechWorker} → Reach u v → Reach v w → Reach u w
append-Reach r here = r
append-Reach r (next s st) = next (append-Reach r s) st
