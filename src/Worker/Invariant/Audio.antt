-- ===== src/Worker/Invariant/Audio.antt =====
-- The audio thread's critical sections keep the invariant of a worker.
use modern_sapi_adapter.Base.{ℕ, ◌≤◌, ◌≡◌, refl, Bool, true, List, [], ◌∷◌, length, ok, arith}
use modern_sapi_adapter.Request.{RequestToken, transition_to_cancelling}
use modern_sapi_adapter.Pcm.Assembler.{PcmFrameAssembler, PcmFrameBatch}
use modern_sapi_adapter.Pcm.Frames.{IsValid, process-Emits}
use modern_sapi_adapter.Pcm.Delivery.{
  ChunkDecision, ChunkAction, BatchAction, assemble_speaking_audio, drain_cancellation_audio,
  fault_unexpected_idle_audio, drain_faulted_session_audio, ignore_stale_or_inactive,
  credit_and_check_boundary, credit_and_begin_cancellation, check_cancellation_boundary,
}
use modern_sapi_adapter.Pcm.DeliveryLaws.{bytes_to_frame-le}
use modern_sapi_adapter.StatePolicy.{evaluate_begin_cancellation}
use modern_sapi_adapter.Worker.State.{SpeechWorker}
use modern_sapi_adapter.Worker.Audio.{
  AudioIngestResult, apply_chunk, settle_batch, account_chunk, deliver_or_check, ingest_audio_chunk,
  credit, cancel_after_rejection, update_after_audio_delivery,
}
use modern_sapi_adapter.Worker.Invariant.{Inv, discard-IsValid, raise_if-Inv, close-Inv}

pub cancel_after_rejection-Inv :
    (w : SpeechWorker) (tick : ℕ) → Inv w → Inv (cancel_after_rejection w tick).0
unfolding cancel_after_rejection evaluate_begin_cancellation transition_to_cancelling
cancel_after_rejection-Inv w tick v = ground (arith, discard-IsValid w.frame_assembler v.assembler)

pub credit-Inv : (w : SpeechWorker) (bytes : ℕ) → Inv w → Inv (credit w bytes)
unfolding credit
credit-Inv w bytes v = ground arith

pub settle_batch-Inv :
    (w : SpeechWorker) (tick : ℕ) (a : BatchAction) → Inv w → Inv (settle_batch w tick a).0
unfolding settle_batch
settle_batch-Inv w tick ignore_stale_or_inactive v = v
settle_batch-Inv w tick credit_and_check_boundary v = close-Inv w v.core
settle_batch-Inv w tick credit_and_begin_cancellation v = cancel_after_rejection-Inv w tick v
settle_batch-Inv w tick check_cancellation_boundary v = close-Inv w v.core

pub update-Inv :
    (w : SpeechWorker) (t : RequestToken) (n tick : ℕ) (b : Bool)
    → Inv w
    → Inv (update_after_audio_delivery w t n b tick).0
unfolding update_after_audio_delivery
update-Inv w t n tick b v = settle_batch-Inv _ tick _ (credit-Inv w _ v)

pub account-Inv :
    (w : SpeechWorker) (d : ChunkDecision) (n tick : ℕ) → Inv w → Inv (account_chunk w d n tick)
unfolding account_chunk
account-Inv w d n tick v = ground arith

pub deliver-Inv :
    (t : RequestToken) (w : SpeechWorker) (batch : PcmFrameBatch)
    → Inv w
    → Inv (deliver_or_check t w batch).0
unfolding deliver_or_check
deliver-Inv t w [] v = close-Inv w v.core
deliver-Inv t w (s ∷ ss) v = v

pub with_assembler-Inv :
    (w : SpeechWorker) (a : PcmFrameAssembler)
    → Inv w
    → IsValid a
    → Inv (record w { frame_assembler = a })
with_assembler-Inv w a v valid = record {
  core = record {
    assembler = valid;
    generation = v.generation;
    fault_sides = v.fault_sides;
    busy_sides = v.busy_sides;
    published = v.published;
  };
  settled = v.settled;
}

pub apply_chunk-Inv :
    (t : RequestToken) (w : SpeechWorker) (buffer : List ℕ) (d : ChunkDecision) (a : ChunkAction)
    → Inv w
    → d.bytes_to_frame ≤ length buffer
    → (r : SpeechWorker × AudioIngestResult) × (apply_chunk t w buffer d a ≡ ok r) × Inv r.0
unfolding apply_chunk
apply_chunk-Inv t w buffer d assemble_speaking_audio v inside =
    let (r, e, s) = process-Emits w.frame_assembler buffer d.bytes_to_frame v.assembler inside in
    (
      deliver_or_check t (record w { frame_assembler = r.0 }) r.1,
      rw e,
      deliver-Inv t (record w { frame_assembler = r.0 }) r.1 (with_assembler-Inv w r.0 v s.valid),
    )
apply_chunk-Inv t w buffer d drain_cancellation_audio v inside = (_, refl, close-Inv w v.core)
apply_chunk-Inv t w buffer d fault_unexpected_idle_audio v inside = (_, refl, raise_if-Inv true w v)
apply_chunk-Inv t w buffer d drain_faulted_session_audio v inside = (_, refl, v)

-- `IngestAudioChunkLocked` on a buffer that holds the bytes read never throws in a worker that
-- satisfies the invariant, and leaves one that satisfies it.
pub ingest-Inv :
    (w : SpeechWorker) (buffer : List ℕ) (bytes_read tick : ℕ)
    → Inv w
    → bytes_read ≤ length buffer
    → (r : SpeechWorker × AudioIngestResult) × (ingest_audio_chunk w buffer bytes_read tick ≡ ok r)
      × Inv r.0
unfolding ingest_audio_chunk
ingest-Inv w buffer bytes_read tick v inside =
    apply_chunk-Inv w.context.token _ buffer _ _ (account-Inv w _ bytes_read tick v)
      (omega (arith, bytes_to_frame-le w.context bytes_read))
