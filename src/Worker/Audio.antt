-- ===== src/Worker/Audio.antt =====
-- The audio thread's critical sections: `IngestAudioChunkLocked` and
-- `UpdateAfterAudioDeliveryLocked`.
use modern_sapi_adapter.Base.{
  ℕ, Bool, true, false, not, List, [], ◌∷◌, some, Result, ok, ◌>>=◌, ltb, if◌then◌else◌, add64,
}
use modern_sapi_adapter.Request.{RequestToken, transition_to_cancelling}
use modern_sapi_adapter.Pcm.Assembler.{PcmFrameBatch, process, discard}
use modern_sapi_adapter.Pcm.Delivery.{
  ChunkDecision, ChunkAction, BatchAction, evaluate_chunk_ingest, evaluate_batch_outcome,
}
use modern_sapi_adapter.StatePolicy.{BeginCancellationAction, evaluate_begin_cancellation}
use modern_sapi_adapter.Worker.State.{SpeechWorker, check_terminal_boundary, raise_if}

pub record AudioIngestResult : Type 0 where
  pub token : RequestToken
  pub protocol_boundary_failed : Bool
  pub should_deliver_audio : Bool
  pub spans_to_write : PcmFrameBatch

-- The progress tick and the raw byte count after a chunk decision.
unfoldable pub account_chunk : SpeechWorker → ChunkDecision → ℕ → ℕ → SpeechWorker
account_chunk w d bytes_read tick =
    let c = w.context in
    record w {
      last_provider_progress_tick =
          if d.refresh_progress then tick else w.last_provider_progress_tick;
      context =
          if d.count_raw_bytes
          then record c { raw_audio_bytes_read = add64 c.raw_audio_bytes_read bytes_read }
          else c;
    }

abbrev close_ingest : RequestToken → SpeechWorker × Bool → SpeechWorker × AudioIngestResult
close_ingest token r = (
  raise_if r.1 r.0,
  record {
    token = token;
    protocol_boundary_failed = r.1;
    should_deliver_audio = false;
    spans_to_write = [];
  },
)

-- `AssembleSpeakingAudio`: an empty batch may still reach the terminal boundary.
unfoldable pub deliver_or_check :
    RequestToken → SpeechWorker → PcmFrameBatch → SpeechWorker × AudioIngestResult
deliver_or_check token w [] = close_ingest token (check_terminal_boundary w)
deliver_or_check token w (span ∷ spans) = (
  w,
  record {
    token = token;
    protocol_boundary_failed = false;
    should_deliver_audio = true;
    spans_to_write = span ∷ spans;
  },
)

-- The `switch` of `IngestAudioChunkLocked`, over the accounted worker.
unfoldable pub apply_chunk :
    RequestToken
    → SpeechWorker
    → List ℕ
    → ChunkDecision
    → ChunkAction
    → Result (SpeechWorker × AudioIngestResult)
apply_chunk token w buffer d ChunkAction.assemble_speaking_audio =
    process w.frame_assembler (some buffer) d.bytes_to_frame >>= λ r.
    ok (deliver_or_check token (record w { frame_assembler = r.0 }) r.1)
apply_chunk token w buffer d ChunkAction.drain_cancellation_audio =
    ok (close_ingest token (check_terminal_boundary w))
apply_chunk token w buffer d ChunkAction.fault_unexpected_idle_audio =
    ok (close_ingest token (w, true))
apply_chunk token w buffer d ChunkAction.drain_faulted_session_audio =
    ok (close_ingest token (w, false))

-- `IngestAudioChunkLocked` on the first `bytes_read` bytes of the read buffer.
unfoldable pub ingest_audio_chunk :
    SpeechWorker → List ℕ → ℕ → ℕ → Result (SpeechWorker × AudioIngestResult)
ingest_audio_chunk w buffer bytes_read tick =
    let d = evaluate_chunk_ingest w.context bytes_read in
    apply_chunk w.context.token (account_chunk w d bytes_read tick) buffer d d.action

-- The bytes credited to the request.
unfoldable pub credit : SpeechWorker → ℕ → SpeechWorker
credit w bytes =
    let c = w.context in
    if ltb 0 bytes
    then record w {
      context = record c { delivered_audio_bytes = add64 c.delivered_audio_bytes bytes };
    }
    else w

-- `CancellationTimeoutMs`.
abbrev pub cancellation_timeout_ms : ℕ
cancellation_timeout_ms = 500

-- A rejected write: the request goes over to cancellation, unless it is no longer speaking. The
-- number is the request to send a cancellation for, 0 for none.
unfoldable pub cancel_after_rejection : SpeechWorker → ℕ → SpeechWorker × ℕ
cancel_after_rejection w tick =
    let d = evaluate_begin_cancellation w.context (add64 tick cancellation_timeout_ms) in
    elim d.action [
      | BeginCancellationAction.transition_to_cancelling ↦ (
        record w {
          context = transition_to_cancelling w.context d.deadline_tick;
          frame_assembler = discard w.frame_assembler;
        },
        d.speak_id,
      )
      | _ ↦ (w, 0)
    ]

abbrev close_update : SpeechWorker × Bool → SpeechWorker × Bool × ℕ
close_update r = (raise_if r.1 r.0, r.1, 0)

-- The `switch` of `UpdateAfterAudioDeliveryLocked`, over the credited worker.
unfoldable pub settle_batch : SpeechWorker → ℕ → BatchAction → SpeechWorker × Bool × ℕ
settle_batch w tick BatchAction.ignore_stale_or_inactive = (w, false, 0)
settle_batch w tick BatchAction.credit_and_check_boundary = close_update (check_terminal_boundary w)
settle_batch w tick BatchAction.credit_and_begin_cancellation =
    let (w', to_send) = cancel_after_rejection w tick in (w', false, to_send)
settle_batch w tick BatchAction.check_cancellation_boundary =
    close_update (check_terminal_boundary w)

-- `UpdateAfterAudioDeliveryLocked`: its result and `outCancellationToSend`.
unfoldable pub update_after_audio_delivery :
    SpeechWorker → RequestToken → ℕ → Bool → ℕ → SpeechWorker × Bool × ℕ
update_after_audio_delivery w batch_token delivered_bytes write_accepted tick =
    let d = evaluate_batch_outcome w.context batch_token delivered_bytes (not write_accepted) in
    settle_batch (credit w d.accepted_bytes_to_credit) tick d.action
