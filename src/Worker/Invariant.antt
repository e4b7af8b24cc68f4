-- ===== src/Worker/Invariant.antt =====
-- What holds of a worker whenever no critical section runs.
pub mod Audio
pub mod Control
pub mod Sections
use modern_sapi_adapter.Base.{
  ℕ, zero, suc, ◌+◌, ◌%◌, ◌^◌, ◌≤◌, ◌<◌, ◌≡◌, refl, sym, ap, ◌∙◌, ◌≢◌, ◌⊎◌, inl, inr, Bool, true,
  false, List, [], ◌∷◌, length, some, ok, threw, Result, arith, Bool-cases,
}
use modern_sapi_adapter.Request.{
  RequestContext, RequestToken, UpstreamState, DownstreamState, new_context, reset,
  transition_to_cancelling,
}
use modern_sapi_adapter.Event.{ProviderControlEvent}
use modern_sapi_adapter.Pcm.Assembler.{PcmFrameAssembler, PcmFrameBatch, discard, process}
use modern_sapi_adapter.Pcm.Frames.{IsValid, process-Emits}
use modern_sapi_adapter.Pcm.Delivery.{
  ChunkDecision, ChunkAction, BatchAction, assemble_speaking_audio, drain_cancellation_audio,
  fault_unexpected_idle_audio, drain_faulted_session_audio, ignore_stale_or_inactive,
  credit_and_check_boundary, credit_and_begin_cancellation, check_cancellation_boundary,
  evaluate_chunk_ingest, evaluate_batch_outcome,
}
use modern_sapi_adapter.Pcm.DeliveryLaws.{bytes_to_frame-le}
use modern_sapi_adapter.StatePolicy.{
  UpstreamTerminalAction, UpstreamTerminalKind, UpstreamTerminalDecision, evaluate_start,
  evaluate_begin_cancellation, evaluate_upstream_terminal, evaluate_stop,
}
use modern_sapi_adapter.EventPolicy.{EventAction, evaluate_parsed_event}
use modern_sapi_adapter.Worker.State.{
  SpeechWorker, new_worker, start, reset_to_idle, transition_request_to_faulted,
  check_terminal_boundary, raise_if,
}
use modern_sapi_adapter.Worker.Boundary.{Checked, goes_on, overruns, resets, check-Checked}
use modern_sapi_adapter.Worker.Audio.{
  AudioIngestResult, apply_chunk, settle_batch, account_chunk, deliver_or_check, ingest_audio_chunk,
  credit, cancel_after_rejection, update_after_audio_delivery,
}
use modern_sapi_adapter.Worker.Control.{
  handle_terminal_event, handle_log_event, fail_utterance, apply_event, handle_parsed_control_event,
}
use modern_sapi_adapter.Worker.Cancel.{stop, begin_cancellation}
use modern_sapi_adapter.Worker.Fault.{
  begin_fault, reveal_fault, clear_fault_pending, cancel_pipes, raise_for_missing_id, shut_down,
}
use modern_sapi_adapter.Worker.Steps.{
  Step, starts, stops, cancels, ingests, settles, handles, misses_id, begins_fault, reveals_fault,
  clears_fault, cancels_pipes, shuts_down, Reach, here, next,
}

-- What holds also inside a critical section.
pub record Core (w : SpeechWorker) : Type 0 where
  pub assembler : IsValid w.frame_assembler
  pub generation : w.context.token.generation ≡ w.generation_counter
  pub fault_sides :
      w.context.upstream_state ≡ UpstreamState.faulted
      → w.context.downstream_state ≡ DownstreamState.faulted
  pub busy_sides :
      w.context.upstream_state ≡ UpstreamState.idle
      → (w.context.downstream_state ≡ DownstreamState.idle)
        ⊎ (w.context.downstream_state ≡ DownstreamState.faulted)
  pub published : w.fault_visible ≡ true → w.fault_publication_started ≡ true

pub record Inv (w : SpeechWorker) : Type 0 where
  pub core : Core w
  pub open core use *
  pub settled : w.context.upstream_state ≢ UpstreamState.failed

pub discard-IsValid : (a : PcmFrameAssembler) → IsValid a → IsValid (discard a)
unfolding discard
discard-IsValid a v = record { positive = v.positive; partial = v.positive }

pub reset_to_idle-Inv : (w : SpeechWorker) → Core w → Inv (reset_to_idle w)
unfolding reset_to_idle
reset_to_idle-Inv w v = record {
  core = record {
    assembler = discard-IsValid w.frame_assembler v.assembler;
    generation = v.generation;
    fault_sides = λ e. cc;
    busy_sides = λ _. inl refl;
    published = v.published;
  };
  settled = λ e. cc;
}

pub check-Inv : (w : SpeechWorker) → Core w → Inv (check_terminal_boundary w).0
check-Inv w v = go (check_terminal_boundary w) (check-Checked w)
  where
    go : (r : SpeechWorker × Bool) → Checked w r → Inv r.0
    go r (goes_on n _ e) = rw e (record { core = v; settled = n })
    go r (overruns n o e) = rw e (record { core = v; settled = n })
    go r (resets why e) = rw e (reset_to_idle-Inv w v)

pub raise_if-Inv : (b : Bool) (w : SpeechWorker) → Inv w → Inv (raise_if b w)
raise_if-Inv true w v = record {
  core = record {
    assembler = v.assembler;
    generation = v.generation;
    fault_sides = v.fault_sides;
    busy_sides = v.busy_sides;
    published = v.published;
  };
  settled = v.settled;
}
raise_if-Inv false w v = v

pub close-Inv :
    (w : SpeechWorker)
    → Core w
    → Inv (raise_if (check_terminal_boundary w).1 (check_terminal_boundary w).0)
close-Inv w v = raise_if-Inv _ (check_terminal_boundary w).0 (check-Inv w v)
