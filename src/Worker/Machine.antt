-- ===== src/Worker/Machine.antt =====
-- The request state machine of docs/core_engine.md, with the two transitions that the code makes and
-- the document excludes, as the relation that every critical section refines.
pub mod Sections
pub mod Refinement
use modern_sapi_adapter.Base.{
  ℕ, suc, ◌+◌, ◌≤◌, ◌<◌, ◌≡◌, refl, sym, ◌∙◌, ◌≢◌, ◌⊎◌, inl, inr, Bool, true, false, arith, add64,
}
use modern_sapi_adapter.Windows.{e_fail}
use modern_sapi_adapter.Request.{RequestContext, UpstreamState, DownstreamState}
use modern_sapi_adapter.Event.{ProviderControlEvent, ProviderEventType}
use modern_sapi_adapter.Worker.State.{
  SpeechWorker, reset_to_idle, check_terminal_boundary, raise_if,
}
use modern_sapi_adapter.Worker.Boundary.{
  Checked, goes_on, overruns, resets, by_failure, by_delivery, by_drain, Resets, check-Checked,
}
use modern_sapi_adapter.Worker.Control.{handle_parsed_control_event}
use modern_sapi_adapter.Worker.Cancel.{stop}

-- An error log for the request that the context still names.
pub record IsErrorLog (w : SpeechWorker) (event : ProviderControlEvent) : Type 0 where
  pub logs : event.type ≡ ProviderEventType.log
  pub severity : event.log_severity ≡ "error"
  pub for_request : event.speak_id ≡ w.context.token.speak_id

-- What one step does to the engine side of a request. Every step that ends a wait is counted among
-- the notifications.
pub data Transition (w w' : SpeechWorker) : Type 0 where
  stays :
      w'.context.downstream_state ≡ w.context.downstream_state
      → w.notifications ≤ w'.notifications
      → Transition w w'
  begins :
      w.context.downstream_state ≡ DownstreamState.idle
      → w'.context.downstream_state ≡ DownstreamState.speaking
      → w'.generation_counter ≡ add64 w.generation_counter 1
      → Transition w w'
  completes :
      w.context.downstream_state ≡ DownstreamState.speaking
      → w'.context.downstream_state ≡ DownstreamState.idle
      → w.notifications < w'.notifications
      → w'.context.upstream_finished ≡ true
      → w'.context.raw_audio_bytes_read ≡ w'.context.upstream_terminal_bytes
      → w'.context.delivered_audio_bytes ≡ w'.context.upstream_terminal_bytes
      → Transition w w'
  drains :
      w.context.downstream_state ≡ DownstreamState.cancelling
      → w'.context.downstream_state ≡ DownstreamState.idle
      → w.notifications < w'.notifications
      → w'.context.upstream_finished ≡ true
      → w'.context.raw_audio_bytes_read ≡ w'.context.upstream_terminal_bytes
      → Transition w w'
  -- The document asks for equality, and for a fault on a mismatch.
  overdrains :
      w.context.downstream_state ≡ DownstreamState.cancelling
      → w'.context.downstream_state ≡ DownstreamState.idle
      → w.notifications < w'.notifications
      → w'.context.upstream_finished ≡ true
      → w'.context.upstream_terminal_bytes < w'.context.raw_audio_bytes_read
      → Transition w w'
  abandons :
      w.context.downstream_state ≢ DownstreamState.idle
      → w.context.downstream_state ≢ DownstreamState.faulted
      → w'.context.downstream_state ≡ DownstreamState.idle
      → w.notifications < w'.notifications
      → w' ≡ (stop w).0
      → Transition w w'
  fails :
      w.context.downstream_state ≢ DownstreamState.faulted
      → w'.context.downstream_state ≡ DownstreamState.idle
      → w.notifications < w'.notifications
      → w'.context.completion_hr ≡ e_fail
      → (event : ProviderControlEvent) (tick : ℕ) → IsErrorLog w event
      → w' ≡ (handle_parsed_control_event w event tick).0
      → Transition w w'
  -- The document has no way out of the faulted state.
  revives :
      w.context.downstream_state ≡ DownstreamState.faulted
      → w'.context.downstream_state ≡ DownstreamState.idle
      → w.notifications < w'.notifications
      → w'.context.completion_hr ≡ e_fail
      → (event : ProviderControlEvent) (tick : ℕ) → IsErrorLog w event
      → w' ≡ (handle_parsed_control_event w event tick).0
      → Transition w w'
  turns_to_cancel :
      w.context.downstream_state ≡ DownstreamState.speaking
      → w'.context.downstream_state ≡ DownstreamState.cancelling
      → w'.context.upstream_finished ≡ false
      → Transition w w'
  faults :
      w'.context.downstream_state ≡ DownstreamState.faulted
      → w.notifications < w'.notifications
      → Transition w w'
