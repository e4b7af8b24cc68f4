-- ===== src/Worker/Control.antt =====
-- The control thread's critical section: `HandleParsedControlEventLocked` and what it calls.
use Prim.Native.String.{String}
use modern_sapi_adapter.Base.{ℕ, Bool, true, false, ◌==◌, if◌then◌else◌, to_u16}
use modern_sapi_adapter.Windows.{e_fail}
use modern_sapi_adapter.Request.{RequestContext, UpstreamState}
use modern_sapi_adapter.Event.{ProviderControlEvent, ProviderEventType, event_type_eq, string_eq}
use modern_sapi_adapter.Pcm.Delivery.{is_terminal_byte_count_frame_aligned}
use modern_sapi_adapter.StatePolicy.{
  UpstreamTerminalAction, UpstreamTerminalDecision, UpstreamTerminalKind,
  evaluate_upstream_terminal, evaluate_utterance_failure,
}
use modern_sapi_adapter.EventPolicy.{EventAction, evaluate_parsed_event}
use modern_sapi_adapter.Worker.State.{
  SpeechWorker, transition_request_to_faulted, check_terminal_boundary, raise_if,
}

abbrev terminal_kind : ProviderEventType → UpstreamTerminalKind
terminal_kind t =
    if t == ProviderEventType.synthesis_complete
    then UpstreamTerminalKind.completed
    else UpstreamTerminalKind.cancelled

-- The `switch` of `HandleTerminalEventLocked`.
unfoldable pub apply_terminal :
    SpeechWorker → UpstreamTerminalDecision → UpstreamTerminalAction → SpeechWorker × Bool
apply_terminal w d UpstreamTerminalAction.duplicate_fault = (transition_request_to_faulted w, true)
apply_terminal w d UpstreamTerminalAction.invalid_bytes_fault =
    (transition_request_to_faulted w, true)
apply_terminal w d UpstreamTerminalAction.misaligned_bytes_fault =
    (transition_request_to_faulted w, true)
apply_terminal w d UpstreamTerminalAction.apply =
    let c = w.context in
    check_terminal_boundary (record w {
      context = record c {
        upstream_terminal_bytes = d.terminal_audio_bytes;
        upstream_finished = true;
        upstream_state = d.target_state;
      };
    })

-- `HandleTerminalEventLocked`; the flag asks for the faulted state.
unfoldable pub handle_terminal_event :
    SpeechWorker → ProviderEventType → ℕ → Bool → SpeechWorker × Bool
handle_terminal_event w type terminal_audio_bytes has_valid_terminal_bytes =
    let is_frame_aligned =
      is_terminal_byte_count_frame_aligned terminal_audio_bytes
        (to_u16 w.frame_assembler.block_align) in
    let d =
      evaluate_upstream_terminal w.context (terminal_kind type) terminal_audio_bytes
        has_valid_terminal_bytes is_frame_aligned in
    apply_terminal w d d.action

-- The context after an error log has failed the utterance.
unfoldable pub fail_utterance : RequestContext → RequestContext
unfolding evaluate_utterance_failure
fail_utterance c = record c {
  upstream_state = UpstreamState.failed;
  upstream_finished = true;
  completion_hr = e_fail;
  upstream_terminal_bytes = evaluate_utterance_failure c;
}

-- `HandleLogEventLocked`. An empty severity counts as `info`, which is neither of the two tested.
unfoldable pub handle_log_event : SpeechWorker → String → SpeechWorker × Bool
handle_log_event w log_severity =
    let severity = if log_severity == "" then "info" else log_severity in
    if severity == "fatal"
    then (w, true)
    else if severity == "error"
    then check_terminal_boundary (record w { context = fail_utterance w.context })
    else (w, false)

pub record ControlEventDisposition : Type 0 where
  pub should_forward_to_sapi : Bool
  pub should_enter_faulted_state : Bool

-- What the `switch` of `HandleParsedControlEventLocked` does for an action.
unfoldable pub apply_event : SpeechWorker → ProviderControlEvent → EventAction → SpeechWorker × Bool
apply_event w event EventAction.no_locked_action = (w, false)
apply_event w event EventAction.speech_boundary = (w, false)
apply_event w event EventAction.malformed_speech_boundary = (w, true)
apply_event w event EventAction.synthesis_complete =
    handle_terminal_event w event.type event.terminal_audio_bytes event.has_valid_terminal_bytes
apply_event w event EventAction.synthesis_cancelled =
    handle_terminal_event w event.type event.terminal_audio_bytes event.has_valid_terminal_bytes
apply_event w event EventAction.legacy_completed = (w, false)
apply_event w event EventAction.informational_log = handle_log_event w event.log_severity
apply_event w event EventAction.request_error_log = handle_log_event w event.log_severity
apply_event w event EventAction.fatal_log = handle_log_event w event.log_severity
apply_event w event EventAction.unknown = (w, false)

-- `HandleParsedControlEventLocked`.
unfoldable pub handle_parsed_control_event :
    SpeechWorker → ProviderControlEvent → ℕ → SpeechWorker × ControlEventDisposition
handle_parsed_control_event w event tick =
    let d = evaluate_parsed_event event w.context in
    let ticked = record w {
      last_provider_progress_tick =
          if d.should_refresh_progress then tick else w.last_provider_progress_tick;
    } in
    let r = apply_event ticked event d.action in
    (
      raise_if r.1 r.0,
      record {
        should_forward_to_sapi = d.should_forward_to_sapi;
        should_enter_faulted_state = r.1;
      },
    )
