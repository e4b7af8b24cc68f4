-- ===== src/StatePolicy.antt =====
-- CoreEngine/SpeechStatePolicy.h and .cpp: the decisions on the life of a request.
use modern_sapi_adapter.Base.{ℕ, ◌-◌, Bool, not, ◌&&◌, ◌||◌, leb, ◌==◌, ◌!=◌, nat_eq, if◌then◌else◌}
use modern_sapi_adapter.Request.{
  RequestContext, UpstreamState, DownstreamState, upstream_eq, downstream_eq,
  is_awaiting_terminal_audio, is_actively_synthesizing, is_draining_cancellation,
}

pub data StartAction : Type 0 where
  reject accept : StartAction

pub record StartDecision : Type 0 where
  pub action : StartAction
  pub speak_id : ℕ
  pub generation : ℕ

pub data UpstreamTerminalKind : Type 0 where
  completed cancelled : UpstreamTerminalKind

pub data UpstreamTerminalAction : Type 0 where
  apply duplicate_fault invalid_bytes_fault misaligned_bytes_fault : UpstreamTerminalAction

pub record UpstreamTerminalDecision : Type 0 where
  pub action : UpstreamTerminalAction
  pub target_state : UpstreamState
  pub terminal_audio_bytes : ℕ

pub data TerminalBoundaryAction : Type 0 where
  continue normal_complete_reset cancel_drain_reset utterance_failed_reset : TerminalBoundaryAction
  overrun_fault : TerminalBoundaryAction

pub record TerminalBoundaryFacts : Type 0 where
  pub speaking_audio_overrun : Bool
  pub speaking_terminal_reached : Bool
  pub cancellation_terminal_reached : Bool

pub data BeginCancellationAction : Type 0 where
  already_idle already_cancelling faulted transition_to_cancelling : BeginCancellationAction

pub record BeginCancellationDecision : Type 0 where
  pub action : BeginCancellationAction
  pub speak_id : ℕ
  pub deadline_tick : ℕ

pub data StopAction : Type 0 where
  no_action reset_and_cancel : StopAction

pub record StopDecision : Type 0 where
  pub action : StopAction
  pub speak_id : ℕ

pub data TimeoutCondition : Type 0 where
  no_timeout cancellation_timeout inactivity_timeout : TimeoutCondition

pub record TimeoutDecision : Type 0 where
  pub condition : TimeoutCondition
  pub speak_id : ℕ

unfoldable pub evaluate_start : RequestContext → ℕ → ℕ → StartDecision
evaluate_start c speak_id next_generation =
    if c.upstream_state == UpstreamState.idle
      && c.downstream_state == DownstreamState.idle
      && not c.fault_pending
    then record { action = accept; speak_id = speak_id; generation = next_generation }
    else record { action = reject; speak_id = 0; generation = 0 }

abbrev terminal_fault : UpstreamTerminalAction → UpstreamTerminalDecision
terminal_fault action = record {
  action = action;
  target_state = UpstreamState.faulted;
  terminal_audio_bytes = 0;
}

abbrev pub terminal_target : UpstreamTerminalKind → UpstreamState
terminal_target UpstreamTerminalKind.completed = UpstreamState.completed
terminal_target UpstreamTerminalKind.cancelled = UpstreamState.cancelled

unfoldable pub evaluate_upstream_terminal :
    RequestContext → UpstreamTerminalKind → ℕ → Bool → Bool → UpstreamTerminalDecision
evaluate_upstream_terminal c kind terminal_audio_bytes has_valid_terminal_bytes is_frame_aligned =
    if c.upstream_finished
    then terminal_fault duplicate_fault
    else if not has_valid_terminal_bytes
    then terminal_fault invalid_bytes_fault
    else if not is_frame_aligned
    then terminal_fault misaligned_bytes_fault
    else record {
      action = apply;
      target_state = terminal_target kind;
      terminal_audio_bytes = terminal_audio_bytes;
    }

-- `EvaluateUtteranceFailure`: its one action with the terminal byte count that it sets.
unfoldable pub evaluate_utterance_failure : RequestContext → ℕ
evaluate_utterance_failure c = c.raw_audio_bytes_read

unfoldable pub evaluate_terminal_boundary :
    RequestContext → TerminalBoundaryFacts → TerminalBoundaryAction
evaluate_terminal_boundary c facts =
    if c.upstream_state == UpstreamState.failed
    then utterance_failed_reset
    else if not c.upstream_finished
    then continue
    else if c.downstream_state == DownstreamState.speaking && facts.speaking_audio_overrun
    then overrun_fault
    else if c.downstream_state == DownstreamState.speaking && facts.speaking_terminal_reached
    then normal_complete_reset
    else if c.downstream_state == DownstreamState.cancelling && facts.cancellation_terminal_reached
    then cancel_drain_reset
    else continue

unfoldable pub evaluate_begin_cancellation : RequestContext → ℕ → BeginCancellationDecision
evaluate_begin_cancellation c deadline =
    if c.downstream_state == DownstreamState.idle
    then record { action = already_idle; speak_id = 0; deadline_tick = 0 }
    else if c.downstream_state == DownstreamState.faulted
        || c.upstream_state == UpstreamState.faulted
    then record { action = BeginCancellationAction.faulted; speak_id = 0; deadline_tick = 0 }
    else if c.downstream_state == DownstreamState.cancelling
    then record { action = already_cancelling; speak_id = 0; deadline_tick = 0 }
    else record {
      action = transition_to_cancelling;
      speak_id = c.token.speak_id;
      deadline_tick = deadline;
    }

unfoldable pub evaluate_stop : RequestContext → StopDecision
evaluate_stop c =
    if c.downstream_state == DownstreamState.idle
      || c.downstream_state == DownstreamState.faulted
      || c.upstream_state == UpstreamState.faulted
    then record { action = no_action; speak_id = 0 }
    else record { action = reset_and_cancel; speak_id = c.token.speak_id }

-- The subtraction runs only at `last_progress ≤ now`.
unfoldable pub evaluate_timeouts : RequestContext → ℕ → ℕ → ℕ → TimeoutDecision
unfolding is_awaiting_terminal_audio is_actively_synthesizing is_draining_cancellation
evaluate_timeouts c now last_progress inactivity_timeout_ms =
    if is_draining_cancellation c
      && c.cancellation_deadline_tick != 0
      && leb c.cancellation_deadline_tick now
    then record { condition = cancellation_timeout; speak_id = c.token.speak_id }
    else if (is_actively_synthesizing c || is_awaiting_terminal_audio c)
        && (leb last_progress now && leb inactivity_timeout_ms (now - last_progress))
    then record { condition = inactivity_timeout; speak_id = c.token.speak_id }
    else record { condition = no_timeout; speak_id = 0 }

unfoldable pub is_wait_terminal : RequestContext → Bool → Bool
is_wait_terminal c exit_signaled =
    c.downstream_state == DownstreamState.idle
    || c.downstream_state == DownstreamState.faulted
    || exit_signaled
