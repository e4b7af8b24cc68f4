-- ===== src/EventPolicy.antt =====
-- CoreEngine/ControlEventPolicy.h and .cpp: what a parsed control event does to a request.
use modern_sapi_adapter.Base.{Bool, false, not, ◌&&◌, ◌||◌, ◌==◌, ◌!=◌, nat_eq, if◌then◌else◌}
use modern_sapi_adapter.Request.{
  RequestContext, UpstreamState, DownstreamState, upstream_eq, downstream_eq,
}
use modern_sapi_adapter.Event.{ProviderControlEvent, ProviderEventType, event_type_eq, string_eq}

pub data EventAction : Type 0 where
  no_locked_action speech_boundary malformed_speech_boundary synthesis_complete : EventAction
  synthesis_cancelled legacy_completed informational_log request_error_log : EventAction
  fatal_log unknown : EventAction

pub record EventDecision : Type 0 where
  pub action : EventAction
  pub should_refresh_progress : Bool
  pub should_forward_to_sapi : Bool

pub data FinalAdmission : Type 0 where
  reject allow : FinalAdmission

-- `p0`: neither side is faulted and no fault is pending.
abbrev pub fault_free : RequestContext → Bool
fault_free c =
    c.upstream_state != UpstreamState.faulted
    && c.downstream_state != DownstreamState.faulted
    && not c.fault_pending

abbrev pub in_progress : RequestContext → Bool
in_progress c =
    c.downstream_state == DownstreamState.speaking
    || c.downstream_state == DownstreamState.cancelling

abbrev event_decision : EventAction → Bool → Bool → EventDecision
event_decision action refresh forward = record {
  action = action;
  should_refresh_progress = refresh;
  should_forward_to_sapi = forward;
}

unfoldable pub boundary_decision : ProviderControlEvent → RequestContext → EventDecision
boundary_decision event c =
    if not event.has_valid_speech_offsets
    then event_decision malformed_speech_boundary false false
    else event_decision speech_boundary (in_progress c)
        (c.downstream_state == DownstreamState.speaking && fault_free c)

unfoldable pub log_action : ProviderControlEvent → EventAction
log_action event =
    if event.log_severity == "error"
    then request_error_log
    else if event.log_severity == "fatal"
    then fatal_log
    else informational_log

unfoldable pub evaluate_parsed_event : ProviderControlEvent → RequestContext → EventDecision
unfolding boundary_decision log_action
evaluate_parsed_event event c =
    if event.speak_id != c.token.speak_id
    then event_decision no_locked_action false (fault_free c)
    else elim event.type [
      | ProviderEventType.word_boundary ↦ boundary_decision event c
      | ProviderEventType.sentence_boundary ↦ boundary_decision event c
      | ProviderEventType.bookmark ↦ boundary_decision event c
      | ProviderEventType.synthesis_complete ↦
          event_decision EventAction.synthesis_complete
            (event.has_valid_terminal_bytes && in_progress c) (fault_free c)
      | ProviderEventType.synthesis_cancelled ↦
          event_decision EventAction.synthesis_cancelled
            (event.has_valid_terminal_bytes && in_progress c) (fault_free c)
      | ProviderEventType.legacy_completed ↦
          event_decision EventAction.legacy_completed false (fault_free c)
      | ProviderEventType.log ↦ event_decision (log_action event) false (fault_free c)
      | ProviderEventType.unknown ↦ event_decision EventAction.unknown false (fault_free c)
    ]

unfoldable pub evaluate_final_admission : ProviderControlEvent → RequestContext → FinalAdmission
evaluate_final_admission event c =
    if event.speak_id != c.token.speak_id
    then reject
    else if event.type == ProviderEventType.log
    then allow
    else if c.downstream_state == DownstreamState.speaking && not c.fault_pending
    then allow
    else reject
