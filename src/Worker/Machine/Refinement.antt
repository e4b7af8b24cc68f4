-- ===== src/Worker/Machine/Refinement.antt =====
-- Every step of a worker refines the request state machine, and what follows of it.
use Prim.Native.String.{String}
use modern_sapi_adapter.Base.{
  ℕ, ◌≡◌, refl, sym, ap, ◌∙◌, ◌≢◌, ◌⊎◌, inl, inr, Bool, true, false, ◌==◌, nat_eq, arith,
  Bool-cases,
}
use modern_sapi_adapter.Request.{
  RequestContext, UpstreamState, DownstreamState, upstream_eq, downstream_eq,
}
use modern_sapi_adapter.Event.{ProviderControlEvent, ProviderEventType, event_type_eq, string_eq}
use modern_sapi_adapter.StatePolicy.{
  UpstreamTerminalAction, UpstreamTerminalDecision, evaluate_terminal_boundary,
}
use modern_sapi_adapter.EventPolicy.{EventAction, evaluate_parsed_event}
use modern_sapi_adapter.Worker.State.{
  SpeechWorker, reset_to_idle, transition_request_to_faulted, check_terminal_boundary, raise_if,
}
use modern_sapi_adapter.Worker.Control.{
  apply_terminal, handle_terminal_event, handle_log_event, fail_utterance, apply_event,
  handle_parsed_control_event,
}
use modern_sapi_adapter.Worker.Fault.{
  begin_fault, reveal_fault, clear_fault_pending, cancel_pipes, raise_for_missing_id, shut_down,
}
use modern_sapi_adapter.Worker.Steps.{
  Step, starts, stops, cancels, ingests, settles, handles, misses_id, begins_fault, reveals_fault,
  clears_fault, cancels_pipes, shuts_down,
}
use modern_sapi_adapter.Worker.Invariant.{Inv}
use modern_sapi_adapter.Worker.Invariant.Control.{terminal_target_busy}
use modern_sapi_adapter.Worker.Machine.{Transition, IsErrorLog, stays, fails, revives, faults}
use modern_sapi_adapter.Worker.Machine.Sections.{
  start-Transition, stop-Transition, begin_cancellation-Transition, close-Transition,
  update-Transition, ingest-Transition,
}

terminal-Transition :
    (w0 w : SpeechWorker) (d : UpstreamTerminalDecision) (a : UpstreamTerminalAction)
    → w.context.downstream_state ≡ w0.context.downstream_state
    → w.notifications ≡ w0.notifications
    → (a ≡ UpstreamTerminalAction.apply
        → (d.target_state ≡ UpstreamState.completed) ⊎ (d.target_state ≡ UpstreamState.cancelled))
    → Transition w0 (raise_if (apply_terminal w d a).1 (apply_terminal w d a).0)
unfolding apply_terminal transition_request_to_faulted
terminal-Transition w0 w d UpstreamTerminalAction.duplicate_fault s n h = faults refl (omega arith)
terminal-Transition w0 w d UpstreamTerminalAction.invalid_bytes_fault s n h =
    faults refl (omega arith)
terminal-Transition w0 w d UpstreamTerminalAction.misaligned_bytes_fault s n h =
    faults refl (omega arith)
terminal-Transition w0 w d UpstreamTerminalAction.apply s n h =
    close-Transition w0 _ s n (λ e. ground (arith, h refl))

-- A failed utterance is reset at once.
pub failed-resets :
    (w : SpeechWorker)
    → w.context.upstream_state ≡ UpstreamState.failed
    → check_terminal_boundary w ≡ (reset_to_idle w, false)
unfolding check_terminal_boundary evaluate_terminal_boundary
failed-resets w e = ground arith

-- What a log does that is no error.
log_cases :
    (w : SpeechWorker) (severity : String)
    → severity ≢ "error"
    → (handle_log_event w severity ≡ (w, true)) ⊎ (handle_log_event w severity ≡ (w, false))
unfolding handle_log_event
log_cases w severity h = elim (Bool-cases (severity == "")) [
  | inl e ↦ inr (rw (e, handle_log_event))
  | inr e ↦ elim (Bool-cases (severity == "fatal")) [
    | inl f ↦ inl (rw (e, handle_log_event, f))
    | inr f ↦ elim (Bool-cases (severity == "error")) [
      | inl g ↦ absurd (h ((string_eq.beq_iff severity "error").0 g))
      | inr g ↦ inr (rw (e, handle_log_event, f, g))
    ]
  ]
]

log-Transition :
    (w0 w : SpeechWorker) (severity : String)
    → w.context.downstream_state ≡ w0.context.downstream_state
    → w.notifications ≡ w0.notifications
    → severity ≢ "error"
    → Transition w0 (raise_if (handle_log_event w severity).1 (handle_log_event w severity).0)
log-Transition w0 w severity s n h = elim (log_cases w severity h) [
  | inl e ↦ rw e (stays s (omega arith))
  | inr e ↦ rw e (stays s (omega arith))
]

-- An error log fails the utterance.
pub error_log_lem :
    (w : SpeechWorker)
    → handle_log_event w "error"
      ≡ (reset_to_idle (record w { context = fail_utterance w.context }), false)
unfolding handle_log_event
error_log_lem w =
    failed-resets (record w { context = fail_utterance w.context }) (unfold fail_utterance in refl)

abbrev is_log_action : EventAction → Bool
is_log_action EventAction.informational_log = true
is_log_action EventAction.request_error_log = true
is_log_action EventAction.fatal_log = true
is_log_action _ = false

-- A log action is decided for a log of the request that the context names, and for nothing else.
log_action_facts :
    (event : ProviderControlEvent) (c : RequestContext)
    → is_log_action (evaluate_parsed_event event c).action ≡ true
    → (event.type ≡ ProviderEventType.log) × (event.speak_id ≡ c.token.speak_id)
unfolding evaluate_parsed_event
log_action_facts event c h = ground arith

faulted_cases :
    (w : SpeechWorker)
    → (w.context.downstream_state ≡ DownstreamState.faulted)
      ⊎ (w.context.downstream_state ≢ DownstreamState.faulted)
faulted_cases w = ground arith

logged :
    (w0 w : SpeechWorker) (event : ProviderControlEvent) (tick : ℕ)
    → w.context.downstream_state ≡ w0.context.downstream_state
    → w.notifications ≡ w0.notifications
    → (event.type ≡ ProviderEventType.log) × (event.speak_id ≡ w0.context.token.speak_id)
    → (handle_parsed_control_event w0 event tick).0
      ≡ raise_if (handle_log_event w event.log_severity).1 (handle_log_event w event.log_severity).0
    → Transition w0 (
        raise_if
          (handle_log_event w event.log_severity).1
          (handle_log_event w event.log_severity).0)
unfolding reset_to_idle fail_utterance
logged w0 w event tick s n (l, i) same = elim (Bool-cases (event.log_severity == "error")) [
  | inl g ↦
      let e = (string_eq.beq_iff event.log_severity "error").0 g in
      let r = ap (handle_log_event w) e ∙ error_log_lem w in
      rw r (
        let log : IsErrorLog w0 event = record { logs = l; severity = e; for_request = i } in
        elim (faulted_cases w0) [
          | inl f ↦ revives f refl (omega arith) refl event tick log (sym (same ∙ rw r))
          | inr f ↦ fails f refl (omega arith) refl event tick log (sym (same ∙ rw r))
        ])
  | inr g ↦
      log-Transition w0 w event.log_severity s n
        (λ e. cc (sym g ∙ (string_eq.beq_iff event.log_severity "error").1 e))
]

apply_event-Transition :
    (w0 w : SpeechWorker) (event : ProviderControlEvent) (tick : ℕ) (a : EventAction)
    → w.context.downstream_state ≡ w0.context.downstream_state
    → w.notifications ≡ w0.notifications
    → (is_log_action a ≡ true
        → (event.type ≡ ProviderEventType.log) × (event.speak_id ≡ w0.context.token.speak_id))
    → (handle_parsed_control_event w0 event tick).0
      ≡ raise_if (apply_event w event a).1 (apply_event w event a).0
    → Transition w0 (raise_if (apply_event w event a).1 (apply_event w event a).0)
unfolding apply_event handle_terminal_event
apply_event-Transition w0 w event tick EventAction.malformed_speech_boundary s n l same =
    stays s (omega arith)
apply_event-Transition w0 w event tick EventAction.synthesis_complete s n l same =
    terminal-Transition w0 w _ _ s n
      (terminal_target_busy w.context _ event.terminal_audio_bytes event.has_valid_terminal_bytes _)
apply_event-Transition w0 w event tick EventAction.synthesis_cancelled s n l same =
    terminal-Transition w0 w _ _ s n
      (terminal_target_busy w.context _ event.terminal_audio_bytes event.has_valid_terminal_bytes _)
apply_event-Transition w0 w event tick EventAction.informational_log s n l same =
    logged w0 w event tick s n (l refl) same
apply_event-Transition w0 w event tick EventAction.request_error_log s n l same =
    logged w0 w event tick s n (l refl) same
apply_event-Transition w0 w event tick EventAction.fatal_log s n l same =
    logged w0 w event tick s n (l refl) same
apply_event-Transition w0 w event tick _ s n l same = stays s (omega arith)

event-Transition :
    (w : SpeechWorker) (event : ProviderControlEvent) (tick : ℕ)
    → Transition w (handle_parsed_control_event w event tick).0
unfolding handle_parsed_control_event
event-Transition w event tick =
    apply_event-Transition w _ event tick (evaluate_parsed_event event w.context).action refl refl
      (log_action_facts event w.context) refl

begin_fault-Transition : (w : SpeechWorker) → Transition w (begin_fault w).0
unfolding begin_fault
begin_fault-Transition w = faults (ground arith) (ground arith)

-- Every step of a worker that satisfies the invariant leaves its engine side as it is, or is one of
-- these transitions. As the document has them: it begins a request from idle, under the next
-- generation; ends a request that has delivered exactly the declared bytes, a cancelled one of which
-- exactly the declared bytes were read, one that is stopped, or one in a worker that is not faulted
-- and that an error log names; turns a speaking request to cancellation; or faults. Against the
-- document: it ends a cancelled request of which more than the declared bytes were read, or, by an
-- error log for the request that the worker still names, takes a faulted worker to idle. Every
-- transition to idle or to faulted is notified.
pub Step-Transition : {w w' : SpeechWorker} → Step w w' → Inv w → Transition w w'
unfolding reveal_fault clear_fault_pending cancel_pipes raise_for_missing_id shut_down
Step-Transition {w} (starts i t e) v = rw e (start-Transition w i t)
Step-Transition {w} (stops e) v = rw e (stop-Transition w)
Step-Transition {w} (cancels d e) v = rw e (begin_cancellation-Transition w d)
Step-Transition {w} (ingests buffer n t r inside run e) v =
    rw e (ingest-Transition w buffer n t r v run)
Step-Transition {w} (settles t n k b e) v = rw e (update-Transition w t n k b v)
Step-Transition {w} (handles event t e) v = rw e (event-Transition w event t)
Step-Transition {w} (misses_id e) v = rw e (stays (ground arith) (ground arith))
Step-Transition {w} (begins_fault e) v = rw e (begin_fault-Transition w)
Step-Transition {w} (reveals_fault p e) v = rw e (stays refl (omega arith))
Step-Transition {w} (clears_fault e) v = rw e (stays refl (omega arith))
Step-Transition {w} (cancels_pipes e) v = rw e (stays (ground arith) (ground arith))
Step-Transition {w} (shuts_down e) v = rw e (stays (ground arith) (ground arith))
