-- ===== src/Worker/Invariant/Control.antt =====
-- The control thread's critical section keeps the invariant of a worker.
use Prim.Native.String.{String}
use modern_sapi_adapter.Base.{ℕ, ◌≡◌, refl, ◌⊎◌, Bool, arith}
use modern_sapi_adapter.Request.{RequestContext, UpstreamState}
use modern_sapi_adapter.Event.{ProviderControlEvent, ProviderEventType}
use modern_sapi_adapter.StatePolicy.{
  UpstreamTerminalAction, UpstreamTerminalKind, UpstreamTerminalDecision,
  evaluate_upstream_terminal,
}
use modern_sapi_adapter.EventPolicy.{EventAction}
use modern_sapi_adapter.Worker.State.{SpeechWorker, transition_request_to_faulted}
use modern_sapi_adapter.Worker.Control.{
  apply_terminal, handle_terminal_event, handle_log_event, fail_utterance, apply_event,
  handle_parsed_control_event,
}
use modern_sapi_adapter.Worker.Invariant.{Core, Inv, check-Inv, raise_if-Inv}

pub transition-Inv : (w : SpeechWorker) → Inv w → Inv (transition_request_to_faulted w)
unfolding transition_request_to_faulted
transition-Inv w v = ground arith

pub ticked-Inv :
    (w : SpeechWorker) (tick : ℕ) → Inv w → Inv (record w { last_provider_progress_tick = tick })
ticked-Inv w tick v = ground arith

pub terminal_target_busy :
    (c : RequestContext) (k : UpstreamTerminalKind) (n : ℕ) (b f : Bool)
    → let d = evaluate_upstream_terminal c k n b f in
      d.action ≡ UpstreamTerminalAction.apply
      → (d.target_state ≡ UpstreamState.completed) ⊎ (d.target_state ≡ UpstreamState.cancelled)
unfolding evaluate_upstream_terminal
terminal_target_busy c UpstreamTerminalKind.completed n b f h = ground arith
terminal_target_busy c UpstreamTerminalKind.cancelled n b f h = ground arith

pub apply_terminal-Inv :
    (w : SpeechWorker) (d : UpstreamTerminalDecision) (a : UpstreamTerminalAction)
    → Inv w
    → (a ≡ UpstreamTerminalAction.apply
        → (d.target_state ≡ UpstreamState.completed) ⊎ (d.target_state ≡ UpstreamState.cancelled))
    → Inv (apply_terminal w d a).0
unfolding apply_terminal
apply_terminal-Inv w d UpstreamTerminalAction.duplicate_fault v h = transition-Inv w v
apply_terminal-Inv w d UpstreamTerminalAction.invalid_bytes_fault v h = transition-Inv w v
apply_terminal-Inv w d UpstreamTerminalAction.misaligned_bytes_fault v h = transition-Inv w v
apply_terminal-Inv w d UpstreamTerminalAction.apply v h = check-Inv _ (record {
  assembler = v.assembler;
  generation = v.generation;
  fault_sides = λ e. ground (arith, h refl);
  busy_sides = λ e. ground (arith, h refl);
  published = v.published;
})

pub handle_terminal-Inv :
    (w : SpeechWorker) (t : ProviderEventType) (n : ℕ) (b : Bool)
    → Inv w
    → Inv (handle_terminal_event w t n b).0
unfolding handle_terminal_event
handle_terminal-Inv w t n b v = apply_terminal-Inv w _ _ v (terminal_target_busy w.context _ n b _)

failing-Core : (w : SpeechWorker) → Core w → Core (record w { context = fail_utterance w.context })
unfolding fail_utterance
failing-Core w v = record {
  assembler = v.assembler;
  generation = v.generation;
  fault_sides = λ e. cc;
  busy_sides = λ e. cc;
  published = v.published;
}

pub handle_log-Inv :
    (w : SpeechWorker) (severity : String) → Inv w → Inv (handle_log_event w severity).0
unfolding handle_log_event
handle_log-Inv w severity v = ground (arith, check-Inv _ (failing-Core w v.core))

pub apply_event-Inv :
    (w : SpeechWorker) (e : ProviderControlEvent) (a : EventAction)
    → Inv w
    → Inv (apply_event w e a).0
unfolding apply_event
apply_event-Inv w e EventAction.no_locked_action v = v
apply_event-Inv w e EventAction.synthesis_complete v = handle_terminal-Inv w _ _ _ v
apply_event-Inv w e EventAction.synthesis_cancelled v = handle_terminal-Inv w _ _ _ v
apply_event-Inv w e EventAction.informational_log v = handle_log-Inv w _ v
apply_event-Inv w e EventAction.request_error_log v = handle_log-Inv w _ v
apply_event-Inv w e EventAction.fatal_log v = handle_log-Inv w _ v
apply_event-Inv w e _ v = v

pub handle_event-Inv :
    (w : SpeechWorker) (event : ProviderControlEvent) (tick : ℕ)
    → Inv w
    → Inv (handle_parsed_control_event w event tick).0
unfolding handle_parsed_control_event
handle_event-Inv w event tick v = raise_if-Inv _ _ (apply_event-Inv _ event _ (ticked-Inv w _ v))
