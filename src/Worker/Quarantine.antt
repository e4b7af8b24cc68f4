-- ===== src/Worker/Quarantine.antt =====
-- Quarantine (docs/core_engine.md, "Session quarantine and recovery"): what keeps a faulted worker
-- faulted, and what does not. Also the acknowledgement that follows `Stop`.
use modern_sapi_adapter.Base.{
  ℕ, ◌<◌, Bool-cases, ◌≡◌, refl, sym, ◌∙◌, ◌≢◌, ◌⊎◌, inl, inr, Bool, true, false, nat_eq, arith,
  if◌then◌else◌, to_u16,
}
use modern_sapi_adapter.Request.{UpstreamState, DownstreamState, upstream_eq, downstream_eq}
use modern_sapi_adapter.Event.{ProviderControlEvent, ProviderEventType, event_type_eq, string_eq}
use modern_sapi_adapter.Pcm.Delivery.{is_terminal_byte_count_frame_aligned}
use modern_sapi_adapter.StatePolicy.{
  evaluate_start, evaluate_stop, evaluate_upstream_terminal, is_wait_terminal,
}
use modern_sapi_adapter.EventPolicy.{EventAction, evaluate_parsed_event}
use modern_sapi_adapter.Worker.State.{
  SpeechWorker, start, reset_to_idle, is_faulted, check_terminal_boundary,
}
use modern_sapi_adapter.Worker.Control.{
  fail_utterance, apply_event, handle_parsed_control_event, handle_terminal_event, apply_terminal,
}
use modern_sapi_adapter.Worker.Cancel.{stop}
use modern_sapi_adapter.Worker.Steps.{Step}
use modern_sapi_adapter.Worker.Boundary.{
  Checked, goes_on, overruns, resets, by_failure, by_delivery, by_drain, check-Checked,
}
use modern_sapi_adapter.Worker.Invariant.{Inv}
use modern_sapi_adapter.Worker.Machine.{
  Transition, IsErrorLog, stays, begins, completes, drains, overdrains, abandons, fails, revives,
  turns_to_cancel, faults,
}
use modern_sapi_adapter.Worker.Machine.Refinement.{Step-Transition, error_log_lem}

-- A step from a faulted worker that satisfies the invariant leaves it faulted, or handles an error
-- log for the request that the context still names.
pub faulted_persists :
    {w w' : SpeechWorker}
    → Step w w'
    → Inv w
    → w.context.downstream_state ≡ DownstreamState.faulted
    → (w'.context.downstream_state ≡ DownstreamState.faulted)
      ⊎ ((event : ProviderControlEvent) × (tick : ℕ) × IsErrorLog w event
          × (w' ≡ (handle_parsed_control_event w event tick).0))
faulted_persists {w} {w'} s v f = go (Step-Transition s v)
  where
    go :
        Transition w w'
        → (w'.context.downstream_state ≡ DownstreamState.faulted)
          ⊎ ((event : ProviderControlEvent) × (tick : ℕ) × IsErrorLog w event
              × (w' ≡ (handle_parsed_control_event w event tick).0))
    go (stays e _) = inl (e ∙ f)
    go (begins e _ _) = cc
    go (completes e _ _ _ _ _) = cc
    go (drains e _ _ _ _) = cc
    go (abandons _ e _ _ _) = absurd (e f)
    go (overdrains e _ _ _ _) = cc
    go (fails k _ _ _ _ _ _ _) = absurd (k f)
    go (revives _ _ _ _ event tick l e) = inr (event, tick, l, e)
    go (turns_to_cancel e _ _) = cc
    go (faults e _) = inl e

-- A step that ends a request notifies.
request_over :
    {w w' : SpeechWorker}
    → Step w w'
    → Inv w
    → is_wait_terminal w.context false ≡ false
    → is_wait_terminal w'.context false ≡ true
    → w.notifications < w'.notifications
unfolding is_wait_terminal
request_over {w} {w'} s v a b = go (Step-Transition s v)
  where
    go : Transition w w' → w.notifications < w'.notifications
    go (stays e _) = ground arith
    go (begins e _ _) = ground arith
    go (completes _ _ n _ _ _) = n
    go (drains _ _ n _ _) = n
    go (abandons _ _ _ n _) = n
    go (overdrains _ _ n _ _) = n
    go (fails _ _ n _ _ _ _ _) = n
    go (revives _ _ n _ _ _ _ _) = n
    go (turns_to_cancel _ e _) = ground arith
    go (faults _ n) = n

-- In a worker that satisfies the invariant, a step that makes the predicate of `WaitUntilFinished` true
-- notifies the waiters, unless it sets the exit flag, as the destructor does: the request has not ended
-- then, and the flag alone ends the wait.
pub end_of_wait_notified :
    {w w' : SpeechWorker}
    → Step w w'
    → Inv w
    → is_wait_terminal w.context w.exit ≡ false
    → is_wait_terminal w'.context w'.exit ≡ true
    → (w.notifications < w'.notifications)
      ⊎ ((w.exit ≡ false) × (w'.exit ≡ true) × (is_wait_terminal w'.context false ≡ false))
unfolding is_wait_terminal
end_of_wait_notified {w} {w'} s v a b = elim (Bool-cases (is_wait_terminal w'.context false)) [
  | inl over ↦ inl (request_over s v (ground (arith, a)) over)
  | inr waits ↦ inr (ground (arith, a), ground (arith, b), waits)
]

error_log_decision :
    (w : SpeechWorker) (event : ProviderControlEvent)
    → IsErrorLog w event
    → let d = evaluate_parsed_event event w.context in
      (d.action ≡ EventAction.request_error_log) × (d.should_refresh_progress ≡ false)
unfolding evaluate_parsed_event
error_log_decision w event l =
    ground (arith, (string_eq.beq_iff event.log_severity "error").1 l.severity)

error_log_event :
    (w : SpeechWorker) (event : ProviderControlEvent) (tick : ℕ)
    → IsErrorLog w event
    → (handle_parsed_control_event w event tick).0
      ≡ reset_to_idle (record w { context = fail_utterance w.context })
unfolding handle_parsed_control_event apply_event
error_log_event w event tick l =
    let (a, r) = error_log_decision w event l in rw (a, r, l.severity, error_log_lem w)

-- The other way out of quarantine: in a faulted worker without a raised barrier, an error log for
-- the request that the context names leaves a worker that is not faulted and accepts a new request,
-- while a fault that was visible stays visible.
pub error_log_revives :
    (w : SpeechWorker) (event : ProviderControlEvent) (tick speak_id later : ℕ)
    → w.context.downstream_state ≡ DownstreamState.faulted
    → w.context.fault_pending ≡ false
    → IsErrorLog w event
    → let w' = (handle_parsed_control_event w event tick).0 in
      (is_faulted w' ≡ false)
      × ((start w' speak_id later).1 ≡ true)
      × (w'.fault_visible ≡ w.fault_visible)
unfolding reset_to_idle fail_utterance is_faulted start evaluate_start
error_log_revives w event tick speak_id later f p l =
    rw (error_log_event w event tick l) (ground arith, ground arith, refl)

-- A cancellation acknowledgement for the request that the context names.
pub record IsAcknowledgement (w : SpeechWorker) (event : ProviderControlEvent) : Type 0 where
  pub cancelled : event.type ≡ ProviderEventType.synthesis_cancelled
  pub for_request : event.speak_id ≡ w.context.token.speak_id
  pub has_bytes : event.has_valid_terminal_bytes ≡ true
  pub aligned :
      is_terminal_byte_count_frame_aligned event.terminal_audio_bytes
        (to_u16 w.frame_assembler.block_align)
      ≡ true

acknowledgement_decision :
    (w : SpeechWorker) (event : ProviderControlEvent)
    → IsAcknowledgement w event
    → (evaluate_parsed_event event w.context).action ≡ EventAction.synthesis_cancelled
unfolding evaluate_parsed_event
acknowledgement_decision w event a = ground arith

-- An idle request is at no boundary.
idle_check :
    (w : SpeechWorker)
    → w.context.downstream_state ≡ DownstreamState.idle
    → w.context.upstream_state ≢ UpstreamState.failed
    → check_terminal_boundary w ≡ (w, false)
idle_check w i n = go (check_terminal_boundary w) (check-Checked w)
  where
    go : (r : SpeechWorker × Bool) → Checked w r → r ≡ (w, false)
    go r (goes_on _ _ e) = e
    go r (overruns _ o e) = cc (sym i ∙ o.speaking)
    go r (resets (by_failure f) e) = absurd (n f)
    go r (resets (by_delivery _ d) e) = cc (sym i ∙ d.speaking)
    go r (resets (by_drain _ d) e) = cc (sym i ∙ d.cancelling)

-- The worker that a terminal event leaves of an idle one.
abbrev acknowledged : SpeechWorker → ProviderControlEvent → ℕ → SpeechWorker
acknowledged w event tick =
    let c = w.context in
    record w {
      last_provider_progress_tick = tick;
      context = record c {
        upstream_terminal_bytes = event.terminal_audio_bytes;
        upstream_finished = true;
        upstream_state = UpstreamState.cancelled;
      };
    }

acknowledge_idle :
    (w : SpeechWorker) (event : ProviderControlEvent)
    → w.context.downstream_state ≡ DownstreamState.idle
    → w.context.upstream_finished ≡ false
    → IsAcknowledgement w event
    → handle_terminal_event w event.type event.terminal_audio_bytes event.has_valid_terminal_bytes
      ≡ (acknowledged w event w.last_provider_progress_tick, false)
unfolding handle_terminal_event evaluate_upstream_terminal apply_terminal
acknowledge_idle w event i f a =
    ground (arith, idle_check (acknowledged w event w.last_provider_progress_tick) i (λ e. cc))

acknowledge_handled :
    (w : SpeechWorker) (event : ProviderControlEvent) (tick : ℕ)
    → w.context.downstream_state ≡ DownstreamState.idle
    → w.context.upstream_finished ≡ false
    → IsAcknowledgement w event
    → (later : ℕ) × ((handle_parsed_control_event w event tick).0 ≡ acknowledged w event later)
unfolding handle_parsed_control_event apply_event
acknowledge_handled w event tick i f a =
    let d = evaluate_parsed_event event w.context in
    let later = if d.should_refresh_progress then tick else w.last_provider_progress_tick in
    let ticked : SpeechWorker = record w { last_provider_progress_tick = later } in
    let e = acknowledge_idle ticked event i f (record {
      cancelled = a.cancelled;
      for_request = a.for_request;
      has_bytes = a.has_bytes;
      aligned = a.aligned;
    }) in
    (later, rw (acknowledgement_decision w event a, e))

-- A request that is stopped before the provider has finished, and whose cancellation the provider
-- then acknowledges, leaves a worker that is not faulted and yet refuses every later request.
pub stop_acknowledged_refuses :
    (w : SpeechWorker) (event : ProviderControlEvent) (tick speak_id later : ℕ)
    → w.context.downstream_state ≡ DownstreamState.speaking
    → w.context.upstream_state ≡ UpstreamState.active
    → w.context.upstream_finished ≡ false
    → w.context.fault_pending ≡ false
    → IsAcknowledgement w event
    → let w' = (handle_parsed_control_event (stop w).0 event tick).0 in
      (is_faulted w' ≡ false) × (start w' speak_id later ≡ (w', false))
unfolding stop evaluate_stop reset_to_idle is_faulted start evaluate_start
stop_acknowledged_refuses w event tick speak_id later s u f p a =
    let stopped : (stop w).0 ≡ reset_to_idle w = ground arith in
    let (t, e) = acknowledge_handled (reset_to_idle w) event tick refl f (record {
      cancelled = a.cancelled;
      for_request = a.for_request;
      has_bytes = a.has_bytes;
      aligned = a.aligned;
    }) in
    rw (stopped, e) (ground arith, ground arith)
