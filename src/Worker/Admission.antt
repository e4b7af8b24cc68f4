-- ===== src/Worker/Admission.antt =====
-- What reaches SAPI: the admission of events by `ForwardEventToSapi`, and what `EnterFaultedState`
-- closes.
use modern_sapi_adapter.Base.{
  ℕ, suc, ◌<◌, ◌≡◌, ◌≢◌, ◌⊎◌, ◌↔◌, refl, ◌∙◌, true, false, if◌then◌else◌, arith, nat_eq,
}
use modern_sapi_adapter.Windows.{e_fail}
use modern_sapi_adapter.Request.{RequestToken, DownstreamState, upstream_eq, downstream_eq}
use modern_sapi_adapter.Event.{ProviderControlEvent, ProviderEventType, event_type_eq}
use modern_sapi_adapter.Pcm.Delivery.{SpanAdmission, evaluate_span_admission}
use modern_sapi_adapter.StatePolicy.{evaluate_start, is_wait_terminal}
use modern_sapi_adapter.EventPolicy.{evaluate_final_admission}
use modern_sapi_adapter.Worker.State.{
  SpeechWorker, start, is_faulted, transition_request_to_faulted,
}
use modern_sapi_adapter.Worker.Fault.{
  admits_event, begin_fault, reveal_fault, clear_fault_pending, cancel_pipes, enter_faulted_state,
}

-- An event may reach the engine now.
pub record IsAdmitted (w : SpeechWorker) (event : ProviderControlEvent) : Type 0 where
  pub unfaulted : w.fault_visible ≡ false
  pub named : event.speak_id ≢ 0
  pub current : event.speak_id ≡ w.context.token.speak_id
  pub timely :
      (event.type ≡ ProviderEventType.log)
      ⊎ ((w.context.downstream_state ≡ DownstreamState.speaking)
          × (w.context.fault_pending ≡ false))

admits_event-IsAdmitted :
    (w : SpeechWorker) (event : ProviderControlEvent)
    → admits_event w event ≡ true
    → IsAdmitted w event
unfolding admits_event evaluate_final_admission
admits_event-IsAdmitted w event a = record {
  unfaulted = ground arith;
  named = ground arith;
  current = ground arith;
  timely = ground arith;
}

IsAdmitted-admits_event :
    (w : SpeechWorker) (event : ProviderControlEvent)
    → IsAdmitted w event
    → admits_event w event ≡ true
unfolding admits_event evaluate_final_admission
IsAdmitted-admits_event w event a = ground (arith, a.unfaulted, a.named, a.current, a.timely)

-- The admission right before the engine is called passes an event exactly when no fault is visible,
-- the event names a request, this is the request of the context, and it is a log or the request is
-- still speaking with no fault pending.
pub admits_event_iff :
    (w : SpeechWorker) (event : ProviderControlEvent)
    → (admits_event w event ≡ true) ↔ IsAdmitted w event
admits_event_iff w event = (admits_event-IsAdmitted w event, IsAdmitted-admits_event w event)

-- A worker that SAPI hears nothing more of.
pub record IsClosed (w : SpeechWorker) : Type 0 where
  pub faulted : is_faulted w ≡ true
  pub failed_request : w.context.completion_hr ≡ e_fail
  pub released : is_wait_terminal w.context false ≡ true
  pub refuses : (speak_id tick : ℕ) → start w speak_id tick ≡ (w, false)
  pub unwritten : (t : RequestToken) → evaluate_span_admission w.context t ≡ SpanAdmission.reject
  pub unheard : (event : ProviderControlEvent) → admits_event w event ≡ false

faulted-IsClosed :
    (w : SpeechWorker)
    → w.context.downstream_state ≡ DownstreamState.faulted
    → w.context.completion_hr ≡ e_fail
    → w.fault_visible ≡ true
    → IsClosed w
unfolding is_faulted start evaluate_start is_wait_terminal evaluate_span_admission admits_event
faulted-IsClosed w d h v = record {
  faulted = ground arith;
  failed_request = h;
  released = ground arith;
  refuses = λ speak_id tick. ground arith;
  unwritten = λ t. ground arith;
  unheard = λ event. ground arith;
}

-- What every entry into the faulted state does, whether or not it is the first.
pub record IsQuarantined (w : SpeechWorker) : Type 0 where
  pub faulted : is_faulted w ≡ true
  pub failed_request : w.context.completion_hr ≡ e_fail
  pub released : is_wait_terminal w.context false ≡ true
  pub refuses : (speak_id tick : ℕ) → start w speak_id tick ≡ (w, false)
  pub unwritten : (t : RequestToken) → evaluate_span_admission w.context t ≡ SpanAdmission.reject

pub enter_faulted_state-IsQuarantined : (w : SpeechWorker) → IsQuarantined (enter_faulted_state w)
unfolding is_faulted start evaluate_start is_wait_terminal evaluate_span_admission
    enter_faulted_state begin_fault transition_request_to_faulted cancel_pipes clear_fault_pending
    reveal_fault
enter_faulted_state-IsQuarantined w = record {
  faulted = ground arith;
  failed_request = ground arith;
  released = ground arith;
  refuses = λ speak_id tick. ground arith;
  unwritten = λ t. ground arith;
}

-- The first entry also shuts out the provider.
pub enter_faulted_state-cases :
    (w : SpeechWorker)
    → let w' = enter_faulted_state w in
      (w.fault_publication_started ≡ true)
      ⊎ ((w'.fault_visible ≡ true)
          × (w'.pipe_cancels ≡ (if w.has_client then suc w.pipe_cancels else w.pipe_cancels)))
unfolding enter_faulted_state begin_fault transition_request_to_faulted cancel_pipes
    clear_fault_pending reveal_fault
enter_faulted_state-cases w = ground arith

-- What the publication of a fault does.
first_fault :
    (w : SpeechWorker)
    → w.fault_publication_started ≡ false
    → w.has_client ≡ true
    → let w' = enter_faulted_state w in
      (w'.context.downstream_state ≡ DownstreamState.faulted)
      × (w'.context.completion_hr ≡ e_fail)
      × (w'.fault_visible ≡ true)
      × (w'.fault_publication_started ≡ true)
      × (w'.notifications ≡ suc w.notifications)
      × (w'.pipe_cancels ≡ suc w.pipe_cancels)
unfolding enter_faulted_state begin_fault transition_request_to_faulted cancel_pipes
    clear_fault_pending reveal_fault
first_fault w f c = rw (f, c) (refl, refl, refl, refl, refl, refl)

-- What a later call does.
later_fault :
    (w : SpeechWorker)
    → w.fault_publication_started ≡ true
    → let w' = enter_faulted_state w in
      (w'.context.downstream_state ≡ DownstreamState.faulted)
      × (w'.context.completion_hr ≡ e_fail)
      × (w'.fault_visible ≡ w.fault_visible)
      × (w'.pipe_cancels ≡ w.pipe_cancels)
unfolding enter_faulted_state begin_fault transition_request_to_faulted
later_fault w f = rw f (refl, refl, refl, refl)

-- The first `EnterFaultedState` of a worker that has a client, so one of which no fault has ever been
-- published, closes it: the worker is faulted, the request fails with `E_FAIL`, waits end,
-- `Start` refuses, no span and no event is admitted any more; the waiters are notified, and the
-- pipes are cancelled once. Entering it again right then cancels nothing more and leaves it closed.
pub enter_faulted_state-IsClosed :
    (w : SpeechWorker)
    → w.fault_publication_started ≡ false
    → w.has_client ≡ true
    → let w' = enter_faulted_state w in
      IsClosed w'
      × (w.notifications < w'.notifications)
      × (w'.pipe_cancels ≡ suc w.pipe_cancels)
      × ((enter_faulted_state w').pipe_cancels ≡ w'.pipe_cancels)
      × IsClosed (enter_faulted_state w')
enter_faulted_state-IsClosed w f c =
    let (d, h, v, p, n, k) = first_fault w f c in
    let (d', h', v', k') = later_fault (enter_faulted_state w) p in
    (
      faulted-IsClosed (enter_faulted_state w) d h v,
      omega (arith, n),
      k,
      k',
      faulted-IsClosed (enter_faulted_state (enter_faulted_state w)) d' h' (v' ∙ v),
    )
