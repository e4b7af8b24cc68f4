-- ===== src/Worker/Fault.antt =====
-- Quarantine: the critical sections of `EnterFaultedState`, the admission of `ForwardEventToSapi`,
-- and the barrier that the control thread raises for an event without a request.
use modern_sapi_adapter.Base.{suc, Bool, true, false, not, ◌&&◌, ◌!=◌, nat_eq, if◌then◌else◌}
use modern_sapi_adapter.Request.{UpstreamState, DownstreamState, upstream_eq, downstream_eq}
use modern_sapi_adapter.Event.{ProviderControlEvent}
use modern_sapi_adapter.Pcm.Assembler.{discard}
use modern_sapi_adapter.EventPolicy.{FinalAdmission, evaluate_final_admission}
use modern_sapi_adapter.Worker.State.{SpeechWorker, transition_request_to_faulted}

-- The first critical section; the flag is false where another thread already publishes.
unfoldable pub begin_fault : SpeechWorker → SpeechWorker × Bool
unfolding transition_request_to_faulted discard
begin_fault w =
    let f =
      transition_request_to_faulted (record w { frame_assembler = discard w.frame_assembler }) in
    let c = f.context in
    if f.fault_publication_started then (f, false) else (
      record f { fault_publication_started = true; context = record c { fault_pending = true } },
      true,
    )

-- The second, under `m_eventForwardMutex`: the store of `m_faultVisible`, then the request state.
unfoldable pub reveal_fault : SpeechWorker → SpeechWorker
reveal_fault w = record w { fault_visible = true }

unfoldable pub clear_fault_pending : SpeechWorker → SpeechWorker
clear_fault_pending w =
    let c = w.context in record w { context = record c { fault_pending = false } }

-- `m_pClient->Cancel`, where there is a client.
unfoldable pub cancel_pipes : SpeechWorker → SpeechWorker
cancel_pipes w = if w.has_client then record w { pipe_cancels = suc w.pipe_cancels } else w

-- `EnterFaultedState` with no other thread in between.
unfoldable pub enter_faulted_state : SpeechWorker → SpeechWorker
unfolding reveal_fault clear_fault_pending cancel_pipes
enter_faulted_state w =
    let (f, first) = begin_fault w in
    if first then cancel_pipes (clear_fault_pending (reveal_fault f)) else f

-- The admission that `ForwardEventToSapi` makes right before the call of the engine.
unfoldable pub admits_event : SpeechWorker → ProviderControlEvent → Bool
admits_event w event =
    not w.fault_visible
    && (event.speak_id != 0 && elim (evaluate_final_admission event w.context) [
      | FinalAdmission.allow ↦ true
      | FinalAdmission.reject ↦ false
    ])

-- `ControlThreadProc` on an event with `speak_id` 0, before it enters the faulted state.
unfoldable pub raise_for_missing_id : SpeechWorker → SpeechWorker
raise_for_missing_id w =
    let c = w.context in
    if c.upstream_state != UpstreamState.faulted && c.downstream_state != DownstreamState.faulted
    then record w { context = record c { fault_pending = true } }
    else w

-- The destructor up to the joins.
unfoldable pub shut_down : SpeechWorker → SpeechWorker
unfolding cancel_pipes
shut_down w = cancel_pipes (record w { exit = true })
