-- ===== src/Worker/State.antt =====
-- The members of `SpeechWorker` that its methods share, and the transitions that every critical
-- section is built of. Times are `GetTickCount64` readings and enter as arguments.
use modern_sapi_adapter.Base.{ℕ, suc, Bool, true, false, ◌||◌, ◌==◌, nat_eq, if◌then◌else◌, add64}
use modern_sapi_adapter.Windows.{e_fail}
use modern_sapi_adapter.Request.{
  RequestContext, UpstreamState, DownstreamState, upstream_eq, downstream_eq, reset, new_context,
}
use modern_sapi_adapter.Pcm.Assembler.{PcmFrameAssembler, discard, has_carry}
use modern_sapi_adapter.Pcm.Delivery.{evaluate_terminal_boundary_facts}
use modern_sapi_adapter.StatePolicy.{
  evaluate_start, evaluate_terminal_boundary, StartAction, TerminalBoundaryAction,
}

-- `notifications` counts the calls of `m_requestChanged.notify_all`, and `pipe_cancels` those of
-- `m_pClient->Cancel`.
pub record SpeechWorker : Type 0 where
  pub context : RequestContext
  pub generation_counter : ℕ
  pub frame_assembler : PcmFrameAssembler
  pub last_provider_progress_tick : ℕ
  pub fault_publication_started : Bool
  pub fault_visible : Bool
  pub exit : Bool
  pub has_client : Bool
  pub notifications : ℕ
  pub pipe_cancels : ℕ

-- A worker as its constructor leaves it, over a constructed assembler.
unfoldable pub new_worker : PcmFrameAssembler → SpeechWorker
unfolding new_context
new_worker assembler = record {
  context = new_context;
  generation_counter = 0;
  frame_assembler = assembler;
  last_provider_progress_tick = 0;
  fault_publication_started = false;
  fault_visible = false;
  exit = false;
  has_client = true;
  notifications = 0;
  pipe_cancels = 0;
}

-- The context and counters of an accepted request.
unfoldable pub started : SpeechWorker → ℕ → ℕ → ℕ → SpeechWorker
unfolding reset discard
started w speak_id generation tick =
    let c = reset w.context in
    record w {
      context = record c {
        token = record { speak_id = speak_id; generation = generation };
        upstream_state = UpstreamState.active;
        downstream_state = DownstreamState.speaking;
      };
      generation_counter = generation;
      frame_assembler = discard w.frame_assembler;
      last_provider_progress_tick = tick;
    }

-- `Start`.
unfoldable pub start : SpeechWorker → ℕ → ℕ → SpeechWorker × Bool
unfolding started
start w speak_id tick =
    let d = evaluate_start w.context speak_id (add64 w.generation_counter 1) in
    elim d.action [
      | StartAction.reject ↦ (w, false)
      | StartAction.accept ↦ (started w d.speak_id d.generation tick, true)
    ]

-- `IsFaulted`.
unfoldable pub is_faulted : SpeechWorker → Bool
is_faulted w =
    w.context.downstream_state == DownstreamState.faulted
    || w.context.upstream_state == UpstreamState.faulted
    || w.context.fault_pending

abbrev pub with_context : SpeechWorker → RequestContext → SpeechWorker
with_context w c = record w { context = c }

-- `TransitionRequestToFaultedLocked`.
unfoldable pub transition_request_to_faulted : SpeechWorker → SpeechWorker
transition_request_to_faulted w =
    let c = w.context in
    record w {
      context = record c {
        upstream_state = UpstreamState.faulted;
        downstream_state = DownstreamState.faulted;
        completion_hr = e_fail;
      };
      notifications = suc w.notifications;
    }

-- `ResetToIdleLocked`.
unfoldable pub reset_to_idle : SpeechWorker → SpeechWorker
unfolding discard
reset_to_idle w =
    let c = w.context in
    record w {
      frame_assembler = discard w.frame_assembler;
      context = record c {
        upstream_state = UpstreamState.idle;
        downstream_state = DownstreamState.idle;
      };
      notifications = suc w.notifications;
    }

-- `CheckTerminalBoundaryLocked`; the flag is its result, a protocol failure.
unfoldable pub check_terminal_boundary : SpeechWorker → SpeechWorker × Bool
check_terminal_boundary w =
    let pcm = evaluate_terminal_boundary_facts w.context (has_carry w.frame_assembler) in
    let action = evaluate_terminal_boundary w.context (record {
      speaking_audio_overrun = pcm.speaking_audio_overrun;
      speaking_terminal_reached = pcm.speaking_terminal_reached;
      cancellation_terminal_reached = pcm.cancellation_terminal_reached;
    }) in
    elim action [
      | TerminalBoundaryAction.continue ↦ (w, false)
      | TerminalBoundaryAction.utterance_failed_reset ↦ (reset_to_idle w, false)
      | TerminalBoundaryAction.overrun_fault ↦ (w, true)
      | TerminalBoundaryAction.normal_complete_reset ↦ (reset_to_idle w, false)
      | TerminalBoundaryAction.cancel_drain_reset ↦ (reset_to_idle w, false)
    ]

-- The end of a critical section: a failed boundary raises the fault barrier.
abbrev pub raise_if : Bool → SpeechWorker → SpeechWorker
raise_if failed w =
    let c = w.context in
    if failed then record w { context = record c { fault_pending = true } } else w
