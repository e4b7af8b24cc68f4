-- ===== src/Worker/Cancel.antt =====
-- Stopping and cancelling: `Stop`, `CancelAndDrain`, `BeginCancellationLocked`, the decisions of
-- `FinishCancellation` and of `WaitUntilFinished`. What lies between two critical sections (the
-- control message, the wait, the call of the SAPI site) is left to their callers.
use Prim.Native.Nat.{bit_and}
use modern_sapi_adapter.Base.{
  ℕ, ◌-◌, Bool, not, ◌&&◌, ◌||◌, ltb, Option, none, some, ◌==◌, ◌!=◌, nat_eq, if◌then◌else◌, add64,
  to_u32,
}
use modern_sapi_adapter.Windows.{s_ok, s_false, e_fail, e_unexpected, e_abort, timed_out, failed}
use modern_sapi_adapter.Request.{
  DownstreamState, downstream_eq, transition_to_cancelling, is_draining_cancellation,
}
use modern_sapi_adapter.Pcm.Assembler.{discard}
use modern_sapi_adapter.StatePolicy.{
  StopAction, BeginCancellationAction, TimeoutCondition, evaluate_stop, evaluate_begin_cancellation,
  evaluate_timeouts, is_wait_terminal,
}
use modern_sapi_adapter.Worker.State.{SpeechWorker, reset_to_idle}
use modern_sapi_adapter.Worker.Audio.{cancellation_timeout_ms}

-- `Stop`: the request that a cancellation is then sent for, if there is one.
unfoldable pub stop : SpeechWorker → SpeechWorker × Option ℕ
stop w =
    let d = evaluate_stop w.context in
    elim d.action [
      | StopAction.no_action ↦ (w, none)
      | StopAction.reset_and_cancel ↦ (reset_to_idle w, some d.speak_id)
    ]

-- `BeginCancellationLocked`: the result and the request that goes over to cancellation.
unfoldable pub begin_cancellation : SpeechWorker → ℕ → SpeechWorker × ℕ × ℕ
begin_cancellation w deadline =
    let d = evaluate_begin_cancellation w.context deadline in
    elim d.action [
      | BeginCancellationAction.already_idle ↦ (w, s_false, 0)
      | BeginCancellationAction.already_cancelling ↦ (w, e_unexpected, 0)
      | BeginCancellationAction.faulted ↦ (w, e_fail, 0)
      | BeginCancellationAction.transition_to_cancelling ↦ (
        record w {
          context = transition_to_cancelling w.context d.deadline_tick;
          frame_assembler = discard w.frame_assembler;
        },
        s_ok,
        d.speak_id,
      )
    ]

-- How a caller goes on after a critical section.
pub data Next : Type 0 where
  wait_more : Next
  give_back : ℕ → Next
  quarantine : ℕ → Next
  finish_cancellation : ℕ → ℕ → Next

-- `CancelAndDrain` up to the unlock.
unfoldable pub cancel_and_drain : SpeechWorker → ℕ → SpeechWorker × Next
cancel_and_drain w entry_tick =
    let deadline = add64 entry_tick cancellation_timeout_ms in
    let (w', hr, speak_id) = begin_cancellation w deadline in
    (
      w',
      if hr == s_false
          then give_back s_ok
          else if failed hr
          then give_back hr
          else finish_cancellation speak_id deadline,
    )

-- The budget that `FinishCancellation` leaves for the control message.
unfoldable pub send_timeout : ℕ → ℕ → ℕ
send_timeout before_send deadline =
    if ltb before_send deadline then to_u32 (deadline - before_send) else 0

-- What `FinishCancellation` does with the result of the control message.
unfoldable pub after_send : ℕ → Next
after_send hr = if failed hr then quarantine (if hr == timed_out then hr else e_fail) else wait_more

-- What it does when its wait ends, by the predicate or by the deadline.
unfoldable pub after_drain_wait : SpeechWorker → Next
unfolding is_draining_cancellation
after_drain_wait w =
    let completed = not (is_draining_cancellation w.context) || w.exit in
    if not completed && is_draining_cancellation w.context
    then quarantine timed_out
    else give_back (if w.exit then e_abort else w.context.completion_hr)

-- `SynthesisInactivityTimeoutMs`.
abbrev pub synthesis_inactivity_timeout_ms : ℕ
synthesis_inactivity_timeout_ms = 1500

-- One turn of the loop of `WaitUntilFinished` up to the call of the site.
unfoldable pub poll_timeouts : SpeechWorker → ℕ → Next
unfolding is_wait_terminal
poll_timeouts w now =
    if is_wait_terminal w.context w.exit
    then give_back (if w.exit then e_abort else w.context.completion_hr)
    else elim (evaluate_timeouts w.context now w.last_provider_progress_tick
        synthesis_inactivity_timeout_ms).condition [
          | TimeoutCondition.no_timeout ↦ wait_more
          | TimeoutCondition.cancellation_timeout ↦ quarantine timed_out
          | TimeoutCondition.inactivity_timeout ↦ quarantine timed_out
        ]

-- `SpeechProtocolUtils::IsAbortRequested`; `SPVES_ABORT` is 1.
unfoldable pub is_abort_requested : ℕ → Bool
is_abort_requested action_flags = bit_and action_flags 1 != 0

-- The rest of the turn, with what the site's `GetActions` gave.
unfoldable pub poll_abort : SpeechWorker → ℕ → ℕ → SpeechWorker × Next
unfolding is_abort_requested
poll_abort w actions entry_tick =
    let deadline = add64 entry_tick cancellation_timeout_ms in
    let (w', hr, speak_id) = begin_cancellation w deadline in
    if not (is_abort_requested actions) || w.context.downstream_state != DownstreamState.speaking
    then (w, wait_more)
    else (w', if failed hr then give_back hr else finish_cancellation speak_id deadline)
