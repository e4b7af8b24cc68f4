-- ===== src/Worker/Deadline.antt =====
-- Deadlines of `WaitUntilFinished`: how long a cancelled request and a silent provider are waited
-- for.
use modern_sapi_adapter.Base.{
  leb, if◌then◌else◌, ◌||◌, ℕ, ◌+◌, ◌^◌, ◌≤◌, ◌<◌, ◌≡◌, ◌≢◌, ◌⊎◌, ◌↔◌, refl, true, false, arith,
  nat_eq, add64,
}
use modern_sapi_adapter.Windows.{timed_out}
use modern_sapi_adapter.Request.{
  UpstreamState, DownstreamState, upstream_eq, downstream_eq, transition_to_cancelling,
  is_actively_synthesizing, is_awaiting_terminal_audio,
}
use modern_sapi_adapter.Pcm.Assembler.{discard}
use modern_sapi_adapter.StatePolicy.{
  evaluate_timeouts, evaluate_begin_cancellation, is_wait_terminal,
}
use modern_sapi_adapter.Worker.State.{SpeechWorker}
use modern_sapi_adapter.Worker.Cancel.{
  wait_more, quarantine, finish_cancellation, poll_abort, poll_timeouts, begin_cancellation,
  is_abort_requested,
}

-- The worker that an abort leaves.
abbrev aborted : SpeechWorker → ℕ → SpeechWorker
aborted w deadline = record w {
  context = transition_to_cancelling w.context deadline;
  frame_assembler = discard w.frame_assembler;
}

poll_abort-aborted :
    (w : SpeechWorker) (actions entry : ℕ)
    → w.context.downstream_state ≡ DownstreamState.speaking
    → w.context.upstream_state ≢ UpstreamState.faulted
    → is_abort_requested actions ≡ true
    → entry + 500 < 2 ^ 64
    → poll_abort w actions entry
      ≡ (aborted w (entry + 500), finish_cancellation w.context.token.speak_id (entry + 500))
unfolding poll_abort begin_cancellation evaluate_begin_cancellation
poll_abort-aborted w actions entry s u a bound =
    let sum : add64 entry 500 ≡ entry + 500 = omega arith in rw (a, sum) (ground arith)

-- What a turn of the wait does with a draining request.
poll_draining :
    (w : SpeechWorker) (now : ℕ)
    → w.context.downstream_state ≡ DownstreamState.cancelling
    → w.context.upstream_state ≡ UpstreamState.active
    → w.exit ≡ false
    → w.context.cancellation_deadline_tick ≢ 0
    → poll_timeouts w now ≡ (
        if leb w.context.cancellation_deadline_tick now
          || leb (w.last_provider_progress_tick + 1500) now
        then quarantine timed_out
        else wait_more)
unfolding poll_timeouts evaluate_timeouts is_wait_terminal
poll_draining w now d u x n = ground arith

-- An abort of a speaking request whose provider is active, in a worker that is not shutting down,
-- with a deadline that does not wrap, sends one cancellation for the request, whose deadline is 500
-- ms after the entry tick; the wait then ends as a time-out exactly from that deadline on, or when
-- the provider's last progress is 1500 ms ago.
pub abort_deadline :
    (w : SpeechWorker) (actions entry now : ℕ)
    → w.context.downstream_state ≡ DownstreamState.speaking
    → w.context.upstream_state ≡ UpstreamState.active
    → w.exit ≡ false
    → is_abort_requested actions ≡ true
    → entry + 500 < 2 ^ 64
    → let (w', next) = poll_abort w actions entry in
      (next ≡ finish_cancellation w.context.token.speak_id (entry + 500))
      × (poll_timeouts w' now ≡ (
          if leb (entry + 500) now || leb (w.last_provider_progress_tick + 1500) now
          then quarantine timed_out
          else wait_more))
unfolding transition_to_cancelling
abort_deadline w actions entry now s u x a bound =
    let e = poll_abort-aborted w actions entry s (λ f. cc) a bound in
    let p = poll_draining (aborted w (entry + 500)) now refl u x (λ e. omega arith) in
    rw e (refl, p)

-- A speaking request whose provider is active, or has finished with audio still to come, in a
-- worker that is not shutting down, is given up as a time-out exactly when 1500 ms have passed
-- since the provider's last progress.
pub inactivity_iff :
    (w : SpeechWorker) (now : ℕ)
    → w.exit ≡ false
    → w.context.downstream_state ≡ DownstreamState.speaking
    → (w.context.upstream_state ≡ UpstreamState.active) ⊎ (w.context.upstream_finished ≡ true)
    → (poll_timeouts w now ≡ quarantine timed_out) ↔ (w.last_provider_progress_tick + 1500 ≤ now)
unfolding poll_timeouts evaluate_timeouts is_wait_terminal is_actively_synthesizing
    is_awaiting_terminal_audio
inactivity_iff w now x d a = (λ e. ground arith, λ h. ground arith)
