-- ===== src/Worker/Watch.antt =====
-- Every request that is not over is watched by a deadline of `WaitUntilFinished`.
use Prim.Native.String.{String}
use modern_sapi_adapter.Base.{
  ℕ, ◌+◌, ◌^◌, ◌<◌, ◌≡◌, ◌≢◌, ◌⊎◌, inr, refl, subst, Bool, true, false, List, [], ◌∷◌, some, ok,
  ok-injective, >>=-eq-ok, nat_eq, if_keeps, add64, arith,
}
use modern_sapi_adapter.Request.{
  RequestContext, RequestToken, UpstreamState, DownstreamState, upstream_eq, downstream_eq, reset,
  new_context, transition_to_cancelling,
}
use modern_sapi_adapter.Event.{ProviderControlEvent, ProviderEventType}
use modern_sapi_adapter.Pcm.Assembler.{PcmFrameAssembler, PcmFrameBatch, process}
use modern_sapi_adapter.Pcm.Delivery.{ChunkDecision, ChunkAction, BatchAction}
use modern_sapi_adapter.StatePolicy.{
  UpstreamTerminalAction, UpstreamTerminalDecision, evaluate_begin_cancellation,
}
use modern_sapi_adapter.EventPolicy.{EventAction}
use modern_sapi_adapter.Worker.State.{
  SpeechWorker, new_worker, start, started, reset_to_idle, check_terminal_boundary, raise_if,
  transition_request_to_faulted,
}
use modern_sapi_adapter.Worker.Boundary.{Checked, goes_on, overruns, resets, check-Checked}
use modern_sapi_adapter.Worker.Audio.{
  AudioIngestResult, apply_chunk, settle_batch, account_chunk, deliver_or_check, ingest_audio_chunk,
  credit, cancel_after_rejection, update_after_audio_delivery,
}
use modern_sapi_adapter.Worker.Control.{
  apply_terminal, handle_terminal_event, handle_log_event, fail_utterance, apply_event,
  handle_parsed_control_event,
}
use modern_sapi_adapter.Worker.Cancel.{stop, begin_cancellation}
use modern_sapi_adapter.Worker.Fault.{
  begin_fault, reveal_fault, clear_fault_pending, cancel_pipes, raise_for_missing_id, shut_down,
}
use modern_sapi_adapter.Worker.Steps.{
  Step, starts, stops, cancels, ingests, settles, handles, misses_id, begins_fault, reveals_fault,
  clears_fault, cancels_pipes, shuts_down,
}

-- The provider of a speaking request is active or has finished, and a cancelled request has a
-- deadline.
pub record Watched (c : RequestContext) : Type 0 where
  pub speaking :
      c.downstream_state ≡ DownstreamState.speaking
      → (c.upstream_state ≡ UpstreamState.active) ⊎ (c.upstream_finished ≡ true)
  pub cancelling :
      c.downstream_state ≡ DownstreamState.cancelling → c.cancellation_deadline_tick ≢ 0

abbrev pub IsWatched : SpeechWorker → Type 0
IsWatched w = Watched w.context

reset_to_idle-IsWatched : (w : SpeechWorker) → IsWatched (reset_to_idle w)
unfolding reset_to_idle
reset_to_idle-IsWatched w = record { speaking = λ e. cc; cancelling = λ e. cc }

check-IsWatched : (w : SpeechWorker) → IsWatched w → IsWatched (check_terminal_boundary w).0
check-IsWatched w v = go (check_terminal_boundary w) (check-Checked w)
  where
    go : (r : SpeechWorker × Bool) → Checked w r → IsWatched r.0
    go r (goes_on n _ e) = rw e v
    go r (overruns n o e) = rw e v
    go r (resets why e) = rw e (reset_to_idle-IsWatched w)

raise_if-IsWatched : (b : Bool) (w : SpeechWorker) → IsWatched w → IsWatched (raise_if b w)
raise_if-IsWatched true w v = record { speaking = v.speaking; cancelling = v.cancelling }
raise_if-IsWatched false w v = v

close-IsWatched :
    (w : SpeechWorker)
    → IsWatched w
    → IsWatched (raise_if (check_terminal_boundary w).1 (check_terminal_boundary w).0)
close-IsWatched w v = raise_if-IsWatched _ _ (check-IsWatched w v)

transition-IsWatched : (w : SpeechWorker) → IsWatched (transition_request_to_faulted w)
unfolding transition_request_to_faulted
transition-IsWatched w = record { speaking = λ e. cc; cancelling = λ e. cc }

start-IsWatched : (w : SpeechWorker) (i t : ℕ) → IsWatched w → IsWatched (start w i t).0
unfolding start started reset
start-IsWatched w i t v = ground arith

stop-IsWatched : (w : SpeechWorker) → IsWatched w → IsWatched (stop w).0
unfolding stop
stop-IsWatched w v = ground (arith, reset_to_idle-IsWatched w)

cancel-IsWatched :
    (w : SpeechWorker) (d : ℕ) → d ≢ 0 → IsWatched w → IsWatched (begin_cancellation w d).0
unfolding begin_cancellation evaluate_begin_cancellation transition_to_cancelling
cancel-IsWatched w d n v = ground (arith, v)

reject-IsWatched :
    (w : SpeechWorker) (t : ℕ)
    → t + 500 < 2 ^ 64
    → IsWatched w
    → IsWatched (cancel_after_rejection w t).0
unfolding cancel_after_rejection evaluate_begin_cancellation transition_to_cancelling
reject-IsWatched w t n v = let sum : add64 t 500 ≡ t + 500 = omega arith in ground (arith, v, sum)

credit-IsWatched : (w : SpeechWorker) (n : ℕ) → IsWatched w → IsWatched (credit w n)
unfolding credit
credit-IsWatched w n v = ground (arith, v)

settle-IsWatched :
    (w : SpeechWorker) (t : ℕ) (a : BatchAction)
    → t + 500 < 2 ^ 64
    → IsWatched w
    → IsWatched (settle_batch w t a).0
unfolding settle_batch
settle-IsWatched w t BatchAction.ignore_stale_or_inactive n v = v
settle-IsWatched w t BatchAction.credit_and_check_boundary n v = close-IsWatched w v
settle-IsWatched w t BatchAction.credit_and_begin_cancellation n v = reject-IsWatched w t n v
settle-IsWatched w t BatchAction.check_cancellation_boundary n v = close-IsWatched w v

update-IsWatched :
    (w : SpeechWorker) (t : RequestToken) (n tick : ℕ) (b : Bool)
    → tick + 500 < 2 ^ 64
    → IsWatched w
    → IsWatched (update_after_audio_delivery w t n b tick).0
unfolding update_after_audio_delivery
update-IsWatched w t n tick b h v = settle-IsWatched _ tick _ h (credit-IsWatched w _ v)

account-IsWatched :
    (w : SpeechWorker) (d : ChunkDecision) (n tick : ℕ)
    → IsWatched w
    → IsWatched (account_chunk w d n tick)
unfolding account_chunk
account-IsWatched w d n tick v = ground (arith, v)

deliver-IsWatched :
    (t : RequestToken) (w : SpeechWorker) (batch : PcmFrameBatch)
    → IsWatched w
    → IsWatched (deliver_or_check t w batch).0
unfolding deliver_or_check
deliver-IsWatched t w [] v = close-IsWatched w v
deliver-IsWatched t w (s ∷ ss) v = v

apply_terminal-IsWatched :
    (w : SpeechWorker) (d : UpstreamTerminalDecision) (a : UpstreamTerminalAction)
    → IsWatched w
    → IsWatched (apply_terminal w d a).0
unfolding apply_terminal
apply_terminal-IsWatched w d UpstreamTerminalAction.duplicate_fault v = transition-IsWatched w
apply_terminal-IsWatched w d UpstreamTerminalAction.invalid_bytes_fault v = transition-IsWatched w
apply_terminal-IsWatched w d UpstreamTerminalAction.misaligned_bytes_fault v =
    transition-IsWatched w
apply_terminal-IsWatched w d UpstreamTerminalAction.apply v =
    check-IsWatched _ (record { speaking = λ e. inr refl; cancelling = v.cancelling })

failed-IsWatched :
    (w : SpeechWorker) → IsWatched w → IsWatched (record w { context = fail_utterance w.context })
unfolding fail_utterance
failed-IsWatched w v = record { speaking = λ e. inr refl; cancelling = v.cancelling }

log-IsWatched :
    (w : SpeechWorker) (severity : String) → IsWatched w → IsWatched (handle_log_event w severity).0
unfolding handle_log_event
log-IsWatched w severity v =
    let keep = λ (r : SpeechWorker × Bool). IsWatched r.0 in
    if_keeps keep _ v (if_keeps keep _ (check-IsWatched _ (failed-IsWatched w v)) v)

terminal-IsWatched :
    (w : SpeechWorker) (t : ProviderEventType) (n : ℕ) (b : Bool)
    → IsWatched w
    → IsWatched (handle_terminal_event w t n b).0
unfolding handle_terminal_event
terminal-IsWatched w t n b v = apply_terminal-IsWatched w _ _ v

apply_event-IsWatched :
    (w : SpeechWorker) (e : ProviderControlEvent) (a : EventAction)
    → IsWatched w
    → IsWatched (apply_event w e a).0
unfolding apply_event
apply_event-IsWatched w e EventAction.no_locked_action v = v
apply_event-IsWatched w e EventAction.synthesis_complete v = terminal-IsWatched w _ _ _ v
apply_event-IsWatched w e EventAction.synthesis_cancelled v = terminal-IsWatched w _ _ _ v
apply_event-IsWatched w e EventAction.informational_log v = log-IsWatched w _ v
apply_event-IsWatched w e EventAction.request_error_log v = log-IsWatched w _ v
apply_event-IsWatched w e EventAction.fatal_log v = log-IsWatched w _ v
apply_event-IsWatched w e _ v = v

handle-IsWatched :
    (w : SpeechWorker) (event : ProviderControlEvent) (tick : ℕ)
    → IsWatched w
    → IsWatched (handle_parsed_control_event w event tick).0
unfolding handle_parsed_control_event
handle-IsWatched w event tick v = raise_if-IsWatched _ _ (apply_event-IsWatched _ event _ v)

apply_chunk-IsWatched :
    (t : RequestToken) (w : SpeechWorker) (buffer : List ℕ) (d : ChunkDecision) (a : ChunkAction)
    (r : SpeechWorker × AudioIngestResult)
    → IsWatched w
    → apply_chunk t w buffer d a ≡ ok r
    → IsWatched r.0
unfolding apply_chunk
apply_chunk-IsWatched t w buffer d ChunkAction.assemble_speaking_audio r v run =
    let (x, e, same) =
      >>=-eq-ok (process w.frame_assembler (some buffer) d.bytes_to_frame)
        (λ (x : PcmFrameAssembler × PcmFrameBatch).
          ok (deliver_or_check t (record w { frame_assembler = x.0 }) x.1))
        run in
    subst (λ (y : SpeechWorker × AudioIngestResult). IsWatched y.0) (ok-injective same)
      (deliver-IsWatched t (record w { frame_assembler = x.0 }) x.1 v)
apply_chunk-IsWatched t w buffer d ChunkAction.drain_cancellation_audio r v run =
    subst (λ (y : SpeechWorker × AudioIngestResult). IsWatched y.0) (ok-injective run)
      (close-IsWatched w v)
apply_chunk-IsWatched t w buffer d ChunkAction.fault_unexpected_idle_audio r v run =
    subst (λ (y : SpeechWorker × AudioIngestResult). IsWatched y.0) (ok-injective run)
      (raise_if-IsWatched true w v)
apply_chunk-IsWatched t w buffer d ChunkAction.drain_faulted_session_audio r v run =
    subst (λ (y : SpeechWorker × AudioIngestResult). IsWatched y.0) (ok-injective run) v

ingest-IsWatched :
    (w : SpeechWorker) (buffer : List ℕ) (n tick : ℕ) (r : SpeechWorker × AudioIngestResult)
    → IsWatched w
    → ingest_audio_chunk w buffer n tick ≡ ok r
    → IsWatched r.0
unfolding ingest_audio_chunk
ingest-IsWatched w buffer n tick r v run =
    apply_chunk-IsWatched _ _ buffer _ _ r (account-IsWatched w _ n tick v) run

begin_fault-IsWatched : (w : SpeechWorker) → IsWatched (begin_fault w).0
unfolding begin_fault transition_request_to_faulted
begin_fault-IsWatched w = ground arith

missing_id-IsWatched : (w : SpeechWorker) → IsWatched w → IsWatched (raise_for_missing_id w)
unfolding raise_for_missing_id
missing_id-IsWatched w v = ground (arith, v)

cancel_pipes-IsWatched : (w : SpeechWorker) → IsWatched w → IsWatched (cancel_pipes w)
unfolding cancel_pipes
cancel_pipes-IsWatched w v = ground (arith, v)

-- The deadlines that a step sets do not wrap to 0, which stands for none.
abbrev pub IsTimely : {w w' : SpeechWorker} → Step w w' → Type 0
IsTimely (cancels deadline _) = deadline ≢ 0
IsTimely (settles _ _ tick _ _) = tick + 500 < 2 ^ 64
IsTimely _ = Unit

Step-IsWatched : {w w' : SpeechWorker} (s : Step w w') → IsTimely s → IsWatched w → IsWatched w'
unfolding reveal_fault clear_fault_pending shut_down
Step-IsWatched {w} (starts i t e) h v = rw e (start-IsWatched w i t v)
Step-IsWatched {w} (stops e) h v = rw e (stop-IsWatched w v)
Step-IsWatched {w} (cancels d e) h v = rw e (cancel-IsWatched w d h v)
Step-IsWatched {w} (ingests buffer n t r inside run e) h v =
    rw e (ingest-IsWatched w buffer n t r v run)
Step-IsWatched {w} (settles t n k b e) h v = rw e (update-IsWatched w t n k b h v)
Step-IsWatched {w} (handles event t e) h v = rw e (handle-IsWatched w event t v)
Step-IsWatched {w} (misses_id e) h v = rw e (missing_id-IsWatched w v)
Step-IsWatched {w} (begins_fault e) h v = rw e (begin_fault-IsWatched w)
Step-IsWatched {w} (reveals_fault p e) h v = rw e v
Step-IsWatched {w} (clears_fault e) h v =
    rw e (record { speaking = v.speaking; cancelling = v.cancelling })
Step-IsWatched {w} (cancels_pipes e) h v = rw e (cancel_pipes-IsWatched w v)
Step-IsWatched {w} (shuts_down e) h v = rw e (cancel_pipes-IsWatched (record w { exit = true }) v)

-- A schedule of such steps.
pub data TimelyReach (w : SpeechWorker) : SpeechWorker → Type 0 where
  at_once : TimelyReach w w
  later : {u v : SpeechWorker} → TimelyReach w u → (s : Step u v) → IsTimely s → TimelyReach w v

pub TimelyReach-IsWatched : {w w' : SpeechWorker} → TimelyReach w w' → IsWatched w → IsWatched w'
TimelyReach-IsWatched at_once v = v
TimelyReach-IsWatched (later r s h) v = Step-IsWatched s h (TimelyReach-IsWatched r v)

pub new_worker-IsWatched : (a : PcmFrameAssembler) → IsWatched (new_worker a)
unfolding new_worker new_context
new_worker-IsWatched a = record { speaking = λ e. cc; cancelling = λ e. cc }
