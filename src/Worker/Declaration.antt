-- ===== src/Worker/Declaration.antt =====
-- `synthesis_complete` in a streaming request, and the theorem on a whole request.
use modern_sapi_adapter.Base.{
  ℕ, ◌%◌, ◌^◌, ◌<◌, ◌≡◌, refl, ◌∙◌, ◌≢◌, true, false, nat_beq, arith, to_u16, nat_eq,
}
use modern_sapi_adapter.Request.{UpstreamState}
use modern_sapi_adapter.Event.{ProviderControlEvent, ProviderEventType}
use modern_sapi_adapter.Pcm.Delivery.{is_terminal_byte_count_frame_aligned}
use modern_sapi_adapter.StatePolicy.{evaluate_upstream_terminal}
use modern_sapi_adapter.EventPolicy.{EventAction, evaluate_parsed_event}
use modern_sapi_adapter.Worker.State.{SpeechWorker, check_terminal_boundary}
use modern_sapi_adapter.Worker.Control.{
  apply_terminal, handle_terminal_event, apply_event, handle_parsed_control_event,
}
use modern_sapi_adapter.Worker.Loop.{control_turn}
use modern_sapi_adapter.Worker.Progress.{Streaming}

-- `synthesis_complete` for the current request, with a whole number of frames.
pub record IsCompletion (w : SpeechWorker) (event : ProviderControlEvent) : Type 0 where
  pub completes : event.type ≡ ProviderEventType.synthesis_complete
  pub for_request : event.speak_id ≡ w.context.token.speak_id
  pub named : event.speak_id ≢ 0
  pub has_bytes : event.has_valid_terminal_bytes ≡ true
  pub aligned : event.terminal_audio_bytes % w.frame_assembler.block_align ≡ 0
  pub word : w.frame_assembler.block_align < 2 ^ 16

abbrev pub declared : SpeechWorker → ℕ → ℕ → SpeechWorker
declared w total tick =
    let c = w.context in
    record w {
      last_provider_progress_tick = tick;
      context = record c {
        upstream_terminal_bytes = total;
        upstream_finished = true;
        upstream_state = UpstreamState.completed;
      };
    }

aligned_test :
    (bytes k : ℕ)
    → 0 < k
    → k < 2 ^ 16
    → bytes % k ≡ 0
    → is_terminal_byte_count_frame_aligned bytes (to_u16 k) ≡ true
unfolding is_terminal_byte_count_frame_aligned
aligned_test bytes k h l e = let same : to_u16 k ≡ k = omega arith in rw same (ground arith)

completion_decision :
    (w : SpeechWorker) (event : ProviderControlEvent) (n : ℕ)
    → Streaming w n
    → IsCompletion w event
    → let d = evaluate_parsed_event event w.context in
      (d.action ≡ EventAction.synthesis_complete) × (d.should_refresh_progress ≡ true)
unfolding evaluate_parsed_event
completion_decision w event n s e = ground arith

terminal_declared :
    (w : SpeechWorker) (event : ProviderControlEvent) (n : ℕ)
    → Streaming w n
    → w.context.upstream_finished ≡ false
    → IsCompletion w event
    → handle_terminal_event w event.type event.terminal_audio_bytes event.has_valid_terminal_bytes
      ≡ check_terminal_boundary
          (declared w event.terminal_audio_bytes w.last_provider_progress_tick)
unfolding handle_terminal_event evaluate_upstream_terminal apply_terminal
terminal_declared w event n s f e = ground (
  arith,
  aligned_test event.terminal_audio_bytes w.frame_assembler.block_align s.valid.positive e.word
      e.aligned,
)

ticked-Streaming :
    (w : SpeechWorker) (n tick : ℕ)
    → Streaming w n
    → Streaming (record w { last_provider_progress_tick = tick }) n
ticked-Streaming w n tick s = record {
  speaking = s.speaking;
  settled = s.settled;
  unraised = s.unraised;
  read = s.read;
  accepted = s.accepted;
  whole = s.whole;
  valid = s.valid;
  clean = s.clean;
}

ticked-IsCompletion :
    (w : SpeechWorker) (event : ProviderControlEvent) (tick : ℕ)
    → IsCompletion w event
    → IsCompletion (record w { last_provider_progress_tick = tick }) event
ticked-IsCompletion w event tick e = record {
  completes = e.completes;
  for_request = e.for_request;
  named = e.named;
  has_bytes = e.has_bytes;
  aligned = e.aligned;
  word = e.word;
}

-- The control thread's turn for it, by what the check of the boundary gives.
pub completion_turn :
    (w v : SpeechWorker) (event : ProviderControlEvent) (n tick : ℕ)
    → Streaming w n
    → w.context.upstream_finished ≡ false
    → IsCompletion w event
    → check_terminal_boundary (declared w event.terminal_audio_bytes tick) ≡ (v, false)
    → (control_turn w event tick).0 ≡ v
unfolding control_turn handle_parsed_control_event apply_event
completion_turn w v event n tick s f e c =
    let (a, r) = completion_decision w event n s e in
    let ticked : SpeechWorker = record w { last_provider_progress_tick = tick } in
    let t =
      terminal_declared ticked event n (ticked-Streaming w n tick s) f
        (ticked-IsCompletion w event tick e)
      ∙ c in
    let some_id : nat_beq event.speak_id 0 ≡ false = ground (arith, e.named) in
    rw (a, r, t, e.completes, some_id) refl
