-- ===== src/Worker/Loop.antt =====
-- One turn of each thread's loop after a successful read, with no other thread in between:
-- `AudioThreadProc` and `ControlThreadProc` of CoreEngine/SpeechWorker.cpp. What the engine's
-- `OnAudioData` answers, and the result of the cancellation message, are arguments.
use modern_sapi_adapter.Base.{
  ℕ, Bool, true, false, ◌||◌, ◌&&◌, List, [], ◌∷◌, ok, ◌>>=◌, Result, ◌==◌, ◌!=◌, nat_eq,
  if◌then◌else◌, length, add64,
}
use modern_sapi_adapter.Windows.{failed}
use modern_sapi_adapter.Request.{RequestToken}
use modern_sapi_adapter.Event.{ProviderControlEvent, ProviderEventType, event_type_eq, string_eq}
use modern_sapi_adapter.Pcm.Assembler.{PcmFrameBatch}
use modern_sapi_adapter.Pcm.Delivery.{SpanAdmission, evaluate_span_admission}
use modern_sapi_adapter.Worker.State.{SpeechWorker}
use modern_sapi_adapter.Worker.Audio.{
  AudioIngestResult, ingest_audio_chunk, update_after_audio_delivery,
}
use modern_sapi_adapter.Worker.Control.{handle_parsed_control_event}
use modern_sapi_adapter.Worker.Fault.{enter_faulted_state, raise_for_missing_id, admits_event}

-- The loop over the spans of a batch: whether every write was accepted, and the bytes delivered.
unfoldable pub write_spans :
    SpeechWorker → RequestToken → (List ℕ → Bool) → PcmFrameBatch → ℕ → Bool × ℕ
write_spans w token on_audio_data [] total = (true, total)
write_spans w token on_audio_data (span ∷ spans) total =
    elim (evaluate_span_admission w.context token) [
      | SpanAdmission.reject ↦ (true, total)
      | SpanAdmission.allow ↦ elim (on_audio_data span) [
        | true ↦ write_spans w token on_audio_data spans (add64 total (length span))
        | false ↦ (false, total)
      ]
    ]

abbrev is_empty : PcmFrameBatch → Bool
is_empty [] = true
is_empty (s ∷ ss) = false

-- The delivery of a batch and its settlement: the worker, `deliveryFaulted`, `cancellationToSend`.
unfoldable pub deliver_batch :
    SpeechWorker → AudioIngestResult → (List ℕ → Bool) → ℕ → SpeechWorker × Bool × ℕ
deliver_batch w r on_audio_data tick =
    let (accepted, delivered) = write_spans w r.token on_audio_data r.spans_to_write 0 in
    if r.should_deliver_audio && (if is_empty r.spans_to_write then false else true)
    then update_after_audio_delivery w r.token delivered accepted tick
    else (w, false, 0)

-- What follows the settlement: the cancellation message, then the faults.
unfoldable pub after_delivery : SpeechWorker → Bool → ℕ → ℕ → SpeechWorker
after_delivery w faulted to_send send_hr =
    let sent = if to_send != 0 && failed send_hr then enter_faulted_state w else w in
    if faulted then enter_faulted_state sent else sent

-- The body of the loop of `AudioThreadProc` for a read of `bytes_read` bytes.
unfoldable pub audio_turn :
    SpeechWorker → (List ℕ → Bool) → List ℕ → ℕ → ℕ → ℕ → Result SpeechWorker
audio_turn w on_audio_data buffer bytes_read tick send_hr =
    if bytes_read == 0
    then ok w
    else (ingest_audio_chunk w buffer bytes_read tick >>= λ r.
        let (w', faulted, to_send) = deliver_batch r.0 r.1 on_audio_data tick in
        ok (after_delivery w' (r.1.protocol_boundary_failed || faulted) to_send send_hr))

-- The body of the loop of `ControlThreadProc` for a parsed event; the flag tells whether the engine
-- is called with it.
unfoldable pub control_turn : SpeechWorker → ProviderControlEvent → ℕ → SpeechWorker × Bool
control_turn w event tick =
    let (w', d) = handle_parsed_control_event w event tick in
    let after = if d.should_enter_faulted_state then enter_faulted_state w' else w' in
    if event.type == ProviderEventType.unknown && event.raw_event_name == ""
    then (w, false)
    else if event.speak_id == 0
    then (enter_faulted_state (raise_for_missing_id w), false)
    else (after, d.should_forward_to_sapi && admits_event w' event)
