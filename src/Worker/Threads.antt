-- ===== src/Worker/Threads.antt =====
-- The two I/O threads of a `SpeechWorker`, as the constructor starts them: `AudioThreadProc` and
-- `ControlThreadProc` with their loops, and the handlers around them. What the other threads do until
-- a read returns is an argument, and so is what the read answers.
use modern_sapi_adapter.Base.{
  ℕ, Bool, true, false, List, [], ◌∷◌, Result, ok, threw, ◌==◌, nat_eq, if◌then◌else◌,
}
use modern_sapi_adapter.Windows.{failed, timed_out}
use modern_sapi_adapter.Json.{Json}
use modern_sapi_adapter.Protocol.{parse_control_event}
use modern_sapi_adapter.Pcm.Delivery.{evaluate_chunk_ingest}
use modern_sapi_adapter.Worker.State.{SpeechWorker}
use modern_sapi_adapter.Worker.Audio.{account_chunk}
use modern_sapi_adapter.Worker.Fault.{enter_faulted_state}
use modern_sapi_adapter.Worker.Loop.{audio_turn, control_turn}

-- One call of `ReadAudioChunk`: its result, the buffer with the bytes read, and for the turn that
-- follows the tick, the answers of `OnAudioData` and that to a cancellation message.
pub record AudioRead : Type 0 where
  pub meanwhile : SpeechWorker → SpeechWorker
  pub hr : ℕ
  pub buffer : List ℕ
  pub bytes_read : ℕ
  pub tick : ℕ
  pub on_audio_data : List ℕ → Bool
  pub send_hr : ℕ

-- After a failed read: `EnterFaultedState`, unless the worker is being destroyed.
unfoldable pub failed_read : SpeechWorker → SpeechWorker
failed_read w = if w.exit then w else enter_faulted_state w

-- The end of a turn; the flag tells whether the loop goes on. An exception of `Process` leaves the
-- accounted worker, and ends the thread in its handler.
unfoldable pub end_turn : SpeechWorker → AudioRead → Result SpeechWorker → SpeechWorker × Bool
end_turn w r (ok w') = (w', true)
end_turn w r (threw e) =
    let d = evaluate_chunk_ingest w.context r.bytes_read in
    (enter_faulted_state (account_chunk w d r.bytes_read r.tick), false)

-- The body of the loop after a successful read.
unfoldable pub audio_body : SpeechWorker → AudioRead → SpeechWorker × Bool
audio_body w r = end_turn w r (audio_turn w r.on_audio_data r.buffer r.bytes_read r.tick r.send_hr)

-- The body of the loop of `AudioThreadProc`.
unfoldable pub audio_iteration : SpeechWorker → AudioRead → SpeechWorker × Bool
audio_iteration w r =
    let v = r.meanwhile w in
    if r.hr == timed_out
    then (v, true)
    else if failed r.hr
    then (failed_read v, false)
    else audio_body v r

-- The audio thread over the reads that have returned so far; the flag tells whether it has ended.
unfoldable pub audio_thread : SpeechWorker → List AudioRead → SpeechWorker × Bool
audio_thread w [] = (w, w.exit)
audio_thread w (r ∷ rs) =
    let (w', goes_on) = audio_iteration w r in
    let rest = audio_thread w' rs in
    if w.exit then (w, true) else if goes_on then rest else (w', true)

module _ (j : Json) where
  -- One call of `ReadControlMessage`, with the document that it gives.
  pub record ControlRead : Type 0 where
    pub meanwhile : SpeechWorker → SpeechWorker
    pub hr : ℕ
    pub document : j.Value
    pub tick : ℕ

  -- The body of the loop of `ControlThreadProc`.
  unfoldable pub control_iteration : SpeechWorker → ControlRead → SpeechWorker × Bool
  control_iteration w r =
      let v = r.meanwhile w in
      if r.hr == timed_out
      then (v, true)
      else if failed r.hr
      then (failed_read v, false)
      else ((control_turn v (parse_control_event j r.document) r.tick).0, true)

  unfoldable pub control_thread : SpeechWorker → List ControlRead → SpeechWorker × Bool
  control_thread w [] = (w, w.exit)
  control_thread w (r ∷ rs) =
      let (w', goes_on) = control_iteration w r in
      let rest = control_thread w' rs in
      if w.exit then (w, true) else if goes_on then rest else (w', true)
