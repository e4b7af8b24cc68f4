-- ===== src/Worker/Steps.antt =====
-- Every way in which a thread changes the shared state of a worker: one constructor for each
-- critical section, with whatever the environment chose. The threads interleave at these points
-- only, so a statement about every sequence of steps holds of every schedule.
use modern_sapi_adapter.Base.{ℕ, ◌≤◌, ◌≡◌, Bool, true, List, length, ok}
use modern_sapi_adapter.Request.{RequestToken}
use modern_sapi_adapter.Event.{ProviderControlEvent}
use modern_sapi_adapter.Worker.State.{SpeechWorker, start}
use modern_sapi_adapter.Worker.Audio.{
  AudioIngestResult, ingest_audio_chunk, update_after_audio_delivery,
}
use modern_sapi_adapter.Worker.Control.{handle_parsed_control_event}
use modern_sapi_adapter.Worker.Cancel.{stop, begin_cancellation}
use modern_sapi_adapter.Worker.Fault.{
  begin_fault, reveal_fault, clear_fault_pending, cancel_pipes, raise_for_missing_id, shut_down,
}

pub data Step (w w' : SpeechWorker) : Type 0 where
  starts : (speak_id tick : ℕ) → w' ≡ (start w speak_id tick).0 → Step w w'
  stops : w' ≡ (stop w).0 → Step w w'
  cancels : (deadline : ℕ) → w' ≡ (begin_cancellation w deadline).0 → Step w w'
  ingests :
      (buffer : List ℕ) (bytes_read tick : ℕ) (r : SpeechWorker × AudioIngestResult)
      → bytes_read ≤ length buffer
      → ingest_audio_chunk w buffer bytes_read tick ≡ ok r
      → w' ≡ r.0
      → Step w w'
  settles :
      (batch_token : RequestToken) (delivered tick : ℕ) (accepted : Bool)
      → w' ≡ (update_after_audio_delivery w batch_token delivered accepted tick).0
      → Step w w'
  handles :
      (event : ProviderControlEvent) (tick : ℕ)
      → w' ≡ (handle_parsed_control_event w event tick).0
      → Step w w'
  misses_id : w' ≡ raise_for_missing_id w → Step w w'
  begins_fault : w' ≡ (begin_fault w).0 → Step w w'
  -- Only the thread whose first section started the publication comes here, and no section undoes
  -- that flag.
  reveals_fault : w.fault_publication_started ≡ true → w' ≡ reveal_fault w → Step w w'
  clears_fault : w' ≡ clear_fault_pending w → Step w w'
  cancels_pipes : w' ≡ cancel_pipes w → Step w w'
  shuts_down : w' ≡ shut_down w → Step w w'

pub data Reach (w : SpeechWorker) : SpeechWorker → Type 0 where
  here : Reach w w
  next : {u v : SpeechWorker} → Reach w u → Step u v → Reach w v
