-- ===== src/Worker/Stale.antt =====
-- A batch of an earlier request, in CoreEngine/SpeechWorker.cpp: what `RequestToken::Matches` and
-- the generation counter are for.
use modern_sapi_adapter.Base.{
  ℕ, ◌+◌, ◌^◌, ◌≤◌, ◌<◌, ◌≡◌, ◌≢◌, ap, ◌∙◌, Bool, true, false, arith, nat_eq,
}
use modern_sapi_adapter.Request.{RequestToken, matches, reset}
use modern_sapi_adapter.Pcm.Delivery.{
  SpanAdmission, evaluate_span_admission, evaluate_batch_outcome,
}
use modern_sapi_adapter.Worker.State.{SpeechWorker, start, started}
use modern_sapi_adapter.Worker.Audio.{credit, settle_batch, update_after_audio_delivery}
use modern_sapi_adapter.Worker.Whole.{start_accepted}

-- A token of another generation is not the worker's.
stale_matches :
    (w : SpeechWorker) (t : RequestToken)
    → t.generation ≢ w.context.token.generation
    → matches w.context.token t ≡ false
stale_matches w t h = ground arith

-- What another generation's batch does.
stale_refused :
    (w : SpeechWorker) (t : RequestToken) (bytes tick : ℕ) (accepted : Bool)
    → t.generation ≢ w.context.token.generation
    → (evaluate_span_admission w.context t ≡ SpanAdmission.reject)
      × (update_after_audio_delivery w t bytes accepted tick ≡ (w, false, 0))
unfolding evaluate_span_admission update_after_audio_delivery evaluate_batch_outcome credit
    settle_batch
stale_refused w t bytes tick accepted h =
    let m = stale_matches w t h in (ground arith, ground arith)

-- After an accepted `Start`, a batch of any earlier request is not written and changes nothing: its
-- spans are refused, and settling it credits no byte, cancels nothing and faults nothing. The
-- generation counter must not have wrapped.
pub stale_batch_ignored :
    (w w' : SpeechWorker) (t : RequestToken) (speak_id begun bytes tick : ℕ) (accepted : Bool)
    → start w speak_id begun ≡ (w', true)
    → t.generation ≤ w.generation_counter
    → w.generation_counter + 1 < 2 ^ 64
    → (evaluate_span_admission w'.context t ≡ SpanAdmission.reject)
      × (update_after_audio_delivery w' t bytes accepted tick ≡ (w', false, 0))
unfolding started reset
stale_batch_ignored w w' t speak_id begun bytes tick accepted a g bound =
    let (same, _, _) = start_accepted w w' speak_id begun a in
    let next : w'.context.token.generation ≡ w.generation_counter + 1 =
      ap (λ (x : SpeechWorker). x.context.token.generation) same ∙ omega arith in
    stale_refused w' t bytes tick accepted (λ e. omega arith)
