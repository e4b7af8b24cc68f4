-- ===== src/Worker/Progress.antt =====
-- A request comes to its end: whatever the provider's order of audio and `synthesis_complete`, and
-- whatever way the pipe cuts the audio.
use modern_sapi_adapter.Base.{
  ℕ, ◌+◌, ◌%◌, ◌^◌, ◌<◌, ◌≡◌, ap, ◌∙◌, ◌≢◌, ◌⊎◌, true, false, [], ◌∷◌, ◌||◌, arith, length, concat,
  length-append, add64,
}
use modern_sapi_adapter.Windows.{s_ok}
use modern_sapi_adapter.Request.{RequestToken, UpstreamState, DownstreamState}
use modern_sapi_adapter.Pcm.Assembler.{PcmFrameBatch}
use modern_sapi_adapter.Pcm.Frames.{IsValid}
use modern_sapi_adapter.Pcm.Delivery.{
  evaluate_terminal_boundary_facts, evaluate_batch_outcome, evaluate_span_admission, SpanAdmission,
  BatchAction,
}
use modern_sapi_adapter.StatePolicy.{evaluate_terminal_boundary}
use modern_sapi_adapter.Worker.State.{SpeechWorker, check_terminal_boundary, reset_to_idle}
use modern_sapi_adapter.Worker.Audio.{
  deliver_or_check, credit, settle_batch, update_after_audio_delivery,
}
use modern_sapi_adapter.Worker.Loop.{write_spans, deliver_batch, after_delivery}

-- A speaking request of which `n` bytes were read: all of them were accepted by SAPI, but for the
-- partial frame that is carried.
pub record Streaming (w : SpeechWorker) (n : ℕ) : Type 0 where
  pub speaking : w.context.downstream_state ≡ DownstreamState.speaking
  pub settled : w.context.upstream_state ≢ UpstreamState.failed
  pub unraised : w.context.fault_pending ≡ false
  pub read : w.context.raw_audio_bytes_read ≡ n
  pub accepted : w.context.delivered_audio_bytes + length w.frame_assembler.carry ≡ n
  pub whole : w.context.delivered_audio_bytes % w.frame_assembler.block_align ≡ 0
  pub valid : IsValid w.frame_assembler
  pub clean : w.context.completion_hr ≡ s_ok

-- A provider that has declared `total` bytes, or has not finished.
abbrev pub Declared : SpeechWorker → ℕ → Type 0
Declared w total =
    (w.context.upstream_finished ≡ false)
    ⊎ ((w.context.upstream_finished ≡ true) × (w.context.upstream_terminal_bytes ≡ total))

-- Below the declared total a check changes nothing.
pub check_below :
    (w : SpeechWorker) (n total : ℕ)
    → Streaming w n
    → Declared w total
    → (w.context.upstream_finished ≡ false) ⊎ (n < total)
    → check_terminal_boundary w ≡ (w, false)
unfolding check_terminal_boundary evaluate_terminal_boundary evaluate_terminal_boundary_facts
check_below w n total s d b = ground arith

-- At the declared total, a check ends the request.
no_partial : (k d c n : ℕ) → 0 < k → d + c ≡ n → d % k ≡ 0 → n % k ≡ 0 → c < k → c ≡ 0
no_partial k d c n h e a b l = grind arith

pub check_at :
    (w : SpeechWorker) (n : ℕ)
    → Streaming w n
    → w.context.upstream_finished ≡ true
    → w.context.upstream_terminal_bytes ≡ n
    → n % w.frame_assembler.block_align ≡ 0
    → check_terminal_boundary w ≡ (reset_to_idle w, false)
unfolding check_terminal_boundary evaluate_terminal_boundary evaluate_terminal_boundary_facts
check_at w n s f t a = ground (
  arith,
  no_partial w.frame_assembler.block_align w.context.delivered_audio_bytes
      (length w.frame_assembler.carry) n s.valid.positive s.accepted s.whole a s.valid.partial,
)

-- With every write accepted, a batch is delivered whole.
write_all :
    (w : SpeechWorker) (t : RequestToken) (batch : PcmFrameBatch) (total : ℕ)
    → evaluate_span_admission w.context t ≡ SpanAdmission.allow
    → total + length (concat batch) < 2 ^ 64
    → write_spans w t (λ _. true) batch total ≡ (true, total + length (concat batch))
unfolding write_spans
write_all w t [] total a h = ground arith
write_all w t (s ∷ ss) total a h =
    let sum : add64 total (length s) ≡ total + length s =
      omega (arith, length-append s (concat ss)) in
    rw (a, write_spans, sum, length-append s (concat ss))
      (write_all w t ss (total + length s) a (omega (arith, length-append s (concat ss)))
        ∙ ap (λ (k : ℕ). (true, k)) (omega arith))

-- An accepted batch of the current request is credited, and the boundary checked.
accepted_update :
    (w v : SpeechWorker) (bytes tick : ℕ)
    → w.context.downstream_state ≡ DownstreamState.speaking
    → check_terminal_boundary (credit w bytes) ≡ (v, false)
    → update_after_audio_delivery w w.context.token bytes true tick ≡ (v, false, 0)
unfolding update_after_audio_delivery settle_batch
accepted_update w v bytes tick s e =
    let decided : evaluate_batch_outcome w.context w.context.token bytes false ≡ record {
      action = BatchAction.credit_and_check_boundary;
      accepted_bytes_to_credit = bytes;
    } =
      unfold evaluate_batch_outcome in ground arith in
    rw (decided, e)

-- The delivery of a batch of the current request, whole.
pub deliver_turn :
    (w v : SpeechWorker) (batch : PcmFrameBatch) (tick send_hr : ℕ)
    → w.context.downstream_state ≡ DownstreamState.speaking
    → w.context.fault_pending ≡ false
    → length (concat batch) < 2 ^ 64
    → check_terminal_boundary (credit w (length (concat batch))) ≡ (v, false)
    → let (x, r) = deliver_or_check w.context.token w batch in
      let (w', faulted, to_send) = deliver_batch x r (λ _. true) tick in
      after_delivery w' (r.protocol_boundary_failed || faulted) to_send send_hr ≡ v
unfolding deliver_or_check deliver_batch after_delivery credit
deliver_turn w v [] tick send_hr s p h e = rw e
deliver_turn w v (x ∷ xs) tick send_hr s p h e =
    let admitted : evaluate_span_admission w.context w.context.token ≡ SpanAdmission.allow =
      unfold evaluate_span_admission in ground arith in
    let written : write_spans w w.context.token (λ _. true) (x ∷ xs) 0
        ≡ (true, length (concat (x ∷ xs))) =
      write_all w w.context.token (x ∷ xs) 0 admitted (omega arith)
      ∙ ap (λ (k : ℕ). (true, k)) (omega arith) in
    rw (written, accepted_update w v (length (concat (x ∷ xs))) tick s e)
