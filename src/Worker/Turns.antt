-- ===== src/Worker/Turns.antt =====
-- One turn of the audio thread in a streaming request, below the declared total and at it.
use modern_sapi_adapter.Base.{
  ℕ, ◌+◌, ◌%◌, ◌^◌, ◌≤◌, ◌<◌, ◌≡◌, refl, ap, ◌∙◌, ◌⊎◌, inr, true, false, List, ◌++◌, some, ok,
  arith, length, concat, take, length-append, take_all, add64, nat_beq,
}
use modern_sapi_adapter.Windows.{s_ok}
use modern_sapi_adapter.Request.{DownstreamState}
use modern_sapi_adapter.Pcm.Assembler.{PcmFrameAssembler, PcmFrameBatch, process}
use modern_sapi_adapter.Pcm.Frames.{Emits, process-Emits}
use modern_sapi_adapter.Pcm.Fragments.{concat-aligned, add-mod_zero}
use modern_sapi_adapter.Pcm.Delivery.{evaluate_chunk_ingest, ChunkAction}
use modern_sapi_adapter.Worker.State.{SpeechWorker, check_terminal_boundary, reset_to_idle}
use modern_sapi_adapter.Worker.Audio.{
  account_chunk, apply_chunk, deliver_or_check, ingest_audio_chunk, credit,
}
use modern_sapi_adapter.Worker.Loop.{audio_turn}
use modern_sapi_adapter.Worker.Progress.{Streaming, Declared, check_below, check_at, deliver_turn}

-- The bytes framed for a read that does not pass the declared total: all of them.
ingest_decision :
    (w : SpeechWorker) (n m total : ℕ)
    → Streaming w n
    → Declared w total
    → 0 < m
    → m < 2 ^ 32
    → n + m ≤ total
    → total < 2 ^ 64
    → evaluate_chunk_ingest w.context m ≡ record {
      action = ChunkAction.assemble_speaking_audio;
      bytes_to_frame = m;
      refresh_progress = true;
      count_raw_bytes = true;
    }
unfolding evaluate_chunk_ingest
ingest_decision w n m total s d pos small within bound = ground arith

-- The worker after the frames of a read are taken out and credited.
abbrev advanced : SpeechWorker → ℕ → ℕ → PcmFrameAssembler → ℕ → SpeechWorker
advanced w m tick a bytes =
    let c = w.context in
    record w {
      last_provider_progress_tick = tick;
      frame_assembler = a;
      context = record c {
        raw_audio_bytes_read = c.raw_audio_bytes_read + m;
        delivered_audio_bytes = c.delivered_audio_bytes + bytes;
      };
    }

advanced-Streaming :
    (w : SpeechWorker) (n : ℕ) (f : List ℕ) (tick : ℕ) (r : PcmFrameAssembler × PcmFrameBatch)
    → Streaming w n
    → Emits w.frame_assembler.block_align 2 (w.frame_assembler.carry ++ take (length f) f) r
    → Streaming (advanced w (length f) tick r.0 (length (concat r.1))) (n + length f)
advanced-Streaming w n f tick r s e =
    let all =
      ap length
        (e.conserved ∙ ap (◌++◌ w.frame_assembler.carry) (take_all (length f) f (omega arith))) in
    let framed = concat-aligned w.frame_assembler.block_align r.1 s.valid.positive e.whole in
    record {
      speaking = s.speaking;
      settled = s.settled;
      unraised = s.unraised;
      read = omega (arith, s.read);
      accepted = omega (
        arith,
        s.accepted,
        all,
        length-append (concat r.1) r.0.carry,
        length-append w.frame_assembler.carry f,
      );
      whole =
          rw e.alignment
            (add-mod_zero w.frame_assembler.block_align _ _ s.valid.positive s.whole framed);
      valid = e.valid;
      clean = s.clean;
    }

-- The worker with the frames of a read taken out and nothing credited yet.
abbrev framed : SpeechWorker → ℕ → ℕ → PcmFrameAssembler → SpeechWorker
framed w m tick a =
    let c = w.context in
    record w {
      last_provider_progress_tick = tick;
      frame_assembler = a;
      context = record c { raw_audio_bytes_read = c.raw_audio_bytes_read + m };
    }

credit-framed :
    (w : SpeechWorker) (m tick bytes : ℕ) (a : PcmFrameAssembler)
    → w.context.delivered_audio_bytes + bytes < 2 ^ 64
    → credit (framed w m tick a) bytes ≡ advanced w m tick a bytes
unfolding credit
credit-framed w m tick bytes a h = ground arith

ingest_framed :
    (w : SpeechWorker) (f : List ℕ) (tick : ℕ) (r : PcmFrameAssembler × PcmFrameBatch)
    → w.context.raw_audio_bytes_read + length f < 2 ^ 64
    → process w.frame_assembler (some f) (length f) ≡ ok r
    → evaluate_chunk_ingest w.context (length f) ≡ record {
      action = ChunkAction.assemble_speaking_audio;
      bytes_to_frame = length f;
      refresh_progress = true;
      count_raw_bytes = true;
    }
    → ingest_audio_chunk w f (length f) tick
      ≡ ok (deliver_or_check w.context.token (framed w (length f) tick r.0) r.1)
unfolding ingest_audio_chunk apply_chunk account_chunk
ingest_framed w f tick r h run decided =
    let sum : add64 w.context.raw_audio_bytes_read (length f)
        ≡ w.context.raw_audio_bytes_read + length f =
      omega arith in
    rw (decided, run, sum)

-- One turn of the audio thread, with every write accepted and within the declared total: the read
-- is framed, credited, and the boundary checked.
turn_lem :
    (w : SpeechWorker) (n total : ℕ) (f : List ℕ) (tick send_hr : ℕ)
    → Streaming w n
    → Declared w total
    → 0 < length f
    → length f < 2 ^ 32
    → n + length f ≤ total
    → total < 2 ^ 64
    → (r : PcmFrameAssembler × PcmFrameBatch) × Emits w.frame_assembler.block_align 2
        (w.frame_assembler.carry ++ take (length f) f)
        r
      × ((v : SpeechWorker)
          → check_terminal_boundary (advanced w (length f) tick r.0 (length (concat r.1)))
            ≡ (v, false)
          → audio_turn w (λ _. true) f (length f) tick send_hr ≡ ok v)
unfolding audio_turn
turn_lem w n total f tick send_hr s d pos small within bound =
    let (r, run, e) = process-Emits w.frame_assembler f (length f) s.valid (omega arith) in
    let decided = ingest_decision w n (length f) total s d pos small within bound in
    let next = advanced-Streaming w n f tick r s e in
    let some_bytes : nat_beq (length f) 0 ≡ false = ground arith in
    let ingested = ingest_framed w f tick r (omega (arith, s.read)) run decided in
    let credited =
      credit-framed w (length f) tick (length (concat r.1)) r.0 (omega (arith, next.accepted)) in
    (
      r,
      e,
      λ v c.
          rw (some_bytes, ingested)
            (ap ok (
              deliver_turn (framed w (length f) tick r.0) v r.1 tick send_hr s.speaking s.unraised
                (omega (arith, next.accepted)) (ap check_terminal_boundary credited ∙ c))),
    )

-- A turn below the declared total, or before any is declared, leaves the request streaming.
pub turn_below :
    (w : SpeechWorker) (n total : ℕ) (f : List ℕ) (tick send_hr : ℕ)
    → Streaming w n
    → Declared w total
    → 0 < length f
    → length f < 2 ^ 32
    → n + length f ≤ total
    → total < 2 ^ 64
    → (w.context.upstream_finished ≡ false) ⊎ (n + length f < total)
    → (v : SpeechWorker) × (audio_turn w (λ _. true) f (length f) tick send_hr ≡ ok v)
      × Streaming v (n + length f)
      × (v.context.upstream_finished ≡ w.context.upstream_finished)
      × (v.context.upstream_terminal_bytes ≡ w.context.upstream_terminal_bytes)
      × (v.context.token ≡ w.context.token)
      × (v.frame_assembler.block_align ≡ w.frame_assembler.block_align)
turn_below w n total f tick send_hr s d pos small within bound b =
    let (r, e, go) = turn_lem w n total f tick send_hr s d pos small within bound in
    let v : SpeechWorker = advanced w (length f) tick r.0 (length (concat r.1)) in
    let next = advanced-Streaming w n f tick r s e in
    (v, go v (check_below v (n + length f) total next d b), next, refl, refl, refl, e.alignment)

-- The turn that reaches the declared total ends the request.
pub turn_at :
    (w : SpeechWorker) (n : ℕ) (f : List ℕ) (tick send_hr : ℕ)
    → Streaming w n
    → w.context.upstream_finished ≡ true
    → w.context.upstream_terminal_bytes ≡ n + length f
    → 0 < length f
    → length f < 2 ^ 32
    → n + length f < 2 ^ 64
    → (n + length f) % w.frame_assembler.block_align ≡ 0
    → (v : SpeechWorker) × (audio_turn w (λ _. true) f (length f) tick send_hr ≡ ok v)
      × (v.context.downstream_state ≡ DownstreamState.idle)
      × (v.context.completion_hr ≡ s_ok)
unfolding reset_to_idle
turn_at w n f tick send_hr s fin t pos small bound al =
    let (r, e, go) =
      turn_lem w n (n + length f) f tick send_hr s (inr (fin, t)) pos small (omega arith) bound in
    let u : SpeechWorker = advanced w (length f) tick r.0 (length (concat r.1)) in
    let next = advanced-Streaming w n f tick r s e in
    (
      reset_to_idle u,
      go (reset_to_idle u) (check_at u (n + length f) next fin t (rw e.alignment al)),
      refl,
      s.clean,
    )
