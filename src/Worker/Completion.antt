-- ===== src/Worker/Completion.antt =====
-- A whole request: reads of audio with `synthesis_complete` anywhere among them.
use modern_sapi_adapter.Base.{
  ℕ, ◌+◌, ◌%◌, ◌^◌, ◌≤◌, ◌<◌, ◌≡◌, refl, ◌∙◌, inl, inr, true, false, List, [], ◌∷◌, ok, Result,
  ◌>>=◌, arith, length, add-zero, add_assoc,
}
use modern_sapi_adapter.Windows.{s_ok}
use modern_sapi_adapter.Request.{DownstreamState}
use modern_sapi_adapter.Worker.State.{SpeechWorker}
use modern_sapi_adapter.Worker.Loop.{audio_turn}
use modern_sapi_adapter.Worker.Progress.{Streaming}
use modern_sapi_adapter.Worker.Turns.{turn_below, turn_at}

-- The turns of the audio thread for a list of reads, each with its tick.
unfoldable pub audio_turns : SpeechWorker → List (ℕ × List ℕ) → Result SpeechWorker
audio_turns w [] = ok w
audio_turns w ((tick, f) ∷ reads) =
    audio_turn w (λ _. true) f (length f) tick s_ok >>= λ v. audio_turns v reads

abbrev pub bytes_of : List (ℕ × List ℕ) → ℕ
bytes_of [] = 0
bytes_of ((tick, f) ∷ reads) = length f + bytes_of reads

-- Reads as `ReadAudioChunk` makes them: not empty, and within its buffer.
abbrev pub AreReads : List (ℕ × List ℕ) → Type 0
AreReads [] = Unit {0}
AreReads ((tick, f) ∷ reads) = (0 < length f) × (length f ≤ 4096) × AreReads reads

-- What a run that stays below the total keeps.
pub record Runs (w v : SpeechWorker) (n : ℕ) : Type 0 where
  pub streaming : Streaming v n
  pub finished : v.context.upstream_finished ≡ w.context.upstream_finished
  pub terminal : v.context.upstream_terminal_bytes ≡ w.context.upstream_terminal_bytes
  pub token : v.context.token ≡ w.context.token
  pub alignment : v.frame_assembler.block_align ≡ w.frame_assembler.block_align

pub turns_below :
    (w : SpeechWorker) (n total : ℕ) (reads : List (ℕ × List ℕ))
    → Streaming w n
    → w.context.upstream_finished ≡ false
    → AreReads reads
    → n + bytes_of reads ≤ total
    → total < 2 ^ 64
    → (v : SpeechWorker) × (audio_turns w reads ≡ ok v) × Runs w v (n + bytes_of reads)
unfolding audio_turns
turns_below w n total [] s fin are le bound = (
  w,
  refl,
  record {
    streaming = rw (add-zero n) s;
    finished = refl;
    terminal = refl;
    token = refl;
    alignment = refl;
  },
)
turns_below w n total ((tick, f) ∷ reads) s fin (pos, small, are) le bound =
    let (u, e, su, fu, tu, ku, au) =
      turn_below w n total f tick s_ok s (inl fin) pos (omega arith) (omega arith) bound
        (inl fin) in
    let (v, e', r) =
      turns_below u (n + length f) total reads su (fu ∙ fin) are (omega arith) bound in
    (
      v,
      rw (e, e'),
      record {
        streaming = rw (← add_assoc n (length f) (bytes_of reads)) r.streaming;
        finished = r.finished ∙ fu;
        terminal = r.terminal ∙ tu;
        token = r.token ∙ ku;
        alignment = r.alignment ∙ au;
      },
    )

-- A request that has come to its end without an error.
pub record IsComplete (w : SpeechWorker) : Type 0 where
  pub idle : w.context.downstream_state ≡ DownstreamState.idle
  pub clean : w.context.completion_hr ≡ s_ok

pub turns_at :
    (w : SpeechWorker) (n : ℕ) (tick : ℕ) (f : List ℕ) (reads : List (ℕ × List ℕ))
    → Streaming w n
    → w.context.upstream_finished ≡ true
    → w.context.upstream_terminal_bytes ≡ n + bytes_of ((tick, f) ∷ reads)
    → AreReads ((tick, f) ∷ reads)
    → n + bytes_of ((tick, f) ∷ reads) < 2 ^ 64
    → (n + bytes_of ((tick, f) ∷ reads)) % w.frame_assembler.block_align ≡ 0
    → (v : SpeechWorker) × (audio_turns w ((tick, f) ∷ reads) ≡ ok v) × IsComplete v
unfolding audio_turns
turns_at w n tick f [] s fin t (pos, small, _) bound al =
    let same : n + (length f + 0) ≡ n + length f = omega arith in
    let (v, e, i, c) =
      turn_at w n f tick s_ok s fin (t ∙ same) pos (omega arith) (omega arith) (rw same at al) in
    (v, rw e, record { idle = i; clean = c })
turns_at w n tick f ((tick', g) ∷ reads) s fin t (pos, small, more) bound al =
    let total = n + bytes_of ((tick, f) ∷ (tick', g) ∷ reads) in
    let same : total ≡ n + length f + bytes_of ((tick', g) ∷ reads) = omega arith in
    let (u, e, su, fu, tu, ku, au) =
      turn_below w n total f tick s_ok s (inr (fin, t)) pos (omega arith) (omega arith) bound
        (inr (omega (arith, more.0))) in
    let (v, e', c) =
      turns_at u (n + length f) tick' g reads su (fu ∙ fin) (tu ∙ t ∙ same) more (omega arith)
        (rw (← same, au) al) in
    (v, rw (e, e'), c)
