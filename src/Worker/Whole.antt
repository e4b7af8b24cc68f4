-- ===== src/Worker/Whole.antt =====
-- A whole request, from `Start` to the end of its audio.
use modern_sapi_adapter.Base.{
  ℕ, ◌+◌, ◌^◌, ◌<◌, ◌≡◌, refl, sym, ap, ◌∙◌, inr, true, false, List, [], ◌∷◌, ok, add64, ◌>>=◌,
  arith, add-zero, nat_eq,
}
use modern_sapi_adapter.Request.{RequestToken, DownstreamState, reset}
use modern_sapi_adapter.Event.{ProviderControlEvent}
use modern_sapi_adapter.Pcm.Assembler.{discard}
use modern_sapi_adapter.Pcm.Frames.{IsValid}
use modern_sapi_adapter.StatePolicy.{evaluate_start}
use modern_sapi_adapter.Worker.State.{SpeechWorker, start, started, reset_to_idle}
use modern_sapi_adapter.Worker.Loop.{control_turn}
use modern_sapi_adapter.Worker.Progress.{Streaming, check_below, check_at}
use modern_sapi_adapter.Worker.Completion.{
  audio_turns, bytes_of, AreReads, IsComplete, turns_below, turns_at,
}
use modern_sapi_adapter.Worker.Declaration.{IsCompletion, declared, completion_turn}

declared-Streaming :
    (w : SpeechWorker) (n total tick : ℕ) → Streaming w n → Streaming (declared w total tick) n
declared-Streaming w n total tick s = record {
  speaking = s.speaking;
  settled = λ e. cc;
  unraised = s.unraised;
  read = s.read;
  accepted = s.accepted;
  whole = s.whole;
  valid = s.valid;
  clean = s.clean;
}

-- What remains of a request after `synthesis_complete`.
rest_completes :
    (w : SpeechWorker) (event : ProviderControlEvent) (n tick : ℕ) (reads : List (ℕ × List ℕ))
    → Streaming w n
    → w.context.upstream_finished ≡ false
    → IsCompletion w event
    → event.terminal_audio_bytes ≡ n + bytes_of reads
    → event.terminal_audio_bytes < 2 ^ 64
    → AreReads reads
    → (v : SpeechWorker) × (audio_turns (control_turn w event tick).0 reads ≡ ok v) × IsComplete v
unfolding audio_turns reset_to_idle
rest_completes w event n tick [] s f e t bound are =
    let total = event.terminal_audio_bytes in
    let u : SpeechWorker = declared w total tick in
    let same : total ≡ n = t ∙ add-zero n in
    let c = check_at u n (declared-Streaming w n total tick s) refl same (rw (← same) e.aligned) in
    (
      reset_to_idle u,
      ap ok (completion_turn w (reset_to_idle u) event n tick s f e c),
      record { idle = refl; clean = s.clean },
    )
rest_completes w event n tick ((later, g) ∷ reads) s f e t bound are =
    let total = event.terminal_audio_bytes in
    let u : SpeechWorker = declared w total tick in
    let su = declared-Streaming w n total tick s in
    let c = check_below u n total su (inr (refl, refl)) (inr (omega (arith, are.0, t))) in
    let (v, run, done) =
      turns_at u n later g reads su refl t are (omega (arith, t, bound)) (rw (← t) e.aligned) in
    (
      v,
      ap (λ x. audio_turns x ((later, g) ∷ reads)) (completion_turn w u event n tick s f e c) ∙ run,
      done,
    )

-- An accepted start finds an idle worker.
pub start_accepted :
    (w w' : SpeechWorker) (speak_id tick : ℕ)
    → start w speak_id tick ≡ (w', true)
    → (w' ≡ started w speak_id (add64 w.generation_counter 1) tick)
      × (w.context.downstream_state ≡ DownstreamState.idle)
      × (w.context.fault_pending ≡ false)
unfolding start evaluate_start
start_accepted w w' speak_id tick a = ground arith

-- An accepted request streams from its first byte.
started-Streaming :
    (w : SpeechWorker) (speak_id generation tick : ℕ)
    → IsValid w.frame_assembler
    → let w' = started w speak_id generation tick in
      Streaming w' 0 × (w'.context.upstream_finished ≡ false)
unfolding started reset discard
started-Streaming w speak_id generation tick v = (
  record {
    speaking = refl;
    settled = λ e. cc;
    unraised = refl;
    read = refl;
    accepted = refl;
    whole = grind (arith, v.positive);
    valid = record { positive = v.positive; partial = v.positive };
    clean = refl;
  },
  refl,
)

-- The event is still for the request after some of its audio.
after-IsCompletion :
    (w u : SpeechWorker) (event : ProviderControlEvent)
    → IsCompletion w event
    → u.context.token ≡ w.context.token
    → u.frame_assembler.block_align ≡ w.frame_assembler.block_align
    → IsCompletion u event
after-IsCompletion w u event e t a = record {
  completes = e.completes;
  for_request = e.for_request ∙ ap (λ (x : RequestToken). x.speak_id) (sym t);
  named = e.named;
  has_bytes = e.has_bytes;
  aligned = rw a e.aligned;
  word = rw a e.word;
}

-- A request ends whatever the order of its events: after an accepted `Start` on a worker with a
-- valid assembler of a 16-bit block alignment, when the engine accepts every write, reads of audio
-- that are not empty and within the read buffer, then a `synthesis_complete` for the request that
-- declares exactly the bytes of these and of the reads that follow, a whole number of frames below
-- 2 ^ 64, then the reads that follow, leave the worker idle with `S_OK`, wherever the event falls
-- among the reads and whatever way they cut the audio.
pub request_completes :
    (w w' : SpeechWorker) (event : ProviderControlEvent) (speak_id begun tick : ℕ)
    (before after : List (ℕ × List ℕ))
    → IsValid w.frame_assembler
    → start w speak_id begun ≡ (w', true)
    → IsCompletion w' event
    → event.terminal_audio_bytes ≡ bytes_of before + bytes_of after
    → event.terminal_audio_bytes < 2 ^ 64
    → AreReads before
    → AreReads after
    → (v : SpeechWorker) × ((audio_turns w' before >>= λ u.
          audio_turns (control_turn u event tick).0 after)
        ≡ ok v)
      × IsComplete v
request_completes w w' event speak_id begun tick before after valid accepted e t bound are are' =
    let (same, _, _) = start_accepted w w' speak_id begun accepted in
    let (s, f) : Streaming w' 0 × (w'.context.upstream_finished ≡ false) =
      rw same (started-Streaming w speak_id (add64 w.generation_counter 1) begun valid) in
    let (u, run, r) =
      turns_below w' 0 event.terminal_audio_bytes before s f are (omega arith) bound in
    let (v, run', done) =
      rest_completes u event (0 + bytes_of before) tick after r.streaming (r.finished ∙ f)
        (after-IsCompletion w' u event e r.token r.alignment) (omega arith) bound are' in
    (v, rw run run', done)
