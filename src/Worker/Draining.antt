-- ===== src/Worker/Draining.antt =====
-- A cancelled request whose provider has declared its total: what each further read does.
use modern_sapi_adapter.Base.{
  ℕ, ◌+◌, ◌^◌, ◌<◌, ◌≡◌, ◌≢◌, refl, Bool, true, false, List, [], length, leb, ok, arith, add64,
  nat_beq, if◌then◌else◌,
}
use modern_sapi_adapter.Request.{UpstreamState, DownstreamState}
use modern_sapi_adapter.Pcm.Delivery.{
  evaluate_chunk_ingest, ChunkAction, evaluate_terminal_boundary_facts,
}
use modern_sapi_adapter.StatePolicy.{evaluate_terminal_boundary}
use modern_sapi_adapter.Worker.State.{SpeechWorker, check_terminal_boundary, reset_to_idle}
use modern_sapi_adapter.Worker.Audio.{account_chunk, apply_chunk, ingest_audio_chunk}
use modern_sapi_adapter.Worker.Loop.{deliver_batch, after_delivery, audio_turn}

-- The worker that has counted a read.
abbrev pub counted : SpeechWorker → ℕ → ℕ → SpeechWorker
counted w n tick =
    let c = w.context in
    record w {
      last_provider_progress_tick = tick;
      context = record c { raw_audio_bytes_read = c.raw_audio_bytes_read + n };
    }

check_draining :
    (w : SpeechWorker)
    → w.context.downstream_state ≡ DownstreamState.cancelling
    → w.context.upstream_state ≢ UpstreamState.failed
    → w.context.upstream_finished ≡ true
    → check_terminal_boundary w ≡ (
      if leb w.context.upstream_terminal_bytes w.context.raw_audio_bytes_read
          then reset_to_idle w
          else w,
      false,
    )
unfolding check_terminal_boundary evaluate_terminal_boundary evaluate_terminal_boundary_facts
check_draining w d u f = ground arith

draining_decision :
    (w : SpeechWorker) (n : ℕ)
    → w.context.downstream_state ≡ DownstreamState.cancelling
    → evaluate_chunk_ingest w.context n ≡ record {
      action = ChunkAction.drain_cancellation_audio;
      bytes_to_frame = 0;
      refresh_progress = true;
      count_raw_bytes = true;
    }
unfolding evaluate_chunk_ingest
draining_decision w n d = ground arith

draining_ingest :
    (w v : SpeechWorker) (f : List ℕ) (tick : ℕ)
    → w.context.downstream_state ≡ DownstreamState.cancelling
    → w.context.raw_audio_bytes_read + length f < 2 ^ 64
    → check_terminal_boundary (counted w (length f) tick) ≡ (v, false)
    → ingest_audio_chunk w f (length f) tick
      ≡ ok (
        v,
        record {
          token = w.context.token;
          protocol_boundary_failed = false;
          should_deliver_audio = false;
          spans_to_write = [];
        },
      )
unfolding ingest_audio_chunk apply_chunk account_chunk
draining_ingest w v f tick d bound c =
    let sum : add64 w.context.raw_audio_bytes_read (length f)
        ≡ w.context.raw_audio_bytes_read + length f =
      omega arith in
    rw (draining_decision w (length f) d, sum, c) refl

-- A read that is not empty, in a cancelled request that has not failed and whose provider has
-- declared its total, is counted and never written, whatever SAPI would answer, if the count does
-- not wrap; the request ends exactly when the bytes read reach the declared total, and goes on
-- draining below it.
pub draining_turn :
    (w : SpeechWorker) (on_audio_data : List ℕ → Bool) (f : List ℕ) (tick send_hr : ℕ)
    → w.context.downstream_state ≡ DownstreamState.cancelling
    → w.context.upstream_state ≢ UpstreamState.failed
    → w.context.upstream_finished ≡ true
    → 0 < length f
    → w.context.raw_audio_bytes_read + length f < 2 ^ 64
    → let read = w.context.raw_audio_bytes_read + length f in
      audio_turn w on_audio_data f (length f) tick send_hr
      ≡ ok (
          if leb w.context.upstream_terminal_bytes read
          then reset_to_idle (counted w (length f) tick)
          else counted w (length f) tick)
unfolding audio_turn deliver_batch after_delivery
draining_turn w on_audio_data f tick send_hr d u fin pos bound =
    let some_bytes : nat_beq (length f) 0 ≡ false = ground arith in
    let read =
      draining_ingest w _ f tick d bound (check_draining (counted w (length f) tick) d u fin) in
    rw (some_bytes, read) refl
