-- ===== src/Pcm/Examples.antt =====
-- The assembler and the delivery policy on small inputs: a stereo 16-bit stream.
use modern_sapi_adapter.Base.{
  ℕ, ◌<◌, ◌≡◌, refl, true, false, List, [], ◌∷◌, ◌++◌, some, ok, arith, length, take, concat,
}
use modern_sapi_adapter.Request.{RequestContext, UpstreamState, DownstreamState}
use modern_sapi_adapter.Pcm.Assembler.{PcmFrameAssembler, PcmFrameBatch, process}
use modern_sapi_adapter.Pcm.Frames.{IsValid, Emits, process-Emits}
use modern_sapi_adapter.Pcm.Fragments.{feed, whole_frames, partial_frame, feed_stream}

abbrev stereo : PcmFrameAssembler
stereo = record { block_align = 4; carry = []; completed_frame = [] }

abbrev mid_frame : PcmFrameAssembler
mid_frame = record { block_align = 4; carry = 1 ∷ 2 ∷ []; completed_frame = [] }

abbrev chunk : List ℕ
chunk = 3 ∷ 4 ∷ 5 ∷ 6 ∷ 7 ∷ 8 ∷ 9 ∷ []

abbrev odd_reads : List (List ℕ)
odd_reads = (1 ∷ 2 ∷ 3 ∷ []) ∷ [] ∷ (4 ∷ 5 ∷ []) ∷ (6 ∷ []) ∷ []

stereo-IsValid : IsValid stereo
stereo-IsValid = record { positive = omega arith; partial = omega arith }

mid_frame-IsValid : IsValid mid_frame
mid_frame-IsValid = record { positive = omega arith; partial = omega arith }

process-Emits_example :
    (r : PcmFrameAssembler × PcmFrameBatch) × (process mid_frame (some chunk) 7 ≡ ok r)
    × Emits 4 2 ((1 ∷ 2 ∷ []) ++ take 7 chunk) r
process-Emits_example = process-Emits mid_frame chunk 7 mid_frame-IsValid (omega arith)

feed_stream_example :
    (b : PcmFrameAssembler) × (feed stereo odd_reads ≡ ok (b, whole_frames 4 (concat odd_reads)))
    × (b.carry ≡ partial_frame 4 (concat odd_reads))
    × (length b.carry < 4)
feed_stream_example = feed_stream stereo odd_reads stereo-IsValid refl

abbrev finishing : RequestContext
finishing = record {
  token = record { speak_id = 7; generation = 1 };
  upstream_state = UpstreamState.completed;
  downstream_state = DownstreamState.speaking;
  raw_audio_bytes_read = 96;
  delivered_audio_bytes = 96;
  upstream_terminal_bytes = 100;
  upstream_finished = true;
  fault_pending = false;
  cancellation_deadline_tick = 0;
  completion_hr = 0;
}
