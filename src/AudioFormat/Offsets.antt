-- ===== src/AudioFormat/Offsets.antt =====
-- Where in the stream the audio offset of an event falls.
use modern_sapi_adapter.Base.{
  ℕ, ◌+◌, ◌*◌, ◌/◌, ◌^◌, ◌≤◌, ◌<◌, ◌≡◌, ◌∙◌, refl, false, ◌==◌, nat_eq, mul64, max_u32, arith,
}
use native.Mathlib.Nat.{mul-le-mul, mul-le-mul_right, mul_assoc}
use modern_sapi_adapter.AudioFormat.{WaveFormat, audio_offset_to_bytes}
use modern_sapi_adapter.AudioFormat.Parsed.{IsPcm, rate_fits}

-- `offset` is the start of the last frame that is played at or before the millisecond.
pub record FrameAt (ms offset : ℕ) (f : WaveFormat) : Type 0 where
  pub frames : ℕ
  pub whole : offset ≡ frames * f.block_align
  pub reached : frames * 1000 ≤ ms * f.samples_per_sec
  pub last : ms * f.samples_per_sec < (frames + 1) * 1000

module _ (ms : ℕ) (f : WaveFormat) (p : IsPcm f) (h : ms ≤ max_u32) where
  samples_lt : ms * f.samples_per_sec < 2 ^ 64
  samples_lt =
      let le : ms * f.samples_per_sec ≤ max_u32 * max_u32 = mul-le-mul h (rate_fits f p) in
      omega arith

  -- The frames are fewer than 2 ^ 32 * 2 ^ 32 / 1000, and a frame is at most 2 ^ 16 bytes long; the
  -- byte rate is what keeps the product small.
  bytes_lt : ms * f.samples_per_sec / 1000 * f.block_align < 2 ^ 64
  bytes_lt =
      let samples = ms * f.samples_per_sec in
      let frames = samples / 1000 in
      let fewer : frames * f.block_align ≤ samples * f.block_align =
        mul-le-mul_right f.block_align (omega arith) in
      let same : samples * f.block_align ≡ ms * f.avg_bytes_per_sec =
        mul_assoc ms f.samples_per_sec f.block_align ∙ rw p.rate refl in
      let le : ms * f.avg_bytes_per_sec ≤ max_u32 * max_u32 = mul-le-mul h p.rate_le in omega arith

  exact_offset : audio_offset_to_bytes ms f ≡ ms * f.samples_per_sec / 1000 * f.block_align
  unfolding audio_offset_to_bytes
  exact_offset =
      let samples : mul64 ms f.samples_per_sec ≡ ms * f.samples_per_sec =
        omega (arith, samples_lt) in
      let bytes : mul64 (ms * f.samples_per_sec / 1000) f.block_align
          ≡ ms * f.samples_per_sec / 1000 * f.block_align =
        omega (arith, bytes_lt) in
      let rate : (f.samples_per_sec == 0) ≡ false = ground (arith, p.rate_pos) in
      let align : (f.block_align == 0) ≡ false = ground (arith, p.align_pos) in
      rw (audio_offset_to_bytes, rate, align, samples, bytes)

  -- For a format that the parser gives, the byte offset is the start of the last whole frame that
  -- is played at or before the given millisecond: no product wraps.
  pub audio_offset-FrameAt : FrameAt ms (audio_offset_to_bytes ms f) f
  audio_offset-FrameAt = record {
    frames = ms * f.samples_per_sec / 1000;
    whole = exact_offset;
    reached = omega arith;
    last = omega arith;
  }
