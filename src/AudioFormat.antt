-- ===== src/AudioFormat.antt =====
-- Audio formats: CoreEngine/AudioFormatUtils.cpp.
pub mod Parsed
pub mod Offsets
pub mod Examples
use Prim.Native.String.{String}
use modern_sapi_adapter.Base.{
  ℕ, ◌*◌, ◌/◌, ◌%◌, ◌^◌, Bool, ◌||◌, Option, none, some, List, [], ◌∷◌, ◌==◌, ◌!=◌, nat_eq, ltb,
  if◌then◌else◌, to_u16, to_u32, mul32, mul64, max_u16, max_u32, max_u64,
}
use modern_sapi_adapter.Json.{Json, unsigned_member}

abbrev pub wave_format_pcm : ℕ
wave_format_pcm = 1

-- `WAVEFORMATEX`.
pub record WaveFormat : Type 0 where
  pub format_tag : ℕ
  pub channels : ℕ
  pub samples_per_sec : ℕ
  pub avg_bytes_per_sec : ℕ
  pub block_align : ℕ
  pub bits_per_sample : ℕ
  pub cb_size : ℕ

-- The format that is filled in once the three numbers are read.
unfoldable pub pcm_format : ℕ → ℕ → ℕ → Option WaveFormat
pcm_format sample_rate bits_per_sample channels =
    let block_alignment = mul64 channels bits_per_sample / 8 in
    if block_alignment == 0
      || ltb max_u16 block_alignment
      || mul64 channels bits_per_sample != mul64 block_alignment 8
      || ltb (max_u32 / block_alignment) sample_rate
    then none
    else some (record {
      format_tag = wave_format_pcm;
      channels = to_u16 channels;
      samples_per_sec = to_u32 sample_rate;
      avg_bytes_per_sec = mul32 (to_u32 sample_rate) (to_u16 block_alignment);
      block_align = to_u16 block_alignment;
      bits_per_sample = to_u16 bits_per_sample;
      cb_size = 0;
    })

-- `AudioOffsetMillisecondsToBytes`.
unfoldable pub audio_offset_to_bytes : ℕ → WaveFormat → ℕ
audio_offset_to_bytes audio_offset_ms format =
    if format.samples_per_sec == 0 || format.block_align == 0
    then 0
    else mul64 (mul64 audio_offset_ms format.samples_per_sec / 1000) format.block_align

module _ (j : Json) where
  open j use {Value, is_object, of_string, of_unsigned, of_object}

  -- `isPositiveInteger`.
  unfoldable pub positive_integer : Value → String → ℕ → Option ℕ
  positive_integer v name maximum = elim (unsigned_member j v name max_u64) [
    | none ↦ none
    | some value ↦ if value == 0 || ltb maximum value then none else some value
  ]

  -- `TryParseAudioFormatJson`; `none` where it returns false, and leaves the format alone.
  unfoldable pub try_parse_audio_format : Value → Option WaveFormat
  try_parse_audio_format v =
      if is_object v
      then elim (positive_integer v "sample_rate" max_u32) [
        | none ↦ none
        | some sample_rate ↦ elim (positive_integer v "bits_per_sample" max_u16) [
          | none ↦ none
          | some bits_per_sample ↦ elim (positive_integer v "channels" max_u16) [
            | none ↦ none
            | some channels ↦ pcm_format sample_rate bits_per_sample channels
          ]
        ]
      ]
      else none

  -- `WaveFormatExToJson`.
  unfoldable pub wave_format_to_json : WaveFormat → Value
  wave_format_to_json format = of_object (
      ("type", of_string "raw")
      ∷ ("container", of_string "raw")
      ∷ ("encoding", of_string "pcm")
      ∷ ("sample_rate", of_unsigned format.samples_per_sec)
      ∷ ("bits_per_sample", of_unsigned format.bits_per_sample)
      ∷ ("channels", of_unsigned format.channels)
      ∷ [])
