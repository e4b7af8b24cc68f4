-- ===== src/AudioFormat/Examples.antt =====
-- 16-bit stereo at 24 kHz.
use modern_sapi_adapter.Base.{◌≡◌, refl, some, arith}
use modern_sapi_adapter.Json.{narrowed, unsigned_member}
use modern_sapi_adapter.Json.Tree.{tree_json, tree_json-IsLawful}
use modern_sapi_adapter.AudioFormat.{
  WaveFormat, pcm_format, positive_integer, try_parse_audio_format, wave_format_to_json,
  audio_offset_to_bytes,
}
use modern_sapi_adapter.AudioFormat.Parsed.{IsPcm, try_parse-IsPcm, try_parse-wave_format_to_json}
use modern_sapi_adapter.AudioFormat.Offsets.{FrameAt, audio_offset-FrameAt}

abbrev stereo : WaveFormat
stereo = record {
  format_tag = 1;
  channels = 2;
  samples_per_sec = 24000;
  avg_bytes_per_sec = 96000;
  block_align = 4;
  bits_per_sample = 16;
  cb_size = 0;
}

stereo_parsed :
    try_parse_audio_format tree_json (wave_format_to_json tree_json stereo) ≡ some stereo
unfolding narrowed try_parse_audio_format wave_format_to_json positive_integer pcm_format
    unsigned_member
stereo_parsed = refl

stereo-IsPcm : IsPcm stereo
stereo-IsPcm = omega arith

try_parse-IsPcm_example : IsPcm stereo
try_parse-IsPcm_example =
    try_parse-IsPcm tree_json (wave_format_to_json tree_json stereo) stereo stereo_parsed

try_parse-wave_format_to_json_example :
    try_parse_audio_format tree_json (wave_format_to_json tree_json stereo) ≡ some stereo
try_parse-wave_format_to_json_example =
    try_parse-wave_format_to_json tree_json stereo tree_json-IsLawful stereo-IsPcm

audio_offset-FrameAt_example : FrameAt 421 (audio_offset_to_bytes 421 stereo) stereo
audio_offset-FrameAt_example = audio_offset-FrameAt 421 stereo stereo-IsPcm (omega arith)
