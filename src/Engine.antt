-- ===== src/Engine.antt =====
-- The SAPI engine: CoreEngine/SapiEngine.h and .cpp, CoreEngine/ProviderSessionConfig.h.
pub mod Session
pub mod Speak
pub mod Callbacks
pub mod Invariant
pub mod Calls
pub mod Cleanup
pub mod Recovery
pub mod Sending
pub mod Events
pub mod Examples
use modern_sapi_adapter.Base.{
  ℕ, Bool, true, false, not, ◌&&◌, Option, none, some, List, [], ◌∷◌, ◌==◌, nat_eq, if◌then◌else◌,
}
use modern_sapi_adapter.AudioFormat.{WaveFormat}
use modern_sapi_adapter.Worker.State.{SpeechWorker}

abbrev pub is_blank : List ℕ → Bool
is_blank [] = true
is_blank (c ∷ cs) = false

-- `WAVEFORMATEX{}`.
abbrev pub zero_format : WaveFormat
zero_format = record {
  format_tag = 0;
  channels = 0;
  samples_per_sec = 0;
  avg_bytes_per_sec = 0;
  block_align = 0;
  bits_per_sample = 0;
  cb_size = 0;
}

-- Wide texts are lists of UTF-16 units.
pub record ProviderSessionConfig : Type 0 where
  pub executable_path : List ℕ
  pub pipe_name : List ℕ
  pub voice_id : List ℕ
  pub audio_format : WaveFormat
  pub has_output_format : Bool

-- A configuration as its member initialisers and as `Reset` leave it.
unfoldable pub reset_config : ProviderSessionConfig
reset_config = record {
  executable_path = [];
  pipe_name = [];
  voice_id = [];
  audio_format = zero_format;
  has_output_format = false;
}

unfoldable pub is_configured : ProviderSessionConfig → Bool
is_configured c = not (is_blank c.pipe_name)

unfoldable pub is_format_compatible : ProviderSessionConfig → WaveFormat → Bool
is_format_compatible c candidate =
    let f = c.audio_format in
    if not c.has_output_format
    then true
    else candidate.format_tag == f.format_tag
      && candidate.channels == f.channels
      && candidate.samples_per_sec == f.samples_per_sec
      && candidate.avg_bytes_per_sec == f.avg_bytes_per_sec
      && candidate.block_align == f.block_align
      && candidate.bits_per_sample == f.bits_per_sample
      && candidate.cb_size == f.cb_size

-- COM objects are numbers, and null pointers are `none`. The client is there or not: what it does
-- is what the calls of it answer.
pub record SapiEngine : Type 0 where
  pub token : Option ℕ
  pub site : Option ℕ
  pub active_speak_id : ℕ
  pub has_client : Bool
  pub worker : Option SpeechWorker
  pub config : ProviderSessionConfig
  pub speak_id_counter : ℕ

-- The constructor.
unfoldable pub new_engine : SapiEngine
unfolding reset_config
new_engine = record {
  token = none;
  site = none;
  active_speak_id = 0;
  has_client = false;
  worker = none;
  config = reset_config;
  speak_id_counter = 0;
}
