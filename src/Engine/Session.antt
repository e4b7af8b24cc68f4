-- ===== src/Engine/Session.antt =====
-- The provider session: `SetObjectToken`, `LoadProviderFromToken`, `CreateProviderSessionLocked` and
-- `RetireFaultedSessionLocked`. What the calls of the client answer enters as an argument.
use modern_sapi_adapter.Base.{
  ℕ, Bool, true, false, not, ◌&&◌, ◌||◌, Option, none, some, List, [], ◌==◌, if◌then◌else◌, ok,
  threw,
}
use modern_sapi_adapter.Windows.{s_ok, e_fail, e_pointer, e_unexpected, failed}
use modern_sapi_adapter.Event.{string_eq}
use modern_sapi_adapter.Json.{Json, string_member}
use modern_sapi_adapter.AudioFormat.{WaveFormat, try_parse_audio_format}
use modern_sapi_adapter.Pcm.Assembler.{new_assembler}
use modern_sapi_adapter.Worker.State.{SpeechWorker, new_worker, is_faulted}
use modern_sapi_adapter.Engine.{
  SapiEngine, ProviderSessionConfig, is_blank, is_configured, is_format_compatible,
}

abbrev pub has_worker : SapiEngine → Bool
has_worker e = elim e.worker [ none ↦ false | some w ↦ true ]

-- `IsSessionActiveLocked`.
unfoldable pub is_session_active : SapiEngine → Bool
unfolding is_faulted
is_session_active e = e.has_client && elim e.worker [ none ↦ false | some w ↦ not (is_faulted w) ]

-- `RetireFaultedSessionLocked`.
unfoldable pub retire_faulted_session : SapiEngine → SapiEngine
retire_faulted_session e = record e { worker = none; has_client = false }

-- What a call gives that may throw: `none` where it does. Whether it succeeds.
abbrev pub succeeds : Option ℕ → Bool
succeeds none = false
succeeds (some hr) = not (failed hr)

-- The configuration with the first format that is negotiated.
abbrev pub with_format : ProviderSessionConfig → WaveFormat → ProviderSessionConfig
with_format config format =
    if config.has_output_format
    then config
    else record config { audio_format = format; has_output_format = true }

-- The session goes to the engine whole, or not at all.
unfoldable pub publish : SapiEngine → Option (SpeechWorker × WaveFormat) → SapiEngine × ℕ
publish e none = (e, e_fail)
publish e (some (worker, format)) = (
  record e { has_client = true; worker = some worker; config = with_format e.config format },
  s_ok,
)

-- What `GetStringValue` gives for the three values of the token.
pub record TokenAnswers : Type 0 where
  pub executable_hr : ℕ
  pub executable : List ℕ
  pub pipe_hr : ℕ
  pub pipe : List ℕ
  pub voice_hr : ℕ
  pub voice : List ℕ

-- The configuration with the values of the token.
abbrev pub configure : ProviderSessionConfig → TokenAnswers → ProviderSessionConfig
configure config t = record config {
  executable_path = t.executable;
  pipe_name = t.pipe;
  voice_id = if failed t.voice_hr then [] else t.voice;
}

module _ (j : Json) where
  open j use {Value, is_object, member}

  -- The answers of `Connect`, of `SendControlMessage` and `ReadControlMessage` for the `info`
  -- request, the response read, and whether the threads of the worker start.
  pub record SessionAnswers : Type 0 where
    pub connect_hr : Option ℕ
    pub send_hr : Option ℕ
    pub read_hr : Option ℕ
    pub response : Value
    pub threads_start : Bool

  -- `IsValidInfoResponse`.
  unfoldable pub is_valid_info_response : Value → Bool
  is_valid_info_response v =
      is_object v
      && elim (string_member j v "response") [ none ↦ false | some s ↦ s == "info" ]
      && elim (member v "audio_format") [ none ↦ false | some f ↦ is_object f ]

  -- The format of a valid response, where it can be parsed.
  unfoldable pub response_format : Value → Option WaveFormat
  response_format v =
      if is_valid_info_response v
      then elim (member v "audio_format") [ none ↦ none | some f ↦ try_parse_audio_format j f ]
      else none

  -- The new worker and its format, where nothing fails and nothing is thrown.
  unfoldable pub candidate :
      ProviderSessionConfig → SessionAnswers → Option (SpeechWorker × WaveFormat)
  candidate config a =
      if succeeds a.connect_hr && succeeds a.send_hr && succeeds a.read_hr
      then elim (response_format a.response) [
        | none ↦ none
        | some format ↦
            if is_format_compatible config format
            then elim (new_assembler format.block_align) [
              | threw e ↦ none
              | ok assembler ↦ if a.threads_start then some (new_worker assembler, format) else none
            ]
            else none
      ]
      else none

  -- `CreateProviderSessionLocked`.
  unfoldable pub create_provider_session : SapiEngine → SessionAnswers → SapiEngine × ℕ
  create_provider_session e a =
      if not (is_configured e.config)
        || is_blank e.config.executable_path
        || e.has_client
        || has_worker e
      then (e, e_fail)
      else publish e (candidate e.config a)

  -- `LoadProviderFromToken`.
  unfoldable pub load_provider_from_token :
      SapiEngine → TokenAnswers → SessionAnswers → SapiEngine × ℕ
  load_provider_from_token e t a =
      let configured = record e { config = configure e.config t } in
      if failed t.executable_hr
      then (e, t.executable_hr)
      else if failed t.pipe_hr
      then (e, t.pipe_hr)
      else if e.has_client || has_worker e
      then (e, e_unexpected)
      else create_provider_session configured a

  -- `SetObjectToken`.
  unfoldable pub set_object_token :
      SapiEngine → Option ℕ → TokenAnswers → SessionAnswers → SapiEngine × ℕ
  set_object_token e none t a = (e, e_pointer)
  set_object_token e (some token) t a =
      load_provider_from_token (record e { token = some token }) t a
