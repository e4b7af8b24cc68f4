-- ===== src/Engine/Callbacks.antt =====
-- What the worker's threads and SAPI call: `OnAudioData`, `OnSpeechEvent` with its dispatchers, and
-- `GetOutputFormat`; also the destructor.
use modern_sapi_adapter.Base.{
  ℕ, Bool, false, not, ◌&&◌, Option, none, some, List, length, ◌==◌, ◌!=◌, nat_eq, if◌then◌else◌,
}
use modern_sapi_adapter.Windows.{s_ok, e_outofmemory, sperr_uninitialized, failed}
use modern_sapi_adapter.Event.{
  ProviderEventType, ProviderControlEvent, event_type_eq, string_eq, is_speech_boundary,
}
use modern_sapi_adapter.AudioFormat.{WaveFormat, audio_offset_to_bytes}
use modern_sapi_adapter.Strings.{Conversion, utf8_to_co_task_mem}
use modern_sapi_adapter.Engine.{SapiEngine}

-- The section of `OnAudioData` under `m_siteMutex`: the site that it copies.
unfoldable pub copy_site : SapiEngine → Option ℕ
copy_site e = e.site

-- What follows outside the lock, and may come after `Speak` has returned: `write` is the site's
-- `Write`, its result and the bytes it took.
unfoldable pub write_audio : Option ℕ → (ℕ → List ℕ → ℕ × ℕ) → List ℕ → Bool
write_audio none write bytes = false
write_audio (some site) write bytes =
    let (hr, bytes_written) = write site bytes in not (failed hr) && bytes_written == length bytes

-- `OnAudioData`, where the engine is the one that its locked section finds.
unfoldable pub on_audio_data : SapiEngine → (ℕ → List ℕ → ℕ × ℕ) → List ℕ → Bool
on_audio_data e write bytes = write_audio (copy_site e) write bytes

-- `SPEVENTENUM`, as far as it is used.
pub data EventId : Type 0 where
  spei_word_boundary spei_sentence_boundary spei_tts_bookmark : EventId

-- `lParam` with its type: a number, or a wide text that the receiver frees.
pub data Param : Type 0 where
  number : ℕ → Param
  text : List ℕ → Param

pub record SpEvent : Type 0 where
  pub event_id : EventId
  pub audio_stream_offset : ℕ
  pub w_param : ℕ
  pub l_param : Param

-- The event of a word or of a sentence.
abbrev pub boundary_event : SapiEngine → ProviderControlEvent → EventId → SpEvent
boundary_event e event id =
    let offsets = event.speech_offsets in
    record {
      event_id = id;
      audio_stream_offset = audio_offset_to_bytes offsets.audio_offset_ms e.config.audio_format;
      w_param = offsets.text_length;
      l_param = number offsets.text_offset;
    }

-- `DispatchBoundaryEvent`: the event that the site is given, if it is.
unfoldable pub dispatch_boundary_event :
    SapiEngine → ProviderControlEvent → EventId → Option SpEvent
dispatch_boundary_event e event id =
    if event.has_valid_speech_offsets then some (boundary_event e event id) else none

-- The conversions of the bookmark's name: whether memory is left, and `_wtol` as a `WPARAM`.
pub record BookmarkText : Type 0 where
  pub conversion : Conversion
  pub alloc : ℕ → Bool
  pub wtol : List ℕ → ℕ

-- The event of a bookmark, with the converted name if there is one.
abbrev pub bookmark_event :
    BookmarkText → SapiEngine → ProviderControlEvent → Option (List ℕ) → SpEvent
bookmark_event b e event name =
    let ms = event.speech_offsets.audio_offset_ms in
    record {
      event_id = spei_tts_bookmark;
      audio_stream_offset = audio_offset_to_bytes ms e.config.audio_format;
      w_param = elim name [ none ↦ 0 | some units ↦ b.wtol units ];
      l_param = elim name [ none ↦ number 0 | some units ↦ text units ];
    }

unfoldable pub dispatch_bookmark_event :
    BookmarkText → SapiEngine → ProviderControlEvent → Option SpEvent
dispatch_bookmark_event b e event =
    let name = utf8_to_co_task_mem b.conversion b.alloc event.bookmark_name in
    if event.has_valid_speech_offsets
    then some (bookmark_event b e event (if event.bookmark_name == "" then none else name))
    else none

-- The `switch` of `OnSpeechEvent`; `DispatchLogEvent` writes to the log only.
unfoldable pub dispatch :
    ProviderEventType → BookmarkText → SapiEngine → ProviderControlEvent → Option SpEvent
dispatch ProviderEventType.word_boundary b e event =
    dispatch_boundary_event e event spei_word_boundary
dispatch ProviderEventType.sentence_boundary b e event =
    dispatch_boundary_event e event spei_sentence_boundary
dispatch ProviderEventType.bookmark b e event = dispatch_bookmark_event b e event
dispatch _ b e event = none

-- The section of `OnSpeechEvent` under `m_siteMutex`, with the test before it: the site that it
-- copies; none where it returns, and where it copies none for an event that needs no site.
unfoldable pub copy_event_site : SapiEngine → ProviderControlEvent → Option ℕ
copy_event_site e event =
    if event.speak_id == 0
    then none
    else if event.speak_id != e.active_speak_id
    then none
    else if is_speech_boundary event.type
    then e.site
    else none

-- What follows outside the lock, and may come after `Speak` has returned: the site whose `AddEvents`
-- is called, and the event that it is given.
unfoldable pub add_event :
    Option ℕ → BookmarkText → SapiEngine → ProviderControlEvent → Option (ℕ × SpEvent)
add_event none b e event = none
add_event (some site) b e event = elim (dispatch event.type b e event) [
  | none ↦ none
  | some sp ↦ some (site, sp)
]

-- `OnSpeechEvent`, where the engine is the one that its locked section finds; the format that the
-- dispatch reads later is the same one.
unfoldable pub on_speech_event :
    BookmarkText → SapiEngine → ProviderControlEvent → Option (ℕ × SpEvent)
on_speech_event b e event = add_event (copy_event_site e event) b e event

-- `GUID_NULL` and `SPDFID_WaveFormatEx`.
pub data FormatId : Type 0 where
  guid_null spdfid_wave_format_ex : FormatId

-- What `GetOutputFormat` returns and writes.
pub record OutputFormat : Type 0 where
  pub hr : ℕ
  pub format_id : FormatId
  pub wave_format : Option WaveFormat

-- `GetOutputFormat`, by whether the caller wants the format and whether `CoTaskMemAlloc` has room.
-- What is written through a null pointer is left out.
unfoldable pub get_output_format : SapiEngine → (wants_format allocates : Bool) → OutputFormat
get_output_format e wants_format allocates =
    if not e.config.has_output_format
    then record { hr = sperr_uninitialized; format_id = guid_null; wave_format = none }
    else if not wants_format
    then record { hr = s_ok; format_id = spdfid_wave_format_ex; wave_format = none }
    else if allocates
    then record {
      hr = s_ok;
      format_id = spdfid_wave_format_ex;
      wave_format = some e.config.audio_format;
    }
    else record { hr = e_outofmemory; format_id = spdfid_wave_format_ex; wave_format = none }

-- The destructor.
unfoldable pub destroy : SapiEngine → SapiEngine
destroy e = record e { site = none; worker = none; has_client = false }
