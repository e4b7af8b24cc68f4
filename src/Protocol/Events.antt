-- ===== src/Protocol/Events.antt =====
-- The messages of the protocol (docs/core_engine.md).
use Prim.Native.String.{String}
use modern_sapi_adapter.Base.{ℕ, ◌≤◌, true, List, [], ◌∷◌, nat_eq, max_u32, max_u64}
use modern_sapi_adapter.Event.{
  ProviderEventType, ProviderControlEvent, SpeechEventOffsets, new_event, no_offsets, event_type_eq,
  string_eq,
}
use modern_sapi_adapter.Json.{Json}

-- The names of the protocol.
abbrev pub event_name : ProviderEventType → String
event_name ProviderEventType.word_boundary = "word_boundary"
event_name ProviderEventType.sentence_boundary = "sentence_boundary"
event_name ProviderEventType.bookmark = "bookmark_reached"
event_name ProviderEventType.synthesis_complete = "synthesis_complete"
event_name ProviderEventType.synthesis_cancelled = "synthesis_cancelled"
event_name ProviderEventType.log = "log"
event_name ProviderEventType.legacy_completed = "completed"
event_name ProviderEventType.unknown = ""

-- A message of the protocol about a request, as a provider means it.
pub data Message : Type 0 where
  words : SpeechEventOffsets → Message
  sentence : SpeechEventOffsets → Message
  bookmark_at : ℕ → String → Message
  complete : ℕ → Message
  cancelled : ℕ → Message
  logged : String → String → String → Message

abbrev pub type_of : Message → ProviderEventType
type_of (words o) = ProviderEventType.word_boundary
type_of (sentence o) = ProviderEventType.sentence_boundary
type_of (bookmark_at ms name) = ProviderEventType.bookmark
type_of (complete n) = ProviderEventType.synthesis_complete
type_of (cancelled n) = ProviderEventType.synthesis_cancelled
type_of (logged s m f) = ProviderEventType.log

-- Its numbers fit their types.
abbrev pub Fits : Message → Type 0
Fits (words o) =
    (o.audio_offset_ms ≤ max_u32) × (o.text_offset ≤ max_u32) × (o.text_length ≤ max_u32)
Fits (sentence o) =
    (o.audio_offset_ms ≤ max_u32) × (o.text_offset ≤ max_u32) × (o.text_length ≤ max_u32)
Fits (bookmark_at ms name) = ms ≤ max_u32
Fits (complete n) = n ≤ max_u64
Fits (cancelled n) = n ≤ max_u64
Fits (logged s m f) = Unit {0}

-- The event that it stands for.
abbrev pub event_of : ℕ → Message → ProviderControlEvent
event_of id m =
    let base = record new_event {
      type = type_of m;
      speak_id = id;
      raw_event_name = event_name (type_of m);
    } in
    elim m [
      | words o ↦ record base { speech_offsets = o; has_valid_speech_offsets = true }
      | sentence o ↦ record base { speech_offsets = o; has_valid_speech_offsets = true }
      | bookmark_at ms name ↦ record base {
        speech_offsets = record no_offsets { audio_offset_ms = ms };
        has_valid_speech_offsets = true;
        bookmark_name = name;
      }
      | complete n ↦ record base { terminal_audio_bytes = n; has_valid_terminal_bytes = true }
      | cancelled n ↦ record base { terminal_audio_bytes = n; has_valid_terminal_bytes = true }
      | logged s m f ↦ record base { log_severity = s; log_message = m; log_friendly_text = f }
    ]

module _ (j : Json) where
  open j use {Value, of_string, of_unsigned, of_object}

  abbrev pub offset_members : SpeechEventOffsets → List (String × Value)
  offset_members o =
      ("audio_offset_ms", of_unsigned o.audio_offset_ms)
      ∷ ("text_offset", of_unsigned o.text_offset)
      ∷ ("text_length", of_unsigned o.text_length)
      ∷ []

  abbrev pub members_of : Message → List (String × Value)
  members_of (words o) = offset_members o
  members_of (sentence o) = offset_members o
  members_of (bookmark_at ms name) =
      ("audio_offset_ms", of_unsigned ms) ∷ ("bookmark_name", of_string name) ∷ []
  members_of (complete n) = ("total_audio_bytes", of_unsigned n) ∷ []
  members_of (cancelled n) = ("audio_bytes_written", of_unsigned n) ∷ []
  members_of (logged s m f) =
      ("severity", of_string s) ∷ ("message", of_string m) ∷ ("friendly_text", of_string f) ∷ []

  -- The JSON document for a message.
  abbrev pub document_of : ℕ → Message → Value
  document_of id m =
      of_object (
        ("event", of_string (event_name (type_of m))) ∷ ("speak_id", of_unsigned id) ∷ members_of m)
