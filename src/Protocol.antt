-- ===== src/Protocol.antt =====
-- Control events as JSON: CoreEngine/SpeechProtocolUtils.h.
pub mod Events
pub mod Roundtrip
pub mod Unaddressed
pub mod Ranges
pub mod Examples
use Prim.Native.String.{String}
use Prim.Native.Nat.{bit_and}
use modern_sapi_adapter.Base.{
  ℕ, ◌-◌, Bool, true, false, ◌&&◌, ◌||◌, Option, none, some, ◌==◌, ◌!=◌, nat_eq, leb, if◌then◌else◌,
  max_u32, max_u64,
}
use modern_sapi_adapter.Event.{
  ProviderEventType, ProviderControlEvent, SpeechEventOffsets, new_event, event_type_eq, string_eq,
  is_speech_boundary, is_terminal,
}
use modern_sapi_adapter.Json.{Json, unsigned_member, string_member}

unfoldable pub parse_event_type : String → ProviderEventType
parse_event_type name =
    if name == "word_boundary"
    then ProviderEventType.word_boundary
    else if name == "sentence_boundary"
    then ProviderEventType.sentence_boundary
    else if name == "bookmark_reached"
    then ProviderEventType.bookmark
    else if name == "synthesis_complete"
    then ProviderEventType.synthesis_complete
    else if name == "synthesis_cancelled"
    then ProviderEventType.synthesis_cancelled
    else if name == "log"
    then ProviderEventType.log
    else if name == "completed"
    then ProviderEventType.legacy_completed
    else ProviderEventType.unknown

unfoldable pub has_synthesis_inactivity_timed_out : ℕ → ℕ → ℕ → Bool
has_synthesis_inactivity_timed_out now last_progress timeout_ms =
    leb last_progress now && leb timeout_ms (now - last_progress)

unfoldable pub has_cancellation_timed_out : ℕ → ℕ → Bool
has_cancellation_timed_out now deadline = deadline != 0 && leb deadline now

module _ (j : Json) where
  open j use {Value, is_object}

  -- `TryParseSpeechOffsets`: what it has written so far stays written where it fails.
  unfoldable pub try_parse_speech_offsets :
      Value → ProviderEventType → SpeechEventOffsets → SpeechEventOffsets × Bool
  try_parse_speech_offsets v type offsets =
      if is_object v
      then elim (unsigned_member j v "audio_offset_ms" max_u32) [
        | none ↦ (offsets, false)
        | some ms ↦
            let with_audio = record offsets { audio_offset_ms = ms } in
            if type == ProviderEventType.bookmark
            then (with_audio, true)
            else elim (unsigned_member j v "text_offset" max_u32) [
              | none ↦ (with_audio, false)
              | some offset ↦
                  let with_text = record with_audio { text_offset = offset } in
                  elim (unsigned_member j v "text_length" max_u32) [
                    | none ↦ (with_text, false)
                    | some n ↦ (record with_text { text_length = n }, true)
                  ]
            ]
      ]
      else (offsets, false)

  -- `TryParseTerminalBytes`: `outBytes` and the result.
  unfoldable pub try_parse_terminal_bytes : Value → ProviderEventType → ℕ × Bool
  try_parse_terminal_bytes v type =
      let key =
        if type == ProviderEventType.synthesis_complete
        then "total_audio_bytes"
        else "audio_bytes_written" in
      if is_object v
        && (type == ProviderEventType.synthesis_complete
            || type == ProviderEventType.synthesis_cancelled)
      then elim (unsigned_member j v key max_u64) [ none ↦ (0, false) | some n ↦ (n, true) ]
      else (0, false)

  -- The event's name and type, then its request.
  unfoldable pub with_name : Value → ProviderControlEvent → ProviderControlEvent
  unfolding parse_event_type
  with_name v event = elim (string_member j v "event") [
    | none ↦ event
    | some name ↦ record event { raw_event_name = name; type = parse_event_type name }
  ]

  unfoldable pub with_speak_id : Value → ProviderControlEvent → ProviderControlEvent
  with_speak_id v event = elim (unsigned_member j v "speak_id" max_u64) [
    | none ↦ event
    | some id ↦ record event { speak_id = id }
  ]

  abbrev text_or : Option String → String → String
  text_or none default = default
  text_or (some s) default = s

  unfoldable pub with_offsets : Value → ProviderControlEvent → ProviderControlEvent
  unfolding try_parse_speech_offsets
  with_offsets v event =
      let (offsets, valid) = try_parse_speech_offsets v event.type event.speech_offsets in
      record event {
        speech_offsets = offsets;
        has_valid_speech_offsets = valid;
        bookmark_name =
            if event.type == ProviderEventType.bookmark
            then text_or (string_member j v "bookmark_name") event.bookmark_name
            else event.bookmark_name;
      }

  unfoldable pub with_terminal_bytes : Value → ProviderControlEvent → ProviderControlEvent
  unfolding try_parse_terminal_bytes
  with_terminal_bytes v event =
      let (bytes, valid) = try_parse_terminal_bytes v event.type in
      record event { terminal_audio_bytes = bytes; has_valid_terminal_bytes = valid }

  unfoldable pub with_log : Value → ProviderControlEvent → ProviderControlEvent
  with_log v event = record event {
    log_severity = text_or (string_member j v "severity") event.log_severity;
    log_message = text_or (string_member j v "message") event.log_message;
    log_friendly_text = text_or (string_member j v "friendly_text") event.log_friendly_text;
  }

  -- What the members of a named event add.
  unfoldable pub with_members : Value → ProviderControlEvent → ProviderControlEvent
  unfolding with_offsets with_terminal_bytes with_log is_speech_boundary is_terminal
  with_members v event =
      if is_speech_boundary event.type
      then with_offsets v event
      else if is_terminal event.type
      then with_terminal_bytes v event
      else if event.type == ProviderEventType.log
      then with_log v event
      else event

  -- `ParseControlEvent`. Every `get` follows its test, so nothing is thrown.
  unfoldable pub parse_control_event : Value → ProviderControlEvent
  unfolding with_name with_speak_id with_members new_event
  parse_control_event v =
      if is_object v then with_members v (with_speak_id v (with_name v new_event)) else new_event
