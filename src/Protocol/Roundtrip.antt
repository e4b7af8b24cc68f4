-- ===== src/Protocol/Roundtrip.antt =====
-- The parser inverts the protocol.
use Prim.Native.String.{String}
use modern_sapi_adapter.Base.{
  ℕ, ◌≤◌, ◌≡◌, ◌⊎◌, inl, inr, refl, true, some, List, ◌∷◌, nat_eq, max_u32, max_u64, arith, ◌∙◌,
}
use modern_sapi_adapter.Event.{
  ProviderEventType, ProviderControlEvent, SpeechEventOffsets, new_event, event_type_eq, string_eq,
  is_speech_boundary, is_terminal,
}
use modern_sapi_adapter.Json.{Json, unsigned_member, string_member}
use modern_sapi_adapter.Json.Laws.{IsLawful, string_found, unsigned_found}
use modern_sapi_adapter.Protocol.{
  parse_event_type, parse_control_event, with_name, with_speak_id, with_members, with_offsets,
  with_terminal_bytes, with_log, try_parse_speech_offsets, try_parse_terminal_bytes,
}
use modern_sapi_adapter.Protocol.Events.{
  event_name, Message, words, sentence, bookmark_at, complete, cancelled, logged, type_of, Fits,
  event_of, members_of, document_of,
}

abbrev named : String → ℕ → ProviderControlEvent
named name id = record new_event {
  raw_event_name = name;
  type = parse_event_type name;
  speak_id = id;
}

parse_header :
    (j : Json) (v : j.Value) (name : String) (id : ℕ)
    → j.is_object v ≡ true
    → string_member j v "event" ≡ some name
    → unsigned_member j v "speak_id" max_u64 ≡ some id
    → parse_control_event j v ≡ with_members j v (named name id)
unfolding parse_control_event with_name with_speak_id new_event
parse_header j v name id o e i = ground arith

-- The header of every document of the protocol.
document_header :
    (j : Json) (id : ℕ) (m : Message)
    → IsLawful j
    → id ≤ max_u64
    → parse_control_event j (document_of j id m)
      ≡ with_members j (document_of j id m) (named (event_name (type_of m)) id)
document_header j id m laws h =
    let fs : List (String × j.Value) =
      ("event", j.of_string (event_name (type_of m)))
      ∷ ("speak_id", j.of_unsigned id)
      ∷ members_of j m in
    parse_header j (j.of_object fs) (event_name (type_of m)) id (laws.object_of fs)
      (string_found j fs "event" (event_name (type_of m)) laws refl)
      (unsigned_found j fs "speak_id" max_u64 id laws (omega arith) h refl)

members_words :
    (j : Json) (v : j.Value) (event : ProviderControlEvent) (o : SpeechEventOffsets)
    → j.is_object v ≡ true
    → (event.type ≡ ProviderEventType.word_boundary)
      ⊎ (event.type ≡ ProviderEventType.sentence_boundary)
    → unsigned_member j v "audio_offset_ms" max_u32 ≡ some o.audio_offset_ms
    → unsigned_member j v "text_offset" max_u32 ≡ some o.text_offset
    → unsigned_member j v "text_length" max_u32 ≡ some o.text_length
    → with_members j v event ≡ record event { speech_offsets = o; has_valid_speech_offsets = true }
unfolding with_members with_offsets try_parse_speech_offsets is_speech_boundary
members_words j v event o is_obj t a b c = ground arith

members_bookmark :
    (j : Json) (v : j.Value) (event : ProviderControlEvent) (ms : ℕ) (name : String)
    → j.is_object v ≡ true
    → event.type ≡ ProviderEventType.bookmark
    → unsigned_member j v "audio_offset_ms" max_u32 ≡ some ms
    → string_member j v "bookmark_name" ≡ some name
    → let o = event.speech_offsets in
      with_members j v event ≡ record event {
        speech_offsets = record o { audio_offset_ms = ms };
        has_valid_speech_offsets = true;
        bookmark_name = name;
      }
unfolding with_members with_offsets try_parse_speech_offsets is_speech_boundary
members_bookmark j v event ms name is_obj e a b = ground arith

members_complete :
    (j : Json) (v : j.Value) (event : ProviderControlEvent) (n : ℕ)
    → j.is_object v ≡ true
    → event.type ≡ ProviderEventType.synthesis_complete
    → unsigned_member j v "total_audio_bytes" max_u64 ≡ some n
    → with_members j v event
      ≡ record event { terminal_audio_bytes = n; has_valid_terminal_bytes = true }
unfolding with_members with_terminal_bytes try_parse_terminal_bytes is_speech_boundary is_terminal
members_complete j v event n is_obj e a =
    rw (with_members, with_terminal_bytes, try_parse_terminal_bytes, e, is_obj, a) refl

members_cancelled :
    (j : Json) (v : j.Value) (event : ProviderControlEvent) (n : ℕ)
    → j.is_object v ≡ true
    → event.type ≡ ProviderEventType.synthesis_cancelled
    → unsigned_member j v "audio_bytes_written" max_u64 ≡ some n
    → with_members j v event
      ≡ record event { terminal_audio_bytes = n; has_valid_terminal_bytes = true }
unfolding with_members with_terminal_bytes try_parse_terminal_bytes is_speech_boundary is_terminal
members_cancelled j v event n is_obj e a =
    rw (with_members, with_terminal_bytes, try_parse_terminal_bytes, e, is_obj, a) refl

members_log :
    (j : Json) (v : j.Value) (event : ProviderControlEvent) (s m f : String)
    → event.type ≡ ProviderEventType.log
    → string_member j v "severity" ≡ some s
    → string_member j v "message" ≡ some m
    → string_member j v "friendly_text" ≡ some f
    → with_members j v event
      ≡ record event { log_severity = s; log_message = m; log_friendly_text = f }
unfolding with_members with_log is_speech_boundary is_terminal
members_log j v event s m f e a b c = rw (with_members, with_log, e, a, b, c) refl

-- Parsing inverts the protocol: the document of a message about a request, with numbers that fit
-- their types, is parsed as the event that the message stands for.
pub parse-document_of :
    (j : Json) (id : ℕ) (m : Message)
    → IsLawful j
    → id ≤ max_u64
    → Fits m
    → parse_control_event j (document_of j id m) ≡ event_of id m
unfolding new_event parse_event_type
parse-document_of j id (words o) laws h fits =
    let v = document_of j id (words o) in
    document_header j id (words o) laws h
    ∙ members_words j v (named "word_boundary" id) o (laws.object_of _) (inl refl)
        (unsigned_found j _ "audio_offset_ms" max_u32 o.audio_offset_ms laws (omega arith) fits.0
          refl)
        (unsigned_found j _ "text_offset" max_u32 o.text_offset laws (omega arith) fits.1 refl)
        (unsigned_found j _ "text_length" max_u32 o.text_length laws (omega arith) fits.2 refl)
parse-document_of j id (sentence o) laws h fits =
    let v = document_of j id (sentence o) in
    document_header j id (sentence o) laws h
    ∙ members_words j v (named "sentence_boundary" id) o (laws.object_of _) (inr refl)
        (unsigned_found j _ "audio_offset_ms" max_u32 o.audio_offset_ms laws (omega arith) fits.0
          refl)
        (unsigned_found j _ "text_offset" max_u32 o.text_offset laws (omega arith) fits.1 refl)
        (unsigned_found j _ "text_length" max_u32 o.text_length laws (omega arith) fits.2 refl)
parse-document_of j id (bookmark_at ms name) laws h fits =
    let v = document_of j id (bookmark_at ms name) in
    document_header j id (bookmark_at ms name) laws h
    ∙ members_bookmark j v (named "bookmark_reached" id) ms name (laws.object_of _) refl
        (unsigned_found j _ "audio_offset_ms" max_u32 ms laws (omega arith) fits refl)
        (string_found j _ "bookmark_name" name laws refl)
parse-document_of j id (complete n) laws h fits =
    let v = document_of j id (complete n) in
    document_header j id (complete n) laws h
    ∙ members_complete j v (named "synthesis_complete" id) n (laws.object_of _) refl
        (unsigned_found j _ "total_audio_bytes" max_u64 n laws (omega arith) fits refl)
parse-document_of j id (cancelled n) laws h fits =
    let v = document_of j id (cancelled n) in
    document_header j id (cancelled n) laws h
    ∙ members_cancelled j v (named "synthesis_cancelled" id) n (laws.object_of _) refl
        (unsigned_found j _ "audio_bytes_written" max_u64 n laws (omega arith) fits refl)
parse-document_of j id (logged s m f) laws h fits =
    let v = document_of j id (logged s m f) in
    document_header j id (logged s m f) laws h
    ∙ members_log j v (named "log" id) s m f refl (string_found j _ "severity" s laws refl)
        (string_found j _ "message" m laws refl) (string_found j _ "friendly_text" f laws refl)
