-- ===== src/Protocol/Ranges.antt =====
-- The numbers of a parsed event fit their types, whatever the document.
use modern_sapi_adapter.Base.{◌≤◌, arith, max_u32, max_u64, ◌==◌, Bool-cases, if_keeps, inl, inr}
use modern_sapi_adapter.Event.{
  ProviderEventType, ProviderControlEvent, new_event, event_type_eq, string_eq, is_speech_boundary,
  is_terminal,
}
use modern_sapi_adapter.Json.{Json}
use modern_sapi_adapter.Json.Laws.{IsLawful, member_cases}
use modern_sapi_adapter.Protocol.{
  parse_control_event, with_name, with_speak_id, with_members, with_offsets, with_terminal_bytes,
  with_log, try_parse_speech_offsets, try_parse_terminal_bytes,
}

pub record FitsTypes (event : ProviderControlEvent) : Type 0 where
  pub request : event.speak_id ≤ max_u64
  pub audio : event.speech_offsets.audio_offset_ms ≤ max_u32
  pub text : event.speech_offsets.text_offset ≤ max_u32
  pub span : event.speech_offsets.text_length ≤ max_u32
  pub bytes : event.terminal_audio_bytes ≤ max_u64

module _ (j : Json) (v : j.Value) (event : ProviderControlEvent) (laws : IsLawful j) where
  with_name-FitsTypes : FitsTypes event → FitsTypes (with_name j v event)
  unfolding with_name
  with_name-FitsTypes f = ground arith

  with_speak_id-FitsTypes : FitsTypes event → FitsTypes (with_speak_id j v event)
  unfolding with_speak_id
  with_speak_id-FitsTypes f = elim (member_cases j v "speak_id" max_u64 laws) [
    | inl e ↦ ground arith
    | inr (n, e, h) ↦ ground arith
  ]

  with_terminal_bytes-FitsTypes : FitsTypes event → FitsTypes (with_terminal_bytes j v event)
  unfolding with_terminal_bytes try_parse_terminal_bytes
  with_terminal_bytes-FitsTypes f =
      let total = member_cases j v "total_audio_bytes" max_u64 laws in
      let written = member_cases j v "audio_bytes_written" max_u64 laws in
      elim (Bool-cases (event.type == ProviderEventType.synthesis_complete)) [
        | inl e ↦ elim total [ inl a ↦ ground arith | inr (n, a, h) ↦ ground arith ]
        | inr e ↦ elim written [ inl a ↦ ground arith | inr (n, a, h) ↦ ground arith ]
      ]

  with_log-FitsTypes : FitsTypes event → FitsTypes (with_log j v event)
  unfolding with_log
  with_log-FitsTypes f = ground arith

  with_offsets-FitsTypes : FitsTypes event → FitsTypes (with_offsets j v event)
  unfolding with_offsets try_parse_speech_offsets
  with_offsets-FitsTypes f =
      let audio = member_cases j v "audio_offset_ms" max_u32 laws in
      let text = member_cases j v "text_offset" max_u32 laws in
      let span = member_cases j v "text_length" max_u32 laws in
      elim audio [
        | inl a ↦ ground arith
        | inr (n, a, h) ↦ elim text [
          | inl b ↦ ground arith
          | inr (m, b, k) ↦ elim span [ inl c ↦ ground arith | inr (l, c, i) ↦ ground arith ]
        ]
      ]

with_members-FitsTypes :
    (j : Json) (v : j.Value) (event : ProviderControlEvent)
    → IsLawful j
    → FitsTypes event
    → FitsTypes (with_members j v event)
unfolding with_members
with_members-FitsTypes j v event laws f =
    let offsets = with_offsets-FitsTypes j v event laws f in
    let bytes = with_terminal_bytes-FitsTypes j v event laws f in
    let logged = with_log-FitsTypes j v event laws f in
    if_keeps FitsTypes (is_speech_boundary event.type) offsets (
      if_keeps FitsTypes (is_terminal event.type) bytes
        (if_keeps FitsTypes (event.type == ProviderEventType.log) logged f))

-- Whatever the document, the parsed request, offsets, text position and length, and byte total fit
-- the types of the members that hold them.
pub parse_control_event-FitsTypes :
    (j : Json) (v : j.Value) → IsLawful j → FitsTypes (parse_control_event j v)
unfolding parse_control_event new_event
parse_control_event-FitsTypes j v laws =
    let blank : FitsTypes new_event = omega arith in
    let named = with_name-FitsTypes j v new_event laws blank in
    let addressed = with_speak_id-FitsTypes j v (with_name j v new_event) laws named in
    let full =
      with_members-FitsTypes j v (with_speak_id j v (with_name j v new_event)) laws addressed in
    if_keeps FitsTypes (j.is_object v) full blank
