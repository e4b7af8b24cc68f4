-- ===== src/Engine/Examples.antt =====
-- An engine with a provider for 16-bit stereo.
use modern_sapi_adapter.Base.{
  ℕ, ◌≡◌, ◌↔◌, refl, true, false, Option, none, some, List, [], ◌∷◌, arith,
}
use modern_sapi_adapter.Windows.{e_fail}
use modern_sapi_adapter.Event.{ProviderControlEvent, new_event, is_speech_boundary}
use modern_sapi_adapter.Json.{narrowed, string_member, unsigned_member}
use modern_sapi_adapter.Json.Tree.{Tree, tree_json, tree_json-IsLawful}
use modern_sapi_adapter.AudioFormat.{
  WaveFormat, pcm_format, positive_integer, try_parse_audio_format, wave_format_to_json,
  audio_offset_to_bytes,
}
use modern_sapi_adapter.AudioFormat.Parsed.{IsPcm}
use modern_sapi_adapter.Protocol.{parse_control_event}
use modern_sapi_adapter.Protocol.Events.{Message, words, document_of, event_of}
use modern_sapi_adapter.Protocol.Roundtrip.{parse-document_of}
use modern_sapi_adapter.Strings.Examples.{letters}
use modern_sapi_adapter.Fragments.Examples.{greeting}
use modern_sapi_adapter.Pcm.Assembler.{new_assembler}
use modern_sapi_adapter.Request.{new_context}
use modern_sapi_adapter.StatePolicy.{evaluate_start}
use modern_sapi_adapter.Worker.State.{SpeechWorker, new_worker, start, is_faulted}
use modern_sapi_adapter.Worker.Fault.{
  enter_faulted_state, begin_fault, reveal_fault, clear_fault_pending, cancel_pipes,
}
use modern_sapi_adapter.Engine.{
  reset_config, SapiEngine, ProviderSessionConfig, new_engine, is_configured, is_format_compatible,
}
use modern_sapi_adapter.Engine.Session.{
  SessionAnswers, TokenAnswers, is_session_active, set_object_token, load_provider_from_token,
  create_provider_session, publish, candidate, response_format, is_valid_info_response,
}
use modern_sapi_adapter.Engine.Speak.{
  open_request, recover_session, SpeakAnswers, run_request, speak_request, speak,
}
use modern_sapi_adapter.Engine.Callbacks.{
  BookmarkText, SpEvent, spei_word_boundary, number, copy_site, on_audio_data, copy_event_site,
  add_event, on_speech_event, dispatch, dispatch_boundary_event,
}
use modern_sapi_adapter.Engine.Invariant.{IsSound}
use modern_sapi_adapter.Engine.Calls.{Calls, none_yet, then_call, sets_token, Calls-IsSound}
use modern_sapi_adapter.Engine.Cleanup.{IsClear, speak_cleans}
use modern_sapi_adapter.Engine.Recovery.{IsReady, info_document, fresh_worker, recovery_succeeds}
use modern_sapi_adapter.Engine.Sending.{recover_kept, failed_send_quarantines}
use modern_sapi_adapter.Engine.Events.{waiting, IsForSite, Translates, event_passed_iff}

abbrev stereo : WaveFormat
stereo = record {
  format_tag = 1;
  channels = 2;
  samples_per_sec = 24000;
  avg_bytes_per_sec = 96000;
  block_align = 4;
  bits_per_sample = 16;
  cb_size = 0;
}

abbrev ready : SessionAnswers tree_json
ready = record {
  connect_hr = some 0;
  send_hr = some 0;
  read_hr = some 0;
  response = info_document tree_json stereo;
  threads_start = true;
}

ready-IsReady : IsReady tree_json ready stereo
ready-IsReady = record {
  connects = refl;
  sends = refl;
  reads = refl;
  informs = refl;
  starts = refl;
}

abbrev token_values : TokenAnswers
token_values = record {
  executable_hr = 0;
  executable = 101 ∷ [];
  pipe_hr = 0;
  pipe = 112 ∷ [];
  voice_hr = e_fail;
  voice = [];
}

-- The engine after `SetObjectToken`.
abbrev loaded : SapiEngine
loaded = (set_object_token tree_json new_engine (some 1) token_values ready).0

loaded-Calls : Calls letters tree_json new_engine loaded
loaded-Calls = then_call none_yet (sets_token (some 1) token_values ready refl)

loaded_negotiated : loaded.config.has_output_format ≡ true
unfolding narrowed set_object_token load_provider_from_token create_provider_session publish
    candidate response_format new_engine is_configured is_valid_info_response string_member
    wave_format_to_json try_parse_audio_format positive_integer unsigned_member pcm_format
    is_format_compatible new_assembler reset_config
loaded_negotiated = refl

Calls-IsSound_example : IsSound loaded
Calls-IsSound_example = Calls-IsSound letters tree_json loaded-Calls

abbrev configured : ProviderSessionConfig
configured = record {
  executable_path = 101 ∷ [];
  pipe_name = 112 ∷ [];
  voice_id = [];
  audio_format = stereo;
  has_output_format = true;
}

-- An idle engine with a worker.
abbrev engine_with : SpeechWorker → SapiEngine
engine_with w = record {
  token = some 1;
  site = none;
  active_speak_id = 0;
  has_client = true;
  worker = some w;
  config = configured;
  speak_id_counter = 6;
}

abbrev idle : SapiEngine
idle = engine_with (fresh_worker stereo)

abbrev broken : SapiEngine
broken = engine_with (enter_faulted_state (fresh_worker stereo))

-- A provider that is there, and answers to the message with a result of the caller's.
abbrev answers : Option ℕ → SpeakAnswers tree_json
answers send_hr = record {
  session = ready;
  before_start = λ w. w;
  start_tick = 1000;
  send_hr = λ message. send_hr;
  during_send = λ w. w;
  finish = λ w. (w, some 0);
  thrown_hr = e_fail;
}

-- The worker that accepted request 7.
abbrev speaking : SpeechWorker
speaking = (start (fresh_worker stereo) 7 1000).0

abbrev spoken : Option ℕ → SapiEngine × ℕ
spoken send_hr = speak tree_json letters idle (some (greeting ∷ [])) (some 5) (answers send_hr)

speak_cleans_example :
    IsClear idle (spoken (some 0)).0
    × (copy_site (spoken (some 0)).0 ≡ none)
    × ((event : ProviderControlEvent) → copy_event_site (spoken (some 0)).0 event ≡ none)
    × ((write : ℕ → List ℕ → ℕ × ℕ) (bytes : List ℕ)
        → on_audio_data (spoken (some 0)).0 write bytes ≡ false)
    × ((b : BookmarkText) (event : ProviderControlEvent)
        → on_speech_event b (spoken (some 0)).0 event ≡ none)
speak_cleans_example = speak_cleans letters tree_json idle (greeting ∷ []) 5 (answers (some 0))

broken_inactive : is_session_active broken ≡ false
unfolding is_session_active is_faulted enter_faulted_state begin_fault reveal_fault
    clear_fault_pending cancel_pipes new_worker new_context
broken_inactive = refl

stereo-IsPcm : IsPcm stereo
stereo-IsPcm = omega arith

recovery_succeeds_example :
    let run =
      run_request tree_json speaking
        (speak_request tree_json letters [] 7 (greeting ∷ []))
        (answers (some 0)) in
    let (e', hr) =
      speak tree_json letters broken (some (greeting ∷ [])) (some 5) (answers (some 0)) in
    (is_faulted speaking ≡ false)
    × (speaking.context.token.speak_id ≡ 7)
    × (hr ≡ run.1)
    × (e'.worker ≡ some run.0)
unfolding is_configured is_format_compatible
recovery_succeeds_example =
    recovery_succeeds letters tree_json broken (greeting ∷ []) 5 (answers (some 0)) stereo
      tree_json-IsLawful stereo-IsPcm refl refl refl broken_inactive ready-IsReady refl

idle_active : is_session_active idle ≡ true
unfolding is_session_active is_faulted new_worker new_context
idle_active = refl

accepted : start (fresh_worker stereo) 7 1000 ≡ (speaking, true)
unfolding start evaluate_start new_worker new_context
accepted = refl

failed_send_quarantines_example :
    let (e', hr) = spoken (some e_fail) in
    (hr ≡ e_fail)
    × (e'.worker ≡ some (enter_faulted_state speaking))
    × (is_session_active e' ≡ false)
unfolding open_request
failed_send_quarantines_example =
    failed_send_quarantines letters tree_json idle (greeting ∷ []) 5 (answers (some e_fail))
      (fresh_worker stereo) speaking (open_request idle 5) e_fail
      (recover_kept tree_json idle 5 (answers (some e_fail)) idle_active) refl accepted refl refl

-- A word of request 1.
abbrev third_word : Message
third_word = words (record { audio_offset_ms = 421; text_offset = 12; text_length = 5 })

abbrev word_document : Tree
word_document = document_of tree_json 1 third_word

abbrev word : ProviderControlEvent
word = parse_control_event tree_json word_document

abbrev bookmarks : BookmarkText
bookmarks = record { conversion = letters; alloc = λ n. true; wtol = λ units. 0 }

abbrev at_word : SpEvent
at_word = record {
  event_id = spei_word_boundary;
  audio_stream_offset = 40416;
  w_param = 5;
  l_param = number 12;
}

abbrev now : SapiEngine
now = waiting tree_json loaded 5 ready

abbrev loaded_engine : SapiEngine
loaded_engine = record {
  token = some 1;
  site = none;
  active_speak_id = 0;
  has_client = true;
  worker = some (fresh_worker stereo);
  config = configured;
  speak_id_counter = 0;
}

loaded_eq : loaded ≡ loaded_engine
unfolding narrowed set_object_token load_provider_from_token create_provider_session publish
    candidate response_format new_engine is_configured is_valid_info_response string_member
    wave_format_to_json try_parse_audio_format positive_integer unsigned_member pcm_format
    is_format_compatible new_assembler reset_config
loaded_eq = refl

abbrev waiting_engine : SapiEngine
waiting_engine = record loaded_engine { site = some 5; active_speak_id = 1; speak_id_counter = 1 }

waiting_eq : waiting tree_json loaded_engine 5 ready ≡ waiting_engine
unfolding recover_session is_session_active is_faulted new_worker new_context open_request
waiting_eq = refl

now_eq : now ≡ waiting_engine
now_eq = rw loaded_eq waiting_eq

word_eq : word ≡ event_of 1 third_word
word_eq =
    parse-document_of tree_json 1 third_word tree_json-IsLawful (omega arith)
      (omega arith, omega arith, omega arith)

word_heard : on_speech_event bookmarks waiting_engine (event_of 1 third_word) ≡ some (5, at_word)
unfolding on_speech_event copy_event_site add_event dispatch dispatch_boundary_event
    audio_offset_to_bytes is_speech_boundary new_event
word_heard = refl

word_passed : on_speech_event bookmarks now word ≡ some (5, at_word)
word_passed = rw (now_eq, word_eq) word_heard

event_passed_iff_example :
    (on_speech_event bookmarks now word ≡ some (5, at_word))
    ↔ (IsForSite now word 5 × Translates bookmarks now word at_word)
event_passed_iff_example = event_passed_iff bookmarks now word at_word 5
