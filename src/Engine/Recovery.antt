-- ===== src/Engine/Recovery.antt =====
-- A session that is no longer active is replaced, and what a failing message does.
use Prim.Native.String.{String}
use modern_sapi_adapter.Base.{
  ℕ, ◌≡◌, ◌<◌, refl, ap, ◌∙◌, true, false, some, List, [], ◌∷◌, nat_eq, add64, arith, ok,
}
use modern_sapi_adapter.Event.{string_eq}
use modern_sapi_adapter.Json.{Json}
use modern_sapi_adapter.Json.Laws.{IsLawful, string_found}
use modern_sapi_adapter.AudioFormat.{WaveFormat, wave_format_to_json}
use modern_sapi_adapter.AudioFormat.Parsed.{IsPcm, try_parse-wave_format_to_json}
use modern_sapi_adapter.Strings.{Conversion}
use modern_sapi_adapter.Fragments.{Fragment}
use modern_sapi_adapter.Request.{upstream_eq, downstream_eq, new_context, reset}
use modern_sapi_adapter.Pcm.Assembler.{new_assembler}
use modern_sapi_adapter.StatePolicy.{evaluate_start}
use modern_sapi_adapter.Worker.State.{SpeechWorker, new_worker, start, started, is_faulted}
use modern_sapi_adapter.Engine.{
  SapiEngine, ProviderSessionConfig, is_configured, is_format_compatible, is_blank,
}
use modern_sapi_adapter.Engine.Session.{
  SessionAnswers, is_session_active, retire_faulted_session, with_format, publish, candidate,
  response_format, is_valid_info_response, create_provider_session, succeeds,
}
use modern_sapi_adapter.Engine.Speak.{
  SpeakAnswers, open_request, clean_site, recover_session, run_request, speak_request, speak_on,
  speak,
}

-- The `info` response of a provider with a format.
abbrev pub info_document : (j : Json) → WaveFormat → j.Value
info_document j f =
    j.of_object (("response", j.of_string "info") ∷ ("audio_format", wave_format_to_json j f) ∷ [])

-- A provider that answers, with this format.
pub record IsReady (j : Json) (a : SessionAnswers j) (f : WaveFormat) : Type 0 where
  pub connects : succeeds a.connect_hr ≡ true
  pub sends : succeeds a.send_hr ≡ true
  pub reads : succeeds a.read_hr ≡ true
  pub informs : a.response ≡ info_document j f
  pub starts : a.threads_start ≡ true

-- The worker of a new session.
abbrev pub fresh_worker : WaveFormat → SpeechWorker
fresh_worker f =
    new_worker (record { block_align = f.block_align; carry = []; completed_frame = [] })

response_format-info :
    (j : Json) (f : WaveFormat)
    → IsLawful j
    → IsPcm f
    → response_format j (info_document j f) ≡ some f
unfolding response_format is_valid_info_response wave_format_to_json
response_format-info j f laws p =
    let fields : List (String × j.Value) =
      ("response", j.of_string "info") ∷ ("audio_format", wave_format_to_json j f) ∷ [] in
    let named = string_found j fields "response" "info" laws refl in
    let parsed = try_parse-wave_format_to_json j f laws p in
    let member : j.member (j.of_object fields) "audio_format" ≡ some (wave_format_to_json j f) =
      laws.member_of fields "audio_format" in
    let inner : j.is_object (wave_format_to_json j f) ≡ true = laws.object_of _ in
    rw (response_format, is_valid_info_response, laws.object_of fields, named, member, inner) parsed

assembler_built :
    (n : ℕ)
    → 0 < n
    → new_assembler n ≡ ok (record { block_align = n; carry = []; completed_frame = [] })
unfolding new_assembler
assembler_built n h = ground arith

candidate-ready :
    (j : Json) (config : ProviderSessionConfig) (a : SessionAnswers j) (f : WaveFormat)
    → IsLawful j
    → IsPcm f
    → is_format_compatible config f ≡ true
    → IsReady j a f
    → candidate j config a ≡ some (fresh_worker f, f)
unfolding candidate
candidate-ready j config a f laws p k r =
    let read : response_format j a.response ≡ some f =
      rw r.informs (response_format-info j f laws p) in
    rw (
      candidate,
      r.connects,
      r.sends,
      r.reads,
      read,
      k,
      assembler_built f.block_align p.align_pos,
      r.starts,
    )

-- The engine of a recovered session.
abbrev recovered : SapiEngine → WaveFormat → SapiEngine
recovered e f = record e {
  has_client = true;
  worker = some (fresh_worker f);
  config = with_format e.config f;
}

recover-ready :
    (j : Json) (e : SapiEngine) (a : SessionAnswers j) (f : WaveFormat)
    → IsLawful j
    → IsPcm f
    → is_configured e.config ≡ true
    → is_blank e.config.executable_path ≡ false
    → is_format_compatible e.config f ≡ true
    → is_session_active e ≡ false
    → IsReady j a f
    → recover_session j e a ≡ (recovered e f, true)
unfolding recover_session create_provider_session retire_faulted_session publish
recover-ready j e a f laws p configured path k broken r =
    let made = candidate-ready j e.config a f laws p k r in
    rw (
      recover_session, broken, create_provider_session, retire_faulted_session, configured, path,
      made,
    )

fresh_start :
    (f : WaveFormat) (id tick : ℕ)
    → (start (fresh_worker f) id tick ≡ ((start (fresh_worker f) id tick).0, true))
      × (is_faulted (start (fresh_worker f) id tick).0 ≡ false)
      × ((start (fresh_worker f) id tick).0.context.token.speak_id ≡ id)
unfolding start evaluate_start started reset new_worker new_context is_faulted
fresh_start f id tick = (refl, refl, refl)

pub clean-worker : (id : ℕ) (e : SapiEngine) → (clean_site id e).worker ≡ e.worker
unfolding clean_site
clean-worker id e = ground arith

clean-has_client : (id : ℕ) (e : SapiEngine) → (clean_site id e).has_client ≡ e.has_client
unfolding clean_site
clean-has_client id e = ground arith

-- What a `Speak` on an active session comes to, where the worker accepts.
module _ (c : Conversion) (j : Json) (e : SapiEngine) (fragments : List Fragment) (site : ℕ)
    (a : SpeakAnswers j) where
  abbrev pub request_id : ℕ
  request_id = add64 e.speak_id_counter 1

  pub speak_accepted :
      (ready : SapiEngine) (held w : SpeechWorker)
      → recover_session j (open_request e site) a.session ≡ (ready, true)
      → ready.worker ≡ some held
      → start (a.before_start held) request_id a.start_tick ≡ (w, true)
      → let run =
          run_request j w (speak_request j c ready.config.voice_id request_id fragments) a in
        let r = speak j c e (some fragments) (some site) a in
        (r.1 ≡ run.1) × (r.0.worker ≡ some run.0) × (r.0.has_client ≡ ready.has_client)
  unfolding speak speak_on open_request
  speak_accepted ready held w recovery worker accepted =
      let run = run_request j w (speak_request j c ready.config.voice_id request_id fragments) a in
      let on : speak_on j c ready ready.worker request_id fragments a
          ≡ (record ready { worker = some run.0 }, run.1) =
        rw (worker, speak_on, accepted) in
      let whole : speak j c e (some fragments) (some site) a
          ≡ (clean_site request_id (record ready { worker = some run.0 }), run.1) =
        rw (speak, recovery, on) in
      (
        ap (λ (r : SapiEngine × ℕ). r.1) whole,
        ap (λ (r : SapiEngine × ℕ). r.0.worker) whole ∙ clean-worker request_id _,
        ap (λ (r : SapiEngine × ℕ). r.0.has_client) whole ∙ clean-has_client request_id _,
      )

with_format-voice :
    (config : ProviderSessionConfig) (f : WaveFormat)
    → (with_format config f).voice_id ≡ config.voice_id
with_format-voice config f = ground arith

-- A `Speak` on an engine whose session is not active, be it that the worker is faulted or that none
-- was ever created, replaces it when the provider answers with a compatible format: a new worker
-- that is not faulted, and whose threads do nothing before it is started, accepts the request, and the message and the wait decide the result.
pub recovery_succeeds :
    (c : Conversion) (j : Json) (e : SapiEngine) (fragments : List Fragment) (site : ℕ)
    (a : SpeakAnswers j) (f : WaveFormat)
    → IsLawful j
    → IsPcm f
    → is_configured e.config ≡ true
    → is_blank e.config.executable_path ≡ false
    → is_format_compatible e.config f ≡ true
    → is_session_active e ≡ false
    → IsReady j a.session f
    → a.before_start (fresh_worker f) ≡ fresh_worker f
    → let id = add64 e.speak_id_counter 1 in
      let w = (start (fresh_worker f) id a.start_tick).0 in
      let run = run_request j w (speak_request j c e.config.voice_id id fragments) a in
      let (e', hr) = speak j c e (some fragments) (some site) a in
      (is_faulted w ≡ false)
      × (w.context.token.speak_id ≡ id)
      × (hr ≡ run.1)
      × (e'.worker ≡ some run.0)
unfolding speak open_request clean_site speak_on is_session_active
recovery_succeeds c j e fragments site a f laws p configured path k broken r still =
    let id = add64 e.speak_id_counter 1 in
    let opened = open_request e site in
    let recovery : recover_session j opened a.session ≡ (recovered opened f, true) =
      recover-ready j opened a.session f laws p configured path k broken r in
    let (accepted, sound, named) = fresh_start f id a.start_tick in
    let w = (start (fresh_worker f) id a.start_tick).0 in
    let voice = with_format-voice e.config f in
    let whole =
      speak_accepted c j e fragments site a (recovered opened f) (fresh_worker f) w recovery refl
        (ap (λ (x : SpeechWorker). start x id a.start_tick) still ∙ accepted) in
    let (hr, worker, _) = rw voice at whole in (sound, named, hr, worker)
