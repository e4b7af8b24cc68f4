-- ===== src/Engine/Speak.antt =====
-- `CSapiEngine::Speak`. It holds `m_speakMutex`, so no two run at a time; what the worker's threads
-- do while it waits is an argument.
use modern_sapi_adapter.Base.{
  ℕ, Bool, true, false, ◌||◌, Option, none, some, List, [], ◌∷◌, ◌++◌, ◌==◌, nat_eq, if◌then◌else◌,
  add64,
}
use modern_sapi_adapter.Windows.{e_fail, e_invalidarg, failed}
use modern_sapi_adapter.Event.{string_eq}
use modern_sapi_adapter.Json.{Json}
use modern_sapi_adapter.Strings.{Conversion, wide_to_utf8}
use modern_sapi_adapter.Fragments.{Fragment, serialize}
use modern_sapi_adapter.Worker.State.{SpeechWorker, start}
use modern_sapi_adapter.Worker.Fault.{enter_faulted_state}
use modern_sapi_adapter.Engine.{SapiEngine, is_blank}
use modern_sapi_adapter.Engine.Session.{
  SessionAnswers, is_session_active, retire_faulted_session, create_provider_session,
}

-- The site and the identifier of the new request.
unfoldable pub open_request : SapiEngine → ℕ → SapiEngine
open_request e site =
    let speak_id = add64 e.speak_id_counter 1 in
    record e { speak_id_counter = speak_id; site = some site; active_speak_id = speak_id }

-- `siteCleanup`.
unfoldable pub clean_site : ℕ → SapiEngine → SapiEngine
clean_site speak_id e =
    if e.active_speak_id == speak_id then record e { site = none; active_speak_id = 0 } else e

module _ (j : Json) where
  -- The session under `m_sessionMutex`: whether there is an active one at the end.
  unfoldable pub recover_session : SapiEngine → SessionAnswers j → SapiEngine × Bool
  recover_session e a =
      let (created, hr) = create_provider_session j (retire_faulted_session e) a in
      if is_session_active e
      then (e, true)
      else if failed hr
      then (created, false)
      else (created, true)

  -- The message that the provider is sent.
  unfoldable pub speak_request : Conversion → List ℕ → ℕ → List Fragment → j.Value
  speak_request c voice_id speak_id fragments =
      let utf8 = wide_to_utf8 c (some voice_id) in
      j.of_object (
        ("command", j.of_string "sapi_speak")
          ∷ ("speak_id", j.of_unsigned speak_id)
          ∷ (if is_blank voice_id || utf8 == "" then [] else ("voice_id", j.of_string utf8) ∷ [])
        ++ (("fragments", serialize c j fragments) ∷ []))

  -- What `Speak` meets: the calls of a new session, what the worker's threads do before `Start`, its
  -- tick, the answer to a request, what the worker's threads do until the message is sent, what they do until `WaitUntilFinished`
  -- returns and what that returns, and what `to_hresult` makes of an exception. A call that throws answers `none`.
  pub record SpeakAnswers : Type 0 where
    pub session : SessionAnswers j
    pub before_start : SpeechWorker → SpeechWorker
    pub start_tick : ℕ
    pub send_hr : j.Value → Option ℕ
    pub during_send : SpeechWorker → SpeechWorker
    pub finish : SpeechWorker → SpeechWorker × Option ℕ
    pub thrown_hr : ℕ

  abbrev returned : Option ℕ → ℕ → ℕ
  returned none thrown = thrown
  returned (some hr) thrown = hr

  -- From the answer to the message on.
  unfoldable pub finish_request : SpeechWorker → Option ℕ → SpeakAnswers → SpeechWorker × ℕ
  finish_request w none a = (w, a.thrown_hr)
  finish_request w (some send_hr) a =
      let (finished, hr) = a.finish w in
      if failed send_hr
      then (enter_faulted_state w, send_hr)
      else (finished, returned hr a.thrown_hr)

  -- From the accepted start on.
  unfoldable pub run_request : SpeechWorker → j.Value → SpeakAnswers → SpeechWorker × ℕ
  run_request w request a = finish_request (a.during_send w) (a.send_hr request) a

  -- The request on an active session, whose worker is given.
  unfoldable pub speak_on :
      Conversion
      → SapiEngine
      → Option SpeechWorker
      → ℕ
      → List Fragment
      → SpeakAnswers
      → SapiEngine × ℕ
  speak_on c e none speak_id fragments a = (e, e_fail)
  speak_on c e (some w) speak_id fragments a =
      let v = a.before_start w in
      let (started_worker, accepted) = start v speak_id a.start_tick in
      let request = speak_request c e.config.voice_id speak_id fragments in
      let (w', hr) = run_request started_worker request a in
      if accepted
      then (record e { worker = some w' }, hr)
      else (record e { worker = some v }, e_fail)

  unfoldable pub speak :
      Conversion → SapiEngine → Option (List Fragment) → Option ℕ → SpeakAnswers → SapiEngine × ℕ
  speak c e (some fragments) (some site) a =
      let opened = open_request e site in
      let speak_id = opened.speak_id_counter in
      let (ready, active) = recover_session opened a.session in
      let (after, hr) = speak_on c ready ready.worker speak_id fragments a in
      if active then (clean_site speak_id after, hr) else (clean_site speak_id ready, e_fail)
  speak c e fragments site a = (e, e_invalidarg)
