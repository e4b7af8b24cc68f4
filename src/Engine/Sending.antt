-- ===== src/Engine/Sending.antt =====
-- What `Speak` makes of a message that cannot be sent.
use modern_sapi_adapter.Base.{ℕ, ◌≡◌, ap, ◌∙◌, true, false, some, List, nat_eq, add64, arith}
use modern_sapi_adapter.Windows.{failed}
use modern_sapi_adapter.Json.{Json}
use modern_sapi_adapter.Strings.{Conversion}
use modern_sapi_adapter.Fragments.{Fragment}
use modern_sapi_adapter.Request.{upstream_eq, downstream_eq}
use modern_sapi_adapter.Worker.State.{
  SpeechWorker, start, is_faulted, transition_request_to_faulted,
}
use modern_sapi_adapter.Worker.Fault.{
  enter_faulted_state, begin_fault, reveal_fault, clear_fault_pending, cancel_pipes,
}
use modern_sapi_adapter.Engine.{SapiEngine}
use modern_sapi_adapter.Engine.Session.{is_session_active}
use modern_sapi_adapter.Engine.Speak.{
  SpeakAnswers, open_request, recover_session, finish_request, run_request, speak_request, speak,
}
use modern_sapi_adapter.Engine.Recovery.{speak_accepted}

quarantined : (w : SpeechWorker) → is_faulted (enter_faulted_state w) ≡ true
unfolding enter_faulted_state begin_fault reveal_fault clear_fault_pending cancel_pipes is_faulted
    transition_request_to_faulted
quarantined w = ground arith

inactive :
    (e : SapiEngine) (w : SpeechWorker)
    → e.worker ≡ some w
    → is_faulted w ≡ true
    → is_session_active e ≡ false
unfolding is_session_active
inactive e w held faulted = ground (arith, held, faulted)

pub recover_kept :
    (j : Json) (e : SapiEngine) (site : ℕ) (a : SpeakAnswers j)
    → is_session_active e ≡ true
    → recover_session j (open_request e site) a.session ≡ (open_request e site, true)
unfolding recover_session open_request is_session_active
recover_kept j e site a active = rw (recover_session, active)

module _ (c : Conversion) (j : Json) (e : SapiEngine) (fragments : List Fragment) (site : ℕ)
    (a : SpeakAnswers j) (held w : SpeechWorker) where
  abbrev id : ℕ
  id = add64 e.speak_id_counter 1

  abbrev message : j.Value
  message = speak_request j c e.config.voice_id id fragments

  -- When a `Speak` has an active session, be it the one that it found or one that it has just made
  -- anew, the worker accepts the request and the message cannot be sent, it returns the failure and
  -- leaves that worker quarantined, as it is once other threads have run during the sending, so that
  -- the session is no longer active.
  pub failed_send_quarantines :
      (ready : SapiEngine) (send_hr : ℕ)
      → recover_session j (open_request e site) a.session ≡ (ready, true)
      → ready.worker ≡ some held
      → start (a.before_start held) id a.start_tick ≡ (w, true)
      → a.send_hr (speak_request j c ready.config.voice_id id fragments) ≡ some send_hr
      → failed send_hr ≡ true
      → let (e', hr) = speak j c e (some fragments) (some site) a in
        (hr ≡ send_hr)
        × (e'.worker ≡ some (enter_faulted_state (a.during_send w)))
        × (is_session_active e' ≡ false)
  unfolding run_request finish_request is_session_active open_request
  failed_send_quarantines ready send_hr recovery worker accepted sent failing =
      let (hr, after, _) =
        speak_accepted c j e fragments site a ready held w recovery worker accepted in
      let message_of = speak_request j c ready.config.voice_id id fragments in
      let run : run_request j w message_of a ≡ (enter_faulted_state (a.during_send w), send_hr) =
        rw (run_request, sent, finish_request, failing) in
      let worker' = after ∙ ap (λ (r : SpeechWorker × ℕ). some r.0) run in
      (
        hr ∙ ap (λ (r : SpeechWorker × ℕ). r.1) run,
        worker',
        inactive (speak j c e (some fragments) (some site) a).0
            (enter_faulted_state (a.during_send w)) worker' (quarantined (a.during_send w)),
      )
