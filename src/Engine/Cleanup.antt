-- ===== src/Engine/Cleanup.antt =====
-- What `Speak` leaves on every path.
use modern_sapi_adapter.Base.{
  ℕ, ◌≡◌, refl, Bool, false, Option, none, some, List, nat_eq, add64, arith, if_keeps, ◌∙◌,
}
use modern_sapi_adapter.Windows.{failed}
use modern_sapi_adapter.Json.{Json}
use modern_sapi_adapter.Event.{ProviderControlEvent}
use modern_sapi_adapter.AudioFormat.{WaveFormat}
use modern_sapi_adapter.Strings.{Conversion}
use modern_sapi_adapter.Fragments.{Fragment}
use modern_sapi_adapter.Worker.State.{SpeechWorker, start}
use modern_sapi_adapter.Engine.{SapiEngine}
use modern_sapi_adapter.Engine.Session.{
  SessionAnswers, is_session_active, retire_faulted_session, candidate, publish,
  create_provider_session,
}
use modern_sapi_adapter.Engine.Speak.{
  SpeakAnswers, open_request, clean_site, recover_session, speak_on, speak,
}
use modern_sapi_adapter.Engine.Callbacks.{
  BookmarkText, copy_site, write_audio, on_audio_data, copy_event_site, add_event, on_speech_event,
}

-- The request that an engine has on hand.
record SameRequest (e e' : SapiEngine) : Type 0 where
  active : e'.active_speak_id ≡ e.active_speak_id
  counter : e'.speak_id_counter ≡ e.speak_id_counter

same : (e : SapiEngine) → SameRequest e e
same e = record { active = refl; counter = refl }

publish-Same :
    (e : SapiEngine) (o : Option (SpeechWorker × WaveFormat)) → SameRequest e (publish e o).0
unfolding publish
publish-Same e none = same e
publish-Same e (some (w, f)) = record { active = refl; counter = refl }

create-Same :
    (j : Json) (e : SapiEngine) (a : SessionAnswers j)
    → SameRequest e (create_provider_session j e a).0
unfolding create_provider_session
create-Same j e a =
    if_keeps (λ (r : SapiEngine × ℕ). SameRequest e r.0) _ (same e)
      (publish-Same e (candidate j e.config a))

retired-Same : (e e' : SapiEngine) → SameRequest (retire_faulted_session e) e' → SameRequest e e'
unfolding retire_faulted_session
retired-Same e e' s = record { active = s.active; counter = s.counter }

recover-Same :
    (j : Json) (e : SapiEngine) (a : SessionAnswers j) → SameRequest e (recover_session j e a).0
unfolding recover_session
recover-Same j e a =
    let keep = λ (r : SapiEngine × Bool). SameRequest e r.0 in
    let made = retired-Same e _ (create-Same j (retire_faulted_session e) a) in
    if_keeps keep (is_session_active e) (same e)
      (if_keeps keep (failed (create_provider_session j (retire_faulted_session e) a).1) made made)

speak_on-Same :
    (c : Conversion) (j : Json) (e : SapiEngine) (o : Option SpeechWorker) (id : ℕ)
    (fragments : List Fragment) (a : SpeakAnswers j)
    → SameRequest e (speak_on j c e o id fragments a).0
unfolding speak_on
speak_on-Same c j e none id fragments a = same e
speak_on-Same c j e (some w) id fragments a =
    if_keeps (λ (x : SapiEngine × ℕ). SameRequest e x.0)
      (start (a.before_start w) id a.start_tick).1 (record { active = refl; counter = refl })
      (record { active = refl; counter = refl })

-- An engine that has no request on hand, and that gave out one identifier since.
pub record IsClear (e e' : SapiEngine) : Type 0 where
  pub no_site : e'.site ≡ none
  pub no_request : e'.active_speak_id ≡ 0
  pub counted : e'.speak_id_counter ≡ add64 e.speak_id_counter 1

clean-IsClear :
    (e : SapiEngine) (site : ℕ) (e' : SapiEngine)
    → SameRequest (open_request e site) e'
    → IsClear e (clean_site (open_request e site).speak_id_counter e')
unfolding clean_site open_request
clean-IsClear e site e' s = ground (arith, s.active, s.counter)

trans-Same : {e f g : SapiEngine} → SameRequest e f → SameRequest f g → SameRequest e g
trans-Same a b = record { active = b.active ∙ a.active; counter = b.counter ∙ a.counter }

speak-IsClear :
    (c : Conversion) (j : Json) (e : SapiEngine) (fragments : List Fragment) (site : ℕ)
    (a : SpeakAnswers j)
    → IsClear e (speak j c e (some fragments) (some site) a).0
unfolding speak
speak-IsClear c j e fragments site a =
    let opened = open_request e site in
    let (ready, active) = recover_session j opened a.session in
    let recovered : SameRequest opened ready = recover-Same j opened a.session in
    let spoken = speak_on-Same c j ready ready.worker opened.speak_id_counter fragments a in
    if_keeps (λ (x : SapiEngine × ℕ). IsClear e x.0) active
      (clean-IsClear e site _ (trans-Same recovered spoken)) (clean-IsClear e site _ recovered)

-- However a `Speak` with a site and fragments ends, with an error or an exception included, it
-- leaves neither site nor active request and has used one new identifier. A callback that takes the
-- engine's lock from then until the next one copies no site: audio is refused without a `Write`, and
-- no event is passed on. A callback that has copied the site before is not covered, and may still
-- write to it.
pub speak_cleans :
    (c : Conversion) (j : Json) (e : SapiEngine) (fragments : List Fragment) (site : ℕ)
    (a : SpeakAnswers j)
    → let e' = (speak j c e (some fragments) (some site) a).0 in
      IsClear e e'
      × (copy_site e' ≡ none)
      × ((event : ProviderControlEvent) → copy_event_site e' event ≡ none)
      × ((write : ℕ → List ℕ → ℕ × ℕ) (bytes : List ℕ) → on_audio_data e' write bytes ≡ false)
      × ((b : BookmarkText) (event : ProviderControlEvent) → on_speech_event b e' event ≡ none)
unfolding on_audio_data on_speech_event copy_site copy_event_site write_audio add_event
speak_cleans c j e fragments site a =
    let k = speak-IsClear c j e fragments site a in
    (
      k,
      k.no_site,
      λ event. ground (arith, k.no_site, k.no_request),
      λ write bytes. ground (arith, k.no_site),
      λ b event. ground (arith, k.no_site, k.no_request),
    )
