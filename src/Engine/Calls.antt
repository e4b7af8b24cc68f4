-- ===== src/Engine/Calls.antt =====
-- Every sequence of calls of an engine.
use modern_sapi_adapter.Base.{
  ℕ, ◌≡◌, refl, subst, ◌∙◌, Bool, true, Option, none, some, List, ◌==◌, nat_eq, arith, if_keeps,
}
use modern_sapi_adapter.Windows.{failed}
use modern_sapi_adapter.Json.{Json}
use modern_sapi_adapter.Strings.{Conversion}
use modern_sapi_adapter.Fragments.{Fragment}
use modern_sapi_adapter.Worker.State.{SpeechWorker, start}
use modern_sapi_adapter.Worker.Steps.{Reach, here, next, starts}
use modern_sapi_adapter.Worker.Alignment.{align-Reach, enter_faulted-Reach, append-Reach}
use modern_sapi_adapter.Engine.{SapiEngine, new_engine}
use modern_sapi_adapter.Engine.Session.{
  SessionAnswers, TokenAnswers, is_session_active, retire_faulted_session, create_provider_session,
  set_object_token,
}
use modern_sapi_adapter.Engine.Speak.{
  SpeakAnswers, open_request, clean_site, finish_request, recover_session, speak_request,
  run_request, speak_on, speak,
}
use modern_sapi_adapter.Engine.Invariant.{
  Serves, WorkerSound, IsSound, Good, new_engine-IsSound, retire-IsSound, unchanged-Good,
  create-Good, trans-Good, set_token-Good,
}

-- The worker's threads run its critical sections, in any order, while the engine waits.
pub record RunsThreads (j : Json) (a : SpeakAnswers j) : Type 0 where
  pub before_starting : (w : SpeechWorker) → Reach w (a.before_start w)
  pub while_sending : (w : SpeechWorker) → Reach w (a.during_send w)
  pub while_waiting : (w : SpeechWorker) → Reach w (a.finish w).0

finish_request-Reach :
    (j : Json) (w : SpeechWorker) (sent : Option ℕ) (a : SpeakAnswers j)
    → RunsThreads j a
    → Reach w (finish_request j w sent a).0
unfolding finish_request
finish_request-Reach j w none a r = here
finish_request-Reach j w (some hr) a r =
    if_keeps (λ (x : SpeechWorker × ℕ). Reach w x.0) (failed hr) (enter_faulted-Reach w)
      (r.while_waiting w)

run_request-Reach :
    (j : Json) (w : SpeechWorker) (request : j.Value) (a : SpeakAnswers j)
    → RunsThreads j a
    → Reach w (run_request j w request a).0
unfolding run_request
run_request-Reach j w request a r =
    append-Reach (r.while_sending w)
      (finish_request-Reach j (a.during_send w) (a.send_hr request) a r)

-- A worker that went on.
with_worker-Good :
    (e : SapiEngine) (w w' : SpeechWorker)
    → e.worker ≡ some w
    → Reach w w'
    → IsSound e
    → Good e (record e { worker = some w' })
with_worker-Good e w w' held r s =
    let v : Serves e.config w = subst (WorkerSound e.config) held s.served in
    let (keeps, same) = align-Reach r v.keeps in
    record {
      sound = record {
        paired = ground (arith, s.paired);
        pcm = s.pcm;
        served = record { keeps = keeps; negotiated = v.negotiated; aligned = same ∙ v.aligned };
      };
      format = λ h. (h, refl);
    }

speak_on-Good :
    (c : Conversion) (j : Json) (e : SapiEngine) (o : Option SpeechWorker) (id : ℕ)
    (fragments : List Fragment) (a : SpeakAnswers j)
    → e.worker ≡ o
    → RunsThreads j a
    → IsSound e
    → Good e (speak_on j c e o id fragments a).0
unfolding speak_on
speak_on-Good c j e none id fragments a held r s = unchanged-Good e s
speak_on-Good c j e (some w) id fragments a held r s =
    let v = a.before_start w in
    let before : Reach w v = r.before_starting w in
    let started = (start v id a.start_tick).0 in
    let run : Reach w started = next before (starts id a.start_tick refl) in
    let ran = run_request-Reach j started (speak_request j c e.config.voice_id id fragments) a r in
    if_keeps (λ (x : SapiEngine × ℕ). Good e x.0) (start v id a.start_tick).1
      (with_worker-Good e w _ held (append-Reach run ran) s) (with_worker-Good e w v held before s)

pub open-Good : (e : SapiEngine) (site : ℕ) → IsSound e → Good e (open_request e site)
unfolding open_request
open-Good e site s = record {
  sound = record { paired = s.paired; pcm = s.pcm; served = s.served };
  format = λ h. (h, refl);
}

clean-Good : (id : ℕ) (e : SapiEngine) → IsSound e → Good e (clean_site id e)
unfolding clean_site
clean-Good id e s =
    if_keeps (Good e) (e.active_speak_id == id)
      (record {
        sound = record { paired = s.paired; pcm = s.pcm; served = s.served };
        format = λ h. (h, refl);
      })
      (unchanged-Good e s)

retire-Good : (e : SapiEngine) → IsSound e → Good e (retire_faulted_session e)
unfolding retire_faulted_session
retire-Good e s = record { sound = retire-IsSound e s; format = λ h. (h, refl) }

pub recover-Good :
    (j : Json) (e : SapiEngine) (a : SessionAnswers j)
    → IsSound e
    → Good e (recover_session j e a).0
unfolding recover_session
recover-Good j e a s =
    let keep = λ (r : SapiEngine × Bool). Good e r.0 in
    let retired = retire-Good e s in
    let created = trans-Good retired (create-Good j _ a retired.sound) in
    if_keeps keep (is_session_active e) (unchanged-Good e s) (
      if_keeps keep (failed (create_provider_session j (retire_faulted_session e) a).1) created
        created)

speak-Good :
    (c : Conversion) (j : Json) (e : SapiEngine) (fragments : Option (List Fragment))
    (site : Option ℕ) (a : SpeakAnswers j)
    → RunsThreads j a
    → IsSound e
    → Good e (speak j c e fragments site a).0
unfolding speak
speak-Good c j e (some fragments) (some site) a r s =
    let opened = open-Good e site s in
    let ready = trans-Good opened (recover-Good j _ a.session opened.sound) in
    let id = (open_request e site).speak_id_counter in
    let spoken = trans-Good ready (speak_on-Good c j _ _ id fragments a refl r ready.sound) in
    if_keeps (λ (x : SapiEngine × ℕ). Good e x.0)
      (recover_session j (open_request e site) a.session).1
      (trans-Good spoken (clean-Good id _ spoken.sound))
      (trans-Good ready (clean-Good id _ ready.sound))
speak-Good c j e (some fragments) none a r s = unchanged-Good e s
speak-Good c j e none (some site) a r s = unchanged-Good e s
speak-Good c j e none none a r s = unchanged-Good e s

module _ (c : Conversion) (j : Json) where
  -- One call of the engine with whatever it meets, or what the worker's threads do between calls.
  pub data Call (e e' : SapiEngine) : Type 0 where
    sets_token :
        (token : Option ℕ) (t : TokenAnswers) (a : SessionAnswers j)
        → e' ≡ (set_object_token j e token t a).0
        → Call e e'
    speaks :
        (fragments : Option (List Fragment)) (site : Option ℕ) (a : SpeakAnswers j)
        → RunsThreads j a
        → e' ≡ (speak j c e fragments site a).0
        → Call e e'
    works :
        (w w' : SpeechWorker)
        → e.worker ≡ some w
        → Reach w w'
        → e' ≡ record e { worker = some w' }
        → Call e e'

  pub data Calls (e : SapiEngine) : SapiEngine → Type 0 where
    none_yet : Calls e e
    then_call : {f g : SapiEngine} → Calls e f → Call f g → Calls e g

  Call-Good : {e e' : SapiEngine} → Call e e' → IsSound e → Good e e'
  Call-Good {e} (sets_token token t a q) s = rw q (set_token-Good j e token t a s)
  Call-Good {e} (speaks fragments site a r q) s = rw q (speak-Good c j e fragments site a r s)
  Call-Good {e} (works w w' held r q) s = rw q (with_worker-Good e w w' held r s)

  pub Calls-Good : {e e' : SapiEngine} → Calls e e' → IsSound e → Good e e'
  Calls-Good {e} none_yet s = unchanged-Good e s
  Calls-Good (then_call cs call) s =
      let before = Calls-Good cs s in trans-Good before (Call-Good call before.sound)

  -- In every engine that calls lead to, there is a client exactly when there is a worker; the worker
  -- keeps its own invariant and assembles frames of the size of the negotiated format; and that
  -- format is a PCM format whose numbers fit and agree.
  pub Calls-IsSound : {e : SapiEngine} → Calls new_engine e → IsSound e
  Calls-IsSound cs = (Calls-Good cs new_engine-IsSound).sound

  -- Once a format has been negotiated, no call changes it: neither a recovery, nor another token.
  pub format_kept :
      {e e' : SapiEngine}
      → Calls new_engine e
      → Calls e e'
      → e.config.has_output_format ≡ true
      → (e'.config.has_output_format ≡ true) × (e'.config.audio_format ≡ e.config.audio_format)
  format_kept before later h = (Calls-Good later (Calls-IsSound before)).format h
