-- ===== src/Engine/Invariant.antt =====
-- What holds of an engine between two calls, whatever providers, sites and threads do.
use modern_sapi_adapter.Base.{
  ℕ, ◌≡◌, refl, sym, ap, subst, ◌∙◌, true, ◌||◌, Option, none, some, nat_eq, inl, inr, Bool-cases,
  Option-cases, arith, if_keeps, ok, threw,
}
use modern_sapi_adapter.Windows.{failed}
use modern_sapi_adapter.Json.{Json}
use modern_sapi_adapter.AudioFormat.{WaveFormat}
use modern_sapi_adapter.AudioFormat.Parsed.{IsPcm, try_parse-IsPcm}
use modern_sapi_adapter.Pcm.Assembler.{PcmFrameAssembler, new_assembler}
use modern_sapi_adapter.Pcm.Frames.{IsValid}
use modern_sapi_adapter.Worker.State.{SpeechWorker, new_worker}
use modern_sapi_adapter.Worker.Steps.{here}
use modern_sapi_adapter.Worker.Invariant.{Inv}
use modern_sapi_adapter.Worker.Invariant.Sections.{reachable-Inv}
use modern_sapi_adapter.Worker.Alignment.{align}
use modern_sapi_adapter.Engine.{SapiEngine, ProviderSessionConfig, new_engine, is_format_compatible}
use modern_sapi_adapter.Engine.Session.{
  SessionAnswers, TokenAnswers, configure, has_worker, retire_faulted_session, candidate,
  response_format, with_format, publish, create_provider_session, load_provider_from_token,
  set_object_token,
}

-- A worker of a session with a format.
pub record Serves (config : ProviderSessionConfig) (w : SpeechWorker) : Type 0 where
  pub keeps : Inv w
  pub negotiated : config.has_output_format ≡ true
  pub aligned : align w ≡ config.audio_format.block_align

abbrev pub WorkerSound : ProviderSessionConfig → Option SpeechWorker → Type 0
WorkerSound config none = Unit {0}
WorkerSound config (some w) = Serves config w

pub record IsSound (e : SapiEngine) : Type 0 where
  pub paired : e.has_client ≡ has_worker e
  pub pcm : e.config.has_output_format ≡ true → IsPcm e.config.audio_format
  pub served : WorkerSound e.config e.worker

pub new_engine-IsSound : IsSound new_engine
unfolding new_engine
new_engine-IsSound = record { paired = refl; pcm = λ h. cc; served = tt }

pub retire-IsSound : (e : SapiEngine) → IsSound e → IsSound (retire_faulted_session e)
unfolding retire_faulted_session
retire-IsSound e s = record { paired = refl; pcm = s.pcm; served = tt }

-- The worker of a session that is created, and its format.
new_assembler-IsValid :
    (n : ℕ) (a : PcmFrameAssembler) → new_assembler n ≡ ok a → IsValid a × (a.block_align ≡ n)
unfolding new_assembler
new_assembler-IsValid n a e = ground arith

record IsCandidate (config : ProviderSessionConfig) (w : SpeechWorker) (f : WaveFormat)
    : Type 0 where
  assembler : PcmFrameAssembler
  built : w ≡ new_worker assembler
  valid : IsValid assembler
  sized : assembler.block_align ≡ f.block_align
  pcm : IsPcm f
  compatible : is_format_compatible config f ≡ true

response_format-IsPcm :
    (j : Json) (v : j.Value) (f : WaveFormat) → response_format j v ≡ some f → IsPcm f
unfolding response_format
response_format-IsPcm j v f e = elim (Option-cases (j.member v "audio_format")) [
  | inl lost ↦ ground arith
  | inr (x, found) ↦ try_parse-IsPcm j x f (ground arith)
]

candidate-IsCandidate :
    (j : Json) (config : ProviderSessionConfig) (a : SessionAnswers j) (w : SpeechWorker)
    (f : WaveFormat)
    → candidate j config a ≡ some (w, f)
    → IsCandidate config w f
unfolding candidate
candidate-IsCandidate j config a w f e = elim (Option-cases (response_format j a.response)) [
  | inl lost ↦ ground arith
  | inr (g, read) ↦
      elim (new_assembler g.block_align)
          as (λ r. new_assembler g.block_align ≡ r → IsCandidate config w f) [
            | threw x ↦ λ m. ground arith
            | ok asm ↦ λ m.
                let same : g ≡ f = ground arith in
                let (v, n) = new_assembler-IsValid g.block_align asm m in
                record {
                  assembler = asm;
                  built = ground arith;
                  valid = v;
                  sized = n ∙ ap (λ (h : WaveFormat). h.block_align) same;
                  pcm = subst IsPcm same (response_format-IsPcm j a.response g read);
                  compatible = ground arith;
                }
          ]
        refl
]

-- The first format, once negotiated, stays.
abbrev pub KeepsFormat : ProviderSessionConfig → ProviderSessionConfig → Type 0
KeepsFormat c c' =
    c.has_output_format ≡ true → (c'.has_output_format ≡ true) × (c'.audio_format ≡ c.audio_format)

with_format-KeepsFormat :
    (c : ProviderSessionConfig) (f : WaveFormat) → KeepsFormat c (with_format c f)
with_format-KeepsFormat c f h = ground arith

with_format-IsPcm :
    (c : ProviderSessionConfig) (f : WaveFormat)
    → (c.has_output_format ≡ true → IsPcm c.audio_format)
    → IsPcm f
    → IsPcm (with_format c f).audio_format
with_format-IsPcm c f old new = elim (Bool-cases c.has_output_format) [
  | inl e ↦ rw e (old e)
  | inr e ↦ rw e new
]

with_format-agrees :
    (c : ProviderSessionConfig) (f : WaveFormat)
    → is_format_compatible c f ≡ true
    → ((with_format c f).has_output_format ≡ true)
      × ((with_format c f).audio_format.block_align ≡ f.block_align)
unfolding is_format_compatible
with_format-agrees c f h = (ground arith, ground arith)

candidate-Serves :
    (c : ProviderSessionConfig) (w : SpeechWorker) (f : WaveFormat)
    → IsCandidate c w f
    → Serves (with_format c f) w
unfolding new_worker
candidate-Serves c w f k =
    let (negotiated, agrees) = with_format-agrees c f k.compatible in
    record {
      keeps = rw k.built (reachable-Inv k.assembler k.valid here);
      negotiated = negotiated;
      aligned = rw k.built (k.sized ∙ sym agrees);
    }

-- What an operation on the session leaves.
pub record Good (e e' : SapiEngine) : Type 0 where
  pub sound : IsSound e'
  pub format : KeepsFormat e.config e'.config

pub unchanged-Good : (e : SapiEngine) → IsSound e → Good e e
unchanged-Good e s = record { sound = s; format = λ h. (h, refl) }

publish-Good :
    (e : SapiEngine) (o : Option (SpeechWorker × WaveFormat))
    → IsSound e
    → ((w : SpeechWorker) (f : WaveFormat) → o ≡ some (w, f) → IsCandidate e.config w f)
    → Good e (publish e o).0
unfolding publish
publish-Good e none s k = unchanged-Good e s
publish-Good e (some (w, f)) s k =
    let c = k w f refl in
    record {
      sound = record {
        paired = refl;
        pcm = λ h. with_format-IsPcm e.config f s.pcm c.pcm;
        served = candidate-Serves e.config w f c;
      };
      format = with_format-KeepsFormat e.config f;
    }

pub create-Good :
    (j : Json) (e : SapiEngine) (a : SessionAnswers j)
    → IsSound e
    → Good e (create_provider_session j e a).0
unfolding create_provider_session
create-Good j e a s =
    if_keeps (λ (r : SapiEngine × ℕ). Good e r.0) _ (unchanged-Good e s)
      (publish-Good e (candidate j e.config a) s (candidate-IsCandidate j e.config a))

-- A configuration with other paths.
with_config-Good :
    (e : SapiEngine) (c : ProviderSessionConfig)
    → c.has_output_format ≡ e.config.has_output_format
    → c.audio_format ≡ e.config.audio_format
    → IsSound e
    → Good e (record e { config = c })
with_config-Good e c h f s = record {
  sound = record {
    paired = s.paired;
    pcm = λ k. rw f (s.pcm (sym h ∙ k));
    served = serves e.worker s.served;
  };
  format = λ k. (h ∙ k, f);
}
  where
    serves : (o : Option SpeechWorker) → WorkerSound e.config o → WorkerSound c o
    serves none v = tt
    serves (some w) v = record {
      keeps = v.keeps;
      negotiated = h ∙ v.negotiated;
      aligned = v.aligned ∙ ap (λ (g : WaveFormat). g.block_align) (sym f);
    }

pub trans-Good : {e f g : SapiEngine} → Good e f → Good f g → Good e g
trans-Good a b = record {
  sound = b.sound;
  format = λ h. let (p, q) = a.format h in let (r, s) = b.format p in (r, s ∙ q);
}

load-Good :
    (j : Json) (e : SapiEngine) (t : TokenAnswers) (a : SessionAnswers j)
    → IsSound e
    → Good e (load_provider_from_token j e t a).0
unfolding load_provider_from_token
load-Good j e t a s =
    let keep = λ (r : SapiEngine × ℕ). Good e r.0 in
    let same = unchanged-Good e s in
    let configured = with_config-Good e (configure e.config t) refl refl s in
    if_keeps keep (failed t.executable_hr) same (
      if_keeps keep (failed t.pipe_hr) same (
        if_keeps keep (e.has_client || has_worker e) same
          (trans-Good configured (create-Good j _ a configured.sound))))

pub set_token-Good :
    (j : Json) (e : SapiEngine) (token : Option ℕ) (t : TokenAnswers) (a : SessionAnswers j)
    → IsSound e
    → Good e (set_object_token j e token t a).0
unfolding set_object_token
set_token-Good j e none t a s = unchanged-Good e s
set_token-Good j e (some token) t a s =
    let tokened : SapiEngine = record e { token = some token } in
    let same : Good e tokened = record {
      sound = record { paired = s.paired; pcm = s.pcm; served = s.served };
      format = λ h. (h, refl);
    } in
    trans-Good same (load-Good j tokened t a same.sound)
