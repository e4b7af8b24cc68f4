-- ===== src/Engine/Events.antt =====
-- Which events reach the site, and as what.
use Prim.Native.String.{String}
use modern_sapi_adapter.Base.{
  ℕ, ◌≡◌, ◌≢◌, ◌↔◌, ◌⊎◌, refl, sym, subst, inl, inr, true, false, none, some, List, ◌==◌, nat_eq,
  if◌then◌else◌, arith, Option-cases, Bool-cases,
}
use modern_sapi_adapter.Json.{Json}
use modern_sapi_adapter.Json.Laws.{IsLawful}
use modern_sapi_adapter.Event.{
  ProviderEventType, ProviderControlEvent, event_type_eq, string_eq, is_speech_boundary,
}
use modern_sapi_adapter.Protocol.{parse_control_event}
use modern_sapi_adapter.Protocol.Ranges.{parse_control_event-FitsTypes}
use modern_sapi_adapter.AudioFormat.{audio_offset_to_bytes}
use modern_sapi_adapter.AudioFormat.Offsets.{FrameAt, audio_offset-FrameAt}
use modern_sapi_adapter.Strings.{Conversion, utf8_to_co_task_mem}
use modern_sapi_adapter.Engine.{SapiEngine, new_engine}
use modern_sapi_adapter.Engine.Session.{SessionAnswers}
use modern_sapi_adapter.Engine.Speak.{open_request, recover_session}
use modern_sapi_adapter.Engine.Callbacks.{
  EventId, spei_word_boundary, spei_sentence_boundary, spei_tts_bookmark, number, text, SpEvent,
  BookmarkText, boundary_event, bookmark_event, dispatch_boundary_event, dispatch_bookmark_event,
  dispatch, on_speech_event, copy_event_site, add_event,
}
use modern_sapi_adapter.Engine.Calls.{Calls, Calls-IsSound, open-Good, recover-Good}

abbrev type_of_id : EventId → ProviderEventType
type_of_id spei_word_boundary = ProviderEventType.word_boundary
type_of_id spei_sentence_boundary = ProviderEventType.sentence_boundary
type_of_id spei_tts_bookmark = ProviderEventType.bookmark

-- The parameters of a bookmark: its name and the number that it starts with, where it has a name
-- that can be converted.
abbrev Named : BookmarkText → String → SpEvent → Type 0
Named b name sp =
    (((name ≡ "") ⊎ (utf8_to_co_task_mem b.conversion b.alloc name ≡ none))
      × (sp.w_param ≡ 0)
      × (sp.l_param ≡ number 0))
    ⊎ ((units : List ℕ) × (name ≢ "")
        × (utf8_to_co_task_mem b.conversion b.alloc name ≡ some units)
        × (sp.w_param ≡ b.wtol units)
        × (sp.l_param ≡ text units))

abbrev Params : BookmarkText → ProviderControlEvent → SpEvent → EventId → Type 0
Params b event sp spei_tts_bookmark = Named b event.bookmark_name sp
Params b event sp _ =
    (sp.w_param ≡ event.speech_offsets.text_length)
    × (sp.l_param ≡ number event.speech_offsets.text_offset)

-- `sp` is what the event is for SAPI.
pub record Translates (b : BookmarkText) (e : SapiEngine) (event : ProviderControlEvent)
    (sp : SpEvent) : Type 0 where
  pub valid : event.has_valid_speech_offsets ≡ true
  pub kind : event.type ≡ type_of_id sp.event_id
  pub place :
      sp.audio_stream_offset
      ≡ audio_offset_to_bytes event.speech_offsets.audio_offset_ms e.config.audio_format
  pub params : Params b event sp sp.event_id

-- The event names the request on hand, which has a site.
pub record IsForSite (e : SapiEngine) (event : ProviderControlEvent) (site : ℕ) : Type 0 where
  pub named : event.speak_id ≢ 0
  pub current : event.speak_id ≡ e.active_speak_id
  pub heard : e.site ≡ some site

module _ (b : BookmarkText) (e : SapiEngine) (event : ProviderControlEvent) (sp : SpEvent) where
  boundary-Translates :
      (id : EventId)
      → event.type ≡ type_of_id id
      → id ≢ spei_tts_bookmark
      → dispatch_boundary_event e event id ≡ some sp
      → Translates b e event sp
  unfolding dispatch_boundary_event
  boundary-Translates id t n d =
      let v : event.has_valid_speech_offsets ≡ true = ground arith in
      let made : boundary_event e event id ≡ sp = ground arith in
      subst (Translates b e event) made
        (record { valid = v; kind = t; place = refl; params = plain id n })
    where
      plain : (i : EventId) → i ≢ spei_tts_bookmark → Params b event (boundary_event e event i) i
      plain spei_word_boundary m = (refl, refl)
      plain spei_sentence_boundary m = (refl, refl)
      plain spei_tts_bookmark m = absurd (m refl)

  bookmark-Translates :
      event.type ≡ ProviderEventType.bookmark
      → dispatch_bookmark_event b e event ≡ some sp
      → Translates b e event sp
  unfolding dispatch_bookmark_event
  bookmark-Translates t d =
      let v : event.has_valid_speech_offsets ≡ true = ground arith in
      let name = utf8_to_co_task_mem b.conversion b.alloc event.bookmark_name in
      let blank = string_eq.beq_iff event.bookmark_name "" in
      let made : bookmark_event b e event (if event.bookmark_name == "" then none else name) ≡ sp =
        ground arith in
      let params : Named b event.bookmark_name
          (bookmark_event b e event (if event.bookmark_name == "" then none else name)) =
        elim (Bool-cases (event.bookmark_name == "")) [
          | inl h ↦ rw h (inl (inl (blank.0 h), refl, refl))
          | inr h ↦
              let unblank : event.bookmark_name ≢ "" = λ k. let z = blank.1 k in cc in
              elim (Option-cases name) [
                | inl lost ↦ rw (h, lost) (inl (inr refl, refl, refl))
                | inr (units, found) ↦ rw (h, found) (inr (units, unblank, refl, refl, refl))
              ]
        ] in
      subst (Translates b e event) made
        (record { valid = v; kind = t; place = refl; params = params })

  dispatch-Translates :
      (t : ProviderEventType)
      → event.type ≡ t
      → dispatch t b e event ≡ some sp
      → Translates b e event sp
  unfolding dispatch
  dispatch-Translates ProviderEventType.word_boundary t d =
      boundary-Translates spei_word_boundary t (λ k. cc) d
  dispatch-Translates ProviderEventType.sentence_boundary t d =
      boundary-Translates spei_sentence_boundary t (λ k. cc) d
  dispatch-Translates ProviderEventType.bookmark t d = bookmark-Translates t d
  dispatch-Translates ProviderEventType.synthesis_complete t d = cc
  dispatch-Translates ProviderEventType.synthesis_cancelled t d = cc
  dispatch-Translates ProviderEventType.log t d = cc
  dispatch-Translates ProviderEventType.legacy_completed t d = cc
  dispatch-Translates ProviderEventType.unknown t d = cc

  -- The other direction: an event is what its fields say.
  boundary_made :
      (id : EventId)
      → id ≢ spei_tts_bookmark
      → sp.event_id ≡ id
      → Translates b e event sp
      → dispatch_boundary_event e event id ≡ some sp
  unfolding dispatch_boundary_event
  boundary_made spei_word_boundary n i t =
      let p = subst (Params b event sp) i t.params in ground (arith, t.valid, t.place, p.0, p.1)
  boundary_made spei_sentence_boundary n i t =
      let p = subst (Params b event sp) i t.params in ground (arith, t.valid, t.place, p.0, p.1)
  boundary_made spei_tts_bookmark n i t = absurd (n refl)

  bookmark_made :
      sp.event_id ≡ spei_tts_bookmark
      → Translates b e event sp
      → dispatch_bookmark_event b e event ≡ some sp
  unfolding dispatch_bookmark_event
  bookmark_made i t =
      let p : Named b event.bookmark_name sp = subst (Params b event sp) i t.params in
      let blank = string_eq.beq_iff event.bookmark_name "" in
      elim p [
        | inl (inl unnamed, w, l) ↦
            let h = blank.1 unnamed in ground (arith, t.valid, t.place, h, w, l)
        | inl (inr lost, w, l) ↦ elim (Bool-cases (event.bookmark_name == "")) [
          | inl h ↦ ground (arith, t.valid, t.place, h, w, l)
          | inr h ↦ ground (arith, t.valid, t.place, h, lost, w, l)
        ]
        | inr (units, unblank, found, w, l) ↦
            let h : (event.bookmark_name == "") ≡ false =
              elim (Bool-cases (event.bookmark_name == "")) [
                | inl y ↦ absurd (unblank (blank.0 y))
                | inr y ↦ y
              ] in
            ground (arith, t.valid, t.place, h, found, w, l)
      ]

  Translates-dispatch : Translates b e event sp → dispatch event.type b e event ≡ some sp
  unfolding dispatch
  Translates-dispatch t =
      subst (λ k. dispatch k b e event ≡ some sp) (sym t.kind) (made sp.event_id refl)
    where
      made : (id : EventId) → sp.event_id ≡ id → dispatch (type_of_id id) b e event ≡ some sp
      made spei_word_boundary i = boundary_made spei_word_boundary (λ k. cc) i t
      made spei_sentence_boundary i = boundary_made spei_sentence_boundary (λ k. cc) i t
      made spei_tts_bookmark i = bookmark_made i t

  -- Only the three events of the stream are dispatched.
  dispatched_boundary :
      (t : ProviderEventType) → dispatch t b e event ≡ some sp → is_speech_boundary t ≡ true
  unfolding dispatch is_speech_boundary
  dispatched_boundary ProviderEventType.word_boundary d = refl
  dispatched_boundary ProviderEventType.sentence_boundary d = refl
  dispatched_boundary ProviderEventType.bookmark d = refl
  dispatched_boundary ProviderEventType.synthesis_complete d = cc
  dispatched_boundary ProviderEventType.synthesis_cancelled d = cc
  dispatched_boundary ProviderEventType.log d = cc
  dispatched_boundary ProviderEventType.legacy_completed d = cc
  dispatched_boundary ProviderEventType.unknown d = cc

  passed :
      (site : ℕ)
      → on_speech_event b e event ≡ some (site, sp)
      → IsForSite e event site × Translates b e event sp
  unfolding on_speech_event copy_event_site add_event
  passed site p =
      let d : dispatch event.type b e event ≡ some sp = ground arith in
      (
        record { named = ground arith; current = ground arith; heard = ground arith },
        dispatch-Translates event.type refl d,
      )

  -- The engine calls `AddEvents` exactly for an event with valid offsets that names the request on
  -- hand, while this has a site; the site is given the event's kind, place in the stream and
  -- parameters.
  pub event_passed_iff :
      (site : ℕ)
      → (on_speech_event b e event ≡ some (site, sp))
        ↔ (IsForSite e event site × Translates b e event sp)
  unfolding on_speech_event copy_event_site add_event
  event_passed_iff site = (
    passed site,
    λ h.
        let d = Translates-dispatch h.1 in
        let boundary = dispatched_boundary event.type d in
        ground (arith, h.0.named, h.0.current, h.0.heard, d, boundary),
  )

-- The engine while a `Speak` waits, as far as its callbacks see it.
abbrev pub waiting : (j : Json) → SapiEngine → ℕ → SessionAnswers j → SapiEngine
waiting j e site a = (recover_session j (open_request e site) a).0

-- While a `Speak` waits on an engine with a format, after whatever calls: whatever document an event
-- was parsed from, the place that SAPI is given is the start of the last whole frame at or before
-- the event's millisecond.
pub event_placed :
    (c : Conversion) (j : Json) (b : BookmarkText) (v : j.Value) {e : SapiEngine} (own : ℕ)
    (a : SessionAnswers j) (site : ℕ) (sp : SpEvent)
    → IsLawful j
    → Calls c j new_engine e
    → (waiting j e own a).config.has_output_format ≡ true
    → on_speech_event b (waiting j e own a) (parse_control_event j v) ≡ some (site, sp)
    → FrameAt
        (parse_control_event j v).speech_offsets.audio_offset_ms
        sp.audio_stream_offset
        (waiting j e own a).config.audio_format
event_placed c j b v {e} own a site sp laws calls negotiated p =
    let now = waiting j e own a in
    let event = parse_control_event j v in
    let ms = event.speech_offsets.audio_offset_ms in
    let (_, t) = passed b now event sp site p in
    let fits = parse_control_event-FitsTypes j v laws in
    let opened = open-Good e own (Calls-IsSound c j calls) in
    let pcm = (recover-Good j (open_request e own) a opened.sound).sound.pcm negotiated in
    subst (λ n. FrameAt ms n now.config.audio_format) (sym t.place)
      (audio_offset-FrameAt ms now.config.audio_format pcm fits.audio)
