-- ===== src/Protocol/Unaddressed.antt =====
-- Messages that name no request: `ControlThreadProc` of CoreEngine/SpeechWorker.cpp on what
-- `ParseControlEvent` gives.
use Prim.Native.String.{String}
use modern_sapi_adapter.Base.{
  ℕ, suc, refl, if◌then◌else◌, ◌≡◌, ◌≢◌, ◌⊎◌, inl, inr, sym, Bool-cases, ◌∙◌, true, false, none,
  some, ◌==◌, nat_eq, arith, max_u64,
}
use modern_sapi_adapter.Event.{
  ProviderControlEvent, ProviderEventType, event_type_eq, string_eq, new_event,
}
use modern_sapi_adapter.Json.{Json, string_member, unsigned_member}
use modern_sapi_adapter.Protocol.{
  parse_control_event, with_members, with_offsets, with_terminal_bytes, with_log, with_name,
  with_speak_id,
}
use modern_sapi_adapter.Worker.State.{SpeechWorker}
use modern_sapi_adapter.Worker.Fault.{raise_for_missing_id, enter_faulted_state}
use modern_sapi_adapter.Worker.Loop.{control_turn}
use modern_sapi_adapter.Worker.Admission.{
  IsQuarantined, enter_faulted_state-IsQuarantined, enter_faulted_state-cases,
}

-- The members add nothing to the name and to the request of an event.
members_kept :
    (j : Json) (v : j.Value) (event : ProviderControlEvent)
    → ((with_members j v event).raw_event_name ≡ event.raw_event_name)
      × ((with_members j v event).speak_id ≡ event.speak_id)
      × ((with_members j v event).type ≡ event.type)
unfolding with_members with_offsets with_terminal_bytes with_log
members_kept j v event = (ground arith, ground arith, ground arith)

unaddressed_turn :
    (w : SpeechWorker) (event : ProviderControlEvent) (tick : ℕ)
    → event.raw_event_name ≢ ""
    → event.speak_id ≡ 0
    → control_turn w event tick ≡ (enter_faulted_state (raise_for_missing_id w), false)
unfolding control_turn
unaddressed_turn w event tick n z =
    let named : (event.raw_event_name == "") ≡ false =
      elim (Bool-cases (event.raw_event_name == "")) [
        | inl e ↦ absurd (n ((string_eq.beq_iff event.raw_event_name "").0 e))
        | inr e ↦ e
      ] in
    ground arith

parsed_header :
    (j : Json) (v : j.Value) (name : String)
    → j.is_object v ≡ true
    → string_member j v "event" ≡ some name
    → (unsigned_member j v "speak_id" max_u64 ≡ none)
      ⊎ (unsigned_member j v "speak_id" max_u64 ≡ some 0)
    → ((parse_control_event j v).raw_event_name ≡ name) × ((parse_control_event j v).speak_id ≡ 0)
unfolding parse_control_event with_name with_speak_id new_event
parsed_header j v name o e i =
    let (a, b, _) = members_kept j v (with_speak_id j v (with_name j v new_event)) in
    (ground (arith, a), ground (arith, b))

missing_id-cases :
    (w : SpeechWorker)
    → let w' = enter_faulted_state (raise_for_missing_id w) in
      (w.fault_publication_started ≡ true)
      ⊎ ((w'.fault_visible ≡ true)
          × (w'.pipe_cancels ≡ (if w.has_client then suc w.pipe_cancels else w.pipe_cancels)))
unfolding raise_for_missing_id
missing_id-cases w = ground (arith, enter_faulted_state-cases (raise_for_missing_id w))

-- A message whose event is named, and whose `speak_id` is missing, zero, or no number that a
-- `uint64_t` holds, is not passed on and faults the worker: the request fails with `E_FAIL`, waits end,
-- `Start` refuses and no span is admitted. Unless a fault of the worker was published before, the fault
-- becomes visible, and the pipes of a client are cancelled once.
pub unaddressed_quarantines :
    (j : Json) (v : j.Value) (w : SpeechWorker) (name : String) (tick : ℕ)
    → j.is_object v ≡ true
    → string_member j v "event" ≡ some name
    → name ≢ ""
    → (unsigned_member j v "speak_id" max_u64 ≡ none)
      ⊎ (unsigned_member j v "speak_id" max_u64 ≡ some 0)
    → let (w', passed) = control_turn w (parse_control_event j v) tick in
      (passed ≡ false)
      × IsQuarantined w'
      × ((w.fault_publication_started ≡ true)
          ⊎ ((w'.fault_visible ≡ true)
              × (w'.pipe_cancels ≡ (if w.has_client then suc w.pipe_cancels else w.pipe_cancels))))
unaddressed_quarantines j v w name tick o e n i =
    let (a, b) = parsed_header j v name o e i in
    let turn = unaddressed_turn w (parse_control_event j v) tick (λ k. n (sym a ∙ k)) b in
    rw turn (refl, enter_faulted_state-IsQuarantined (raise_for_missing_id w), missing_id-cases w)

unnamed_turn :
    (w : SpeechWorker) (event : ProviderControlEvent) (tick : ℕ)
    → event.raw_event_name ≡ ""
    → event.type ≡ ProviderEventType.unknown
    → control_turn w event tick ≡ (w, false)
unfolding control_turn
unnamed_turn w event tick n t =
    let blank = (string_eq.beq_iff event.raw_event_name "").1 n in ground (arith, blank)

no_header :
    (j : Json) (v : j.Value)
    → (j.is_object v ≡ false) ⊎ (string_member j v "event" ≡ none)
    → ((parse_control_event j v).raw_event_name ≡ "")
      × ((parse_control_event j v).type ≡ ProviderEventType.unknown)
unfolding parse_control_event with_name with_speak_id new_event
no_header j v h =
    let (a, _, c) = members_kept j v (with_speak_id j v (with_name j v new_event)) in
    (ground (arith, a), ground (arith, c))

-- A message that is no object, or whose event is not named by a text, is ignored.
pub unnamed_ignored :
    (j : Json) (v : j.Value) (w : SpeechWorker) (tick : ℕ)
    → (j.is_object v ≡ false) ⊎ (string_member j v "event" ≡ none)
    → control_turn w (parse_control_event j v) tick ≡ (w, false)
unnamed_ignored j v w tick h =
    let (a, b) = no_header j v h in unnamed_turn w (parse_control_event j v) tick a b
