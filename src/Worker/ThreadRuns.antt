-- ===== src/Worker/ThreadRuns.antt =====
-- The loops of the two I/O threads are schedules of the critical sections, and how they end.
use modern_sapi_adapter.Base.{
  ℕ, ◌≤◌, ◌≡◌, ◌⊎◌, inl, inr, refl, Bool, true, false, Bool-cases, ◌||◌, ◌&&◌, List, [], ◌∷◌,
  length, ok, ◌==◌, ◌!=◌, nat_eq, if_keeps, if◌then◌else◌, arith,
}
use modern_sapi_adapter.Windows.{failed, timed_out}
use modern_sapi_adapter.Json.{Json}
use modern_sapi_adapter.Request.{DownstreamState}
use modern_sapi_adapter.Event.{ProviderControlEvent}
use modern_sapi_adapter.Worker.State.{SpeechWorker, transition_request_to_faulted}
use modern_sapi_adapter.Worker.Audio.{AudioIngestResult}
use modern_sapi_adapter.Worker.Control.{handle_parsed_control_event}
use modern_sapi_adapter.Worker.Fault.{
  enter_faulted_state, begin_fault, reveal_fault, clear_fault_pending, cancel_pipes,
  raise_for_missing_id,
}
use modern_sapi_adapter.Worker.Loop.{deliver_batch, after_delivery, audio_turn, control_turn}
use modern_sapi_adapter.Worker.Steps.{ingests, settles, handles, misses_id, Reach, here, next}
use modern_sapi_adapter.Worker.Invariant.{Inv}
use modern_sapi_adapter.Worker.Invariant.Audio.{ingest-Inv}
use modern_sapi_adapter.Worker.Alignment.{align-Reach, enter_faulted-Reach, append-Reach}
use modern_sapi_adapter.Worker.Threads.{
  AudioRead, failed_read, end_turn, audio_body, audio_iteration, audio_thread, ControlRead,
  control_iteration, control_thread,
}

deliver_batch-Reach :
    (w : SpeechWorker) (r : AudioIngestResult) (on_audio_data : List ℕ → Bool) (tick : ℕ)
    → Reach w (deliver_batch w r on_audio_data tick).0
unfolding deliver_batch
deliver_batch-Reach w r on_audio_data tick =
    if_keeps (λ (x : SpeechWorker × Bool × ℕ). Reach w x.0) _
      (next here (settles r.token _ tick _ refl)) here

after_delivery-Reach :
    (w : SpeechWorker) (faulted : Bool) (to_send send_hr : ℕ)
    → Reach w (after_delivery w faulted to_send send_hr)
unfolding after_delivery
after_delivery-Reach w faulted to_send send_hr =
    let sent : SpeechWorker = if to_send != 0 && failed send_hr then enter_faulted_state w else w in
    let r : Reach w sent =
      if_keeps (Reach w) (to_send != 0 && failed send_hr) (enter_faulted-Reach w) here in
    if_keeps (Reach w) faulted (append-Reach r (enter_faulted-Reach sent)) r

-- The end of a turn of the audio thread.
abbrev delivered : SpeechWorker × AudioIngestResult → AudioRead → SpeechWorker
delivered x r =
    let (w', faulted, to_send) = deliver_batch x.0 x.1 r.on_audio_data r.tick in
    after_delivery w' (x.1.protocol_boundary_failed || faulted) to_send r.send_hr

-- A turn of the audio thread.
audio_turn-Reach :
    (w : SpeechWorker) (r : AudioRead)
    → Inv w
    → r.bytes_read ≤ length r.buffer
    → (w' : SpeechWorker) × (audio_turn w r.on_audio_data r.buffer r.bytes_read r.tick r.send_hr
        ≡ ok w')
      × Reach w w'
unfolding audio_turn
audio_turn-Reach w r v inside = elim (Bool-cases (r.bytes_read == 0)) [
  | inl e ↦ (w, rw e, here)
  | inr n ↦
      let (x, run, _) = ingest-Inv w r.buffer r.bytes_read r.tick v inside in
      (
        delivered x r,
        rw (n, run),
        append-Reach
            (append-Reach (next here (ingests r.buffer r.bytes_read r.tick x inside run refl))
              (deliver_batch-Reach x.0 x.1 r.on_audio_data r.tick))
            (after_delivery-Reach _ _ _ r.send_hr),
      )
]

control_turn-Reach :
    (w : SpeechWorker) (event : ProviderControlEvent) (tick : ℕ)
    → Reach w (control_turn w event tick).0
unfolding control_turn
control_turn-Reach w event tick =
    let handled : Reach w (handle_parsed_control_event w event tick).0 =
      next here (handles event tick refl) in
    if_keeps (λ (x : SpeechWorker × Bool). Reach w x.0) _ here
      (if_keeps (λ (x : SpeechWorker × Bool). Reach w x.0) (event.speak_id == 0)
        (append-Reach (next here (misses_id refl)) (enter_faulted-Reach (raise_for_missing_id w)))
        (if_keeps (Reach w) _ (append-Reach handled (enter_faulted-Reach _)) handled))

failed_read-Reach : (w : SpeechWorker) → Reach w (failed_read w)
unfolding failed_read
failed_read-Reach w = if_keeps (Reach w) w.exit here (enter_faulted-Reach w)

-- The reads of the audio thread: other threads run sections meanwhile, and the buffer holds what was
-- read.
pub record AudioRuns (r : AudioRead) : Type 0 where
  pub schedules : (w : SpeechWorker) → Reach w (r.meanwhile w)
  pub inside : r.bytes_read ≤ length r.buffer

abbrev pub All {ℓ κ} : {A : Type ℓ} → (A → Type κ) → List A → Type κ
All P [] = Unit
All P (x ∷ xs) = P x × All P xs

-- How a thread has ended.
abbrev pub HasLeft : SpeechWorker → Type 0
HasLeft w = (w.exit ≡ true) ⊎ (w.context.downstream_state ≡ DownstreamState.faulted)

-- What an iteration comes to.
record Goes (w : SpeechWorker) (x : SpeechWorker × Bool) : Type 0 where
  schedule : Reach w x.0
  left : x.1 ≡ false → HasLeft x.0

faulted_state :
    (w : SpeechWorker) → (enter_faulted_state w).context.downstream_state ≡ DownstreamState.faulted
unfolding enter_faulted_state begin_fault transition_request_to_faulted reveal_fault
    clear_fault_pending cancel_pipes
faulted_state w = ground arith

failed_read-HasLeft : (w : SpeechWorker) → HasLeft (failed_read w)
unfolding failed_read
failed_read-HasLeft w = ground (arith, faulted_state w)

audio_body-Goes :
    (w : SpeechWorker) (r : AudioRead)
    → Inv w
    → r.bytes_read ≤ length r.buffer
    → Goes w (audio_body w r)
unfolding audio_body end_turn
audio_body-Goes w r v inside =
    let (w', run, schedule) = audio_turn-Reach w r v inside in
    rw run (record { schedule = schedule; left = λ e. cc })

audio_iteration-Goes :
    (w : SpeechWorker) (r : AudioRead) → Inv w → AudioRuns r → Goes w (audio_iteration w r)
unfolding audio_iteration
audio_iteration-Goes w r v runs =
    let u = r.meanwhile w in
    let s = runs.schedules w in
    let b = audio_body-Goes u r (align-Reach s v).0 runs.inside in
    if_keeps (Goes w) (r.hr == timed_out) (record { schedule = s; left = λ e. cc })
      (if_keeps (Goes w) (failed r.hr)
        (record {
          schedule = append-Reach s (failed_read-Reach u);
          left = λ e. failed_read-HasLeft u;
        })
        (record { schedule = append-Reach s b.schedule; left = b.left }))

control_iteration-Goes :
    (j : Json) (w : SpeechWorker) (r : ControlRead j)
    → ((u : SpeechWorker) → Reach u (r.meanwhile u))
    → Goes w (control_iteration j w r)
unfolding control_iteration
control_iteration-Goes j w r schedules =
    let u = r.meanwhile w in
    let s = schedules w in
    if_keeps (Goes w) (r.hr == timed_out) (record { schedule = s; left = λ e. cc })
      (if_keeps (Goes w) (failed r.hr)
        (record {
          schedule = append-Reach s (failed_read-Reach u);
          left = λ e. failed_read-HasLeft u;
        })
        (record { schedule = append-Reach s (control_turn-Reach u _ r.tick); left = λ e. cc }))

-- A thread so far: a schedule, and how it has ended, if it has.
record Runs (w : SpeechWorker) (x : SpeechWorker × Bool) : Type 0 where
  schedule : Reach w x.0
  left : x.1 ≡ true → HasLeft x.0

-- One more iteration before the rest of the loop.
loop-Runs :
    (w : SpeechWorker) (exits goes_on : Bool) (w' : SpeechWorker) (rest : SpeechWorker × Bool)
    → (exits ≡ true → HasLeft w)
    → Goes w (w', goes_on)
    → Runs w' rest
    → Runs w (if exits then (w, true) else if goes_on then rest else (w', true))
loop-Runs w true goes_on w' rest e g r = record { schedule = here; left = λ _. e refl }
loop-Runs w false true w' rest e g r = record {
  schedule = append-Reach g.schedule r.schedule;
  left = r.left;
}
loop-Runs w false false w' rest e g r = record { schedule = g.schedule; left = λ _. g.left refl }

audio_thread-Runs :
    (w : SpeechWorker) (rs : List AudioRead) → Inv w → All AudioRuns rs → Runs w (audio_thread w rs)
unfolding audio_thread
audio_thread-Runs w [] v h = record { schedule = here; left = λ e. inl e }
audio_thread-Runs w (r ∷ rs) v h =
    let g = audio_iteration-Goes w r v h.0 in
    loop-Runs w w.exit _ _ _ (λ e. inl e) g
      (audio_thread-Runs (audio_iteration w r).0 rs (align-Reach g.schedule v).0 h.1)

control_thread-Runs :
    (j : Json) (w : SpeechWorker) (rs : List (ControlRead j))
    → All (λ (r : ControlRead j). (u : SpeechWorker) → Reach u (r.meanwhile u)) rs
    → Runs w (control_thread j w rs)
unfolding control_thread
control_thread-Runs j w [] h = record { schedule = here; left = λ e. inl e }
control_thread-Runs j w (r ∷ rs) h =
    let g = control_iteration-Goes j w r h.0 in
    loop-Runs w w.exit _ _ _ (λ e. inl e) g
      (control_thread-Runs j (control_iteration j w r).0 rs h.1)

-- A run of either I/O thread, from a worker of the invariant, with any reads, where the other threads
-- run any sections until a read returns and none from then to the next read or to the end of the
-- thread, is a schedule of the critical sections, so that the invariant stays. When the thread has
-- ended, the worker is being destroyed or its engine side is faulted.
pub threads_run :
    (j : Json) (w : SpeechWorker) (audio : List AudioRead) (control : List (ControlRead j))
    → Inv w
    → All AudioRuns audio
    → All (λ (r : ControlRead j). (u : SpeechWorker) → Reach u (r.meanwhile u)) control
    → let a = audio_thread w audio in
      let c = control_thread j w control in
      (Reach w a.0 × Inv a.0 × (a.1 ≡ true → HasLeft a.0))
      × (Reach w c.0 × Inv c.0 × (c.1 ≡ true → HasLeft c.0))
threads_run j w audio control v ha hc =
    let a = audio_thread-Runs w audio v ha in
    let c = control_thread-Runs j w control hc in
    (
      (a.schedule, (align-Reach a.schedule v).0, a.left),
      (c.schedule, (align-Reach c.schedule v).0, c.left),
    )
