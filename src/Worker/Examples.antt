-- ===== src/Worker/Examples.antt =====
-- A worker on one request of eight bytes of 16-bit stereo, and on what can go wrong with it.
use modern_sapi_adapter.Base.{
  ℕ, suc, ◌<◌, ◌≡◌, ◌⊎◌, refl, true, false, List, [], ◌∷◌, ok, ◌>>=◌, ◌≢◌, none, arith,
}
use modern_sapi_adapter.Request.{UpstreamState, DownstreamState, reset}
use modern_sapi_adapter.Event.{ProviderControlEvent, ProviderEventType, no_offsets}
use modern_sapi_adapter.Pcm.Assembler.{PcmFrameAssembler, discard}
use modern_sapi_adapter.Pcm.Frames.{IsValid}
use modern_sapi_adapter.Pcm.Delivery.{
  SpanAdmission, evaluate_span_admission, is_terminal_byte_count_frame_aligned,
}
use modern_sapi_adapter.StatePolicy.{is_wait_terminal, evaluate_start, evaluate_timeouts}
use modern_sapi_adapter.Worker.State.{
  SpeechWorker, new_worker, start, started, is_faulted, check_terminal_boundary,
}
use modern_sapi_adapter.Worker.Audio.{update_after_audio_delivery}
use modern_sapi_adapter.Worker.Control.{handle_parsed_control_event}
use modern_sapi_adapter.Worker.Cancel.{stop, poll_timeouts, poll_abort}
use modern_sapi_adapter.Worker.Fault.{enter_faulted_state, begin_fault, clear_fault_pending}
use modern_sapi_adapter.Worker.Loop.{control_turn}
use modern_sapi_adapter.Worker.Steps.{starts, begins_fault, clears_fault, Reach, here, next}
use modern_sapi_adapter.Json.Tree.{tree_json, null_tree}
use modern_sapi_adapter.Windows.{s_ok, e_fail, timed_out}
use modern_sapi_adapter.Worker.Threads.{
  AudioRead, ControlRead, audio_thread, audio_iteration, control_thread,
}
use modern_sapi_adapter.Worker.ThreadRuns.{HasLeft, threads_run}
use modern_sapi_adapter.Worker.Invariant.{Inv}
use modern_sapi_adapter.Worker.Invariant.Sections.{reachable-Inv}
use modern_sapi_adapter.Worker.Boundary.{Checked, check-Checked}
use modern_sapi_adapter.Worker.Machine.{Transition, IsErrorLog}
use modern_sapi_adapter.Worker.Machine.Refinement.{Step-Transition}
use modern_sapi_adapter.Worker.Quarantine.{
  faulted_persists, end_of_wait_notified, error_log_revives, stop_acknowledged_refuses,
}
use modern_sapi_adapter.Worker.Completion.{audio_turns, IsComplete}
use modern_sapi_adapter.Worker.Whole.{request_completes}
use modern_sapi_adapter.Worker.Stale.{stale_batch_ignored}
use modern_sapi_adapter.Worker.Admission.{IsClosed, enter_faulted_state-IsClosed}
use modern_sapi_adapter.Worker.Watch.{
  IsWatched, TimelyReach, at_once, later, TimelyReach-IsWatched, new_worker-IsWatched,
}
use modern_sapi_adapter.Worker.Waiting.{
  WaitTurn, wait_until_finished, or_else, wait_turn, ask_site, act, conclude,
}
use modern_sapi_adapter.Worker.WaitEnds.{RunsTimely, wait_returns}

abbrev assembler : PcmFrameAssembler
assembler = record { block_align = 4; carry = []; completed_frame = [] }

assembler-IsValid : IsValid assembler
assembler-IsValid = record { positive = omega arith; partial = omega arith }

abbrev fresh : SpeechWorker
fresh = new_worker assembler

-- The fresh worker after `Start` of request 7 at tick 1000.
abbrev speaking : SpeechWorker
speaking = (start fresh 7 1000).0

speaking-Reach : Reach fresh speaking
speaking-Reach = next here (starts 7 1000 refl)

reachable-Inv_example : Inv speaking
reachable-Inv_example = reachable-Inv assembler assembler-IsValid speaking-Reach

-- A site that asks for nothing, at a tick in time and at one 1600 ms after the request has started.
abbrev early_turn : WaitTurn
early_turn = record {
  during_wait = λ w. w;
  now = 1100;
  during_actions = λ w. w;
  actions = 0;
  entry_tick = 1100;
  cancel = record {
    before_send = 1100;
    send_hr = λ limit. s_ok;
    during_send = λ w. w;
    during_drain = λ w. w;
  };
}

abbrev late_turn : WaitTurn
late_turn = record early_turn { now = 2600 }

early_turn-RunsTimely : RunsTimely early_turn
early_turn-RunsTimely = record {
  while_waiting = λ w. at_once;
  while_asking = λ w. at_once;
  while_sending = λ w. at_once;
  while_draining = λ w. at_once;
  unwrapped = omega arith;
}

late_turn-RunsTimely : RunsTimely late_turn
late_turn-RunsTimely = record {
  while_waiting = λ w. at_once;
  while_asking = λ w. at_once;
  while_sending = λ w. at_once;
  while_draining = λ w. at_once;
  unwrapped = omega arith;
}

speaking-IsWatched : IsWatched speaking
speaking-IsWatched =
    TimelyReach-IsWatched (later at_once (starts 7 1000 refl) tt) (new_worker-IsWatched assembler)

wait_returns_example :
    TimelyReach speaking (wait_until_finished speaking true (early_turn ∷ late_turn ∷ [])).0
    × ((wait_until_finished speaking true (early_turn ∷ late_turn ∷ [])).1 ≢ none)
unfolding new_worker start started evaluate_start wait_until_finished is_wait_terminal or_else
    wait_turn ask_site poll_timeouts evaluate_timeouts act poll_abort conclude
wait_returns_example =
    wait_returns speaking true (early_turn ∷ []) late_turn speaking-IsWatched
      (early_turn-RunsTimely, tt) late_turn-RunsTimely (omega arith) (omega arith)

-- An audio pipe that is idle and then breaks, and a control pipe that gives a message.
abbrev quiet_read : AudioRead
quiet_read = record {
  meanwhile = λ w. w;
  hr = timed_out;
  buffer = [];
  bytes_read = 0;
  tick = 1100;
  on_audio_data = λ span. true;
  send_hr = s_ok;
}

abbrev broken_reads : List AudioRead
broken_reads = quiet_read ∷ record quiet_read { hr = e_fail } ∷ []

abbrev control_reads : List (ControlRead tree_json)
control_reads = record { meanwhile = λ w. w; hr = s_ok; document = null_tree; tick = 1100 } ∷ []

threads_run_example :
    let a = audio_thread speaking broken_reads in
    let c = control_thread tree_json speaking control_reads in
    (Reach speaking a.0 × Inv a.0 × (a.1 ≡ true → HasLeft a.0))
    × (Reach speaking c.0 × Inv c.0 × (c.1 ≡ true → HasLeft c.0))
threads_run_example =
    threads_run tree_json speaking broken_reads control_reads
      (reachable-Inv assembler assembler-IsValid speaking-Reach)
      (
        record { schedules = λ w. here; inside = omega arith },
        (record { schedules = λ w. here; inside = omega arith }, tt),
      )
      (λ w. here, tt)

-- The second read ends the audio thread.
broken_ends : (audio_thread speaking broken_reads).1 ≡ true
unfolding audio_thread audio_iteration new_worker start evaluate_start started
broken_ends = refl

Step-Transition_example : Transition speaking (begin_fault speaking).0
Step-Transition_example =
    Step-Transition (begins_fault refl) (reachable-Inv assembler assembler-IsValid speaking-Reach)

end_of_wait_notified_example :
    let w' = (begin_fault speaking).0 in
    (speaking.notifications < w'.notifications)
    ⊎ ((speaking.exit ≡ false) × (w'.exit ≡ true) × (is_wait_terminal w'.context false ≡ false))
unfolding new_worker start started begin_fault is_wait_terminal evaluate_start
end_of_wait_notified_example =
    end_of_wait_notified (begins_fault refl)
      (reachable-Inv assembler assembler-IsValid speaking-Reach) refl refl

abbrev faulted : SpeechWorker
faulted = (begin_fault speaking).0

faulted-Reach : Reach fresh faulted
faulted-Reach = next speaking-Reach (begins_fault refl)

-- A faulted worker stays faulted when the barrier of its fault is taken down.
faulted_persists_example :
    ((clear_fault_pending faulted).context.downstream_state ≡ DownstreamState.faulted)
    ⊎ ((event : ProviderControlEvent) × (tick : ℕ) × IsErrorLog faulted event
        × (clear_fault_pending faulted ≡ (handle_parsed_control_event faulted event tick).0))
unfolding new_worker start started begin_fault evaluate_start
faulted_persists_example =
    faulted_persists (clears_fault refl) (reachable-Inv assembler assembler-IsValid faulted-Reach)
      refl

-- Request 7 of generation 1, as `Start` leaves it at tick 1000.
abbrev on_air : SpeechWorker
on_air = record {
  context = record {
    token = record { speak_id = 7; generation = 1 };
    upstream_state = UpstreamState.active;
    downstream_state = DownstreamState.speaking;
    raw_audio_bytes_read = 0;
    delivered_audio_bytes = 0;
    upstream_terminal_bytes = 0;
    upstream_finished = false;
    fault_pending = false;
    cancellation_deadline_tick = 0;
    completion_hr = 0;
  };
  generation_counter = 1;
  frame_assembler = assembler;
  last_provider_progress_tick = 1000;
  fault_publication_started = false;
  fault_visible = false;
  exit = false;
  has_client = true;
  notifications = 0;
  pipe_cancels = 0;
}

-- The worker before it.
abbrev off_air : SpeechWorker
off_air =
    let c = on_air.context in
    record on_air {
      generation_counter = 0;
      last_provider_progress_tick = 0;
      context = record c {
        token = record { speak_id = 0; generation = 0 };
        upstream_state = UpstreamState.idle;
        downstream_state = DownstreamState.idle;
      };
    }

off_air-start : start off_air 7 1000 ≡ (on_air, true)
unfolding start started evaluate_start reset discard
off_air-start = refl

abbrev event_of : ProviderEventType → ℕ → ProviderControlEvent
event_of type bytes = record {
  type = type;
  speak_id = 7;
  speech_offsets = no_offsets;
  terminal_audio_bytes = bytes;
  has_valid_speech_offsets = false;
  has_valid_terminal_bytes = true;
  raw_event_name = "";
  log_severity = "error";
  log_message = "";
  bookmark_name = "";
  log_friendly_text = "";
}

abbrev eight_bytes : ProviderControlEvent
eight_bytes = event_of ProviderEventType.synthesis_complete 8

abbrev early : List (ℕ × List ℕ)
early = (1010, 1 ∷ 2 ∷ 3 ∷ []) ∷ []

abbrev late : List (ℕ × List ℕ)
late = (1030, 4 ∷ []) ∷ (1040, 5 ∷ 6 ∷ 7 ∷ 8 ∷ []) ∷ []

request_completes_example :
    (v : SpeechWorker) × ((audio_turns on_air early >>= λ u.
    audio_turns (control_turn u eight_bytes 1020).0 late)
      ≡ ok v)
    × IsComplete v
request_completes_example =
    request_completes off_air on_air eight_bytes 7 1000 1020 early late assembler-IsValid
      off_air-start
      (record {
        completes = refl;
        for_request = refl;
        named = λ e. omega arith;
        has_bytes = refl;
        aligned = refl;
        word = omega arith;
      })
      refl (omega arith) (omega arith, omega arith, tt)
      (omega arith, omega arith, (omega arith, omega arith, tt))

stale_batch_ignored_example :
    (evaluate_span_admission on_air.context (record { speak_id = 7; generation = 0 })
      ≡ SpanAdmission.reject)
    × (update_after_audio_delivery on_air (record { speak_id = 7; generation = 0 }) 4 false 1050
        ≡ (on_air, false, 0))
stale_batch_ignored_example =
    stale_batch_ignored off_air on_air (record { speak_id = 7; generation = 0 }) 7 1000 4 1050 false
      off_air-start (omega arith) (omega arith)

enter_faulted_state-IsClosed_example :
    let w' = enter_faulted_state on_air in
    IsClosed w'
    × (0 < w'.notifications)
    × (w'.pipe_cancels ≡ suc 0)
    × ((enter_faulted_state w').pipe_cancels ≡ w'.pipe_cancels)
    × IsClosed (enter_faulted_state w')
enter_faulted_state-IsClosed_example = enter_faulted_state-IsClosed on_air refl refl

check-Checked_example : Checked on_air (check_terminal_boundary on_air)
check-Checked_example = check-Checked on_air

abbrev quarantined : SpeechWorker
quarantined =
    let c = on_air.context in
    record on_air {
      fault_publication_started = true;
      fault_visible = true;
      context = record c {
        upstream_state = UpstreamState.faulted;
        downstream_state = DownstreamState.faulted;
        completion_hr = 0x80004005;
      };
    }

abbrev error_log : ProviderControlEvent
error_log = event_of ProviderEventType.log 0

error_log_revives_example :
    let w' = (handle_parsed_control_event quarantined error_log 1100).0 in
    (is_faulted w' ≡ false) × ((start w' 8 1200).1 ≡ true) × (w'.fault_visible ≡ true)
error_log_revives_example =
    error_log_revives quarantined error_log 1100 8 1200 refl refl
      (record { logs = refl; severity = refl; for_request = refl })

abbrev acknowledgement : ProviderControlEvent
acknowledgement = event_of ProviderEventType.synthesis_cancelled 4

stop_acknowledged_refuses_example :
    let w' = (handle_parsed_control_event (stop on_air).0 acknowledgement 1100).0 in
    (is_faulted w' ≡ false) × (start w' 8 1200 ≡ (w', false))
unfolding is_terminal_byte_count_frame_aligned
stop_acknowledged_refuses_example =
    stop_acknowledged_refuses on_air acknowledgement 1100 8 1200 refl refl refl refl
      (record { cancelled = refl; for_request = refl; has_bytes = refl; aligned = refl })

-- The cancelled request of which eight bytes are declared and three were read.
abbrev draining : SpeechWorker
draining =
    let c = on_air.context in
    record on_air {
      context = record c {
        upstream_state = UpstreamState.cancelled;
        downstream_state = DownstreamState.cancelling;
        raw_audio_bytes_read = 3;
        upstream_terminal_bytes = 8;
        upstream_finished = true;
      };
    }
