-- ===== src/Worker/Invariant/Sections.antt =====
-- Every critical section keeps the invariant of a worker, so it holds after every schedule.
use modern_sapi_adapter.Base.{ℕ, ◌≡◌, refl, sym, ◌∙◌, inl, true, arith, ok-injective}
use modern_sapi_adapter.Request.{transition_to_cancelling}
use modern_sapi_adapter.Pcm.Assembler.{PcmFrameAssembler}
use modern_sapi_adapter.Pcm.Frames.{IsValid}
use modern_sapi_adapter.StatePolicy.{evaluate_start, evaluate_begin_cancellation, evaluate_stop}
use modern_sapi_adapter.Worker.State.{SpeechWorker, new_worker, start}
use modern_sapi_adapter.Worker.Cancel.{stop, begin_cancellation}
use modern_sapi_adapter.Worker.Fault.{
  begin_fault, reveal_fault, clear_fault_pending, cancel_pipes, raise_for_missing_id, shut_down,
}
use modern_sapi_adapter.Worker.Steps.{
  Step, starts, stops, cancels, ingests, settles, handles, misses_id, begins_fault, reveals_fault,
  clears_fault, cancels_pipes, shuts_down, Reach, here, next,
}
use modern_sapi_adapter.Worker.Invariant.Audio.{ingest-Inv, update-Inv}
use modern_sapi_adapter.Worker.Invariant.Control.{handle_event-Inv}
use modern_sapi_adapter.Worker.Invariant.{Inv, discard-IsValid, reset_to_idle-Inv}

pub start-Inv : (w : SpeechWorker) (speak_id tick : ℕ) → Inv w → Inv (start w speak_id tick).0
unfolding start evaluate_start
start-Inv w speak_id tick v = ground arith

pub stop-Inv : (w : SpeechWorker) → Inv w → Inv (stop w).0
unfolding stop evaluate_stop
stop-Inv w v = ground (arith, reset_to_idle-Inv w v.core)

pub begin_cancellation-Inv :
    (w : SpeechWorker) (deadline : ℕ) → Inv w → Inv (begin_cancellation w deadline).0
unfolding begin_cancellation evaluate_begin_cancellation transition_to_cancelling
begin_cancellation-Inv w deadline v = ground (arith, discard-IsValid w.frame_assembler v.assembler)

pub begin_fault-Inv : (w : SpeechWorker) → Inv w → Inv (begin_fault w).0
unfolding begin_fault
begin_fault-Inv w v = ground arith

pub reveal_fault-Inv :
    (w : SpeechWorker) → w.fault_publication_started ≡ true → Inv w → Inv (reveal_fault w)
unfolding reveal_fault
reveal_fault-Inv w p v = ground arith

clear_fault-Inv : (w : SpeechWorker) → Inv w → Inv (clear_fault_pending w)
unfolding clear_fault_pending
clear_fault-Inv w v = ground arith

cancel_pipes-Inv : (w : SpeechWorker) → Inv w → Inv (cancel_pipes w)
unfolding cancel_pipes
cancel_pipes-Inv w v = ground arith

missing_id-Inv : (w : SpeechWorker) → Inv w → Inv (raise_for_missing_id w)
unfolding raise_for_missing_id
missing_id-Inv w v = ground arith

shut_down-Inv : (w : SpeechWorker) → Inv w → Inv (shut_down w)
unfolding shut_down
shut_down-Inv w v = ground arith

pub Step-Inv : {w w' : SpeechWorker} → Step w w' → Inv w → Inv w'
Step-Inv {w} (starts i t e) v = rw e (start-Inv w i t v)
Step-Inv {w} (stops e) v = rw e (stop-Inv w v)
Step-Inv {w} (cancels d e) v = rw e (begin_cancellation-Inv w d v)
Step-Inv {w} (ingests buffer n t r inside run e) v =
    let (r', run', v') = ingest-Inv w buffer n t v inside in
    rw (e, ok-injective (sym run ∙ run')) v'
Step-Inv {w} (settles t n k b e) v = rw e (update-Inv w t n k b v)
Step-Inv {w} (handles event t e) v = rw e (handle_event-Inv w event t v)
Step-Inv {w} (misses_id e) v = rw e (missing_id-Inv w v)
Step-Inv {w} (begins_fault e) v = rw e (begin_fault-Inv w v)
Step-Inv {w} (reveals_fault p e) v = rw e (reveal_fault-Inv w p v)
Step-Inv {w} (clears_fault e) v = rw e (clear_fault-Inv w v)
Step-Inv {w} (cancels_pipes e) v = rw e (cancel_pipes-Inv w v)
Step-Inv {w} (shuts_down e) v = rw e (shut_down-Inv w v)

new_worker-Inv : (a : PcmFrameAssembler) → IsValid a → Inv (new_worker a)
unfolding new_worker
new_worker-Inv a v = record {
  core = record {
    assembler = v;
    generation = refl;
    fault_sides = λ e. cc;
    busy_sides = λ _. inl refl;
    published = λ e. cc;
  };
  settled = λ e. cc;
}

Reach-Inv : {w w' : SpeechWorker} → Reach w w' → Inv w → Inv w'
Reach-Inv here v = v
Reach-Inv (next r s) v = Step-Inv s (Reach-Inv r v)

-- In a worker built over a valid assembler, after any schedule of the threads and with any input:
-- less than one frame is carried, the context's generation is the last one given out, the provider
-- side is never left in the failed state, a faulted provider side comes with a faulted engine side,
-- an idle provider side with an idle or a faulted engine side, and a fault that is visible was
-- published.
pub reachable-Inv :
    (a : PcmFrameAssembler) {w : SpeechWorker} → IsValid a → Reach (new_worker a) w → Inv w
reachable-Inv a v r = Reach-Inv r (new_worker-Inv a v)
