-- ===== src/Worker/Waiting.antt =====
-- `WaitUntilFinished` and `FinishCancellation` as a whole, over the turns of the loop. What other
-- threads do while the lock is let go is an argument, and so are the clock, the answer to the
-- cancellation message and the actions of the SAPI site. `EnterFaultedState` runs its sections in one go.
use modern_sapi_adapter.Base.{ℕ, Bool, Option, none, some, List, [], ◌∷◌, if◌then◌else◌}
use modern_sapi_adapter.Windows.{e_abort}
use modern_sapi_adapter.StatePolicy.{is_wait_terminal}
use modern_sapi_adapter.Worker.State.{SpeechWorker}
use modern_sapi_adapter.Worker.Cancel.{
  Next, wait_more, give_back, quarantine, finish_cancellation, send_timeout, after_send,
  after_drain_wait, poll_timeouts, poll_abort,
}
use modern_sapi_adapter.Worker.Fault.{enter_faulted_state}

-- What `FinishCancellation` meets: the tick before the message, its answer within a time limit, and
-- what other threads do until then and until the wait for the drained request ends.
pub record CancelAnswers : Type 0 where
  pub before_send : ℕ
  pub send_hr : ℕ → ℕ
  pub during_send : SpeechWorker → SpeechWorker
  pub during_drain : SpeechWorker → SpeechWorker

-- The end of a call by a decision; a decision to go on is none.
unfoldable pub conclude : SpeechWorker → Next → SpeechWorker × Option ℕ
conclude w (give_back hr) = (w, some hr)
conclude w (quarantine hr) = (enter_faulted_state w, some hr)
conclude w (finish_cancellation speak_id deadline) = (w, none)
conclude w wait_more = (w, none)

-- `FinishCancellation` from the answer to the message on.
unfoldable pub drain_cancellation : SpeechWorker → Next → CancelAnswers → SpeechWorker × Option ℕ
drain_cancellation w wait_more a =
    let drained = a.during_drain w in conclude drained (after_drain_wait drained)
drain_cancellation w next a = conclude w next

-- `FinishCancellation`.
unfoldable pub finish_cancellation_of : SpeechWorker → ℕ → CancelAnswers → SpeechWorker × Option ℕ
finish_cancellation_of w deadline a =
    drain_cancellation (a.during_send w)
      (after_send (a.send_hr (send_timeout a.before_send deadline))) a

-- A turn of the loop of `WaitUntilFinished`: what other threads do during its wait of 10 ms, the
-- tick, what they do while the site is asked, its actions, the tick of an abort and its answers.
pub record WaitTurn : Type 0 where
  pub during_wait : SpeechWorker → SpeechWorker
  pub now : ℕ
  pub during_actions : SpeechWorker → SpeechWorker
  pub actions : ℕ
  pub entry_tick : ℕ
  pub cancel : CancelAnswers

-- The end of a turn once the actions are known.
unfoldable pub act : SpeechWorker × Next → CancelAnswers → SpeechWorker × Option ℕ
act (w, finish_cancellation speak_id deadline) a = finish_cancellation_of w deadline a
act (w, next) a = conclude w next

-- The turn after the test of its time-outs.
unfoldable pub ask_site : SpeechWorker → Bool → Next → WaitTurn → SpeechWorker × Option ℕ
ask_site w has_site wait_more t =
    if has_site
    then act (poll_abort (t.during_actions w) t.actions t.entry_tick) t.cancel
    else (w, none)
ask_site w has_site next t = conclude w next

unfoldable pub wait_turn : SpeechWorker → Bool → WaitTurn → SpeechWorker × Option ℕ
wait_turn w has_site t = let v = t.during_wait w in ask_site v has_site (poll_timeouts v t.now) t

-- The result where the wait is over.
unfoldable pub waited : SpeechWorker → ℕ
waited w = if w.exit then e_abort else w.context.completion_hr

-- Whether a turn has ended the call.
unfoldable pub or_else : SpeechWorker × Option ℕ → SpeechWorker × Option ℕ → SpeechWorker × Option ℕ
or_else (w, some hr) rest = (w, some hr)
or_else (w, none) rest = rest

-- `WaitUntilFinished` over the turns so far; the result is none while it waits.
unfoldable pub wait_until_finished : SpeechWorker → Bool → List WaitTurn → SpeechWorker × Option ℕ
wait_until_finished w has_site [] =
    (w, if is_wait_terminal w.context w.exit then some (waited w) else none)
wait_until_finished w has_site (t ∷ ts) =
    let r = wait_turn w has_site t in
    let rest = wait_until_finished r.0 has_site ts in
    if is_wait_terminal w.context w.exit then (w, some (waited w)) else or_else r rest
