-- ===== src/Worker/WaitEnds.antt =====
-- `WaitUntilFinished` is a schedule of the critical sections, and returns.
use modern_sapi_adapter.Base.{
  ℕ, ◌+◌, ◌^◌, ◌≤◌, ◌<◌, ◌≡◌, ◌≢◌, refl, Bool, true, false, Option, none, some, List, [], ◌∷◌, ◌++◌,
  nat_eq, if_keeps, if◌then◌else◌, add64, arith,
}
use modern_sapi_adapter.Request.{
  upstream_eq, downstream_eq, is_actively_synthesizing, is_awaiting_terminal_audio,
  is_draining_cancellation,
}
use modern_sapi_adapter.StatePolicy.{evaluate_timeouts, is_wait_terminal}
use modern_sapi_adapter.Worker.State.{SpeechWorker}
use modern_sapi_adapter.Worker.Cancel.{
  Next, wait_more, give_back, quarantine, finish_cancellation, poll_timeouts, poll_abort,
}
use modern_sapi_adapter.Worker.Fault.{
  enter_faulted_state, begin_fault, reveal_fault, clear_fault_pending, cancel_pipes,
}
use modern_sapi_adapter.Worker.Steps.{
  cancels, begins_fault, reveals_fault, clears_fault, cancels_pipes,
}
use modern_sapi_adapter.Worker.Watch.{IsWatched, TimelyReach, at_once, later, TimelyReach-IsWatched}
use modern_sapi_adapter.Worker.Waiting.{
  conclude, drain_cancellation, finish_cancellation_of, WaitTurn, act, ask_site, wait_turn, or_else,
  wait_until_finished,
}

-- A turn of a watched request ends the call once the deadline of its cancellation and 1500 ms since
-- the provider's last progress have passed.
poll-late :
    (w : SpeechWorker) (now : ℕ)
    → IsWatched w
    → w.last_provider_progress_tick + 1500 ≤ now
    → w.context.cancellation_deadline_tick ≤ now
    → poll_timeouts w now ≢ wait_more
unfolding poll_timeouts evaluate_timeouts is_wait_terminal is_actively_synthesizing
    is_awaiting_terminal_audio is_draining_cancellation
poll-late w now v h d e = ground (arith, v)

conclude-some :
    (w : SpeechWorker) (n : Next)
    → n ≢ wait_more
    → ((i d : ℕ) → n ≢ finish_cancellation i d)
    → (conclude w n).1 ≢ none
unfolding conclude
conclude-some w wait_more h k e = h refl
conclude-some w (give_back hr) h k e = cc
conclude-some w (quarantine hr) h k e = cc
conclude-some w (finish_cancellation i d) h k e = k i d refl

-- What the time-outs and the wait for a drained request never decide.
poll-never : (w : SpeechWorker) (now i d : ℕ) → poll_timeouts w now ≢ finish_cancellation i d
unfolding poll_timeouts
poll-never w now i d e = ground arith

ask-some :
    (w : SpeechWorker) (has_site : Bool) (n : Next) (t : WaitTurn)
    → n ≢ wait_more
    → ((i d : ℕ) → n ≢ finish_cancellation i d)
    → (ask_site w has_site n t).1 ≢ none
unfolding ask_site
ask-some w has_site wait_more t h k e = h refl
ask-some w has_site (give_back hr) t h k e = conclude-some w (give_back hr) h k e
ask-some w has_site (quarantine hr) t h k e = conclude-some w (quarantine hr) h k e
ask-some w has_site (finish_cancellation i d) t h k e = k i d refl

late_turn :
    (w : SpeechWorker) (has_site : Bool) (t : WaitTurn)
    → IsWatched (t.during_wait w)
    → (t.during_wait w).last_provider_progress_tick + 1500 ≤ t.now
    → (t.during_wait w).context.cancellation_deadline_tick ≤ t.now
    → (wait_turn w has_site t).1 ≢ none
unfolding wait_turn
late_turn w has_site t v silent overdue =
    let u = t.during_wait w in
    ask-some u has_site (poll_timeouts u t.now) t (poll-late u t.now v silent overdue)
      (poll-never u t.now)

append-TimelyReach : {u v w : SpeechWorker} → TimelyReach u v → TimelyReach v w → TimelyReach u w
append-TimelyReach r at_once = r
append-TimelyReach r (later s st h) = later (append-TimelyReach r s) st h

published : (w : SpeechWorker) → (begin_fault w).0.fault_publication_started ≡ true
unfolding begin_fault
published w = ground arith

enter_faulted-TimelyReach : (w : SpeechWorker) → TimelyReach w (enter_faulted_state w)
unfolding enter_faulted_state
enter_faulted-TimelyReach w =
    let f = (begin_fault w).0 in
    let begun : TimelyReach w f = later at_once (begins_fault refl) tt in
    let revealed : TimelyReach w (reveal_fault f) =
      later begun (reveals_fault (published w) refl) tt in
    let cleared : TimelyReach w (clear_fault_pending (reveal_fault f)) =
      later revealed (clears_fault refl) tt in
    let cancelled : TimelyReach w (cancel_pipes (clear_fault_pending (reveal_fault f))) =
      later cleared (cancels_pipes refl) tt in
    if_keeps (TimelyReach w) (begin_fault w).1 cancelled begun

conclude-TimelyReach : (w : SpeechWorker) (n : Next) → TimelyReach w (conclude w n).0
unfolding conclude
conclude-TimelyReach w wait_more = at_once
conclude-TimelyReach w (give_back hr) = at_once
conclude-TimelyReach w (quarantine hr) = enter_faulted-TimelyReach w
conclude-TimelyReach w (finish_cancellation i d) = at_once

-- The other threads run sections of timely steps while a turn lets go of the lock, and the deadline
-- of an abort does not wrap.
pub record RunsTimely (t : WaitTurn) : Type 0 where
  pub while_waiting : (w : SpeechWorker) → TimelyReach w (t.during_wait w)
  pub while_asking : (w : SpeechWorker) → TimelyReach w (t.during_actions w)
  pub while_sending : (w : SpeechWorker) → TimelyReach w (t.cancel.during_send w)
  pub while_draining : (w : SpeechWorker) → TimelyReach w (t.cancel.during_drain w)
  pub unwrapped : t.entry_tick + 500 < 2 ^ 64

module _ (t : WaitTurn) (runs : RunsTimely t) where
  drain-TimelyReach :
      (w : SpeechWorker) (n : Next) → TimelyReach w (drain_cancellation w n t.cancel).0
  unfolding drain_cancellation
  drain-TimelyReach w wait_more =
      append-TimelyReach (runs.while_draining w) (conclude-TimelyReach (t.cancel.during_drain w) _)
  drain-TimelyReach w (give_back hr) = conclude-TimelyReach w (give_back hr)
  drain-TimelyReach w (quarantine hr) = conclude-TimelyReach w (quarantine hr)
  drain-TimelyReach w (finish_cancellation i d) = conclude-TimelyReach w (finish_cancellation i d)

  act-TimelyReach : (w : SpeechWorker) (n : Next) → TimelyReach w (act (w, n) t.cancel).0
  unfolding act finish_cancellation_of
  act-TimelyReach w wait_more = conclude-TimelyReach w wait_more
  act-TimelyReach w (give_back hr) = conclude-TimelyReach w (give_back hr)
  act-TimelyReach w (quarantine hr) = conclude-TimelyReach w (quarantine hr)
  act-TimelyReach w (finish_cancellation i d) =
      append-TimelyReach (runs.while_sending w) (drain-TimelyReach (t.cancel.during_send w) _)

  poll_abort-TimelyReach :
      (w : SpeechWorker) → TimelyReach w (poll_abort w t.actions t.entry_tick).0
  unfolding poll_abort
  poll_abort-TimelyReach w =
      if_keeps (λ (x : SpeechWorker × Next). TimelyReach w x.0) _ at_once
        (later at_once (cancels (add64 t.entry_tick 500) refl) (λ e. omega (arith, runs.unwrapped)))

  ask-TimelyReach :
      (w : SpeechWorker) (has_site : Bool) (n : Next) → TimelyReach w (ask_site w has_site n t).0
  unfolding ask_site
  ask-TimelyReach w has_site wait_more =
      if_keeps (λ (x : SpeechWorker × Option ℕ). TimelyReach w x.0) has_site
        (append-TimelyReach
          (append-TimelyReach (runs.while_asking w) (poll_abort-TimelyReach (t.during_actions w)))
          (act-TimelyReach _ _))
        at_once
  ask-TimelyReach w has_site (give_back hr) = conclude-TimelyReach w (give_back hr)
  ask-TimelyReach w has_site (quarantine hr) = conclude-TimelyReach w (quarantine hr)
  ask-TimelyReach w has_site (finish_cancellation i d) =
      conclude-TimelyReach w (finish_cancellation i d)

  turn-TimelyReach : (w : SpeechWorker) (has_site : Bool) → TimelyReach w (wait_turn w has_site t).0
  unfolding wait_turn
  turn-TimelyReach w has_site =
      append-TimelyReach (runs.while_waiting w) (ask-TimelyReach (t.during_wait w) has_site _)

or_else-keeps :
    (P : SpeechWorker → Type 0) (r rest : SpeechWorker × Option ℕ)
    → P r.0
    → P rest.0
    → P (or_else r rest).0
unfolding or_else
or_else-keeps P (w, some hr) rest p q = p
or_else-keeps P (w, none) rest p q = q

abbrev pub AllTimely : List WaitTurn → Type 0
AllTimely [] = Unit
AllTimely (t ∷ ts) = RunsTimely t × AllTimely ts

wait-TimelyReach :
    (w : SpeechWorker) (has_site : Bool) (ts : List WaitTurn)
    → AllTimely ts
    → TimelyReach w (wait_until_finished w has_site ts).0
unfolding wait_until_finished
wait-TimelyReach w has_site [] h = at_once
wait-TimelyReach w has_site (t ∷ ts) h =
    let turned = turn-TimelyReach t h.0 w has_site in
    if_keeps (λ (x : SpeechWorker × Option ℕ). TimelyReach w x.0) _ at_once
      (or_else-keeps (TimelyReach w) (wait_turn w has_site t) _ turned
        (append-TimelyReach turned (wait-TimelyReach (wait_turn w has_site t).0 has_site ts h.1)))

-- The last turn comes to a worker that it finds late.
abbrev Late : WaitTurn → SpeechWorker → Type 0
Late t w =
    IsWatched (t.during_wait w)
    × ((t.during_wait w).last_provider_progress_tick + 1500 ≤ t.now)
    × ((t.during_wait w).context.cancellation_deadline_tick ≤ t.now)

-- A turn before, and the rest of the loop without and with the last turn.
wait_step :
    (P : SpeechWorker → Type 0) (over : Bool) (w : SpeechWorker) (hr : ℕ)
    (r rest longer : SpeechWorker × Option ℕ)
    → P (if over then (w, some hr) else or_else r rest).0
    → (P rest.0 → longer.1 ≢ none)
    → (if over then (w, some hr) else or_else r longer).1 ≢ none
unfolding or_else
wait_step P true w hr r rest longer p k e = cc
wait_step P false w hr (u, some done) rest longer p k e = cc
wait_step P false w hr (u, none) rest longer p k e = k p e

last_turn :
    (over : Bool) (w : SpeechWorker) (hr : ℕ) (r rest : SpeechWorker × Option ℕ)
    → r.1 ≢ none
    → (if over then (w, some hr) else or_else r rest).1 ≢ none
unfolding or_else
last_turn true w hr r rest n e = cc
last_turn false w hr (u, some done) rest n e = cc
last_turn false w hr (u, none) rest n e = n refl

Late-wait :
    (w : SpeechWorker) (has_site : Bool) (ts : List WaitTurn) (t : WaitTurn)
    → Late t (wait_until_finished w has_site ts).0
    → (wait_until_finished w has_site (ts ++ t ∷ [])).1 ≢ none
unfolding wait_until_finished
Late-wait w has_site [] t late =
    last_turn _ w _ (wait_turn w has_site t) _ (late_turn w has_site t late.0 late.1 late.2)
Late-wait w has_site (s ∷ ts) t late =
    wait_step (Late t) _ w _ (wait_turn w has_site s)
      (wait_until_finished (wait_turn w has_site s).0 has_site ts) _ late
      (Late-wait (wait_turn w has_site s).0 has_site ts t)

AllTimely-append :
    (ts : List WaitTurn) (t : WaitTurn) → AllTimely ts → RunsTimely t → AllTimely (ts ++ t ∷ [])
AllTimely-append [] t h runs = (runs, tt)
AllTimely-append (s ∷ ts) t h runs = (h.0, AllTimely-append ts t h.1 runs)

-- `WaitUntilFinished` on a worker whose requests are watched, as they are in every worker reached by
-- steps whose deadlines do not wrap to 0, is such a schedule itself, whatever other threads run while
-- it lets go of the lock. It has returned, with a result, by the first turn that finds 1500 ms passed
-- since the provider's last progress and any cancellation deadline passed.
pub wait_returns :
    (w : SpeechWorker) (has_site : Bool) (ts : List WaitTurn) (t : WaitTurn)
    → IsWatched w
    → AllTimely ts
    → RunsTimely t
    → let v = t.during_wait (wait_until_finished w has_site ts).0 in
      v.last_provider_progress_tick + 1500 ≤ t.now
      → v.context.cancellation_deadline_tick ≤ t.now
      → TimelyReach w (wait_until_finished w has_site (ts ++ t ∷ [])).0
        × ((wait_until_finished w has_site (ts ++ t ∷ [])).1 ≢ none)
wait_returns w has_site ts t v h runs silent overdue =
    let schedule = wait-TimelyReach w has_site ts h in
    let watched = TimelyReach-IsWatched (append-TimelyReach schedule (runs.while_waiting _)) v in
    (
      wait-TimelyReach w has_site (ts ++ t ∷ []) (AllTimely-append ts t h runs),
      Late-wait w has_site ts t (watched, silent, overdue),
    )
