-- ===== src/DllMain/Unloading.antt =====
-- A `DllCanUnloadNow` that succeeds.
use modern_sapi_adapter.Base.{
  ℕ, ◌≡◌, inl, inr, refl, ap, ◌∙◌, Bool, true, false, Bool-cases, Option, some, ◌!=◌, nat_eq, arith,
}
use modern_sapi_adapter.Windows.{s_ok}
use modern_sapi_adapter.DllEntry.Admission.{
  Closing, refused, drained, waiting, begin_closing, end_wait,
}
use modern_sapi_adapter.DllEntry.Leases.{World, new_world, held}
use modern_sapi_adapter.DllEntry.Closing.{closing_drains}
use modern_sapi_adapter.Logger.Sections.{
  AsyncLogger, stopped, UnloadEnd, gives_up, waits, has_stopped, begin_unload, end_unload,
}
use modern_sapi_adapter.Logger.Threads.{LoggerThreads, new_threads, Reach, here, next}
use modern_sapi_adapter.Logger.Invariant.{
  is_live, IsSound, Step-IsSound, same_threads, begin_unload-handle, end_unload-handle,
  begin_unload-Sound, end_unload-Sound, stopped_quiet, reachable-IsSound,
}
use modern_sapi_adapter.Logger.Quiescence.{stopped_delivered}
use modern_sapi_adapter.DllEntry.Leases
use modern_sapi_adapter.DllMain.{
  Dll, UnloadAnswers, drain_entries, close_entries, with_logger, has_ended, end_quiescence,
  wait_for_quiescence, begin_logger_unload_quiescence, finish_unload, unload_logger,
  dll_can_unload_now,
}

-- What a success of `DllCanUnloadNow` went through.
finish_unload-ok :
    (d : Dll) (quiet : Bool) (lock : ℕ)
    → (finish_unload d quiet lock).1 ≡ s_ok
    → (quiet ≡ true) × (lock ≡ 0) × ((finish_unload d quiet lock).0 ≡ d)
unfolding finish_unload
finish_unload-ok d quiet lock h = ground arith

unload_logger-ok :
    (d : Dll) (closed : Bool) (a : UnloadAnswers)
    → (unload_logger d closed a).1 ≡ s_ok
    → let r = begin_logger_unload_quiescence d a.during_quiescence in
      (closed ≡ true) × (r.1 ≡ true) × (a.lock_after ≡ 0) × ((unload_logger d closed a).0 ≡ r.0)
unfolding unload_logger
unload_logger-ok d false a h = absurd (omega arith)
unload_logger-ok d true a h = let (q, l, e) = finish_unload-ok _ _ a.lock_after h in (refl, q, l, e)

can_unload-ok :
    (d : Dll) (a : UnloadAnswers)
    → (dll_can_unload_now d a).1 ≡ s_ok
    → let c = close_entries d.entries a.during_drain in
      let r = begin_logger_unload_quiescence (record d { entries = c.0 }) a.during_quiescence in
      (a.lock_before ≡ 0)
      × (c.1 ≡ true)
      × (r.1 ≡ true)
      × (a.lock_after ≡ 0)
      × ((dll_can_unload_now d a).0 ≡ r.0)
unfolding dll_can_unload_now
can_unload-ok d a h = elim (Bool-cases (a.lock_before != 0)) [
  | inl locked ↦ absurd (ground (arith, locked))
  | inr free ↦
      let (c, q, l, e) =
        unload_logger-ok _ (close_entries d.entries a.during_drain).1 a (rw free at h) in
      (ground (arith, free), c, q, l, rw free e)
]

-- During a wait the other threads run steps of the logger and of the admission, in any order.
pub record RunsThreads (a : UnloadAnswers) : Type 0 where
  pub while_draining : (x : World) → Leases.Reach x (a.during_drain x)
  pub while_quiescing :
      (x : Dll) (w : LoggerThreads)
      → x.logger ≡ some w
      → (v : LoggerThreads) × ((a.during_quiescence x).logger ≡ some v) × Reach w v

Reach-IsSound : {w v : LoggerThreads} → Reach w v → IsSound w → IsSound v
Reach-IsSound here s = s
Reach-IsSound (next r st) s = Step-IsSound st (Reach-IsSound r s)

-- A logger that has stopped, and its threads.
IsQuiet : Dll → Type 0
IsQuiet d = (v : LoggerThreads) × (d.logger ≡ some v) × IsSound v × (v.logger.state ≡ stopped)

end_unload-IsSound :
    (w : LoggerThreads) → IsSound w → IsSound (record w { logger = (end_unload w.logger).0 })
end_unload-IsSound w s =
    same_threads _ w.callers s (end_unload-Sound s.sound) (end_unload-handle w.logger)

begin_unload-IsSound :
    (w : LoggerThreads) → IsSound w → IsSound (record w { logger = (begin_unload w.logger).0 })
begin_unload-IsSound w s =
    same_threads _ w.callers s (begin_unload-Sound s.sound) (begin_unload-handle w.logger)

end_unload-stopped :
    (l : AsyncLogger) → has_ended (end_unload l).1 ≡ true → (end_unload l).0.state ≡ stopped
unfolding end_unload
end_unload-stopped l h = ground arith

begin_unload-stopped :
    (l : AsyncLogger) (t : Option ℕ)
    → (begin_unload l).1 ≡ has_stopped t
    → (begin_unload l).0.state ≡ stopped
unfolding begin_unload end_unload
begin_unload-stopped l t h = ground arith

end_quiescence-IsQuiet :
    (d : Dll) (w : LoggerThreads)
    → d.logger ≡ some w
    → IsSound w
    → (end_quiescence d).1 ≡ true
    → IsQuiet (end_quiescence d).0
unfolding end_quiescence IsQuiet
end_quiescence-IsQuiet d w e s h = (
  record w { logger = (end_unload w.logger).0 },
  ground (arith, e),
  end_unload-IsSound w s,
  ground (arith, end_unload-stopped w.logger),
)

wait-IsQuiet :
    (d : Dll) (w : LoggerThreads) (how : UnloadEnd) (a : UnloadAnswers)
    → RunsThreads a
    → d.logger ≡ some w
    → IsSound w
    → ((t : Option ℕ) → how ≡ has_stopped t → w.logger.state ≡ stopped)
    → (wait_for_quiescence d how a.during_quiescence).1 ≡ true
    → IsQuiet (wait_for_quiescence d how a.during_quiescence).0
unfolding wait_for_quiescence IsQuiet
wait-IsQuiet d w gives_up a runs e s q h = cc
wait-IsQuiet d w (has_stopped t) a runs e s q h = (w, e, s, q t refl)
wait-IsQuiet d w waits a runs e s q h =
    let (v, held_v, schedule) = runs.while_quiescing d w e in
    end_quiescence-IsQuiet (a.during_quiescence d) v held_v (Reach-IsSound schedule s) h

-- How `BeginUnloadQuiescence` succeeds.
begin_quiescence-IsQuiet :
    (d : Dll) (w : LoggerThreads) (a : UnloadAnswers)
    → RunsThreads a
    → d.logger ≡ some w
    → IsSound w
    → (begin_logger_unload_quiescence d a.during_quiescence).1 ≡ true
    → IsQuiet (begin_logger_unload_quiescence d a.during_quiescence).0
unfolding begin_logger_unload_quiescence
begin_quiescence-IsQuiet d w a runs e s h = rw e (
    wait-IsQuiet (with_logger d w (begin_unload w.logger).0)
      (record w { logger = (begin_unload w.logger).0 }) (begin_unload w.logger).1 a runs refl
      (begin_unload-IsSound w s) (begin_unload-stopped w.logger) (rw e at h))

append-Reach : {x y z : World} → Leases.Reach x y → Leases.Reach y z → Leases.Reach x z
append-Reach r Leases.here = r
append-Reach r (Leases.next q st) = Leases.next (append-Reach r q) st

end_wait-drained :
    (x : World) → Leases.Reach new_world x → (end_wait x.admission).1 ≡ true → held x.leases ≡ 0
end_wait-drained x r h = elim (closing_drains r).1 [
  | inl e ↦ absurd (ground arith)
  | inr (e, o) ↦ e
]

begin_closing-drained :
    (x : World)
    → Leases.Reach new_world x
    → (begin_closing x.admission).1 ≡ drained
    → held x.leases ≡ 0
begin_closing-drained x r h = elim (closing_drains r).0 [ inl n ↦ absurd (n h) | inr (e, o) ↦ e ]

drain_entries-drained :
    (x : World) (how : Closing) (a : UnloadAnswers)
    → RunsThreads a
    → Leases.Reach new_world x
    → (how ≡ drained → held x.leases ≡ 0)
    → (drain_entries x how a.during_drain).1 ≡ true
    → held (drain_entries x how a.during_drain).0.leases ≡ 0
unfolding drain_entries
drain_entries-drained x refused a runs r q h = cc
drain_entries-drained x drained a runs r q h = q refl
drain_entries-drained x waiting a runs r q h =
    end_wait-drained (a.during_drain x) (append-Reach r (runs.while_draining x)) h

close_entries-drained :
    (x : World) (a : UnloadAnswers)
    → RunsThreads a
    → Leases.Reach new_world x
    → (close_entries x a.during_drain).1 ≡ true
    → held (close_entries x a.during_drain).0.leases ≡ 0
unfolding close_entries
close_entries-drained x a runs r h =
    drain_entries-drained (record x { admission = (begin_closing x.admission).0 })
      (begin_closing x.admission).1 a runs (Leases.next r (Leases.closes refl))
      (begin_closing-drained x r) h

-- After a success no lease held the DLL when its entries had drained; the module lock was free both
-- times; and if there is a logger, it has stopped: every message that was ever accepted has been
-- delivered, once and in order, its file is closed, and no worker thread is live. Other threads may
-- do anything during the two waits.
pub unload_ok :
    (d : Dll) (w : LoggerThreads) (a : UnloadAnswers)
    → RunsThreads a
    → Leases.Reach new_world d.entries
    → d.logger ≡ some w
    → Reach new_threads w
    → (dll_can_unload_now d a).1 ≡ s_ok
    → (a.lock_before ≡ 0)
      × (a.lock_after ≡ 0)
      × (held (close_entries d.entries a.during_drain).0.leases ≡ 0)
      × (v : LoggerThreads) × ((dll_can_unload_now d a).0.logger ≡ some v)
      × (v.delivered ≡ v.accepted)
      × (v.logger.file_open ≡ false)
      × ((t : ℕ) → is_live (v.workers t) ≡ false)
unfolding IsQuiet
unload_ok d w a runs r e reach h =
    let (before, closed, quiet, after, same) = can_unload-ok d a h in
    let (v, held_v, s, stop) =
      begin_quiescence-IsQuiet (record d { entries = (close_entries d.entries a.during_drain).0 }) w
        a runs e (reachable-IsSound reach) quiet in
    let (all, shut) = stopped_delivered v.logger _ v.accepted v.delivered s.sound stop in
    (
      before,
      after,
      close_entries-drained d.entries a runs r closed,
      v,
      ap (λ (x : Dll). x.logger) same ∙ held_v,
      all,
      shut,
      stopped_quiet s stop,
    )
