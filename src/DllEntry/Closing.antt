-- ===== src/DllEntry/Closing.antt =====
-- What `BeginClosingAndWaitForEntries` promises the caller that unloads the DLL.
use modern_sapi_adapter.Base.{
  ℕ, zero, suc, ◌+◌, ◌^◌, ◌<◌, ◌≡◌, ◌≢◌, ◌⊎◌, refl, true, false, none, some, nat_eq, arith,
}
use modern_sapi_adapter.DllEntry.Admission.{
  DllEntryAdmission, State, drained, release, enter, try_enter, reopen, enter_or_reopen,
  begin_closing, end_wait,
}
use modern_sapi_adapter.DllEntry.Leases.{World, new_world, held, Reach}
use modern_sapi_adapter.DllEntry.Counting.{reachable-IsCounted}

-- In every schedule, a close that finds no entry leaves no lease that holds the DLL and admits no
-- entry any more; a wait that ends with success leaves no such lease either, and admits no entry
-- unless another thread has opened the admission in the meantime.
pub closing_drains :
    {w : World}
    → Reach new_world w
    → (((begin_closing w.admission).1 ≢ drained)
        ⊎ ((held w.leases ≡ 0) × ((try_enter (begin_closing w.admission).0).1 ≡ none)))
      × (((end_wait w.admission).1 ≡ false)
          ⊎ ((held w.leases ≡ 0)
              × ((w.admission.state ≡ State.is_open)
                  ⊎ ((try_enter (end_wait w.admission).0).1 ≡ none))))
unfolding begin_closing end_wait try_enter
closing_drains {w} r =
    let c = (reachable-IsCounted r).counted in (ground (arith, c), ground (arith, c))

-- A wait that ends with entries left opens the admission again, and notifies.
pub wait_gives_up :
    (a : DllEntryAdmission)
    → a.entry_count ≢ 0
    → ((end_wait a).1 ≡ false)
      × ((try_enter (end_wait a).0).1 ≡ some true)
      × (a.notifications < (end_wait a).0.notifications)
unfolding end_wait try_enter
wait_gives_up a n = (ground arith, ground arith, ground arith)

-- The last `n` entries leave.
unfoldable pub releases : ℕ → DllEntryAdmission → DllEntryAdmission
releases zero a = a
releases (suc n) a = releases n (release a)

releases_all :
    (n : ℕ) (a : DllEntryAdmission)
    → a.entry_count ≡ n
    → n < 2 ^ 64
    → ((releases n a).entry_count ≡ 0) × ((releases n a).state ≡ a.state)
unfolding releases release
releases_all zero a e h = (e, refl)
releases_all (suc n) a e h = releases_all n (release a) (omega arith) (omega arith)

-- When another thread enters and thereby reopens the admission during the wait of a close, the wait
-- succeeds when the last entry leaves, and yet leaves the admission open: the next entry is
-- admitted. The count of entries must not wrap.
pub reopened_wait_succeeds :
    (a : DllEntryAdmission) (n : ℕ)
    → a.state ≡ State.is_closing
    → a.entry_count ≡ n
    → n + 1 < 2 ^ 64
    → let a' = releases (suc n) (enter_or_reopen a).0 in
      ((end_wait a').1 ≡ true) × ((try_enter (end_wait a').0).1 ≡ some true)
unfolding enter_or_reopen enter reopen end_wait try_enter
reopened_wait_succeeds a n s e h =
    let entered : DllEntryAdmission = (enter_or_reopen a).0 in
    let one_more : entered.entry_count ≡ suc n = ground (arith, s, e) in
    let opened : entered.state ≡ State.is_open = ground (arith, s) in
    let (none_left, kept) = releases_all (suc n) entered one_more (omega arith) in
    (ground (arith, none_left), ground (arith, none_left, kept, opened))
