-- ===== src/DllEntry/Leases.antt =====
-- The leases that callers hold, and every schedule of the operations on them.
use modern_sapi_adapter.Base.{
  ℕ, zero, suc, ◌+◌, ◌^◌, ◌<◌, ◌≡◌, ◌≢◌, true, false, List, [], ◌∷◌, Option, none, some, nat_eq,
  length,
}
use modern_sapi_adapter.DllEntry.Admission.{
  DllEntryAdmission, EntryLease, new_admission, let_go, try_enter, reopen, enter_or_reopen,
  begin_closing, end_wait,
}

pub record World : Type 0 where
  pub admission : DllEntryAdmission
  pub leases : List EntryLease

abbrev pub new_world : World
new_world = record { admission = new_admission; leases = [] }

-- The lease at a place, its change, and its end.
unfoldable pub lease_at : ℕ → List EntryLease → Option EntryLease
lease_at i [] = none
lease_at zero (l ∷ ls) = some l
lease_at (suc i) (l ∷ ls) = lease_at i ls

unfoldable pub set : ℕ → EntryLease → List EntryLease → List EntryLease
set i x [] = []
set zero x (l ∷ ls) = x ∷ ls
set (suc i) x (l ∷ ls) = l ∷ set i x ls

unfoldable pub remove : ℕ → List EntryLease → List EntryLease
remove i [] = []
remove zero (l ∷ ls) = ls
remove (suc i) (l ∷ ls) = l ∷ remove i ls

abbrev pub weight : EntryLease → ℕ
weight true = 1
weight false = 0

-- The leases that hold the DLL.
unfoldable pub held : List EntryLease → ℕ
held [] = 0
held (l ∷ ls) = weight l + held ls

-- One operation of some thread. A lease is a live object, so there are fewer than 2 ^ 64 of them.
pub data Step (w w' : World) : Type 0 where
  enters :
      (l : EntryLease)
      → suc (length w.leases) < 2 ^ 64
      → (try_enter w.admission).1 ≡ some l
      → w' ≡ record { admission = (try_enter w.admission).0; leases = l ∷ w.leases }
      → Step w w'
  is_refused : (try_enter w.admission).1 ≡ none → w' ≡ w → Step w w'
  reopens_and_enters :
      suc (length w.leases) < 2 ^ 64
      → w' ≡ record {
        admission = (enter_or_reopen w.admission).0;
        leases = (enter_or_reopen w.admission).1 ∷ w.leases;
      }
      → Step w w'
  move_constructs :
      (i : ℕ) (l : EntryLease)
      → suc (length w.leases) < 2 ^ 64
      → lease_at i w.leases ≡ some l
      → w' ≡ record w { leases = l ∷ set i false w.leases }
      → Step w w'
  move_assigns :
      (i j : ℕ) (l other : EntryLease)
      → i ≢ j
      → lease_at i w.leases ≡ some l
      → lease_at j w.leases ≡ some other
      → w'
        ≡ record { admission = let_go w.admission l; leases = set j false (set i other w.leases) }
      → Step w w'
  assigns_itself : w' ≡ w → Step w w'
  destroys :
      (i : ℕ) (l : EntryLease)
      → lease_at i w.leases ≡ some l
      → w' ≡ record { admission = let_go w.admission l; leases = remove i w.leases }
      → Step w w'
  closes : w' ≡ record w { admission = (begin_closing w.admission).0 } → Step w w'
  ends_wait : w' ≡ record w { admission = (end_wait w.admission).0 } → Step w w'
  reopens : w' ≡ record w { admission = reopen w.admission } → Step w w'

pub data Reach (w : World) : World → Type 0 where
  here : Reach w w
  next : {u v : World} → Reach w u → Step u v → Reach w v

-- The counter is the number of leases that hold.
pub record IsCounted (w : World) : Type 0 where
  pub counted : w.admission.entry_count ≡ held w.leases
  pub few : length w.leases < 2 ^ 64
