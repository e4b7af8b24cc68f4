-- ===== src/DllEntry/Counting.antt =====
-- The entry count is the number of leases that hold the DLL.
use mathlib.Core.Option.{some-injective}
use modern_sapi_adapter.Base.{
  ℕ, zero, suc, ◌+◌, ◌^◌, ◌≤◌, ◌<◌, ◌≡◌, ◌≢◌, refl, ap, ◌∙◌, true, false, List, [], ◌∷◌, some,
  nat_eq, add64, length, arith,
}
use modern_sapi_adapter.DllEntry.Admission.{
  DllEntryAdmission, EntryLease, new_admission, let_go, release, enter, try_enter, reopen,
  enter_or_reopen, begin_closing, end_wait,
}
use modern_sapi_adapter.DllEntry.Leases.{
  World, new_world, lease_at, set, remove, weight, held, Step, enters, is_refused,
  reopens_and_enters, move_constructs, move_assigns, assigns_itself, destroys, closes, ends_wait,
  reopens, Reach, here, next, IsCounted,
}

held-le : (ls : List EntryLease) → held ls ≤ length ls
unfolding held
held-le [] = omega arith
held-le (true ∷ ls) = omega (arith, held-le ls)
held-le (false ∷ ls) = omega (arith, held-le ls)

held-set :
    (i : ℕ) (x l : EntryLease) (ls : List EntryLease)
    → lease_at i ls ≡ some l
    → held (set i x ls) + weight l ≡ held ls + weight x
unfolding held set lease_at
held-set i x l [] e = ground arith
held-set zero x l (y ∷ ls) e = omega (arith, ap weight (some-injective y l e))
held-set (suc i) x l (y ∷ ls) e = omega (arith, held-set i x l ls e)

length-set : (i : ℕ) (x : EntryLease) (ls : List EntryLease) → length (set i x ls) ≡ length ls
unfolding set
length-set i x [] = refl
length-set zero x (l ∷ ls) = refl
length-set (suc i) x (l ∷ ls) = ap suc (length-set i x ls)

held-remove :
    (i : ℕ) (l : EntryLease) (ls : List EntryLease)
    → lease_at i ls ≡ some l
    → (held (remove i ls) + weight l ≡ held ls) × (length (remove i ls) ≤ length ls)
unfolding held remove lease_at
held-remove i l [] e = ground arith
held-remove zero l (y ∷ ls) e = (omega (arith, ap weight (some-injective y l e)), omega arith)
held-remove (suc i) l (y ∷ ls) e =
    let (h, k) = held-remove i l ls e in (omega (arith, h), omega (arith, k))

lease_at-set :
    (i j : ℕ) (x : EntryLease) (ls : List EntryLease)
    → i ≢ j
    → lease_at j (set i x ls) ≡ lease_at j ls
unfolding set lease_at
lease_at-set i j x [] n = refl
lease_at-set zero zero x (l ∷ ls) n = absurd (n refl)
lease_at-set zero (suc j) x (l ∷ ls) n = refl
lease_at-set (suc i) zero x (l ∷ ls) n = refl
lease_at-set (suc i) (suc j) x (l ∷ ls) n = lease_at-set i j x ls (λ e. n (ap suc e))

-- What letting a lease go does to the counter.
let_go-count :
    (a : DllEntryAdmission) (l : EntryLease)
    → weight l ≤ a.entry_count
    → a.entry_count < 2 ^ 64
    → (let_go a l).entry_count + weight l ≡ a.entry_count
unfolding let_go release
let_go-count a true h k = omega arith
let_go-count a false h k = omega arith

enter-IsCounted :
    (a : DllEntryAdmission) (l : EntryLease) (ls : List EntryLease)
    → l ≡ true
    → IsCounted (record { admission = a; leases = ls })
    → suc (length ls) < 2 ^ 64
    → IsCounted (record { admission = enter a; leases = l ∷ ls })
unfolding enter held
enter-IsCounted a l ls e c h = record {
  counted = rw e (
      let sum : add64 a.entry_count 1 ≡ suc a.entry_count = omega (arith, c.counted, held-le ls) in
      omega (arith, sum, c.counted));
  few = h;
}

reopen-IsCounted :
    (a : DllEntryAdmission) (ls : List EntryLease)
    → IsCounted (record { admission = a; leases = ls })
    → IsCounted (record { admission = reopen a; leases = ls })
unfolding reopen
reopen-IsCounted a ls c = record { counted = ground (arith, c.counted); few = c.few }

same-IsCounted :
    (w : World) (a : DllEntryAdmission)
    → a.entry_count ≡ w.admission.entry_count
    → IsCounted w
    → IsCounted (record w { admission = a })
same-IsCounted w a e c = record { counted = e ∙ c.counted; few = c.few }

begin_closing-count : (a : DllEntryAdmission) → (begin_closing a).0.entry_count ≡ a.entry_count
unfolding begin_closing
begin_closing-count a = ground arith

end_wait-count : (a : DllEntryAdmission) → (end_wait a).0.entry_count ≡ a.entry_count
unfolding end_wait
end_wait-count a = ground arith

-- An entry that is admitted.
try_enter-some :
    (a : DllEntryAdmission) (l : EntryLease)
    → (try_enter a).1 ≡ some l
    → ((try_enter a).0 ≡ enter a) × (l ≡ true)
unfolding try_enter
try_enter-some a l e = ground arith

construct-IsCounted :
    (w : World) (i : ℕ) (l : EntryLease)
    → suc (length w.leases) < 2 ^ 64
    → lease_at i w.leases ≡ some l
    → IsCounted w
    → IsCounted (record w { leases = l ∷ set i false w.leases })
unfolding held
construct-IsCounted w i l h e c = record {
  counted = omega (arith, c.counted, held-set i false l w.leases e);
  few = omega (arith, length-set i false w.leases);
}

destroy-IsCounted :
    (w : World) (i : ℕ) (l : EntryLease)
    → lease_at i w.leases ≡ some l
    → IsCounted w
    → IsCounted (record { admission = let_go w.admission l; leases = remove i w.leases })
destroy-IsCounted w i l e c =
    let (h, k) = held-remove i l w.leases e in
    let room : w.admission.entry_count < 2 ^ 64 =
      omega (arith, held-le w.leases, c.few, c.counted) in
    record {
      counted =
          omega
            (arith, c.counted, h, let_go-count w.admission l (omega (arith, h, c.counted)) room);
      few = omega (arith, k, c.few);
    }

assign-IsCounted :
    (w : World) (i j : ℕ) (l other : EntryLease)
    → i ≢ j
    → lease_at i w.leases ≡ some l
    → lease_at j w.leases ≡ some other
    → IsCounted w
    → IsCounted
        (record { admission = let_go w.admission l; leases = set j false (set i other w.leases) })
assign-IsCounted w i j l other n e f c =
    let first = held-set i other l w.leases e in
    let second =
      held-set j false other (set i other w.leases) (lease_at-set i j other w.leases n ∙ f) in
    let room : w.admission.entry_count < 2 ^ 64 =
      omega (arith, held-le w.leases, c.few, c.counted) in
    record {
      counted = omega (
        arith,
        c.counted,
        first,
        second,
        let_go-count w.admission l (omega (arith, (held-remove i l w.leases e).0, c.counted)) room,
      );
      few =
          omega
            (arith, c.few, length-set j false (set i other w.leases), length-set i other w.leases);
    }

Step-IsCounted : {w w' : World} → Step w w' → IsCounted w → IsCounted w'
unfolding enter_or_reopen enter
Step-IsCounted {w} (enters l h t e) c =
    let (same, held_true) = try_enter-some w.admission l t in
    rw (e, same) (enter-IsCounted w.admission l w.leases held_true c h)
Step-IsCounted {w} (is_refused t e) c = rw e c
Step-IsCounted {w} (reopens_and_enters h e) c = rw e (
    enter-IsCounted (reopen w.admission) true w.leases refl
      (reopen-IsCounted w.admission w.leases c) h)
Step-IsCounted {w} (move_constructs i l h t e) c = rw e (construct-IsCounted w i l h t c)
Step-IsCounted {w} (move_assigns i j l other n t u e) c =
    rw e (assign-IsCounted w i j l other n t u c)
Step-IsCounted {w} (assigns_itself e) c = rw e c
Step-IsCounted {w} (destroys i l t e) c = rw e (destroy-IsCounted w i l t c)
Step-IsCounted {w} (closes e) c =
    rw e (same-IsCounted w (begin_closing w.admission).0 (begin_closing-count w.admission) c)
Step-IsCounted {w} (ends_wait e) c =
    rw e (same-IsCounted w (end_wait w.admission).0 (end_wait-count w.admission) c)
Step-IsCounted {w} (reopens e) c = rw e (reopen-IsCounted w.admission w.leases c)

-- In every schedule of the operations, the entry count is the number of leases that hold the DLL:
-- none is released twice or lost by a move, an assignment or a destructor.
pub reachable-IsCounted : {w : World} → Reach new_world w → IsCounted w
unfolding new_admission held
reachable-IsCounted here = record { counted = refl; few = omega arith }
reachable-IsCounted (next r s) = Step-IsCounted s (reachable-IsCounted r)
