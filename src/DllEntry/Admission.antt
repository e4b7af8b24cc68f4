-- ===== src/DllEntry/Admission.antt =====
-- `DllEntryAdmission` and its `EntryLease`, operation by operation. Each is one critical section of
-- `m_mutex`, but for `BeginClosingAndWaitForEntries`, whose wait lies between two.
use modern_sapi_adapter.Base.{
  ℕ, suc, Bool, true, false, Option, none, some, if◌then◌else◌, ◌==◌, nat_eq, add64, sub64,
}

pub data State : Type 0 where
  is_open is_closing : State

-- `notifications` counts the calls of `m_cv.notify_all`.
pub record DllEntryAdmission : Type 0 where
  pub state : State
  pub entry_count : ℕ
  pub notifications : ℕ

unfoldable pub new_admission : DllEntryAdmission
new_admission = record { state = is_open; entry_count = 0; notifications = 0 }

-- A lease: whether its pointer is not null.
abbrev pub EntryLease : Type 0
EntryLease = Bool

unfoldable pub release : DllEntryAdmission → DllEntryAdmission
release a =
    let n = sub64 a.entry_count 1 in
    record a {
      entry_count = n;
      notifications = if n == 0 then suc a.notifications else a.notifications;
    }

-- The destructor of a lease, and the release of the old target of a move assignment.
unfoldable pub let_go : DllEntryAdmission → EntryLease → DllEntryAdmission
let_go a true = release a
let_go a false = a

unfoldable pub enter : DllEntryAdmission → DllEntryAdmission
enter a = record a { entry_count = add64 a.entry_count 1 }

unfoldable pub try_enter : DllEntryAdmission → DllEntryAdmission × Option EntryLease
unfolding enter
try_enter a = elim a.state [ is_open ↦ (enter a, some true) | is_closing ↦ (a, none) ]

unfoldable pub reopen : DllEntryAdmission → DllEntryAdmission
reopen a = elim a.state [
  | is_open ↦ a
  | is_closing ↦ record a { state = is_open; notifications = suc a.notifications }
]

-- `EnterOrReopen`; the flag is `wasReopened`.
unfoldable pub enter_or_reopen : DllEntryAdmission → DllEntryAdmission × EntryLease × Bool
unfolding enter reopen
enter_or_reopen a = (enter (reopen a), true, elim a.state [ is_open ↦ false | is_closing ↦ true ])

-- How the first critical section of `BeginClosingAndWaitForEntries` ends.
pub data Closing : Type 0 where
  refused drained waiting : Closing

unfoldable pub begin_closing : DllEntryAdmission → DllEntryAdmission × Closing
begin_closing a = elim a.state [
  | is_closing ↦ (a, refused)
  | is_open ↦ (record a { state = is_closing }, if a.entry_count == 0 then drained else waiting)
]

-- The second: the wait has ended, by a notification or by its time limit, and the result is that of
-- its predicate.
unfoldable pub end_wait : DllEntryAdmission → DllEntryAdmission × Bool
end_wait a =
    if a.entry_count == 0
    then (a, true)
    else (record a { state = is_open; notifications = suc a.notifications }, false)
