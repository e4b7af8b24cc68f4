-- ===== src/Worker.antt =====
-- CoreEngine/SpeechWorker.h and .cpp: one provider session's request state, its critical sections,
-- and the threads that run them.
pub mod State
pub mod Audio
pub mod Control
pub mod Cancel
pub mod Fault
pub mod Boundary
pub mod Steps
pub mod Invariant
pub mod Machine
pub mod Quarantine
pub mod Loop
pub mod Progress
pub mod Turns
pub mod Completion
pub mod Declaration
pub mod Whole
pub mod Stale
pub mod Alignment
pub mod Admission
pub mod Deadline
pub mod Draining
pub mod Watch
pub mod Waiting
pub mod WaitEnds
pub mod Threads
pub mod ThreadRuns
pub mod Examples
