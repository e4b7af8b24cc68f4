-- ===== src/Logger/Invariant.antt =====
-- What holds of a logger and its threads under every schedule: Defs says what it is, Sections that
-- each critical section and each step of the worker keeps it.
mod Defs
mod Sections
mod Schedules
pub use Defs.*
pub use Schedules.*
pub use Sections.{begin_unload-Sound, end_unload-Sound}
