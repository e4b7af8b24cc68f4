-- ===== src/DllEntry.antt =====
-- The admission of calls into the DLL while it may be unloaded:
-- CoreEngine/DllEntryAdmission.h and .cpp.
pub mod Admission
pub mod Leases
pub mod Counting
pub mod Closing
pub mod Examples
