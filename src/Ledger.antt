-- ===== src/Ledger.antt =====
-- packages/dreamux/src/service/agent/admission.ts: the process-local ledger that refuses to admit
-- one source twice, and the mappings of its decisions.
--
-- The text that JSON.stringify makes of a key's components is a parameter. A promise is a task
-- number; the map of pending tasks and the committed keys are lists in insertion order.
pub mod Admission
pub mod Results
pub mod Invariant
pub mod Reach
pub mod Window
mod Tests
