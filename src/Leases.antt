-- ===== src/Leases.antt =====
-- packages/dreamux/src/service/agent/runtime-state.ts: the write authority of one runtime generation.
--
-- The store's own tail is modelled with it: a change waits, its callback runs and its write begins, the
-- write ends, and the publisher's continuation runs. Of an identity the model has the fields that
-- a published fact can change.
pub mod State
pub mod Fence
pub mod Receipt
mod Tests
