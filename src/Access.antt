-- ===== src/Access.antt =====
-- packages/channel/feishu-channel/src/access: the access state, the gate's decision and the
-- changes that FeishuAccess commits.
--
-- Time is an argument of each operation and the random tokens are a stream. Log entries and the
-- `context` of a drop are left out.
pub mod State
pub mod Gate
pub mod Commit
pub mod Decision
pub mod Slots
pub mod History
pub mod Cap
pub mod Concurrent
pub mod Admission
mod Tests
