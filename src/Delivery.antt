-- ===== src/Delivery.antt =====
-- packages/dreamux/src/service/completion-router/index.ts: how a completion reaches its recipient.
--
-- A recipient and a provider token are texts that identify the objects; what a recipient's
-- prepareCompletion and submit do is a parameter. Log lines are the ending that a delivery reports.
pub mod Policy
pub mod Retry
pub mod Agents
pub mod Router
pub mod Tails
pub mod Taking
pub mod Chained
pub mod News
pub mod Requests
pub mod Order
pub mod Drain
mod Tests
