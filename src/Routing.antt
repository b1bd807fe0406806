-- ===== src/Routing.antt =====
-- packages/channel/feishu-channel/src/routing: where a Feishu message goes, and the document that
-- decides it.
--
-- An operation is a function from the committed document to the next one, or a refusal; its clock
-- is an argument. A target and the record it is stored as have the same fields, so one type stands
-- for both. The hash that names a space is a parameter.
pub mod Target
pub mod Document
pub mod Plan
pub mod Bindings
pub mod Policy
pub mod Rows
pub mod Invariant
pub mod History
pub mod Effects
pub mod Forgetting
mod Tests
