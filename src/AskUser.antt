-- ===== src/AskUser.antt =====
-- packages/channel/feishu-channel/src/ask-user/registry.ts: the open rounds of questions, and what a
-- click or the clock does to one.
--
-- A card is what it is built from, a text the parts of its lines. Parameters and inputs: the drawn
-- request id, String.prototype.trim, and a click's fields as `asIndex` and `String` read them.
pub mod Round
pub mod Registry
pub mod Events
pub mod Settlement
pub mod Choice
mod Tests
