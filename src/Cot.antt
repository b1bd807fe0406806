-- ===== src/Cot.antt =====
-- packages/channel/feishu-channel/src/cot: the byte budgets of a chain-of-thought card (bytes.ts) and
-- its outbox (CotOutbox of recipients.ts).
--
-- What a character, a content or an event costs in bytes is a parameter, since JSON.stringify and
-- Buffer.byteLength are the platform's. A text is the list of its code points, which are what the
-- source's loops visit; its cost is the sum of theirs.
pub mod Bytes
pub mod Group
pub mod Outbox
pub mod Fitting
pub mod Splitting
pub mod Grouping
pub mod Buffering
mod Tests
