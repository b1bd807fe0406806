-- ===== src/Mcp.antt =====
-- packages/dreamux/src/service/mcp/leases.ts: the tokens of the MCP servers that an agent is given.
--
-- A delegate's description, copied and validated, is an argument: an error, or the names of its tools.
-- A token is drawn outside. A generation that has ended does not come back.
pub mod Leases
pub mod Authority
mod Tests
