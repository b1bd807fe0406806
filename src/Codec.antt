-- ===== src/Codec.antt =====
-- packages/agent-runtime/codex/src/output-schema-codec.ts: the output schema that Codex is given, and the
-- way back from its answer.
--
-- The text of a JSON value and the order of texts are parameters. An error is its reason, without the
-- place in the schema. A number is a code for its double.
pub mod Json
pub mod Schema
pub mod Level
pub mod Compile
pub mod Restore
pub mod Conformance
pub mod Typing
pub mod Levels
pub mod Leaves
pub mod Containers
pub mod Objects
pub mod Properties
pub mod Names
pub mod ObjectSchema
pub mod Roundtrip
pub mod Reading
pub mod Deep
mod Tests
