-- ===== src/Codec/Tests.antt =====
-- A schema with an optional property. (codex/src/output-schema-codec.ts)
use dreamux.Base.{◌≡◌, ◌≢◌, refl, String, String-discrete, true, false, leb}
use dreamux.Base.Result.{returned, thrown}
use dreamux.Codec.Json.{
  JsonValue, null, boolean, text, array, object, nil, item, Fields, end, field, get, put, drop,
  keys, texts, items_of, depth,
}
use dreamux.Codec.Schema.{
  too_deep, Platform, supported, schema_type, primitives, are_unique, sort_by, canonical_enum,
  all_fit,
}
use dreamux.Codec.Level.{read_level, wire_level}
use dreamux.Codec.Compile.{
  value_plan, object_plan, planned, unplanned, CompiledSchema, compile_schema,
  compile_codex_output_schema,
}
use dreamux.Codec.Restore.{restore_value}
use dreamux.Codec.Leaves.{Restores}
use dreamux.Codec.Roundtrip.{restore_conforms}
use dreamux.Codec.Deep.{compile_terminates}
use dreamux.Codec.Conformance.{conforms}

program : Unit {0}
unfolding String-discrete get put drop keys texts items_of depth supported schema_type primitives
    are_unique sort_by canonical_enum all_fit read_level wire_level compile_schema
    compile_codex_output_schema restore_value conforms
program = tt

-- Texts in the order written; every number is an integer.
abbrev plain : Platform
plain = record {
  is_integer = λ n. true;
  at_most = leb;
  canonical_json = λ v. elim v [ text t ↦ t | _ ↦ "" ];
  locale_before = λ a b. false;
  code_unit_before = λ a b. false;
}

abbrev plain_type : String → JsonValue
plain_type t = object (field "type" (text t) end)

abbrev report_schema : Fields
report_schema = field "type" (text "object") (
    field "properties"
      (object (field "summary" (plain_type "string") (field "count" (plain_type "integer") end)))
      (field "required" (array (item (text "summary") nil))
        (field "additionalProperties" (boolean false) end)))

abbrev report_wire : Fields
report_wire = field "type" (text "object") (
    field "properties"
      (object (
        field "summary" (plain_type "string") (
          field "count"
            (object (field "type" (array (item (text "integer") (item (text "null") nil))) end))
            end)))
      (field "required" (array (item (text "summary") (item (text "count") nil)))
        (field "additionalProperties" (boolean false) end)))

abbrev report_compiled : CompiledSchema
report_compiled = record {
  wire_schema = report_wire;
  plan =
      object_plan false
        (planned "summary" false value_plan (planned "count" true value_plan unplanned));
  accepts_null = false;
}

compile_report : compile_codex_output_schema plain report_schema ≡ returned report_compiled
unfolding program
compile_report = refl

-- The answer without a count.
abbrev report_answer : JsonValue
report_answer = object (field "summary" (text "ok") (field "count" null end))

answer_conforms : conforms plain report_answer (object report_wire) ≡ true
unfolding program
answer_conforms = refl

restore_report :
    restore_value report_compiled.plan report_answer
    ≡ returned (object (field "summary" (text "ok") end))
unfolding program
restore_report = refl

restore_conforms_example : Restores plain (object report_schema) report_compiled.plan report_answer
unfolding program
restore_conforms_example =
    restore_conforms plain report_schema report_compiled report_answer refl refl

compile_terminates_example : compile_codex_output_schema plain report_schema ≢ thrown too_deep
compile_terminates_example = compile_terminates plain report_schema
