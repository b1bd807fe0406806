-- ===== src/Codec/Roundtrip.antt =====
-- Restored answers conform to the schema that was asked for. (output-schema-codec.ts)
use dreamux.Base.{
  ℕ, zero, suc, ◌≡◌, refl, sym, ap, ◌∙◌, Bool, true, false, ◌&&◌, Option, none, some, inl, inr,
  arith,
}
use dreamux.Base.Result.{returned, Result-cases}
use dreamux.Codec.Json.{JsonValue, null, object, Fields, end, is_null, depth}
use dreamux.Codec.Schema.{
  SupportedType, object_type, array_type, string_type, number_type, integer_type, boolean_type,
  null_type, Platform, as_schema,
}
use dreamux.Codec.Level.{keywords, Level, read_level, wire_level}
use dreamux.Codec.Compile.{
  CompiledSchema, Below, value_plan, compile_object, compile_array, compile_number, compile_plain,
  compile_level, compile_schema, compile_codex_output_schema,
}
use dreamux.Codec.Conformance.{conforms}
use dreamux.Codec.Levels.{IsLevel, read_level-IsLevel}
use dreamux.Codec.Leaves.{Restores, common_keywords, compile_plain_back, compile_number_back}
use dreamux.Codec.Containers.{IsSound, compile_array_back}
use dreamux.Codec.Properties.{IsExclusive}
use dreamux.Codec.ObjectSchema.{compile_object_back, as_schema_lem}

plain_back :
    (p : Platform) (schema : Fields) (optional : Bool) (level : Level) (c : CompiledSchema)
    (v : JsonValue)
    → IsLevel p schema optional level
    → keywords level.level_type ≡ common_keywords
    → compile_plain level ≡ returned c
    → (optional && is_null v) ≡ false
    → conforms p v (object c.wire_schema) ≡ true
    → Restores p (object schema) c.plan v
unfolding compile_plain
plain_back p schema optional level c v l plain h present holds =
    let wired : wire_level level end ≡ c.wire_schema = ground arith in
    let planned : value_plan ≡ c.plan = ground arith in
    rw⁻¹ planned (
      compile_plain_back p schema optional level v l plain present
        (ap (λ s. conforms p v (object s)) wired ∙ holds))

compile_level_back :
    (p : Platform) (below : Below) (type : SupportedType) (schema : Fields) (optional : Bool)
    (level : Level)
    → (c : CompiledSchema) (v : JsonValue) → IsSound p below
    → IsExclusive below
    → IsLevel p schema optional level
    → level.level_type ≡ type
    → compile_level p below type schema level ≡ returned c
    → (optional && is_null v) ≡ false
    → conforms p v (object c.wire_schema) ≡ true
    → Restores p (object schema) c.plan v
unfolding compile_level compile_plain
compile_level_back p below object_type schema optional level c v sound exclusive l t h present
      holds =
    compile_object_back p below schema optional level c v sound exclusive l t h present holds
compile_level_back p below array_type schema optional level c v sound exclusive l t h present
      holds =
    compile_array_back p below schema optional level c v sound l t h present holds
compile_level_back p below number_type schema optional level c v sound exclusive l t h present
      holds =
    compile_number_back p schema optional level c v l (rw t refl) h present holds
compile_level_back p below integer_type schema optional level c v sound exclusive l t h present
      holds =
    compile_number_back p schema optional level c v l (rw t refl) h present holds
compile_level_back p below string_type schema optional level c v sound exclusive l t h present
      holds =
    plain_back p schema optional level c v l (rw t refl) h present holds
compile_level_back p below boolean_type schema optional level c v sound exclusive l t h present
      holds =
    plain_back p schema optional level c v l (rw t refl) h present holds
compile_level_back p below null_type schema optional level c v sound exclusive l t h present holds =
    plain_back p schema optional level c v l (rw t refl) h present holds

abbrev or_null : Option JsonValue → JsonValue
or_null none = null
or_null (some v) = v

compile_level-accepts_null :
    (p : Platform) (below : Below) (type : SupportedType) (schema : Fields) (level : Level)
    → (c : CompiledSchema) → compile_level p below type schema level ≡ returned c
    → c.accepts_null ≡ level.level_accepts_null
unfolding compile_level compile_object compile_array compile_number compile_plain
compile_level-accepts_null p below object_type schema level c h = ground arith
compile_level-accepts_null p below array_type schema level c h = ground arith
compile_level-accepts_null p below number_type schema level c h = ground arith
compile_level-accepts_null p below integer_type schema level c h = ground arith
compile_level-accepts_null p below string_type schema level c h = ground arith
compile_level-accepts_null p below boolean_type schema level c h = ground arith
compile_level-accepts_null p below null_type schema level c h = ground arith

-- What `compile_schema` has read when it returns.
record IsCompiled (p : Platform) (fuel : ℕ) (sub : Option JsonValue) (optional : Bool)
    (c : CompiledSchema) : Type 0 where
  schema : Fields
  level : Level
  is_schema : sub ≡ some (object schema)
  is_level : IsLevel p schema optional level
  compiled : compile_level p (compile_schema p fuel) level.level_type schema level ≡ returned c

compile_schema-IsCompiled :
    (p : Platform) (fuel : ℕ) (sub : Option JsonValue) (optional : Bool) (c : CompiledSchema)
    → compile_schema p (suc fuel) sub optional ≡ returned c
    → IsCompiled p fuel sub optional c
unfolding compile_schema
compile_schema-IsCompiled p fuel sub optional c h = elim (Result-cases (as_schema sub)) [
  | inl (e, a) ↦ ground arith
  | inr (schema, a) ↦ elim (Result-cases (read_level p schema optional)) [
    | inl (e, r) ↦ ground arith
    | inr (level, r) ↦ record {
      schema = schema;
      level = level;
      is_schema = as_schema_lem sub schema a;
      is_level = read_level-IsLevel p schema optional level r;
      compiled = ground arith;
    }
  ]
]

compile_schema-IsExclusive : (p : Platform) (fuel : ℕ) → IsExclusive (compile_schema p fuel)
unfolding compile_schema
compile_schema-IsExclusive p zero sub optional c h = ground arith
compile_schema-IsExclusive p (suc fuel) sub optional c h =
    let k = compile_schema-IsCompiled p fuel sub optional c h in
    let same =
      compile_level-accepts_null p (compile_schema p fuel) k.level.level_type k.schema k.level c
        k.compiled in
    let once = k.is_level.not_twice in ground arith

compile_schema-IsSound : (p : Platform) (fuel : ℕ) → IsSound p (compile_schema p fuel)
unfolding compile_schema
compile_schema-IsSound p zero one optional c h v present holds = ground arith
compile_schema-IsSound p (suc fuel) one optional c h v present holds =
    let k = compile_schema-IsCompiled p fuel (some one) optional c h in
    let same : object k.schema ≡ one = ap (λ o. or_null o) (sym k.is_schema) in
    rw⁻¹ same (
      compile_level_back p (compile_schema p fuel) k.level.level_type k.schema optional k.level c v
        (compile_schema-IsSound p fuel) (compile_schema-IsExclusive p fuel) k.is_level refl
        k.compiled present holds)

-- An answer that conforms to the wire schema is restored, and the restored answer conforms to the schema
-- that was compiled.
pub restore_conforms :
    (p : Platform) (schema : Fields) (codec : CompiledSchema) (answer : JsonValue)
    → compile_codex_output_schema p schema ≡ returned codec
    → conforms p answer (object codec.wire_schema) ≡ true
    → Restores p (object schema) codec.plan answer
unfolding compile_codex_output_schema
restore_conforms p schema codec answer h holds =
    let root : compile_schema p (suc (depth (object schema))) (some (object schema)) false
        ≡ returned codec =
      ground arith in
    compile_schema-IsSound p (suc (depth (object schema))) (object schema) false codec root answer
      refl holds
