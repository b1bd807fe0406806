-- ===== src/Codec/Compile.antt =====
-- output-schema-codec.ts: compileCodexOutputSchema.
use dreamux.Base.{
  ℕ, zero, suc, String, Bool, true, false, not, ◌&&◌, Option, none, some, List, [], ◌∷◌, ◌++◌,
  includes,
}
use dreamux.Base.Result.{Result, thrown, returned, ◌>>=◌}
use dreamux.Codec.Json.{
  JsonValue, null, boolean, number, text, array, object, Items, nil, item, Fields, end, field, get,
  keys, texts, depth,
}
use dreamux.Codec.Schema.{
  SupportedType, object_type, array_type, number_type, integer_type, string_type, boolean_type,
  null_type, Unsupported, root_not_object, additional_properties, required_not_texts,
  unknown_required, duplicate_required, tuple_array, no_items, bound_not_number,
  minimum_over_maximum, too_deep, Platform, as_schema, require, schema_type, sort_by,
}
use dreamux.Codec.Level.{Level, read_level, wire_level}

mutual
  pub data RestorationPlan : Type 0 where
    value_plan : RestorationPlan
    array_plan : Bool → RestorationPlan → RestorationPlan
    object_plan : Bool → PlannedProperties → RestorationPlan

  -- Each property with its `omitNull`.
  pub data PlannedProperties : Type 0 where
    unplanned : PlannedProperties
    planned : String → Bool → RestorationPlan → PlannedProperties → PlannedProperties

pub record CompiledSchema : Type 0 where
  pub wire_schema : Fields
  pub plan : RestorationPlan
  pub accepts_null : Bool

abbrev pub is_known : Option JsonValue → Bool
is_known none = false
is_known (some v) = true

unfoldable pub required_texts : Fields → List String → Items → Result Unsupported (List String)
unfolding get
required_texts properties so_far nil = returned so_far
required_texts properties so_far (item (text t) rest) = do
  _ ← require (is_known (get t properties)) unknown_required
  _ ← require (not (includes t so_far)) duplicate_required
  required_texts properties (so_far ++ t ∷ []) rest
required_texts properties so_far (item null rest) = thrown required_not_texts
required_texts properties so_far (item (boolean b) rest) = thrown required_not_texts
required_texts properties so_far (item (number n) rest) = thrown required_not_texts
required_texts properties so_far (item (array xs) rest) = thrown required_not_texts
required_texts properties so_far (item (object fs) rest) = thrown required_not_texts

unfoldable pub required_properties : Option JsonValue → Fields → Result Unsupported (List String)
unfolding required_texts
required_properties none properties = returned []
required_properties (some (array xs)) properties = required_texts properties [] xs
required_properties (some null) properties = thrown required_not_texts
required_properties (some (boolean b)) properties = thrown required_not_texts
required_properties (some (number n)) properties = thrown required_not_texts
required_properties (some (text t)) properties = thrown required_not_texts
required_properties (some (object fs)) properties = thrown required_not_texts

abbrev pub is_false : Option JsonValue → Bool
is_false (some (boolean b)) = not b
is_false none = false
is_false (some null) = false
is_false (some (number n)) = false
is_false (some (text t)) = false
is_false (some (array xs)) = false
is_false (some (object fs)) = false

abbrev pub Below : Type 0
Below = Option JsonValue → Bool → Result Unsupported CompiledSchema

-- The loop over the sorted names: the wire schemas and the plans.
unfoldable pub compile_properties :
    Below → Fields → List String → List String → Result Unsupported (Fields × PlannedProperties)
unfolding get
compile_properties below properties required [] = returned (end, unplanned)
compile_properties below properties required (name ∷ names) = do
  compiled ← below (get name properties) (not (includes name required))
  rest ← compile_properties below properties required names
  returned (
    field name (object compiled.wire_schema) rest.0,
    planned name (not (includes name required) && not compiled.accepts_null) compiled.plan rest.1,
  )

unfoldable pub compile_object :
    Platform → Below → Fields → Level → Result Unsupported CompiledSchema
unfolding get keys required_properties compile_properties wire_level sort_by texts
compile_object p below schema level = do
  _ ← require (is_false (get "additionalProperties" schema)) additional_properties
  properties ← as_schema (get "properties" schema)
  required ← required_properties (get "required" schema) properties
  compiled ←
      compile_properties below properties required (sort_by p.code_unit_before (keys properties))
  returned (record {
    wire_schema = wire_level level (
        field "properties" (object compiled.0) (
          field "required" (array (texts (sort_by p.code_unit_before (keys properties))))
            (field "additionalProperties" (boolean false) end)));
    plan = object_plan level.level_accepts_null compiled.1;
    accepts_null = level.level_accepts_null;
  })

abbrev pub items_schema : Option JsonValue → Result Unsupported JsonValue
items_schema none = thrown no_items
items_schema (some (array xs)) = thrown tuple_array
items_schema (some null) = returned null
items_schema (some (boolean b)) = returned (boolean b)
items_schema (some (number n)) = returned (number n)
items_schema (some (text t)) = returned (text t)
items_schema (some (object fs)) = returned (object fs)

unfoldable pub compile_array : Below → Fields → Level → Result Unsupported CompiledSchema
unfolding get wire_level
compile_array below schema level = do
  one ← items_schema (get "items" schema)
  items ← below (some one) false
  returned (record {
    wire_schema = wire_level level (field "items" (object items.wire_schema) end);
    plan = array_plan level.level_accepts_null items.plan;
    accepts_null = level.level_accepts_null;
  })

abbrev pub bound : Option JsonValue → Result Unsupported (Option ℕ)
bound none = returned none
bound (some (number n)) = returned (some n)
bound (some null) = thrown bound_not_number
bound (some (boolean b)) = thrown bound_not_number
bound (some (text t)) = thrown bound_not_number
bound (some (array xs)) = thrown bound_not_number
bound (some (object fs)) = thrown bound_not_number

abbrev pub are_ordered : Platform → Option ℕ → Option ℕ → Bool
are_ordered p none upper = true
are_ordered p (some lower) none = true
are_ordered p (some lower) (some upper) = p.at_most lower upper

abbrev pub bounded : String → Option ℕ → Fields → Fields
bounded key none rest = rest
bounded key (some n) rest = field key (number n) rest

unfoldable pub compile_number : Platform → Fields → Level → Result Unsupported CompiledSchema
unfolding get wire_level
compile_number p schema level = do
  minimum ← bound (get "minimum" schema)
  maximum ← bound (get "maximum" schema)
  _ ← require (are_ordered p minimum maximum) minimum_over_maximum
  returned (record {
    wire_schema = wire_level level (bounded "minimum" minimum (bounded "maximum" maximum end));
    plan = value_plan;
    accepts_null = level.level_accepts_null;
  })

unfoldable pub compile_plain : Level → Result Unsupported CompiledSchema
unfolding wire_level
compile_plain level = returned (record {
  wire_schema = wire_level level end;
  plan = value_plan;
  accepts_null = level.level_accepts_null;
})

unfoldable pub compile_level :
    Platform → Below → SupportedType → Fields → Level → Result Unsupported CompiledSchema
unfolding compile_object compile_array compile_number compile_plain
compile_level p below object_type schema level = compile_object p below schema level
compile_level p below array_type schema level = compile_array below schema level
compile_level p below number_type schema level = compile_number p schema level
compile_level p below integer_type schema level = compile_number p schema level
compile_level p below string_type schema level = compile_plain level
compile_level p below boolean_type schema level = compile_plain level
compile_level p below null_type schema level = compile_plain level

unfoldable pub compile_schema :
    Platform → ℕ → Option JsonValue → Bool → Result Unsupported CompiledSchema
unfolding read_level compile_level
compile_schema p zero value optional = thrown too_deep
compile_schema p (suc fuel) value optional = do
  schema ← as_schema value
  level ← read_level p schema optional
  compile_level p (λ sub is_optional. compile_schema p fuel sub is_optional) level.level_type schema
      level

abbrev pub is_plain_object : SupportedType × Bool → Bool
is_plain_object (object_type, nullable) = not nullable
is_plain_object (array_type, nullable) = false
is_plain_object (string_type, nullable) = false
is_plain_object (number_type, nullable) = false
is_plain_object (integer_type, nullable) = false
is_plain_object (boolean_type, nullable) = false
is_plain_object (null_type, nullable) = false

-- Each level of the schema takes one unit of fuel.
unfoldable pub compile_codex_output_schema : Platform → Fields → Result Unsupported CompiledSchema
unfolding get depth schema_type compile_schema
compile_codex_output_schema p schema = do
  root ← schema_type (get "type" schema)
  _ ← require (is_plain_object root) root_not_object
  compile_schema p (suc (depth (object schema))) (some (object schema)) false
