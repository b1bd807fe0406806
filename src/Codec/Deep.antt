-- ===== src/Codec/Deep.antt =====
-- The depth of a schema bounds the recursion. (output-schema-codec.ts: compileSchema)
use dreamux.Base.{
  ℕ, zero, suc, ◌≡◌, ◌≢◌, ◌≤◌, ◌<◌, String, Bool, false, not, Option, none, some, List, [], ◌∷◌,
  ◌++◌, includes, Option-cases, inl, inr, arith,
}
use dreamux.Base.Result.{thrown, returned, Result-cases}
use dreamux.Codec.Json.{
  JsonValue, null, boolean, number, text, array, object, Items, nil, item, Fields, end, field, get,
  keys, depth, depth_fields,
}
use dreamux.Codec.Schema.{
  SupportedType, object_type, array_type, string_type, number_type, integer_type, boolean_type,
  null_type, too_deep, Platform, as_schema, sort_by,
}
use dreamux.Codec.Level.{Level, read_level}
use dreamux.Codec.Compile.{
  Below, required_texts, required_properties, compile_properties, compile_object, compile_array,
  compile_number, compile_plain, compile_level, compile_schema, items_schema, bound,
  compile_codex_output_schema,
}
use dreamux.Codec.Reading.{schema_type_shallow, read_level_shallow}

depth-get :
    (k : String) (fs : Fields) (v : JsonValue) → get k fs ≡ some v → depth v ≤ depth_fields fs
unfolding get depth
depth-get k end v h = ground arith
depth-get k (field j u rest) v h = ground (arith, depth-get k rest v)

required_texts_shallow :
    (properties : Fields) (so_far : List String) (xs : Items)
    → required_texts properties so_far xs ≢ thrown too_deep
unfolding required_texts
required_texts_shallow properties so_far nil h = ground arith
required_texts_shallow properties so_far (item (text t) rest) h =
    ground (arith, required_texts_shallow properties (so_far ++ t ∷ []) rest)
required_texts_shallow properties so_far (item null rest) h = ground arith
required_texts_shallow properties so_far (item (boolean b) rest) h = ground arith
required_texts_shallow properties so_far (item (number n) rest) h = ground arith
required_texts_shallow properties so_far (item (array xs) rest) h = ground arith
required_texts_shallow properties so_far (item (object fs) rest) h = ground arith

required_properties_shallow :
    (d : Option JsonValue) (properties : Fields)
    → required_properties d properties ≢ thrown too_deep
unfolding required_properties
required_properties_shallow none properties h = ground arith
required_properties_shallow (some (array xs)) properties h =
    required_texts_shallow properties [] xs h
required_properties_shallow (some null) properties h = ground arith
required_properties_shallow (some (boolean b)) properties h = ground arith
required_properties_shallow (some (number n)) properties h = ground arith
required_properties_shallow (some (text t)) properties h = ground arith
required_properties_shallow (some (object fs)) properties h = ground arith

-- The depth of what may be missing.
abbrev depth_of : Option JsonValue → ℕ
depth_of none = 0
depth_of (some v) = depth v

abbrev IsShallow : ℕ → Below → Type 0
IsShallow fuel below =
    (sub : Option JsonValue) (optional : Bool)
    → depth_of sub < fuel
    → below sub optional ≢ thrown too_deep

depth_of-get : (k : String) (fs : Fields) → depth_of (get k fs) ≤ depth_fields fs
depth_of-get k fs = elim (Option-cases (get k fs)) [
  | inl e ↦ rw e (omega arith)
  | inr (v, e) ↦ let le = depth-get k fs v e in rw e le
]

compile_properties_shallow :
    (fuel : ℕ) (below : Below) (properties : Fields) (required names : List String)
    → IsShallow fuel below
    → depth_fields properties < fuel
    → compile_properties below properties required names ≢ thrown too_deep
unfolding compile_properties
compile_properties_shallow fuel below properties required [] shallow le h = ground arith
compile_properties_shallow fuel below properties required (name ∷ names) shallow le h =
    let within = depth_of-get name properties in
    let first = shallow (get name properties) (not (includes name required)) (omega arith) in
    let rest = compile_properties_shallow fuel below properties required names shallow le in
    ground arith

as_schema_shallow : (d : Option JsonValue) → as_schema d ≢ thrown too_deep
as_schema_shallow none h = ground arith
as_schema_shallow (some null) h = ground arith
as_schema_shallow (some (boolean b)) h = ground arith
as_schema_shallow (some (number n)) h = ground arith
as_schema_shallow (some (text t)) h = ground arith
as_schema_shallow (some (array xs)) h = ground arith
as_schema_shallow (some (object fs)) h = ground arith

depth-as_schema :
    (d : Option JsonValue) (fs : Fields) → as_schema d ≡ returned fs → depth_fields fs < depth_of d
unfolding depth
depth-as_schema none fs h = ground arith
depth-as_schema (some null) fs h = ground arith
depth-as_schema (some (boolean b)) fs h = ground arith
depth-as_schema (some (number n)) fs h = ground arith
depth-as_schema (some (text t)) fs h = ground arith
depth-as_schema (some (array xs)) fs h = ground arith
depth-as_schema (some (object gs)) fs h = ground arith

compile_object_shallow :
    (p : Platform) (fuel : ℕ) (below : Below) (schema : Fields) (level : Level)
    → IsShallow fuel below
    → depth_fields schema ≤ fuel
    → compile_object p below schema level ≢ thrown too_deep
unfolding compile_object
compile_object_shallow p fuel below schema level shallow le h =
    elim (Result-cases (as_schema (get "properties" schema))) [
      | inl (e, a) ↦ let fine = as_schema_shallow (get "properties" schema) in ground arith
      | inr (properties, a) ↦
          let smaller = depth-as_schema (get "properties" schema) properties a in
          let within = depth_of-get "properties" schema in
          let fine = required_properties_shallow (get "required" schema) properties in
          elim (Result-cases (required_properties (get "required" schema) properties)) [
            | inl (e, q) ↦ ground arith
            | inr (required, q) ↦
                let loop =
                  compile_properties_shallow fuel below properties required
                    (sort_by p.code_unit_before (keys properties)) shallow (omega arith) in
                ground arith
          ]
    ]

items_schema_shallow : (d : Option JsonValue) → items_schema d ≢ thrown too_deep
items_schema_shallow none h = ground arith
items_schema_shallow (some null) h = ground arith
items_schema_shallow (some (boolean b)) h = ground arith
items_schema_shallow (some (number n)) h = ground arith
items_schema_shallow (some (text t)) h = ground arith
items_schema_shallow (some (array xs)) h = ground arith
items_schema_shallow (some (object fs)) h = ground arith

depth-items_schema :
    (d : Option JsonValue) (one : JsonValue)
    → items_schema d ≡ returned one
    → depth one ≤ depth_of d
depth-items_schema none one h = ground arith
depth-items_schema (some null) one h = ground arith
depth-items_schema (some (boolean b)) one h = ground arith
depth-items_schema (some (number n)) one h = ground arith
depth-items_schema (some (text t)) one h = ground arith
depth-items_schema (some (array xs)) one h = ground arith
depth-items_schema (some (object fs)) one h = ground arith

compile_array_shallow :
    (fuel : ℕ) (below : Below) (schema : Fields) (level : Level)
    → IsShallow fuel below
    → depth_fields schema < fuel
    → compile_array below schema level ≢ thrown too_deep
unfolding compile_array
compile_array_shallow fuel below schema level shallow le h =
    elim (Result-cases (items_schema (get "items" schema))) [
      | inl (e, i) ↦ let fine = items_schema_shallow (get "items" schema) in ground arith
      | inr (one, i) ↦
          let smaller = depth-items_schema (get "items" schema) one i in
          let within = depth_of-get "items" schema in
          let fine = shallow (some one) false (omega arith) in ground arith
    ]

bound_shallow : (d : Option JsonValue) → bound d ≢ thrown too_deep
bound_shallow none h = ground arith
bound_shallow (some (number n)) h = ground arith
bound_shallow (some null) h = ground arith
bound_shallow (some (boolean b)) h = ground arith
bound_shallow (some (text t)) h = ground arith
bound_shallow (some (array xs)) h = ground arith
bound_shallow (some (object fs)) h = ground arith

compile_number_shallow :
    (p : Platform) (schema : Fields) (level : Level)
    → compile_number p schema level ≢ thrown too_deep
unfolding compile_number
compile_number_shallow p schema level h =
    let a = bound_shallow (get "minimum" schema) in
    let b = bound_shallow (get "maximum" schema) in ground arith

compile_level_shallow :
    (p : Platform) (fuel : ℕ) (below : Below) (type : SupportedType) (schema : Fields)
    (level : Level)
    → IsShallow fuel below
    → depth_fields schema < fuel
    → compile_level p below type schema level ≢ thrown too_deep
unfolding compile_level compile_plain
compile_level_shallow p fuel below object_type schema level shallow le h =
    compile_object_shallow p fuel below schema level shallow (omega arith) h
compile_level_shallow p fuel below array_type schema level shallow le h =
    compile_array_shallow fuel below schema level shallow le h
compile_level_shallow p fuel below number_type schema level shallow le h =
    compile_number_shallow p schema level h
compile_level_shallow p fuel below integer_type schema level shallow le h =
    compile_number_shallow p schema level h
compile_level_shallow p fuel below string_type schema level shallow le h = ground arith
compile_level_shallow p fuel below boolean_type schema level shallow le h = ground arith
compile_level_shallow p fuel below null_type schema level shallow le h = ground arith

compile_schema-IsShallow : (p : Platform) (fuel : ℕ) → IsShallow fuel (compile_schema p fuel)
unfolding compile_schema
compile_schema-IsShallow p zero sub optional le h = ground arith
compile_schema-IsShallow p (suc fuel) sub optional le h = elim (Result-cases (as_schema sub)) [
  | inl (e, a) ↦ let fine = as_schema_shallow sub in ground arith
  | inr (schema, a) ↦
      let smaller = depth-as_schema sub schema a in
      elim (Result-cases (read_level p schema optional)) [
        | inl (e, r) ↦ let fine = read_level_shallow p schema optional in ground arith
        | inr (level, r) ↦
            compile_level_shallow p fuel (compile_schema p fuel) level.level_type schema level
              (compile_schema-IsShallow p fuel) (omega arith) (ground arith)
      ]
]

-- Every schema gets a verdict of its own: the fuel, one more than the depth of the schema, is never used
-- up.
pub compile_terminates :
    (p : Platform) (schema : Fields) → compile_codex_output_schema p schema ≢ thrown too_deep
unfolding compile_codex_output_schema
compile_terminates p schema h =
    let fine = schema_type_shallow (get "type" schema) in
    let deep =
      compile_schema-IsShallow p (suc (depth (object schema))) (some (object schema)) false
        (omega arith) in
    ground arith
