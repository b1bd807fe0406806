-- ===== src/Codec/Levels.antt =====
-- One level of a schema against the same level of its wire schema. (output-schema-codec.ts)
use dreamux.Base.{
  ◌≡◌, refl, sym, ap, ◌∙◌, String, String-discrete, Bool, true, false, ◌&&◌, ◌||◌, Option, none,
  some, List, ◌==◌, Option-cases, Bool-cases, inl, inr, arith,
}
use dreamux.Base.Result.{returned, Result-cases}
use dreamux.Codec.Json.{
  JsonValue, null, boolean, number, text, array, object, nil, item, Fields, get, is_null,
}
use dreamux.Codec.Schema.{SupportedType, Platform, schema_type, primitives}
use dreamux.Codec.Level.{
  Level, read_level, wire_level, wire_type, wire_enum, schema_enum, validate_enum_types,
  type_accepts_null, all_known, keywords, description,
}
use dreamux.Codec.Conformance.{type_holds, enum_holds, keyword, level_holds}
use dreamux.Codec.Typing.{wire_type_back, wire_enum_back, among, items_of-primitives}

pub schema_enum_lem :
    (p : Platform) (v : JsonValue) (declared : Option JsonValue) (values : Option (List JsonValue))
    → schema_enum p declared ≡ returned values
    → enum_holds v declared ≡ among v values
unfolding schema_enum enum_holds
schema_enum_lem p v none values h = ground arith
schema_enum_lem p v (some (array (item x xs))) values h =
    elim (Result-cases (primitives (item x xs))) [
      | inl (e, eq) ↦ ground arith
      | inr (vs, eq) ↦ let same = items_of-primitives (item x xs) vs eq in ground arith
    ]
schema_enum_lem p v (some (array nil)) values h = ground arith
schema_enum_lem p v (some null) values h = ground arith
schema_enum_lem p v (some (boolean b)) values h = ground arith
schema_enum_lem p v (some (number n)) values h = ground arith
schema_enum_lem p v (some (text t)) values h = ground arith
schema_enum_lem p v (some (object fs)) values h = ground arith

abbrev made_level :
    Platform → Bool → SupportedType → Bool → Option (List JsonValue) → Option String → Level
made_level p optional type nullable values text_of = record {
  level_type = type;
  level_accepts_null = type_accepts_null (type, nullable) values;
  level_wire_type = wire_type type (optional || nullable);
  level_description = text_of;
  level_wire_enum = wire_enum p optional values;
}

-- What a level that was read says of the schema.
pub record IsLevel (p : Platform) (schema : Fields) (optional : Bool) (level : Level) : Type 0 where
  pub nullable : Bool
  pub values : Option (List JsonValue)
  pub typed : schema_type (get "type" schema) ≡ returned (level.level_type, nullable)
  pub enumerates : schema_enum p (get "enum" schema) ≡ returned values
  pub fits : validate_enum_types p values level.level_type nullable ≡ returned tt
  pub wire_typed : level.level_wire_type ≡ wire_type level.level_type (optional || nullable)
  pub wire_enumerates : level.level_wire_enum ≡ wire_enum p optional values
  pub null_accepted :
      level.level_accepts_null ≡ type_accepts_null (level.level_type, nullable) values
  pub not_twice : (optional && level.level_accepts_null) ≡ false
  pub known : all_known (keywords level.level_type) schema ≡ true

level_of :
    {schema : Fields}
    → (p : Platform) (optional : Bool) (type : SupportedType) (nullable : Bool)
    → (values : Option (List JsonValue)) (text_of : Option String) (level : Level)
    → made_level p optional type nullable values text_of ≡ level
    → schema_type (get "type" schema) ≡ returned (type, nullable)
    → schema_enum p (get "enum" schema) ≡ returned values
    → validate_enum_types p values type nullable ≡ returned tt
    → (optional && type_accepts_null (type, nullable) values) ≡ false
    → all_known (keywords type) schema ≡ true
    → IsLevel p schema optional level
level_of p optional type nullable values text_of level made t en ok once known = record {
  nullable = nullable;
  values = values;
  typed = rw⁻¹ made t;
  enumerates = en;
  fits = rw⁻¹ made ok;
  wire_typed = rw⁻¹ made refl;
  wire_enumerates = rw⁻¹ made refl;
  null_accepted = rw⁻¹ made refl;
  not_twice = rw⁻¹ made once;
  known = rw⁻¹ made known;
}

pub read_level-IsLevel :
    (p : Platform) (schema : Fields) (optional : Bool) (level : Level)
    → read_level p schema optional ≡ returned level
    → IsLevel p schema optional level
unfolding read_level
read_level-IsLevel p schema optional level h =
    elim (Result-cases (schema_type (get "type" schema))) [
      | inl (e, eq) ↦ ground arith
      | inr ((type, nullable), t) ↦ elim (Result-cases (schema_enum p (get "enum" schema))) [
        | inl (e, eq) ↦ ground arith
        | inr (values, en) ↦ elim (Result-cases (validate_enum_types p values type nullable)) [
          | inl (e, eq) ↦ ground arith
          | inr (done, ok) ↦
              elim (Bool-cases (optional && type_accepts_null (type, nullable) values)) [
                | inl twice ↦ ground arith
                | inr once ↦ elim (Bool-cases (all_known (keywords type) schema)) [
                  | inr unknown ↦ ground arith
                  | inl known ↦ elim (Result-cases (description (get "description" schema))) [
                    | inl (e, eq) ↦ ground arith
                    | inr (text_of, d) ↦
                        level_of p optional type nullable values text_of level (ground arith) t en
                          ok once known
                  ]
                ]
              ]
        ]
      ]
    ]

pub get-type-wire_level :
    (level : Level) (rest : Fields)
    → get "type" (wire_level level rest) ≡ some level.level_wire_type
unfolding get wire_level String-discrete
get-type-wire_level level rest = refl

get-enum-wire_level :
    (level : Level) (rest : Fields)
    → get "enum" rest ≡ none
    → get "enum" (wire_level level rest) ≡ level.level_wire_enum
unfolding get wire_level String-discrete
get-enum-wire_level level rest h = elim (Option-cases level.level_description) [
  | inl d ↦ elim (Option-cases level.level_wire_enum) [
    | inl e ↦ ground arith
    | inr (vs, e) ↦ ground arith
  ]
  | inr (t, d) ↦ elim (Option-cases level.level_wire_enum) [
    | inl e ↦ ground arith
    | inr (vs, e) ↦ ground arith
  ]
]

pub get-wire_level :
    (key : String) (level : Level) (rest : Fields)
    → ("type" == key) ≡ false
    → ("description" == key) ≡ false
    → ("enum" == key) ≡ false
    → get key (wire_level level rest) ≡ get key rest
unfolding get wire_level
get-wire_level key level rest a b c = elim (Option-cases level.level_description) [
  | inl d ↦ elim (Option-cases level.level_wire_enum) [
    | inl e ↦ ground arith
    | inr (vs, e) ↦ ground arith
  ]
  | inr (t, d) ↦ elim (Option-cases level.level_wire_enum) [
    | inl e ↦ ground arith
    | inr (vs, e) ↦ ground arith
  ]
]

-- A value that the wire level allows is one that the level allows, but for the null of an absent
-- property.
pub wire_level_back :
    (p : Platform) (v : JsonValue) (schema : Fields) (optional : Bool) (level : Level)
    (rest : Fields)
    → IsLevel p schema optional level
    → get "enum" rest ≡ none
    → (optional && is_null v) ≡ false
    → level_holds p v (object (wire_level level rest)) ≡ true
    → level_holds p v (object schema) ≡ true
unfolding level_holds keyword
wire_level_back p v schema optional level rest l plain present holds =
    let type_of = get-type-wire_level level rest in
    let enum_of = get-enum-wire_level level rest plain in
    let wired : type_holds p v (some level.level_wire_type) ≡ true = ground arith in
    let listed : enum_holds v level.level_wire_enum ≡ true = ground arith in
    let typed =
      wire_type_back p v (get "type" schema) level.level_type l.nullable optional l.typed present
        (ap (λ t. type_holds p v (some t)) (sym l.wire_typed) ∙ wired) in
    let enumerated =
      schema_enum_lem p v (get "enum" schema) l.values l.enumerates
      ∙ wire_enum_back p v l.values optional present
          (ap (enum_holds v) (sym l.wire_enumerates) ∙ listed) in
    ground arith
