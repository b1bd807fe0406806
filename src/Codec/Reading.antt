-- ===== src/Codec/Reading.antt =====
-- What the reading of one level throws. (output-schema-codec.ts: compileSchema)
use dreamux.Base.{◌≢◌, Bool, Option, none, some, inl, inr, arith}
use dreamux.Base.Result.{thrown, Result-cases}
use dreamux.Codec.Json.{
  JsonValue, null, boolean, number, text, array, object, Items, nil, item, Fields, get,
}
use dreamux.Codec.Schema.{
  too_deep, Platform, nullable_member, nullable_union, schema_type, primitives,
}
use dreamux.Codec.Level.{read_level, schema_enum, validate_enum_types, description}

nullable_member_shallow : (m : JsonValue) → nullable_member m ≢ thrown too_deep
unfolding nullable_member
nullable_member_shallow (text t) h = ground arith
nullable_member_shallow null h = ground arith
nullable_member_shallow (boolean b) h = ground arith
nullable_member_shallow (number n) h = ground arith
nullable_member_shallow (array xs) h = ground arith
nullable_member_shallow (object fs) h = ground arith

nullable_union_shallow : (xs : Items) → nullable_union xs ≢ thrown too_deep
unfolding nullable_union
nullable_union_shallow (item a (item b nil)) h =
    ground (arith, nullable_member_shallow a, nullable_member_shallow b)
nullable_union_shallow nil h = ground arith
nullable_union_shallow (item a nil) h = ground arith
nullable_union_shallow (item a (item b (item c rest))) h = ground arith

pub schema_type_shallow : (d : Option JsonValue) → schema_type d ≢ thrown too_deep
unfolding schema_type
schema_type_shallow (some (text t)) h = ground arith
schema_type_shallow (some (array xs)) h = nullable_union_shallow xs h
schema_type_shallow none h = ground arith
schema_type_shallow (some null) h = ground arith
schema_type_shallow (some (boolean b)) h = ground arith
schema_type_shallow (some (number n)) h = ground arith
schema_type_shallow (some (object fs)) h = ground arith

primitives_shallow : (xs : Items) → primitives xs ≢ thrown too_deep
unfolding primitives
primitives_shallow nil h = ground arith
primitives_shallow (item null rest) h = ground (arith, primitives_shallow rest)
primitives_shallow (item (boolean b) rest) h = ground (arith, primitives_shallow rest)
primitives_shallow (item (number n) rest) h = ground (arith, primitives_shallow rest)
primitives_shallow (item (text t) rest) h = ground (arith, primitives_shallow rest)
primitives_shallow (item (array xs) rest) h = ground arith
primitives_shallow (item (object fs) rest) h = ground arith

schema_enum_shallow : (p : Platform) (d : Option JsonValue) → schema_enum p d ≢ thrown too_deep
unfolding schema_enum
schema_enum_shallow p none h = ground arith
schema_enum_shallow p (some (array nil)) h = ground arith
schema_enum_shallow p (some (array (item x xs))) h = elim (Result-cases (primitives (item x xs))) [
  | inl (e, b) ↦ primitives_shallow (item x xs) (ground arith)
  | inr (vs, b) ↦ ground arith
]
schema_enum_shallow p (some null) h = ground arith
schema_enum_shallow p (some (boolean b)) h = ground arith
schema_enum_shallow p (some (number n)) h = ground arith
schema_enum_shallow p (some (text t)) h = ground arith
schema_enum_shallow p (some (object fs)) h = ground arith

description_shallow : (d : Option JsonValue) → description d ≢ thrown too_deep
description_shallow none h = ground arith
description_shallow (some (text t)) h = ground arith
description_shallow (some null) h = ground arith
description_shallow (some (boolean b)) h = ground arith
description_shallow (some (number n)) h = ground arith
description_shallow (some (array xs)) h = ground arith
description_shallow (some (object fs)) h = ground arith

pub read_level_shallow :
    (p : Platform) (schema : Fields) (optional : Bool)
    → read_level p schema optional ≢ thrown too_deep
unfolding read_level validate_enum_types
read_level_shallow p schema optional h =
    let a = schema_type_shallow (get "type" schema) in
    let b = schema_enum_shallow p (get "enum" schema) in
    let c = description_shallow (get "description" schema) in ground arith
