-- ===== src/Codec/Typing.antt =====
-- The types and the enum values of a level, and of its wire schema. (output-schema-codec.ts)
use dreamux.Base.{
  ◌≡◌, refl, ap, ◌∙◌, String, String-discrete, Bool, true, false, not, ◌&&◌, ◌||◌, Option, none,
  some, List, [], ◌∷◌, ◌++◌, Option-cases, Bool-cases, inl, inr, arith,
}
use dreamux.Base.Result.{returned, Result-cases}
use dreamux.Codec.Json.{
  JsonValue, null, boolean, number, text, array, object, Items, nil, item, is_null, is_text,
  items_of,
}
use dreamux.Codec.Schema.{
  SupportedType, object_type, array_type, string_type, number_type, integer_type, boolean_type,
  null_type, Platform, type_name, is_null_type, supported, nullable_member, nullable_union,
  schema_type, insert_by, sort_by, canonical_enum, primitives,
}
use dreamux.Codec.Level.{wire_type, wire_enum, has_null}
use dreamux.Codec.Conformance.{
  is_of_type, is_of_named, is_of_any, type_holds, is_same, is_among, enum_holds,
}

pub type_name-supported :
    (t : String) (type : SupportedType) → supported t ≡ some type → type_name type ≡ t
unfolding supported
type_name-supported t type h = ground arith

pub is_of_type-null : (p : Platform) (v : JsonValue) → is_of_type p v "null" ≡ is_null v
unfolding String-discrete
is_of_type-null p null = refl
is_of_type-null p (boolean b) = refl
is_of_type-null p (number n) = refl
is_of_type-null p (text t) = refl
is_of_type-null p (array xs) = refl
is_of_type-null p (object fs) = refl

nullable_member_lem :
    (p : Platform) (v member : JsonValue) (type : SupportedType) (nullable : Bool)
    → nullable_member member ≡ returned (type, nullable)
    → (nullable ≡ true) × (is_of_named p v member ≡ is_of_type p v (type_name type))
unfolding nullable_member
nullable_member_lem p v (text t) type nullable h = elim (Option-cases (supported t)) [
  | inl e ↦ ground arith
  | inr (found, e) ↦ let named = type_name-supported t found e in ground arith
]
nullable_member_lem p v null type nullable h = ground arith
nullable_member_lem p v (boolean b) type nullable h = ground arith
nullable_member_lem p v (number n) type nullable h = ground arith
nullable_member_lem p v (array xs) type nullable h = ground arith
nullable_member_lem p v (object fs) type nullable h = ground arith

is_of_named-null :
    (p : Platform) (v d : JsonValue) → is_text "null" d ≡ true → is_of_named p v d ≡ is_null v
is_of_named-null p v (text t) h =
    let all = is_of_type-null p v in
    elim (String-discrete t "null") [
      | yes same ↦ ap (is_of_type p v) same ∙ all
      | no differ ↦ ground arith
    ]
is_of_named-null p v null h = ground arith
is_of_named-null p v (boolean b) h = ground arith
is_of_named-null p v (number n) h = ground arith
is_of_named-null p v (array xs) h = ground arith
is_of_named-null p v (object fs) h = ground arith

nullable_union_lem :
    (p : Platform) (v : JsonValue) (xs : Items) (type : SupportedType) (nullable : Bool)
    → nullable_union xs ≡ returned (type, nullable)
    → is_of_any p v xs ≡ is_of_type p v (type_name type) || (nullable && is_null v)
unfolding nullable_union is_of_any
nullable_union_lem p v (item a (item b nil)) type nullable h =
    elim (Bool-cases (is_text "null" a && not (is_text "null" b))) [
      | inl first ↦
          let named = nullable_member_lem p v b type nullable (ground arith) in
          let whole = is_of_named-null p v a (ground arith) in ground arith
      | inr second ↦ elim (Bool-cases (is_text "null" b && not (is_text "null" a))) [
        | inl last ↦
            let named = nullable_member_lem p v a type nullable (ground arith) in
            let whole = is_of_named-null p v b (ground arith) in ground arith
        | inr neither ↦ ground arith
      ]
    ]
nullable_union_lem p v nil type nullable h = ground arith
nullable_union_lem p v (item a nil) type nullable h = ground arith
nullable_union_lem p v (item a (item b (item c rest))) type nullable h = ground arith

plain_null :
    (p : Platform) (v : JsonValue) (type : SupportedType)
    → is_of_type p v (type_name type)
      ≡ is_of_type p v (type_name type) || (is_null_type type && is_null v)
plain_null p v null_type = let all = is_of_type-null p v in ground arith
plain_null p v object_type = ground arith
plain_null p v array_type = ground arith
plain_null p v string_type = ground arith
plain_null p v number_type = ground arith
plain_null p v integer_type = ground arith
plain_null p v boolean_type = ground arith

-- What `schema_type` reads is what the keyword says.
pub schema_type_lem :
    (p : Platform) (v : JsonValue) (declared : Option JsonValue) (type : SupportedType)
    (nullable : Bool)
    → schema_type declared ≡ returned (type, nullable)
    → type_holds p v declared ≡ is_of_type p v (type_name type) || (nullable && is_null v)
unfolding schema_type type_holds
schema_type_lem p v (some (text t)) type nullable h = elim (Option-cases (supported t)) [
  | inl e ↦ ground arith
  | inr (found, e) ↦
      let named = type_name-supported t found e in let either = plain_null p v type in ground arith
]
schema_type_lem p v (some (array xs)) type nullable h = nullable_union_lem p v xs type nullable h
schema_type_lem p v none type nullable h = ground arith
schema_type_lem p v (some null) type nullable h = ground arith
schema_type_lem p v (some (boolean b)) type nullable h = ground arith
schema_type_lem p v (some (number n)) type nullable h = ground arith
schema_type_lem p v (some (object fs)) type nullable h = ground arith

pub type_holds-wire_type :
    (p : Platform) (v : JsonValue) (type : SupportedType) (or_null : Bool)
    → type_holds p v (some (wire_type type or_null))
      ≡ is_of_type p v (type_name type) || (or_null && is_null v)
unfolding type_holds
type_holds-wire_type p v null_type or_null = let all = is_of_type-null p v in ground arith
type_holds-wire_type p v object_type or_null = let all = is_of_type-null p v in ground arith
type_holds-wire_type p v array_type or_null = let all = is_of_type-null p v in ground arith
type_holds-wire_type p v string_type or_null = let all = is_of_type-null p v in ground arith
type_holds-wire_type p v number_type or_null = let all = is_of_type-null p v in ground arith
type_holds-wire_type p v integer_type or_null = let all = is_of_type-null p v in ground arith
type_holds-wire_type p v boolean_type or_null = let all = is_of_type-null p v in ground arith

-- A value of the wire type has the declared type, but for the null that stands for an absent property.
pub wire_type_back :
    (p : Platform) (v : JsonValue) (declared : Option JsonValue) (type : SupportedType)
    → (nullable optional : Bool) → schema_type declared ≡ returned (type, nullable)
    → (optional && is_null v) ≡ false
    → type_holds p v (some (wire_type type (optional || nullable))) ≡ true
    → type_holds p v declared ≡ true
wire_type_back p v declared type nullable optional h present holds =
    let wire = type_holds-wire_type p v type (optional || nullable) in
    let back = schema_type_lem p v declared type nullable h in ground arith

is_among-insert_by :
    (v x : JsonValue) (before : JsonValue → JsonValue → Bool) (xs : List JsonValue)
    → is_among v (items_of (insert_by before x xs)) ≡ is_same v x || is_among v (items_of xs)
unfolding insert_by items_of is_among
is_among-insert_by v x before [] = refl
is_among-insert_by v x before (y ∷ ys) = ground (arith, is_among-insert_by v x before ys)

is_among-sort_by :
    (v : JsonValue) (before : JsonValue → JsonValue → Bool) (xs : List JsonValue)
    → is_among v (items_of (sort_by before xs)) ≡ is_among v (items_of xs)
unfolding sort_by items_of is_among
is_among-sort_by v before [] = refl
is_among-sort_by v before (x ∷ xs) =
    is_among-insert_by v x before (sort_by before xs)
    ∙ ap (λ rest. is_same v x || rest) (is_among-sort_by v before xs)

is_same-null : (v : JsonValue) → is_same v null ≡ is_null v
unfolding is_same
is_same-null null = refl
is_same-null (boolean true) = refl
is_same-null (boolean false) = refl
is_same-null (number n) = refl
is_same-null (text t) = refl
is_same-null (array xs) = refl
is_same-null (object fs) = refl

is_among-append_null :
    (v : JsonValue) (xs : List JsonValue)
    → is_among v (items_of (xs ++ null ∷ [])) ≡ is_among v (items_of xs) || is_null v
unfolding items_of is_among
is_among-append_null v [] = let same = is_same-null v in ground arith
is_among-append_null v (x ∷ xs) = ground (arith, is_among-append_null v xs)

-- The enum of a level, as it is read.
abbrev pub among : JsonValue → Option (List JsonValue) → Bool
among v none = true
among v (some values) = is_among v (items_of values)

pub wire_enum_back :
    (p : Platform) (v : JsonValue) (values : Option (List JsonValue)) (optional : Bool)
    → (optional && is_null v) ≡ false
    → enum_holds v (wire_enum p optional values) ≡ true
    → among v values ≡ true
unfolding enum_holds canonical_enum
wire_enum_back p v none optional present holds = refl
wire_enum_back p v (some values) optional present holds =
    let before : JsonValue → JsonValue → Bool =
      λ left right. p.locale_before (p.canonical_json left) (p.canonical_json right) in
    let more = is_among-append_null v values in
    elim (Bool-cases (optional && not (has_null values))) [
      | inl added ↦ let same = is_among-sort_by v before (values ++ null ∷ []) in ground arith
      | inr kept ↦ let same = is_among-sort_by v before values in ground arith
    ]

pub items_of-primitives :
    (xs : Items) (values : List JsonValue) → primitives xs ≡ returned values → items_of values ≡ xs
unfolding primitives items_of
items_of-primitives nil values h = ground arith
items_of-primitives (item (array ys) rest) values h = ground arith
items_of-primitives (item (object fs) rest) values h = ground arith
items_of-primitives (item null rest) values h = elim (Result-cases (primitives rest)) [
  | inl (e, eq) ↦ ground arith
  | inr (vs, eq) ↦ ground (arith, items_of-primitives rest vs eq)
]
items_of-primitives (item (boolean b) rest) values h = elim (Result-cases (primitives rest)) [
  | inl (e, eq) ↦ ground arith
  | inr (vs, eq) ↦ ground (arith, items_of-primitives rest vs eq)
]
items_of-primitives (item (number n) rest) values h = elim (Result-cases (primitives rest)) [
  | inl (e, eq) ↦ ground arith
  | inr (vs, eq) ↦ ground (arith, items_of-primitives rest vs eq)
]
items_of-primitives (item (text t) rest) values h = elim (Result-cases (primitives rest)) [
  | inl (e, eq) ↦ ground arith
  | inr (vs, eq) ↦ ground (arith, items_of-primitives rest vs eq)
]
