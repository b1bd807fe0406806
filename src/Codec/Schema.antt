-- ===== src/Codec/Schema.antt =====
-- output-schema-codec.ts: what one level of a schema says, its types, enum values and keywords.
use dreamux.Base.{
  ℕ, String, Bool, true, false, not, ◌&&◌, ◌||◌, Option, none, some, List, [], ◌∷◌, if◌then◌else◌,
  ◌==◌, includes,
}
use dreamux.Base.Result.{Result, thrown, returned, ◌>>=◌}
use dreamux.Codec.Json.{
  JsonValue, null, boolean, number, text, array, object, Items, nil, item, Fields, is_null, is_text,
}

pub data SupportedType : Type 0 where
  object_type array_type string_type number_type integer_type boolean_type null_type : SupportedType

pub data Unsupported : Type 0 where
  root_not_object already_accepts_null description_not_string : Unsupported
  additional_properties not_a_plain_object required_not_texts : Unsupported
  unknown_required duplicate_required tuple_array no_items : Unsupported
  bound_not_number minimum_over_maximum unsupported_type only_nullable_unions
        not_one_supported_type :
      Unsupported
  enum_not_array enum_not_primitive enum_not_unique enum_not_on_primitive : Unsupported
  enum_of_other_type unsupported_keyword too_deep : Unsupported

-- What the code takes from the platform: whether a double is an integer, and the order of two; the
-- canonical text of a primitive; and the two orders of texts.
pub record Platform : Type 0 where
  pub is_integer : ℕ → Bool
  pub at_most : ℕ → ℕ → Bool
  pub canonical_json : JsonValue → String
  pub locale_before : String → String → Bool
  pub code_unit_before : String → String → Bool

abbrev pub type_name : SupportedType → String
type_name object_type = "object"
type_name array_type = "array"
type_name string_type = "string"
type_name number_type = "number"
type_name integer_type = "integer"
type_name boolean_type = "boolean"
type_name null_type = "null"

unfoldable pub supported : String → Option SupportedType
supported t =
    if t == "object"
    then some object_type
    else if t == "array"
    then some array_type
    else if t == "string"
    then some string_type
    else if t == "number"
    then some number_type
    else if t == "integer"
    then some integer_type
    else if t == "boolean"
    then some boolean_type
    else if t == "null"
    then some null_type
    else none

abbrev pub is_null_type : SupportedType → Bool
is_null_type null_type = true
is_null_type object_type = false
is_null_type array_type = false
is_null_type string_type = false
is_null_type number_type = false
is_null_type integer_type = false
is_null_type boolean_type = false

abbrev pub as_schema : Option JsonValue → Result Unsupported Fields
as_schema (some (object fs)) = returned fs
as_schema (some null) = thrown not_a_plain_object
as_schema (some (boolean b)) = thrown not_a_plain_object
as_schema (some (number n)) = thrown not_a_plain_object
as_schema (some (text t)) = thrown not_a_plain_object
as_schema (some (array xs)) = thrown not_a_plain_object
as_schema none = thrown not_a_plain_object

abbrev pub require : Bool → Unsupported → Result Unsupported (Unit {0})
require true e = returned tt
require false e = thrown e

abbrev pub named_type : Option SupportedType → Unsupported → Result Unsupported SupportedType
named_type none e = thrown e
named_type (some t) e = returned t

unfoldable pub nullable_member : JsonValue → Result Unsupported (SupportedType × Bool)
unfolding supported
nullable_member (text t) = do
  type ← named_type (supported t) only_nullable_unions
  returned (type, true)
nullable_member null = thrown only_nullable_unions
nullable_member (boolean b) = thrown only_nullable_unions
nullable_member (number n) = thrown only_nullable_unions
nullable_member (array xs) = thrown only_nullable_unions
nullable_member (object fs) = thrown only_nullable_unions

unfoldable pub nullable_union : Items → Result Unsupported (SupportedType × Bool)
unfolding nullable_member
nullable_union (item a (item b nil)) =
    if is_text "null" a && not (is_text "null" b)
    then nullable_member b
    else if is_text "null" b && not (is_text "null" a)
    then nullable_member a
    else thrown only_nullable_unions
nullable_union nil = thrown only_nullable_unions
nullable_union (item a nil) = thrown only_nullable_unions
nullable_union (item a (item b (item c rest))) = thrown only_nullable_unions

-- The type, and whether null is one too.
unfoldable pub schema_type : Option JsonValue → Result Unsupported (SupportedType × Bool)
unfolding supported nullable_union
schema_type (some (text t)) = do
  type ← named_type (supported t) unsupported_type
  returned (type, is_null_type type)
schema_type (some (array xs)) = nullable_union xs
schema_type none = thrown not_one_supported_type
schema_type (some null) = thrown not_one_supported_type
schema_type (some (boolean b)) = thrown not_one_supported_type
schema_type (some (number n)) = thrown not_one_supported_type
schema_type (some (object fs)) = thrown not_one_supported_type

unfoldable pub primitives : Items → Result Unsupported (List JsonValue)
primitives nil = returned []
primitives (item (array xs) rest) = thrown enum_not_primitive
primitives (item (object fs) rest) = thrown enum_not_primitive
primitives (item null rest) = primitives rest >>= (λ vs. returned (null ∷ vs))
primitives (item (boolean b) rest) = primitives rest >>= (λ vs. returned (boolean b ∷ vs))
primitives (item (number n) rest) = primitives rest >>= (λ vs. returned (number n ∷ vs))
primitives (item (text t) rest) = primitives rest >>= (λ vs. returned (text t ∷ vs))

unfoldable pub are_unique : List String → Bool
are_unique [] = true
are_unique (t ∷ ts) = not (includes t ts) && are_unique ts

-- What a value of the type is. A double that is an integer fits `integer`.
unfoldable pub has_type : Platform → SupportedType → JsonValue → Bool
has_type p object_type (object fs) = true
has_type p array_type (array xs) = true
has_type p string_type (text t) = true
has_type p number_type (number n) = true
has_type p integer_type (number n) = p.is_integer n
has_type p boolean_type (boolean b) = true
has_type p null_type null = true
has_type p type v = false

abbrev pub is_container : SupportedType → Bool
is_container object_type = true
is_container array_type = true
is_container string_type = false
is_container number_type = false
is_container integer_type = false
is_container boolean_type = false
is_container null_type = false

unfoldable pub all_fit : Platform → SupportedType → Bool → List JsonValue → Bool
unfolding has_type
all_fit p type nullable [] = true
all_fit p type nullable (v ∷ vs) =
    ((is_null v && nullable) || has_type p type v) && all_fit p type nullable vs

-- `sort` by a comparison.
unfoldable pub insert_by {ℓ} : {A : Type ℓ} → (A → A → Bool) → A → List A → List A
insert_by before x [] = x ∷ []
insert_by before x (y ∷ ys) = if before y x then y ∷ insert_by before x ys else x ∷ y ∷ ys

unfoldable pub sort_by {ℓ} : {A : Type ℓ} → (A → A → Bool) → List A → List A
unfolding insert_by
sort_by before [] = []
sort_by before (x ∷ xs) = insert_by before x (sort_by before xs)

unfoldable pub canonical_enum : Platform → List JsonValue → List JsonValue
unfolding sort_by
canonical_enum p values =
    sort_by (λ left right. p.locale_before (p.canonical_json left) (p.canonical_json right)) values
