-- ===== src/Codec/Level.antt =====
-- output-schema-codec.ts: what compileSchema reads of one level before it looks below.
use dreamux.Base.{
  String, Bool, true, false, not, ◌&&◌, ◌||◌, Option, none, some, List, [], ◌∷◌, ◌++◌,
  if◌then◌else◌, includes,
}
use dreamux.Base.Result.{Result, thrown, returned, ◌>>=◌}
use dreamux.Codec.Json.{
  JsonValue, null, boolean, number, text, array, object, nil, item, Fields, end, field, get,
  is_null, items_of,
}
use dreamux.Codec.Schema.{
  SupportedType, object_type, array_type, number_type, integer_type, string_type, boolean_type,
  null_type, Unsupported, already_accepts_null, description_not_string, enum_not_array,
  enum_not_unique, enum_not_on_primitive, enum_of_other_type, unsupported_keyword, Platform,
  type_name, is_null_type, require, schema_type, primitives, are_unique, is_container, all_fit,
  canonical_enum,
}

abbrev pub texts_of : Platform → List JsonValue → List String
texts_of p [] = []
texts_of p (v ∷ vs) = p.canonical_json v ∷ texts_of p vs

unfoldable pub schema_enum :
    Platform → Option JsonValue → Result Unsupported (Option (List JsonValue))
unfolding primitives are_unique
schema_enum p none = returned none
schema_enum p (some (array (item x xs))) = do
  values ← primitives (item x xs)
  _ ← require (are_unique (texts_of p values)) enum_not_unique
  returned (some values)
schema_enum p (some (array nil)) = thrown enum_not_array
schema_enum p (some null) = thrown enum_not_array
schema_enum p (some (boolean b)) = thrown enum_not_array
schema_enum p (some (number n)) = thrown enum_not_array
schema_enum p (some (text t)) = thrown enum_not_array
schema_enum p (some (object fs)) = thrown enum_not_array

unfoldable pub validate_enum_types :
    Platform → Option (List JsonValue) → SupportedType → Bool → Result Unsupported (Unit {0})
unfolding all_fit
validate_enum_types p none type nullable = returned tt
validate_enum_types p (some values) type nullable = do
  _ ← require (not (is_container type)) enum_not_on_primitive
  require (all_fit p type nullable values) enum_of_other_type

abbrev pub has_null : List JsonValue → Bool
has_null [] = false
has_null (v ∷ vs) = is_null v || has_null vs

abbrev pub accepts_null_in : Option (List JsonValue) → Bool
accepts_null_in none = true
accepts_null_in (some values) = has_null values

abbrev pub keywords : SupportedType → List String
keywords object_type =
    "type" ∷ "description" ∷ "enum" ∷ "properties" ∷ "required" ∷ "additionalProperties" ∷ []
keywords array_type = "type" ∷ "description" ∷ "enum" ∷ "items" ∷ []
keywords number_type = "type" ∷ "description" ∷ "enum" ∷ "minimum" ∷ "maximum" ∷ []
keywords integer_type = "type" ∷ "description" ∷ "enum" ∷ "minimum" ∷ "maximum" ∷ []
keywords string_type = "type" ∷ "description" ∷ "enum" ∷ []
keywords boolean_type = "type" ∷ "description" ∷ "enum" ∷ []
keywords null_type = "type" ∷ "description" ∷ "enum" ∷ []

unfoldable pub all_known : List String → Fields → Bool
all_known allowed end = true
all_known allowed (field k v rest) = includes k allowed && all_known allowed rest

abbrev pub description : Option JsonValue → Result Unsupported (Option String)
description none = returned none
description (some (text t)) = returned (some t)
description (some null) = thrown description_not_string
description (some (boolean b)) = thrown description_not_string
description (some (number n)) = thrown description_not_string
description (some (array xs)) = thrown description_not_string
description (some (object fs)) = thrown description_not_string

abbrev pub wire_type : SupportedType → Bool → JsonValue
wire_type type or_null =
    if is_null_type type
    then text (type_name type)
    else if or_null
    then array (item (text (type_name type)) (item (text "null") nil))
    else text (type_name type)

abbrev pub wire_enum : Platform → Bool → Option (List JsonValue) → Option JsonValue
wire_enum p optional none = none
wire_enum p optional (some values) = some (
    array (
      items_of (
        canonical_enum p
          (if optional && not (has_null values) then values ++ null ∷ [] else values))))

abbrev pub type_accepts_null : SupportedType × Bool → Option (List JsonValue) → Bool
type_accepts_null declared values = is_null_type declared.0 || declared.1 && accepts_null_in values

pub record Level : Type 0 where
  pub level_type : SupportedType
  pub level_accepts_null : Bool
  pub level_wire_type : JsonValue
  pub level_description : Option String
  pub level_wire_enum : Option JsonValue

unfoldable pub read_level : Platform → Fields → Bool → Result Unsupported Level
unfolding get schema_type schema_enum validate_enum_types all_known canonical_enum
read_level p schema optional = do
  declared ← schema_type (get "type" schema)
  values ← schema_enum p (get "enum" schema)
  _ ← validate_enum_types p values declared.0 declared.1
  _ ← require (not (optional && type_accepts_null declared values)) already_accepts_null
  _ ← require (all_known (keywords declared.0) schema) unsupported_keyword
  described ← description (get "description" schema)
  returned (record {
    level_type = declared.0;
    level_accepts_null = type_accepts_null declared values;
    level_wire_type = wire_type declared.0 (optional || declared.1);
    level_description = described;
    level_wire_enum = wire_enum p optional values;
  })

abbrev pub described : Option String → Fields → Fields
described none rest = rest
described (some t) rest = field "description" (text t) rest

abbrev pub enumerated : Option JsonValue → Fields → Fields
enumerated none rest = rest
enumerated (some values) rest = field "enum" values rest

-- The wire schema of the level, with the keywords of its type.
unfoldable pub wire_level : Level → Fields → Fields
wire_level level rest =
    field "type" level.level_wire_type
      (described level.level_description (enumerated level.level_wire_enum rest))
