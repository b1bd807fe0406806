-- ===== src/Codec/Conformance.antt =====
-- What it is to conform to a JSON schema, in the keywords that the codec supports. (JSON Schema; not a
-- function of the source)
use dreamux.Base.{ℕ, String, Bool, true, false, not, ◌&&◌, ◌||◌, Option, none, some, ◌==◌, nat_eq}
use dreamux.Codec.Json.{
  JsonValue, null, boolean, number, text, array, object, Items, nil, item, Fields, end, field, get,
}
use dreamux.Codec.Schema.{Platform}

-- The types by name: an integer is a number.
abbrev pub is_of_type : Platform → JsonValue → String → Bool
is_of_type p null t = t == "null"
is_of_type p (boolean b) t = t == "boolean"
is_of_type p (number n) t = t == "number" || (t == "integer" && p.is_integer n)
is_of_type p (text u) t = t == "string"
is_of_type p (array xs) t = t == "array"
is_of_type p (object fs) t = t == "object"

abbrev pub is_of_named : Platform → JsonValue → JsonValue → Bool
is_of_named p v (text t) = is_of_type p v t
is_of_named p v null = false
is_of_named p v (boolean b) = false
is_of_named p v (number n) = false
is_of_named p v (array xs) = false
is_of_named p v (object fs) = false

unfoldable pub is_of_any : Platform → JsonValue → Items → Bool
is_of_any p v nil = false
is_of_any p v (item t ts) = is_of_named p v t || is_of_any p v ts

unfoldable pub type_holds : Platform → JsonValue → Option JsonValue → Bool
unfolding is_of_any
type_holds p v (some (array ts)) = is_of_any p v ts
type_holds p v (some (text t)) = is_of_type p v t
type_holds p v none = true
type_holds p v (some null) = false
type_holds p v (some (boolean b)) = false
type_holds p v (some (number n)) = false
type_holds p v (some (object fs)) = false

-- Equality of primitive values.
unfoldable pub is_same : JsonValue → JsonValue → Bool
is_same null null = true
is_same (boolean true) (boolean b) = b
is_same (boolean false) (boolean b) = not b
is_same (number m) (number n) = nat_eq m n
is_same (text t) (text u) = t == u
is_same v w = false

unfoldable pub is_among : JsonValue → Items → Bool
unfolding is_same
is_among v nil = false
is_among v (item x xs) = is_same v x || is_among v xs

unfoldable pub enum_holds : JsonValue → Option JsonValue → Bool
unfolding is_among
enum_holds v none = true
enum_holds v (some (array xs)) = is_among v xs
enum_holds v (some null) = false
enum_holds v (some (boolean b)) = false
enum_holds v (some (number n)) = false
enum_holds v (some (text t)) = false
enum_holds v (some (object fs)) = false

abbrev pub at_least_bound : Platform → Option JsonValue → ℕ → Bool
at_least_bound p (some (number lower)) n = p.at_most lower n
at_least_bound p none n = true
at_least_bound p (some null) n = false
at_least_bound p (some (boolean b)) n = false
at_least_bound p (some (text t)) n = false
at_least_bound p (some (array xs)) n = false
at_least_bound p (some (object fs)) n = false

abbrev pub at_most_bound : Platform → Option JsonValue → ℕ → Bool
at_most_bound p (some (number upper)) n = p.at_most n upper
at_most_bound p none n = true
at_most_bound p (some null) n = false
at_most_bound p (some (boolean b)) n = false
at_most_bound p (some (text t)) n = false
at_most_bound p (some (array xs)) n = false
at_most_bound p (some (object fs)) n = false

abbrev pub has_key : Fields → JsonValue → Bool
has_key fs (text t) = elim (get t fs) [ none ↦ false | some v ↦ true ]
has_key fs null = false
has_key fs (boolean b) = false
has_key fs (number n) = false
has_key fs (array xs) = false
has_key fs (object gs) = false

unfoldable pub has_all : Fields → Items → Bool
unfolding get
has_all fs nil = true
has_all fs (item t ts) = has_key fs t && has_all fs ts

unfoldable pub required_hold : Fields → Option JsonValue → Bool
unfolding has_all
required_hold fs none = true
required_hold fs (some (array ts)) = has_all fs ts
required_hold fs (some null) = false
required_hold fs (some (boolean b)) = false
required_hold fs (some (number n)) = false
required_hold fs (some (text t)) = false
required_hold fs (some (object gs)) = false

-- The schema of a property: of one that is not listed none, unless additional ones are refused.
abbrev pub listed : Option JsonValue → Fields
listed (some (object properties)) = properties
listed none = end
listed (some null) = end
listed (some (boolean b)) = end
listed (some (number n)) = end
listed (some (text t)) = end
listed (some (array xs)) = end

abbrev pub refuses_others : Option JsonValue → Bool
refuses_others (some (boolean b)) = not b
refuses_others none = false
refuses_others (some null) = false
refuses_others (some (number n)) = false
refuses_others (some (text t)) = false
refuses_others (some (array xs)) = false
refuses_others (some (object fs)) = false

abbrev pub is_object : JsonValue → Bool
is_object (object fs) = true
is_object null = false
is_object (boolean b) = false
is_object (number n) = false
is_object (text t) = false
is_object (array xs) = false

unfoldable pub keyword : String → JsonValue → Option JsonValue
unfolding get
keyword key (object schema) = get key schema
keyword key null = none
keyword key (boolean b) = none
keyword key (number n) = none
keyword key (text t) = none
keyword key (array xs) = none

unfoldable pub level_holds : Platform → JsonValue → JsonValue → Bool
unfolding keyword type_holds enum_holds
level_holds p v schema =
    is_object schema
    && type_holds p v (keyword "type" schema)
    && enum_holds v (keyword "enum" schema)

unfoldable pub bounds_hold : Platform → ℕ → JsonValue → Bool
unfolding keyword
bounds_hold p n schema =
    at_least_bound p (keyword "minimum" schema) n && at_most_bound p (keyword "maximum" schema) n

unfoldable mutual
  unfolding get keyword level_holds bounds_hold required_hold

  pub conforms : Platform → JsonValue → JsonValue → Bool
  conforms p null schema = level_holds p null schema
  conforms p (boolean b) schema = level_holds p (boolean b) schema
  conforms p (text t) schema = level_holds p (text t) schema
  conforms p (number n) schema = level_holds p (number n) schema && bounds_hold p n schema
  conforms p (array xs) schema =
      level_holds p (array xs) schema && items_conform p xs (keyword "items" schema)
  conforms p (object fs) schema =
      level_holds p (object fs) schema
      && required_hold fs (keyword "required" schema)
      && fields_conform p fs (listed (keyword "properties" schema))
          (refuses_others (keyword "additionalProperties" schema))

  pub items_conform : Platform → Items → Option JsonValue → Bool
  items_conform p nil schema = true
  items_conform p (item x xs) none = true
  items_conform p (item x xs) (some schema) =
      conforms p x schema && items_conform p xs (some schema)

  pub fields_conform : Platform → Fields → Fields → Bool → Bool
  fields_conform p end properties closed = true
  fields_conform p (field k v rest) properties closed =
      let rest_conform = fields_conform p rest properties closed in
      elim (get k properties) [
        | none ↦ not closed && rest_conform
        | some one ↦ conforms p v one && rest_conform
      ]
