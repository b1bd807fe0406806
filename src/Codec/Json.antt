-- ===== src/Codec/Json.antt =====
-- JSON values. (codex/src/output-schema-codec.ts: JsonValue)
use dreamux.Base.{
  ℕ, String, Bool, true, false, not, Option, none, some, List, [], ◌∷◌, if◌then◌else◌, ◌==◌, keep,
  max, suc,
}

mutual
  pub data JsonValue : Type 0 where
    null : JsonValue
    boolean : Bool → JsonValue
    number : ℕ → JsonValue
    text : String → JsonValue
    array : Items → JsonValue
    object : Fields → JsonValue

  pub data Fields : Type 0 where
    end : Fields
    field : String → JsonValue → Fields → Fields

  pub data Items : Type 0 where
    nil : Items
    item : JsonValue → Items → Items

-- `value[key]`, none where it is undefined.
unfoldable pub get : String → Fields → Option JsonValue
get key end = none
get key (field k v rest) = if k == key then some v else get key rest

-- `value[key] = v`, where the key is there.
unfoldable pub put : String → JsonValue → Fields → Fields
put key v end = end
put key v (field k old rest) = field k (if k == key then v else old) (put key v rest)

-- `delete value[key]`.
unfoldable pub drop : String → Fields → Fields
drop key end = end
drop key (field k v rest) = if k == key then drop key rest else field k v (drop key rest)

-- `Object.keys`.
unfoldable pub keys : Fields → List String
keys end = []
keys (field k v rest) = k ∷ keep (λ j. not (j == k)) (keys rest)

abbrev pub is_null : JsonValue → Bool
is_null null = true
is_null (boolean b) = false
is_null (number n) = false
is_null (text t) = false
is_null (array xs) = false
is_null (object fs) = false

abbrev pub is_text : String → JsonValue → Bool
is_text t null = false
is_text t (boolean b) = false
is_text t (number n) = false
is_text t (text u) = u == t
is_text t (array xs) = false
is_text t (object fs) = false

unfoldable pub texts : List String → Items
texts [] = nil
texts (t ∷ ts) = item (text t) (texts ts)

unfoldable pub items_of : List JsonValue → Items
items_of [] = nil
items_of (v ∷ vs) = item v (items_of vs)

-- How deep the arrays and objects of a value are nested.
unfoldable mutual
  pub depth : JsonValue → ℕ
  depth null = 0
  depth (boolean b) = 0
  depth (number n) = 0
  depth (text t) = 0
  depth (object fs) = suc (depth_fields fs)
  depth (array xs) = suc (depth_items xs)

  pub depth_fields : Fields → ℕ
  depth_fields end = 0
  depth_fields (field k v fs) = max (depth v) (depth_fields fs)

  pub depth_items : Items → ℕ
  depth_items nil = 0
  depth_items (item x xs) = max (depth x) (depth_items xs)
