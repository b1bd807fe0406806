-- ===== src/Codec/Containers.antt =====
-- The level of an array or an object schema, and arrays. (output-schema-codec.ts)
use dreamux.Base.{
  ◌≡◌, refl, sym, ap, ◌∙◌, String-discrete, Bool, true, false, ◌&&◌, ◌||◌, Option, none, some, List,
  inl, inr, arith,
}
use dreamux.Base.Result.{returned, Result-cases}
use dreamux.Codec.Json.{
  JsonValue, null, boolean, number, text, array, object, Items, nil, item, Fields, end, field, get,
  is_null,
}
use dreamux.Codec.Schema.{SupportedType, array_type, Platform, type_name, is_container}
use dreamux.Codec.Level.{Level, wire_level, wire_type, validate_enum_types}
use dreamux.Codec.Compile.{
  CompiledSchema, Below, RestorationPlan, array_plan, items_schema, compile_array,
}
use dreamux.Codec.Restore.{map_items, restore_value}
use dreamux.Codec.Conformance.{
  is_of_type, type_holds, keyword, level_holds, conforms, items_conform,
}
use dreamux.Codec.Typing.{schema_type_lem, type_holds-wire_type}
use dreamux.Codec.Levels.{IsLevel, schema_enum_lem, get-type-wire_level, get-wire_level}
use dreamux.Codec.Leaves.{Restores, conforms-level_holds}

-- What the schemas below promise.
abbrev pub IsSound : Platform → Below → Type 0
IsSound p below =
    (one : JsonValue) (optional : Bool) (c : CompiledSchema)
    → below (some one) optional ≡ returned c
    → (v : JsonValue) → (optional && is_null v) ≡ false
    → conforms p v (object c.wire_schema) ≡ true
    → Restores p one c.plan v

values_none :
    (p : Platform) (values : Option (List JsonValue)) (type : SupportedType) (nullable : Bool)
    → is_container type ≡ true
    → validate_enum_types p values type nullable ≡ returned tt
    → values ≡ none
unfolding validate_enum_types
values_none p none type nullable c h = refl
values_none p (some vs) type nullable c h = ground arith

pub container_level :
    (p : Platform) (schema : Fields) (optional : Bool) (level : Level) (w : JsonValue)
    → (l : IsLevel p schema optional level) → is_container level.level_type ≡ true
    → (is_of_type p w (type_name level.level_type) || (l.nullable && is_null w)) ≡ true
    → level_holds p w (object schema) ≡ true
unfolding level_holds keyword
container_level p schema optional level w l c typed =
    let types = schema_type_lem p w (get "type" schema) level.level_type l.nullable l.typed in
    let enums = schema_enum_lem p w (get "enum" schema) l.values l.enumerates in
    let unlisted = values_none p l.values level.level_type l.nullable c l.fits in ground arith

-- A value of the wire level has the type of the level, or is a null that the level accepts.
pub container_typed :
    (p : Platform) (schema : Fields) (optional : Bool) (level : Level) (rest : Fields)
    (v : JsonValue)
    → (l : IsLevel p schema optional level) → (optional && is_null v) ≡ false
    → level_holds p v (object (wire_level level rest)) ≡ true
    → (is_of_type p v (type_name level.level_type) || (l.nullable && is_null v)) ≡ true
unfolding level_holds keyword
container_typed p schema optional level rest v l present holds =
    let type_of = get-type-wire_level level rest in
    let wired : type_holds p v (some level.level_wire_type) ≡ true = ground arith in
    let there : type_holds p v (some (wire_type level.level_type (optional || l.nullable))) ≡ true =
      ap (λ t. type_holds p v (some t)) (sym l.wire_typed) ∙ wired in
    let whole = type_holds-wire_type p v level.level_type (optional || l.nullable) in ground arith

pub container_null :
    (p : Platform) (schema : Fields) (optional : Bool) (level : Level)
    → (l : IsLevel p schema optional level) → is_container level.level_type ≡ true
    → l.nullable ≡ true
    → level.level_accepts_null ≡ true
container_null p schema optional level l c n =
    let unlisted = values_none p l.values level.level_type l.nullable c l.fits in
    let accepted = l.null_accepted in ground arith

map_items_back :
    (p : Platform) (plan : RestorationPlan) (wire one : JsonValue) (xs : Items)
    → ((v : JsonValue) → conforms p v wire ≡ true → Restores p one plan v)
    → items_conform p xs (some wire) ≡ true
    → (ys : Items) × (map_items (restore_value plan) xs ≡ returned ys)
      × (items_conform p ys (some one) ≡ true)
unfolding map_items conforms
map_items_back p plan wire one nil each h = (nil, refl, refl)
map_items_back p plan wire one (item x xs) each h =
    let first = each x (ground arith) in
    let rest = map_items_back p plan wire one xs each (ground arith) in
    let done : map_items (restore_value plan) (item x xs) ≡ returned (item first.0 rest.0) =
      rw (first.1, rest.1) refl in
    (item first.0 rest.0, done, ground (arith, first.2, rest.2))

array_back :
    (p : Platform) (schema : Fields) (optional : Bool) (level : Level) (one : JsonValue)
    → (items : CompiledSchema) (v : JsonValue) → (l : IsLevel p schema optional level)
    → level.level_type ≡ array_type
    → get "items" schema ≡ some one
    → ((x : JsonValue)
        → conforms p x (object items.wire_schema) ≡ true
        → Restores p one items.plan x)
    → (is_of_type p v "array" || (l.nullable && is_null v)) ≡ true
    → conforms p v (object (wire_level level (field "items" (object items.wire_schema) end))) ≡ true
    → Restores p (object schema) (array_plan level.level_accepts_null items.plan) v
unfolding get conforms keyword restore_value String-discrete
array_back p schema optional level one items null l t at each typed holds =
    let container : is_container level.level_type ≡ true = rw t refl in
    let accepted = container_null p schema optional level l container (ground arith) in
    (
      null,
      rw accepted refl,
      container_level p schema optional level null l container (rw t (ground arith)),
    )
array_back p schema optional level one items (array xs) l t at each typed holds =
    let container : is_container level.level_type ≡ true = rw t refl in
    let rest = field "items" (object items.wire_schema) end in
    let wire = get-wire_level "items" level rest refl refl refl in
    let parts : items_conform p xs (some (object items.wire_schema)) ≡ true = ground arith in
    let done = map_items_back p items.plan (object items.wire_schema) one xs each parts in
    let whole = container_level p schema optional level (array done.0) l container (rw t refl) in
    (array done.0, rw (done.1) refl, ground (arith, done.2))
array_back p schema optional level one items (boolean b) l t at each typed holds = ground arith
array_back p schema optional level one items (number n) l t at each typed holds = ground arith
array_back p schema optional level one items (text u) l t at each typed holds = ground arith
array_back p schema optional level one items (object fs) l t at each typed holds = ground arith

items_schema_lem :
    (d : Option JsonValue) (one : JsonValue) → items_schema d ≡ returned one → d ≡ some one
items_schema_lem none one h = ground arith
items_schema_lem (some null) one h = ground arith
items_schema_lem (some (boolean b)) one h = ground arith
items_schema_lem (some (number n)) one h = ground arith
items_schema_lem (some (text t)) one h = ground arith
items_schema_lem (some (array xs)) one h = ground arith
items_schema_lem (some (object fs)) one h = ground arith

pub compile_array_back :
    (p : Platform) (below : Below) (schema : Fields) (optional : Bool) (level : Level)
    → (c : CompiledSchema) (v : JsonValue) → IsSound p below
    → IsLevel p schema optional level
    → level.level_type ≡ array_type
    → compile_array below schema level ≡ returned c
    → (optional && is_null v) ≡ false
    → conforms p v (object c.wire_schema) ≡ true
    → Restores p (object schema) c.plan v
unfolding compile_array
compile_array_back p below schema optional level c v sound l t h present holds =
    elim (Result-cases (items_schema (get "items" schema))) [
      | inl (e, i) ↦ ground arith
      | inr (one, i) ↦ elim (Result-cases (below (some one) false)) [
        | inl (e, b) ↦ ground arith
        | inr (items, b) ↦
            let rest = field "items" (object items.wire_schema) end in
            let wired : wire_level level rest ≡ c.wire_schema = ground arith in
            let planned : array_plan level.level_accepts_null items.plan ≡ c.plan = ground arith in
            let there = ap (λ s. conforms p v (object s)) wired ∙ holds in
            let typed =
              container_typed p schema optional level rest v l present
                (conforms-level_holds p v (object (wire_level level rest)) there) in
            let named : (is_of_type p v "array" || (l.nullable && is_null v)) ≡ true =
              ap (λ T. is_of_type p v (type_name T) || (l.nullable && is_null v)) (sym t) ∙ typed in
            rw⁻¹ planned (
              array_back p schema optional level one items v l t
                (items_schema_lem (get "items" schema) one i)
                (λ x inner. sound one false items b x refl inner) named there)
      ]
    ]
