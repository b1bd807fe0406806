-- ===== src/Codec/ObjectSchema.antt =====
-- Schemas of objects. (output-schema-codec.ts: compileObject, restoreValue)
use dreamux.Base.{
  ◌≡◌, refl, sym, ap, ◌∙◌, String, String-discrete, Bool, true, false, includes, ◌&&◌, ◌||◌, Option,
  none, some, List, Bool-cases, inl, inr, arith,
}
use dreamux.Base.Result.{returned, Result-cases}
use dreamux.Codec.Json.{
  JsonValue, null, boolean, number, text, array, object, Fields, end, field, get, keys, texts,
  is_null,
}
use dreamux.Codec.Schema.{object_type, Platform, type_name, is_container, as_schema, sort_by}
use dreamux.Codec.Level.{Level, wire_level}
use dreamux.Codec.Compile.{
  is_known, CompiledSchema, Below, PlannedProperties, object_plan, is_false, required_properties,
  compile_properties, compile_object,
}
use dreamux.Codec.Restore.{restore_value}
use dreamux.Codec.Conformance.{
  is_of_type, keyword, required_hold, refuses_others, listed, conforms, fields_conform,
}
use dreamux.Codec.Levels.{IsLevel, get-wire_level}
use dreamux.Codec.Leaves.{Restores, conforms-level_holds}
use dreamux.Codec.Containers.{IsSound, container_level, container_typed, container_null}
use dreamux.Codec.Objects.{all_present, has_all-texts, mixed_conform_start}
use dreamux.Codec.Properties.{IsExclusive, RestoresFields, restore_fields_back}
use dreamux.Codec.Names.{
  includes-sort_by, includes-keys, are_unique-keys, are_unique-sort_by, required_hold_lem,
  required_present,
}

-- The keywords of a compiled object.
abbrev object_part : Fields → List String → Fields
object_part wires names =
    field "properties" (object wires)
      (field "required" (array (texts names)) (field "additionalProperties" (boolean false) end))

is_false-refuses_others : (d : Option JsonValue) → is_false d ≡ refuses_others d
is_false-refuses_others none = refl
is_false-refuses_others (some null) = refl
is_false-refuses_others (some (boolean b)) = refl
is_false-refuses_others (some (number n)) = refl
is_false-refuses_others (some (text t)) = refl
is_false-refuses_others (some (array xs)) = refl
is_false-refuses_others (some (object fs)) = refl

and_left : (a b : Bool) → (a && b) ≡ true → a ≡ true
and_left a b h = ground arith

and_right : (a b : Bool) → (a && b) ≡ true → b ≡ true
and_right a b h = ground arith

-- The parts of a wire object, by what its keywords are.
parts_same :
    (p : Platform) (fs : Fields) (asked properties others : Option JsonValue) (names : List String)
    → (wires : Fields) → asked ≡ some (array (texts names))
    → properties ≡ some (object wires)
    → others ≡ some (boolean false)
    → (required_hold fs asked && fields_conform p fs (listed properties) (refuses_others others))
      ≡ (all_present names fs && fields_conform p fs wires true)
unfolding required_hold
parts_same p fs asked properties others names wires a q o =
    let all = has_all-texts fs names in rw (a, q, o, all) refl

conforms_parts :
    (p : Platform) (fs schema : Fields)
    → conforms p (object fs) (object schema) ≡ true
    → (required_hold fs (get "required" schema)
        && fields_conform p fs
            (listed (get "properties" schema))
            (refuses_others (get "additionalProperties" schema)))
      ≡ true
unfolding conforms keyword
conforms_parts p fs schema h = ground arith

pub as_schema_lem :
    (d : Option JsonValue) (fs : Fields) → as_schema d ≡ returned fs → d ≡ some (object fs)
as_schema_lem none fs h = ground arith
as_schema_lem (some null) fs h = ground arith
as_schema_lem (some (boolean b)) fs h = ground arith
as_schema_lem (some (number n)) fs h = ground arith
as_schema_lem (some (text t)) fs h = ground arith
as_schema_lem (some (array xs)) fs h = ground arith
as_schema_lem (some (object gs)) fs h = ground arith

object_back :
    (p : Platform) (schema properties : Fields) (optional : Bool) (level : Level)
    → (required names : List String) (done : Fields × PlannedProperties) (v : JsonValue)
    → (l : IsLevel p schema optional level) → level.level_type ≡ object_type
    → get "properties" schema ≡ some (object properties)
    → is_false (get "additionalProperties" schema) ≡ true
    → ((fs : Fields) → required_hold fs (get "required" schema) ≡ all_present required fs)
    → ((fs : Fields)
        → all_present names fs ≡ true
        → fields_conform p fs done.0 true ≡ true
        → RestoresFields p properties required done.1 fs)
    → (is_of_type p v "object" || (l.nullable && is_null v)) ≡ true
    → conforms p v (object (wire_level level (object_part done.0 names))) ≡ true
    → Restores p (object schema) (object_plan level.level_accepts_null done.1) v
unfolding get conforms keyword restore_value String-discrete
object_back p schema properties optional level required names done null l t props closed asks each
      typed holds =
    let container : is_container level.level_type ≡ true = rw t refl in
    let accepted = container_null p schema optional level l container (ground arith) in
    (
      null,
      rw accepted refl,
      container_level p schema optional level null l container (rw t (ground arith)),
    )
object_back p schema properties optional level required names done (object fs) l t props closed asks
      each typed holds =
    let container : is_container level.level_type ≡ true = rw t refl in
    let rest = object_part done.0 names in
    let wire_properties = get-wire_level "properties" level rest refl refl refl in
    let wire_required = get-wire_level "required" level rest refl refl refl in
    let wire_closed = get-wire_level "additionalProperties" level rest refl refl refl in
    let wire = wire_level level rest in
    let all = has_all-texts fs names in
    let demands : (required_hold fs (get "required" wire)
          && fields_conform p fs (listed (get "properties" wire))
              (refuses_others (get "additionalProperties" wire)))
        ≡ true =
      conforms_parts p fs wire holds in
    let there : (all_present names fs && fields_conform p fs done.0 true) ≡ true =
      sym (
        parts_same p fs (get "required" wire) (get "properties" wire)
          (get "additionalProperties" wire) names done.0 wire_required wire_properties wire_closed)
      ∙ demands in
    let r =
      each fs (and_left (all_present names fs) (fields_conform p fs done.0 true) there)
        (and_right (all_present names fs) (fields_conform p fs done.0 true) there) in
    let whole = container_level p schema optional level (object r.0) l container (rw t refl) in
    let asked = asks r.0 in
    let shut = sym (is_false-refuses_others (get "additionalProperties" schema)) ∙ closed in
    (object r.0, rw (r.1) refl, ground (arith, r.2, r.3))
object_back p schema properties optional level required names done (boolean b) l t props closed asks
      each typed holds =
    ground arith
object_back p schema properties optional level required names done (number n) l t props closed asks
      each typed holds =
    ground arith
object_back p schema properties optional level required names done (text u) l t props closed asks
      each typed holds =
    ground arith
object_back p schema properties optional level required names done (array xs) l t props closed asks
      each typed holds =
    ground arith

pub compile_object_back :
    (p : Platform) (below : Below) (schema : Fields) (optional : Bool) (level : Level)
    → (c : CompiledSchema) (v : JsonValue) → IsSound p below
    → IsExclusive below
    → IsLevel p schema optional level
    → level.level_type ≡ object_type
    → compile_object p below schema level ≡ returned c
    → (optional && is_null v) ≡ false
    → conforms p v (object c.wire_schema) ≡ true
    → Restores p (object schema) c.plan v
unfolding compile_object
compile_object_back p below schema optional level c v sound exclusive l t h present holds =
    elim (Bool-cases (is_false (get "additionalProperties" schema))) [
      | inr more ↦ ground arith
      | inl closed ↦ elim (Result-cases (as_schema (get "properties" schema))) [
        | inl (e, a) ↦ ground arith
        | inr (properties, a) ↦
            elim (Result-cases (required_properties (get "required" schema) properties)) [
              | inl (e, q) ↦ ground arith
              | inr (required, q) ↦
                  let names = sort_by p.code_unit_before (keys properties) in
                  elim (Result-cases (compile_properties below properties required names)) [
                    | inl (e, d) ↦ ground arith
                    | inr (done, d) ↦
                        let wired : wire_level level (object_part done.0 names) ≡ c.wire_schema =
                          ground arith in
                        let planned : object_plan level.level_accepts_null done.1 ≡ c.plan =
                          ground arith in
                        let rest = object_part done.0 names in
                        let there = ap (λ s. conforms p v (object s)) wired ∙ holds in
                        let typed =
                          container_typed p schema optional level rest v l present
                            (conforms-level_holds p v (object (wire_level level rest)) there) in
                        let named : (is_of_type p v "object" || (l.nullable && is_null v)) ≡ true =
                          ap (λ T. is_of_type p v (type_name T) || (l.nullable && is_null v))
                            (sym t)
                          ∙ typed in
                        let unique =
                          are_unique-sort_by p.code_unit_before (keys properties)
                            (are_unique-keys properties) in
                        let known : (k : String)
                            → includes k names ≡ true
                            → is_known (get k properties) ≡ true =
                          λ k inside.
                            sym (includes-keys k properties)
                            ∙ sym (includes-sort_by k p.code_unit_before (keys properties))
                            ∙ inside in
                        rw⁻¹ planned (
                          object_back p schema properties optional level required names done v l t
                            (as_schema_lem (get "properties" schema) properties a) closed
                            (λ fs.
                              required_hold_lem (get "required" schema) properties fs required q)
                            (λ fs all conform.
                              restore_fields_back p below properties required names done sound
                                exclusive d unique known fs
                                (required_present (get "required" schema) properties fs required
                                  p.code_unit_before q all)
                                (mixed_conform_start p fs done.0 properties conform))
                            named there)
                  ]
            ]
      ]
    ]
