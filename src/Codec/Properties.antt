-- ===== src/Codec/Properties.antt =====
-- The loop over the properties of an object. (output-schema-codec.ts: compileObject, restoreValue)
use dreamux.Base.{
  ◌≡◌, refl, sym, ap, ◌∙◌, String, String-discrete, Bool, true, false, not, ◌&&◌, Option, none,
  some, List, [], ◌∷◌, includes, Option-cases, Bool-cases, inl, inr, arith,
}
use dreamux.Base.Result.{returned, Result-cases}
use dreamux.Codec.Json.{JsonValue, object, Fields, end, field, get, put, drop, is_null}
use dreamux.Codec.Schema.{Platform, are_unique}
use dreamux.Codec.Compile.{
  CompiledSchema, Below, PlannedProperties, unplanned, planned, RestorationPlan, is_known,
  compile_properties,
}
use dreamux.Codec.Restore.{restore_value, restore_fields}
use dreamux.Codec.Conformance.{fields_conform}
use dreamux.Codec.Containers.{IsSound}
use dreamux.Codec.Objects.{
  all_present, all_present-put, all_present-drop, mixed_conform, mixed_conform-end,
  mixed_conform_absent, mixed_conform-get, mixed_conform-drop, mixed_conform-put,
}

-- A property that may be absent does not accept null.
abbrev pub IsExclusive : Below → Type 0
IsExclusive below =
    (sub : Option JsonValue) (optional : Bool) (c : CompiledSchema)
    → below sub optional ≡ returned c
    → (optional && c.accepts_null) ≡ false

get-compile_properties :
    (below : Below) (properties : Fields) (required names : List String)
    → (done : Fields × PlannedProperties) (k : String)
    → compile_properties below properties required names ≡ returned done
    → includes k names ≡ false
    → get k done.0 ≡ none
unfolding compile_properties get
get-compile_properties below properties required [] done k h out = ground arith
get-compile_properties below properties required (name ∷ names) done k h out =
    elim (Result-cases (below (get name properties) (not (includes name required)))) [
      | inl (e, b) ↦ ground arith
      | inr (c, b) ↦ elim (Result-cases (compile_properties below properties required names)) [
        | inl (e, r) ↦ ground arith
        | inr (rest, r) ↦
            let later =
              get-compile_properties below properties required names rest k r (ground arith) in
            ground arith
      ]
    ]

-- What the restored object has.
abbrev pub RestoresFields : Platform → Fields → List String → PlannedProperties → Fields → Type 0
RestoresFields p properties required plan fs =
    (gs : Fields) × (restore_fields plan fs ≡ returned gs)
    × (all_present required gs ≡ true)
    × (fields_conform p gs properties true ≡ true)

restore_fields_absent :
    (name : String) (omit_null : Bool) (plan : RestorationPlan) (rest : PlannedProperties)
    (fs : Fields)
    → get name fs ≡ none
    → restore_fields (planned name omit_null plan rest) fs ≡ restore_fields rest fs
unfolding restore_value
restore_fields_absent name omit_null plan rest fs e = ground arith

restore_fields_omitted :
    (name : String) (omit_null : Bool) (plan : RestorationPlan) (rest : PlannedProperties)
    (fs : Fields)
    → (v : JsonValue) → get name fs ≡ some v
    → (omit_null && is_null v) ≡ true
    → restore_fields (planned name omit_null plan rest) fs ≡ restore_fields rest (drop name fs)
unfolding restore_value
restore_fields_omitted name omit_null plan rest fs v e h = ground arith

restore_fields_restored :
    (name : String) (omit_null : Bool) (plan : RestorationPlan) (rest : PlannedProperties)
    (fs : Fields)
    → (v w : JsonValue) → get name fs ≡ some v
    → (omit_null && is_null v) ≡ false
    → restore_value plan v ≡ returned w
    → restore_fields (planned name omit_null plan rest) fs ≡ restore_fields rest (put name w fs)
unfolding restore_value
restore_fields_restored name omit_null plan rest fs v w e h r = ground arith

-- What the restoration of other fields promises.
same-RestoresFields :
    (p : Platform) (properties : Fields) (required : List String) (before after : PlannedProperties)
    → (fs gs : Fields) → restore_fields before fs ≡ restore_fields after gs
    → RestoresFields p properties required after gs
    → RestoresFields p properties required before fs
same-RestoresFields p properties required before after fs gs same r = (r.0, same ∙ r.1, r.2, r.3)

-- One planned property, where the rest of the loop is sound.
restore_one :
    (p : Platform) (below : Below) (properties : Fields) (required : List String) (name : String)
    → (one : JsonValue) (c : CompiledSchema) (rest : Fields × PlannedProperties) (fs : Fields)
    → IsSound p below
    → (not (includes name required) && c.accepts_null) ≡ false
    → get name properties ≡ some one
    → below (some one) (not (includes name required)) ≡ returned c
    → get name rest.0 ≡ none
    → ((gs : Fields)
        → all_present required gs ≡ true
        → mixed_conform p gs rest.0 properties ≡ true
        → RestoresFields p properties required rest.1 gs)
    → all_present required fs ≡ true
    → mixed_conform p fs (field name (object c.wire_schema) rest.0) properties ≡ true
    → RestoresFields p properties required
        (planned name (not (includes name required) && not c.accepts_null) c.plan rest.1)
        fs
restore_one p below properties required name one c rest fs sound exclusive listed b once next
      present mixed =
    let optional = not (includes name required) in
    let omit = optional && not c.accepts_null in
    let plan = planned name omit c.plan rest.1 in
    let wire = object c.wire_schema in
    elim (Option-cases (get name fs)) [
      | inl e ↦
          same-RestoresFields p properties required plan rest.1 fs fs
            (restore_fields_absent name omit c.plan rest.1 fs e)
            (next fs present
              (sym (mixed_conform_absent p name wire fs rest.0 properties e) ∙ mixed))
      | inr (v, e) ↦ elim (Bool-cases (omit && is_null v)) [
        | inl omitted ↦
            let out : includes name required ≡ false = ground arith in
            same-RestoresFields p properties required plan rest.1 fs (drop name fs)
              (restore_fields_omitted name omit c.plan rest.1 fs v e omitted)
              (next (drop name fs) (all_present-drop required name fs out ∙ present)
                (mixed_conform-drop p name wire fs rest.0 properties mixed))
        | inr kept ↦
            let w =
              sound one optional c b v (ground arith)
                (mixed_conform-get p name wire v fs rest.0 properties e mixed) in
            same-RestoresFields p properties required plan rest.1 fs (put name w.0 fs)
              (restore_fields_restored name omit c.plan rest.1 fs v w.0 e kept w.1)
              (next (put name w.0 fs) (all_present-put required name w.0 fs ∙ present)
                (mixed_conform-put p name wire w.0 one fs rest.0 properties once listed w.2 mixed))
      ]
    ]

includes_first : (name : String) (names : List String) → includes name (name ∷ names) ≡ true
includes_first name names = elim (String-discrete name name) [
  | yes same ↦ ground arith
  | no differ ↦ elim (differ refl) [ ]
]

includes_later :
    (k name : String) (names : List String)
    → includes k names ≡ true
    → includes k (name ∷ names) ≡ true
includes_later k name names later = ground arith

abbrev nothing_left : Fields × PlannedProperties
nothing_left = (end, unplanned)

abbrev one_more :
    String → Bool → CompiledSchema → Fields × PlannedProperties → Fields × PlannedProperties
one_more name optional c rest = (
  field name (object c.wire_schema) rest.0,
  planned name (optional && not c.accepts_null) c.plan rest.1,
)

pub restore_fields_back :
    (p : Platform) (below : Below) (properties : Fields) (required names : List String)
    → (done : Fields × PlannedProperties) → IsSound p below
    → IsExclusive below
    → compile_properties below properties required names ≡ returned done
    → are_unique names ≡ true
    → ((k : String) → includes k names ≡ true → is_known (get k properties) ≡ true)
    → (fs : Fields) → all_present required fs ≡ true
    → mixed_conform p fs done.0 properties ≡ true
    → RestoresFields p properties required done.1 fs
unfolding compile_properties are_unique restore_value
restore_fields_back p below properties required [] done sound exclusive h unique known fs present
      mixed =
    let empty : nothing_left ≡ done = ground arith in
    let there = ap (λ d. mixed_conform p fs d.0 properties) empty ∙ mixed in
    rw⁻¹ empty (fs, refl, present, sym (mixed_conform-end p fs properties) ∙ there)
restore_fields_back p below properties required (name ∷ names) done sound exclusive h unique known
      fs present mixed =
    elim (Result-cases (below (get name properties) (not (includes name required)))) [
      | inl (e, b) ↦ ground arith
      | inr (c, b) ↦ elim (Result-cases (compile_properties below properties required names)) [
        | inl (e, r) ↦ ground arith
        | inr (rest, r) ↦ elim (Option-cases (get name properties)) [
          | inl missing ↦ let here = known name (includes_first name names) in ground arith
          | inr (one, listed) ↦
              let optional = not (includes name required) in
              let made : one_more name optional c rest ≡ done = ground arith in
              let there = ap (λ d. mixed_conform p fs d.0 properties) made ∙ mixed in
              rw⁻¹ made (
                restore_one p below properties required name one c rest fs sound
                  (exclusive (get name properties) optional c b) listed
                  (ap (λ d. below d optional) (sym listed) ∙ b)
                  (get-compile_properties below properties required names rest name r
                    (ground arith))
                  (λ gs kept mid.
                    restore_fields_back p below properties required names rest sound exclusive r
                      (ground arith) (λ k later. known k (includes_later k name names later)) gs
                      kept mid)
                  present there)
        ]
      ]
    ]
