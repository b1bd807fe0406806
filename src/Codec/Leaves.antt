-- ===== src/Codec/Leaves.antt =====
-- Schemas without parts: texts, numbers, Booleans and null. (output-schema-codec.ts)
use dreamux.Base.{
  ℕ, ◌≡◌, refl, sym, ap, ◌∙◌, String, String-discrete, Bool, true, false, ◌&&◌, Option, none, some,
  List, [], ◌∷◌, includes, inl, inr, arith,
}
use dreamux.Base.Result.{returned, Result-cases}
use dreamux.Codec.Json.{
  JsonValue, null, boolean, number, text, array, object, Items, nil, item, Fields, end, field, get,
  is_null,
}
use dreamux.Codec.Schema.{Platform}
use dreamux.Codec.Level.{Level, wire_level, all_known, keywords}
use dreamux.Codec.Compile.{
  RestorationPlan, value_plan, CompiledSchema, bound, bounded, compile_number,
}
use dreamux.Codec.Restore.{restore_value}
use dreamux.Codec.Conformance.{
  keyword, level_holds, bounds_hold, conforms, items_conform, fields_conform,
}
use dreamux.Codec.Levels.{IsLevel, wire_level_back, get-wire_level}

get_unknown :
    (key : String) (allowed : List String) (fs : Fields)
    → all_known allowed fs ≡ true
    → includes key allowed ≡ false
    → get key fs ≡ none
unfolding get all_known
get_unknown key allowed end known out = refl
get_unknown key allowed (field k v rest) known out = elim (String-discrete k key) [
  | yes same ↦ let listed = ap (λ j. includes j allowed) same in ground arith
  | no differ ↦ ground (arith, get_unknown key allowed rest)
]

fields_conform_open : (p : Platform) (fs : Fields) → fields_conform p fs end false ≡ true
unfolding conforms
fields_conform_open p end = refl
fields_conform_open p (field k v rest) = ground (arith, fields_conform_open p rest)

items_conform-none : (p : Platform) (xs : Items) → items_conform p xs none ≡ true
unfolding conforms
items_conform-none p nil = refl
items_conform-none p (item x xs) = refl

pub conforms-level_holds :
    (p : Platform) (v schema : JsonValue)
    → conforms p v schema ≡ true
    → level_holds p v schema ≡ true
unfolding conforms
conforms-level_holds p null schema h = h
conforms-level_holds p (boolean b) schema h = h
conforms-level_holds p (text t) schema h = h
conforms-level_holds p (number n) schema h = ground arith
conforms-level_holds p (array xs) schema h = ground arith
conforms-level_holds p (object fs) schema h = ground arith

-- A schema without the keywords of arrays and objects asks no more than its level and its bounds.
leaf_conforms :
    (p : Platform) (v : JsonValue) (schema : Fields)
    → level_holds p v (object schema) ≡ true
    → ((n : ℕ) → v ≡ number n → bounds_hold p n (object schema) ≡ true)
    → get "items" schema ≡ none
    → get "required" schema ≡ none
    → get "properties" schema ≡ none
    → get "additionalProperties" schema ≡ none
    → conforms p v (object schema) ≡ true
unfolding conforms keyword
leaf_conforms p null schema h b i r q a = h
leaf_conforms p (boolean x) schema h b i r q a = h
leaf_conforms p (text t) schema h b i r q a = h
leaf_conforms p (number n) schema h b i r q a = let bounds = b n refl in ground arith
leaf_conforms p (array xs) schema h b i r q a = let all = items_conform-none p xs in ground arith
leaf_conforms p (object fs) schema h b i r q a = let all = fields_conform_open p fs in ground arith

bounds_hold-none :
    (p : Platform) (n : ℕ) (schema : Fields)
    → get "minimum" schema ≡ none
    → get "maximum" schema ≡ none
    → bounds_hold p n (object schema) ≡ true
unfolding bounds_hold keyword
bounds_hold-none p n schema a b = ground arith

abbrev as_number : Option ℕ → Option JsonValue
as_number none = none
as_number (some n) = some (number n)

bound_lem : (d : Option JsonValue) (n : Option ℕ) → bound d ≡ returned n → d ≡ as_number n
bound_lem none n h = ground arith
bound_lem (some (number m)) n h = ground arith
bound_lem (some null) n h = ground arith
bound_lem (some (boolean b)) n h = ground arith
bound_lem (some (text t)) n h = ground arith
bound_lem (some (array xs)) n h = ground arith
bound_lem (some (object fs)) n h = ground arith

get-bounded :
    (lower upper : Option ℕ)
    → (get "minimum" (bounded "minimum" lower (bounded "maximum" upper end)) ≡ as_number lower)
      × (get "maximum" (bounded "minimum" lower (bounded "maximum" upper end)) ≡ as_number upper)
      × (get "enum" (bounded "minimum" lower (bounded "maximum" upper end)) ≡ none)
unfolding get String-discrete
get-bounded none none = (refl, refl, refl)
get-bounded none (some u) = (refl, refl, refl)
get-bounded (some l) none = (refl, refl, refl)
get-bounded (some l) (some u) = (refl, refl, refl)

-- What the restoration promises: it succeeds, with a value that conforms to the schema.
abbrev pub Restores : Platform → JsonValue → RestorationPlan → JsonValue → Type 0
Restores p schema plan v =
    (w : JsonValue) × (restore_value plan v ≡ returned w) × (conforms p w schema ≡ true)

abbrev pub common_keywords : List String
common_keywords = "type" ∷ "description" ∷ "enum" ∷ []

abbrev number_keywords : List String
number_keywords = "type" ∷ "description" ∷ "enum" ∷ "minimum" ∷ "maximum" ∷ []

pub compile_plain_back :
    (p : Platform) (schema : Fields) (optional : Bool) (level : Level) (v : JsonValue)
    → IsLevel p schema optional level
    → keywords level.level_type ≡ common_keywords
    → (optional && is_null v) ≡ false
    → conforms p v (object (wire_level level end)) ≡ true
    → Restores p (object schema) value_plan v
unfolding get restore_value String-discrete
compile_plain_back p schema optional level v l plain present holds =
    let known : all_known common_keywords schema ≡ true =
      ap (λ a. all_known a schema) (sym plain) ∙ l.known in
    let unknown : (key : String) → includes key common_keywords ≡ false → get key schema ≡ none =
      λ key out. get_unknown key common_keywords schema known out in
    let level_back =
      wire_level_back p v schema optional level end l refl present
        (conforms-level_holds p v (object (wire_level level end)) holds) in
    (
      v,
      refl,
      leaf_conforms p v schema level_back
          (λ n e. bounds_hold-none p n schema (unknown "minimum" refl) (unknown "maximum" refl))
          (unknown "items" refl) (unknown "required" refl) (unknown "properties" refl)
          (unknown "additionalProperties" refl),
    )

bounds_hold_same :
    (p : Platform) (n : ℕ) (a b : Fields)
    → get "minimum" a ≡ get "minimum" b
    → get "maximum" a ≡ get "maximum" b
    → bounds_hold p n (object a) ≡ true
    → bounds_hold p n (object b) ≡ true
unfolding bounds_hold keyword
bounds_hold_same p n a b lower upper h = ground arith

conforms-bounds_hold :
    (p : Platform) (v schema : JsonValue)
    → conforms p v schema ≡ true
    → (n : ℕ) → v ≡ number n
    → bounds_hold p n schema ≡ true
unfolding conforms
conforms-bounds_hold p v schema h n e =
    let there = ap (λ w. conforms p w schema) (sym e) ∙ h in ground arith

number_back :
    (p : Platform) (schema : Fields) (optional : Bool) (level : Level) (v : JsonValue)
    → (lower upper : Option ℕ) → IsLevel p schema optional level
    → keywords level.level_type ≡ number_keywords
    → bound (get "minimum" schema) ≡ returned lower
    → bound (get "maximum" schema) ≡ returned upper
    → (optional && is_null v) ≡ false
    → conforms p v
        (object (wire_level level (bounded "minimum" lower (bounded "maximum" upper end))))
      ≡ true
    → conforms p v (object schema) ≡ true
unfolding String-discrete
number_back p schema optional level v lower upper l numeric lo hi present holds =
    let known : all_known number_keywords schema ≡ true =
      ap (λ a. all_known a schema) (sym numeric) ∙ l.known in
    let unknown : (key : String) → includes key number_keywords ≡ false → get key schema ≡ none =
      λ key out. get_unknown key number_keywords schema known out in
    let tail = bounded "minimum" lower (bounded "maximum" upper end) in
    let got = get-bounded lower upper in
    let level_back =
      wire_level_back p v schema optional level tail l got.2 present
        (conforms-level_holds p v (object (wire_level level tail)) holds) in
    let lower_same =
      get-wire_level "minimum" level tail refl refl refl
      ∙ got.0
      ∙ sym (bound_lem (get "minimum" schema) lower lo) in
    let upper_same =
      get-wire_level "maximum" level tail refl refl refl
      ∙ got.1
      ∙ sym (bound_lem (get "maximum" schema) upper hi) in
    leaf_conforms p v schema level_back
      (λ n e.
        bounds_hold_same p n (wire_level level tail) schema lower_same upper_same
          (conforms-bounds_hold p v (object (wire_level level tail)) holds n e))
      (unknown "items" refl) (unknown "required" refl) (unknown "properties" refl)
      (unknown "additionalProperties" refl)

pub compile_number_back :
    (p : Platform) (schema : Fields) (optional : Bool) (level : Level) (c : CompiledSchema)
    → (v : JsonValue) → IsLevel p schema optional level
    → keywords level.level_type ≡ number_keywords
    → compile_number p schema level ≡ returned c
    → (optional && is_null v) ≡ false
    → conforms p v (object c.wire_schema) ≡ true
    → Restores p (object schema) c.plan v
unfolding compile_number restore_value
compile_number_back p schema optional level c v l numeric h present holds =
    elim (Result-cases (bound (get "minimum" schema))) [
      | inl (e, lo) ↦ ground arith
      | inr (lower, lo) ↦ elim (Result-cases (bound (get "maximum" schema))) [
        | inl (e, hi) ↦ ground arith
        | inr (upper, hi) ↦
            let wired : c.wire_schema
                ≡ wire_level level (bounded "minimum" lower (bounded "maximum" upper end)) =
              ground arith in
            let planned : c.plan ≡ value_plan = ground arith in
            (
              v,
              rw planned refl,
              number_back p schema optional level v lower upper l numeric lo hi present
                  (ap (λ s. conforms p v (object s)) (sym wired) ∙ holds),
            )
      ]
    ]
