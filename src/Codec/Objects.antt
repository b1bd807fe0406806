-- ===== src/Codec/Objects.antt =====
-- Objects in the middle of the restoration. (output-schema-codec.ts: restoreValue)
use dreamux.Base.{
  ◌≡◌, refl, ap, ◌∙◌, String, String-discrete, Bool, true, false, ◌&&◌, Option, none, some, List,
  [], ◌∷◌, if◌then◌else◌, ◌==◌, includes, arith,
}
use dreamux.Codec.Json.{JsonValue, Fields, end, field, get, put, drop, texts}
use dreamux.Codec.Schema.{Platform}
use dreamux.Codec.Compile.{is_known}
use dreamux.Codec.Conformance.{has_all, conforms, fields_conform}

get-put :
    (k name : String) (v : JsonValue) (fs : Fields)
    → get k (put name v fs)
      ≡ (if name == k then (if is_known (get k fs) then some v else none) else get k fs)
unfolding get put
get-put k name v end = ground arith
get-put k name v (field j u rest) = ground (arith, get-put k name v rest)

get-drop :
    (k name : String) (fs : Fields) → get k (drop name fs) ≡ (if name == k then none else get k fs)
unfolding get drop
get-drop k name end = ground arith
get-drop k name (field j u rest) = ground (arith, get-drop k name rest)

-- All these keys are there.
abbrev pub all_present : List String → Fields → Bool
all_present [] fs = true
all_present (r ∷ rs) fs = is_known (get r fs) && all_present rs fs

pub all_present-put :
    (rs : List String) (name : String) (v : JsonValue) (fs : Fields)
    → all_present rs (put name v fs) ≡ all_present rs fs
all_present-put [] name v fs = refl
all_present-put (r ∷ rs) name v fs =
    let law = get-put r name v fs in ground (arith, all_present-put rs name v fs)

pub all_present-drop :
    (rs : List String) (name : String) (fs : Fields)
    → includes name rs ≡ false
    → all_present rs (drop name fs) ≡ all_present rs fs
all_present-drop [] name fs out = refl
all_present-drop (r ∷ rs) name fs out =
    let law = get-drop r name fs in
    elim (String-discrete name r) [
      | yes same ↦ let there = ap (λ k. r == k) same in ground arith
      | no differ ↦ ground (arith, all_present-drop rs name fs)
    ]

pub has_all-texts : (fs : Fields) (rs : List String) → has_all fs (texts rs) ≡ all_present rs fs
unfolding has_all texts
has_all-texts fs [] = refl
has_all-texts fs (r ∷ rs) = ground (arith, has_all-texts fs rs)

-- The value of a property that is still to restore conforms to its wire schema, of any other to its
-- schema.
abbrev pub entry_conforms : Platform → JsonValue → Option JsonValue → Option JsonValue → Bool
entry_conforms p v (some wire) schema = conforms p v wire
entry_conforms p v none (some one) = conforms p v one
entry_conforms p v none none = false

unfoldable pub mixed_conform : Platform → Fields → Fields → Fields → Bool
mixed_conform p end wires properties = true
mixed_conform p (field k v rest) wires properties =
    entry_conforms p v (get k wires) (get k properties) && mixed_conform p rest wires properties

pub mixed_conform-end :
    (p : Platform) (fs properties : Fields)
    → mixed_conform p fs end properties ≡ fields_conform p fs properties true
unfolding mixed_conform conforms get
mixed_conform-end p end properties = refl
mixed_conform-end p (field k v rest) properties =
    ground (arith, mixed_conform-end p rest properties)

pub mixed_conform_start :
    (p : Platform) (fs wires properties : Fields)
    → fields_conform p fs wires true ≡ true
    → mixed_conform p fs wires properties ≡ true
unfolding mixed_conform conforms
mixed_conform_start p end wires properties h = refl
mixed_conform_start p (field k v rest) wires properties h =
    ground (arith, mixed_conform_start p rest wires properties)

pub mixed_conform_absent :
    (p : Platform) (name : String) (wire : JsonValue) (fs wires properties : Fields)
    → get name fs ≡ none
    → mixed_conform p fs (field name wire wires) properties ≡ mixed_conform p fs wires properties
unfolding mixed_conform get
mixed_conform_absent p name wire end wires properties h = refl
mixed_conform_absent p name wire (field k v rest) wires properties h =
    elim (String-discrete k name) [
      | yes same ↦ ground arith
      | no differ ↦ elim (String-discrete name k) [
        | yes other ↦ ground arith
        | no apart ↦ ground (arith, mixed_conform_absent p name wire rest wires properties)
      ]
    ]

pub mixed_conform-get :
    (p : Platform) (name : String) (wire v : JsonValue) (fs wires properties : Fields)
    → get name fs ≡ some v
    → mixed_conform p fs (field name wire wires) properties ≡ true
    → conforms p v wire ≡ true
unfolding mixed_conform get
mixed_conform-get p name wire v end wires properties found h = ground arith
mixed_conform-get p name wire v (field k u rest) wires properties found h =
    elim (String-discrete k name) [
      | yes same ↦
          let there : get k (field name wire wires) ≡ some wire = ground arith in ground arith
      | no differ ↦ ground (arith, mixed_conform-get p name wire v rest wires properties)
    ]

pub mixed_conform-drop :
    (p : Platform) (name : String) (wire : JsonValue) (fs wires properties : Fields)
    → mixed_conform p fs (field name wire wires) properties ≡ true
    → mixed_conform p (drop name fs) wires properties ≡ true
unfolding mixed_conform get drop
mixed_conform-drop p name wire end wires properties h = refl
mixed_conform-drop p name wire (field k u rest) wires properties h = elim (String-discrete k name) [
  | yes same ↦ ground (arith, mixed_conform-drop p name wire rest wires properties)
  | no differ ↦ elim (String-discrete name k) [
    | yes other ↦ ground arith
    | no apart ↦ ground (arith, mixed_conform-drop p name wire rest wires properties)
  ]
]

pub mixed_conform-put :
    (p : Platform) (name : String) (wire v one : JsonValue) (fs wires properties : Fields)
    → get name wires ≡ none
    → get name properties ≡ some one
    → conforms p v one ≡ true
    → mixed_conform p fs (field name wire wires) properties ≡ true
    → mixed_conform p (put name v fs) wires properties ≡ true
unfolding mixed_conform get put
mixed_conform-put p name wire v one end wires properties once listed fits h = refl
mixed_conform-put p name wire v one (field k u rest) wires properties once listed fits h =
    elim (String-discrete k name) [
      | yes same ↦
          let gone : get k wires ≡ none = ap (λ j. get j wires) same ∙ once in
          let here : get k properties ≡ some one = ap (λ j. get j properties) same ∙ listed in
          ground (arith, mixed_conform-put p name wire v one rest wires properties)
      | no differ ↦ elim (String-discrete name k) [
        | yes other ↦ ground arith
        | no apart ↦ ground (arith, mixed_conform-put p name wire v one rest wires properties)
      ]
    ]
