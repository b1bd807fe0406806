-- ===== src/Codec/Names.antt =====
-- The names of an object's properties, in their order, and the required ones. (output-schema-codec.ts)
use dreamux.Base.{
  ◌≡◌, refl, sym, ap, ◌∙◌, String, String-discrete, Bool, true, not, ◌&&◌, ◌||◌, Option, none, some,
  List, [], ◌∷◌, ◌++◌, ◌==◌, includes, keep, arith,
}
use dreamux.Base.Result.{returned}
use dreamux.Codec.Json.{
  JsonValue, null, boolean, number, text, array, object, Items, nil, item, Fields, end, field, get,
  keys,
}
use dreamux.Codec.Schema.{are_unique, insert_by, sort_by}
use dreamux.Codec.Compile.{is_known, required_texts, required_properties}
use dreamux.Codec.Conformance.{has_all, required_hold}
use dreamux.Codec.Objects.{all_present}

includes-insert_by :
    (k x : String) (before : String → String → Bool) (xs : List String)
    → includes k (insert_by before x xs) ≡ x == k || includes k xs
unfolding insert_by
includes-insert_by k x before [] = refl
includes-insert_by k x before (y ∷ ys) = ground (arith, includes-insert_by k x before ys)

pub includes-sort_by :
    (k : String) (before : String → String → Bool) (xs : List String)
    → includes k (sort_by before xs) ≡ includes k xs
unfolding sort_by
includes-sort_by k before [] = refl
includes-sort_by k before (x ∷ xs) =
    includes-insert_by k x before (sort_by before xs)
    ∙ ap (λ rest. x == k || rest) (includes-sort_by k before xs)

eq_sym : (a b : String) → (a == b) ≡ (b == a)
eq_sym a b = elim (String-discrete a b) [
  | yes same ↦ elim (String-discrete b a) [
    | yes back ↦ ground arith
    | no differ ↦ elim (differ (sym same)) [ ]
  ]
  | no differ ↦ elim (String-discrete b a) [
    | yes back ↦ elim (differ (sym back)) [ ]
    | no apart ↦ ground arith
  ]
]

are_unique-insert_by :
    (x : String) (before : String → String → Bool) (xs : List String)
    → are_unique (insert_by before x xs) ≡ not (includes x xs) && are_unique xs
unfolding insert_by are_unique
are_unique-insert_by x before [] = refl
are_unique-insert_by x before (y ∷ ys) =
    let inner = includes-insert_by y x before ys in
    let same = eq_sym x y in ground (arith, are_unique-insert_by x before ys)

pub are_unique-sort_by :
    (before : String → String → Bool) (xs : List String)
    → are_unique xs ≡ true
    → are_unique (sort_by before xs) ≡ true
unfolding sort_by are_unique
are_unique-sort_by before [] h = refl
are_unique-sort_by before (x ∷ xs) h =
    let rest = are_unique-sort_by before xs (ground arith) in
    let same = includes-sort_by x before xs in
    are_unique-insert_by x before (sort_by before xs) ∙ ground arith

includes-keep :
    (k : String) (p : String → Bool) (xs : List String)
    → includes k (keep p xs) ≡ true
    → (includes k xs ≡ true)
includes-keep k p [] h = ground arith
includes-keep k p (x ∷ xs) h = ground (arith, includes-keep k p xs)

are_unique-keep :
    (p : String → Bool) (xs : List String) → are_unique xs ≡ true → are_unique (keep p xs) ≡ true
unfolding are_unique
are_unique-keep p [] h = refl
are_unique-keep p (x ∷ xs) h = ground (arith, are_unique-keep p xs, includes-keep x p xs)

includes-keep_others :
    (k j : String) (xs : List String)
    → includes k (keep (λ i. not (i == j)) xs) ≡ includes k xs && not (k == j)
includes-keep_others k j [] = refl
includes-keep_others k j (x ∷ xs) = elim (String-discrete x k) [
  | yes same ↦ let other = ap (λ i. i == j) same in ground (arith, includes-keep_others k j xs)
  | no differ ↦ ground (arith, includes-keep_others k j xs)
]

pub are_unique-keys : (fs : Fields) → are_unique (keys fs) ≡ true
unfolding keys are_unique
are_unique-keys end = refl
are_unique-keys (field k v rest) =
    let out = includes-keep_others k k (keys rest) in
    let same : (k == k) ≡ true = elim (String-discrete k k) [
      | yes e ↦ ground arith
      | no d ↦ elim (d refl) [ ]
    ] in
    let inner = are_unique-keep (λ j. not (j == k)) (keys rest) (are_unique-keys rest) in
    ground arith

pub includes-keys : (k : String) (fs : Fields) → includes k (keys fs) ≡ is_known (get k fs)
unfolding keys get
includes-keys k end = refl
includes-keys k (field j v rest) =
    let others = includes-keep_others k j (keys rest) in
    let same = eq_sym j k in ground (arith, includes-keys k rest)

all_present-append :
    (rs : List String) (t : String) (fs : Fields)
    → all_present (rs ++ t ∷ []) fs ≡ all_present rs fs && is_known (get t fs)
all_present-append [] t fs = ground arith
all_present-append (r ∷ rs) t fs = ground (arith, all_present-append rs t fs)

required_texts_lem :
    (properties fs : Fields) (so_far : List String) (xs : Items) (required : List String)
    → required_texts properties so_far xs ≡ returned required
    → all_present required fs ≡ all_present so_far fs && has_all fs xs
unfolding required_texts has_all
required_texts_lem properties fs so_far nil required h = ground arith
required_texts_lem properties fs so_far (item (text t) rest) required h =
    let more = all_present-append so_far t fs in
    ground (arith, required_texts_lem properties fs (so_far ++ t ∷ []) rest required)
required_texts_lem properties fs so_far (item null rest) required h = ground arith
required_texts_lem properties fs so_far (item (boolean b) rest) required h = ground arith
required_texts_lem properties fs so_far (item (number n) rest) required h = ground arith
required_texts_lem properties fs so_far (item (array xs) rest) required h = ground arith
required_texts_lem properties fs so_far (item (object gs) rest) required h = ground arith

required_texts_known :
    (properties : Fields) (so_far : List String) (xs : Items) (required : List String)
    → required_texts properties so_far xs ≡ returned required
    → all_present so_far properties ≡ true
    → all_present required properties ≡ true
unfolding required_texts
required_texts_known properties so_far nil required h known = ground arith
required_texts_known properties so_far (item (text t) rest) required h known =
    let more = all_present-append so_far t properties in
    ground (arith, required_texts_known properties (so_far ++ t ∷ []) rest required)
required_texts_known properties so_far (item null rest) required h known = ground arith
required_texts_known properties so_far (item (boolean b) rest) required h known = ground arith
required_texts_known properties so_far (item (number n) rest) required h known = ground arith
required_texts_known properties so_far (item (array xs) rest) required h known = ground arith
required_texts_known properties so_far (item (object gs) rest) required h known = ground arith

-- The required names are those that the keyword asks for.
pub required_hold_lem :
    (d : Option JsonValue) (properties fs : Fields) (required : List String)
    → required_properties d properties ≡ returned required
    → required_hold fs d ≡ all_present required fs
unfolding required_properties required_hold
required_hold_lem none properties fs required h = ground arith
required_hold_lem (some (array xs)) properties fs required h =
    sym (required_texts_lem properties fs [] xs required h)
required_hold_lem (some null) properties fs required h = ground arith
required_hold_lem (some (boolean b)) properties fs required h = ground arith
required_hold_lem (some (number n)) properties fs required h = ground arith
required_hold_lem (some (text t)) properties fs required h = ground arith
required_hold_lem (some (object gs)) properties fs required h = ground arith

required_known :
    (d : Option JsonValue) (properties : Fields) (required : List String)
    → required_properties d properties ≡ returned required
    → all_present required properties ≡ true
unfolding required_properties
required_known none properties required h = ground arith
required_known (some (array xs)) properties required h =
    required_texts_known properties [] xs required h refl
required_known (some null) properties required h = ground arith
required_known (some (boolean b)) properties required h = ground arith
required_known (some (number n)) properties required h = ground arith
required_known (some (text t)) properties required h = ground arith
required_known (some (object gs)) properties required h = ground arith

all_present-includes :
    (names : List String) (fs : Fields) (k : String)
    → all_present names fs ≡ true
    → includes k names ≡ true
    → is_known (get k fs) ≡ true
all_present-includes [] fs k h inside = ground arith
all_present-includes (n ∷ names) fs k h inside = elim (String-discrete n k) [
  | yes same ↦ let here = ap (λ j. is_known (get j fs)) same in ground arith
  | no differ ↦ ground (arith, all_present-includes names fs k)
]

all_present_mono :
    (rs : List String) (gs fs : Fields)
    → ((k : String) → is_known (get k gs) ≡ true → is_known (get k fs) ≡ true)
    → all_present rs gs ≡ true
    → all_present rs fs ≡ true
all_present_mono [] gs fs each h = refl
all_present_mono (r ∷ rs) gs fs each h =
    let here = each r (ground arith) in ground (arith, all_present_mono rs gs fs each)

-- What has every listed property has the required ones.
pub required_present :
    (d : Option JsonValue) (properties fs : Fields) (required : List String)
    → (before : String → String → Bool) → required_properties d properties ≡ returned required
    → all_present (sort_by before (keys properties)) fs ≡ true
    → all_present required fs ≡ true
required_present d properties fs required before h all =
    all_present_mono required properties fs
      (λ k known.
        all_present-includes (sort_by before (keys properties)) fs k all
          (includes-sort_by k before (keys properties) ∙ includes-keys k properties ∙ known))
      (required_known d properties required h)
