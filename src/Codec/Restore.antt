-- ===== src/Codec/Restore.antt =====
-- output-schema-codec.ts: restoreValue, on the parsed answer.
use dreamux.Base.{◌&&◌, none, some, if◌then◌else◌}
use dreamux.Base.Result.{Result, thrown, returned, ◌>>=◌}
use dreamux.Codec.Json.{
  JsonValue, null, boolean, number, text, array, object, Items, nil, item, Fields, get, put, drop,
  is_null,
}
use dreamux.Codec.Compile.{
  RestorationPlan, value_plan, array_plan, object_plan, PlannedProperties, unplanned, planned,
}

pub data Mismatch : Type 0 where
  expected_array expected_object : Mismatch

-- `value.map`, on the items.
unfoldable pub map_items : (JsonValue → Result Mismatch JsonValue) → Items → Result Mismatch Items
map_items restore nil = returned nil
map_items restore (item x xs) = do y ← restore x; ys ← map_items restore xs; returned (item y ys)

abbrev pub as_array : JsonValue → Result Mismatch Items
as_array (array xs) = returned xs
as_array null = thrown expected_array
as_array (boolean b) = thrown expected_array
as_array (number n) = thrown expected_array
as_array (text t) = thrown expected_array
as_array (object fs) = thrown expected_array

abbrev pub as_object : JsonValue → Result Mismatch Fields
as_object (object fs) = returned fs
as_object null = thrown expected_object
as_object (boolean b) = thrown expected_object
as_object (number n) = thrown expected_object
as_object (text t) = thrown expected_object
as_object (array xs) = thrown expected_object

unfoldable mutual
  unfolding get put drop map_items

  pub restore_value : RestorationPlan → JsonValue → Result Mismatch JsonValue
  restore_value value_plan value = returned value
  restore_value (array_plan accepts_null items) value =
      if is_null value && accepts_null
      then returned null
      else (as_array value
          >>= (λ xs. map_items (λ x. restore_value items x) xs)
          >>= (λ ys. returned (array ys)))
  restore_value (object_plan accepts_null properties) value =
      if is_null value && accepts_null
      then returned null
      else (as_object value
          >>= (λ fs. restore_fields properties fs)
          >>= (λ gs. returned (object gs)))

  -- The loop over the planned properties, on a copy of the object.
  pub restore_fields : PlannedProperties → Fields → Result Mismatch Fields
  restore_fields unplanned restored = returned restored
  restore_fields (planned name omit_null plan rest) restored = elim (get name restored) [
    | none ↦ restore_fields rest restored
    | some value ↦
        if omit_null && is_null value
        then restore_fields rest (drop name restored)
        else restore_value plan value >>= (λ v. restore_fields rest (put name v restored))
  ]
