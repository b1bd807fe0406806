-- ===== src/Cot/Fitting.antt =====
-- What a truncated text costs. (cot/bytes.ts)
use dreamux.Base.{
  ℕ, ◌+◌, ◌-◌, ◌≤◌, ◌<◌, ◌≡◌, refl, ap, ◌⊎◌, inl, inr, max, List, [], ◌∷◌, ◌++◌, ltb, leb,
  Bool-cases, arith,
}
use dreamux.Cot.Bytes.{escaped_bytes, prefix_within, truncate_escaped}

module _ {Character : Type 0} (cost : Character → ℕ) where
  pub escaped_bytes-append :
      (xs ys : List Character)
      → escaped_bytes cost (xs ++ ys) ≡ escaped_bytes cost xs + escaped_bytes cost ys
  escaped_bytes-append [] ys = omega arith
  escaped_bytes-append (x ∷ xs) ys = omega (arith, escaped_bytes-append xs ys)

  prefix_within-le :
      (budget bytes : ℕ) (value : List Character)
      → bytes ≤ budget
      → bytes + escaped_bytes cost (prefix_within cost budget bytes value) ≤ budget
  unfolding prefix_within
  prefix_within-le budget bytes [] h = omega arith
  prefix_within-le budget bytes (c ∷ value) h =
      ground (arith, prefix_within-le budget (bytes + cost c) value)

  -- A cut text is a prefix of the text, and the marker.
  prefix_within-prefix :
      (budget bytes : ℕ) (value : List Character)
      → (rest : List Character) × (prefix_within cost budget bytes value ++ rest ≡ value)
  unfolding prefix_within
  prefix_within-prefix budget bytes [] = ([], refl)
  prefix_within-prefix budget bytes (c ∷ value) =
      let tail = prefix_within-prefix budget (bytes + cost c) value in
      elim (Bool-cases (ltb budget (bytes + cost c))) [
        | inl h ↦ rw (h) (c ∷ value, refl)
        | inr h ↦ rw (h) (tail.0, ap (λ r. c ∷ r) tail.1)
      ]

  -- A truncated text costs at most its bound, or the marker if the bound is less; it is the text
  -- itself if that fits, and otherwise a prefix of the text and the marker.
  pub truncate_escaped_fits :
      (marker value : List Character) (max_bytes : ℕ)
      → (escaped_bytes cost (truncate_escaped cost marker value max_bytes)
          ≤ max max_bytes (escaped_bytes cost marker))
        × (((escaped_bytes cost value ≤ max_bytes)
              × (truncate_escaped cost marker value max_bytes ≡ value))
            ⊎ ((max_bytes < escaped_bytes cost value)
                × ((kept rest : List Character) × (kept ++ rest ≡ value)
                    × (truncate_escaped cost marker value max_bytes ≡ kept ++ marker))))
  unfolding truncate_escaped
  truncate_escaped_fits marker value max_bytes =
      let budget = max_bytes - escaped_bytes cost marker in
      let kept = prefix_within cost budget 0 value in
      let fits = prefix_within-le budget 0 value (omega arith) in
      let whole = escaped_bytes-append kept marker in
      let cut = prefix_within-prefix budget 0 value in
      elim (Bool-cases (leb (escaped_bytes cost value) max_bytes)) [
        | inl h ↦ rw (truncate_escaped, h) (ground arith, inl (ground arith, refl))
        | inr h ↦
            rw (truncate_escaped, h)
              (omega (arith, fits, whole), inr (ground arith, (kept, cut.0, cut.1, refl)))
      ]
