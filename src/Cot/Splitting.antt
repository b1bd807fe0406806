-- ===== src/Cot/Splitting.antt =====
-- The chunks of a split text. (cot/bytes.ts)
use dreamux.Base.{
  ℕ, ◌+◌, ◌-◌, ◌≤◌, ◌<◌, ◌≡◌, refl, sym, ap, ◌∙◌, Bool, true, false, not, ◌&&◌, inl, inr, List, [],
  ◌∷◌, ◌++◌, map, ltb, leb, keep, append_nil, append_assoc, Bool-cases, arith,
}
use dreamux.Cot.Bytes.{
  Splitting, escaped_bytes, is_empty, flushed, split_step, split_loop, split_chunks,
  split_for_event_content, feishu_cot_event_content_max_bytes,
}
use dreamux.Cot.Fitting.{escaped_bytes-append}

abbrev pub concat {ℓ} : {A : Type ℓ} → List (List A) → List A
concat [] = []
concat (xs ∷ xss) = xs ++ concat xss

concat-append :
    {A : Type 0} (xss yss : List (List A)) → concat (xss ++ yss) ≡ concat xss ++ concat yss
concat-append [] yss = refl
concat-append (xs ∷ xss) yss =
    ap (λ r. xs ++ r) (concat-append xss yss) ∙ sym (append_assoc xs (concat xss) (concat yss))

is_empty-nil : {A : Type 0} (xs : List A) → is_empty xs ≡ true → xs ≡ []
is_empty-nil [] h = refl
is_empty-nil (x ∷ xs) h = ground arith

module _ {Character : Type 0} (cost : Character → ℕ) where
  abbrev pub AllFit : ℕ → List (List Character) → Type 0
  AllFit budget [] = Unit {0}
  AllFit budget (chunk ∷ chunks) = (escaped_bytes cost chunk ≤ budget) × AllFit budget chunks

  AllFit-append :
      (budget : ℕ) (xss : List (List Character)) (xs : List Character)
      → AllFit budget xss
      → escaped_bytes cost xs ≤ budget
      → AllFit budget (xss ++ xs ∷ [])
  AllFit-append budget [] xs all fits = (fits, tt)
  AllFit-append budget (ys ∷ xss) xs all fits = (all.0, AllFit-append budget xss xs all.1 fits)

  abbrev pub AllContentsFit : {Content : Type 0} → (Content → ℕ) → List Content → Type 0
  AllContentsFit json_bytes [] = Unit {0}
  AllContentsFit json_bytes (c ∷ cs) =
      (json_bytes c ≤ feishu_cot_event_content_max_bytes) × AllContentsFit json_bytes cs

  -- Every chunk so far fits, and so do the characters of the next one, which are measured.
  record IsWithin (budget : ℕ) (s : Splitting Character) : Type 0 where
    chunks_fit : AllFit budget s.chunks
    measured : s.bytes ≡ escaped_bytes cost s.characters
    fits : s.bytes ≤ budget

  flushed-IsWithin :
      (budget : ℕ) (s : Splitting Character) (c : Character)
      → IsWithin budget s
      → IsWithin budget (flushed cost budget s c)
  unfolding flushed
  flushed-IsWithin budget s c v =
      elim (Bool-cases (not (is_empty s.characters) && ltb budget (s.bytes + cost c))) [
        | inl h ↦
            rw (flushed, h)
              record {
                chunks_fit =
                    AllFit-append budget s.chunks s.characters v.chunks_fit
                      (omega (arith, v.measured, v.fits));
                measured = refl;
                fits = omega arith;
              }
        | inr h ↦ rw (flushed, h) v
      ]

  -- What fits the budget alone fits beside the characters that the flush left.
  flushed-le :
      (budget : ℕ) (s : Splitting Character) (c : Character)
      → IsWithin budget s
      → ltb budget (cost c) ≡ false
      → (flushed cost budget s c).bytes + cost c ≤ budget
  unfolding flushed
  flushed-le budget s c v h =
      let measured = v.measured in
      elim (Bool-cases (is_empty s.characters)) [
        | inl e ↦
            let nothing = ap (escaped_bytes cost) (is_empty-nil s.characters e) in ground arith
        | inr e ↦ ground arith
      ]

  split_step-IsWithin :
      (budget : ℕ) (s : Splitting Character) (c : Character)
      → IsWithin budget s
      → IsWithin budget (split_step cost budget s c)
  unfolding split_step
  split_step-IsWithin budget s c v =
      let w = flushed-IsWithin budget s c v in
      let open_chunk = flushed cost budget s c in
      let longer = escaped_bytes-append cost open_chunk.characters (c ∷ []) in
      elim (Bool-cases (ltb budget (cost c))) [
        | inl h ↦ rw (split_step, h) w
        | inr h ↦
            rw (split_step, h)
              record {
                chunks_fit = w.chunks_fit;
                measured = omega (arith, w.measured, longer);
                fits = flushed-le budget s c v h;
              }
      ]

  abbrev so_far : Splitting Character → List Character
  so_far s = concat s.chunks ++ s.characters

  flushed-so_far :
      (budget : ℕ) (s : Splitting Character) (c : Character)
      → so_far (flushed cost budget s c) ≡ so_far s
  unfolding flushed
  flushed-so_far budget s c =
      elim (Bool-cases (not (is_empty s.characters) && ltb budget (s.bytes + cost c))) [
        | inl h ↦
            rw (flushed, h)
              (append_nil (concat (s.chunks ++ s.characters ∷ []))
                ∙ concat-append s.chunks (s.characters ∷ [])
                ∙ ap (λ r. concat s.chunks ++ r) (append_nil s.characters))
        | inr h ↦ rw (flushed, h) refl
      ]

  abbrev pub fits_alone : ℕ → Character → Bool
  fits_alone budget c = not (ltb budget (cost c))

  split_step-so_far :
      (budget : ℕ) (s : Splitting Character) (c : Character) (text : List Character)
      → so_far (split_step cost budget s c) ++ keep (fits_alone budget) text
        ≡ so_far s ++ keep (fits_alone budget) (c ∷ text)
  unfolding split_step
  split_step-so_far budget s c text =
      let rest = keep (fits_alone budget) text in
      let open_chunk = flushed cost budget s c in
      elim (Bool-cases (ltb budget (cost c))) [
        | inl h ↦ rw (split_step, h) (ap (λ r. r ++ rest) (flushed-so_far budget s c))
        | inr h ↦
            rw (split_step, h)
              (ap (λ r. r ++ rest)
                  (sym (append_assoc (concat open_chunk.chunks) open_chunk.characters (c ∷ [])))
                ∙ append_assoc (so_far open_chunk) (c ∷ []) rest
                ∙ ap (λ r. r ++ c ∷ rest) (flushed-so_far budget s c))
      ]

  split_loop_lem :
      (budget : ℕ) (s : Splitting Character) (text : List Character)
      → IsWithin budget s
      → AllFit budget (split_loop cost budget s text)
        × (concat (split_loop cost budget s text) ≡ so_far s ++ keep (fits_alone budget) text)
  unfolding split_loop
  split_loop_lem budget s [] v = elim (Bool-cases (is_empty s.characters)) [
    | inl h ↦
        let nothing = is_empty-nil s.characters h in
        rw (h) (
          v.chunks_fit,
          sym (
              append_nil (so_far s)
              ∙ ap (λ r. concat s.chunks ++ r) nothing
              ∙ append_nil (concat s.chunks)),
        )
    | inr h ↦ rw (h) (
      AllFit-append budget s.chunks s.characters v.chunks_fit (omega (arith, v.measured, v.fits)),
      concat-append s.chunks (s.characters ∷ [])
          ∙ ap (λ r. concat s.chunks ++ r) (append_nil s.characters)
          ∙ sym (append_nil (so_far s)),
    )
  ]
  split_loop_lem budget s (c ∷ text) v =
      let later =
        split_loop_lem budget (split_step cost budget s c) text
          (split_step-IsWithin budget s c v) in
      (later.0, later.1 ∙ split_step-so_far budget s c text)

  keep-fits_alone :
      (budget : ℕ) (text : List Character)
      → escaped_bytes cost text ≤ budget
      → keep (fits_alone budget) text ≡ text
  keep-fits_alone budget [] h = refl
  keep-fits_alone budget (c ∷ text) h = ground (arith, keep-fits_alone budget text)

  contents_fit :
      {Content : Type 0}
      → (json_bytes : Content → ℕ) (content : List Character → Content)
      → ((chunk : List Character)
          → json_bytes (content chunk) ≡ json_bytes (content []) + escaped_bytes cost chunk)
      → json_bytes (content []) < feishu_cot_event_content_max_bytes
      → (chunks : List (List Character))
      → AllFit (feishu_cot_event_content_max_bytes - json_bytes (content [])) chunks
      → AllContentsFit json_bytes (map content chunks)
  contents_fit json_bytes content additive room [] all = tt
  contents_fit json_bytes content additive room (chunk ∷ chunks) all = (
    omega (arith, additive chunk, all.0),
    contents_fit json_bytes content additive room chunks all.1,
  )

  -- Where a content costs what its empty form and its text cost, each split content fits one event.
  -- If the empty content leaves room, the chunks are the text in order, less the code points that fit
  -- no event.
  pub split_for_event_content_lem :
      {Content : Type 0}
      → (json_bytes : Content → ℕ) (content : List Character → Content)
      → ((chunk : List Character)
          → json_bytes (content chunk) ≡ json_bytes (content []) + escaped_bytes cost chunk)
      → json_bytes (content []) < feishu_cot_event_content_max_bytes
      → (text : List Character)
      → AllContentsFit json_bytes (split_for_event_content cost json_bytes content text)
        × (concat (split_chunks cost json_bytes content text)
            ≡ keep (fits_alone (feishu_cot_event_content_max_bytes - json_bytes (content []))) text)
  unfolding split_for_event_content split_chunks
  split_for_event_content_lem json_bytes content additive room text =
      let budget = feishu_cot_event_content_max_bytes - json_bytes (content []) in
      let blank : Splitting Character = record { chunks = []; characters = []; bytes = 0 } in
      let looped =
        split_loop_lem budget blank text
          (record { chunks_fit = tt; measured = refl; fits = omega arith }) in
      let whole = keep-fits_alone budget text in
      elim (Bool-cases (is_empty text)) [
        | inl e ↦
            rw (split_for_event_content, split_chunks, e)
              (tt, sym (ap (keep (fits_alone budget)) (is_empty-nil text e)))
        | inr e ↦
            elim (Bool-cases (leb (json_bytes (content text)) feishu_cot_event_content_max_bytes)) [
              | inl h ↦
                  rw (split_for_event_content, split_chunks, e, h)
                    (
                      (ground arith, tt),
                      append_nil text ∙ sym (whole (ground (arith, additive text))),
                    )
              | inr h ↦
                  let positive : leb feishu_cot_event_content_max_bytes (json_bytes (content []))
                      ≡ false =
                    ground arith in
                  rw (split_for_event_content, split_chunks, e, h, positive)
                    (
                      contents_fit json_bytes content additive room
                          (split_loop cost budget blank text) looped.0,
                      looped.1,
                    )
            ]
      ]
