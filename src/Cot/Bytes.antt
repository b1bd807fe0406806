-- ===== src/Cot/Bytes.antt =====
-- cot/bytes.ts: measuring, truncating and splitting texts.
use dreamux.Base.{
  ℕ, ◌+◌, ◌-◌, max, Bool, true, false, not, ◌&&◌, List, [], ◌∷◌, ◌++◌, map, ltb, leb, if◌then◌else◌,
}

abbrev pub feishu_cot_event_content_max_bytes : ℕ
feishu_cot_event_content_max_bytes = 4096

abbrev pub is_empty {ℓ} : {A : Type ℓ} → List A → Bool
is_empty [] = true
is_empty (x ∷ xs) = false

-- The chunks so far, the characters of the next one, and what they cost.
pub record Splitting (Character : Type 0) : Type 0 where
  pub chunks : List (List Character)
  pub characters : List Character
  pub bytes : ℕ

module _ {Character : Type 0} (cost : Character → ℕ) where
  abbrev pub escaped_bytes : List Character → ℕ
  escaped_bytes [] = 0
  escaped_bytes (c ∷ value) = cost c + escaped_bytes value

  -- The loop of `truncateEscaped`, with what the prefix costs so far.
  unfoldable pub prefix_within : ℕ → ℕ → List Character → List Character
  prefix_within budget bytes [] = []
  prefix_within budget bytes (c ∷ value) =
      let rest = prefix_within budget (bytes + cost c) value in
      if ltb budget (bytes + cost c) then [] else c ∷ rest

  unfoldable pub truncate_escaped : List Character → List Character → ℕ → List Character
  unfolding prefix_within
  truncate_escaped marker value max_bytes =
      if leb (escaped_bytes value) max_bytes
      then value
      else prefix_within (max_bytes - escaped_bytes marker) 0 value ++ marker

  unfoldable pub shrink_for_content_budget : List Character → List Character → ℕ → List Character
  unfolding truncate_escaped
  shrink_for_content_budget marker value overflow_bytes =
      truncate_escaped marker value
        (max (escaped_bytes marker) (escaped_bytes value - overflow_bytes - 32))

  unfoldable pub flushed : ℕ → Splitting Character → Character → Splitting Character
  flushed budget s c =
      if not (is_empty s.characters) && ltb budget (s.bytes + cost c)
      then record { chunks = s.chunks ++ s.characters ∷ []; characters = []; bytes = 0 }
      else s

  -- One pass of the loop of `splitForEventContent`.
  unfoldable pub split_step : ℕ → Splitting Character → Character → Splitting Character
  unfolding flushed
  split_step budget s c =
      if ltb budget (cost c)
      then flushed budget s c
      else (let open_chunk = flushed budget s c in
          record open_chunk {
            characters = open_chunk.characters ++ c ∷ [];
            bytes = open_chunk.bytes + cost c;
          })

  unfoldable pub split_loop : ℕ → Splitting Character → List Character → List (List Character)
  unfolding split_step
  split_loop budget s [] = if is_empty s.characters then s.chunks else s.chunks ++ s.characters ∷ []
  split_loop budget s (c ∷ text) = split_loop budget (split_step budget s c) text

  -- The chunks, before `content` wraps each.
  unfoldable pub split_chunks :
      {Content : Type 0}
      → (Content → ℕ)
      → (List Character → Content)
      → List Character
      → List (List Character)
  unfolding split_loop
  split_chunks json_bytes content text =
      if is_empty text
      then []
      else if leb (json_bytes (content text)) feishu_cot_event_content_max_bytes
      then text ∷ []
      else if leb feishu_cot_event_content_max_bytes (json_bytes (content []))
      then []
      else split_loop (feishu_cot_event_content_max_bytes - json_bytes (content []))
          (record { chunks = []; characters = []; bytes = 0 }) text

  unfoldable pub split_for_event_content :
      {Content : Type 0}
      → (Content → ℕ)
      → (List Character → Content)
      → List Character
      → List Content
  unfolding split_chunks
  split_for_event_content json_bytes content text =
      map content (split_chunks json_bytes content text)
