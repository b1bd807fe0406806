-- ===== src/Routing/Rows.antt =====
-- Laws of the rows of a routing document: the lookups after each kind of change.
use dreamux.Base.{
  ◌≡◌, refl, String, Bool, false, not, ◌&&◌, Option, none, some, List, [], ◌∷◌, ◌++◌, arith,
  if◌then◌else◌, ◌==◌, keep, exists, exists-append, exists-keep,
}
use dreamux.Base.Result.{returned, thrown}
use dreamux.Routing.Target.{TargetKey, target_key, ◌=key=◌}
use dreamux.Routing.Document.{FeishuBindingRecord, FeishuSpaceRecord, routed_to_another_team}
use dreamux.Routing.Plan.{find_binding}
use dreamux.Routing.Bindings.{set_row, unbind_rows, is_group, is_foreign}
use dreamux.Routing.Policy.{name_taken, find_space, set_space, has_whole_chat}

-- At most one row for each target.
abbrev pub HasDistinctKeys : List FeishuBindingRecord → Type 0
HasDistinctKeys [] = Unit {0}
HasDistinctKeys (row ∷ rows) =
    (find_binding (target_key row.target) rows ≡ none) × HasDistinctKeys rows

-- At most one space for each id and for each name.
abbrev pub HasDistinctSpaces : List FeishuSpaceRecord → Type 0
HasDistinctSpaces [] = Unit {0}
HasDistinctSpaces (row ∷ rows) =
    (find_space row.space_id rows ≡ none)
    × (exists (λ r. r.space_name == row.space_name) rows ≡ false)
    × HasDistinctSpaces rows

pub find_binding-append :
    (key : TargetKey) (rows : List FeishuBindingRecord) (row : FeishuBindingRecord)
    → find_binding key (rows ++ row ∷ []) ≡ elim (find_binding key rows) [
      | some r ↦ some r
      | none ↦ if target_key row.target =key= key then some row else none
    ]
unfolding find_binding
find_binding-append key [] row = refl
find_binding-append key (r ∷ rows) row = ground (arith, find_binding-append key rows row)

pub append-HasDistinctKeys :
    (rows : List FeishuBindingRecord) (row : FeishuBindingRecord)
    → HasDistinctKeys rows
    → find_binding (target_key row.target) rows ≡ none
    → HasDistinctKeys (rows ++ row ∷ [])
unfolding find_binding
append-HasDistinctKeys [] row h f = (refl, tt)
append-HasDistinctKeys (r ∷ rows) row h f =
    ground (
      arith,
      append-HasDistinctKeys rows row h.1,
      find_binding-append (target_key r.target) rows row,
    )

-- Writes that keep the target.
module _ (f : FeishuBindingRecord → FeishuBindingRecord)
    (same : (r : FeishuBindingRecord) → (f r).target ≡ r.target) where
  pub find_binding-set_row :
      (key k : TargetKey) (rows : List FeishuBindingRecord)
      → find_binding k (set_row key f rows) ≡ elim (find_binding k rows) [
        | none ↦ none
        | some r ↦ if key =key= k then some (f r) else some r
      ]
  unfolding find_binding set_row
  find_binding-set_row key k [] = refl
  find_binding-set_row key k (r ∷ rows) = ground (arith, same r, find_binding-set_row key k rows)

  pub set_row-HasDistinctKeys :
      (key : TargetKey) (rows : List FeishuBindingRecord)
      → HasDistinctKeys rows
      → HasDistinctKeys (set_row key f rows)
  unfolding set_row
  set_row-HasDistinctKeys key [] h = tt
  set_row-HasDistinctKeys key (r ∷ rows) h = ground (
    arith,
    same r,
    set_row-HasDistinctKeys key rows h.1,
    find_binding-set_row key (target_key r.target) rows,
  )

  pub has_whole_chat-set_row :
      (c : String) (key : TargetKey) (rows : List FeishuBindingRecord)
      → has_whole_chat c (set_row key f rows) ≡ has_whole_chat c rows
  unfolding set_row
  has_whole_chat-set_row c key [] = refl
  has_whole_chat-set_row c key (r ∷ rows) =
      ground (arith, same r, has_whole_chat-set_row c key rows)

pub has_whole_chat-keep :
    (p : FeishuBindingRecord → Bool) (c : String) (rows : List FeishuBindingRecord)
    → has_whole_chat c rows ≡ false
    → has_whole_chat c (keep p rows) ≡ false
has_whole_chat-keep p c rows =
    exists-keep (λ row. is_group row.target.kind && row.target.chat_id == c) p rows

pub find_binding-keep :
    (p : FeishuBindingRecord → Bool) (key : TargetKey) (rows : List FeishuBindingRecord)
    → find_binding key rows ≡ none
    → find_binding key (keep p rows) ≡ none
unfolding find_binding
find_binding-keep p key [] h = refl
find_binding-keep p key (r ∷ rows) h = ground (arith, find_binding-keep p key rows)

pub keep-HasDistinctKeys :
    (p : FeishuBindingRecord → Bool) (rows : List FeishuBindingRecord)
    → HasDistinctKeys rows
    → HasDistinctKeys (keep p rows)
keep-HasDistinctKeys p [] h = tt
keep-HasDistinctKeys p (r ∷ rows) h =
    ground
      (arith, keep-HasDistinctKeys p rows h.1, find_binding-keep p (target_key r.target) rows h.0)

abbrev pub drop_key : TargetKey → List FeishuBindingRecord → List FeishuBindingRecord
drop_key key = keep (λ row. not (target_key row.target =key= key))

pub drop_key_absent :
    (key : TargetKey) (rows : List FeishuBindingRecord)
    → find_binding key rows ≡ none
    → drop_key key rows ≡ rows
unfolding find_binding
drop_key_absent key [] h = refl
drop_key_absent key (row ∷ rows) h = ground (arith, drop_key_absent key rows)

pub find_binding-drop_key :
    (key k : TargetKey) (rows : List FeishuBindingRecord)
    → find_binding k (drop_key key rows) ≡ (if key =key= k then none else find_binding k rows)
unfolding find_binding
find_binding-drop_key key k [] = ground arith
find_binding-drop_key key k (row ∷ rows) = ground (arith, find_binding-drop_key key k rows)

unbind_rows_absent :
    (key : TargetKey) (owner : Option String) (rows : List FeishuBindingRecord)
    → find_binding key rows ≡ none
    → unbind_rows key owner rows ≡ returned (rows, none)
unfolding find_binding unbind_rows
unbind_rows_absent key owner [] h = refl
unbind_rows_absent key owner (row ∷ rows) h = ground (arith, unbind_rows_absent key owner rows)

-- With one row a key, the loop of `unbind` looks its row up, checks the owner and drops it.
pub unbind_rows_lem :
    (key : TargetKey) (owner : Option String) (rows : List FeishuBindingRecord)
    → HasDistinctKeys rows
    → unbind_rows key owner rows ≡ elim (find_binding key rows) [
      | none ↦ returned (rows, none)
      | some row ↦
          if is_foreign owner row.team_name
          then thrown routed_to_another_team
          else returned (drop_key key rows, some row)
    ]
unfolding find_binding unbind_rows
unbind_rows_lem key owner [] h = refl
unbind_rows_lem key owner (row ∷ rows) h = ground (
  arith,
  unbind_rows_lem key owner rows h.1,
  unbind_rows_absent key owner rows,
  drop_key_absent key rows,
)

-- Spaces.
pub find_space-append :
    (id : String) (rows : List FeishuSpaceRecord) (row : FeishuSpaceRecord)
    → find_space id rows ≡ none
    → find_space id (rows ++ row ∷ []) ≡ (if row.space_id == id then some row else none)
unfolding find_space
find_space-append id [] row h = refl
find_space-append id (r ∷ rows) row h = ground (arith, find_space-append id rows row)

pub append-HasDistinctSpaces :
    (rows : List FeishuSpaceRecord) (row : FeishuSpaceRecord)
    → HasDistinctSpaces rows
    → find_space row.space_id rows ≡ none
    → exists (λ r. r.space_name == row.space_name) rows ≡ false
    → HasDistinctSpaces (rows ++ row ∷ [])
unfolding find_space
append-HasDistinctSpaces [] row h f n = (refl, refl, tt)
append-HasDistinctSpaces (r ∷ rows) row h f n = ground (
  arith,
  append-HasDistinctSpaces rows row h.2,
  find_space-append r.space_id rows row h.0,
  exists-append (λ x. x.space_name == r.space_name) rows (row ∷ []),
)

find_space-keep :
    (p : FeishuSpaceRecord → Bool) (id : String) (rows : List FeishuSpaceRecord)
    → find_space id rows ≡ none
    → find_space id (keep p rows) ≡ none
unfolding find_space
find_space-keep p id [] h = refl
find_space-keep p id (r ∷ rows) h = ground (arith, find_space-keep p id rows)

pub keep-HasDistinctSpaces :
    (p : FeishuSpaceRecord → Bool) (rows : List FeishuSpaceRecord)
    → HasDistinctSpaces rows
    → HasDistinctSpaces (keep p rows)
keep-HasDistinctSpaces p [] h = tt
keep-HasDistinctSpaces p (r ∷ rows) h = ground (
  arith,
  keep-HasDistinctSpaces p rows h.2,
  find_space-keep p r.space_id rows h.0,
  exists-keep (λ x. x.space_name == r.space_name) p rows h.1,
)

pub not_taken :
    (name id : String) (rows : List FeishuSpaceRecord)
    → name_taken name id rows ≡ false
    → find_space id rows ≡ none
    → exists (λ r. r.space_name == name) rows ≡ false
unfolding find_space
not_taken name id [] t f = refl
not_taken name id (r ∷ rows) t f = ground (arith, not_taken name id rows)

-- Writes that keep the id and the container, and set the name.
module _ (f : FeishuSpaceRecord → FeishuSpaceRecord) (name : String)
    (same_id : (r : FeishuSpaceRecord) → (f r).space_id ≡ r.space_id)
    (same_container : (r : FeishuSpaceRecord) → (f r).container_chat_id ≡ r.container_chat_id)
    (named : (r : FeishuSpaceRecord) → (f r).space_name ≡ name) where
  find_space-set_space :
      (id k : String) (rows : List FeishuSpaceRecord)
      → find_space k rows ≡ none
      → find_space k (set_space id f rows) ≡ none
  unfolding find_space set_space
  find_space-set_space id k [] h = refl
  find_space-set_space id k (r ∷ rows) h = ground (arith, same_id r, find_space-set_space id k rows)

  exists-set_space :
      (id n : String) (rows : List FeishuSpaceRecord)
      → exists (λ r. r.space_name == n) rows ≡ false
      → (name ≡ n → find_space id rows ≡ none)
      → exists (λ r. r.space_name == n) (set_space id f rows) ≡ false
  unfolding find_space set_space
  exists-set_space id n [] h d = refl
  exists-set_space id n (r ∷ rows) h d = ground (arith, named r, exists-set_space id n rows)

  pub set_space-HasDistinctSpaces :
      (id : String) (rows : List FeishuSpaceRecord)
      → HasDistinctSpaces rows
      → name_taken name id rows ≡ false
      → HasDistinctSpaces (set_space id f rows)
  unfolding find_space set_space
  set_space-HasDistinctSpaces id [] h t = tt
  set_space-HasDistinctSpaces id (r ∷ rows) h t = ground (
    arith,
    same_id r,
    named r,
    set_space-HasDistinctSpaces id rows h.2,
    find_space-set_space id r.space_id rows h.0,
    exists-set_space id r.space_name rows h.1,
    not_taken name id rows,
  )

  pub hosts-set_space :
      (c id : String) (rows : List FeishuSpaceRecord)
      → exists (λ r. r.container_chat_id == c) (set_space id f rows)
        ≡ exists (λ r. r.container_chat_id == c) rows
  unfolding set_space
  hosts-set_space c id [] = refl
  hosts-set_space c id (r ∷ rows) = ground (arith, same_container r, hosts-set_space c id rows)
