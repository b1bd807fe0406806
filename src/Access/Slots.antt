-- ===== src/Access/Slots.antt =====
-- The pending requests of access/gate.ts and access/index.ts: one for each token, one for each
-- sender.
use dreamux.Base.{◌≡◌, refl, String, Bool, none, some, [], ◌∷◌, arith, keep}
use dreamux.Base.Dict.{lookup, insert, remove}
use dreamux.Access.State.{PendingPairingEntry, PendingMap}
use dreamux.Access.Commit.{find_by_sender}

abbrev pub IsDistinct : PendingMap → Type 0
IsDistinct [] = Unit {0}
IsDistinct ((token, entry) ∷ pending) =
    (lookup token pending ≡ none)
    × (find_by_sender pending entry.sender_id ≡ none)
    × IsDistinct pending

pub lookup-keep-none :
    (p : String × PendingPairingEntry → Bool) (token : String) (m : PendingMap)
    → lookup token m ≡ none
    → lookup token (keep p m) ≡ none
unfolding lookup
lookup-keep-none p token [] h = refl
lookup-keep-none p token (x ∷ m) h = ground (arith, lookup-keep-none p token m)

pub find_by_sender-keep-none :
    (p : String × PendingPairingEntry → Bool) (sender : String) (m : PendingMap)
    → find_by_sender m sender ≡ none
    → find_by_sender (keep p m) sender ≡ none
unfolding find_by_sender
find_by_sender-keep-none p sender [] h = refl
find_by_sender-keep-none p sender (x ∷ m) h = ground (arith, find_by_sender-keep-none p sender m)

pub keep-IsDistinct :
    (p : String × PendingPairingEntry → Bool) (m : PendingMap)
    → IsDistinct m
    → IsDistinct (keep p m)
keep-IsDistinct p [] h = tt
keep-IsDistinct p ((t, e) ∷ m) h = ground (
  arith,
  keep-IsDistinct p m h.2,
  lookup-keep-none p t m h.0,
  find_by_sender-keep-none p e.sender_id m h.1,
)

pub find_by_sender-remove-none :
    (token sender : String) (m : PendingMap)
    → find_by_sender m sender ≡ none
    → find_by_sender (remove token m) sender ≡ none
unfolding find_by_sender remove
find_by_sender-remove-none token sender [] h = refl
find_by_sender-remove-none token sender (x ∷ m) h =
    ground (arith, find_by_sender-remove-none token sender m)

lookup-remove-none :
    (token k : String) (m : PendingMap) → lookup k m ≡ none → lookup k (remove token m) ≡ none
unfolding lookup remove
lookup-remove-none token k [] h = refl
lookup-remove-none token k (x ∷ m) h = ground (arith, lookup-remove-none token k m)

pub remove-IsDistinct :
    (token : String) (m : PendingMap) → IsDistinct m → IsDistinct (remove token m)
unfolding remove
remove-IsDistinct token [] h = tt
remove-IsDistinct token ((t, e) ∷ m) h = ground (
  arith,
  remove-IsDistinct token m h.2,
  lookup-remove-none token t m h.0,
  find_by_sender-remove-none token e.sender_id m h.1,
)

find_by_sender-insert-none :
    (token sender : String) (v : PendingPairingEntry) (m : PendingMap)
    → find_by_sender m sender ≡ none
    → (v.sender_id ≡ sender → ⊥)
    → find_by_sender (insert token v m) sender ≡ none
unfolding find_by_sender insert
find_by_sender-insert-none token sender v [] h n = ground arith
find_by_sender-insert-none token sender v (x ∷ m) h n =
    ground (arith, find_by_sender-insert-none token sender v m)

lookup-insert-none :
    (token k : String) (v : PendingPairingEntry) (m : PendingMap)
    → lookup k m ≡ none
    → (token ≡ k → ⊥)
    → lookup k (insert token v m) ≡ none
unfolding lookup insert
lookup-insert-none token k v [] h n = ground arith
lookup-insert-none token k v (x ∷ m) h n = ground (arith, lookup-insert-none token k v m)

remove_absent : (token : String) (m : PendingMap) → lookup token m ≡ none → remove token m ≡ m
unfolding lookup remove
remove_absent token [] h = refl
remove_absent token (x ∷ m) h = ground (arith, remove_absent token m)

-- An entry may be put at a token if no entry at another token has its sender.
pub insert-IsDistinct :
    (token : String) (v : PendingPairingEntry) (m : PendingMap)
    → IsDistinct m
    → find_by_sender (remove token m) v.sender_id ≡ none
    → IsDistinct (insert token v m)
unfolding lookup find_by_sender insert remove
insert-IsDistinct token v [] h f = ground arith
insert-IsDistinct token v ((t, e) ∷ m) h f = ground (
  arith,
  insert-IsDistinct token v m h.2,
  lookup-insert-none token t v m h.0,
  find_by_sender-insert-none token e.sender_id v m h.1,
  remove_absent token m,
)

find_by_sender-lookup :
    (sender token : String) (v : PendingPairingEntry) (m : PendingMap)
    → find_by_sender m sender ≡ none
    → lookup token m ≡ some v
    → v.sender_id ≡ sender
    → ⊥
unfolding lookup find_by_sender
find_by_sender-lookup sender token v [] n h e = cc
find_by_sender-lookup sender token v (x ∷ m) n h e =
    ground (arith, find_by_sender-lookup sender token v m)

-- The entry found at a token is the only one with its sender.
pub lookup_unique :
    (token : String) (v : PendingPairingEntry) (m : PendingMap)
    → IsDistinct m
    → lookup token m ≡ some v
    → find_by_sender (remove token m) v.sender_id ≡ none
unfolding lookup remove find_by_sender
lookup_unique token v [] d h = cc
lookup_unique token v ((t, e) ∷ m) d h = ground (
  arith,
  lookup_unique token v m d.2,
  remove_absent token m,
  find_by_sender-lookup e.sender_id token v m d.1,
)

-- So is the entry found by its sender.
pub find_by_sender_unique :
    (sender token : String) (v : PendingPairingEntry) (m : PendingMap)
    → IsDistinct m
    → find_by_sender m sender ≡ some (token, v)
    → (v.sender_id ≡ sender) × (lookup token m ≡ some v)
unfolding lookup find_by_sender
find_by_sender_unique sender token v [] d h = cc
find_by_sender_unique sender token v ((t, e) ∷ m) d h =
    ground (arith, find_by_sender_unique sender token v m d.2)
