-- ===== src/Delivery/Tails.antt =====
-- The tails of the recipients: which delivery waits for which. (completion-router/index.ts)
use dreamux.Base.{
  ℕ, suc, ◌≡◌, String, Bool, true, false, ◌&&◌, Option, none, some, List, [], ◌∷◌, ◌++◌,
  if◌then◌else◌, ◌==◌, nat_eq, leb, ltb, arith,
}
use dreamux.Delivery.Router.{Delivery}

abbrev pub is_link : Option ℕ → Option ℕ → Bool
is_link none previous = true
is_link (some id) none = false
is_link (some id) (some previous) = nat_eq id previous

-- Of one recipient, each delivery waits for the one before it; the first may wait for any.
unfoldable pub is_linked : String → Option ℕ → List Delivery → Bool
is_linked r last [] = true
is_linked r last (d ∷ waiting) =
    if d.recipient == r
    then is_link last d.previous && is_linked r (some d.id) waiting
    else is_linked r last waiting

-- The last delivery of a recipient.
unfoldable pub last_id : String → Option ℕ → List Delivery → Option ℕ
last_id r last [] = last
last_id r last (d ∷ waiting) =
    if d.recipient == r then last_id r (some d.id) waiting else last_id r last waiting

-- The ids rise from a bound to below another, and each delivery waits for an earlier one.
unfoldable pub is_rising : ℕ → List Delivery → ℕ → Bool
is_rising low [] high = leb low high
is_rising low (d ∷ waiting) high =
    leb low d.id
    && elim d.previous [ none ↦ true | some id ↦ ltb id d.id ]
    && is_rising (suc d.id) waiting high

pub is_linked-append :
    (r : String) (last : Option ℕ) (waiting : List Delivery) (d : Delivery)
    → is_linked r last waiting ≡ true
    → (d.recipient == r) ≡ true
    → is_link (last_id r last waiting) d.previous ≡ true
    → is_linked r last (waiting ++ d ∷ []) ≡ true
unfolding is_linked last_id
is_linked-append r last [] d v same link = ground arith
is_linked-append r last (e ∷ waiting) d v same link =
    ground (arith, is_linked-append r last waiting d, is_linked-append r (some e.id) waiting d)

pub is_linked-other :
    (r : String) (last : Option ℕ) (waiting : List Delivery) (d : Delivery)
    → is_linked r last waiting ≡ true
    → (d.recipient == r) ≡ false
    → (is_linked r last (waiting ++ d ∷ []) ≡ true)
      × (last_id r last (waiting ++ d ∷ []) ≡ last_id r last waiting)
unfolding is_linked last_id
is_linked-other r last [] d v other = ground arith
is_linked-other r last (e ∷ waiting) d v other =
    ground (arith, is_linked-other r last waiting d, is_linked-other r (some e.id) waiting d)

pub last_id-append :
    (r : String) (last : Option ℕ) (waiting : List Delivery) (d : Delivery)
    → (d.recipient == r) ≡ true
    → last_id r last (waiting ++ d ∷ []) ≡ some d.id
unfolding last_id
last_id-append r last [] d same = ground arith
last_id-append r last (e ∷ waiting) d same =
    ground
      (arith, last_id-append r last waiting d same, last_id-append r (some e.id) waiting d same)
