-- ===== src/Delivery/Taking.antt =====
-- A delivery that is taken from the tails. (completion-router/index.ts)
use dreamux.Base.{
  ℕ, suc, ◌≡◌, refl, sym, ap, ◌∙◌, String, true, false, Option, none, some, List, [], ◌∷◌, ◌++◌,
  if◌then◌else◌, ◌==◌, nat_eq, ltb, exists, arith, Option-cases, inl, inr, Bool-cases, ◌≤◌,
}
use dreamux.Delivery.Router.{Delivery, take_delivery, is_waiting}
use dreamux.Delivery.Tails.{is_link, is_linked, last_id, is_rising}

-- The news of one recipient.
abbrev pub news_of : String → List Delivery → List String
news_of r [] = []
news_of r (d ∷ ds) = if d.recipient == r then d.completion ∷ news_of r ds else news_of r ds

is_linked_first :
    (r : String) (last : Option ℕ) (waiting : List Delivery)
    → is_linked r last waiting ≡ true
    → is_linked r none waiting ≡ true
unfolding is_linked
is_linked_first r last [] v = refl
is_linked_first r last (d ∷ waiting) v = ground (arith, is_linked_first r last waiting)

last_id_first :
    (r : String) (last : Option ℕ) (waiting : List Delivery) (t : Option ℕ)
    → is_link (last_id r last waiting) t ≡ true
    → is_link (last_id r none waiting) t ≡ true
unfolding last_id
last_id_first r last [] t v = refl
last_id_first r last (d ∷ waiting) t v = ground (arith, last_id_first r last waiting t)

-- What is left of a recipient's deliveries when one of them was taken.
pub record IsFirst (r : String) (last : Option ℕ) (waiting : List Delivery) (taken : Delivery)
    (others : List Delivery) : Type 0 where
  pub unlinked : last ≡ none
  pub news : news_of r waiting ≡ taken.completion ∷ news_of r others
  pub linked : is_linked r none others ≡ true
  pub ends_alike :
      (t : Option ℕ)
      → is_link (last_id r last waiting) t ≡ true
      → is_link (last_id r none others) t ≡ true

-- A delivery of the recipient that waits for none of `all` is its first one.
pub take_delivery-IsFirst :
    (r : String) (last : Option ℕ) (id : ℕ) (waiting : List Delivery) (taken : Delivery)
    (others all : List Delivery)
    → take_delivery id waiting ≡ some (taken, others)
    → is_linked r last waiting ≡ true
    → (taken.recipient == r) ≡ true
    → is_waiting taken.previous all ≡ false
    → ((j : ℕ) → last ≡ some j → is_waiting (some j) all ≡ true)
    → ((j : ℕ) → is_waiting (some j) waiting ≡ true → is_waiting (some j) all ≡ true)
    → IsFirst r last waiting taken others
unfolding take_delivery is_linked last_id
take_delivery-IsFirst r last id [] taken others all found v same free before within = ground arith
take_delivery-IsFirst r last id (d ∷ waiting) taken others all found v same free before within =
    elim (Bool-cases (nat_eq d.id id)) [
      | inl this ↦
          let equal : d ≡ taken = ground arith in
          let left : waiting ≡ others = ground arith in
          let mine : (d.recipient == r) ≡ true = ap (λ o. o.recipient == r) equal ∙ same in
          let linked : is_linked r (some d.id) waiting ≡ true = ground arith in
          let first : last ≡ none =
            none_before last before (ground arith)
              (ap (λ o. is_waiting o.previous all) equal ∙ free) in
          record {
            unlinked = first;
            news = ground arith;
            linked =
                ap (λ w. is_linked r none w) (sym left)
                ∙ is_linked_first r (some d.id) waiting linked;
            ends_alike = λ t h.
                ap (λ w. is_link (last_id r none w) t) (sym left)
                ∙ last_id_first r (some d.id) waiting t (ground arith);
          }
      | inr other ↦ elim (Option-cases (take_delivery id waiting)) [
        | inl e ↦ ground arith
        | inr ((found', left), e) ↦
            let equal : found' ≡ taken = ground arith in
            let rest : d ∷ left ≡ others = ground arith in
            let same' : (found'.recipient == r) ≡ true = ap (λ o. o.recipient == r) equal ∙ same in
            let free' : is_waiting found'.previous all ≡ false =
              ap (λ o. is_waiting o.previous all) equal ∙ free in
            let within' : (j : ℕ)
                → is_waiting (some j) waiting ≡ true
                → is_waiting (some j) all ≡ true =
              λ j h. within j (ground arith) in
            elim (Bool-cases (d.recipient == r)) [
              | inl mine ↦
                  let later =
                    take_delivery-IsFirst r (some d.id) id waiting found' left all e (ground arith)
                      same' free' (λ j h. within j (ground arith)) within' in
                  let never = later.unlinked in ground arith
              | inr foreign ↦
                  let later =
                    take_delivery-IsFirst r last id waiting found' left all e (ground arith) same'
                      free' before within' in
                  record {
                    unlinked = later.unlinked;
                    news = ground (arith, later.news);
                    linked = ground (arith, later.linked);
                    ends_alike = λ t h. ground (arith, later.ends_alike t);
                  }
            ]
      ]
    ]
  where
    none_before :
        (last' : Option ℕ)
        → ((j : ℕ) → last' ≡ some j → is_waiting (some j) all ≡ true)
        → is_link last' d.previous ≡ true
        → is_waiting d.previous all ≡ false
        → last' ≡ none
    none_before none before' link free' = refl
    none_before (some j) before' link free' = ground (arith, before' j refl)

-- A delivery that is taken leaves the other recipients' as they are.
pub take_other :
    (r : String) (last : Option ℕ) (id : ℕ) (waiting : List Delivery) (taken : Delivery)
    (others : List Delivery)
    → take_delivery id waiting ≡ some (taken, others)
    → (taken.recipient == r) ≡ false
    → (news_of r others ≡ news_of r waiting)
      × (is_linked r last others ≡ is_linked r last waiting)
      × (last_id r last others ≡ last_id r last waiting)
unfolding take_delivery is_linked last_id
take_other r last id [] taken others found other = ground arith
take_other r last id (d ∷ waiting) taken others found other =
    elim (Option-cases (take_delivery id waiting)) [
      | inl e ↦ ground arith
      | inr ((found', left), e) ↦ ground (
        arith,
        take_other r last id waiting found' left e,
        take_other r (some d.id) id waiting found' left e,
      )
    ]

pub is_rising_lower :
    (low up high : ℕ) (waiting : List Delivery)
    → low ≤ up
    → is_rising up waiting high ≡ true
    → is_rising low waiting high ≡ true
unfolding is_rising
is_rising_lower low up high [] le v = ground arith
is_rising_lower low up high (d ∷ waiting) le v = ground arith

pub take_rising :
    (low id high : ℕ) (waiting : List Delivery) (taken : Delivery) (others : List Delivery)
    → take_delivery id waiting ≡ some (taken, others)
    → is_rising low waiting high ≡ true
    → is_rising low others high ≡ true
unfolding take_delivery is_rising
take_rising low id high [] taken others found v = ground arith
take_rising low id high (d ∷ waiting) taken others found v =
    elim (Option-cases (take_delivery id waiting)) [
      | inl e ↦ ground (arith, is_rising_lower low (suc d.id) high waiting)
      | inr ((found', left), e) ↦ ground (
        arith,
        is_rising_lower low (suc d.id) high waiting,
        take_rising (suc d.id) id high waiting found' left e,
      )
    ]

pub is_rising-append :
    (low high : ℕ) (waiting : List Delivery) (d : Delivery)
    → is_rising low waiting high ≡ true
    → d.id ≡ high
    → elim d.previous [ none ↦ true | some id ↦ ltb id d.id ] ≡ true
    → is_rising low (waiting ++ d ∷ []) (suc high) ≡ true
unfolding is_rising
is_rising-append low high [] d v last before = ground arith
is_rising-append low high (e ∷ waiting) d v last before =
    ground (arith, is_rising-append (suc e.id) high waiting d)

-- The first of the list waits for none.
pub first_free :
    (low high : ℕ) (d : Delivery) (waiting : List Delivery)
    → is_rising low (d ∷ waiting) high ≡ true
    → is_waiting d.previous (d ∷ waiting) ≡ false
unfolding is_rising
first_free low high d waiting v = elim (Option-cases d.previous) [
  | inl e ↦ ground arith
  | inr (j, e) ↦ ground (arith, above (suc d.id) waiting j)
]
  where
    above :
        (from : ℕ) (rest : List Delivery) (j : ℕ)
        → is_rising from rest high ≡ true
        → ltb j from ≡ true
        → exists (λ o. nat_eq o.id j) rest ≡ false
    above from [] j v' le = refl
    above from (o ∷ rest) j v' le = ground (arith, above (suc o.id) rest j)
