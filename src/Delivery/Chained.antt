-- ===== src/Delivery/Chained.antt =====
-- The tails of the recipients between the steps. (completion-router/index.ts)
use dreamux.Base.{
  ℕ, ◌<◌, ◌≡◌, refl, ap, ◌∙◌, String, true, false, none, some, List, ◌==◌, ltb, arith, Option-cases,
  inl, inr, Bool-cases,
}
use dreamux.Base.Dict.{lookup, lookup-insert}
use dreamux.Delivery.Policy.{Operation, PreparedCompletionDelivery}
use dreamux.Delivery.Router.{
  Delivery, CompletionDeliveryPolicy, initial, enqueue, take_delivery, is_waiting, run_delivery,
}
use dreamux.Delivery.Tails.{
  is_link, is_linked, last_id, is_rising, is_linked-append, is_linked-other, last_id-append,
}
use dreamux.Delivery.Taking.{
  IsFirst, take_delivery-IsFirst, take_other, take_rising, is_rising-append,
}

-- Each delivery waits for the one before it on its recipient's tail, of which the map has the last.
pub record IsChained (p : CompletionDeliveryPolicy) : Type 0 where
  pub linked : (r : String) → is_linked r none p.waiting ≡ true
  pub tailed : (r : String) → is_link (last_id r none p.waiting) (lookup r p.recipient_tails) ≡ true
  pub rising : is_rising 0 p.waiting p.next_id ≡ true
  pub below : (r : String) (j : ℕ) → lookup r p.recipient_tails ≡ some j → j < p.next_id

pub initial-IsChained : (timeout : ℕ) → IsChained (initial timeout)
unfolding initial is_linked last_id is_rising lookup
initial-IsChained timeout = record {
  linked = λ r. refl;
  tailed = λ r. refl;
  rising = refl;
  below = λ r j h. ground arith;
}

pub enqueue-IsChained :
    (p : CompletionDeliveryPolicy) (initiator completion : String)
    → IsChained p
    → IsChained (enqueue p initiator completion)
unfolding enqueue
enqueue-IsChained p initiator completion v =
    let d : Delivery = record {
      id = p.next_id;
      previous = lookup initiator p.recipient_tails;
      recipient = initiator;
      completion = completion;
    } in
    record {
      linked = λ r. elim (Bool-cases (initiator == r)) [
        | inl same ↦
            is_linked-append r none p.waiting d (v.linked r) same (ground (arith, v.tailed r))
        | inr other ↦ (is_linked-other r none p.waiting d (v.linked r) other).0
      ];
      tailed = λ r.
          let set = lookup-insert initiator r p.next_id p.recipient_tails in
          elim (Bool-cases (initiator == r)) [
            | inl same ↦ let last = last_id-append r none p.waiting d same in ground arith
            | inr other ↦
                let kept = (is_linked-other r none p.waiting d (v.linked r) other).1 in
                ground (arith, v.tailed r)
          ];
      rising = is_rising-append 0 p.next_id p.waiting d v.rising refl (earlier v initiator);
      below = λ r j h.
          ground (arith, lookup-insert initiator r p.next_id p.recipient_tails, v.below r j);
    }
  where
    earlier :
        IsChained p
        → (r : String)
        → elim (lookup r p.recipient_tails) [ none ↦ true | some id ↦ ltb id p.next_id ] ≡ true
    earlier v' r = elim (Option-cases (lookup r p.recipient_tails)) [
      | inl e ↦ ground arith
      | inr (j, e) ↦ ground (arith, v'.below r j e)
    ]

taken-IsChained :
    (p : CompletionDeliveryPolicy) (id : ℕ) (taken : Delivery) (others : List Delivery)
    → take_delivery id p.waiting ≡ some (taken, others)
    → is_waiting taken.previous p.waiting ≡ false
    → IsChained p
    → IsChained (record p { waiting = others })
taken-IsChained p id taken others found free v = record {
  linked = λ r. elim (Bool-cases (taken.recipient == r)) [
    | inl same ↦ (first r same).linked
    | inr other ↦ (take_other r none id p.waiting taken others found other).1 ∙ v.linked r
  ];
  tailed = λ r. elim (Bool-cases (taken.recipient == r)) [
    | inl same ↦ (first r same).ends_alike (lookup r p.recipient_tails) (v.tailed r)
    | inr other ↦
        ap (λ last. is_link last (lookup r p.recipient_tails))
          (take_other r none id p.waiting taken others found other).2
        ∙ v.tailed r
  ];
  rising = take_rising 0 id p.next_id p.waiting taken others found v.rising;
  below = v.below;
}
  where
    first : (r : String) → (taken.recipient == r) ≡ true → IsFirst r none p.waiting taken others
    first r same =
        take_delivery-IsFirst r none id p.waiting taken others p.waiting found (v.linked r) same
          free (λ j h. ground arith) (λ j h. h)

pub run_delivery-IsChained :
    (p : CompletionDeliveryPolicy) (id : ℕ) (prepare : Operation PreparedCompletionDelivery)
    → IsChained p
    → IsChained (run_delivery p id prepare)
unfolding run_delivery
run_delivery-IsChained p id prepare v = elim (Option-cases (take_delivery id p.waiting)) [
  | inl e ↦ rw (run_delivery, e) v
  | inr ((taken, others), e) ↦ elim (Bool-cases (is_waiting taken.previous p.waiting)) [
    | inl blocked ↦ rw (run_delivery, e, blocked) v
    | inr free ↦
        let w = taken-IsChained p id taken others e free v in
        rw (run_delivery, e, free)
          record { linked = w.linked; tailed = w.tailed; rising = w.rising; below = w.below }
  ]
]
